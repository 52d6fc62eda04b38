-- ===== src/SmartLedz/Framing/Fragments.antt =====
-- The frames of one fragmented message, as they are decoded.
use hedp.Prelude.{
  ℕ, suc, ◌+◌, ◌≤◌, ◌<◌, ◌≡◌, ◌≢◌, refl, ap, Bool, true, some, List, [], ◌∷◌, ◌++◌, arith, length,
  All, Result, ok, ◌>>=◌,
}
use hedp.Prelude.Bytes.{Bytes}
use hedp.Prelude.Sorting.{KeysDiffer, Ascending}
use hedp.SmartLedz.Framing.{
  Frame, FrameError, flags_of, fragment_frames, decode_frame, indexes_from, join, by_index,
  fragment_size,
}
use hedp.SmartLedz.Framing.Slices.{concat}
use hedp.SmartLedz.Framing.Flags.{fragment_Reads}
use hedp.SmartLedz.Framing.Decoding.{fragment, decode-fragment_frame}

-- `[decode_frame(raw) for raw in raws]`: the first bad frame raises.
abbrev pub decode_all : List Bytes → Result FrameError (List Frame)
decode_all [] = ok []
decode_all (raw ∷ raws) = do f ← decode_frame raw; fs ← decode_all raws; ok (f ∷ fs)

module _ (id : ℕ) (n : Bool) (count total : ℕ) where
  abbrev pub fragments : ℕ → List Bytes → List Frame
  fragments index [] = []
  fragments index (c ∷ cs) = fragment id n count total index c ∷ fragments (index + 1) cs

  module _ (small : id < 64) (some_bytes : 0 < total) (fits : total < 4_294_967_296) where
    pub decode_all-fragment_frames :
        (index : ℕ) (cs : List Bytes)
        → index + length cs ≤ count
        → All (λ c. length c ≤ fragment_size) cs
        → decode_all (fragment_frames (flags_of id n) count total index cs)
          ≡ ok (fragments index cs)
    decode_all-fragment_frames index [] h all_fit = refl
    decode_all-fragment_frames index (c ∷ cs) h all_fit = rw (
      decode-fragment_frame id (flags_of id n) n index count total c (omega arith) some_bytes fits
          all_fit.0 (fragment_Reads id n small),
      decode_all-fragment_frames (index + 1) cs (omega arith) all_fit.1,
    )

  pub join-fragments : (index : ℕ) (cs : List Bytes) → join (fragments index cs) ≡ concat cs
  join-fragments index [] = refl
  join-fragments index (c ∷ cs) = ap (λ (ys : Bytes). c ++ ys) (join-fragments (index + 1) cs)

  pub length-fragments : (index : ℕ) (cs : List Bytes) → length (fragments index cs) ≡ length cs
  length-fragments index [] = refl
  length-fragments index (c ∷ cs) = ap suc (length-fragments (index + 1) cs)

  fragments_from :
      (least index : ℕ) (cs : List Bytes)
      → least ≤ index
      → All (λ f. least ≤ f.fragment_index) (fragments index cs)
  fragments_from least index [] h = tt
  fragments_from least index (c ∷ cs) h = (h, fragments_from least (index + 1) cs (omega arith))

  fragments_after :
      (least index : ℕ) (cs : List Bytes)
      → least < index
      → All (λ f. least ≢ f.fragment_index) (fragments index cs)
  fragments_after least index [] h = tt
  fragments_after least index (c ∷ cs) h =
      (omega arith, fragments_after least (index + 1) cs (omega arith))

  pub fragments-Ascending : (index : ℕ) (cs : List Bytes) → Ascending by_index (fragments index cs)
  fragments-Ascending index [] = tt
  fragments-Ascending index (c ∷ cs) =
      (fragments_from index (index + 1) cs (omega arith), fragments-Ascending (index + 1) cs)

  pub fragments-KeysDiffer :
      (index : ℕ) (cs : List Bytes) → KeysDiffer by_index (fragments index cs)
  fragments-KeysDiffer index [] = tt
  fragments-KeysDiffer index (c ∷ cs) =
      (fragments_after index (index + 1) cs (omega arith), fragments-KeysDiffer (index + 1) cs)

  pub fragments_indexed :
      (index : ℕ) (cs : List Bytes) → indexes_from index (fragments index cs) ≡ true
  fragments_indexed index [] = refl
  fragments_indexed index (c ∷ cs) = ground (arith, fragments_indexed (index + 1) cs)

-- What the frames of one message have in common.
abbrev pub Shares : ℕ → Bool → ℕ → ℕ → Frame → Type 0
Shares id n count total f =
    (f.request_id ≡ id)
    × (f.notification ≡ n)
    × (f.fragment_count ≡ count)
    × (f.total_length ≡ some total)

pub fragments-Shares :
    (id : ℕ) (n : Bool) (count total index : ℕ) (cs : List Bytes)
    → All (Shares id n count total) (fragments id n count total index cs)
fragments-Shares id n count total index [] = tt
fragments-Shares id n count total index (c ∷ cs) =
    ((refl, refl, refl, refl), fragments-Shares id n count total (index + 1) cs)
