-- ===== src/SmartLedz/Framing/Rejects.antt =====
-- What the decoder and `reassemble` insist on before they accept, and one thing they do not.
use hedp.Prelude.{
  ℕ, ◌+◌, ◌-◌, ◌≤◌, ◌<◌, ◌≡◌, ◌≢◌, refl, sym, ◌∙◌, Bool, Bool-cases, ltb, slice, true, false, not,
  none, some, List, [], ◌∷◌, arith, or-false, length, drop, length-take, length-drop, any, All, ok,
  ◌==◌, ◌⊎◌, inl, inr,
}
use hedp.Prelude.Bytes.{Bytes}
use hedp.Prelude.Sorting.{sorted}
use hedp.SmartLedz.Framing.{
  Frame, check_fragment, flags_of, fragment_frame, decode_frame, decode_short, decode_fragment,
  reassemble, reassemble_fragments, same_bool, same_length, join, by_index, fragment_size,
  indexes_from,
}
use hedp.SmartLedz.Framing.Flags.{fragment_Reads}
use hedp.SmartLedz.Framing.Decoding.{fragment, decode-fragment_frame}

-- The shape of a decoded frame: its place among the fragments, and how its sizes relate to the raw
-- frame.
abbrev pub IsPlaced : Bytes → Frame → Type 0
IsPlaced raw f =
    (f.fragment_index < f.fragment_count)
    × ((f.total_length ≡ none) × (f.fragment_count ≡ 1) × (length f.payload + 5 ≡ length raw)
        ⊎ (f.total_length ≢ none)
          × (f.total_length ≢ some 0)
          × (length f.payload + 9 ≡ length raw)
          × (length f.payload ≤ fragment_size))

check_fragment-IsPlaced :
    (raw : Bytes) (flags index count total : ℕ) (payload : Bytes) {f : Frame}
    → length payload + 9 ≡ length raw
    → check_fragment flags index count total payload ≡ ok f
    → IsPlaced raw f
unfolding check_fragment
check_fragment-IsPlaced raw flags index count total payload size h = ground arith

length-slice :
    (raw : Bytes) (n : ℕ)
    → n < length raw
    → length (slice raw n (length raw - 1)) + n + 1 ≡ length raw
length-slice raw n h =
    omega (arith, length-take (length raw - 1 - n) (drop n raw), length-drop n raw)

decode_fragment-IsPlaced : (raw : Bytes) {f : Frame} → decode_fragment raw ≡ ok f → IsPlaced raw f
unfolding decode_fragment
decode_fragment-IsPlaced raw {f} h = elim (Bool-cases (ltb (length raw) 9)) [
  | inl short ↦ (let refused = rw short at h in cc)
  | inr long ↦
      check_fragment-IsPlaced raw _ _ _ _ (slice raw 8 (length raw - 1))
        (omega (arith, length-slice raw 8 (ground arith))) (rw long at h)
]

decode_short-IsPlaced :
    (raw : Bytes) {f : Frame} → 5 ≤ length raw → decode_short raw ≡ ok f → IsPlaced raw f
unfolding decode_short
decode_short-IsPlaced raw long h =
    ground (arith, length-take (length raw - 1 - 4) (drop 4 raw), length-drop 4 raw)

-- Every frame that is decoded has an index below its count. It is whole, with a payload of all but
-- five of the bytes, or a fragment with a positive announced length and a payload of all but nine of
-- the bytes and at most 65,493.
pub decode_frame-IsPlaced : (raw : Bytes) {f : Frame} → decode_frame raw ≡ ok f → IsPlaced raw f
unfolding decode_frame
decode_frame-IsPlaced raw {f} h =
    ground (arith, decode_short-IsPlaced raw {f = f}, decode_fragment-IsPlaced raw {f = f})

abbrev pub AgreesWith : Frame → Frame → Type 0
AgreesWith first f =
    (f.request_id ≡ first.request_id)
    × (f.notification ≡ first.notification)
    × (f.fragment_count ≡ first.fragment_count)
    × (f.total_length ≡ first.total_length)

agrees :
    (first f : Frame)
    → not (f.request_id == first.request_id) ≡ false
    → not (same_bool f.notification first.notification) ≡ false
    → not (f.fragment_count == first.fragment_count) ≡ false
    → not (same_length f.total_length first.total_length) ≡ false
    → AgreesWith first f
agrees first f a b c d = ground arith

All-agree :
    (first : Frame) (fs : List Frame)
    → any (λ f. not (f.request_id == first.request_id)) fs ≡ false
    → any (λ f. not (same_bool f.notification first.notification)) fs ≡ false
    → any (λ f. not (f.fragment_count == first.fragment_count)) fs ≡ false
    → any (λ f. not (same_length f.total_length first.total_length)) fs ≡ false
    → All (AgreesWith first) fs
All-agree first [] a b c d = tt
All-agree first (f ∷ fs) a b c d =
    let (a', a'') = or-false _ _ a in
    let (b', b'') = or-false _ _ b in
    let (c', c'') = or-false _ _ c in
    let (d', d'') = or-false _ _ d in
    (agrees first f a' b' c' d', All-agree first fs a'' b'' c'' d'')

abbrev IsSound : Frame → List Frame → Bytes → Type 0
IsSound first frames payload =
    All (AgreesWith first) frames
    × (length frames ≡ first.fragment_count)
    × (indexes_from 0 (sorted by_index frames) ≡ true)
    × (payload ≡ join (sorted by_index frames))
    × (first.total_length ≡ some (length payload))

reassemble_fragments-IsSound :
    (first : Frame) (frames : List Frame) {payload : Bytes}
    → reassemble_fragments first frames ≡ ok payload
    → IsSound first frames payload
unfolding reassemble_fragments
reassemble_fragments-IsSound first frames h = ground (arith, All-agree first frames)

reassemble_several :
    (first second : Frame) (rest : List Frame)
    → reassemble (first ∷ second ∷ rest) ≡ reassemble_fragments first (first ∷ second ∷ rest)
unfolding reassemble
reassemble_several first second rest = ground arith

-- A message of several frames is accepted only if they agree in every shared field, their number is
-- the announced count, their indexes in order are 0, 1, 2, …, and the joined payload has the
-- announced length.
pub reassemble_sound :
    (first second : Frame) (rest : List Frame) {payload : Bytes}
    → reassemble (first ∷ second ∷ rest) ≡ ok payload
    → All (AgreesWith first) (first ∷ second ∷ rest)
      × (length (first ∷ second ∷ rest) ≡ first.fragment_count)
      × (indexes_from 0 (sorted by_index (first ∷ second ∷ rest)) ≡ true)
      × (payload ≡ join (sorted by_index (first ∷ second ∷ rest)))
      × (first.total_length ≡ some (length payload))
reassemble_sound first second rest h =
    reassemble_fragments-IsSound first (first ∷ second ∷ rest)
      (sym (reassemble_several first second rest) ∙ h)

-- A lone fragment that announces itself as one of one is taken as a whole message: any positive
-- announced length is accepted, also one that is not the length of the payload.
pub lone_fragment_unchecked :
    (id : ℕ) (n : Bool) (total : ℕ) (chunk : Bytes)
    → id < 64
    → 0 < total
    → total < 4_294_967_296
    → length chunk ≤ fragment_size
    → total ≢ length chunk
    → (f : Frame) × (decode_frame (fragment_frame (flags_of id n) 0 1 total chunk) ≡ ok f)
      × (f.total_length ≢ some (length f.payload))
      × (reassemble (f ∷ []) ≡ ok chunk)
unfolding reassemble
lone_fragment_unchecked id n total chunk small some_bytes fits size differs = (
  fragment id n 1 total 0 chunk,
  decode-fragment_frame id (flags_of id n) n 0 1 total chunk (omega arith) some_bytes fits size
      (fragment_Reads id n small),
  λ e. differs (ground arith),
  refl,
)
