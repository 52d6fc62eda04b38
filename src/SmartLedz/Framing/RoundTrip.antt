-- ===== src/SmartLedz/Framing/RoundTrip.antt =====
-- What `encode_frames` sends, `decode_frame` and `reassemble` read back, in any order of arrival.
use mathlib.Core.List.{Permᴰ}
use hedp.Prelude.{
  ℕ, ◌≤◌, ◌<◌, ◌≡◌, refl, ap, ◌∙◌, subst, ◌⊎◌, inl, inr, Bool, List, [], ◌∷◌, arith, length, ok,
  bind_returns,
}
use hedp.Prelude.Bytes.{Bytes}
use hedp.Prelude.Int.{ℤ, pos_part}
use hedp.Prelude.Sorting.{All-perm, length-perm}
use hedp.SmartLedz.Framing.{
  Frame, flags_of, short_frame, fragment_frames, chunks, encode_frames, decode_frame, reassemble,
  short_limit,
}
use hedp.SmartLedz.Framing.Slices.{concat-chunks, chunks-fit, length-chunks}
use hedp.SmartLedz.Framing.Flags.{whole_Reads}
use hedp.SmartLedz.Framing.Decoding.{whole, decode-short_frame}
use hedp.SmartLedz.Framing.Fragments.{decode_all, fragments, decode_all-fragment_frames}
use hedp.SmartLedz.Framing.Reassembly.{reassemble-fragments_perm}

decode_all-cons :
    (raw : Bytes) (raws : List Bytes) {fs : List Frame}
    → decode_all (raw ∷ raws) ≡ ok fs
    → (f : Frame) × (gs : List Frame) × (decode_frame raw ≡ ok f)
      × (decode_all raws ≡ ok gs)
      × (f ∷ gs ≡ fs)
decode_all-cons raw raws h =
    let (f, first, more) = bind_returns (decode_frame raw) _ h in
    let (gs, rest, e) = bind_returns (decode_all raws) _ more in (f, gs, first, rest, cc)

-- Decoding frame by frame commutes with reordering.
decode_all-perm :
    {raws arrived : List Bytes} {fs : List Frame}
    → Permᴰ raws arrived
    → decode_all raws ≡ ok fs
    → (gs : List Frame) × (decode_all arrived ≡ ok gs) × Permᴰ fs gs
decode_all-perm Permᴰ.nil h = ([], refl, subst (λ xs. Permᴰ xs []) (cc) Permᴰ.nil)
decode_all-perm (Permᴰ.cons {a = a} {b = b} {l₁ = l} {l₂ = m} e p) h =
    let (f, gs, first, rest, same) = decode_all-cons a l h in
    let (hs, rest', r) = decode_all-perm p rest in
    (f ∷ hs, rw (← e, first, rest'), subst (λ xs. Permᴰ xs (f ∷ hs)) same (Permᴰ.cons refl r))
decode_all-perm (Permᴰ.swap {a = a} {b = b} {l = l} e d) h =
    let (f, fs, first, rest, same) = decode_all-cons a (b ∷ l) h in
    let (g, gs, second, rest', same') = decode_all-cons b l rest in
    (
      g ∷ f ∷ gs,
      rw (← e, ← d, second, first, rest'),
      subst (λ xs. Permᴰ xs (g ∷ f ∷ gs)) (ap (◌∷◌ f) same' ∙ same) (Permᴰ.swap refl refl),
    )
decode_all-perm (Permᴰ.trans p q) h =
    let (gs, decoded, r) = decode_all-perm p h in
    let (hs, decoded', r') = decode_all-perm q decoded in (hs, decoded', Permᴰ.trans r r')

-- The flags of an accepted request ID, and the frames of each of the two cases.
pub encode-cases :
    (payload : Bytes) (id : ℤ) (n : Bool) {raws : List Bytes}
    → encode_frames payload id n ≡ ok raws
    → (pos_part id < 64)
      × ((raws ≡ short_frame (flags_of (pos_part id) n) payload ∷ [])
            × (length payload < short_limit)
          ⊎ (raws
              ≡ fragment_frames
                  (flags_of (pos_part id) n)
                  (length (chunks payload))
                  (length payload)
                  0
                  (chunks payload))
            × (short_limit ≤ length payload)
            × (length (chunks payload) ≤ 255))
unfolding encode_frames
encode-cases payload id n h = ground arith

reassemble-whole :
    (id : ℕ) (n : Bool) (payload : Bytes) (frames : List Frame)
    → Permᴰ (whole id n payload ∷ []) frames
    → reassemble frames ≡ ok payload
unfolding reassemble
reassemble-whole id n payload [] p = absurd (omega (arith, length-perm p))
reassemble-whole id n payload (f ∷ []) p =
    let same = (All-perm (λ g. g ≡ whole id n payload) p (refl, tt)).0 in rw same
reassemble-whole id n payload (f ∷ g ∷ rest) p = absurd (omega (arith, length-perm p))

abbrev Delivers : Bytes → List Bytes → Type 0
Delivers payload arrived =
    (frames : List Frame) × (decode_all arrived ≡ ok frames) × (reassemble frames ≡ ok payload)

-- Frames that decode to a message which survives reordering are delivered.
deliver :
    (payload : Bytes) (fs : List Frame) {raws arrived : List Bytes}
    → decode_all raws ≡ ok fs
    → ((gs : List Frame) → Permᴰ fs gs → reassemble gs ≡ ok payload)
    → Permᴰ raws arrived
    → Delivers payload arrived
deliver payload fs decoded joins p =
    let (gs, decoded', q) = decode_all-perm p decoded in (gs, decoded', joins gs q)

module _ (payload : Bytes) (id : ℕ) (n : Bool) (small : id < 64) where
  decode_whole :
      length payload < short_limit
      → decode_all (short_frame (flags_of id n) payload ∷ []) ≡ ok (whole id n payload ∷ [])
  decode_whole short =
      rw (decode-short_frame id (flags_of id n) n payload (omega arith) (whole_Reads id n small))

  module _ (long : short_limit ≤ length payload) (few : length (chunks payload) ≤ 255) where
    decode_fragments :
        decode_all (
          fragment_frames
            (flags_of id n)
            (length (chunks payload))
            (length payload)
            0
            (chunks payload))
        ≡ ok (fragments id n (length (chunks payload)) (length payload) 0 (chunks payload))
    decode_fragments =
        decode_all-fragment_frames id n (length (chunks payload)) (length payload) small
          (omega arith) (omega (arith, length-chunks payload)) 0 (chunks payload) (omega arith)
          (chunks-fit payload)

    reassemble_sent :
        (gs : List Frame)
        → Permᴰ (fragments id n (length (chunks payload)) (length payload) 0 (chunks payload)) gs
        → reassemble gs ≡ ok payload
    reassemble_sent gs p =
        reassemble-fragments_perm id n (length (chunks payload)) (length payload)
          (omega (arith, length-chunks payload)) (chunks payload) gs refl
          (ap length (concat-chunks payload)) p
        ∙ ap ok (concat-chunks payload)

-- For every payload and request ID that `encode_frames` accepts, the frames that it returns, received
-- in any order, all decode, and `reassemble` returns the payload.
pub reassemble-encode_frames :
    (payload : Bytes) (id : ℤ) (n : Bool) {raws arrived : List Bytes}
    → encode_frames payload id n ≡ ok raws
    → Permᴰ raws arrived
    → (frames : List Frame) × (decode_all arrived ≡ ok frames) × (reassemble frames ≡ ok payload)
reassemble-encode_frames payload id n h p =
    let (small, cases) = encode-cases payload id n h in
    elim cases [
      | inl (e, short) ↦
          deliver payload _ (ap decode_all e ∙ decode_whole payload (pos_part id) n small short)
            (reassemble-whole (pos_part id) n payload) p
      | inr (e, long, few) ↦
          deliver payload _
            (ap decode_all e ∙ decode_fragments payload (pos_part id) n small long few)
            (reassemble_sent payload (pos_part id) n small long few) p
    ]
