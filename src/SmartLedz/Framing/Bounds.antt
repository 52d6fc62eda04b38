-- ===== src/SmartLedz/Framing/Bounds.antt =====
-- Which messages `encode_frames` accepts, and that it returns bytes of bounded length.
use Prim.Native.Nat.{bit_or}
use hedp.Prelude.{
  ℕ, ◌+◌, ◌*◌, ◌≤◌, ◌<◌, ◌≡◌, ◌↔◌, refl, Bool, true, false, ◌&&◌, List, [], ◌∷◌, ◌++◌, arith, ltb,
  length, All, All-append, length-append, ok, holds_to, holds_to_at, Bool-cases, inl, inr,
}
use hedp.Prelude.Bytes.{Bytes, IsByte}
use hedp.Prelude.Int.{ℤ, pos, ◌≤ℤ◌, pos_part}
use hedp.SmartLedz.Framing.{
  flags_of, short_frame, fragment_frame, fragment_frames, chunks, encode_frames, fragmented_flag,
  end, fragment_size, short_limit,
}
use hedp.SmartLedz.Framing.Slices.{length-chunks, chunks-fit, chunks-IsByte}
use hedp.SmartLedz.Framing.RoundTrip.{encode-cases}

-- `encode_frames` returns frames exactly for the request IDs 0 to 63 and the payloads of at most
-- 255 fragments, 16,700,715 bytes.
pub encode_frames-accepts :
    (payload : Bytes) (id : ℤ) (n : Bool)
    → ((raws : List Bytes) × (encode_frames payload id n ≡ ok raws))
      ↔ ((pos 0 ≤ℤ id) × (id ≤ℤ pos 63) × (length payload ≤ 255 * fragment_size))
unfolding encode_frames
encode_frames-accepts payload id n = (
  λ (raws, h). ground (arith, length-chunks payload),
  λ h. elim (Bool-cases (ltb (length payload) short_limit)) [
    | inl short ↦ (short_frame (flags_of (pos_part id) n) payload ∷ [], ground arith)
    | inr long ↦ (
      fragment_frames (flags_of (pos_part id) n) (length (chunks payload)) (length payload) 0
          (chunks payload),
      ground (arith, length-chunks payload),
    )
  ],
)

flags_table :
    (n : Bool)
    → holds_to
        (λ id. ltb (flags_of id n) 256 && ltb (bit_or (flags_of id n) fragmented_flag) 256)
        64
      ≡ true
unfolding holds_to
flags_table true = refl
flags_table false = refl

-- A frame is bytes, no longer than 65,505.
abbrev pub IsWire : Bytes → Type 0
IsWire raw = All IsByte raw × (length raw ≤ 65_505)

abbrev BodyFits : Bytes → Type 0
BodyFits payload =
    All IsByte (payload ++ end ∷ []) × (length (payload ++ end ∷ []) ≡ length payload + 1)

body-fits : (payload : Bytes) → All IsByte payload → BodyFits payload
body-fits payload h =
    (All-append IsByte payload (end ∷ []) h (omega arith, tt), length-append payload (end ∷ []))

module _ (id : ℕ) (n : Bool) (small : id < 64) where
  flags-IsByte : (flags_of id n < 256) × (bit_or (flags_of id n) fragmented_flag < 256)
  flags-IsByte = ground (
    arith,
    holds_to_at (λ id. ltb (flags_of id n) 256 && ltb (bit_or (flags_of id n) fragmented_flag) 256)
        64 id small (flags_table n),
  )

  short_frame-IsWire :
      (payload : Bytes)
      → All IsByte payload
      → length payload < short_limit
      → IsWire (short_frame (flags_of id n) payload)
  short_frame-IsWire payload bytes short =
      let (all_bytes, size) = body-fits payload bytes in
      let (flags, _) = flags-IsByte in
      ((omega arith, (flags, (omega arith, (omega arith, all_bytes)))), omega arith)

  fragment_frame-IsWire :
      (index count total : ℕ) (chunk : Bytes)
      → index < 256
      → count < 256
      → All IsByte chunk
      → length chunk ≤ fragment_size
      → IsWire (fragment_frame (flags_of id n) index count total chunk)
  fragment_frame-IsWire index count total chunk hi hc bytes fits =
      let (all_bytes, size) = body-fits chunk bytes in
      let (_, flags) = flags-IsByte in
      (
        (
          omega arith,
          (
            flags,
            (hi, (hc, (omega arith, (omega arith, (omega arith, (omega arith, all_bytes)))))),
          ),
        ),
        omega arith,
      )

  fragment_frames-IsWire :
      (count total index : ℕ) (cs : List Bytes)
      → index + length cs ≤ count
      → count < 256
      → All (All IsByte) cs
      → All (λ c. length c ≤ fragment_size) cs
      → All IsWire (fragment_frames (flags_of id n) count total index cs)
  fragment_frames-IsWire count total index [] h hc bytes fits = tt
  fragment_frames-IsWire count total index (c ∷ cs) h hc bytes fits = (
    fragment_frame-IsWire index count total c (omega arith) hc bytes.0 fits.0,
    fragment_frames-IsWire count total (index + 1) cs (omega arith) hc bytes.1 fits.1,
  )

-- Of a payload of bytes, every frame that `encode_frames` returns is a list of bytes, at most 65,505
-- of them.
pub encode_frames-IsWire :
    (payload : Bytes) (id : ℤ) (n : Bool) {raws : List Bytes}
    → All IsByte payload
    → encode_frames payload id n ≡ ok raws
    → All IsWire raws
encode_frames-IsWire payload id n bytes h =
    let (small, cases) = encode-cases payload id n h in
    elim cases [
      | inl (e, short) ↦ rw e (short_frame-IsWire (pos_part id) n small payload bytes short, tt)
      | inr (e, long, few) ↦ rw e (
          fragment_frames-IsWire (pos_part id) n small (length (chunks payload)) (length payload) 0
            (chunks payload) (omega arith) (omega arith) (chunks-IsByte payload bytes)
            (chunks-fit payload))
    ]
