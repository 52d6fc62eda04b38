-- ===== src/SmartLedz/Framing/Slices.antt =====
-- The chunks of a payload, joined, are the payload.
use hedp.Prelude.{
  ℕ, zero, suc, ◌+◌, ◌-◌, ◌*◌, ◌/◌, ◌≤◌, ◌≡◌, refl, sym, ap, ◌∙◌, List, [], ◌∷◌, ◌++◌, map, arith,
  length, drop, slice, All, length-take, drop_all, slice-append-drop, All-take, All-drop,
}
use hedp.Prelude.Bytes.{Bytes, IsByte}
use hedp.SmartLedz.Framing.{offsets, chunks, fragment_size}

abbrev pub concat : List Bytes → Bytes
concat [] = []
concat (c ∷ cs) = c ++ concat cs

module _ (size : ℕ) (payload : Bytes) where
  abbrev cut : ℕ → Bytes
  cut offset = slice payload offset (offset + size)

  concat-cuts :
      (count offset : ℕ)
      → length payload ≤ offset + count * size
      → concat (map cut (offsets size count offset)) ≡ drop offset payload
  concat-cuts zero offset h = sym (drop_all offset payload (omega arith))
  concat-cuts (suc count) offset h =
      ap (λ (ys : Bytes). cut offset ++ ys) (concat-cuts count (offset + size) (omega arith))
      ∙ slice-append-drop payload offset size

  chunk_length : (offset : ℕ) → length (cut offset) ≤ size
  chunk_length offset = omega (arith, length-take (offset + size - offset) (drop offset payload))

  length-cuts : (count offset : ℕ) → length (map cut (offsets size count offset)) ≡ count
  length-cuts zero offset = refl
  length-cuts (suc count) offset = ap suc (length-cuts count (offset + size))

  cuts-fit : (count offset : ℕ) → All (λ c. length c ≤ size) (map cut (offsets size count offset))
  cuts-fit zero offset = tt
  cuts-fit (suc count) offset = (chunk_length offset, cuts-fit count (offset + size))

  cuts-IsByte :
      All IsByte payload
      → (count offset : ℕ) → All (All IsByte) (map cut (offsets size count offset))
  cuts-IsByte h zero offset = tt
  cuts-IsByte h (suc count) offset = (
    All-take IsByte (offset + size - offset) (drop offset payload)
        (All-drop IsByte offset payload h),
    cuts-IsByte h count (offset + size),
  )

pub chunks-IsByte : (payload : Bytes) → All IsByte payload → All (All IsByte) (chunks payload)
unfolding chunks
chunks-IsByte payload h = cuts-IsByte fragment_size payload h _ 0

pub concat-chunks : (payload : Bytes) → concat (chunks payload) ≡ payload
unfolding chunks
concat-chunks payload = concat-cuts fragment_size payload _ 0 (omega arith)

pub chunks-fit : (payload : Bytes) → All (λ c. length c ≤ fragment_size) (chunks payload)
unfolding chunks
chunks-fit payload = cuts-fit fragment_size payload _ 0

pub length-chunks :
    (payload : Bytes)
    → length (chunks payload) ≡ (length payload + fragment_size - 1) / fragment_size
unfolding chunks
length-chunks payload = length-cuts fragment_size payload _ 0
