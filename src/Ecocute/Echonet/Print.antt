-- ===== src/Ecocute/Echonet/Print.antt =====
-- The byte form of a frame, as a specification: `parse_frame` is its inverse, both ways.
use mathlib.Core.List.{append_assoc, append-nil}
use hedp.Prelude.{
  ℕ, zero, suc, ◌+◌, ◌≤◌, ◌<◌, ◌≡◌, sym, ap, ◌∙◌, subst, true, List, [], ◌∷◌, ◌++◌, arith, ltb,
  Bool-cases, inl, inr, length, get_or, drop, slice, All, drop-step, slice-append-drop,
  length-slice, drop_cong, drop_all, ok, bind_returns,
}
use hedp.Prelude.Bytes.{Bytes, IsByte, to_bytes, from_bytes}
use hedp.Ecocute.Echonet.{
  same_bytes, EchonetProperty, EchonetFrame, parse_properties, parse_frame, format_1,
}

abbrev pub property_bytes : List EchonetProperty → Bytes
property_bytes [] = []
property_bytes (p ∷ ps) = p.epc ∷ length p.value ∷ (p.value ++ property_bytes ps)

abbrev pub frame_bytes : EchonetFrame → Bytes
frame_bytes f =
    format_1
    ++ (to_bytes 2 f.transaction_id
        ++ (f.source_object
            ++ (f.destination_object
                ++ (f.service ∷ length f.properties ∷ property_bytes f.properties))))

-- What the loop has read is what stands between its two offsets.
abbrev Reads : Bytes → ℕ → ℕ → List EchonetProperty → ℕ → Type 0
Reads raw count offset ps last =
    (length ps ≡ count)
    × (property_bytes ps ++ drop last raw ≡ drop offset raw)
    × (last ≤ length raw)

read_step :
    (raw : Bytes) (offset : ℕ)
    → offset + 2 + get_or raw (offset + 1) 0 ≤ length raw
    → get_or raw offset 0
        ∷ get_or raw (offset + 1) 0
        ∷ (slice raw (offset + 2) (offset + 2 + get_or raw (offset + 1) 0)
            ++ drop (offset + 2 + get_or raw (offset + 1) 0) raw)
      ≡ drop offset raw
read_step raw offset fits =
    let size = get_or raw (offset + 1) 0 in
    let front = λ (ys : Bytes). get_or raw offset 0 ∷ ys in
    ap (λ (ys : Bytes). front (size ∷ ys)) (slice-append-drop raw (offset + 2) size)
    ∙ ap (λ (ys : Bytes). front (size ∷ ys))
        (drop_cong (offset + 2) (offset + 1 + 1) raw (omega arith))
    ∙ ap front (sym (drop-step (offset + 1) 0 raw (omega arith)))
    ∙ sym (drop-step offset 0 raw (omega arith))

-- One round of the loop that does not raise.
parse_step :
    (raw : Bytes) (count offset : ℕ) (ps : List EchonetProperty) (last : ℕ)
    → parse_properties raw (suc count) offset ≡ ok (ps, last)
    → (rest : List EchonetProperty) × (offset + 2 + get_or raw (offset + 1) 0 ≤ length raw)
      × (parse_properties raw count (offset + 2 + get_or raw (offset + 1) 0) ≡ ok (rest, last))
      × (record {
        epc = get_or raw offset 0;
        value = slice raw (offset + 2) (offset + 2 + get_or raw (offset + 1) 0);
      }
            ∷ rest
          ≡ ps)
unfolding parse_properties
parse_step raw count offset ps last h = elim (Bool-cases (ltb (length raw) (offset + 2))) [
  | inl truncated ↦ (let bad = rw truncated at h in cc)
  | inr header ↦ elim (Bool-cases (ltb (length raw) (offset + 2 + get_or raw (offset + 1) 0))) [
    | inl truncated ↦ (let bad = rw (header, truncated) at h in cc)
    | inr whole ↦
        let ((rest, last'), more, e) =
          bind_returns (parse_properties raw count (offset + 2 + get_or raw (offset + 1) 0)) _
            (rw (header, whole) at h) in
        (rest, ground arith, ground arith, ground arith)
  ]
]

parse_properties-Reads :
    (raw : Bytes) (count offset : ℕ) (ps : List EchonetProperty) (last : ℕ)
    → offset ≤ length raw
    → parse_properties raw count offset ≡ ok (ps, last)
    → Reads raw count offset ps last
parse_properties-Reads raw zero offset ps last inside h = unfold parse_properties in ground arith
parse_properties-Reads raw (suc count) offset ps last inside h =
    let (rest, fits, more, e) = parse_step raw count offset ps last h in
    let size = get_or raw (offset + 1) 0 in
    let (counted, read, bound) =
      parse_properties-Reads raw count (offset + 2 + size) rest last fits more in
    subst (λ qs. Reads raw (suc count) offset qs last) e
      (
        ap suc counted,
        rw
            (
              length-slice raw (offset + 2) size fits,
              append_assoc (slice raw (offset + 2) (offset + 2 + size)) (property_bytes rest)
                  (drop last raw),
              read,
            )
            (read_step raw offset fits),
        bound,
      )

same_bytes-two : (a b c d : ℕ) → same_bytes (a ∷ b ∷ []) (c ∷ d ∷ []) ≡ true → (a ≡ c) × (b ≡ d)
same_bytes-two a b c d h = ground arith

two_bytes_back : (c d : ℕ) → c < 256 → d < 256 → to_bytes 2 (from_bytes (c ∷ d ∷ [])) ≡ c ∷ d ∷ []
two_bytes_back c d hc hd = ground arith

-- The fields of a frame that is accepted, and that its properties are read to the end.
parse_frame-fields :
    (raw : Bytes) (f : EchonetFrame)
    → parse_frame raw ≡ ok f
    → (12 ≤ length raw)
      × (same_bytes (slice raw 0 2) format_1 ≡ true)
      × (parse_properties raw (get_or raw 11 0) 12 ≡ ok (f.properties, length raw))
      × (f.transaction_id ≡ from_bytes (slice raw 2 4))
      × (f.source_object ≡ slice raw 4 7)
      × (f.destination_object ≡ slice raw 7 10)
      × (f.service ≡ get_or raw 10 0)
unfolding parse_frame
parse_frame-fields raw f h = elim (Bool-cases (ltb (length raw) 12)) [
  | inl short ↦ (let bad = rw short at h in cc)
  | inr long ↦ elim (Bool-cases (same_bytes (slice raw 0 2) format_1)) [
    | inl header ↦
        let ((ps, last), loop, end) =
          bind_returns (parse_properties raw (get_or raw 11 0) 12) _ (rw (long, header) at h) in
        ground arith
    | inr other ↦ (let bad = rw (long, other) at h in cc)
  ]
]

-- What the loop has read, when it has read to the end.
Reads-all :
    (raw : Bytes) (count offset : ℕ) (ps : List EchonetProperty)
    → Reads raw count offset ps (length raw)
    → property_bytes ps ≡ drop offset raw
Reads-all raw count offset ps (counted, read, bound) =
    sym (append-nil (property_bytes ps))
    ∙ ap (λ (ys : Bytes). property_bytes ps ++ ys) (sym (drop_all (length raw) raw (omega arith)))
    ∙ read

print_fields :
    (raw : Bytes) (f : EchonetFrame)
    → All IsByte raw
    → 12 ≤ length raw
    → same_bytes (slice raw 0 2) format_1 ≡ true
    → Reads raw (get_or raw 11 0) 12 f.properties (length raw)
    → f.transaction_id ≡ from_bytes (slice raw 2 4)
    → f.source_object ≡ slice raw 4 7
    → f.destination_object ≡ slice raw 7 10
    → f.service ≡ get_or raw 10 0
    → frame_bytes f ≡ raw
print_fields (a ∷ b ∷ c ∷ d ∷ e ∷ g ∷ i ∷ j ∷ k ∷ l ∷ m ∷ n ∷ rest) f bytes long header reads id
      source destination service =
    let raw = a ∷ b ∷ c ∷ d ∷ e ∷ g ∷ i ∷ j ∷ k ∷ l ∷ m ∷ n ∷ rest in
    let (h1, h2) = same_bytes-two a b 0x10 0x81 header in
    let all = Reads-all raw n 12 f.properties reads in
    let back = two_bytes_back c d bytes.1.1.0 bytes.1.1.1.0 in
    let counted : length f.properties ≡ n = reads.0 in ground arith
print_fields _ f bytes long header reads id source destination service = absurd (omega arith)

-- Nothing of an accepted frame is lost: the byte form of what is parsed from bytes is those bytes.
pub frame_bytes-parse_frame :
    (raw : Bytes) (f : EchonetFrame) → All IsByte raw → parse_frame raw ≡ ok f → frame_bytes f ≡ raw
frame_bytes-parse_frame raw f bytes h =
    let (long, header, loop, id, source, destination, service) = parse_frame-fields raw f h in
    print_fields raw f bytes long header
      (parse_properties-Reads raw (get_or raw 11 0) 12 f.properties (length raw) long loop) id
      source destination service
