-- ===== src/Ecocute/Echonet/RoundTrip.antt =====
-- `parse_frame` on the byte form of a frame, and on the requests that `build_get_request` returns.
use mathlib.Core.List.{append_assoc, append-nil}
use hedp.Prelude.{
  ℕ, ◌+◌, ◌-◌, ◌≤◌, ◌<◌, ◌≡◌, refl, sym, ap, ◌∙◌, subst, false, not, List, [], ◌∷◌, ◌++◌, arith,
  length, get_or, take, drop, slice, All, length-append, get_or-drop, length-drop, drop-drop,
  drop-append_self, take-append_self, ok, map, length-map, or-false, any,
}
use hedp.Prelude.Bytes.{Bytes, IsByte, to_bytes, from_bytes-to_bytes_two}
use hedp.Prelude.Int.{ℤ, pos_part}
use hedp.Ecocute.Echonet.{
  in_range, EchonetProperty, EchonetFrame, parse_properties, parse_frame, format_1,
  build_get_request, get_request, request_properties, water_heater_class, controller_object,
  is_water_heater_response,
}
use hedp.Ecocute.Echonet.Print.{property_bytes, frame_bytes}

module _ (raw : Bytes) (offset : ℕ) (p : EchonetProperty) (rest : Bytes)
    (here : drop offset raw ≡ p.epc ∷ length p.value ∷ (p.value ++ rest)) where
  read_epc : get_or raw offset 0 ≡ p.epc
  read_epc =
      ap (λ (k : ℕ). get_or raw k 0) (omega arith)
      ∙ sym (get_or-drop offset 0 0 raw)
      ∙ ap (λ (ys : Bytes). get_or ys 0 0) here

  read_size : get_or raw (offset + 1) 0 ≡ length p.value
  read_size = sym (get_or-drop offset 1 0 raw) ∙ ap (λ (ys : Bytes). get_or ys 1 0) here

  read_fits : offset + 2 + length p.value ≤ length raw
  read_fits = omega (arith, length-drop offset raw, ap length here, length-append p.value rest)

  read_rest : drop (offset + 2) raw ≡ p.value ++ rest
  read_rest = sym (drop-drop offset 2 raw) ∙ ap (drop 2) here

  read_value : slice raw (offset + 2) (offset + 2 + length p.value) ≡ p.value
  read_value =
      ap (take (offset + 2 + length p.value - (offset + 2))) read_rest
      ∙ take-append_self p.value rest _ (omega arith)

  read_next : drop (offset + 2 + length p.value) raw ≡ rest
  read_next =
      sym (drop-drop (offset + 2) (length p.value) raw)
      ∙ ap (drop (length p.value)) read_rest
      ∙ drop-append_self p.value rest (length p.value) refl

parse_properties-print :
    (raw : Bytes) (offset : ℕ) (ps : List EchonetProperty) (back : Bytes)
    → drop offset raw ≡ property_bytes ps ++ back
    → parse_properties raw (length ps) offset ≡ ok (ps, offset + length (property_bytes ps))
unfolding parse_properties
parse_properties-print raw offset [] back here = ap (λ (k : ℕ). ok ([], k)) (omega arith)
parse_properties-print raw offset (p ∷ ps) back here =
    let there =
      here
      ∙ ap (λ (ys : Bytes). p.epc ∷ length p.value ∷ ys)
          (append_assoc p.value (property_bytes ps) back) in
    let tail = property_bytes ps ++ back in
    let next =
      parse_properties-print raw (offset + 2 + length p.value) ps back
        (read_next raw offset p tail there) in
    ground (
      arith,
      read_epc raw offset p tail there,
      read_size raw offset p tail there,
      read_fits raw offset p tail there,
      read_value raw offset p tail there,
      next,
      length-append p.value (property_bytes ps),
    )

print_core :
    (t a b c d e g service : ℕ) (ps : List EchonetProperty)
    → t < 65_536
    → let f : EchonetFrame = record {
      transaction_id = t;
      source_object = a ∷ b ∷ c ∷ [];
      destination_object = d ∷ e ∷ g ∷ [];
      service = service;
      properties = ps;
    } in
      parse_frame (frame_bytes f) ≡ ok f
unfolding parse_frame
print_core t a b c d e g service ps fits =
    let raw =
      format_1
      ++ (to_bytes 2 t ++ (a ∷ b ∷ c ∷ d ∷ e ∷ g ∷ service ∷ length ps ∷ property_bytes ps)) in
    ground (
      arith,
      parse_properties-print raw 12 ps [] (sym (append-nil (property_bytes ps))),
      from_bytes-to_bytes_two t fits,
    )

three : (xs : Bytes) → length xs ≡ 3 → (a : ℕ) × (b : ℕ) × (c : ℕ) × (xs ≡ a ∷ b ∷ c ∷ [])
three (a ∷ b ∷ c ∷ []) h = (a, b, c, refl)
three [] h = absurd (omega arith)
three (a ∷ []) h = absurd (omega arith)
three (a ∷ b ∷ []) h = absurd (omega arith)
three (a ∷ b ∷ c ∷ d ∷ xs) h = absurd (omega arith)

-- The byte form of every frame with a 16-bit transaction ID and objects of three bytes is parsed
-- back to the frame, whatever its properties.
pub parse_frame-frame_bytes :
    (f : EchonetFrame)
    → f.transaction_id < 65_536
    → length f.source_object ≡ 3
    → length f.destination_object ≡ 3
    → parse_frame (frame_bytes f) ≡ ok f
parse_frame-frame_bytes f fits source destination =
    let (a, b, c, from) = three f.source_object source in
    let (d, e, g, to) = three f.destination_object destination in
    let same : record {
      transaction_id = f.transaction_id;
      source_object = a ∷ b ∷ c ∷ [];
      destination_object = d ∷ e ∷ g ∷ [];
      service = f.service;
      properties = f.properties;
    }
        ≡ f =
      (λ k. record f { source_object = sym from k; destination_object = sym to k }) in
    subst (λ (x : EchonetFrame). parse_frame (frame_bytes x) ≡ ok x) same
      (print_core f.transaction_id a b c d e g f.service f.properties fits)

-- A property of a request has no data.
abbrev pub asked : ℤ → EchonetProperty
asked e = record { epc = pos_part e; value = [] }

-- The frame that a Get request stands for.
abbrev pub request_frame : ℤ → List ℤ → ℤ → EchonetFrame
request_frame transaction_id epcs instance_code = record {
  transaction_id = pos_part transaction_id;
  source_object = controller_object;
  destination_object = water_heater_class ++ pos_part instance_code ∷ [];
  service = get_request;
  properties = map asked epcs;
}

request_properties-print :
    (epcs : List ℤ) → request_properties epcs ≡ property_bytes (map asked epcs)
request_properties-print [] = refl
request_properties-print (e ∷ es) =
    ap (λ (ys : Bytes). pos_part e ∷ 0 ∷ ys) (request_properties-print es)

request_properties-IsByte :
    (epcs : List ℤ)
    → any (λ e. not (in_range 0 0xFF e)) epcs ≡ false
    → All IsByte (request_properties epcs)
request_properties-IsByte [] h = tt
request_properties-IsByte (e ∷ es) h =
    let (this, others) = or-false _ _ h in
    (ground arith, (omega arith, request_properties-IsByte es others))

abbrev request_bytes : ℕ → ℕ → List ℤ → Bytes
request_bytes t i epcs =
    format_1
    ++ (to_bytes 2 t
        ++ (controller_object
            ++ ((water_heater_class ++ i ∷ [])
                ++ (get_request ∷ length epcs ∷ request_properties epcs))))

build_get_request-fields :
    (t : ℤ) (epcs : List ℤ) (i : ℤ) {raw : Bytes}
    → build_get_request t epcs i ≡ ok raw
    → (pos_part t < 65_536)
      × (pos_part i < 256)
      × (length epcs < 256)
      × (any (λ e. not (in_range 0 0xFF e)) epcs ≡ false)
      × (request_bytes (pos_part t) (pos_part i) epcs ≡ raw)
unfolding build_get_request
build_get_request-fields t epcs i h = ground arith

request_bytes-print :
    (t : ℤ) (epcs : List ℤ) (i : ℤ)
    → request_bytes (pos_part t) (pos_part i) epcs ≡ frame_bytes (request_frame t epcs i)
request_bytes-print t epcs i = rw (request_properties-print epcs, length-map epcs asked)

request_bytes-IsByte :
    (t i : ℕ) (epcs : List ℤ)
    → i < 256
    → length epcs < 256
    → All IsByte (request_properties epcs)
    → All IsByte (request_bytes t i epcs)
request_bytes-IsByte t i epcs hi few bytes = ground arith

-- A Get request that is built is bytes, and is parsed as a Get by the controller to the water heater
-- of the given instance, for the given EPCs in order, each without data; it is not taken for a
-- response.
pub parse_frame-build_get_request :
    (transaction_id : ℤ) (epcs : List ℤ) (instance_code : ℤ) {raw : Bytes}
    → build_get_request transaction_id epcs instance_code ≡ ok raw
    → All IsByte raw
      × (parse_frame raw ≡ ok (request_frame transaction_id epcs instance_code))
      × (is_water_heater_response (request_frame transaction_id epcs instance_code) ≡ false)
parse_frame-build_get_request t epcs i h =
    let (small, instance_byte, few, ranges, e) = build_get_request-fields t epcs i h in
    let printed = sym e ∙ request_bytes-print t epcs i in
    (
      subst (All IsByte) e (
          request_bytes-IsByte (pos_part t) (pos_part i) epcs instance_byte few
            (request_properties-IsByte epcs ranges)),
      ap parse_frame printed ∙ parse_frame-frame_bytes (request_frame t epcs i) small refl refl,
      unfold is_water_heater_response in refl,
    )
