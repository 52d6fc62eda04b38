-- ===== src/SmartLedz/Framing/Decoding.antt =====
-- `decode_frame` on the frames that `encode_frames` builds.
use Prim.Native.Nat.{bit_or}
use mathlib.Core.List.{append_assoc}
use hedp.Prelude.{
  ℕ, ◌-◌, ◌≤◌, ◌<◌, ◌≡◌, refl, ap, ◌∙◌, Bool, true, false, none, some, [], ◌∷◌, ◌++◌, arith, length,
  get_or, slice, take, drop, drop-append_self, length-append, take-append_self, get_or-append_last,
  ok,
}
use hedp.Prelude.Bytes.{Bytes, to_bytes, from_bytes-to_bytes_two, from_bytes-to_bytes_four}
use hedp.SmartLedz.Framing.{
  Frame, short_frame, fragment_frame, decode_frame, decode_short, decode_fragment, check_fragment,
  start, end, fragmented_flag, fragment_size,
}
use hedp.SmartLedz.Framing.Flags.{Reads}

abbrev pub whole : ℕ → Bool → Bytes → Frame
whole id n payload = record {
  request_id = id;
  payload = payload;
  notification = n;
  fragment_index = 0;
  fragment_count = 1;
  total_length = none;
}

abbrev pub fragment : ℕ → Bool → ℕ → ℕ → ℕ → Bytes → Frame
fragment id n count total index chunk = record {
  request_id = id;
  payload = chunk;
  notification = n;
  fragment_index = index;
  fragment_count = count;
  total_length = some total;
}

-- The end byte and the payload, as the decoder finds them behind a front of known length.
last_byte :
    (front payload : Bytes)
    → let raw = front ++ payload ++ end ∷ [] in get_or raw (length raw - 1) 0 ≡ end
last_byte front payload =
    get_or-append_last (front ++ payload) end 0 _
      (omega (arith, length-append (front ++ payload) (end ∷ [])))

body :
    (front payload : Bytes) (n : ℕ)
    → n ≡ length front
    → let raw = front ++ payload ++ end ∷ [] in slice raw n (length raw - 1) ≡ payload
body front payload n h =
    let tail = end ∷ [] in
    let size = length (front ++ payload ++ tail) - 1 - n in
    ap (λ (ys : Bytes). take size (drop n ys)) (append_assoc front payload tail)
    ∙ ap (take size) (drop-append_self front (payload ++ tail) n h)
    ∙ take-append_self payload tail size
        (omega (arith, length-append (front ++ payload) tail, length-append front payload))

pub decode-short_frame :
    (id flags : ℕ) (n : Bool) (payload : Bytes)
    → length payload < 65_536
    → Reads id n false flags
    → decode_frame (short_frame flags payload) ≡ ok (whole id n payload)
unfolding decode_frame decode_short
decode-short_frame id flags n payload fits r =
    let front = start ∷ flags ∷ to_bytes 2 (length payload) in
    ground (
      arith,
      length-append payload (end ∷ []),
      last_byte front payload,
      body front payload 4 refl,
      from_bytes-to_bytes_two (length payload) fits,
    )

pub decode-fragment_frame :
    (id flags : ℕ) (n : Bool) (index count total : ℕ) (chunk : Bytes)
    → index < count
    → 0 < total
    → total < 4_294_967_296
    → length chunk ≤ fragment_size
    → Reads id n true (bit_or flags fragmented_flag)
    → decode_frame (fragment_frame flags index count total chunk)
      ≡ ok (fragment id n count total index chunk)
unfolding decode_frame decode_fragment check_fragment
decode-fragment_frame id flags n index count total chunk inside some_bytes fits small r =
    let front = start ∷ bit_or flags fragmented_flag ∷ index ∷ count ∷ to_bytes 4 total in
    ground (
      arith,
      length-append chunk (end ∷ []),
      last_byte front chunk,
      body front chunk 8 refl,
      from_bytes-to_bytes_four total fits,
    )
