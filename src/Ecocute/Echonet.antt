-- ===== src/Ecocute/Echonet.antt =====
-- src/hedp/adapters/ecocute/echonet.py: Get requests, frames and their properties. The isinstance
-- checks are the argument types; an `int` argument may be negative.
pub mod Print
pub mod RoundTrip
use hedp.Prelude.{
  ℕ, zero, suc, ◌+◌, Bool, true, false, not, ◌&&◌, ◌||◌, Option, none, some, List, [], ◌∷◌, ◌++◌,
  map, ltb, leb, ◌==◌, if◌then◌else◌, length, get_or, slice, any, Result, ok, err, raise_if, ◌>>=◌,
  ◌>>◌,
}
use hedp.Prelude.Bytes.{Bytes, to_bytes, from_bytes}
use hedp.Prelude.Int.{ℤ, pos, pos_part, leb_ℤ, eq_ℤ}

abbrev pub format_1 : Bytes
format_1 = 0x10 ∷ 0x81 ∷ []

abbrev pub get_request : ℕ
get_request = 0x62

abbrev pub get_response : ℕ
get_response = 0x72

abbrev pub information : ℕ
information = 0x73

abbrev pub water_heater_class : Bytes
water_heater_class = 0x02 ∷ 0x6B ∷ []

abbrev pub controller_object : Bytes
controller_object = 0x05 ∷ 0xFF ∷ 0x01 ∷ []

-- One constructor for each message of `FrameError`.
pub data FrameError : Type 0 where
  too_short unsupported_header header_truncated data_truncated trailing_bytes : FrameError
  not_a_map empty_map list_length bitmap_length bitmap_count duplicate_epcs duplicate_map :
      FrameError
  maps_required one_byte two_bytes not_a_response duplicate_properties : FrameError

-- The `ValueError`s of `build_get_request`.
pub data RequestError : Type 0 where
  bad_transaction_id bad_instance_code no_epcs too_many_epcs repeated_epcs bad_epc : RequestError

pub record EchonetProperty : Type 0 where
  pub epc : ℕ
  pub value : Bytes

pub record EchonetFrame : Type 0 where
  pub transaction_id : ℕ
  pub source_object : Bytes
  pub destination_object : Bytes
  pub service : ℕ
  pub properties : List EchonetProperty

abbrev pub same_bytes : Bytes → Bytes → Bool
same_bytes [] [] = true
same_bytes (x ∷ xs) (y ∷ ys) = x == y && same_bytes xs ys
same_bytes _ _ = false

-- `is_water_heater_response`
unfoldable pub is_water_heater_response : EchonetFrame → Bool
is_water_heater_response f =
    same_bytes (slice f.source_object 0 2) water_heater_class
    && (f.service == get_response || f.service == information)

abbrev pub in_range : ℕ → ℕ → ℤ → Bool
in_range low high n = leb_ℤ (pos low) n && leb_ℤ n (pos high)

-- `len(set(epcs)) != len(epcs)`
abbrev pub repeats : List ℤ → Bool
repeats [] = false
repeats (e ∷ es) = any (eq_ℤ e) es || repeats es

abbrev pub request_properties : List ℤ → Bytes
request_properties [] = []
request_properties (e ∷ es) = pos_part e ∷ 0 ∷ request_properties es

unfoldable pub build_get_request : ℤ → List ℤ → ℤ → Result RequestError Bytes
build_get_request transaction_id epcs instance_code = do
  raise_if (not (in_range 0 0xFFFF transaction_id)) bad_transaction_id
  raise_if (not (in_range 1 0xFF instance_code)) bad_instance_code
  raise_if (length epcs == 0) no_epcs
  raise_if (ltb 0xFF (length epcs)) too_many_epcs
  raise_if (repeats epcs) repeated_epcs
  raise_if (any (λ e. not (in_range 0 0xFF e)) epcs) bad_epc
  let destination = water_heater_class ++ pos_part instance_code ∷ []
  ok (
      format_1
      ++ (to_bytes 2 (pos_part transaction_id)
          ++ (controller_object
              ++ (destination ++ (get_request ∷ length epcs ∷ request_properties epcs)))))

-- The loop over the announced properties, from `offset` on; it returns the offset it ends at.
unfoldable pub parse_properties : Bytes → ℕ → ℕ → Result FrameError (List EchonetProperty × ℕ)
parse_properties raw zero offset = ok ([], offset)
parse_properties raw (suc count) offset = do
  raise_if (ltb (length raw) (offset + 2)) header_truncated
  let epc = get_or raw offset 0
  let size = get_or raw (offset + 1) 0
  raise_if (ltb (length raw) (offset + 2 + size)) data_truncated
  (rest, last) ← parse_properties raw count (offset + 2 + size)
  ok (record { epc = epc; value = slice raw (offset + 2) (offset + 2 + size) } ∷ rest, last)

unfoldable pub parse_frame : Bytes → Result FrameError EchonetFrame
parse_frame raw = do
  raise_if (ltb (length raw) 12) too_short
  raise_if (not (same_bytes (slice raw 0 2) format_1)) unsupported_header
  (properties, last) ← parse_properties raw (get_or raw 11 0) 12
  raise_if (not (last == length raw)) trailing_bytes
  ok (record {
    transaction_id = from_bytes (slice raw 2 4);
    source_object = slice raw 4 7;
    destination_object = slice raw 7 10;
    service = get_or raw 10 0;
    properties = properties;
  })
