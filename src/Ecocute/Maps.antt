-- ===== src/Ecocute/Maps.antt =====
-- The property maps and known properties of src/hedp/adapters/ecocute/echonet.py. A frozenset of
-- EPCs is the list of its elements, which the decoder has found to be distinct.
pub mod Bitmap
pub mod Access
use Prim.Native.Nat.{bit_and, bit_or}
use Prim.Native.String.{String}
use hedp.Prelude.{
  ℕ, zero, suc, ◌+◌, ◌-◌, ◌*◌, ◌^◌, Bool, true, false, not, ◌&&◌, ◌||◌, Option, none, some, List,
  [], ◌∷◌, ◌++◌, map, ltb, leb, ◌==◌, if◌then◌else◌, length, any, Result, ok, err, raise_if, ◌>>=◌,
  ◌>>◌,
}
use hedp.Prelude.Bytes.{Bytes, from_bytes}
use hedp.Prelude.Sorting.{sorted}
use hedp.Ecocute.Echonet.{
  FrameError, not_a_map, empty_map, list_length, bitmap_length, bitmap_count, duplicate_epcs,
  duplicate_map, maps_required, one_byte, two_bytes, EchonetProperty, EchonetFrame,
}

abbrev pub is_map_epc : ℕ → Bool
is_map_epc epc = epc == 0x9D || epc == 0x9E || epc == 0x9F

pub record EchonetPropertyMap : Type 0 where
  pub epc : ℕ
  pub properties : List ℕ

pub record EchonetPropertyMaps : Type 0 where
  pub inf : Option EchonetPropertyMap
  pub set : Option EchonetPropertyMap
  pub get : Option EchonetPropertyMap

pub record ReadOnlyCapability : Type 0 where
  pub epc : ℕ
  pub name : Option String

-- `_CONFIRMED_PROPERTY_NAMES.get`
unfoldable pub confirmed_property_name : ℕ → Option String
confirmed_property_name epc =
    if epc == 0x80
    then some "operation_state"
    else if epc == 0x86
    then some "manufacturer_fault_code"
    else if epc == 0x88
    then some "fault_state"
    else if epc == 0x89
    then some "fault_detail"
    else if epc == 0x9D
    then some "inf_property_map"
    else if epc == 0x9E
    then some "set_property_map"
    else if epc == 0x9F
    then some "get_property_map"
    else if epc == 0xB0
    then some "heating_mode"
    else if epc == 0xB2
    then some "heating_active"
    else if epc == 0xC3
    then some "hot_water_in_use"
    else if epc == 0xD1
    then some "supply_temperature_setpoint_c"
    else if epc == 0xD3
    then some "bath_temperature_setpoint_c"
    else if epc == 0xE1
    then some "remaining_hot_water_l"
    else if epc == 0xEA
    then some "bath_operation_state"
    else none

-- `((high_nibble + 8) << 4) | low_nibble`
abbrev pub bitmap_epc : ℕ → ℕ → ℕ
bitmap_epc low high = bit_or ((high + 8) * 16) low

-- `bitmap & (1 << high_nibble)`
abbrev pub has_bit : ℕ → ℕ → Bool
has_bit bitmap high = not (bit_and bitmap (2 ^ high) == 0)

-- The inner loop of the generator: the `rounds` high nibbles from `high` on.
unfoldable pub bitmap_row : ℕ → ℕ → ℕ → ℕ → List ℕ
bitmap_row low bitmap zero high = []
bitmap_row low bitmap (suc rounds) high =
    let rest = bitmap_row low bitmap rounds (high + 1) in
    if has_bit bitmap high then bitmap_epc low high ∷ rest else rest

-- The outer loop, over `enumerate(prop.data[1:])`.
unfoldable pub bitmap_epcs : ℕ → Bytes → List ℕ
bitmap_epcs low [] = []
bitmap_epcs low (bitmap ∷ rows) = bitmap_row low bitmap 8 0 ++ bitmap_epcs (low + 1) rows

-- `len(set(epcs)) != len(epcs)`
unfoldable pub repeats : List ℕ → Bool
repeats [] = false
repeats (e ∷ es) = any (λ x. e == x) es || repeats es

-- The EPCs that the data byte `count` and the bytes after it stand for.
unfoldable pub map_epcs : ℕ → Bytes → Result FrameError (List ℕ)
map_epcs count rest =
    if ltb count 16 then (do raise_if (not (length rest == count)) list_length; ok rest) else do
      raise_if (not (length rest == 16)) bitmap_length
      raise_if (not (length (bitmap_epcs 0 rest) == count)) bitmap_count
      ok (bitmap_epcs 0 rest)

unfoldable pub decode_map_data : ℕ → Bytes → Result FrameError EchonetPropertyMap
decode_map_data epc [] = err empty_map
decode_map_data epc (count ∷ rest) = do
  epcs ← map_epcs count rest
  raise_if (repeats epcs) duplicate_epcs
  ok (record { epc = epc; properties = epcs })

unfoldable pub decode_property_map : EchonetProperty → Result FrameError EchonetPropertyMap
decode_property_map p = do
  raise_if (not (is_map_epc p.epc)) not_a_map
  decode_map_data p.epc p.value

-- The dict `maps`, keyed by EPC.
abbrev pub find_map : ℕ → List EchonetPropertyMap → Option EchonetPropertyMap
find_map epc [] = none
find_map epc (m ∷ ms) = if m.epc == epc then some m else find_map epc ms

unfoldable pub collect_maps :
    List EchonetProperty → List EchonetPropertyMap → Result FrameError (List EchonetPropertyMap)
collect_maps [] maps = ok maps
collect_maps (p ∷ ps) maps =
    let skipped = collect_maps ps maps in
    if not (is_map_epc p.epc) then skipped else do
      raise_if (any (λ m. m.epc == p.epc) maps) duplicate_map
      m ← decode_property_map p
      collect_maps ps (m ∷ maps)

unfoldable pub decode_property_maps : EchonetFrame → Result FrameError EchonetPropertyMaps
unfolding collect_maps
decode_property_maps f = do
  maps ← collect_maps f.properties []
  ok (record { inf = find_map 0x9D maps; set = find_map 0x9E maps; get = find_map 0x9F maps })

-- `get - set`
abbrev pub difference : List ℕ → List ℕ → List ℕ
difference [] set = []
difference (e ∷ es) set =
    let rest = difference es set in if any (λ x. e == x) set then rest else e ∷ rest

abbrev pub capability : ℕ → ReadOnlyCapability
capability epc = record { epc = epc; name = confirmed_property_name epc }

unfoldable pub classify_read_only_capabilities :
    EchonetPropertyMaps → Result FrameError (List ReadOnlyCapability)
classify_read_only_capabilities maps = elim maps.get [
  | none ↦ err maps_required
  | some get ↦ elim maps.set [
    | none ↦ err maps_required
    | some set ↦ ok (map capability (sorted (λ e. e) (difference get.properties set.properties)))
  ]
]

-- The values of `decode_known_property`; `None` is `not_normalized`, and "unknown" has its own constructor.
pub data Known : Type 0 where
  flag : Bool → Known
  word : String → Known
  number : ℕ → Known
  unknown_value : Known
  not_normalized : Known

-- `prop.data[0]` of data that holds one byte.
abbrev pub single : Bytes → Result FrameError ℕ
single (b ∷ []) = ok b
single _ = err one_byte

abbrev pub on_off : ℕ → Known
on_off b =
    if b == 0x30 || b == 0x41
    then flag true
    else if b == 0x31 || b == 0x42
    then flag false
    else unknown_value

abbrev pub fault : ℕ → Known
fault b = if b == 0x41 then word "fault" else if b == 0x42 then word "no_fault" else unknown_value

abbrev pub heating_mode : ℕ → Known
heating_mode b =
    if b == 0x41
    then word "automatic"
    else if b == 0x42
    then word "manual_boost"
    else if b == 0x43
    then word "manual_stop"
    else unknown_value

unfoldable pub decode_known_property : EchonetProperty → Result FrameError Known
decode_known_property p =
    if p.epc == 0x80 || p.epc == 0xB2 || p.epc == 0xC0 || p.epc == 0xC3 || p.epc == 0xE3
    then (do b ← single p.value; ok (on_off b))
    else if p.epc == 0x88
    then (do b ← single p.value; ok (fault b))
    else if p.epc == 0xB0
    then (do b ← single p.value; ok (heating_mode b))
    else if p.epc == 0xD1 || p.epc == 0xD3
    then (do b ← single p.value; ok (number b))
    else if p.epc == 0xE1
    then (do raise_if (not (length p.value == 2)) two_bytes; ok (number (from_bytes p.value)))
    else ok not_normalized
