-- ===== src/SmartLedz/Commands.antt =====
-- src/hedp/adapters/smartledz/read_commands.py: the read commands and their payloads.
pub mod ReadOnly
use Prim.Native.String.{String}
use hedp.Prelude.{
  ℕ, ◌≤◌, ◌≡◌, refl, Bool, Bool-cases, inl, inr, true, false, not, ◌&&◌, Option, none, some, List,
  [], ◌∷◌, ◌++◌, arith, ◌==◌, length, any, All, Result, ok, err, raise_if, ◌>>=◌, ◌>>◌,
}
use hedp.Prelude.Int.{ℤ, pos, pos_part, leb_ℤ}
use hedp.Prelude.Texts.{str_eq}

pub data CommandError : Type 0 where
  out_of_range no_type_codes : CommandError

-- The values of a payload.
pub data Argument : Type 0 where
  word : String → Argument
  number : ℕ → Argument
  numbers : List ℕ → Argument

pub record ReadCommand : Type 0 where
  pub command : String
  pub arguments : List (String × Argument)

abbrev pub sensor_type_codes : List ℤ
sensor_type_codes = pos 60 ∷ pos 61 ∷ pos 62 ∷ []

-- `_integer`, with its default bounds
unfoldable pub integer : ℤ → Result CommandError ℕ
integer value = do
  raise_if (not (leb_ℤ (pos 0) value && leb_ℤ value (pos 0xFFFF))) out_of_range
  ok (pos_part value)

unfoldable pub payload : ReadCommand → List (String × Argument)
payload c = ("c", word c.command) ∷ c.arguments

unfoldable pub integers : List ℤ → Result CommandError (List ℕ)
integers [] = ok []
integers (value ∷ values) = do n ← integer value; ns ← integers values; ok (n ∷ ns)

unfoldable pub group_list : ℤ → Result CommandError ReadCommand
group_list gateway_id = do
  gateway ← integer gateway_id
  ok (record { command = "GroupList"; arguments = ("gateway_id", number gateway) ∷ [] })

unfoldable pub group_get : ℤ → ℤ → Result CommandError ReadCommand
group_get gateway_id group_id = do
  gateway ← integer gateway_id
  group ← integer group_id
  ok (record {
    command = "GroupGet";
    arguments = ("gateway_id", number gateway) ∷ ("group_id", number group) ∷ [];
  })

unfoldable pub device_list : ℤ → ℤ → List ℤ → Result CommandError ReadCommand
device_list gateway_id group_id type_codes = do
  raise_if (length type_codes == 0) no_type_codes
  validated ← integers type_codes
  gateway ← integer gateway_id
  group ← integer group_id
  ok (record {
    command = "DeviceList";
    arguments =
        ("gateway_id", number gateway)
        ∷ ("group_id", number group)
        ∷ ("type_codes", numbers validated)
        ∷ [];
  })

unfoldable pub device_get : ℤ → ℤ → Result CommandError ReadCommand
device_get gateway_id device_id = do
  gateway ← integer gateway_id
  device ← integer device_id
  ok (record {
    command = "DeviceGet";
    arguments = ("gateway_id", number gateway) ∷ ("device_id", number device) ∷ [];
  })

unfoldable pub schedule_get : ℤ → ℤ → ℤ → Result CommandError ReadCommand
schedule_get gateway_id group_id schedule_id = do
  gateway ← integer gateway_id
  schedule ← integer schedule_id
  group ← integer group_id
  ok (record {
    command = "GroupScheduleGet";
    arguments =
        ("gateway_id", number gateway)
        ∷ ("schedule_id", number schedule)
        ∷ ("group_id", number group)
        ∷ [];
  })

-- The optional last argument of `sensor_lux`.
unfoldable pub mode_argument : Option ℤ → Result CommandError (List (String × Argument))
mode_argument none = ok []
mode_argument (some mode) = do m ← integer mode; ok (("mode", number m) ∷ [])

unfoldable pub sensor_lux : ℤ → ℤ → Option ℤ → Result CommandError ReadCommand
sensor_lux gateway_id destination mode = do
  gateway ← integer gateway_id
  dest ← integer destination
  rest ← mode_argument mode
  ok (record {
    command = "DeviceSensorSwitchGetLuxValues";
    arguments = ("gateway_id", number gateway) ∷ ("dest", number dest) ∷ rest;
  })
