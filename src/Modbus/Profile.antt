-- ===== src/Modbus/Profile.antt =====
-- src/hedp/adapters/fusionsolar/modbus_profiles.py: the SUN2000 ranges and their decoding. A quotient
-- of floats is the pair of its operands; the model text is its code points.
pub mod Decoding
pub mod Complete
use Prim.Native.Nat.{bit_or}
use Prim.Native.String.{String}
use hedp.Prelude.{
  ℕ, zero, suc, ◌+◌, ◌-◌, ◌*◌, Bool, true, false, Option, none, some, List, [], ◌∷◌, ◌++◌, ltb, leb,
  ◌==◌, if◌then◌else◌, Result, ok, err, raise_if, ◌>>=◌, ◌>>◌,
}
use hedp.Prelude.Bytes.{Bytes, to_bytes, from_bytes}
use hedp.Prelude.Int.{ℤ, pos, negsuc, sub_ℕ}
use hedp.Prelude.Texts.{is_space}
use hedp.Modbus.Collector.{ModbusRegisterRange, RangeRecord}

abbrev pub sun2000_jpl1_ranges : List ModbusRegisterRange
sun2000_jpl1_ranges =
    record { name = "identity"; function_code = 3; start_address = pos 30_000; count = pos 15 }
    ∷ record {
      name = "inverter_realtime";
      function_code = 3;
      start_address = pos 32_064;
      count = pos 52;
    }
    ∷ record {
      name = "storage_realtime";
      function_code = 3;
      start_address = pos 37_000;
      count = pos 5;
    }
    ∷ []

-- A missing key of the dict, and a value that `struct.pack` does not take as 16 bits.
pub data ProfileError : Type 0 where
  missing_address not_a_word : ProfileError

abbrev pub WordTable : Type 0
WordTable = List (ℕ × ℕ)

-- The inner loop of the dict comprehension.
abbrev pub range_words : ℕ → List ℕ → WordTable
range_words address [] = []
range_words address (w ∷ ws) = (address, w) ∷ range_words (address + 1) ws

-- The dict `words`, in the order in which its keys are set.
abbrev pub word_table : List RangeRecord → WordTable
word_table [] = []
word_table (r ∷ rs) = range_words r.start_address r.registers ++ word_table rs

-- A later value of a key replaces an earlier one.
abbrev pub find_word : ℕ → WordTable → Option ℕ
find_word address [] = none
find_word address ((a, w) ∷ table) = elim (find_word address table) [
  | some later ↦ some later
  | none ↦ if a == address then some w else none
]

-- `words[address]`
unfoldable pub word_at : WordTable → ℕ → Result ProfileError ℕ
word_at table address = elim (find_word address table) [
  | none ↦ err missing_address
  | some w ↦ ok w
]

-- `words[address]` as an argument of `struct.pack`
unfoldable pub packed_word : WordTable → ℕ → Result ProfileError ℕ
packed_word table address = do w ← word_at table address; raise_if (ltb 65_535 w) not_a_word; ok w

-- `(words[address] << 16) | words[address + 1]`
unfoldable pub u32 : WordTable → ℕ → Result ProfileError ℕ
u32 table address = do
  high ← word_at table address
  low ← word_at table (address + 1)
  ok (bit_or (high * 65_536) low)

-- `struct.unpack(">i", ...)`
abbrev pub signed_32 : ℕ → ℤ
signed_32 n = if leb 2_147_483_648 n then sub_ℕ n 4_294_967_296 else pos n

unfoldable pub i32 : WordTable → ℕ → Result ProfileError ℤ
i32 table address = do
  high ← packed_word table address
  low ← packed_word table (address + 1)
  ok (signed_32 (from_bytes (to_bytes 2 high ++ to_bytes 2 low)))

abbrev pub i16 : ℕ → ℤ
i16 value = if leb 32_768 value then sub_ℕ value 65_536 else pos value

abbrev pub device_status : ℕ → String
device_status value =
    if value == 0x0000
    then "standby_initializing"
    else if value == 0x0001
    then "standby_insulation_detection"
    else if value == 0x0002
    then "standby_irradiation_detection"
    else if value == 0x0100
    then "starting"
    else if value == 0x0200
    then "on_grid"
    else if value == 0x0201
    then "on_grid_power_limited"
    else if value == 0x0202
    then "on_grid_self_derating"
    else if value == 0x0300
    then "shutdown_fault"
    else if value == 0x0301
    then "shutdown_command"
    else if value == 0x0303
    then "shutdown_communication_disconnected"
    else if value == 0xA000
    then "standby_no_irradiation"
    else "unknown"

-- The bytes of `struct.pack(">15H", ...)`: `count` words from `address` on.
unfoldable pub packed_words : WordTable → ℕ → ℕ → Result ProfileError Bytes
packed_words table zero address = ok []
packed_words table (suc count) address = do
  w ← packed_word table address
  rest ← packed_words table count (address + 1)
  ok (to_bytes 2 w ++ rest)

-- `split(b"\0", 1)[0]`
abbrev pub before_nul : Bytes → Bytes
before_nul [] = []
before_nul (b ∷ bs) = let rest = before_nul bs in if b == 0 then [] else b ∷ rest

-- `decode("ascii", errors="replace")`
abbrev pub ascii_text : Bytes → List ℕ
ascii_text [] = []
ascii_text (b ∷ bs) = (if ltb b 128 then b else 0xFFFD) ∷ ascii_text bs

abbrev pub strip_left : List ℕ → List ℕ
strip_left [] = []
strip_left (c ∷ cs) = let rest = strip_left cs in if is_space c then rest else c ∷ cs

abbrev pub strip_right : List ℕ → List ℕ
strip_right [] = []
strip_right (c ∷ cs) = elim (strip_right cs) [
  | [] ↦ if is_space c then [] else c ∷ []
  | d ∷ ds ↦ c ∷ d ∷ ds
]

abbrev pub model_text : Bytes → List ℕ
model_text raw = strip_right (strip_left (ascii_text (before_nul raw)))

-- A number and what it is divided by.
pub record Quotient (N : Type 0) : Type 0 where
  pub over : N
  pub by : ℕ

abbrev pub quotient : {N : Type 0} → N → ℕ → Quotient N
quotient over by = record { over = over; by = by }

pub record InverterReading : Type 0 where
  pub model : List ℕ
  pub input_power_kw : Quotient ℤ
  pub active_power_kw : Quotient ℤ
  pub grid_frequency_hz : Quotient ℕ
  pub internal_temperature_c : Quotient ℤ
  pub device_status_code : ℕ
  pub device_status : String
  pub total_yield_kwh : Quotient ℕ
  pub daily_yield_kwh : Quotient ℕ
  pub storage_status_code : ℕ
  pub storage_power_kw : Quotient ℤ
  pub storage_soc_percent : Quotient ℕ

unfoldable pub decode_sun2000_jpl1 : List RangeRecord → Result ProfileError InverterReading
decode_sun2000_jpl1 ranges = do
  let table = word_table ranges
  model ← packed_words table 15 30_000
  status_code ← word_at table 32_089
  input_power ← i32 table 32_064
  active_power ← i32 table 32_080
  frequency ← word_at table 32_085
  temperature ← word_at table 32_087
  total_yield ← u32 table 32_106
  daily_yield ← u32 table 32_114
  storage_status ← word_at table 37_000
  storage_power ← i32 table 37_001
  storage_soc ← word_at table 37_004
  ok (record {
    model = model_text model;
    input_power_kw = quotient input_power 1_000;
    active_power_kw = quotient active_power 1_000;
    grid_frequency_hz = quotient frequency 100;
    internal_temperature_c = quotient (i16 temperature) 10;
    device_status_code = status_code;
    device_status = device_status status_code;
    total_yield_kwh = quotient total_yield 100;
    daily_yield_kwh = quotient daily_yield 100;
    storage_status_code = storage_status;
    storage_power_kw = quotient storage_power 1_000;
    storage_soc_percent = quotient storage_soc 10;
  })
