-- ===== src/Modbus/Collector.antt =====
-- src/hedp/adapters/fusionsolar/modbus_collector.py: the register ranges of a collector and the raw
-- data that it collects. `str.isalnum` for one character is an argument; the time is, too.
pub mod Collected
use Prim.Native.String.{String}
use hedp.Prelude.{
  ℕ, Bool, true, false, not, ◌&&◌, ◌||◌, Option, none, some, List, [], ◌∷◌, ltb, leb, ◌==◌,
  if◌then◌else◌, length, any, all, Result, ok, err, raise_if, ◌>>=◌, ◌>>◌,
}
use hedp.Prelude.Int.{ℤ, pos, ◌+ℤ◌, ltb_ℤ, leb_ℤ}
use hedp.Prelude.Texts.{codes, str_eq}
use hedp.Modbus.Client.{
  Client, Network, ModbusError, ModbusReadResult, Outcome, read_holding_registers,
  read_input_registers,
}

pub data CollectorError : Type 0 where
  bad_name bad_function_code bad_start_address bad_register_count range_too_long : CollectorError
  no_target_alias no_ranges bad_continuity_id reason_without_id bad_continuity_reason :
      CollectorError
  read_failed : ModbusError → CollectorError

pub record ModbusRegisterRange : Type 0 where
  pub name : String
  pub function_code : ℕ
  pub start_address : ℤ
  pub count : ℤ

abbrev pub without_underscores : List ℕ → List ℕ
without_underscores [] = []
without_underscores (c ∷ cs) =
    let rest = without_underscores cs in if c == 0x5F then rest else c ∷ rest

-- `name.replace("_", "").isalnum()`: not of the empty text.
abbrev pub is_name : (ℕ → Bool) → String → Bool
is_name is_alnum name =
    let cs = without_underscores (codes name) in not (length cs == 0) && all is_alnum cs

-- `ModbusRegisterRange.__post_init__`
unfoldable pub check_range : (ℕ → Bool) → ModbusRegisterRange → Result CollectorError (Unit {0})
check_range is_alnum r = do
  raise_if (length (codes r.name) == 0 || not (is_name is_alnum r.name)) bad_name
  raise_if (not (r.function_code == 3 || r.function_code == 4)) bad_function_code
  raise_if (not (leb_ℤ (pos 0) r.start_address && leb_ℤ r.start_address (pos 65_535)))
      bad_start_address
  raise_if (not (leb_ℤ (pos 1) r.count && leb_ℤ r.count (pos 125))) bad_register_count
  raise_if (ltb_ℤ (pos 65_536) (r.start_address +ℤ r.count)) range_too_long

pub record Collector : Type 0 where
  pub target_alias : String
  pub register_ranges : List ModbusRegisterRange
  pub continuity_id : Option String
  pub continuity_reason : Option String

abbrev pub is_hex_digit : ℕ → Bool
is_hex_digit c = leb 0x30 c && leb c 0x39 || leb 0x61 c && leb c 0x66

abbrev pub is_token : String → Bool
is_token text = length (codes text) == 32 && all is_hex_digit (codes text)

abbrev pub continuity_reasons : List String
continuity_reasons =
    "initial" ∷ "continuous" ∷ "boot_changed" ∷ "scheduling_gap" ∷ "boot_evidence_unavailable"
    ∷ "boot_evidence_recovered" ∷ []

abbrev pub check_continuity : Option String → Option String → Result CollectorError (Unit {0})
check_continuity none none = ok tt
check_continuity none (some reason) = err reason_without_id
check_continuity (some id) none = raise_if (not (is_token id)) bad_continuity_id
check_continuity (some id) (some reason) = do
  raise_if (not (is_token id)) bad_continuity_id
  raise_if (not (any (str_eq reason) continuity_reasons)) bad_continuity_reason

-- `__init__`
unfoldable pub make_collector : Collector → Result CollectorError Collector
make_collector c = do
  raise_if (length (codes c.target_alias) == 0) no_target_alias
  raise_if (length c.register_ranges == 0) no_ranges
  check_continuity c.continuity_id c.continuity_reason
  ok c

-- One dict of `ranges`.
pub record RangeRecord : Type 0 where
  pub name : String
  pub function_code : ℕ
  pub start_address : ℕ
  pub registers : List ℕ

abbrev pub read_range : Network → Client → ModbusRegisterRange → Outcome
read_range network client d =
    if d.function_code == 3
    then read_holding_registers network client d.start_address d.count
    else read_input_registers network client d.start_address d.count

abbrev pub range_record : String → ModbusReadResult → RangeRecord
range_record name r = record {
  name = name;
  function_code = r.function_code;
  start_address = r.start_address;
  registers = r.registers;
}

-- The loop of `collect`: the first read that raises ends it.
unfoldable pub collect_ranges :
    Network → Client → List ModbusRegisterRange → Result ModbusError (List RangeRecord) × Client
collect_ranges network client [] = (ok [], client)
collect_ranges network client (d ∷ ds) =
    let outcome = read_range network client d in
    elim outcome.result [
      | err e ↦ (err e, outcome.client)
      | ok r ↦
          let (rest, last) = collect_ranges network outcome.client ds in
          (rest >>= λ records. ok (range_record d.name r ∷ records), last)
    ]

pub record RawData (T : Type 0) : Type 0 where
  pub source : String
  pub timestamp : T
  pub payload : List RangeRecord
  pub metadata : List (String × Option String)

abbrev pub metadata_of : Collector → List (String × Option String)
metadata_of c = elim c.continuity_id [
  | none ↦ ("target_alias", some c.target_alias) ∷ []
  | some id ↦
      ("target_alias", some c.target_alias)
      ∷ ("continuity_id", some id)
      ∷ ("continuity_reason", c.continuity_reason)
      ∷ []
]

unfoldable pub collect :
    {T : Type 0} → T → Network → Client → Collector → Result ModbusError (RawData T) × Client
collect now network client c =
    let (ranges, last) = collect_ranges network client c.register_ranges in
    (
      ranges >>= λ records. ok (record {
        source = "fusionsolar_modbus_tcp";
        timestamp = now;
        payload = records;
        metadata = metadata_of c;
      }),
      last,
    )
