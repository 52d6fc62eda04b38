-- ===== src/GasQueue/Energy.antt =====
-- src/hedp/adapters/fusionsolar/energy_balance_record_builder.py: the records of a day's energy
-- balance. Reading a local time (`datetime.fromisoformat` in Asia/Tokyo) and a float are arguments; a
-- time is its seconds in UTC.
pub mod Axis
use Prim.Native.String.{String}
use hedp.Prelude.{
  ℕ, ◌+◌, ◌-◌, Bool, true, false, not, ◌&&◌, Option, none, some, List, [], ◌∷◌, ◌++◌, ◌==◌, leb,
  if◌then◌else◌, length, any, Result, ok, err, raise_if, ◌>>=◌, ◌>>◌,
}
use hedp.Prelude.Int.{ℤ}
use hedp.Prelude.Texts.{str_eq}
use hedp.Prelude.Json.{
  Json, null, boolean, integer, float, text, array, object, Members, get, as_list, as_object,
  as_text,
}

pub data BuildError : Type 0 where
  data_not_object axis_not_288 series_length no_target_date axis_not_text : BuildError
  not_a_time axis_of_other_day axis_not_five_minutes : BuildError

pub data Number : Type 0 where
  whole : ℤ → Number
  real : String → Number

pub record Record : Type 0 where
  pub source : String
  pub timestamp : ℕ
  pub metric : String
  pub value : Number
  pub unit : String

-- What the library makes of the text of a local time: its date, and its seconds in UTC.
pub record LocalTime : Type 0 where
  pub day : String
  pub seconds : ℕ

-- The calls: `datetime.fromisoformat`, the midnight of a date, and `float` of a text.
pub record Readers : Type 0 where
  pub local_time : String → Option LocalTime
  pub midnight : String → ℕ
  pub float_of : String → Option String

abbrev pub series : List String
series =
    "productPower" ∷ "dieselProductPower" ∷ "mainsUsePower" ∷ "onGridPower" ∷ "disGridPower"
    ∷ "usePower" ∷ "selfUsePower" ∷ "chargePower" ∷ "dischargePower" ∷ "radiationDosePower" ∷ []

abbrev pub daily : List String
daily =
    "totalProductPower" ∷ "totalSelfUsePower" ∷ "totalOnGridPower" ∷ "totalBuyPower"
    ∷ "totalUsePower" ∷ "selfProvide" ∷ "onGridPowerRatio" ∷ "selfUsePowerRatioByProduct"
    ∷ "buyPowerRatio" ∷ "selfUsePowerRatioByUse" ∷ []

abbrev pub found_or : {A : Type 0} → BuildError → Option A → Result BuildError A
found_or e none = err e
found_or e (some v) = ok v

abbrev pub values_or_none : Option (List Json) → List Json
values_or_none none = []
values_or_none (some vs) = vs

-- The values of a series, once its length has been checked.
abbrev pub values_of : Members → String → List Json
values_of ms metric = values_or_none (as_list (get ms metric))

abbrev pub check_length : ℕ → Option (List Json) → Result BuildError (Unit {0})
check_length size none = err series_length
check_length size (some vs) = raise_if (not (length vs == size)) series_length

unfoldable pub check_series : Members → ℕ → List String → Result BuildError (Unit {0})
check_series ms size [] = ok tt
check_series ms size (metric ∷ metrics) =
    check_length size (as_list (get ms metric)) >> check_series ms size metrics

-- `(current - previous).total_seconds() != 300`, also where the axis goes back.
unfoldable pub check_steps : List ℕ → Result BuildError (Unit {0})
check_steps [] = ok tt
check_steps (t ∷ []) = ok tt
check_steps (t ∷ u ∷ ts) =
    raise_if (not (u == t + 300)) axis_not_five_minutes >> check_steps (u ∷ ts)

abbrev pub real_of : Option String → Option Number
real_of none = none
real_of (some s) = some (real s)

abbrev pub record_of : String → ℕ → String → Option Number → List Record
record_of source timestamp metric none = []
record_of source timestamp metric (some n) =
    record { source = source; timestamp = timestamp; metric = metric; value = n; unit = "unknown" }
    ∷ []

module _ (readers : Readers) where
  abbrev pub read_time : String → Json → Result BuildError ℕ
  read_time day v = do
    s ← found_or axis_not_text (as_text v)
    parsed ← found_or not_a_time (readers.local_time s)
    raise_if (not (str_eq parsed.day day)) axis_of_other_day
    ok parsed.seconds

  unfoldable pub read_axis : String → List Json → Result BuildError (List ℕ)
  read_axis day [] = ok []
  read_axis day (v ∷ vs) = do
    first ← read_time day v
    others ← read_axis day vs
    ok (first ∷ others)

  -- `_number`
  unfoldable pub number_of : Json → Option Number
  number_of (integer n) = some (whole n)
  number_of (float s) = some (real s)
  number_of (text s) = if str_eq s "--" then none else real_of (readers.float_of s)
  number_of _ = none

  -- `zip(timestamps, data[metric])`
  unfoldable pub series_records : String → String → List ℕ → List Json → List Record
  series_records source metric [] vs = []
  series_records source metric (t ∷ ts) [] = []
  series_records source metric (t ∷ ts) (v ∷ vs) =
      record_of source t metric (number_of v) ++ series_records source metric ts vs

  unfoldable pub all_series : String → List ℕ → Members → List String → List Record
  all_series source ts ms [] = []
  all_series source ts ms (metric ∷ metrics) =
      series_records source metric ts (values_of ms metric) ++ all_series source ts ms metrics

  unfoldable pub daily_records : String → ℕ → Members → List String → List Record
  daily_records source t ms [] = []
  daily_records source t ms (metric ∷ metrics) =
      record_of source t metric (number_of (get ms metric)) ++ daily_records source t ms metrics

  -- `build` of a raw data's source, payload and target date
  unfoldable pub build : String → Members → Option String → Result BuildError (List Record)
  build source payload target_date = do
    ms ← found_or data_not_object (as_object (get payload "data"))
    axis ← found_or axis_not_288 (as_list (get ms "xAxis"))
    raise_if (not (length axis == 288)) axis_not_288
    check_series ms 288 series
    day ← found_or no_target_date target_date
    timestamps ← read_axis day axis
    check_steps timestamps
    ok (
        all_series source timestamps ms series
        ++ daily_records source (readers.midnight day) ms daily)
