-- ===== src/Observations.antt =====
-- src/hedp/observations.py: quality, observation times and observed values. Reading an ISO-8601 text
-- (`datetime.fromisoformat`) is an argument: it returns the instant and whether there is an offset.
use Prim.Native.String.{String}
use hedp.Prelude.{
  ℕ, Bool, true, false, not, Option, none, some, ltb, Result, ok, err, raise_if, ◌>>=◌, ◌>>◌,
}

pub data Quality : Type 0 where
  good stale missing invalid estimated unknown : Quality

pub data ObservationError : Type 0 where
  not_iso_8601 no_offset received_too_early value_not_null value_null : ObservationError

abbrev pub IsoReader : Type 0
IsoReader = String → Option (ℕ × Bool)

unfoldable pub require_aware_datetime : IsoReader → String → Result ObservationError ℕ
require_aware_datetime read text = elim (read text) [
  | none ↦ err not_iso_8601
  | some (instant, has_offset) ↦ do raise_if (not has_offset) no_offset; ok instant
]

pub record ObservationTime : Type 0 where
  pub observed_at : String
  pub received_at : String

-- `ObservationTime.__post_init__`
unfoldable pub check_time : IsoReader → ObservationTime → Result ObservationError (Unit {0})
check_time read t = do
  observed ← require_aware_datetime read t.observed_at
  received ← require_aware_datetime read t.received_at
  raise_if (ltb received observed) received_too_early

pub record ObservedValue (T : Type 0) : Type 0 where
  pub value : Option T
  pub quality : Quality
  pub reason : Option String
  pub last_success_at : Option String

abbrev pub is_absent : Quality → Bool
is_absent missing = true
is_absent invalid = true
is_absent unknown = true
is_absent _ = false

-- The test of `ObservedValue.__post_init__` on the value.
abbrev pub check_value : {T : Type 0} → Bool → Option T → Result ObservationError (Unit {0})
check_value true none = ok tt
check_value true (some _) = err value_not_null
check_value false none = err value_null
check_value false (some _) = ok tt

abbrev pub check_last_success : IsoReader → Option String → Result ObservationError (Unit {0})
check_last_success read none = ok tt
check_last_success read (some text) = require_aware_datetime read text >>= λ _. ok tt

unfoldable pub check_observed :
    {T : Type 0} → IsoReader → ObservedValue T → Result ObservationError (Unit {0})
check_observed read v = do
  check_value (is_absent v.quality) v.value
  check_last_success read v.last_success_at

-- `ObservedValue(value, quality, reason)`
abbrev pub observed : {T : Type 0} → Option T → Quality → Option String → ObservedValue T
observed value quality reason = record {
  value = value;
  quality = quality;
  reason = reason;
  last_success_at = none;
}
