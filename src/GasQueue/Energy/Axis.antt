-- ===== src/GasQueue/Energy/Axis.antt =====
-- src/hedp/adapters/fusionsolar/energy_balance_record_builder.py: where the records of a day stand.
use Prim.Native.String.{String}
use hedp.Prelude.{
  ℕ, zero, suc, ◌+◌, ◌*◌, ◌<◌, ◌≡◌, ◌⊎◌, true, Option, some, List, [], ◌∷◌, any, All,
}
use hedp.Prelude.Texts.{str_eq}
use hedp.Prelude.Json.{Json, Members, get, text, as_list, as_object}
use hedp.GasQueue.Energy.{LocalTime, Readers, Record, series, daily}

-- The times from `start` on, five minutes apart.
unfoldable pub ladder : ℕ → ℕ → List ℕ
ladder start zero = []
ladder start (suc n) = start ∷ ladder (start + 300) n

abbrev pub IsRung : ℕ → ℕ → ℕ → Type 0
IsRung start n t = (i : ℕ) × (i < n) × (t ≡ start + 300 * i)

module _ (readers : Readers) where
  abbrev pub IsOn : Json → List Json → Type 0
  IsOn v [] = ⊥
  IsOn v (w ∷ axis) = (w ≡ v) ⊎ IsOn v axis

  -- A time of the axis, which is a text of the day.
  abbrev pub IsOfDay : String → List Json → ℕ → Type 0
  IsOfDay day axis t =
      (s : String) × (at : LocalTime) × (IsOn (text s) axis)
      × (readers.local_time s ≡ some at)
      × (at.day ≡ day)
      × (at.seconds ≡ t)

  -- A record of a series, at one of the times, which is of the day; and a record of the day, at its
  -- midnight.
  abbrev pub IsPlaced : String → String → List Json → ℕ → Record → Type 0
  IsPlaced source day axis start r =
      (r.source ≡ source)
      × (((any (str_eq r.metric) series ≡ true)
            × IsRung start 288 r.timestamp
            × IsOfDay day axis r.timestamp)
          ⊎ ((any (str_eq r.metric) daily ≡ true) × (r.timestamp ≡ readers.midnight day)))

  -- The records of the target date, from a start that is, as each of their times is, on the axis of
  -- the payload and of that date.
  abbrev pub AllPlaced : String → Members → Option String → List Record → Type 0
  AllPlaced source payload target_date records =
      (start : ℕ) × (day : String) × (target_date ≡ some day)
      × (ms : Members) × (as_object (get payload "data") ≡ some ms)
      × (axis : List Json) × (as_list (get ms "xAxis") ≡ some axis)
      × All (IsPlaced source day axis start) records
