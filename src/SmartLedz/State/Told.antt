-- ===== src/SmartLedz/State/Told.antt =====
-- src/hedp/adapters/smartledz/state.py: the list of sensors, of a gateway that tells of them.
use Prim.Native.String.{String}
use hedp.Prelude.{
  ℕ, ◌+◌, ◌≤◌, ◌≡◌, ◌↔◌, refl, sym, ap, ◌∙◌, subst, Bool, true, false, Option, none, some, List, [],
  ◌∷◌, map, arith, Result, ok, err, inl, inr, Option-cases,
}
use hedp.Prelude.Int.{ℤ, pos, eq_ℤ}
use hedp.Prelude.Json.{
  Json, null, integer, array, object, no_members, member, from_list, to_list-from_list,
}
use hedp.Observations.{good, invalid, unknown, ObservationTime}
use hedp.SmartLedz.State.{
  AliasMap, find_alias, target_of, RowFault, invalid_row, unmapped_row, SensorState, read_sensor,
  accepted_members, Collected, ParsedCollection, parsed, parse_data, response_rows,
  normalize_sensor_list,
}
use hedp.SmartLedz.State.Rows.{count, kept, is_invalid, is_unmapped, tally, parse_data-summarize}

-- A sensor as the gateway knows it.
pub record Sensor : Type 0 where
  pub id : ℤ
  pub device_type : ℤ
  pub special_type_code : ℤ
  pub online : Option Bool

-- What stands in a row: a sensor, or something that is no row.
pub data Told : Type 0 where
  sensor : Sensor → Told
  no_row : Told

abbrev pub online_json : Option Bool → Json
online_json none = null
online_json (some true) = integer (pos 1)
online_json (some false) = integer (pos 0)

-- The ID is the first of a row, the types are its fifth and sixth, and whether the sensor is online
-- its fourteenth.
abbrev pub row_json : Told → Json
row_json no_row = null
row_json (sensor s) = array (
    from_list (
      integer s.id
      ∷ null
      ∷ null
      ∷ null
      ∷ integer s.device_type
      ∷ integer s.special_type_code
      ∷ null
      ∷ null
      ∷ null
      ∷ null
      ∷ null
      ∷ null
      ∷ null
      ∷ online_json s.online
      ∷ []))

abbrev pub answer_of : ℤ → List Told → Json
answer_of code told = object (
    member "ErrorCode" (integer code)
      (member "data" (array (from_list (map row_json told))) no_members))

abbrev pub state_of : String → Sensor → SensorState
state_of target s = record {
  target_ref = target;
  device_type = s.device_type;
  special_type_code = s.special_type_code;
  online = s.online;
}

module _ (aliases : AliasMap) where
  abbrev pub with_alias : Option String → Sensor → List SensorState → List SensorState
  with_alias none s others = others
  with_alias (some target) s others = state_of target s ∷ others

  -- The sensors that have an alias, in their order.
  abbrev pub known : List Told → List SensorState
  known [] = []
  known (sensor s ∷ told) = with_alias (find_alias aliases s.id) s (known told)
  known (no_row ∷ told) = known told

  abbrev pub one_if_none : Option String → ℕ
  one_if_none none = 1
  one_if_none (some _) = 0

  abbrev pub strangers : List Told → ℕ
  strangers [] = 0
  strangers (sensor s ∷ told) = strangers told + one_if_none (find_alias aliases s.id)
  strangers (no_row ∷ told) = strangers told

  abbrev pub no_rows : List Told → ℕ
  no_rows [] = 0
  no_rows (sensor s ∷ told) = no_rows told
  no_rows (no_row ∷ told) = no_rows told + 1

  abbrev outcome : Option String → Sensor → Result RowFault SensorState
  outcome none s = err unmapped_row
  outcome (some target) s = ok (state_of target s)

  abbrev target_result : Option String → Result RowFault String
  target_result none = err unmapped_row
  target_result (some target) = ok target

  target_of-found :
      (id : ℤ) (o : Option String)
      → find_alias aliases id ≡ o
      → target_of aliases id ≡ target_result o
  target_of-found id none found = rw (target_of, found) refl
  target_of-found id (some target) found = rw (target_of, found) refl

  read_sensor-no_row : read_sensor aliases null ≡ err invalid_row
  unfolding read_sensor
  read_sensor-no_row = refl

  read_sensor-told :
      (s : Sensor) (o : Option String) (online : Option Bool)
      → find_alias aliases s.id ≡ o
      → s.online ≡ online
      → read_sensor aliases (row_json (sensor s)) ≡ outcome o s
  unfolding read_sensor
  read_sensor-told s none none found is_online = rw (is_online, target_of-found s.id _ found) refl
  read_sensor-told s none (some true) found is_online =
      rw (is_online, target_of-found s.id _ found) refl
  read_sensor-told s none (some false) found is_online =
      rw (is_online, target_of-found s.id _ found) refl
  read_sensor-told s (some target) none found is_online =
      rw (is_online, target_of-found s.id _ found) refl
  read_sensor-told s (some target) (some true) found is_online =
      rw (is_online, target_of-found s.id _ found) refl
  read_sensor-told s (some target) (some false) found is_online =
      rw (is_online, target_of-found s.id _ found) refl

  kept-known : (told : List Told) → kept (read_sensor aliases) (map row_json told) ≡ known told
  unfolding kept
  kept-known [] = refl
  kept-known (sensor s ∷ told) = elim (Option-cases (find_alias aliases s.id)) [
    | inl none_found ↦
        rw (read_sensor-told s none s.online none_found refl, none_found) (kept-known told)
    | inr (target, found) ↦
        rw (read_sensor-told s (some target) s.online found refl, found)
          (ap (◌∷◌ (state_of target s)) (kept-known told))
  ]
  kept-known (no_row ∷ told) = rw (read_sensor-no_row) (kept-known told)

  count-strangers :
      (told : List Told)
      → count is_unmapped (read_sensor aliases) (map row_json told) ≡ strangers told
  unfolding count
  count-strangers [] = refl
  count-strangers (sensor s ∷ told) = elim (Option-cases (find_alias aliases s.id)) [
    | inl none_found ↦
        rw (read_sensor-told s none s.online none_found refl, none_found)
          (omega (arith, count-strangers told))
    | inr (target, found) ↦
        rw (read_sensor-told s (some target) s.online found refl, found)
          (omega (arith, count-strangers told))
  ]
  count-strangers (no_row ∷ told) = rw (read_sensor-no_row) (count-strangers told)

  count-no_rows :
      (told : List Told) → count is_invalid (read_sensor aliases) (map row_json told) ≡ no_rows told
  unfolding count
  count-no_rows [] = refl
  count-no_rows (sensor s ∷ told) = elim (Option-cases (find_alias aliases s.id)) [
    | inl none_found ↦ rw (read_sensor-told s none s.online none_found refl) (count-no_rows told)
    | inr (target, found) ↦
        rw (read_sensor-told s (some target) s.online found refl) (count-no_rows told)
  ]
  count-no_rows (no_row ∷ told) = rw (read_sensor-no_row) (omega (arith, count-no_rows told))

response_rows-answer_of :
    (told : List Told) → response_rows (answer_of (pos 0) told) ≡ ok (map row_json told)
unfolding response_rows accepted_members
response_rows-answer_of told = ap ok (to_list-from_list (map row_json told))

response_rows-refused :
    (n : ℤ) (told : List Told)
    → eq_ℤ n (pos 0) ≡ false
    → response_rows (answer_of n told) ≡ err (unknown, some "gateway_rejected_request")
unfolding response_rows accepted_members
response_rows-refused n told refused = rw (refused) refl

-- What is found: the sensors that have an alias are the items, each with its own types and whether it
-- is online, in their order; the others and what is no row are counted; and the quality is good
-- exactly if there is neither of these, and invalid exactly if something is no row.
abbrev pub IsTold : AliasMap → List Told → ParsedCollection SensorState → Type 0
IsTold aliases told found =
    (found.items ≡ known aliases told)
    × (found.invalid_count ≡ no_rows aliases told)
    × (found.unmapped_count ≡ strangers aliases told)
    × ((found.quality ≡ good) ↔ (no_rows aliases told + strangers aliases told ≡ 0))
    × ((found.quality ≡ invalid) ↔ (1 ≤ no_rows aliases told))

summarized-IsTold :
    (aliases : AliasMap) (t : ObservationTime) (told : List Told) (c : Collected SensorState)
    → c.items ≡ known aliases told
    → c.invalid_count ≡ no_rows aliases told
    → c.unmapped_count ≡ strangers aliases told
    → IsTold aliases told (parsed c t)
summarized-IsTold aliases t told c items invalids unmapped = (
  items,
  invalids,
  unmapped,
  ground (arith, invalids, unmapped),
  ground (arith, invalids, unmapped),
)

-- A gateway that tells of sensors, with an error code of 0, is understood: what is found is what it
-- told, by the aliases. With an error code that is not 0 there is no item, and the quality is unknown.
pub normalize_sensor_list-told :
    (aliases : AliasMap) (t : ObservationTime) (told : List Told) (n : ℤ)
    → eq_ℤ n (pos 0) ≡ false
    → IsTold aliases told (normalize_sensor_list aliases t (answer_of (pos 0) told))
      × (let refused = normalize_sensor_list aliases t (answer_of n told) in
          (refused.items ≡ []) × (refused.quality ≡ unknown))
unfolding normalize_sensor_list
normalize_sensor_list-told aliases t told n refused =
    let rows = map row_json told in
    let read = read_sensor aliases in
    (
      subst (IsTold aliases told)
          (sym (
            ap (λ d. parse_data read d t) (response_rows-answer_of told)
            ∙ parse_data-summarize read (ok rows) t))
          (summarized-IsTold aliases t told (tally read rows) (kept-known aliases told)
            (count-no_rows aliases told) (count-strangers aliases told)),
      (
        ap (λ d. (parse_data read d t).items) (response_rows-refused n told refused),
        ap (λ d. (parse_data read d t).quality) (response_rows-refused n told refused),
      ),
    )
