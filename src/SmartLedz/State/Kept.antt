-- ===== src/SmartLedz/State/Kept.antt =====
-- src/hedp/adapters/smartledz/state.py: what is true of the items that are kept.
use Prim.Native.String.{String}
use hedp.Prelude.{
  ◌≡◌, ◌↔◌, refl, ap, sym, subst, ◌∙◌, true, not, ◌||◌, Option, none, some, List, arith, Result, ok,
  err, Result-cases, Bool-cases, Option-cases, All, inl, inr, Ensures, bind-Ensures, raise_if, ◌≢◌,
  raise_if-passed,
}
use hedp.Prelude.Int.{ℤ, pos, ltb_ℤ, eq_ℤ, ◌≤ℤ◌}
use hedp.Prelude.Json.{Json, Members, get, as_integer, as_list}
use hedp.Observations.{Quality, good, ObservationTime}
use hedp.SmartLedz.State.{
  AliasMap, GroupState, IlluminanceReading, find_alias, target_of, is_bit, in_range, invalid_row,
  skipped_row, RowFault, parse_data, parse_rows, required, row_of, integer_at, accepted_members,
  read_group, response_rows, response_object, normalize_group_list, normalize_illuminance,
  judge_illuminance, no_reading,
}
use hedp.SmartLedz.State.Detail.{
  SceneDefinition, ScheduleStep, ScheduleDetail, read_scene, read_step, read_info, parse_part,
  detail_of, normalize_scenes, normalize_schedule_detail,
}
use hedp.SmartLedz.State.Rows.{kept-All, parse_rows-summarize}

-- The target is named by an alias.
abbrev pub IsAlias : AliasMap → String → Type 0
IsAlias aliases target = (id : ℤ) × (find_alias aliases id ≡ some target)

abbrev pub IsGroup : AliasMap → GroupState → Type 0
IsGroup aliases g =
    IsAlias aliases g.target_ref × (pos 0 ≤ℤ g.brightness_pct) × (g.brightness_pct ≤ℤ pos 100)

abbrev pub IsScene : AliasMap → SceneDefinition → Type 0
IsScene aliases s =
    IsAlias aliases s.target_ref
    × (pos 0 ≤ℤ s.sort_order)
    × (pos 0 ≤ℤ s.brightness_pct)
    × (s.brightness_pct ≤ℤ pos 100)
    × (pos 0 ≤ℤ s.rgb)
    × (s.rgb ≤ℤ pos 0xFFFFFF)

abbrev pub IsStep : AliasMap → ScheduleStep → Type 0
IsStep aliases s =
    IsAlias aliases s.scene_ref
    × (pos 0 ≤ℤ s.seconds_from_midnight)
    × (s.seconds_from_midnight ≤ℤ pos 86399)

target_of-IsAlias :
    (aliases : AliasMap) (id : ℤ) (target : String)
    → target_of aliases id ≡ ok target
    → IsAlias aliases target
target_of-IsAlias aliases id target found = elim (Option-cases (find_alias aliases id)) [
  | inl missing ↦ absurd (ground arith)
  | inr (alias, is_there) ↦ (id, ground arith)
]

read_group-IsGroup :
    (aliases : AliasMap) (row : Json) → Ensures (IsGroup aliases) (read_group aliases row)
unfolding read_group
read_group-IsGroup aliases candidate = bind-Ensures _ (required (row_of candidate 8)) _ λ row _.
    bind-Ensures _ (integer_at row 0) _ λ source_id _.
      bind-Ensures _ (integer_at row 4) _ λ fade_time _.
        bind-Ensures _ (integer_at row 5) _ λ sort_order _.
          bind-Ensures _ (integer_at row 6) _ λ power _.
            bind-Ensures _ (integer_at row 7) _ λ brightness _.
              bind-Ensures _
                (raise_if (not (is_bit power) || not (in_range 100 brightness)) invalid_row) _
                λ u valid. bind-Ensures _ (raise_if (ltb_ℤ sort_order (pos 0)) skipped_row) _ λ v _.
                  bind-Ensures _ (target_of aliases source_id) _ λ target found.
                    let bounded : in_range 100 brightness ≡ true = ground (
                      arith,
                      raise_if-passed (not (is_bit power) || not (in_range 100 brightness))
                          invalid_row u valid,
                    ) in
                    (target_of-IsAlias aliases source_id target found, ground arith, ground arith)

read_scene-IsScene :
    (aliases : AliasMap) (row : Json) → Ensures (IsScene aliases) (read_scene aliases row)
unfolding read_scene
read_scene-IsScene aliases candidate = bind-Ensures _ (required (row_of candidate 8)) _ λ row _.
    bind-Ensures _ (integer_at row 0) _ λ source_id _. bind-Ensures _ (integer_at row 2) _ λ icon _.
      bind-Ensures _ (integer_at row 3) _ λ sort_order _.
        bind-Ensures _ (integer_at row 4) _ λ brightness _.
          bind-Ensures _ (integer_at row 5) _ λ temperature _.
            bind-Ensures _ (integer_at row 6) _ λ rgb _.
              bind-Ensures _
                (raise_if
                  (ltb_ℤ sort_order (pos 0)
                    || not (in_range 100 brightness)
                    || not (in_range 0xFFFFFF rgb))
                  invalid_row)
                _
                λ u valid. bind-Ensures _ (target_of aliases source_id) _ λ target found.
                  let bounded =
                    raise_if-passed
                      (ltb_ℤ sort_order (pos 0)
                        || not (in_range 100 brightness)
                        || not (in_range 0xFFFFFF rgb))
                      invalid_row u valid in
                  (
                    target_of-IsAlias aliases source_id target found,
                    ground arith,
                    ground arith,
                    ground arith,
                    ground arith,
                    ground arith,
                  )

read_step-IsStep :
    (aliases : AliasMap) (row : Json) → Ensures (IsStep aliases) (read_step aliases row)
unfolding read_step
read_step-IsStep aliases candidate = bind-Ensures _ (required (row_of candidate 5)) _ λ row _.
    bind-Ensures _ (integer_at row 1) _ λ sort_order _.
      bind-Ensures _ (integer_at row 2) _ λ seconds _.
        bind-Ensures _ (integer_at row 3) _ λ source_id _.
          bind-Ensures _ (integer_at row 4) _ λ icon _.
            bind-Ensures _ (raise_if (not (in_range 86399 seconds)) invalid_row) _ λ u valid.
              bind-Ensures _ (target_of aliases source_id) _ λ target found.
                let bounded = raise_if-passed (not (in_range 86399 seconds)) invalid_row u valid in
                (target_of-IsAlias aliases source_id target found, ground arith, ground arith)

module _ {T : Type 0} (P : T → Type 0) (read : Json → Result RowFault T) where
  parse_rows-All :
      (rows : List Json) (t : ObservationTime)
      → ((row : Json) → Ensures P (read row))
      → All P (parse_rows read rows t).items
  parse_rows-All rows t of_row =
      subst (λ c. All P c.items) (sym (parse_rows-summarize read rows t))
        (kept-All P read rows of_row)

  parse_data-All :
      (data_of : Result (Quality × Option String) (List Json)) (t : ObservationTime)
      → ((row : Json) → Ensures P (read row))
      → All P (parse_data read data_of t).items
  parse_data-All (err fault) t of_row = tt
  parse_data-All (ok rows) t of_row = parse_rows-All rows t of_row

  parse_part-All :
      (reason : String) (rows : Json) (t : ObservationTime)
      → ((row : Json) → Ensures P (read row))
      → All P (parse_part read reason rows t).items
  parse_part-All reason rows t of_row = elim (Option-cases (as_list rows)) [
    | inl other ↦ rw (All, other) tt
    | inr (candidates, is_list) ↦ rw (All, is_list) (parse_rows-All candidates t of_row)
  ]

abbrev pub IsDetail : AliasMap → ScheduleDetail → Type 0
IsDetail aliases d = All (IsStep aliases) d.steps

normalize_schedule_detail-All :
    (aliases : AliasMap) (target : String) (t : ObservationTime) (response : Json)
    → All (IsDetail aliases) (normalize_schedule_detail target aliases t response).items
unfolding normalize_schedule_detail detail_of
normalize_schedule_detail-All aliases target t response =
    elim (Result-cases (response_object response)) [
      | inl (fault, refused) ↦ rw (All, refused) tt
      | inr (members, accepted) ↦ elim (Option-cases (row_of (get members "info") 5)) [
        | inl other ↦ rw (All, accepted, other) tt
        | inr (info, is_row) ↦ elim (Option-cases (as_list (get members "details"))) [
          | inl other ↦ rw (All, accepted, is_row, other) tt
          | inr (details, is_list) ↦ elim (Result-cases (read_info info)) [
            | inl (fault, failed) ↦ rw (All, accepted, is_row, is_list, failed) tt
            | inr (of_info, returned) ↦
                rw (All, accepted, is_row, is_list, returned)
                  (
                    parse_rows-All (IsStep aliases) (read_step aliases) details t
                        (read_step-IsStep aliases),
                    tt,
                  )
          ]
        ]
      ]
    ]

-- Every group that is listed is named by an alias and has a brightness from 0 to 100; every scene
-- is named by an alias and has a brightness from 0 to 100, a colour of 24 bits and no negative
-- order; and every step of a schedule starts within the day, at a scene that is named by an alias.
pub items-AreSafe :
    (aliases : AliasMap) (target : String) (t : ObservationTime) (response : Json)
    → All (IsGroup aliases) (normalize_group_list aliases t response).items
      × All (IsScene aliases) (normalize_scenes aliases t response).items
      × All (IsDetail aliases) (normalize_schedule_detail target aliases t response).items
unfolding normalize_group_list normalize_scenes
items-AreSafe aliases target t response = (
  parse_data-All (IsGroup aliases) (read_group aliases) (response_rows response) t
      (read_group-IsGroup aliases),
  parse_part-All (IsScene aliases) (read_scene aliases) "scenes_missing" response t
      (read_scene-IsScene aliases),
  normalize_schedule_detail-All aliases target t response,
)

judge_illuminance-good_iff :
    (target : String) (t : ObservationTime) (value : Option ℤ) (n : ℤ)
    → ((judge_illuminance target t value).illuminance ≡ some n) ↔ (
        (value ≡ some n)
        × (pos 0 ≤ℤ n)
        × (n ≢ pos 9999)
        × ((judge_illuminance target t value).quality ≡ good))
judge_illuminance-good_iff target t none n = (λ reported. cc, λ h. cc)
judge_illuminance-good_iff target t (some m) n = elim (Bool-cases (eq_ℤ m (pos 9999))) [
  | inl absent ↦
      rw (absent) (λ reported. cc, λ (same, _, usable, _). absurd (usable (ground arith)))
  | inr usable ↦ elim (Bool-cases (ltb_ℤ m (pos 0))) [
    | inl below ↦ rw (usable, below) (λ reported. cc, λ (same, above, _, _). absurd (ground arith))
    | inr lower ↦
        rw (usable, lower)
          (
            λ reported. let same : m ≡ n = cc in (ap some same, ground arith, ground arith, refl),
            λ (same, _, _, _). same,
          )
  ]
]

-- The response is accepted and its `val` is n, which is neither negative nor the 9999 of a sensor
-- without a value; and the reading is good.
abbrev pub Reports : Json → ℤ → IlluminanceReading → Type 0
Reports response n reading =
    (reading.quality ≡ good)
    × (members : Members) × (accepted_members response ≡ ok members)
    × (as_integer (get members "val") ≡ some n)
    × (pos 0 ≤ℤ n)
    × (n ≢ pos 9999)

-- An illuminance is reported exactly if the response is accepted and its `val` is an integer that is
-- neither negative nor the 9999 of a sensor without a value, and the quality is then good.
pub normalize_illuminance-Reports :
    (target : String) (t : ObservationTime) (response : Json) (n : ℤ)
    → ((normalize_illuminance target t response).illuminance ≡ some n)
      ↔ Reports response n (normalize_illuminance target t response)
unfolding normalize_illuminance
normalize_illuminance-Reports target t response n =
    elim (Result-cases (accepted_members response)) [
      | inl (fault, refused) ↦
          let reads : normalize_illuminance target t response ≡ no_reading target t fault =
            rw (normalize_illuminance, refused) refl in
          subst (λ r. (r.illuminance ≡ some n) ↔ Reports response n r) (sym reads)
            (λ reported. cc, λ (_, members, accepted, _, _, _). cc)
      | inr (members, accepted) ↦
          let value = as_integer (get members "val") in
          let (to, from) = judge_illuminance-good_iff target t value n in
          let reads : normalize_illuminance target t response ≡ judge_illuminance target t value =
            rw (normalize_illuminance, accepted) refl in
          subst (λ r. (r.illuminance ≡ some n) ↔ Reports response n r) (sym reads)
            (
              λ reported.
                  let (same, lower, usable, is_good) = to reported in
                  (is_good, members, accepted, same, lower, usable),
              λ (is_good, others, same, is_value, lower, usable).
                  let agree : others ≡ members = cc in
                  from (
                    ap (λ ms. as_integer (get ms "val")) (sym agree) ∙ is_value,
                    lower,
                    usable,
                    is_good,
                  ),
            )
    ]
