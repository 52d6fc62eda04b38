-- ===== src/SmartLedz/State/Summaries.antt =====
-- src/hedp/adapters/smartledz/state.py: what every collection is, and when its quality is good.
use Prim.Native.String.{String}
use hedp.Prelude.{
  ℕ, ◌+◌, ◌≡◌, ◌↔◌, refl, Bool, true, not, ◌||◌, Option, List, [], ◌∷◌, arith, length, Result, ok,
  err, All, ◌≢◌, subst,
}
use hedp.Prelude.Json.{Json, array, Elements, to_list}
use hedp.Observations.{Quality, good, ObservationTime}
use hedp.SmartLedz.State.{
  AliasMap, RowFault, collection_quality, parse_data, accepted_members, read_group, read_sensor,
  response_rows, normalize_group_list, normalize_sensor_list,
}
use hedp.SmartLedz.State.Detail.{
  read_scene, read_schedule, read_device, normalize_scenes, normalize_schedules,
  normalize_device_references,
}
use hedp.SmartLedz.State.Rows.{
  count, is_invalid, is_unmapped, is_skipped, summarize, kept_or_counted, parse_rows-summarize,
  parse_data-summarize,
}

-- The five row loops give what a description of each result by itself gives: the items are the rows
-- that are kept, in their order, the counts are those of the invalid rows and of the rows without an
-- alias, and the quality is the one those counts determine; a response that is refused has no items.
pub snapshots-summarize :
    (aliases : AliasMap) (t : ObservationTime) (response : Json) (rows : Elements)
    → (normalize_group_list aliases t response
        ≡ summarize (read_group aliases) (response_rows response) t)
      × (normalize_sensor_list aliases t response
          ≡ summarize (read_sensor aliases) (response_rows response) t)
      × (normalize_scenes aliases t (array rows)
          ≡ summarize (read_scene aliases) (ok (to_list rows)) t)
      × (normalize_schedules aliases t (array rows)
          ≡ summarize (read_schedule aliases) (ok (to_list rows)) t)
      × (normalize_device_references aliases t (array rows)
          ≡ summarize (read_device aliases) (ok (to_list rows)) t)
unfolding normalize_group_list normalize_sensor_list normalize_scenes normalize_schedules
    normalize_device_references
snapshots-summarize aliases t response rows = (
  parse_data-summarize (read_group aliases) (response_rows response) t,
  parse_data-summarize (read_sensor aliases) (response_rows response) t,
  parse_rows-summarize (read_scene aliases) (to_list rows) t,
  parse_rows-summarize (read_schedule aliases) (to_list rows) t,
  parse_rows-summarize (read_device aliases) (to_list rows) t,
)

-- Kept, or left out without being counted.
abbrev pub is_clean : {T : Type 0} → Result RowFault T → Bool
is_clean r = not (is_invalid r || is_unmapped r)

abbrev pub AllClean : {T : Type 0} → (Json → Result RowFault T) → List Json → Type 0
AllClean read rows = All (λ row. is_clean (read row) ≡ true) rows

response_rows-fault :
    (response : Json) (e : Quality × Option String) → response_rows response ≡ err e → e.0 ≢ good
unfolding response_rows accepted_members
response_rows-fault response e failed is_good = ground arith

module _ {T : Type 0} (read : Json → Result RowFault T) where
  counts_zero_iff :
      (rows : List Json)
      → (count is_invalid read rows + count is_unmapped read rows ≡ 0) ↔ AllClean read rows
  unfolding count
  counts_zero_iff [] = (λ _. tt, λ _. refl)
  counts_zero_iff (row ∷ rows) = (
    λ zero_both. (ground arith, (counts_zero_iff rows).0 (ground arith)),
    λ (this, others). ground (arith, (counts_zero_iff rows).1 others),
  )

  quality-good_iff : (a b : ℕ) → ((collection_quality a b).0 ≡ good) ↔ (a + b ≡ 0)
  quality-good_iff a b = ground arith

  summarize-good_iff :
      (data_of : Result (Quality × Option String) (List Json)) (t : ObservationTime)
      → ((e : Quality × Option String) → data_of ≡ err e → e.0 ≢ good)
      → ((summarize read data_of t).quality ≡ good)
        ↔ ((rows : List Json) × (data_of ≡ ok rows) × AllClean read rows)
  summarize-good_iff (err e) t bad =
      (λ is_good. absurd (bad e refl is_good), λ (rows, returned, _). cc)
  summarize-good_iff (ok rows) t bad =
      let (to, from) =
        quality-good_iff (count is_invalid read rows) (count is_unmapped read rows) in
      let (clean, counted) = counts_zero_iff rows in
      (
        λ is_good. (rows, refl, clean (to is_good)),
        λ (others, returned, all_clean).
            let same : others ≡ rows = cc in
            from (counted (subst (λ xs. AllClean read xs) same all_clean)),
      )

  list-good_iff :
      (t : ObservationTime) (response : Json)
      → ((parse_data read (response_rows response) t).quality ≡ good)
        ↔ ((rows : List Json) × (response_rows response ≡ ok rows) × AllClean read rows)
  list-good_iff t response =
      rw (parse_data-summarize read (response_rows response) t)
        (summarize-good_iff (response_rows response) t (response_rows-fault response))

-- The quality of a group list or a sensor list is good exactly if the response is accepted and no
-- row of its data is invalid or has no alias.
pub lists-good_iff :
    (aliases : AliasMap) (t : ObservationTime) (response : Json)
    → (((normalize_group_list aliases t response).quality ≡ good) ↔ (
        (rows : List Json) × (response_rows response ≡ ok rows)
        × AllClean (read_group aliases) rows))
      × (((normalize_sensor_list aliases t response).quality ≡ good) ↔ (
          (rows : List Json) × (response_rows response ≡ ok rows)
          × AllClean (read_sensor aliases) rows))
unfolding normalize_group_list normalize_sensor_list
lists-good_iff aliases t response =
    (list-good_iff (read_group aliases) t response, list-good_iff (read_sensor aliases) t response)

-- Every row of the data of a group list is an item, is counted as invalid or as unmapped, or is a
-- group that is left out, once; a refused response has no items and no counts.
pub normalize_group_list-counted :
    (aliases : AliasMap) (t : ObservationTime) (response : Json) (rows : List Json)
    → response_rows response ≡ ok rows
    → (let groups = normalize_group_list aliases t response in
        length groups.items
          + groups.invalid_count
          + groups.unmapped_count
          + count is_skipped (read_group aliases) rows
        ≡ length rows)
unfolding normalize_group_list
normalize_group_list-counted aliases t response rows accepted =
    rw (parse_data-summarize (read_group aliases) (response_rows response) t, accepted)
      (kept_or_counted (read_group aliases) rows)
