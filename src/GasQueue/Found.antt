-- ===== src/GasQueue/Found.antt =====
-- src/hedp/adapters/fusionsolar/gas_queue_importer.py: what the searches for a receipt and for a row find.
use Prim.Native.String.{String}
use hedp.Prelude.{
  ℕ, ◌≡◌, ◌↔◌, ◌⊎◌, inl, inr, refl, sym, ap, ◌∙◌, subst, ◌≢◌, Bool, true, false, ◌&&◌, Option, none,
  some, List, [], ◌∷◌, ◌==◌, ==_iff, All, Bool-cases,
}
use hedp.Prelude.Texts.{str_eq, str_eq_iff}
use hedp.GasQueue.{Candidate, RawData, Receipt, is_day, is_of_day, has_key, find_receipt}
use hedp.GasQueue.Store.{pick_raw, find_raw}

-- The first of a list of which `P` holds.
abbrev pub FirstOf : {A : Type 0} → (A → Type 0) → List A → A → Type 0
FirstOf P [] a = ⊥
FirstOf P (x ∷ xs) a = ((x ≡ a) × P a) ⊎ (¬ P x × FirstOf P xs a)

is_day_iff :
    (of_row : Option String) (day : String) → (is_day of_row day ≡ true) ↔ (of_row ≡ some day)
is_day_iff none day = (λ h. cc, λ h. cc)
is_day_iff (some s) day = (
  λ h. ap some ((str_eq_iff s day).0 h),
  λ h. (str_eq_iff s day).1 (let same : s ≡ day = cc in same),
)

and_iff : (b c : Bool) → (b && c ≡ true) ↔ ((b ≡ true) × (c ≡ true))
and_iff true c = (λ h. (refl, h), λ (_, h). h)
and_iff false c = (λ h. cc, λ (h, _). h)

module _ {Payload : Type 0} where
  -- A row of the candidate's source and day, and a receipt of its key.
  abbrev pub IsOfDay : Candidate Payload → RawData Payload → Type 0
  IsOfDay item raw = (raw.source ≡ item.source) × (raw.target_date ≡ some item.target_date)

  abbrev pub IsOfKey : Candidate Payload → Receipt → Type 0
  IsOfKey item r =
      (r.schema_version ≡ 2)
      × (r.source ≡ item.source)
      × (r.target_date ≡ item.target_date)
      × (r.payload_sha256 ≡ item.payload_sha256)

  is_of_day_iff :
      (item : Candidate Payload) (raw : RawData Payload)
      → (is_of_day item raw ≡ true) ↔ IsOfDay item raw
  is_of_day_iff item raw =
      let (to, from) =
        and_iff (str_eq raw.source item.source) (is_day raw.target_date item.target_date) in
      let (source_to, source_from) = str_eq_iff raw.source item.source in
      let (day_to, day_from) = is_day_iff raw.target_date item.target_date in
      (
        λ h. let (s, d) = to h in (source_to s, day_to d),
        λ (s, d). from (source_from s, day_from d),
      )

  has_key_iff : (item : Candidate Payload) (r : Receipt) → (has_key item r ≡ true) ↔ IsOfKey item r
  unfolding has_key
  has_key_iff item r =
      let source = str_eq r.source item.source in
      let day = str_eq r.target_date item.target_date in
      let hash = str_eq r.payload_sha256 item.payload_sha256 in
      let version = r.schema_version == 2 in
      let (to_hash, from_hash) = and_iff (version && source && day) hash in
      let (to_day, from_day) = and_iff (version && source) day in
      let (to_source, from_source) = and_iff version source in
      let version_iff = ==_iff r.schema_version 2 in
      let source_iff = str_eq_iff r.source item.source in
      let day_iff = str_eq_iff r.target_date item.target_date in
      let hash_iff = str_eq_iff r.payload_sha256 item.payload_sha256 in
      (
        λ h.
            let (others, p) = to_hash h in
            let (rest, d) = to_day others in
            let (v, s) = to_source rest in
            (version_iff.0 v, source_iff.0 s, day_iff.0 d, hash_iff.0 p),
        λ (v, s, d, p).
            from_hash
              (from_day (from_source (version_iff.1 v, source_iff.1 s), day_iff.1 d), hash_iff.1 p),
      )

  -- A test that decides a predicate finds its first element.
  pub find_receipt-found :
      (item : Candidate Payload) (rs : List Receipt) (r : Receipt)
      → (find_receipt item rs ≡ some r) ↔ FirstOf (IsOfKey item) rs r
  unfolding find_receipt
  find_receipt-found item [] r = (λ h. cc, λ h. absurd h)
  find_receipt-found item (q ∷ rs) r = elim (Bool-cases (has_key item q)) [
    | inl here ↦ rw (here) (
      (λ h.
          let same : q ≡ r = cc in
          inl (same, (has_key_iff item r).0 (ap (has_key item) (sym same) ∙ here))),
      (λ h. elim h [
        | inl (same, _) ↦ ap some same
        | inr (differs, _) ↦ absurd (differs ((has_key_iff item q).0 here))
      ]),
    )
    | inr other ↦
        let (to, from) = find_receipt-found item rs r in
        rw (other) (
          (λ h. inr ((λ key. let is_key = (has_key_iff item q).1 key in cc), to h)),
          (λ h. elim h [
            | inl (same, key) ↦
                let is_key = (has_key_iff item r).1 key in
                let is_not = ap (has_key item) (sym same) ∙ other in
                absurd (let both = sym is_key ∙ is_not in cc)
            | inr (_, later) ↦ from later
          ]),
        )
  ]

  pub find_receipt-absent :
      (item : Candidate Payload) (rs : List Receipt)
      → (find_receipt item rs ≡ none) ↔ All (λ r. ¬ IsOfKey item r) rs
  unfolding find_receipt
  find_receipt-absent item [] = (λ _. tt, λ _. refl)
  find_receipt-absent item (q ∷ rs) =
      let (to, from) = find_receipt-absent item rs in
      elim (Bool-cases (has_key item q)) [
        | inl here ↦
            rw (here) (λ h. cc, λ (differs, _). absurd (differs ((has_key_iff item q).0 here)))
        | inr other ↦ rw (other) (
          λ h. ((λ key. let is_key = (has_key_iff item q).1 key in cc), to h),
          λ (_, rest). from rest,
        )
      ]

pick_raw-skips : (i : ℕ) (others : Option ℕ × Bool) → (pick_raw true false i others).0 ≡ others.0
pick_raw-skips i (none, day) = refl
pick_raw-skips i (some id, day) = refl

pick_raw-other_day :
    (i : ℕ) (others : Option ℕ × Bool) → pick_raw true false i others ≢ (none, false)
pick_raw-other_day i (none, day) h = let flags : true ≡ false = ap (λ p. p.1) h in cc
pick_raw-other_day i (some id, day) h = let ids : some id ≡ none = ap (λ p. p.0) h in cc

module _ {Payload : Type 0} (same : Payload → Payload → Bool) where
  -- A row of the candidate's source and day, with its payload.
  abbrev pub IsStored : Candidate Payload → ℕ × RawData Payload → Type 0
  IsStored item (id, raw) = IsOfDay item raw × (same raw.payload item.payload ≡ true)

  abbrev pub IsFirstStored : Candidate Payload → List (ℕ × RawData Payload) → ℕ → Type 0
  IsFirstStored item rows id = (raw : RawData Payload) × FirstOf (IsStored item) rows (id, raw)

  not-IsStored :
      (item : Candidate Payload) (i : ℕ) (raw : RawData Payload)
      → (is_of_day item raw ≡ false) ⊎ (same raw.payload item.payload ≡ false)
      → ¬ IsStored item (i, raw)
  not-IsStored item i raw (inl other) (of_day, agrees) =
      let is_day = (is_of_day_iff item raw).1 of_day in cc
  not-IsStored item i raw (inr differs) (of_day, agrees) = cc

  later-IsFirstStored :
      (item : Candidate Payload) (i id : ℕ) (raw : RawData Payload)
      (rows : List (ℕ × RawData Payload))
      → ¬ IsStored item (i, raw)
      → IsFirstStored item rows id ↔ IsFirstStored item ((i, raw) ∷ rows) id
  later-IsFirstStored item i id raw rows differs = (
    (λ (found, first). (found, inr (differs, first))),
    (λ (found, first). elim first [
      | inl (agree, stored) ↦ absurd (differs (subst (IsStored item) (sym agree) stored))
      | inr (_, rest) ↦ (found, rest)
    ]),
  )

  here-IsFirstStored :
      (item : Candidate Payload) (i id : ℕ) (raw : RawData Payload)
      (rows : List (ℕ × RawData Payload))
      → IsStored item (i, raw)
      → (some i ≡ some id) ↔ IsFirstStored item ((i, raw) ∷ rows) id
  here-IsFirstStored item i id raw rows stored = (
    (λ h.
        let same_id : i ≡ id = cc in
        (
          raw,
          inl (ap (λ j. (j, raw)) same_id, subst (λ j. IsStored item (j, raw)) same_id stored),
        )),
    (λ (found, first). elim first [
      | inl (agree, _) ↦ ap (λ row. some row.0) agree
      | inr (differs, _) ↦ absurd (differs stored)
    ]),
  )

  pub find_raw-found :
      (item : Candidate Payload) (rows : List (ℕ × RawData Payload)) (id : ℕ)
      → ((find_raw same item rows).0 ≡ some id) ↔ IsFirstStored item rows id
  unfolding find_raw
  find_raw-found item [] id = (λ h. cc, λ (raw, h). absurd h)
  find_raw-found item ((i, raw) ∷ rows) id =
      let (to, from) = find_raw-found item rows id in
      elim (Bool-cases (is_of_day item raw)) [
        | inr other ↦
            let (up, down) =
              later-IsFirstStored item i id raw rows (not-IsStored item i raw (inl other)) in
            rw (other) (λ h. up (to h), λ h. from (down h))
        | inl of_day ↦ elim (Bool-cases (same raw.payload item.payload)) [
          | inr differs ↦
              let (up, down) =
                later-IsFirstStored item i id raw rows (not-IsStored item i raw (inr differs)) in
              let skips : (find_raw same item ((i, raw) ∷ rows)).0 ≡ (find_raw same item rows).0 =
                rw (of_day, differs) (pick_raw-skips i (find_raw same item rows)) in
              (λ h. up (to (sym skips ∙ h)), λ h. skips ∙ from (down h))
          | inl agrees ↦
              let here : (find_raw same item ((i, raw) ∷ rows)).0 ≡ some i =
                rw (of_day, agrees) refl in
              let (up, down) =
                here-IsFirstStored item i id raw rows ((is_of_day_iff item raw).0 of_day, agrees) in
              (λ h. up (sym here ∙ h), λ h. here ∙ down h)
        ]
      ]

  pub find_raw-none :
      (item : Candidate Payload) (rows : List (ℕ × RawData Payload))
      → (find_raw same item rows ≡ (none, false)) ↔ All (λ row. ¬ IsOfDay item row.1) rows
  unfolding find_raw
  find_raw-none item [] = (λ _. tt, λ _. refl)
  find_raw-none item ((i, raw) ∷ rows) =
      let (to, from) = find_raw-none item rows in
      elim (Bool-cases (is_of_day item raw)) [
        | inr other ↦ rw (other) (
          (λ h. ((λ of_day. let is_day = (is_of_day_iff item raw).1 of_day in cc), to h)),
          (λ (_, rest). from rest),
        )
        | inl of_day ↦ elim (Bool-cases (same raw.payload item.payload)) [
          | inr differs ↦
              rw (of_day, differs)
                (
                  (λ h. absurd (pick_raw-other_day i (find_raw same item rows) h)),
                  (λ (not_day, _). absurd (not_day ((is_of_day_iff item raw).0 of_day))),
                )
          | inl agrees ↦
              rw (of_day, agrees)
                (
                  (λ h. let ids : some i ≡ none = ap (λ p. p.0) h in cc),
                  (λ (not_day, _). absurd (not_day ((is_of_day_iff item raw).0 of_day))),
                )
        ]
      ]
