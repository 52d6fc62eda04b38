-- ===== src/GasQueue/Envelope/OneHash.antt =====
-- src/hedp/adapters/fusionsolar/gas_queue_importer.py: the candidates of one queue agree with each
-- other, and each of them has been checked.
use Prim.Native.String.{String}
use hedp.Prelude.{
  ℕ, ◌≤◌, ◌≡◌, inl, inr, refl, sym, ap, ◌∙◌, Bool, true, false, not, none, some, List, [], ◌∷◌,
  ◌++◌, arith, ltb, ◌==◌, length, ok, raise_if, raise_if-passed, All, All-imp, Option-cases,
  bind_returns, bind-Ensures, Ensures-returned,
}
use hedp.Prelude.Texts.{str_eq, str_eq_iff}
use hedp.Prelude.Json.{Members}
use hedp.GasQueue.{
  Candidate, same_day_payload_conflict, symlink_not_allowed, no_json_files, too_many_files,
}
use hedp.GasQueue.Envelope.{
  Library, File, max_files, read_files, Identities, find_identity, or_default, check_identities,
  candidates,
}
use hedp.GasQueue.Envelope.Checked.{AllChecked, read_files-AllChecked}

find_identity-append :
    (source day : String) (known more : Identities) (hash : String)
    → find_identity source day known ≡ some hash
    → find_identity source day (known ++ more) ≡ some hash
unfolding find_identity
find_identity-append source day [] more hash is_found = cc
find_identity-append source day (((s, d), h) ∷ known) more hash is_found =
    ground (arith, find_identity-append source day known more hash)

module _ {Payload : Type 0} where
  -- Candidates of the same source and day have the same hash.
  abbrev pub AgreesWith : Candidate Payload → Candidate Payload → Type 0
  AgreesWith a b =
      a.source ≡ b.source → a.target_date ≡ b.target_date → a.payload_sha256 ≡ b.payload_sha256

  abbrev pub AllAgree : List (Candidate Payload) → Type 0
  AllAgree [] = Unit
  AllAgree (item ∷ items) = All (AgreesWith item) items × AllAgree items

  abbrev identity_of : Candidate Payload → (String × String) × String
  identity_of item = ((item.source, item.target_date), item.payload_sha256)

  -- What is known of the candidate's source and day, if anything, is its hash.
  abbrev IsKnown : Identities → Candidate Payload → Type 0
  IsKnown known item =
      (hash : String)
      → find_identity item.source item.target_date known ≡ some hash
      → hash ≡ item.payload_sha256

  find_identity-append_new :
      (known : Identities) (item : Candidate Payload)
      → find_identity item.source item.target_date known ≡ none
      → find_identity item.source item.target_date (known ++ identity_of item ∷ [])
        ≡ some item.payload_sha256
  unfolding find_identity
  find_identity-append_new [] item absent =
      rw
        (
          (str_eq_iff item.source item.source).1 refl,
          (str_eq_iff item.target_date item.target_date).1 refl,
        )
        refl
  find_identity-append_new (((s, d), h) ∷ known) item absent = ground (
    arith,
    λ (h : find_identity item.source item.target_date known ≡ none).
        find_identity-append_new known item h,
  )

  passed-hash :
      (known : Identities) (item : Candidate Payload) (hash : String)
      → str_eq
          (or_default item.payload_sha256 (find_identity item.source item.target_date known))
          item.payload_sha256
        ≡ true
      → find_identity item.source item.target_date known ≡ some hash
      → hash ≡ item.payload_sha256
  passed-hash known item hash passed is_found = (str_eq_iff hash item.payload_sha256).0 (
      ap (λ o. str_eq (or_default item.payload_sha256 o) item.payload_sha256) (sym is_found)
      ∙ passed)

  -- Once a candidate has passed, its hash is known.
  passed-find_identity :
      (known : Identities) (item : Candidate Payload)
      → str_eq
          (or_default item.payload_sha256 (find_identity item.source item.target_date known))
          item.payload_sha256
        ≡ true
      → find_identity item.source item.target_date (known ++ identity_of item ∷ [])
        ≡ some item.payload_sha256
  passed-find_identity known item passed =
      elim (Option-cases (find_identity item.source item.target_date known)) [
        | inl absent ↦ find_identity-append_new known item absent
        | inr (hash, is_found) ↦
            find_identity-append item.source item.target_date known (identity_of item ∷ []) hash
              is_found
            ∙ ap some (passed-hash known item hash passed is_found)
      ]

  check_identities-AllKnown :
      (known : Identities) (items : List (Candidate Payload)) (u : Unit {0})
      → check_identities known items ≡ ok u
      → All (IsKnown known) items × AllAgree items
  unfolding check_identities
  check_identities-AllKnown known [] u passed = (tt, tt)
  check_identities-AllKnown known (item ∷ items) u passed =
      let previous =
        or_default item.payload_sha256 (find_identity item.source item.target_date known) in
      let (v, here, later) =
        bind_returns
          (raise_if (not (str_eq previous item.payload_sha256)) same_day_payload_conflict) _
          passed in
      let agrees : str_eq previous item.payload_sha256 ≡ true = ground (
        arith,
        raise_if-passed (not (str_eq previous item.payload_sha256)) same_day_payload_conflict v
            here,
      ) in
      let (all_known, all_agree) =
        check_identities-AllKnown (known ++ identity_of item ∷ []) items u later in
      let now_known = passed-find_identity known item agrees in
      (
        (
          (λ hash is_found. passed-hash known item hash agrees is_found),
          All-imp (IsKnown (known ++ identity_of item ∷ [])) (IsKnown known) items
              (λ other is_known hash is_found. is_known hash (
                find_identity-append other.source other.target_date known (identity_of item ∷ [])
                  hash is_found))
              all_known,
        ),
        (
          All-imp (IsKnown (known ++ identity_of item ∷ [])) (AgreesWith item) items
              (λ other is_known same_source same_day. is_known item.payload_sha256 (
                ap (λ s. find_identity s other.target_date (known ++ identity_of item ∷ []))
                  (sym same_source)
                ∙ ap (λ d. find_identity item.source d (known ++ identity_of item ∷ []))
                    (sym same_day)
                ∙ now_known))
              all_known,
          all_agree,
        ),
      )

module _ (lib : Library) where
  -- The candidates of a queue are those of its files, in order, each of them checked; there are from
  -- one to a hundred; and any two of the same source and day have the same hash of their payload.
  pub candidates-AllChecked :
      (now : ℕ) (path_is_link : Bool) (files : List File) (items : List (Candidate Members))
      → candidates lib now path_is_link files ≡ ok items
      → (path_is_link ≡ false)
        × (1 ≤ length files)
        × (length files ≤ 100)
        × AllChecked lib files items
        × AllAgree items
  unfolding candidates
  candidates-AllChecked now path_is_link files items returned =
      let P = λ (found : List (Candidate Members)).
        (path_is_link ≡ false)
        × (1 ≤ length files)
        × (length files ≤ 100)
        × AllChecked lib files found
        × AllAgree found in
      Ensures-returned P (candidates lib now path_is_link files) items
        (bind-Ensures P (raise_if path_is_link symlink_not_allowed) _ λ u linked.
          bind-Ensures P (raise_if (length files == 0) no_json_files) _ λ v present.
            bind-Ensures P (raise_if (ltb max_files (length files)) too_many_files) _ λ w limited.
              bind-Ensures P (read_files lib now files) _ λ read is_read.
                bind-Ensures P (check_identities [] read) _ λ x agreed.
                  let some_file = raise_if-passed (length files == 0) no_json_files v present in
                  let few =
                    raise_if-passed (ltb max_files (length files)) too_many_files w limited in
                  (
                    raise_if-passed path_is_link symlink_not_allowed u linked,
                    ground arith,
                    ground arith,
                    Ensures-returned (AllChecked lib files) (read_files lib now files) read
                        (read_files-AllChecked lib now files) is_read,
                    (check_identities-AllKnown [] read x agreed).1,
                  ))
        returned
