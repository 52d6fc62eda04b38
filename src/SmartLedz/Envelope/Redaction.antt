-- ===== src/SmartLedz/Envelope/Redaction.antt =====
-- What an envelope keeps: no value but an error code, and no name that is sensitive.
use hedp.Prelude.{
  ℕ, suc, ◌+◌, ◌≡◌, ◌↔◌, refl, Bool, Bool-cases, inl, inr, true, false, Option, none, some, List,
  [], ◌∷◌, arith, if◌then◌else◌, length, any, All, All-imp, sym, subst, ap, ◌∙◌, ◌||◌, ◌++◌, map,
  ◌==◌, ==_iff, and-true,
}
use hedp.Prelude.Int.{pos}
use hedp.Observations.{good}
use hedp.SmartLedz.Envelope.Words.{
  Joint, IsLetter, IsWord, IsJoined, joined, marks, is_sensitive-joined,
}
use hedp.SmartLedz.Envelope.{
  Text, Key, name, other_key, Value, boolean, integer, other_value, Response, mapping, not_object,
  ResourceKind, same_text, error_code_name, leb_text, insert_text, sort_texts, find_error_code,
  is_sensitive, kept_names, judge_error_code, normalize_resource_response,
}

-- How many items have the key `ErrorCode`: one or none, in a mapping.
abbrev pub error_codes : List (Key × Value) → ℕ
error_codes [] = 0
error_codes ((other_key, v) ∷ items) = error_codes items
error_codes ((name t, v) ∷ items) =
    let rest = error_codes items in if same_text t error_code_name then rest + 1 else rest

abbrev pub is_name : Text → Key × Value → Bool
is_name t (other_key, v) = false
is_name t (name u, v) = same_text t u

same_text_refl : (t : Text) → same_text t t ≡ true
same_text_refl [] = refl
same_text_refl (c ∷ t) = ground (arith, same_text_refl t)

same_text_sound : (s t : Text) → same_text s t ≡ true → s ≡ t
same_text_sound [] [] same = refl
same_text_sound [] (d ∷ t) same = cc
same_text_sound (c ∷ s) [] same = cc
same_text_sound (c ∷ s) (d ∷ t) same =
    let (here, later) = and-true (c == d) (same_text s t) same in
    ap (λ x. x ∷ s) ((==_iff c d).0 here) ∙ ap (◌∷◌ d) (same_text_sound s t later)

any_here : (a b : Bool) → a ≡ true → (a || b) ≡ true
any_here true b h = refl
any_here false b h = cc

any-insert_text :
    (p : Text → Bool) (t : Text) (ts : List Text) → any p (insert_text t ts) ≡ (p t || any p ts)
unfolding insert_text
any-insert_text p t [] = refl
any-insert_text p t (u ∷ us) = ground (arith, any-insert_text p t us)

any-sort_texts : (p : Text → Bool) (ts : List Text) → any p (sort_texts ts) ≡ any p ts
unfolding sort_texts
any-sort_texts p [] = refl
any-sort_texts p (t ∷ ts) =
    any-insert_text p t (sort_texts ts) ∙ ap (λ b. p t || b) (any-sort_texts p ts)

any-All :
    (P : Text → Type 0) (t : Text) (ts : List Text) → any (same_text t) ts ≡ true → All P ts → P t
any-All P t [] found all = cc
any-All P t (u ∷ ts) found (of_u, all) = elim (Bool-cases (same_text t u)) [
  | inl same ↦ subst P (sym (same_text_sound t u same)) of_u
  | inr other ↦ any-All P t ts (ap (λ b. b || any (same_text t) ts) (sym other) ∙ found) all
]

module _ (P : Text → Type 0) where
  All-insert_text : (t : Text) (ts : List Text) → P t → All P ts → All P (insert_text t ts)
  unfolding insert_text
  All-insert_text t [] h hs = (h, tt)
  All-insert_text t (u ∷ us) h hs = elim (Bool-cases (leb_text t u)) [
    | inl front ↦ rw (insert_text, front) (h, hs)
    | inr later ↦ rw (insert_text, later) (hs.0, All-insert_text t us h hs.1)
  ]

  All-sort_texts : (ts : List Text) → All P ts → All P (sort_texts ts)
  unfolding sort_texts
  All-sort_texts [] h = tt
  All-sort_texts (t ∷ ts) h = All-insert_text t (sort_texts ts) h.0 (All-sort_texts ts h.1)

length-insert_text : (t : Text) (ts : List Text) → length (insert_text t ts) ≡ suc (length ts)
unfolding insert_text
length-insert_text t [] = refl
length-insert_text t (u ∷ us) = ground (arith, length-insert_text t us)

length-sort_texts : (ts : List Text) → length (sort_texts ts) ≡ length ts
unfolding sort_texts
length-sort_texts [] = refl
length-sort_texts (t ∷ ts) =
    ground (arith, length-sort_texts ts, length-insert_text t (sort_texts ts))

module _ (fold_other : ℕ → Text) where
  -- A field name that may be kept, of the given items.
  abbrev pub IsKept : List (Key × Value) → Text → Type 0
  IsKept items t =
      (is_sensitive fold_other t ≡ false)
      × (same_text t error_code_name ≡ false)
      × (any (is_name t) items ≡ true)

  IsKept-later :
      (i : Key × Value) (items : List (Key × Value)) (ts : List Text)
      → All (IsKept items) ts
      → All (IsKept (i ∷ items)) ts
  IsKept-later i items ts =
      All-imp (IsKept items) (IsKept (i ∷ items)) ts λ t (s, e, h). (s, e, ground arith)

  kept_names-IsKept :
      (items : List (Key × Value)) → All (IsKept items) (kept_names fold_other items).0
  unfolding kept_names
  kept_names-IsKept [] = tt
  kept_names-IsKept ((other_key, v) ∷ items) =
      IsKept-later (other_key, v) items (kept_names fold_other items).0 (kept_names-IsKept items)
  kept_names-IsKept ((name t, v) ∷ items) =
      let others =
        IsKept-later (name t, v) items (kept_names fold_other items).0 (kept_names-IsKept items) in
      elim (Bool-cases (same_text t error_code_name)) [
        | inl code ↦ rw (kept_names, code) others
        | inr field ↦ elim (Bool-cases (is_sensitive fold_other t)) [
          | inl hidden ↦ rw (kept_names, field, hidden) others
          | inr shown ↦
              rw (kept_names, field, shown)
                ((shown, field, ground (arith, same_text_refl t)), others)
        ]
      ]

  kept_names-counted :
      (items : List (Key × Value))
      → length (kept_names fold_other items).0 + (kept_names fold_other items).1 + error_codes items
        ≡ length items
  unfolding kept_names
  kept_names-counted [] = refl
  kept_names-counted ((other_key, v) ∷ items) = ground (arith, kept_names-counted items)
  kept_names-counted ((name t, v) ∷ items) = ground (arith, kept_names-counted items)

  envelope_of :
      (resource : ResourceKind) (items : List (Key × Value)) (code : Option Value)
      → let r = judge_error_code fold_other resource items code in
        (r.unknown_fields ≡ sort_texts (kept_names fold_other items).0)
        × (r.redacted_field_count ≡ (kept_names fold_other items).1)
        × ((r.quality ≡ good) ↔ (code ≡ some (integer (pos 0))))
        × (r.resource ≡ resource)
  envelope_of resource items none = ground arith
  envelope_of resource items (some (boolean b)) = ground arith
  envelope_of resource items (some (integer n)) = ground arith
  envelope_of resource items (some other_value) = ground arith

  -- Of the items of a response, every field name that is kept is one of theirs, is not `ErrorCode` and
  -- is not sensitive; with the redacted ones and `ErrorCode` they are all the items.
  pub normalize_resource_response_redacts :
      (resource : ResourceKind) (items : List (Key × Value))
      → let r = normalize_resource_response fold_other resource (mapping items) in
        All (IsKept items) r.unknown_fields
        × (length r.unknown_fields + r.redacted_field_count + error_codes items ≡ length items)
  unfolding normalize_resource_response
  normalize_resource_response_redacts resource items =
      let (fields, count, _, _) = envelope_of resource items (find_error_code items) in
      let kept =
        All-sort_texts (IsKept items) (kept_names fold_other items).0 (kept_names-IsKept items) in
      let size = length-sort_texts (kept_names fold_other items).0 in
      let counted = kept_names-counted items in
      (subst (All (IsKept items)) (sym fields) kept, rw (fields, size, count) counted)

  kept_names-any :
      (t : Text) (items : List (Key × Value))
      → same_text t error_code_name ≡ false
      → any (is_name t) items ≡ true
      → is_sensitive fold_other t ≡ false
      → any (same_text t) (kept_names fold_other items).0 ≡ true
  unfolding kept_names
  kept_names-any t [] no_code present shown = cc
  kept_names-any t ((other_key, v) ∷ items) no_code present shown =
      kept_names-any t items no_code present shown
  kept_names-any t ((name u, v) ∷ items) no_code present shown = elim (Bool-cases (same_text t u)) [
    | inl same ↦
        let agree : t ≡ u = same_text_sound t u same in
        let no_code_u = sym (ap (λ x. same_text x error_code_name) agree) ∙ no_code in
        let shown_u = sym (ap (is_sensitive fold_other) agree) ∙ shown in
        rw (no_code_u, shown_u) (any_here (same_text t u) _ same)
    | inr other ↦
        let later : any (is_name t) items ≡ true =
          ap (λ b. b || any (is_name t) items) (sym other) ∙ present in
        let found = kept_names-any t items no_code later shown in
        elim (Bool-cases (same_text u error_code_name)) [
          | inl code ↦ rw (code) found
          | inr field ↦ elim (Bool-cases (is_sensitive fold_other u)) [
            | inl hidden ↦ rw (field, hidden) found
            | inr kept ↦ rw (field, kept, other) found
          ]
        ]
  ]

  normalize_resource_response-any :
      (resource : ResourceKind) (items : List (Key × Value)) (t : Text)
      → same_text t error_code_name ≡ false
      → any (is_name t) items ≡ true
      → is_sensitive fold_other t ≡ false
      → any
          (same_text t)
          (normalize_resource_response fold_other resource (mapping items)).unknown_fields
        ≡ true
  unfolding normalize_resource_response
  normalize_resource_response-any resource items t no_code present shown =
      let (fields, _, _, _) = envelope_of resource items (find_error_code items) in
      ap (any (same_text t)) fields
      ∙ any-sort_texts (same_text t) (kept_names fold_other items).0
      ∙ kept_names-any t items no_code present shown

  word_no_code : (c : ℕ) (t : Text) → IsLetter c → same_text (c ∷ t) error_code_name ≡ false
  word_no_code c t letter = ground arith

  -- Of the items of a response, a name that is made of words, joined by underscores, dashes or
  -- capitals, is kept exactly if none of its words is one that marks it as sensitive; and every item is
  -- the `ErrorCode`, is kept, or is counted as redacted.
  pub normalize_resource_response-joined :
      (resource : ResourceKind) (items : List (Key × Value)) (c : ℕ) (cs : Text)
      (parts : List (Joint × Text))
      → IsWord (c ∷ cs)
      → All IsJoined parts
      → any (is_name (c ∷ (cs ++ joined parts))) items ≡ true
      → let r = normalize_resource_response fold_other resource (mapping items) in
        ((any (same_text (c ∷ (cs ++ joined parts))) r.unknown_fields ≡ true)
          ↔ (any marks ((c ∷ cs) ∷ map (λ p. p.1) parts) ≡ false))
        × (length r.unknown_fields + r.redacted_field_count + error_codes items ≡ length items)
  normalize_resource_response-joined resource items c cs parts word all present =
      let t = c ∷ (cs ++ joined parts) in
      let r = normalize_resource_response fold_other resource (mapping items) in
      let marked = is_sensitive-joined fold_other c cs parts word all in
      let (kept, counted) = normalize_resource_response_redacts resource items in
      (
        (
          λ found.
              let (shown, _, _) = any-All (IsKept items) t r.unknown_fields found kept in
              sym marked ∙ shown,
          λ unmarked.
              normalize_resource_response-any resource items t
                (word_no_code c (cs ++ joined parts) word.0) present (marked ∙ unmarked),
        ),
        counted,
      )

  -- A response is good exactly if it is an object whose `ErrorCode` is the integer 0; it is filed under
  -- the resource it was asked for.
  pub normalize_resource_response_good_iff :
      (resource : ResourceKind) (response : Response)
      → let r = normalize_resource_response fold_other resource response in
        ((r.quality ≡ good) ↔ (
          (items : List (Key × Value)) × (response ≡ mapping items)
          × (find_error_code items ≡ some (integer (pos 0)))))
        × (r.resource ≡ resource)
  unfolding normalize_resource_response
  normalize_resource_response_good_iff resource not_object = ((λ h. cc, λ (items, e, _). cc), refl)
  normalize_resource_response_good_iff resource (mapping items) =
      let (_, _, quality, kind) = envelope_of resource items (find_error_code items) in
      (
        (
          λ h. (items, refl, quality.0 h),
          λ (items', e, code). quality.1 (
              subst (λ (xs : List (Key × Value)). find_error_code xs ≡ some (integer (pos 0)))
                (let back : items' ≡ items = cc in back) code),
        ),
        kind,
      )
