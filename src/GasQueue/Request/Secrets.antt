-- ===== src/GasQueue/Request/Secrets.antt =====
-- src/hedp/adapters/fusionsolar/gas_queue_importer.py: `_reject_secrets`, against the keys at any
-- depth, and `_validate_request`, against the one request that is allowed.
use Prim.Native.String.{String}
use hedp.Prelude.{
  ◌≡◌, ◌↔◌, refl, false, List, [], ◌∷◌, ◌++◌, arith, Result, ok, err, raise_if, ◌>>◌, All,
  All-append, raise_if-passed,
}
use hedp.Prelude.Json.{
  Json, null, boolean, integer, float, text, array, object, Elements, no_elements, element, Members,
  no_members, member,
}
use hedp.GasQueue.{sensitive_field_present}
use hedp.GasQueue.Request.{Text, is_secret, reject_secrets, reject_elements, reject_members}

unfoldable mutual
  -- The keys of a value at any depth.
  pub keys_within : Json → List String
  keys_within null = []
  keys_within (boolean _) = []
  keys_within (integer _) = []
  keys_within (float _) = []
  keys_within (text _) = []
  keys_within (array vs) = keys_of_elements vs
  keys_within (object ms) = keys_of_members ms

  pub keys_of_elements : Elements → List String
  keys_of_elements no_elements = []
  keys_of_elements (element v vs) = keys_within v ++ keys_of_elements vs

  pub keys_of_members : Members → List String
  keys_of_members no_members = []
  keys_of_members (member key v ms) = key ∷ (keys_within v ++ keys_of_members ms)

All-split {ℓ κ} :
    {A : Type ℓ} (P : A → Type κ) (xs ys : List A) → All P (xs ++ ys) → All P xs × All P ys
All-split P [] ys of_all = (tt, of_all)
All-split P (x ∷ xs) ys (of_x, others) =
    let (of_xs, of_ys) = All-split P xs ys others in ((of_x, of_xs), of_ys)

-- A chain returns exactly if both of its parts do.
chain_iff :
    {E P Q : Type 0} (first second : Result E (Unit {0}))
    → (first ≡ ok tt) ↔ P
    → (second ≡ ok tt) ↔ Q
    → ((first >> second) ≡ ok tt) ↔ (P × Q)
chain_iff (ok tt) second (to_p, _) (to_q, of_q) =
    (λ returned. (to_p refl, to_q returned), λ (_, q). of_q q)
chain_iff (err e) second (to_p, of_p) of_second =
    (λ returned. cc, λ (p, _). absurd (let failed = of_p p in ground arith))

module _ (lower : String → Text) where
  abbrev pub IsPlain : String → Type 0
  IsPlain key = is_secret lower key ≡ false

  parts_iff :
      (xs ys : List String) {R : Type 0}
      → R ↔ (All IsPlain xs × All IsPlain ys)
      → R ↔ All IsPlain (xs ++ ys)
  parts_iff xs ys (to, from) = (
    λ r. let (of_xs, of_ys) = to r in All-append IsPlain xs ys of_xs of_ys,
    λ of_all. from (All-split IsPlain xs ys of_all),
  )

  IsPlain-iff :
      (key : String)
      → (raise_if (is_secret lower key) sensitive_field_present ≡ ok tt) ↔ IsPlain key
  IsPlain-iff key = (
    λ passed. raise_if-passed (is_secret lower key) sensitive_field_present tt passed,
    λ plain. rw (plain) refl,
  )

  mutual
    unfolding reject_secrets keys_within

    secrets-AllPlain : (v : Json) → (reject_secrets lower v ≡ ok tt) ↔ All IsPlain (keys_within v)
    secrets-AllPlain null = (λ _. tt, λ _. refl)
    secrets-AllPlain (boolean _) = (λ _. tt, λ _. refl)
    secrets-AllPlain (integer _) = (λ _. tt, λ _. refl)
    secrets-AllPlain (float _) = (λ _. tt, λ _. refl)
    secrets-AllPlain (text _) = (λ _. tt, λ _. refl)
    secrets-AllPlain (array vs) = reject_elements-AllPlain vs
    secrets-AllPlain (object ms) = reject_members-AllPlain ms

    reject_elements-AllPlain :
        (vs : Elements) → (reject_elements lower vs ≡ ok tt) ↔ All IsPlain (keys_of_elements vs)
    reject_elements-AllPlain no_elements = (λ _. tt, λ _. refl)
    reject_elements-AllPlain (element v vs) = parts_iff (keys_within v) (keys_of_elements vs) (
        chain_iff (reject_secrets lower v) (reject_elements lower vs) (secrets-AllPlain v)
          (reject_elements-AllPlain vs))

    reject_members-AllPlain :
        (ms : Members) → (reject_members lower ms ≡ ok tt) ↔ All IsPlain (keys_of_members ms)
    reject_members-AllPlain no_members = (λ _. tt, λ _. refl)
    reject_members-AllPlain (member key v ms) =
        chain_iff (raise_if (is_secret lower key) sensitive_field_present)
          (reject_secrets lower v >> reject_members lower ms) (IsPlain-iff key)
          (parts_iff (keys_within v) (keys_of_members ms) (
            chain_iff (reject_secrets lower v) (reject_members lower ms) (secrets-AllPlain v)
              (reject_members-AllPlain ms)))

  -- A value is let through exactly if none of its keys, at any depth of objects and lists, holds one
  -- of the words, in lower case, that mark a secret.
  pub reject_secrets-AllPlain :
      (v : Json) → (reject_secrets lower v ≡ ok tt) ↔ All IsPlain (keys_within v)
  reject_secrets-AllPlain v = secrets-AllPlain v
