-- ===== src/SmartLedz/Messages/Correlation.antt =====
-- Correlation is one to one: which responses are accepted, and what each request is answered with.
use hedp.Prelude.{
  ℕ, ◌≡◌, ◌≢◌, refl, ap, Bool-cases, inl, inr, true, false, some, List, [], ◌∷◌, ◌++◌, arith, ◌==◌,
  any, All, All-imp, ok,
}
use hedp.SmartLedz.Messages.{
  ReadRequest, DecodedResponse, same_resource, declares, responds, check_declared, check_received,
  find_response,
}

abbrev pub Differs : ReadRequest → ReadRequest → Type 0
Differs p q = (p.request_id ≢ q.request_id) × (p.resource ≢ q.resource)

-- No two requests have the same ID or the same resource.
abbrev pub RequestsDiffer : List ReadRequest → Type 0
RequestsDiffer [] = Unit {0}
RequestsDiffer (q ∷ qs) = All (Differs q) qs × RequestsDiffer qs

-- No two responses have the same ID.
abbrev pub ResponsesDiffer : List DecodedResponse → Type 0
ResponsesDiffer [] = Unit {0}
ResponsesDiffer (r ∷ rs) =
    All (λ (s : DecodedResponse). r.request_id ≢ s.request_id) rs × ResponsesDiffer rs

All-joined :
    {A : Type 0} (P Q R : A → Type 0) (xs : List A)
    → ((x : A) → P x → Q x → R x)
    → All P xs
    → All Q xs
    → All R xs
All-joined P Q R [] f p q = tt
All-joined P Q R (x ∷ xs) f p q = (f x p.0 q.0, All-joined P Q R xs f p.1 q.1)

abbrev pub IsFresh : List ReadRequest → ReadRequest → Type 0
IsFresh seen q =
    (declares q.request_id seen ≡ false)
    × (any (λ (p : ReadRequest). same_resource p.resource q.resource) seen ≡ false)

IsFresh-split :
    (q p : ReadRequest) (seen : List ReadRequest)
    → IsFresh (q ∷ seen) p
    → Differs q p × IsFresh seen p
IsFresh-split q p seen h = ground arith

IsFresh-join :
    (q p : ReadRequest) (seen : List ReadRequest)
    → Differs q p
    → IsFresh seen p
    → IsFresh (q ∷ seen) p
IsFresh-join q p seen d f = ground arith

pub check_declared-differ :
    (seen qs : List ReadRequest)
    → check_declared seen qs ≡ ok tt
    → RequestsDiffer qs × All (IsFresh seen) qs
unfolding check_declared
check_declared-differ seen [] h = (tt, tt)
check_declared-differ seen (q ∷ qs) h =
    let (this, rest) : IsFresh seen q × (check_declared (q ∷ seen) qs ≡ ok tt) = ground arith in
    let (apart, others) = check_declared-differ (q ∷ seen) qs rest in
    (
      (
        All-imp (IsFresh (q ∷ seen)) (Differs q) qs (λ p f. (IsFresh-split q p seen f).0) others,
        apart,
      ),
      (
        this,
        All-imp (IsFresh (q ∷ seen)) (IsFresh seen) qs (λ p f. (IsFresh-split q p seen f).1) others,
      ),
    )

pub check_declared-accepts :
    (seen qs : List ReadRequest)
    → RequestsDiffer qs
    → All (IsFresh seen) qs
    → check_declared seen qs ≡ ok tt
unfolding check_declared
check_declared-accepts seen [] d f = refl
check_declared-accepts seen (q ∷ qs) d f =
    let rest = check_declared-accepts (q ∷ seen) qs d.1 (
      All-joined (Differs q) (IsFresh seen) (IsFresh (q ∷ seen)) qs (λ p. IsFresh-join q p seen) d.0
        f.1) in
    ground arith

-- A response that may be accepted: no notification, and to a declared request.
abbrev pub IsExpected : List ReadRequest → DecodedResponse → Type 0
IsExpected requests r = (r.notification ≡ false) × (declares r.request_id requests ≡ true)

abbrev pub IsNew : List DecodedResponse → DecodedResponse → Type 0
IsNew matched r = responds r.request_id matched ≡ false

pub check_received-differ :
    (requests : List ReadRequest) (matched rs : List DecodedResponse)
    → check_received requests matched rs ≡ ok tt
    → ResponsesDiffer rs × All (IsExpected requests) rs × All (IsNew matched) rs
unfolding check_received
check_received-differ requests matched [] h = (tt, tt, tt)
check_received-differ requests matched (r ∷ rs) h =
    let (this, fresh, rest) : IsExpected requests r
        × IsNew matched r
        × (check_received requests (r ∷ matched) rs ≡ ok tt) =
      ground arith in
    let (apart, expected, others) = check_received-differ requests (r ∷ matched) rs rest in
    let ID = λ (s : DecodedResponse). r.request_id ≢ s.request_id in
    (
      (All-imp (IsNew (r ∷ matched)) ID rs (λ s n. ground arith) others, apart),
      (this, expected),
      (fresh, All-imp (IsNew (r ∷ matched)) (IsNew matched) rs (λ s n. ground arith) others),
    )

pub check_received-accepts :
    (requests : List ReadRequest) (matched rs : List DecodedResponse)
    → ResponsesDiffer rs
    → All (IsExpected requests) rs
    → All (IsNew matched) rs
    → check_received requests matched rs ≡ ok tt
unfolding check_received
check_received-accepts requests matched [] d e n = refl
check_received-accepts requests matched (r ∷ rs) d e n =
    let rest = check_received-accepts requests (r ∷ matched) rs d.1 e.1 (
      All-joined (λ (s : DecodedResponse). r.request_id ≢ s.request_id) (IsNew matched)
        (IsNew (r ∷ matched)) rs (λ s apart fresh. ground arith) d.0 n.1) in
    ground arith

-- The first response with a given ID, and where it stands.
pub find_response-responds :
    (n : ℕ) (rs : List DecodedResponse)
    → responds n rs ≡ true
    → (r : DecodedResponse) × (before : List DecodedResponse) × (after : List DecodedResponse)
      × (find_response n rs ≡ some r)
      × (r.request_id ≡ n)
      × (rs ≡ before ++ r ∷ after)
find_response-responds n [] h = cc
find_response-responds n (r ∷ rs) h = elim (Bool-cases (r.request_id == n)) [
  | inl this ↦ (r, [], rs, ground arith, ground arith, refl)
  | inr other ↦
      let (s, before, after, found, e, place) = find_response-responds n rs (ground arith) in
      (s, r ∷ before, after, ground arith, e, ap (λ (xs : List DecodedResponse). r ∷ xs) place)
]
