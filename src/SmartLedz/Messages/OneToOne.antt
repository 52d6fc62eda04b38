-- ===== src/SmartLedz/Messages/OneToOne.antt =====
-- Correlation is one to one: which responses are accepted, and what each request is answered with.
use hedp.Prelude.{
  ℕ, ◌<◌, ◌≡◌, ◌↔◌, refl, sym, ap, ◌∙◌, subst, true, false, not, List, [], ◌∷◌, ◌++◌, arith, ◌==◌,
  length, any, All, All-imp, any_none, ok, bind_returns, raise_if,
}
use hedp.SmartLedz.Envelope.{Text, normalize_resource_response}
use hedp.SmartLedz.Messages.{
  ReadRequest, DecodedResponse, CorrelatedReadResponse, responds, check_declared, check_received,
  correlated, correlate_all, correlate_read_responses,
}
use hedp.SmartLedz.Messages.Correlation.{
  RequestsDiffer, ResponsesDiffer, IsExpected, IsFresh, IsNew, check_declared-differ,
  check_declared-accepts, check_received-differ, check_received-accepts, find_response-responds,
}

-- Requests and responses that belong together, one to one.
pub record IsComplete (requests : List ReadRequest) (responses : List DecodedResponse)
    : Type 0 where
  pub some_request : 0 < length requests
  pub requests_differ : RequestsDiffer requests
  pub responses_differ : ResponsesDiffer responses
  pub expected : All (IsExpected requests) responses
  pub answered : All (λ (q : ReadRequest). responds q.request_id responses ≡ true) requests

All-IsFresh : (qs : List ReadRequest) → All (IsFresh []) qs
All-IsFresh [] = tt
All-IsFresh (q ∷ qs) = ((refl, refl), All-IsFresh qs)

All-IsNew : (rs : List DecodedResponse) → All (IsNew []) rs
All-IsNew [] = tt
All-IsNew (r ∷ rs) = (refl, All-IsNew rs)

answered-All :
    (requests : List ReadRequest) (responses : List DecodedResponse)
    → any (λ (q : ReadRequest). not (responds q.request_id responses)) requests ≡ false
    → All (λ (q : ReadRequest). responds q.request_id responses ≡ true) requests
answered-All [] responses h = tt
answered-All (q ∷ qs) responses h = (ground arith, answered-All qs responses (ground arith))

module _ (fold_other : ℕ → Text) (responses : List DecodedResponse) where
  -- A request's answer: the envelope of the response with its ID, which is one of the responses.
  abbrev pub Answers : ReadRequest → CorrelatedReadResponse → Type 0
  Answers q c =
      (r : DecodedResponse) × (before : List DecodedResponse) × (after : List DecodedResponse)
      × (responses ≡ before ++ r ∷ after)
      × (r.request_id ≡ q.request_id)
      × (c.request_id ≡ q.request_id)
      × (c.resource ≡ q.resource)
      × (c.envelope ≡ normalize_resource_response fold_other q.resource r.response)

  abbrev pub AnswersAll : List ReadRequest → List CorrelatedReadResponse → Type 0
  AnswersAll [] [] = Unit {0}
  AnswersAll (q ∷ qs) (c ∷ cs) = Answers q c × AnswersAll qs cs
  AnswersAll _ _ = ⊥

  correlate_all-answers :
      (qs : List ReadRequest)
      → All (λ (q : ReadRequest). responds q.request_id responses ≡ true) qs
      → (cs : List CorrelatedReadResponse) × (correlate_all fold_other qs responses ≡ ok cs)
        × AnswersAll qs cs
  unfolding correlate_all
  correlate_all-answers [] h = ([], refl, tt)
  correlate_all-answers (q ∷ qs) h =
      let (r, before, after, found, id, place) =
        find_response-responds q.request_id responses h.0 in
      let (cs, e, others) = correlate_all-answers qs h.1 in
      (
        correlated fold_other q r ∷ cs,
        rw (correlate_all, found, e) refl,
        ((r, before, after, place, id, refl, refl, refl), others),
      )

  correlate-steps :
      (requests : List ReadRequest) (cs : List CorrelatedReadResponse)
      → correlate_read_responses fold_other requests responses ≡ ok cs
      → IsComplete requests responses × (correlate_all fold_other requests responses ≡ ok cs)
  unfolding correlate_read_responses
  correlate-steps requests cs h =
      let (u0, some_request, h1) = bind_returns (raise_if (length requests == 0) _) _ h in
      let (u1, declared, h2) = bind_returns (check_declared [] requests) _ h1 in
      let (u2, received, h3) = bind_returns (check_received requests [] responses) _ h2 in
      let (u3, none_missing, all) =
        bind_returns
          (raise_if (any (λ (q : ReadRequest). not (responds q.request_id responses)) requests) _) _
          h3 in
      let (apart, expected, _) = check_received-differ requests [] responses received in
      (
        record {
          some_request = ground arith;
          requests_differ = (check_declared-differ [] requests declared).0;
          responses_differ = apart;
          expected = expected;
          answered = answered-All requests responses (ground arith);
        },
        all,
      )

  -- Correlation is accepted exactly if there is a request, no two requests share an ID or a resource,
  -- no two responses share an ID, every response is to a declared request and no notification, and
  -- every request has a response.
  pub correlate_read_responses-accepts :
      (requests : List ReadRequest)
      → ((cs : List CorrelatedReadResponse) × (correlate_read_responses fold_other requests
              responses
            ≡ ok cs))
        ↔ IsComplete requests responses
  unfolding correlate_read_responses
  correlate_read_responses-accepts requests = (
    λ (cs, h). (correlate-steps requests cs h).0,
    λ complete.
        let declared =
          check_declared-accepts [] requests complete.requests_differ (All-IsFresh requests) in
        let received =
          check_received-accepts requests [] responses complete.responses_differ complete.expected
            (All-IsNew responses) in
        let none_missing =
          any_none (λ (q : ReadRequest). not (responds q.request_id responses)) requests
            (All-imp (λ (q : ReadRequest). responds q.request_id responses ≡ true)
              (λ (q : ReadRequest). not (responds q.request_id responses) ≡ false) requests
              (λ q h. ap not h) complete.answered) in
        let (cs, e, _) = correlate_all-answers requests complete.answered in
        let some_request : (length requests == 0) ≡ false =
          (let h = complete.some_request in ground arith) in
        (cs, rw (correlate_read_responses, some_request, declared, received, none_missing) e),
  )

  -- When correlation returns, each request is answered, in the order of the requests: by the envelope
  -- of the one response with its ID, under its own ID and resource.
  pub correlate_read_responses-AnswersAll :
      (requests : List ReadRequest) (cs : List CorrelatedReadResponse)
      → correlate_read_responses fold_other requests responses ≡ ok cs
      → AnswersAll requests cs
  correlate_read_responses-AnswersAll requests cs h =
      let (complete, all) = correlate-steps requests cs h in
      let (cs', e, answers) = correlate_all-answers requests complete.answered in
      let same : cs' ≡ cs = (let both = sym e ∙ all in cc) in
      subst (AnswersAll requests) same answers
