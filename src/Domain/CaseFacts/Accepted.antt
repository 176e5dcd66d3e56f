-- ===== src/Domain/CaseFacts/Accepted.antt =====
-- domain/case_facts.py: which candidates are accepted.
use ecommerce_after_sales_ag.Common.{
  ℕ, String, true, not, ◌&&◌, ◌||◌, Option, some, List, ◌≡◌, refl, sym, ap, subst, leb, is_some,
  ◌∙◌, ◌↔◌, arith, select, length, str_eq, opt_eq, opt_eq-eq, ◌==◌, non_empty, if◌then◌else◌,
  eq_iff, and-eq-true, and_of_true, or-eq-false, not-eq-false,
}
use ecommerce_after_sales_ag.Common.Enum.{◌is◌, is_iff}
use ecommerce_after_sales_ag.Common.Result.{
  Result, ok, case_fact, validation, is_ok, is_ok-eq-true, raise_if, >>=-eq-ok, >>-eq-ok,
  raise_if-eq-ok, ok-injective,
}
use ecommerce_after_sales_ag.Common.Text.{codes}
use ecommerce_after_sales_ag.Domain.Models.{differ}
use ecommerce_after_sales_ag.Domain.CaseFacts.Codes.{
  FactCode, FactValue, RelationHint, fact_code_enum, fact_value_enum, relation_hint_enum,
}
use ecommerce_after_sales_ag.Domain.CaseFacts.Records.{
  CaseFactCandidate, CaseFactAssertion, DeliveryProofFactContext, same_candidate, candidate_valid,
  optional_id, targeted,
}
use ecommerce_after_sales_ag.Domain.CaseFacts.Reply.{
  authoritative_interpretation, validate_candidate, relation_said, last_of, says, unknown_cues,
  value_said,
}

==_iff : (a b : ℕ) → ((a == b) ≡ true) ↔ (a ≡ b)
==_iff a b = ((λ h. ground arith), (λ h. ground arith))

same_candidate_refl : (a : CaseFactCandidate) → same_candidate a a ≡ true
unfolding same_candidate
same_candidate_refl a =
    and_of_true _ _
      (and_of_true _ _
        (and_of_true _ _
          (and_of_true _ _
            (and_of_true _ _ ((is_iff a.fact_code a.fact_code).1 refl)
              ((is_iff a.value a.value).1 refl))
            ((is_iff a.relation_hint a.relation_hint).1 refl))
          ((opt_eq-eq a.target_assertion_id a.target_assertion_id).1 refl))
        ((==_iff a.source_span.start a.source_span.start).1 refl))
      ((==_iff a.source_span.end a.source_span.end).1 refl)

same_candidate_iff : (a b : CaseFactCandidate) → (same_candidate a b ≡ true) ↔ (a ≡ b)
unfolding same_candidate
same_candidate_iff a b = (
  (λ h.
      let (h₁, end) = and-eq-true _ _ h in
      let (h₂, start) = and-eq-true _ _ h₁ in
      let (h₃, target) = and-eq-true _ _ h₂ in
      let (h₄, relation) = and-eq-true _ _ h₃ in
      let (code, value) = and-eq-true _ _ h₄ in
      λ i. record {
        fact_code = (is_iff a.fact_code b.fact_code).0 code i;
        value = (is_iff a.value b.value).0 value i;
        relation_hint = (is_iff a.relation_hint b.relation_hint).0 relation i;
        target_assertion_id = (opt_eq-eq a.target_assertion_id b.target_assertion_id).0 target i;
        source_span = record {
          start = (==_iff a.source_span.start b.source_span.start).0 start i;
          end = (==_iff a.source_span.end b.source_span.end).0 end i;
        };
      }),
  (λ e. subst (λ c. same_candidate a c ≡ true) e (same_candidate_refl a)),
)

candidate_valid-eq-ok : (c d : CaseFactCandidate) → candidate_valid c ≡ ok d → d ≡ c
unfolding candidate_valid
candidate_valid-eq-ok c d h =
    let (_, h₁) =
      >>-eq-ok
        (raise_if (not (leb 1 c.source_span.end)) (validation "field constraint of SourceSpan")) _
        h in
    let (_, h₂) =
      >>-eq-ok
        (raise_if (leb c.source_span.end c.source_span.start)
          (validation "source span end must be greater than start"))
        _ h₁ in
    let (_, h₃) =
      >>-eq-ok
        (raise_if (not (optional_id c.target_assertion_id))
          (validation "field constraint of CaseFactCandidate"))
        _ h₂ in
    let (_, h₄) =
      >>-eq-ok
        (raise_if (differ (targeted c.relation_hint) (is_some c.target_assertion_id))
          (validation "only correction/withdrawal candidates require a target"))
        _ h₃ in
    let (_, h₅) =
      >>-eq-ok
        (raise_if (c.relation_hint is RelationHint.withdrawal && not (c.value is FactValue.unknown))
          (validation "withdrawal must produce unknown"))
        _ h₄ in
    sym (ok-injective h₅)

-- the value that a text supports as an answer
abbrev pub value_of_reply : String → FactCode → Option DeliveryProofFactContext → Result FactValue
value_of_reply normalized code proof =
    if says unknown_cues normalized then ok FactValue.unknown else value_said code normalized proof

module _ (casefold strip : String → String) where
  -- What an interpretation consists of.
  pub record IsInterpreted (content : String) (code : FactCode) (active : List CaseFactAssertion)
      (proof : Option DeliveryProofFactContext) (c : CaseFactCandidate) : Type 0 where
    pub not_blank : non_empty (strip content) ≡ true
    pub said : value_of_reply (casefold content) code proof ≡ ok c.value
    pub related :
        relation_said
          (casefold content)
          c.value
          (select (λ a. a.fact_code is code) active)
          (last_of (select (λ a. a.fact_code is code) active))
        ≡ ok (c.relation_hint, c.target_assertion_id)
    pub same_code : c.fact_code ≡ code
    pub whole : c.source_span ≡ record { start = 0; end = length (codes content) }

  pub interpretation-IsInterpreted :
      (content : String) (code : FactCode) (active : List CaseFactAssertion)
      (proof : Option DeliveryProofFactContext) (c : CaseFactCandidate)
      → authoritative_interpretation casefold strip content code active proof ≡ ok c
      → IsInterpreted content code active proof c
  unfolding authoritative_interpretation
  interpretation-IsInterpreted content code active proof c h =
      let same_fact = select (λ a. a.fact_code is code) active in
      let (blank, h₁) =
        >>-eq-ok
          (raise_if (not (non_empty (strip content)))
            (case_fact "persisted customer reply is empty"))
          _ h in
      let (value, hv, h₂) = >>=-eq-ok (value_of_reply (casefold content) code proof) _ h₁ in
      let (r, hr, h₃) =
        >>=-eq-ok (relation_said (casefold content) value same_fact (last_of same_fact)) _ h₂ in
      let is_c = candidate_valid-eq-ok _ c h₃ in
      rw is_c (record {
        not_blank = not-eq-false _ (raise_if-eq-ok _ _ blank);
        said = hv;
        related = hr;
        same_code = refl;
        whole = refl;
      })

  -- A candidate is accepted exactly if the message is the customer's and of this case, and the fixed
  -- cues interpret it as this candidate: value, relation, target and span. Nothing else that a model
  -- proposes is accepted.
  pub candidate_accepted_iff :
      (candidate : CaseFactCandidate) (case_id : String) (message_case : Option String)
      (role content : String) (code : FactCode) (active : List CaseFactAssertion)
      (proof : Option DeliveryProofFactContext)
      → (is_ok (
            validate_candidate casefold strip candidate case_id message_case role content code
              active proof)
          ≡ true)
        ↔ ((message_case ≡ some case_id)
            × (role ≡ "customer")
            × (authoritative_interpretation casefold strip content code active proof
                ≡ ok candidate))
  unfolding validate_candidate
  candidate_accepted_iff candidate case_id message_case role content code active proof = (
    (λ h.
        let (result, k) = is_ok-eq-true _ h in
        let (a, k₁) =
          >>-eq-ok
            (raise_if (not (opt_eq message_case (some case_id)) || not (str_eq role "customer"))
              (case_fact "source_message_id must be customer-authored and bound to this Case"))
            _ k in
        let (b, k₂) =
          >>-eq-ok
            (raise_if (not (candidate.fact_code is code))
              (case_fact "candidate does not answer the outstanding Case Fact question"))
            _ k₁ in
        let (c, hc, k₃) =
          >>=-eq-ok (authoritative_interpretation casefold strip content code active proof) _ k₂ in
        let (d, _) =
          >>-eq-ok
            (raise_if (not (same_candidate candidate c)) (
              case_fact
                "candidate value, relation, target, or span disagrees with deterministic interpretation"))
            _ k₃ in
        let (mine, customer) = or-eq-false _ _ (raise_if-eq-ok _ _ a) in
        (
          (opt_eq-eq message_case (some case_id)).0 (not-eq-false _ mine),
          (eq_iff role "customer").0 (not-eq-false _ customer),
          hc
              ∙ ap ok (
                  sym ((same_candidate_iff candidate c).0 (not-eq-false _ (raise_if-eq-ok _ _ d)))),
        )),
    (λ (mine, customer, said).
        let i = interpretation-IsInterpreted content code active proof candidate said in
        rw
          (
            (opt_eq-eq message_case (some case_id)).1 mine,
            (eq_iff role "customer").1 customer,
            (is_iff candidate.fact_code code).1 i.same_code,
            said,
            same_candidate_refl candidate,
          )
          refl),
  )
