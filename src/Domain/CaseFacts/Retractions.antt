-- ===== src/Domain/CaseFacts/Retractions.antt =====
-- domain/case_facts.py: what a reply may take back.
use ecommerce_after_sales_ag.Common.{
  String, true, false, ◌&&◌, ◌||◌, Option, none, some, List, [], ◌∷◌, ◌++◌, ◌≡◌, ◌≢◌, refl, sym, ap,
  ◌∙◌, ◌⊎◌, inl, inr, any, select, Bool-cases, and-eq-true, or-eq-false, true-ne-false,
}
use ecommerce_after_sales_ag.Common.Enum.{◌is◌, is_iff, some-injective}
use ecommerce_after_sales_ag.Common.Result.{
  ok, case_fact, raise_if, >>-eq-ok, raise_if-eq-ok, ok-injective,
}
use ecommerce_after_sales_ag.Domain.CaseFacts.Codes.{
  FactCode, FactValue, RelationHint, fact_code_enum, fact_value_enum,
}
use ecommerce_after_sales_ag.Domain.CaseFacts.Records.{
  CaseFactCandidate, CaseFactAssertion, DeliveryProofFactContext,
}
use ecommerce_after_sales_ag.Domain.CaseFacts.Reply.{
  authoritative_interpretation, relation_said, last_of, says, correction_cues, withdrawal_cues,
}
use ecommerce_after_sales_ag.Domain.CaseFacts.Accepted.{interpretation-IsInterpreted}

-- The list ends in this assertion.
abbrev pub EndsIn : List CaseFactAssertion → CaseFactAssertion → Type 0
EndsIn xs a = (earlier : List CaseFactAssertion) × (xs ≡ earlier ++ a ∷ [])

last_of-EndsIn :
    (xs : List CaseFactAssertion) (a : CaseFactAssertion) → last_of xs ≡ some a → EndsIn xs a
unfolding last_of
last_of-EndsIn [] a h = absurd cc
last_of-EndsIn (x ∷ []) a h = ([], ap (λ y. y ∷ []) (some-injective h))
last_of-EndsIn (x ∷ y ∷ rest) a h =
    let (earlier, e) = last_of-EndsIn (y ∷ rest) a h in (x ∷ earlier, ap (λ l. x ∷ l) e)

-- A relation without a target; or a withdrawal of the latest assertion to unknown, by a cue of
-- withdrawal; or its correction from one known value to the other, by a cue of correction.
abbrev pub IsRelated :
    String → FactValue → List CaseFactAssertion → RelationHint × Option String → Type 0
IsRelated normalized value same_fact r =
    ((r.1 ≡ none) × ((r.0 ≡ RelationHint.fresh) ⊎ (r.0 ≡ RelationHint.repeat)))
    ⊎ ((a : CaseFactAssertion) × EndsIn same_fact a
        × (r.1 ≡ some a.assertion_id)
        × (((r.0 ≡ RelationHint.withdrawal)
              × (value ≡ FactValue.unknown)
              × (says withdrawal_cues normalized ≡ true))
            ⊎ ((r.0 ≡ RelationHint.correction)
                × (says correction_cues normalized ≡ true)
                × (value ≢ FactValue.unknown)
                × (a.value ≢ FactValue.unknown)
                × (a.value ≢ value))))

is-ne : (a b : FactValue) → (a is b) ≡ false → a ≢ b
is-ne a b h e = true-ne-false (sym ((is_iff a b).1 e) ∙ h)

relation_said-IsRelated :
    (normalized : String) (value : FactValue) (same_fact : List CaseFactAssertion)
    (latest : Option CaseFactAssertion) (r : RelationHint × Option String)
    → last_of same_fact ≡ latest
    → relation_said normalized value same_fact latest ≡ ok r
    → IsRelated normalized value same_fact r
unfolding relation_said
relation_said-IsRelated normalized value same_fact none r k h =
    let same = sym (ok-injective h) in inl (ap (λ x. x.1) same, inl (ap (λ x. x.0) same))
relation_said-IsRelated normalized value same_fact (some a) r k h =
    elim (Bool-cases (value is FactValue.unknown && says withdrawal_cues normalized)) [
      | inl e ↦
          let (unknown, cue) = and-eq-true _ _ e in
          let same = sym (ok-injective (rw e at h)) in
          inr (
            a,
            last_of-EndsIn same_fact a k,
            ap (λ x. x.1) same,
            inl (ap (λ x. x.0) same, (is_iff value FactValue.unknown).0 unknown, cue),
          )
      | inr e ↦ elim (Bool-cases (says correction_cues normalized)) [
        | inl f ↦
            let (allowed, last) =
              >>-eq-ok
                (raise_if
                  (value is FactValue.unknown || a.value is FactValue.unknown || a.value is value)
                  (case_fact "persisted reply does not support this correction"))
                _ (rw (e, f) at h) in
            let (first_two, differs) = or-eq-false _ _ (raise_if-eq-ok _ _ allowed) in
            let (now_known, was_known) = or-eq-false _ _ first_two in
            let same = sym (ok-injective last) in
            inr (
              a,
              last_of-EndsIn same_fact a k,
              ap (λ x. x.1) same,
              inr (
                ap (λ x. x.0) same,
                f,
                is-ne value FactValue.unknown now_known,
                is-ne a.value FactValue.unknown was_known,
                is-ne a.value value differs,
              ),
            )
        | inr f ↦ elim (Bool-cases (any (λ item. item.value is value) same_fact)) [
          | inl g ↦
              let same = sym (ok-injective (rw (e, f, g) at h)) in
              inl (ap (λ x. x.1) same, inr (ap (λ x. x.0) same))
          | inr g ↦
              let same = sym (ok-injective (rw (e, f, g) at h)) in
              inl (ap (λ x. x.1) same, inl (ap (λ x. x.0) same))
        ]
      ]
    ]

module _ (casefold strip : String → String) where
  -- An interpretation of a reply supersedes nothing but the last of the active assertions on the fact
  -- that was asked about: by a withdrawal, to unknown and on a cue of withdrawal, or by a correction from one
  -- known value to the other on a cue of correction. Every other interpretation has no target.
  pub only_latest_superseded :
      (content : String) (code : FactCode) (active : List CaseFactAssertion)
      (proof : Option DeliveryProofFactContext) (c : CaseFactCandidate)
      → authoritative_interpretation casefold strip content code active proof ≡ ok c
      → (c.fact_code ≡ code)
        × IsRelated
            (casefold content)
            c.value
            (select (λ a. a.fact_code is code) active)
            (c.relation_hint, c.target_assertion_id)
  only_latest_superseded content code active proof c h =
      let i = interpretation-IsInterpreted casefold strip content code active proof c h in
      (i.same_code, relation_said-IsRelated (casefold content) c.value _ _ _ refl i.related)
