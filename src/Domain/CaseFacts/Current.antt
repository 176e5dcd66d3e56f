-- ===== src/Domain/CaseFacts/Current.antt =====
-- domain/case_facts.py: a delivery-location fact stands for the current delivery proof only.
use mathlib.Core.Path.{fun_ext}
use ecommerce_after_sales_ag.Common.{
  none, some, subst, opt_eq, opt_eq-eq, Bool-ext, Bool-cases, and-eq-true, String, Bool, true,
  false, ◌&&◌, Option, List, [], ◌∷◌, ◌≡◌, refl, sym, ap, ◌∙◌, ◌↔◌, ◌⊎◌, inl, inr, arith, all,
}
use ecommerce_after_sales_ag.Domain.CaseFacts.Codes.{
  FactCode, FactStatus, fact_code_enum, fact_value_enum, relation_hint_enum, fact_status_enum,
  question_status_enum,
}
use ecommerce_after_sales_ag.Domain.CaseFacts.Records.{CaseFactAssertion, DeliveryProofFactContext}
use ecommerce_after_sales_ag.Domain.CaseFacts.Entries.{same_context, about_proof, located_status}
use ecommerce_after_sales_ag.Domain.CaseFacts.Disputes.{and-false}

and-true : (b : Bool) → (b && true) ≡ b
and-true true = refl
and-true false = refl

-- the active assertions of a fact are about one proof, the current one, as the code tests it
abbrev about_current : List CaseFactAssertion → Option DeliveryProofFactContext → Bool
about_current [] proof = true
about_current (a ∷ rest) proof = all (same_context a) rest && about_proof a proof

-- an assertion was made about this proof
abbrev pub is_about : Option DeliveryProofFactContext → CaseFactAssertion → Bool
is_about none a = false
is_about (some p) a =
    opt_eq a.context_tool_call_id (some p.tool_call_id)
    && opt_eq a.context_result_hash (some p.result_hash)

opt_eq_comm : (x y : Option String) → opt_eq x y ≡ opt_eq y x
opt_eq_comm x y = Bool-ext (opt_eq x y) (opt_eq y x) (
  (λ h. (opt_eq-eq y x).1 (sym ((opt_eq-eq x y).0 h))),
  (λ h. (opt_eq-eq x y).1 (sym ((opt_eq-eq y x).0 h))),
)

same_context-is_about :
    (a : CaseFactAssertion) (p : DeliveryProofFactContext)
    → is_about (some p) a ≡ true
    → same_context a ≡ is_about (some p)
same_context-is_about a p h =
    let (call, hash) =
      and-eq-true (opt_eq a.context_tool_call_id (some p.tool_call_id))
        (opt_eq a.context_result_hash (some p.result_hash)) h in
    let call_is = (opt_eq-eq a.context_tool_call_id (some p.tool_call_id)).0 call in
    let hash_is = (opt_eq-eq a.context_result_hash (some p.result_hash)).0 hash in
    fun_ext λ b.
      ap
        (λ s. opt_eq s b.context_tool_call_id && opt_eq a.context_result_hash b.context_result_hash)
        call_is
      ∙ ap
          (λ s.
            opt_eq (some p.tool_call_id) b.context_tool_call_id && opt_eq s b.context_result_hash)
          hash_is
      ∙ ap (λ t. t && opt_eq (some p.result_hash) b.context_result_hash)
          (opt_eq_comm (some p.tool_call_id) b.context_tool_call_id)
      ∙ ap (λ t. opt_eq b.context_tool_call_id (some p.tool_call_id) && t)
          (opt_eq_comm (some p.result_hash) b.context_result_hash)

about_current-eq-all :
    (active : List CaseFactAssertion) (proof : Option DeliveryProofFactContext)
    → about_current active proof ≡ all (is_about proof) active
about_current-eq-all [] proof = refl
about_current-eq-all (a ∷ rest) none = and-false (all (same_context a) rest)
about_current-eq-all (a ∷ rest) (some p) = elim (Bool-cases (is_about (some p) a)) [
  | inl e ↦ rw e (
      ap (λ (q : CaseFactAssertion → Bool). all q rest && true) (same_context-is_about a p e)
      ∙ and-true (all (is_about (some p)) rest))
  | inr e ↦ rw e (and-false (all (same_context a) rest))
]

-- where the fact is about a delivery location
abbrev pub in_place : FactCode → List CaseFactAssertion → Option DeliveryProofFactContext → Bool
in_place FactCode.customer_still_reports_missing active proof = true
in_place FactCode.reported_delivery_location_checked active proof = all (is_about proof) active

-- a status that is not `conflict` or `unknown` stands only for the current proof
located_iff :
    (active : List CaseFactAssertion) (proof : Option DeliveryProofFactContext)
    (status k : FactStatus)
    → (k ≡ FactStatus.known_true) ⊎ (k ≡ FactStatus.known_false)
    → (located_status status active proof ≡ k)
      ↔ ((about_current active proof ≡ true) × (status ≡ k))
unfolding located_status
located_iff [] proof status k h = ((λ e. (refl, e)), (λ e. e.1))
located_iff (a ∷ rest) proof status k h = ((λ e. ground arith), (λ (c, e). ground arith))

-- the same, by every active assertion
pub located_all_iff :
    (active : List CaseFactAssertion) (proof : Option DeliveryProofFactContext)
    (status k : FactStatus)
    → (k ≡ FactStatus.known_true) ⊎ (k ≡ FactStatus.known_false)
    → (located_status status active proof ≡ k)
      ↔ ((all (is_about proof) active ≡ true) × (status ≡ k))
located_all_iff active proof status k h =
    subst (λ b. (located_status status active proof ≡ k) ↔ ((b ≡ true) × (status ≡ k)))
      (about_current-eq-all active proof) (located_iff active proof status k h)
