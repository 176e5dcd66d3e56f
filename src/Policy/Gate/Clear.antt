-- ===== src/Policy/Gate/Clear.antt =====
-- policy/evidence_gate.py: when each shared guard lets a case pass, and that none proposes a ticket.
use ecommerce_after_sales_ag.Common.{
  String, Bool, true, false, Option, none, some, [], ◌∷◌, ◌≡◌, refl, ◌≢◌, ◌↔◌, arith, select, All,
  Bool-cases, not-eq-false, or-eq-false, true-ne-false, sym, ◌∙◌, inl, inr, if◌then◌else◌, subst,
}
use ecommerce_after_sales_ag.Common.Enum.{◌is◌, is_iff}
use ecommerce_after_sales_ag.Domain.State.{
  ExecutionStatus, EvidenceAvailability, execution_status_enum, evidence_availability_enum,
  evidence_gate_decision_enum, issue_type_enum, retrieval_status_enum,
  policy_resolution_status_enum,
}
use ecommerce_after_sales_ag.Tools.Contracts.{Envelope}
use ecommerce_after_sales_ag.Policy.Gate.Facts.{
  EvidenceGateResult, CommonGateFacts, Named, gate_result, proposal_allowed, or_else,
}
use ecommerce_after_sales_ag.Policy.Gate.Signed.{retry_or_support}
use ecommerce_after_sales_ag.Policy.Gate.Guards.{
  common_guard, is_unavailable, unavailable_answer, unavailable_result,
}

-- The result of a guard proposes no ticket.
abbrev pub Blocks : Option EvidenceGateResult → Type 0
Blocks none = Unit
Blocks (some r) = proposal_allowed r ≡ false

-- After a guard that proposes nothing, a proposal comes from the rest, and the guard was silent.
pub or_else-proposes :
    (g : Option EvidenceGateResult) (rest : EvidenceGateResult)
    → Blocks g
    → (proposal_allowed (or_else g rest) ≡ true) ↔ ((g ≡ none) × (proposal_allowed rest ≡ true))
or_else-proposes none rest b = ((λ h. (refl, h)), (λ h. h.1))
or_else-proposes (some r) rest b = ((λ h. cc), (λ h. cc))

pub record CommonClear (f : CommonGateFacts) : Type 0 where
  pub authorized : f.authorization_valid ≡ true
  pub in_budget : f.budget_exceeded ≡ false
  pub scope_matches : f.evidence_scope_matches_case ≡ true
  pub supported : f.requested_action_supported ≡ true
  pub consistent : f.structural_conflict ≡ false

pub common_guard-Blocks : (f : CommonGateFacts) → Blocks (common_guard f)
unfolding common_guard gate_result proposal_allowed
common_guard-Blocks f = ground arith

pub common_guard_iff : (f : CommonGateFacts) → (common_guard f ≡ none) ↔ CommonClear f
unfolding common_guard
common_guard_iff f = ((λ h. ground arith), (λ h. ground arith))

-- A read that succeeded and whose evidence is present or known to be absent.
pub record Available (e : Envelope) : Type 0 where
  pub succeeded : e.execution_status ≡ ExecutionStatus.success
  pub known : e.evidence_availability ≢ EvidenceAvailability.unavailable

Available-iff : (e : Envelope) → (is_unavailable e ≡ false) ↔ Available e
unfolding is_unavailable
Available-iff e = (
  (λ h. record {
    succeeded =
        (is_iff e.execution_status ExecutionStatus.success).0
          (not-eq-false _ (or-eq-false _ _ h).1);
    known = λ k. true-ne-false (
        sym ((is_iff e.evidence_availability EvidenceAvailability.unavailable).1 k)
        ∙ (or-eq-false _ _ h).0);
  }),
  (λ a.
      let done = (is_iff e.execution_status ExecutionStatus.success).1 a.succeeded in
      elim (Bool-cases (e.evidence_availability is EvidenceAvailability.unavailable)) [
        | inl lost ↦
            absurd
              (a.known ((is_iff e.evidence_availability EvidenceAvailability.unavailable).0 lost))
        | inr kept ↦ rw (kept, done)
      ]),
)

unavailable_answer-Blocks : (d : Named) (exhausted : Bool) → Blocks (unavailable_answer d exhausted)
unfolding unavailable_answer gate_result proposal_allowed
unavailable_answer-Blocks [] exhausted = tt
unavailable_answer-Blocks (e ∷ es) exhausted = ground arith

pub unavailable_result-Blocks :
    (d : Named) (exhausted : Bool) → Blocks (unavailable_result d exhausted)
unfolding unavailable_result
unavailable_result-Blocks d exhausted = unavailable_answer-Blocks _ exhausted

unavailable_answer-eq-none :
    (d : Named) (exhausted : Bool) → unavailable_answer d exhausted ≡ none → d ≡ []
unfolding unavailable_answer
unavailable_answer-eq-none [] exhausted h = refl
unavailable_answer-eq-none (e ∷ es) exhausted h = ground arith

select-eq-nil : (d : Named) → (select (λ e. is_unavailable e.1) d ≡ []) ↔ All (λ e. Available e.1) d
select-eq-nil [] = ((λ h. tt), (λ h. refl))
select-eq-nil (e ∷ es) = elim (Bool-cases (is_unavailable e.1)) [
  | inl lost ↦ ((λ h. ground (arith, lost)), (λ h. ground (arith, lost, (Available-iff e.1).1 h.0)))
  | inr kept ↦ (
    (λ h. ((Available-iff e.1).0 kept, (select-eq-nil es).0 (ground (arith, kept)))),
    (λ h. rw kept ((select-eq-nil es).1 h.1)),
  )
]

-- The guard is silent exactly if every read it is given succeeded with known evidence.
pub unavailable_result_iff :
    (d : Named) (exhausted : Bool)
    → (unavailable_result d exhausted ≡ none) ↔ All (λ e. Available e.1) d
unfolding unavailable_result unavailable_answer
unavailable_result_iff d exhausted = (
  (λ h. (select-eq-nil d).0 (unavailable_answer-eq-none _ exhausted h)),
  (λ h. rw ((select-eq-nil d).1 h)),
)

-- After an early return that proposes nothing, a proposal comes from the rest of the body.
pub if-proposes :
    (b : Bool) (r rest : EvidenceGateResult)
    → proposal_allowed r ≡ false
    → (proposal_allowed (if b then r else rest) ≡ true)
      ↔ ((b ≡ false) × (proposal_allowed rest ≡ true))
if-proposes true r rest k =
    ((λ h. absurd (true-ne-false (sym h ∙ k))), (λ h. absurd (true-ne-false h.0)))
if-proposes false r rest k = ((λ h. (refl, h)), (λ h. h.1))

pub retry_or_support-proposes :
    (b : Bool) (reason : String) (d : Named)
    → proposal_allowed (retry_or_support b reason d) ≡ false
unfolding gate_result proposal_allowed
retry_or_support-proposes true reason d = refl
retry_or_support-proposes false reason d = refl

-- A stage may be read at an equal argument.
pub proposes_at {ℓ} :
    {A : Type ℓ} {x y : A} (stage : A → EvidenceGateResult)
    → x ≡ y
    → proposal_allowed (stage x) ≡ true
    → proposal_allowed (stage y) ≡ true
proposes_at stage e = subst (λ z. proposal_allowed (stage z) ≡ true) e
