-- ===== src/Domain/Dispositions/Laws.antt =====
-- domain/dispositions.py: what each customer outcome promises.
use ecommerce_after_sales_ag.Common.{
  true, Option, none, some, ◌≡◌, refl, ◌↔◌, inl, inr, arith, ap, contains_text, opt_eq_iff,
  or_cases,
}
use ecommerce_after_sales_ag.Common.Enum.{StrEnum, value_of}
use ecommerce_after_sales_ag.Domain.State.{
  CustomerDisposition, case_state_enum, case_outcome_enum, proposal_state_enum, action_state_enum,
  evidence_gate_decision_enum,
}
use ecommerce_after_sales_ag.Domain.Dispositions.{
  EnumOrText, member, text, to_text, Facts, Texts, texts_of, or_empty, must_escalate,
  project_customer_disposition,
}

-- A member of an enum replaced by its text, as it is read back from a row.
module _ {A : Type 0} ⦃e : StrEnum A⦄ where
  abbrev pub stored : Option (EnumOrText A) → Option (EnumOrText A)
  stored none = none
  stored (some (member a)) = some (text (value_of a))
  stored (some (text s)) = some (text s)

  to_text-stored : (x : Option (EnumOrText A)) → to_text (stored x) ≡ to_text x
  to_text-stored none = refl
  to_text-stored (some (member a)) = refl
  to_text-stored (some (text s)) = refl

abbrev pub stored_facts : Facts → Facts
stored_facts f = record {
  gate_decision = stored f.gate_decision;
  case_state = stored f.case_state;
  case_outcome = stored f.case_outcome;
  proposal_state = stored f.proposal_state;
  action_state = stored f.action_state;
  reason_code = f.reason_code;
}

texts_of-stored : (f : Facts) → texts_of (stored_facts f) ≡ texts_of f
texts_of-stored f = λ i. record {
  decision = to_text-stored f.gate_decision i;
  state = to_text-stored f.case_state i;
  outcome = to_text-stored f.case_outcome i;
  proposal = to_text-stored f.proposal_state i;
  action = to_text-stored f.action_state i;
  reason = (texts_of f).reason;
}

-- The outcome is the same whether the states come as enum members or as the texts stored for them.
pub project-stored :
    (f : Facts) → project_customer_disposition (stored_facts f) ≡ project_customer_disposition f
unfolding project_customer_disposition
project-stored f = rw (texts_of-stored f)

-- The signs of a doubtful or failed result.
pub data Doubt (t : Texts) : Type 0 where
  uncertain_action : t.action ≡ some "uncertain" → Doubt t
  uncertain_outcome : t.outcome ≡ some "uncertain" → Doubt t
  support_outcome : t.outcome ≡ some "human_support_required" → Doubt t
  failed_outcome : t.outcome ≡ some "failed" → Doubt t
  support_decision : t.decision ≡ some "require_human_support" → Doubt t
  conflict_reason : contains_text "CONFLICT" t.reason ≡ true → Doubt t
  integrity_reason : contains_text "INTEGRITY" t.reason ≡ true → Doubt t
  human_reason : contains_text "HUMAN" t.reason ≡ true → Doubt t
  exhausted_reason : contains_text "EXHAUSTED" t.reason ≡ true → Doubt t

Doubt-of_must_escalate : (t : Texts) → must_escalate t ≡ true → Doubt t
unfolding must_escalate
Doubt-of_must_escalate t h = elim (or_cases _ _ h) [
  | inl r8 ↦ elim (or_cases _ _ r8) [
    | inl r7 ↦ elim (or_cases _ _ r7) [
      | inl r6 ↦ elim (or_cases _ _ r6) [
        | inl r5 ↦ elim (or_cases _ _ r5) [
          | inl r4 ↦ elim (or_cases _ _ r4) [
            | inl r3 ↦ elim (or_cases _ _ r3) [
              | inl r2 ↦ elim (or_cases _ _ r2) [
                | inl r1 ↦ uncertain_action ((opt_eq_iff t.action "uncertain").0 r1)
                | inr e ↦ uncertain_outcome ((opt_eq_iff t.outcome "uncertain").0 e)
              ]
              | inr e ↦ support_outcome ((opt_eq_iff t.outcome "human_support_required").0 e)
            ]
            | inr e ↦ failed_outcome ((opt_eq_iff t.outcome "failed").0 e)
          ]
          | inr e ↦ support_decision ((opt_eq_iff t.decision "require_human_support").0 e)
        ]
        | inr e ↦ conflict_reason e
      ]
      | inr e ↦ integrity_reason e
    ]
    | inr e ↦ human_reason e
  ]
  | inr e ↦ exhausted_reason e
]

must_escalate_of_Doubt : {t : Texts} → Doubt t → must_escalate t ≡ true
unfolding must_escalate
must_escalate_of_Doubt {t} (uncertain_action e) =
    ground (arith, (opt_eq_iff t.action "uncertain").1 e)
must_escalate_of_Doubt {t} (uncertain_outcome e) =
    ground (arith, (opt_eq_iff t.outcome "uncertain").1 e)
must_escalate_of_Doubt {t} (support_outcome e) =
    ground (arith, (opt_eq_iff t.outcome "human_support_required").1 e)
must_escalate_of_Doubt {t} (failed_outcome e) = ground (arith, (opt_eq_iff t.outcome "failed").1 e)
must_escalate_of_Doubt {t} (support_decision e) =
    ground (arith, (opt_eq_iff t.decision "require_human_support").1 e)
must_escalate_of_Doubt {t} (conflict_reason e) = ground arith
must_escalate_of_Doubt {t} (integrity_reason e) = ground arith
must_escalate_of_Doubt {t} (human_reason e) = ground arith
must_escalate_of_Doubt {t} (exhausted_reason e) = ground arith

must_escalate_of_escalate :
    (f : Facts)
    → project_customer_disposition f ≡ CustomerDisposition.escalate
    → must_escalate (texts_of f) ≡ true
unfolding project_customer_disposition
must_escalate_of_escalate f h = ground arith

-- A doubtful or failed result is never softened, and nothing else is escalated: whatever the other
-- states say, the outcome is escalation exactly if there is an uncertain action, an uncertain,
-- failed or human-support outcome, a gate decision for human support, or a reason that names a
-- conflict, an integrity fault, human support or exhaustion.
pub escalate_iff :
    (f : Facts)
    → (project_customer_disposition f ≡ CustomerDisposition.escalate) ↔ Doubt (texts_of f)
unfolding project_customer_disposition
escalate_iff f = (
  (λ h. Doubt-of_must_escalate (texts_of f) (must_escalate_of_escalate f h)),
  (λ d. rw (must_escalate_of_Doubt d)),
)

-- The reason for a structural conflict that awaits a refresh is escalated with every combination of
-- states: its entry in the list of waiting reasons is never reached.
pub refresh_escalates :
    (f : Facts)
    → f.reason_code ≡ some "STRUCTURAL_CONFLICT_REQUIRES_REFRESH"
    → project_customer_disposition f ≡ CustomerDisposition.escalate
refresh_escalates f e =
    (escalate_iff f).1 (conflict_reason (rw (ap or_empty e) (unfold contains_text in refl)))
