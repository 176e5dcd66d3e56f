-- ===== src/Domain/Dispositions.antt =====
-- domain/dispositions.py: the projection of the persisted states to the five customer outcomes.
pub mod Laws
use ecommerce_after_sales_ag.Common.{
  String, Bool, ◌||◌, Option, none, some, List, [], ◌∷◌, opt_eq, str_eq, any, contains,
  contains_text, if◌then◌else◌,
}
use ecommerce_after_sales_ag.Common.Enum.{StrEnum, value_of}
use ecommerce_after_sales_ag.Domain.State.{
  CaseState, CaseOutcome, ProposalState, ActionState, EvidenceGateDecision, CustomerDisposition,
  case_state_enum, case_outcome_enum, proposal_state_enum, action_state_enum,
  evidence_gate_decision_enum,
}

-- An argument of type `Enum | str`.
pub data EnumOrText (A : Type 0) : Type 0 where
  member : A → EnumOrText A
  text : String → EnumOrText A

-- _value
module _ {A : Type 0} ⦃e : StrEnum A⦄ where
  abbrev pub to_text : Option (EnumOrText A) → Option String
  to_text none = none
  to_text (some (member a)) = some (value_of a)
  to_text (some (text s)) = some s

-- `x in {…}` for an optional text
abbrev pub one_of : Option String → List String → Bool
one_of x options = any (λ o. opt_eq x (some o)) options

pub record Facts : Type 0 where
  pub gate_decision : Option (EnumOrText EvidenceGateDecision)
  pub case_state : Option (EnumOrText CaseState)
  pub case_outcome : Option (EnumOrText CaseOutcome)
  pub proposal_state : Option (EnumOrText ProposalState)
  pub action_state : Option (EnumOrText ActionState)
  pub reason_code : Option String

-- The local variables of the function.
pub record Texts : Type 0 where
  pub decision : Option String
  pub state : Option String
  pub outcome : Option String
  pub proposal : Option String
  pub action : Option String
  pub reason : String

-- `reason_code or ""`
abbrev pub or_empty : Option String → String
or_empty none = ""
or_empty (some s) = s

abbrev pub texts_of : Facts → Texts
texts_of f = record {
  decision = to_text f.gate_decision;
  state = to_text f.case_state;
  outcome = to_text f.case_outcome;
  proposal = to_text f.proposal_state;
  action = to_text f.action_state;
  reason = or_empty f.reason_code;
}

-- the four `if` conditions, in the order of the source
unfoldable pub must_escalate : Texts → Bool
must_escalate t =
    opt_eq t.action (some (value_of ActionState.uncertain))
    || opt_eq t.outcome (some (value_of CaseOutcome.uncertain))
    || opt_eq t.outcome (some (value_of CaseOutcome.human_support_required))
    || opt_eq t.outcome (some (value_of CaseOutcome.failed))
    || opt_eq t.decision (some (value_of EvidenceGateDecision.require_human_support))
    || contains_text "CONFLICT" t.reason
    || contains_text "INTEGRITY" t.reason
    || contains_text "HUMAN" t.reason
    || contains_text "EXHAUSTED" t.reason

unfoldable pub under_investigation : Texts → Bool
under_investigation t =
    one_of t.action (
      value_of ActionState.ready
      ∷ value_of ActionState.submitted
      ∷ value_of ActionState.succeeded
      ∷ [])
    || opt_eq t.outcome (some (value_of CaseOutcome.ticket_created))
    || one_of t.proposal
        (value_of ProposalState.pending_confirmation ∷ value_of ProposalState.confirmed ∷ [])
    || opt_eq t.state (some (value_of CaseState.awaiting_customer_confirmation))
    || opt_eq t.decision (some (value_of EvidenceGateDecision.propose_ticket))

abbrev pub clarify_reasons : List String
clarify_reasons =
    "ORDER_ID_REQUIRED" ∷ "MULTIPLE_AUTHORIZED_ORDERS_REQUIRE_SELECTION"
    ∷ "ISSUE_REQUIRES_CLARIFICATION" ∷ "UNSUPPORTED_LOGISTICS_REQUIRES_CLARIFICATION" ∷ []

unfoldable pub needs_clarification : Texts → Bool
needs_clarification t =
    opt_eq t.decision (some (value_of EvidenceGateDecision.request_business_clarification))
    || opt_eq t.state (some (value_of CaseState.awaiting_customer_input))
    || contains_text "CLARIFICATION" t.reason
    || contains_text "QUESTION" t.reason
    || contains t.reason clarify_reasons

abbrev pub wait_reasons : List String
wait_reasons =
    "ACTIVE_LOGISTICS_TICKET_EXISTS" ∷ "ACTIVE_LOGISTICS_INVESTIGATION_EXISTS"
    ∷ "ACTIVE_CARRIER_RECOVERY_WINDOW" ∷ "WITHIN_TRACKING_SLA" ∷ "CRITICAL_EVIDENCE_UNAVAILABLE"
    ∷ "DELIVERED_WITHOUT_TIMELINE_EVIDENCE" ∷ "STRUCTURAL_CONFLICT_REQUIRES_REFRESH" ∷ []

unfoldable pub should_wait : Texts → Bool
should_wait t =
    opt_eq t.decision (some (value_of EvidenceGateDecision.retry_later))
    || opt_eq t.state (some (value_of CaseState.awaiting_retry))
    || contains t.reason wait_reasons

unfoldable pub project_customer_disposition : Facts → CustomerDisposition
project_customer_disposition f =
    let t = texts_of f in
    if must_escalate t
    then CustomerDisposition.escalate
    else if under_investigation t
    then CustomerDisposition.investigate
    else if needs_clarification t
    then CustomerDisposition.clarify
    else if should_wait t
    then CustomerDisposition.wait
    else CustomerDisposition.answer
