-- ===== src/Domain/State/Lifecycle.antt =====
-- domain/state.py: the enums of runs, proposals, actions and outcomes. Each has its members, the text of each,
-- and the instance by which members are compared and looked up.
use ecommerce_after_sales_ag.Common.{String, ◌≡◌, refl, some, List, [], ◌∷◌, find, str_eq}
use ecommerce_after_sales_ag.Common.Enum.{StrEnum}

pub data RunState : Type 0 where
  queued running succeeded failed : RunState

abbrev pub run_state_value : RunState → String
run_state_value RunState.queued = "queued"
run_state_value RunState.running = "running"
run_state_value RunState.succeeded = "succeeded"
run_state_value RunState.failed = "failed"

abbrev pub run_state_members : List RunState
run_state_members = RunState.queued ∷ RunState.running ∷ RunState.succeeded ∷ RunState.failed ∷ []

pub run_state_looked_up :
    (a : RunState)
    → find (λ m. str_eq (run_state_value m) (run_state_value a)) run_state_members ≡ some a
run_state_looked_up RunState.queued = refl
run_state_looked_up RunState.running = refl
run_state_looked_up RunState.succeeded = refl
run_state_looked_up RunState.failed = refl

instance abbrev pub run_state_enum : StrEnum RunState
run_state_enum = record {
  members = run_state_members;
  value = run_state_value;
  looked_up = run_state_looked_up;
}

pub data ProposalState : Type 0 where
  pending_confirmation confirmed declined superseded expired invalidated : ProposalState

abbrev pub proposal_state_value : ProposalState → String
proposal_state_value ProposalState.pending_confirmation = "pending_confirmation"
proposal_state_value ProposalState.confirmed = "confirmed"
proposal_state_value ProposalState.declined = "declined"
proposal_state_value ProposalState.superseded = "superseded"
proposal_state_value ProposalState.expired = "expired"
proposal_state_value ProposalState.invalidated = "invalidated"

abbrev pub proposal_state_members : List ProposalState
proposal_state_members =
    ProposalState.pending_confirmation ∷ ProposalState.confirmed ∷ ProposalState.declined
    ∷ ProposalState.superseded ∷ ProposalState.expired ∷ ProposalState.invalidated ∷ []

pub proposal_state_looked_up :
    (a : ProposalState)
    → find (λ m. str_eq (proposal_state_value m) (proposal_state_value a)) proposal_state_members
      ≡ some a
proposal_state_looked_up ProposalState.pending_confirmation = refl
proposal_state_looked_up ProposalState.confirmed = refl
proposal_state_looked_up ProposalState.declined = refl
proposal_state_looked_up ProposalState.superseded = refl
proposal_state_looked_up ProposalState.expired = refl
proposal_state_looked_up ProposalState.invalidated = refl

instance abbrev pub proposal_state_enum : StrEnum ProposalState
proposal_state_enum = record {
  members = proposal_state_members;
  value = proposal_state_value;
  looked_up = proposal_state_looked_up;
}

pub data ActionState : Type 0 where
  ready submitted succeeded failed_retryable failed_terminal uncertain : ActionState

abbrev pub action_state_value : ActionState → String
action_state_value ActionState.ready = "ready"
action_state_value ActionState.submitted = "submitted"
action_state_value ActionState.succeeded = "succeeded"
action_state_value ActionState.failed_retryable = "failed_retryable"
action_state_value ActionState.failed_terminal = "failed_terminal"
action_state_value ActionState.uncertain = "uncertain"

abbrev pub action_state_members : List ActionState
action_state_members =
    ActionState.ready ∷ ActionState.submitted ∷ ActionState.succeeded ∷ ActionState.failed_retryable
    ∷ ActionState.failed_terminal ∷ ActionState.uncertain ∷ []

pub action_state_looked_up :
    (a : ActionState)
    → find (λ m. str_eq (action_state_value m) (action_state_value a)) action_state_members ≡ some a
action_state_looked_up ActionState.ready = refl
action_state_looked_up ActionState.submitted = refl
action_state_looked_up ActionState.succeeded = refl
action_state_looked_up ActionState.failed_retryable = refl
action_state_looked_up ActionState.failed_terminal = refl
action_state_looked_up ActionState.uncertain = refl

instance abbrev pub action_state_enum : StrEnum ActionState
action_state_enum = record {
  members = action_state_members;
  value = action_state_value;
  looked_up = action_state_looked_up;
}

pub data ActionType : Type 0 where
  create_logistics_investigation_ticket : ActionType

abbrev pub action_type_value : ActionType → String
action_type_value ActionType.create_logistics_investigation_ticket =
    "create_logistics_investigation_ticket"

abbrev pub action_type_members : List ActionType
action_type_members = ActionType.create_logistics_investigation_ticket ∷ []

pub action_type_looked_up :
    (a : ActionType)
    → find (λ m. str_eq (action_type_value m) (action_type_value a)) action_type_members ≡ some a
action_type_looked_up ActionType.create_logistics_investigation_ticket = refl

instance abbrev pub action_type_enum : StrEnum ActionType
action_type_enum = record {
  members = action_type_members;
  value = action_type_value;
  looked_up = action_type_looked_up;
}

pub data CustomerDisposition : Type 0 where
  answer wait clarify investigate escalate : CustomerDisposition

abbrev pub customer_disposition_value : CustomerDisposition → String
customer_disposition_value CustomerDisposition.answer = "ANSWER"
customer_disposition_value CustomerDisposition.wait = "WAIT"
customer_disposition_value CustomerDisposition.clarify = "CLARIFY"
customer_disposition_value CustomerDisposition.investigate = "INVESTIGATE"
customer_disposition_value CustomerDisposition.escalate = "ESCALATE"

abbrev pub customer_disposition_members : List CustomerDisposition
customer_disposition_members =
    CustomerDisposition.answer ∷ CustomerDisposition.wait ∷ CustomerDisposition.clarify
    ∷ CustomerDisposition.investigate ∷ CustomerDisposition.escalate ∷ []

pub customer_disposition_looked_up :
    (a : CustomerDisposition)
    → find
        (λ m. str_eq (customer_disposition_value m) (customer_disposition_value a))
        customer_disposition_members
      ≡ some a
customer_disposition_looked_up CustomerDisposition.answer = refl
customer_disposition_looked_up CustomerDisposition.wait = refl
customer_disposition_looked_up CustomerDisposition.clarify = refl
customer_disposition_looked_up CustomerDisposition.investigate = refl
customer_disposition_looked_up CustomerDisposition.escalate = refl

instance abbrev pub customer_disposition_enum : StrEnum CustomerDisposition
customer_disposition_enum = record {
  members = customer_disposition_members;
  value = customer_disposition_value;
  looked_up = customer_disposition_looked_up;
}

pub data EvidenceGateDecision : Type 0 where
  propose_ticket request_business_clarification retry_later require_human_support
        complete_no_action :
      EvidenceGateDecision

abbrev pub evidence_gate_decision_value : EvidenceGateDecision → String
evidence_gate_decision_value EvidenceGateDecision.propose_ticket = "propose_ticket"
evidence_gate_decision_value EvidenceGateDecision.request_business_clarification =
    "request_business_clarification"
evidence_gate_decision_value EvidenceGateDecision.retry_later = "retry_later"
evidence_gate_decision_value EvidenceGateDecision.require_human_support = "require_human_support"
evidence_gate_decision_value EvidenceGateDecision.complete_no_action = "complete_no_action"

abbrev pub evidence_gate_decision_members : List EvidenceGateDecision
evidence_gate_decision_members =
    EvidenceGateDecision.propose_ticket ∷ EvidenceGateDecision.request_business_clarification
    ∷ EvidenceGateDecision.retry_later ∷ EvidenceGateDecision.require_human_support
    ∷ EvidenceGateDecision.complete_no_action ∷ []

pub evidence_gate_decision_looked_up :
    (a : EvidenceGateDecision)
    → find
        (λ m. str_eq (evidence_gate_decision_value m) (evidence_gate_decision_value a))
        evidence_gate_decision_members
      ≡ some a
evidence_gate_decision_looked_up EvidenceGateDecision.propose_ticket = refl
evidence_gate_decision_looked_up EvidenceGateDecision.request_business_clarification = refl
evidence_gate_decision_looked_up EvidenceGateDecision.retry_later = refl
evidence_gate_decision_looked_up EvidenceGateDecision.require_human_support = refl
evidence_gate_decision_looked_up EvidenceGateDecision.complete_no_action = refl

instance abbrev pub evidence_gate_decision_enum : StrEnum EvidenceGateDecision
evidence_gate_decision_enum = record {
  members = evidence_gate_decision_members;
  value = evidence_gate_decision_value;
  looked_up = evidence_gate_decision_looked_up;
}
