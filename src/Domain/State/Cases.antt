-- ===== src/Domain/State/Cases.antt =====
-- domain/state.py: the enums of triage and of the investigation case. Each has its members, the text of each,
-- and the instance by which members are compared and looked up.
use ecommerce_after_sales_ag.Common.{String, ◌≡◌, refl, some, List, [], ◌∷◌, find, str_eq}
use ecommerce_after_sales_ag.Common.Enum.{StrEnum}

pub data IssueType : Type 0 where
  signed_not_received stalled_tracking : IssueType

abbrev pub issue_type_value : IssueType → String
issue_type_value IssueType.signed_not_received = "signed_not_received"
issue_type_value IssueType.stalled_tracking = "stalled_tracking"

abbrev pub issue_type_members : List IssueType
issue_type_members = IssueType.signed_not_received ∷ IssueType.stalled_tracking ∷ []

pub issue_type_looked_up :
    (a : IssueType)
    → find (λ m. str_eq (issue_type_value m) (issue_type_value a)) issue_type_members ≡ some a
issue_type_looked_up IssueType.signed_not_received = refl
issue_type_looked_up IssueType.stalled_tracking = refl

instance abbrev pub issue_type_enum : StrEnum IssueType
issue_type_enum = record {
  members = issue_type_members;
  value = issue_type_value;
  looked_up = issue_type_looked_up;
}

pub data TriageIntent : Type 0 where
  signed_not_received stalled_tracking capability_help order_id_help tracking_status_query
        delivery_eta_info change_delivery_info refund_return_info human_support_request thanks_close
        other_logistics ambiguous out_of_scope prohibited :
      TriageIntent

abbrev pub triage_intent_value : TriageIntent → String
triage_intent_value TriageIntent.signed_not_received = "signed_not_received"
triage_intent_value TriageIntent.stalled_tracking = "stalled_tracking"
triage_intent_value TriageIntent.capability_help = "capability_help"
triage_intent_value TriageIntent.order_id_help = "order_id_help"
triage_intent_value TriageIntent.tracking_status_query = "tracking_status_query"
triage_intent_value TriageIntent.delivery_eta_info = "delivery_eta_info"
triage_intent_value TriageIntent.change_delivery_info = "change_delivery_info"
triage_intent_value TriageIntent.refund_return_info = "refund_return_info"
triage_intent_value TriageIntent.human_support_request = "human_support_request"
triage_intent_value TriageIntent.thanks_close = "thanks_close"
triage_intent_value TriageIntent.other_logistics = "other_logistics"
triage_intent_value TriageIntent.ambiguous = "ambiguous"
triage_intent_value TriageIntent.out_of_scope = "out_of_scope"
triage_intent_value TriageIntent.prohibited = "prohibited"

abbrev pub triage_intent_members : List TriageIntent
triage_intent_members =
    TriageIntent.signed_not_received ∷ TriageIntent.stalled_tracking ∷ TriageIntent.capability_help
    ∷ TriageIntent.order_id_help ∷ TriageIntent.tracking_status_query
    ∷ TriageIntent.delivery_eta_info ∷ TriageIntent.change_delivery_info
    ∷ TriageIntent.refund_return_info ∷ TriageIntent.human_support_request
    ∷ TriageIntent.thanks_close ∷ TriageIntent.other_logistics ∷ TriageIntent.ambiguous
    ∷ TriageIntent.out_of_scope ∷ TriageIntent.prohibited ∷ []

pub triage_intent_looked_up :
    (a : TriageIntent)
    → find (λ m. str_eq (triage_intent_value m) (triage_intent_value a)) triage_intent_members
      ≡ some a
triage_intent_looked_up TriageIntent.signed_not_received = refl
triage_intent_looked_up TriageIntent.stalled_tracking = refl
triage_intent_looked_up TriageIntent.capability_help = refl
triage_intent_looked_up TriageIntent.order_id_help = refl
triage_intent_looked_up TriageIntent.tracking_status_query = refl
triage_intent_looked_up TriageIntent.delivery_eta_info = refl
triage_intent_looked_up TriageIntent.change_delivery_info = refl
triage_intent_looked_up TriageIntent.refund_return_info = refl
triage_intent_looked_up TriageIntent.human_support_request = refl
triage_intent_looked_up TriageIntent.thanks_close = refl
triage_intent_looked_up TriageIntent.other_logistics = refl
triage_intent_looked_up TriageIntent.ambiguous = refl
triage_intent_looked_up TriageIntent.out_of_scope = refl
triage_intent_looked_up TriageIntent.prohibited = refl

instance abbrev pub triage_intent_enum : StrEnum TriageIntent
triage_intent_enum = record {
  members = triage_intent_members;
  value = triage_intent_value;
  looked_up = triage_intent_looked_up;
}

pub data CaseState : Type 0 where
  investigating awaiting_customer_input awaiting_customer_confirmation awaiting_retry
        executing_action closed :
      CaseState

abbrev pub case_state_value : CaseState → String
case_state_value CaseState.investigating = "investigating"
case_state_value CaseState.awaiting_customer_input = "awaiting_customer_input"
case_state_value CaseState.awaiting_customer_confirmation = "awaiting_customer_confirmation"
case_state_value CaseState.awaiting_retry = "awaiting_retry"
case_state_value CaseState.executing_action = "executing_action"
case_state_value CaseState.closed = "closed"

abbrev pub case_state_members : List CaseState
case_state_members =
    CaseState.investigating ∷ CaseState.awaiting_customer_input
    ∷ CaseState.awaiting_customer_confirmation ∷ CaseState.awaiting_retry
    ∷ CaseState.executing_action ∷ CaseState.closed ∷ []

pub case_state_looked_up :
    (a : CaseState)
    → find (λ m. str_eq (case_state_value m) (case_state_value a)) case_state_members ≡ some a
case_state_looked_up CaseState.investigating = refl
case_state_looked_up CaseState.awaiting_customer_input = refl
case_state_looked_up CaseState.awaiting_customer_confirmation = refl
case_state_looked_up CaseState.awaiting_retry = refl
case_state_looked_up CaseState.executing_action = refl
case_state_looked_up CaseState.closed = refl

instance abbrev pub case_state_enum : StrEnum CaseState
case_state_enum = record {
  members = case_state_members;
  value = case_state_value;
  looked_up = case_state_looked_up;
}

pub data CaseOutcome : Type 0 where
  resolved_no_action ticket_created human_support_required uncertain failed : CaseOutcome

abbrev pub case_outcome_value : CaseOutcome → String
case_outcome_value CaseOutcome.resolved_no_action = "resolved_no_action"
case_outcome_value CaseOutcome.ticket_created = "ticket_created"
case_outcome_value CaseOutcome.human_support_required = "human_support_required"
case_outcome_value CaseOutcome.uncertain = "uncertain"
case_outcome_value CaseOutcome.failed = "failed"

abbrev pub case_outcome_members : List CaseOutcome
case_outcome_members =
    CaseOutcome.resolved_no_action ∷ CaseOutcome.ticket_created ∷ CaseOutcome.human_support_required
    ∷ CaseOutcome.uncertain ∷ CaseOutcome.failed ∷ []

pub case_outcome_looked_up :
    (a : CaseOutcome)
    → find (λ m. str_eq (case_outcome_value m) (case_outcome_value a)) case_outcome_members ≡ some a
case_outcome_looked_up CaseOutcome.resolved_no_action = refl
case_outcome_looked_up CaseOutcome.ticket_created = refl
case_outcome_looked_up CaseOutcome.human_support_required = refl
case_outcome_looked_up CaseOutcome.uncertain = refl
case_outcome_looked_up CaseOutcome.failed = refl

instance abbrev pub case_outcome_enum : StrEnum CaseOutcome
case_outcome_enum = record {
  members = case_outcome_members;
  value = case_outcome_value;
  looked_up = case_outcome_looked_up;
}
