-- ===== src/Domain/Tests/Cases.antt =====
-- A case and a run from their start to their end.
use ecommerce_after_sales_ag.Common.{true, none, some, [], ◌∷◌, ◌≡◌, refl, ◌↔◌, any}
use ecommerce_after_sales_ag.Common.Result.{ok}
use ecommerce_after_sales_ag.Domain.State.{
  IssueType, CaseState, CaseOutcome, RunState, case_state_enum, run_state_enum,
}
use ecommerce_after_sales_ag.Domain.Models.{
  InvestigationCase, case_fields_valid, validate_case, keep_state_and_outcome_consistent, Run,
  run_fields_valid,
}
use ecommerce_after_sales_ag.Domain.Transitions.{
  transition_case, transition_run, assert_allowed, case_transitions, check_closure,
  validated_update,
}
use ecommerce_after_sales_ag.Domain.Transitions.Cases.{
  CaseEdge, conclude, ClosureFits, moved, IsValidCase, transition_case_sound,
  transition_case_complete,
}
use ecommerce_after_sales_ag.Domain.Transitions.CaseHistory.{
  CaseMove, run_moves, asks_confirmation, execution_needs_confirmation,
}
use ecommerce_after_sales_ag.Domain.Transitions.Runs.{
  RunEdge, FailureFits, advanced, IsValidRun, transition_run_exact,
}

abbrev open_case : InvestigationCase
open_case = record {
  case_id = "case-1";
  conversation_id = "conversation-1";
  customer_id = "customer-1";
  authorized_order_id = "order-1";
  canonical_issue_type = IssueType.stalled_tracking;
  case_state = CaseState.investigating;
  case_outcome = none;
  reason_code = none;
  related_case_id = none;
  business_clarifications = 0;
  planning_turns = 3;
  read_tool_executions = 4;
  issue_type_revision_history = [];
  target_shipment_id = none;
}

abbrev closed_case : InvestigationCase
closed_case =
    moved open_case CaseState.closed (some CaseOutcome.resolved_no_action)
      (some "WITHIN_TRACKING_SLA")

open_case-IsValidCase : IsValidCase open_case
unfolding case_fields_valid
open_case-IsValidCase = record { fields = refl; closure = (refl, refl) }

transition_case_sound_example :
    CaseEdge CaseState.investigating CaseState.closed
    × ClosureFits CaseState.closed
        (some CaseOutcome.resolved_no_action)
        (some "WITHIN_TRACKING_SLA")
    × IsValidCase closed_case
    × (closed_case
        ≡ moved open_case CaseState.closed
            (some CaseOutcome.resolved_no_action)
            (some "WITHIN_TRACKING_SLA"))
unfolding transition_case assert_allowed case_transitions check_closure validated_update
    validate_case case_fields_valid keep_state_and_outcome_consistent
transition_case_sound_example =
    transition_case_sound open_case CaseState.closed (some CaseOutcome.resolved_no_action)
      (some "WITHIN_TRACKING_SLA") closed_case refl

transition_case_complete_example :
    transition_case open_case CaseState.closed
      (some CaseOutcome.resolved_no_action)
      (some "WITHIN_TRACKING_SLA")
    ≡ ok closed_case
transition_case_complete_example =
    transition_case_complete open_case CaseState.closed (some CaseOutcome.resolved_no_action)
      (some "WITHIN_TRACKING_SLA") open_case-IsValidCase conclude (refl, refl)

abbrev ask_to_confirm : CaseMove
ask_to_confirm = record {
  target = CaseState.awaiting_customer_confirmation;
  outcome = none;
  reason = none;
}

abbrev execute : CaseMove
execute = record { target = CaseState.executing_action; outcome = none; reason = none }

abbrev executing_case : InvestigationCase
executing_case = moved open_case CaseState.executing_action none none

execution_needs_confirmation_example : any asks_confirmation (ask_to_confirm ∷ execute ∷ []) ≡ true
unfolding run_moves transition_case assert_allowed case_transitions check_closure validated_update
    validate_case case_fields_valid keep_state_and_outcome_consistent
execution_needs_confirmation_example =
    execution_needs_confirmation open_case (ask_to_confirm ∷ execute ∷ []) executing_case refl refl
      refl

abbrev queued_run : Run
queued_run = record {
  run_id = "run-1";
  case_id = "case-1";
  run_state = RunState.queued;
  planning_turns = 0;
  failure_class = none;
}

queued_run-IsValidRun : IsValidRun queued_run
unfolding run_fields_valid
queued_run-IsValidRun = record { fields = refl; failure = refl }

transition_run_exact_example :
    (transition_run queued_run RunState.running none
      ≡ ok (advanced queued_run RunState.running none))
    ↔ (RunEdge RunState.queued RunState.running
        × FailureFits RunState.running none
        × IsValidRun (advanced queued_run RunState.running none)
        × (advanced queued_run RunState.running none ≡ advanced queued_run RunState.running none))
transition_run_exact_example =
    transition_run_exact queued_run RunState.running none
      (advanced queued_run RunState.running none) queued_run-IsValidRun
