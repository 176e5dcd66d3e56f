-- ===== src/Domain/Tests/Actions.antt =====
-- A proposal from its creation to its confirmation, and an action that succeeds on its second
-- submission.
use ecommerce_after_sales_ag.Common.{
  ◌+◌, ◌≤◌, String, true, Option, none, some, List, [], ◌∷◌, ◌≡◌, ◌⊎◌, refl, ◌≢◌, ◌↔◌,
}
use ecommerce_after_sales_ag.Common.Json.{Fields}
use ecommerce_after_sales_ag.Common.Text.{is_digest, at_most, sample_digest}
use ecommerce_after_sales_ag.Common.Time.{Timestamp, aware, is_aware, minutes}
use ecommerce_after_sales_ag.Common.Result.{ok}
use ecommerce_after_sales_ag.Domain.State.{
  ActionType, ActionState, ProposalState, action_state_enum, proposal_state_enum,
}
use ecommerce_after_sales_ag.Domain.Models.{
  ActionProposal, proposal_fields_valid, ActionExecution, action_fields_valid, validate_action,
  validate_action_timestamps,
}
use ecommerce_after_sales_ag.Domain.Transitions.{
  transition_proposal, transition_action, assert_allowed, action_transitions, validated_update,
}
use ecommerce_after_sales_ag.Domain.Transitions.Proposals.{
  IsValidProposal, transition_proposal_exact,
}
use ecommerce_after_sales_ag.Domain.Transitions.Actions.{
  ActionEdge, submit, ErrorFits, IsValidAction, acted, transition_action_sound,
  transition_action_complete,
}
use ecommerce_after_sales_ag.Domain.Transitions.ActionHistory.{
  ActionMove, run_action, visits, submission_time_kept, submissions_bounded,
}
use ecommerce_after_sales_ag.Tools.EvidenceRef.{EvidenceRef, ref_valid}

abbrev now : Timestamp
now = aware 1000

abbrev soon : Timestamp
soon = aware 2000

abbrev ref_of_order : EvidenceRef
ref_of_order = record {
  tool_call_id = "call-1";
  source_query_id = "query-1";
  source_record_id = some "order-1";
  field_path = none;
  observed_at = now;
  result_hash = sample_digest;
}

abbrev pending_proposal : ActionProposal
pending_proposal = record {
  proposal_id = "proposal-1";
  case_id = "case-1";
  version = 1;
  proposal_state = ProposalState.pending_confirmation;
  action_type = ActionType.create_logistics_investigation_ticket;
  execution_parameters = Fields.end;
  customer_visible_effect = "A carrier ticket is opened.";
  evidence_refs = ref_of_order ∷ [];
  evidence_snapshot_hash = sample_digest;
  case_fact_identity = Fields.end;
  created_at = now;
  expires_at = aware (1000 + minutes 15);
}

abbrev confirmed_proposal : ActionProposal
confirmed_proposal = record pending_proposal { proposal_state = ProposalState.confirmed }

pending_proposal-IsValidProposal : IsValidProposal pending_proposal
unfolding proposal_fields_valid is_digest at_most ref_valid
pending_proposal-IsValidProposal = record {
  fields = refl;
  created = refl;
  expires = refl;
  lifetime = refl;
}

transition_proposal_exact_example :
    (transition_proposal pending_proposal ProposalState.confirmed ≡ ok confirmed_proposal) ↔ (
      (ProposalState.pending_confirmation ≡ ProposalState.pending_confirmation)
      × (ProposalState.confirmed ≢ ProposalState.pending_confirmation)
      × (confirmed_proposal ≡ record pending_proposal { proposal_state = ProposalState.confirmed }))
transition_proposal_exact_example =
    transition_proposal_exact pending_proposal ProposalState.confirmed confirmed_proposal
      pending_proposal-IsValidProposal

abbrev ready_action : ActionExecution
ready_action = record {
  action_id = "action-1";
  proposal_id = "proposal-1";
  action_state = ActionState.ready;
  idempotency_key = "key-1";
  submitted_at = none;
  verified_at = none;
  error_code = none;
}

abbrev submitted_action : ActionExecution
submitted_action = acted ready_action ActionState.submitted now none

abbrev move_to : ActionState → Timestamp → Option String → ActionMove
move_to target t code = record { target = target; occurred_at = t; error_code = code }

-- a retryable failure, a second submission and a success
abbrev retried : List ActionMove
retried =
    move_to ActionState.failed_retryable soon (some "TIMEOUT")
    ∷ move_to ActionState.submitted soon none
    ∷ move_to ActionState.succeeded soon none
    ∷ []

abbrev succeeded_action : ActionExecution
succeeded_action = record ready_action {
  action_state = ActionState.succeeded;
  submitted_at = some now;
  verified_at = some soon;
}

ready_action-IsValidAction : IsValidAction ready_action
unfolding action_fields_valid
ready_action-IsValidAction = record { fields = refl; times = (refl, refl) }

transition_action_complete_example :
    transition_action ready_action ActionState.submitted now none ≡ ok submitted_action
transition_action_complete_example =
    transition_action_complete ready_action ActionState.submitted now none
      ready_action-IsValidAction submit refl refl

transition_action_sound_example :
    ActionEdge ActionState.ready ActionState.submitted
    × (is_aware now ≡ true)
    × ErrorFits ActionState.submitted none
    × IsValidAction submitted_action
    × (submitted_action ≡ acted ready_action ActionState.submitted now none)
unfolding transition_action assert_allowed action_transitions validated_update validate_action
    validate_action_timestamps action_fields_valid
transition_action_sound_example =
    transition_action_sound ready_action ActionState.submitted now none submitted_action refl

submission_time_kept_example : succeeded_action.submitted_at ≡ some now
unfolding run_action transition_action assert_allowed action_transitions validated_update
    validate_action validate_action_timestamps action_fields_valid
submission_time_kept_example =
    submission_time_kept submitted_action retried succeeded_action now refl refl

abbrev first_move : ActionMove
first_move = move_to ActionState.submitted now none

submissions_bounded_example :
    (visits ActionState.submitted (first_move ∷ retried)
      ≤ 1 + visits ActionState.failed_retryable (first_move ∷ retried))
    × ((retried ≡ [])
        ⊎ (ActionState.submitted ≡ ActionState.submitted)
        ⊎ (ActionState.submitted ≡ ActionState.failed_retryable))
unfolding run_action transition_action assert_allowed action_transitions validated_update
    validate_action validate_action_timestamps action_fields_valid
submissions_bounded_example =
    submissions_bounded ready_action [] first_move retried succeeded_action refl refl
