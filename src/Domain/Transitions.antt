-- ===== src/Domain/Transitions.antt =====
-- domain/transitions.py: the tables of the four persisted state machines, and the operations that
-- move a snapshot along one edge and validate it anew.
pub mod Cases
pub mod CaseHistory
pub mod Actions
pub mod ActionHistory
pub mod Proposals
pub mod Runs
use Prim.Native.String
use ecommerce_after_sales_ag.Common.{
  String, not, ◌&&◌, ◌||◌, Option, some, List, [], ◌∷◌, is_some, is_none, truthy, if◌then◌else◌,
}
use ecommerce_after_sales_ag.Common.Enum.{StrEnum, ◌is◌, ◌is_in◌, value_of}
use ecommerce_after_sales_ag.Common.Time.{Timestamp, is_aware}
use ecommerce_after_sales_ag.Common.Result.{Result, illegal_transition, raise_if, ◌>>◌}
use ecommerce_after_sales_ag.Domain.State.{
  CaseState, CaseOutcome, RunState, ProposalState, ActionState, case_state_enum, run_state_enum,
  proposal_state_enum, action_state_enum,
}
use ecommerce_after_sales_ag.Domain.Models.{
  InvestigationCase, Run, ActionProposal, ActionExecution, differ, validate_case, validate_run,
  validate_proposal, validate_action,
}

-- _CASE_TRANSITIONS
unfoldable pub case_transitions : CaseState → List CaseState
case_transitions CaseState.investigating =
    CaseState.awaiting_customer_input ∷ CaseState.awaiting_customer_confirmation
    ∷ CaseState.awaiting_retry ∷ CaseState.closed ∷ []
case_transitions CaseState.awaiting_customer_input =
    CaseState.investigating ∷ CaseState.awaiting_retry ∷ CaseState.closed ∷ []
case_transitions CaseState.awaiting_customer_confirmation =
    CaseState.executing_action ∷ CaseState.closed ∷ []
case_transitions CaseState.awaiting_retry = CaseState.investigating ∷ CaseState.closed ∷ []
case_transitions CaseState.executing_action = CaseState.closed ∷ []
case_transitions CaseState.closed = []

-- _RUN_TRANSITIONS
unfoldable pub run_transitions : RunState → List RunState
run_transitions RunState.queued = RunState.running ∷ RunState.failed ∷ []
run_transitions RunState.running = RunState.succeeded ∷ RunState.failed ∷ []
run_transitions RunState.succeeded = []
run_transitions RunState.failed = []

-- _PROPOSAL_TRANSITIONS
unfoldable pub proposal_transitions : ProposalState → List ProposalState
proposal_transitions ProposalState.pending_confirmation =
    ProposalState.confirmed ∷ ProposalState.declined ∷ ProposalState.superseded
    ∷ ProposalState.expired ∷ ProposalState.invalidated ∷ []
proposal_transitions ProposalState.confirmed = []
proposal_transitions ProposalState.declined = []
proposal_transitions ProposalState.superseded = []
proposal_transitions ProposalState.expired = []
proposal_transitions ProposalState.invalidated = []

-- _ACTION_TRANSITIONS
unfoldable pub action_transitions : ActionState → List ActionState
action_transitions ActionState.ready = ActionState.submitted ∷ []
action_transitions ActionState.submitted =
    ActionState.succeeded ∷ ActionState.failed_retryable ∷ ActionState.failed_terminal
    ∷ ActionState.uncertain ∷ []
action_transitions ActionState.failed_retryable = ActionState.submitted ∷ []
action_transitions ActionState.succeeded = []
action_transitions ActionState.failed_terminal = []
action_transitions ActionState.uncertain = []

-- _assert_allowed
module _ {S : Type 0} ⦃e : StrEnum S⦄ where
  unfoldable pub assert_allowed : S → S → (S → List S) → Result (Unit {0})
  assert_allowed current target allowed = raise_if (not (target is_in allowed current)) (
      illegal_transition (
        String.◌++◌ "illegal transition: "
          (String.◌++◌ (value_of current) (String.◌++◌ " -> " (value_of target)))))

-- _validated_update: the snapshot with the new values is built, and so validated, from scratch
unfoldable pub validated_update : {M : Type 0} → (M → Result M) → M → Result M
validated_update validate updated = validate updated

-- the closure arguments of `transition_case`
unfoldable pub check_closure : CaseState → Option CaseOutcome → Option String → Result (Unit {0})
check_closure target outcome reason_code =
    if target is CaseState.closed
    then raise_if (is_none outcome || not (truthy reason_code))
        (illegal_transition "closing a Case requires outcome and reason_code")
    else raise_if (is_some outcome || is_some reason_code)
        (illegal_transition "open Case transitions cannot set closure fields")

unfoldable pub transition_case :
    InvestigationCase → CaseState → Option CaseOutcome → Option String → Result InvestigationCase
transition_case c target outcome reason_code = do
  assert_allowed c.case_state target case_transitions
  check_closure target outcome reason_code
  validated_update validate_case
      (record c { case_state = target; case_outcome = outcome; reason_code = reason_code })

unfoldable pub transition_run : Run → RunState → Option String → Result Run
transition_run r target failure_class = do
  assert_allowed r.run_state target run_transitions
  raise_if (differ (target is RunState.failed) (truthy failure_class))
      (illegal_transition "only a failed Run carries failure_class")
  validated_update validate_run (record r { run_state = target; failure_class = failure_class })

unfoldable pub transition_proposal : ActionProposal → ProposalState → Result ActionProposal
transition_proposal p target = do
  assert_allowed p.proposal_state target proposal_transitions
  validated_update validate_proposal (record p { proposal_state = target })

-- `submitted_at` and `verified_at` after the move
abbrev pub submitted_after : ActionState → Timestamp → Option Timestamp → Option Timestamp
submitted_after target occurred_at submitted_at =
    if target is ActionState.submitted && is_none submitted_at
    then some occurred_at
    else submitted_at

abbrev pub verified_after : ActionState → Timestamp → Option Timestamp → Option Timestamp
verified_after target occurred_at verified_at =
    if target is ActionState.succeeded then some occurred_at else verified_at

unfoldable pub transition_action :
    ActionExecution → ActionState → Timestamp → Option String → Result ActionExecution
transition_action a target occurred_at error_code = do
  assert_allowed a.action_state target action_transitions
  raise_if (not (is_aware occurred_at))
      (illegal_transition "action transition timestamp must be timezone-aware")
  raise_if
      ((target is_in (ActionState.succeeded ∷ ActionState.submitted ∷ [])) && is_some error_code)
      (illegal_transition "successful/submitted action state cannot carry error_code")
  raise_if
      ((target is_in (
          ActionState.failed_retryable ∷ ActionState.failed_terminal ∷ ActionState.uncertain ∷ []))
        && not (truthy error_code))
      (illegal_transition "failed or uncertain action requires error_code")
  validated_update validate_action (record a {
    action_state = target;
    submitted_at = submitted_after target occurred_at a.submitted_at;
    verified_at = verified_after target occurred_at a.verified_at;
    error_code = error_code;
  })
