-- ===== src/Domain/Models/Action.antt =====
-- domain/models.py: `ActionProposal` and `ActionExecution`.
use ecommerce_after_sales_ag.Common.{
  ℕ, ◌+◌, String, Bool, true, not, ◌&&◌, Option, none, some, List, [], ◌∷◌, leb, ◌==◌, all, is_some,
  is_none, is_empty, non_empty,
}
use ecommerce_after_sales_ag.Common.Enum.{◌is◌, ◌is_in◌}
use ecommerce_after_sales_ag.Common.Time.{Timestamp, is_aware, instant, minutes}
use ecommerce_after_sales_ag.Common.Text.{is_digest, at_most}
use ecommerce_after_sales_ag.Common.Json.{Fields}
use ecommerce_after_sales_ag.Common.Result.{Result, ok, validation, raise_if, ◌>>◌}
use ecommerce_after_sales_ag.Domain.State.{
  ProposalState, ActionState, ActionType, action_state_enum,
}
use ecommerce_after_sales_ag.Tools.EvidenceRef.{EvidenceRef, ref_valid}
use ecommerce_after_sales_ag.Domain.Models.Case.{differ}

pub record ActionProposal : Type 0 where
  pub proposal_id : String
  pub case_id : String
  pub version : ℕ
  pub proposal_state : ProposalState
  pub action_type : ActionType
  pub execution_parameters : Fields
  pub customer_visible_effect : String
  pub evidence_refs : List EvidenceRef
  pub evidence_snapshot_hash : String
  pub case_fact_identity : Fields
  pub created_at : Timestamp
  pub expires_at : Timestamp

unfoldable pub proposal_fields_valid : ActionProposal → Bool
proposal_fields_valid p =
    non_empty p.proposal_id
    && non_empty p.case_id
    && leb 1 p.version
    && non_empty p.customer_visible_effect
    && at_most 2000 p.customer_visible_effect
    && not (is_empty p.evidence_refs)
    && all ref_valid p.evidence_refs
    && is_digest p.evidence_snapshot_hash

unfoldable pub validate_lifetime : ActionProposal → Result ActionProposal
validate_lifetime p = do
  raise_if (not (is_aware p.created_at)) (validation "created_at must be timezone-aware")
  raise_if (not (is_aware p.expires_at)) (validation "expires_at must be timezone-aware")
  raise_if (not (instant p.expires_at == instant p.created_at + minutes 15))
      (validation "an ActionProposal must expire exactly 15 minutes after creation")
  ok p

unfoldable pub validate_proposal : ActionProposal → Result ActionProposal
validate_proposal p = do
  raise_if (not (proposal_fields_valid p)) (validation "field constraint of ActionProposal")
  validate_lifetime p

pub record ActionExecution : Type 0 where
  pub action_id : String
  pub proposal_id : String
  pub action_state : ActionState
  pub idempotency_key : String
  pub submitted_at : Option Timestamp
  pub verified_at : Option Timestamp
  pub error_code : Option String

unfoldable pub action_fields_valid : ActionExecution → Bool
action_fields_valid a =
    non_empty a.action_id && non_empty a.proposal_id && non_empty a.idempotency_key

-- `_require_aware` on a timestamp that may be None
abbrev pub aware_or_none : Option Timestamp → Bool
aware_or_none none = true
aware_or_none (some t) = is_aware t

abbrev pub submitted_states : List ActionState
submitted_states =
    ActionState.submitted ∷ ActionState.succeeded ∷ ActionState.failed_retryable
    ∷ ActionState.failed_terminal ∷ ActionState.uncertain ∷ []

unfoldable pub validate_action_timestamps : ActionExecution → Result ActionExecution
validate_action_timestamps a = do
  raise_if (not (aware_or_none a.submitted_at)) (validation "submitted_at must be timezone-aware")
  raise_if (not (aware_or_none a.verified_at)) (validation "verified_at must be timezone-aware")
  raise_if (differ (a.action_state is_in submitted_states) (is_some a.submitted_at))
      (validation "submitted_at must reflect whether the action left the executor")
  raise_if (is_some a.verified_at && not (a.action_state is ActionState.succeeded))
      (validation "verified_at is valid only for a succeeded action")
  raise_if (a.action_state is ActionState.succeeded && is_none a.verified_at)
      (validation "a succeeded action requires read-back verification")
  ok a

unfoldable pub validate_action : ActionExecution → Result ActionExecution
validate_action a = do
  raise_if (not (action_fields_valid a)) (validation "field constraint of ActionExecution")
  validate_action_timestamps a
