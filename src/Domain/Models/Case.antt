-- ===== src/Domain/Models/Case.antt =====
-- domain/models.py: `IssueTypeRevision`, `InvestigationCase` and `Run`.
use ecommerce_after_sales_ag.Common.{
  ℕ, String, Bool, true, false, not, ◌&&◌, Option, List, leb, all, is_some, truthy, non_empty,
}
use ecommerce_after_sales_ag.Common.Enum.{◌is◌}
use ecommerce_after_sales_ag.Common.Time.{Timestamp, is_aware}
use ecommerce_after_sales_ag.Common.Result.{Result, ok, validation, raise_if, ◌>>◌}
use ecommerce_after_sales_ag.Domain.State.{
  IssueType, TriageIntent, CaseState, CaseOutcome, RunState, case_state_enum, run_state_enum,
}
use ecommerce_after_sales_ag.Tools.EvidenceRef.{EvidenceRef, ref_valid}

pub record IssueTypeRevision : Type 0 where
  pub reported : TriageIntent
  pub canonical : TriageIntent
  pub reason_code : String
  pub revised_at : Timestamp
  pub evidence_refs : List EvidenceRef

unfoldable pub revision_valid : IssueTypeRevision → Bool
revision_valid r = non_empty r.reason_code && is_aware r.revised_at && all ref_valid r.evidence_refs

pub record InvestigationCase : Type 0 where
  pub case_id : String
  pub conversation_id : String
  pub customer_id : String
  pub authorized_order_id : String
  pub canonical_issue_type : IssueType
  pub case_state : CaseState
  pub case_outcome : Option CaseOutcome
  pub reason_code : Option String
  pub related_case_id : Option String
  pub business_clarifications : ℕ
  pub planning_turns : ℕ
  pub read_tool_executions : ℕ
  pub issue_type_revision_history : List IssueTypeRevision
  pub target_shipment_id : Option String

-- the `Field(…)` constraints; a number of the model is at least 0
unfoldable pub case_fields_valid : InvestigationCase → Bool
case_fields_valid c =
    non_empty c.case_id
    && non_empty c.conversation_id
    && non_empty c.customer_id
    && non_empty c.authorized_order_id
    && leb c.business_clarifications 2
    && leb c.planning_turns 16
    && leb c.read_tool_executions 6
    && all revision_valid c.issue_type_revision_history

-- `a != b` on truth values
abbrev pub differ : Bool → Bool → Bool
differ true b = not b
differ false b = b

unfoldable pub keep_state_and_outcome_consistent : InvestigationCase → Result InvestigationCase
keep_state_and_outcome_consistent c = do
  let is_closed = c.case_state is CaseState.closed
  raise_if (differ is_closed (is_some c.case_outcome))
      (validation "case_outcome is required only when case_state is closed")
  raise_if (is_closed && not (truthy c.reason_code))
      (validation "a closed Case requires a deterministic reason_code")
  raise_if (not is_closed && is_some c.reason_code)
      (validation "an open Case cannot have a closure reason_code")
  ok c

unfoldable pub validate_case : InvestigationCase → Result InvestigationCase
validate_case c = do
  raise_if (not (case_fields_valid c)) (validation "field constraint of InvestigationCase")
  keep_state_and_outcome_consistent c

pub record Run : Type 0 where
  pub run_id : String
  pub case_id : String
  pub run_state : RunState
  pub planning_turns : ℕ
  pub failure_class : Option String

unfoldable pub run_fields_valid : Run → Bool
run_fields_valid r = non_empty r.run_id && non_empty r.case_id && leb r.planning_turns 8

unfoldable pub keep_failure_separate : Run → Result Run
keep_failure_separate r = do
  raise_if (r.run_state is RunState.failed && not (truthy r.failure_class))
      (validation "a failed Run requires failure_class")
  raise_if (not (r.run_state is RunState.failed) && is_some r.failure_class)
      (validation "failure_class belongs only to a failed Run")
  ok r

unfoldable pub validate_run : Run → Result Run
validate_run r = do
  raise_if (not (run_fields_valid r)) (validation "field constraint of Run")
  keep_failure_separate r
