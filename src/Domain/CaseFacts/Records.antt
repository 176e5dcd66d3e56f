-- ===== src/Domain/CaseFacts/Records.antt =====
-- domain/case_facts.py: the records of the fact ledger, with their field constraints and validators.
use ecommerce_after_sales_ag.Common.{
  ℕ, String, Bool, true, not, ◌&&◌, ◌||◌, Option, none, some, List, leb, ◌==◌, is_some, opt_eq,
  non_empty,
}
use ecommerce_after_sales_ag.Common.Enum.{◌is◌}
use ecommerce_after_sales_ag.Common.Result.{Result, ok, validation, ◌>>◌, raise_if}
use ecommerce_after_sales_ag.Common.Text.{is_digest, at_most}
use ecommerce_after_sales_ag.Common.Time.{Timestamp, is_aware}
use ecommerce_after_sales_ag.Domain.Models.{differ}
use ecommerce_after_sales_ag.Domain.CaseFacts.Codes.{
  FactCode, FactValue, RelationHint, FactStatus, QuestionStatus, fact_code_enum, fact_value_enum,
  relation_hint_enum,
}

pub record SourceSpan : Type 0 where
  pub start : ℕ
  pub end : ℕ

pub record CaseFactCandidate : Type 0 where
  pub fact_code : FactCode
  pub value : FactValue
  pub relation_hint : RelationHint
  pub target_assertion_id : Option String
  pub source_span : SourceSpan

-- min_length=1, max_length=64
abbrev pub is_id : String → Bool
is_id s = non_empty s && at_most 64 s

abbrev pub optional_id : Option String → Bool
optional_id none = true
optional_id (some s) = is_id s

abbrev pub targeted : RelationHint → Bool
targeted r = r is RelationHint.correction || r is RelationHint.withdrawal

-- the constraints and validators of a candidate and its span
unfoldable pub candidate_valid : CaseFactCandidate → Result CaseFactCandidate
candidate_valid c = do
  raise_if (not (leb 1 c.source_span.end)) (validation "field constraint of SourceSpan")
  raise_if (leb c.source_span.end c.source_span.start)
      (validation "source span end must be greater than start")
  raise_if (not (optional_id c.target_assertion_id))
      (validation "field constraint of CaseFactCandidate")
  raise_if (differ (targeted c.relation_hint) (is_some c.target_assertion_id))
      (validation "only correction/withdrawal candidates require a target")
  raise_if (c.relation_hint is RelationHint.withdrawal && not (c.value is FactValue.unknown))
      (validation "withdrawal must produce unknown")
  ok c

-- `==` of two candidates
unfoldable pub same_candidate : CaseFactCandidate → CaseFactCandidate → Bool
same_candidate a b =
    a.fact_code is b.fact_code
    && a.value is b.value
    && a.relation_hint is b.relation_hint
    && opt_eq a.target_assertion_id b.target_assertion_id
    && (a.source_span.start == b.source_span.start)
    && (a.source_span.end == b.source_span.end)

pub record DeliveryProofFactContext : Type 0 where
  pub tool_call_id : String
  pub result_hash : String
  pub recipient_category : String

-- source_span_start and source_span_end are the two ends of `source_span`. The fixed schema_version
-- and the extractor_kind, which nothing here reads, are left out.
pub record CaseFactAssertion : Type 0 where
  pub assertion_id : String
  pub case_id : String
  pub fact_code : FactCode
  pub value : FactValue
  pub source_message_id : String
  pub source_message_hash : String
  pub source_span : SourceSpan
  pub relation : RelationHint
  pub supersedes_assertion_id : Option String
  pub extractor_version : String
  pub context_tool_call_id : Option String
  pub context_result_hash : Option String
  pub assertion_sequence : ℕ
  pub recorded_at : Timestamp

abbrev optional_short : Option String → Bool
optional_short none = true
optional_short (some s) = at_most 64 s

abbrev optional_digest : Option String → Bool
optional_digest none = true
optional_digest (some s) = is_digest s

-- the constraints and the validator of a persisted assertion
unfoldable pub assertion_valid : CaseFactAssertion → Result CaseFactAssertion
assertion_valid a = do
  raise_if
      (not (
        is_id a.assertion_id
        && is_id a.case_id
        && is_id a.source_message_id
        && is_digest a.source_message_hash
        && leb 1 a.source_span.end
        && non_empty a.extractor_version
        && at_most 128 a.extractor_version
        && optional_short a.supersedes_assertion_id
        && optional_short a.context_tool_call_id
        && optional_digest a.context_result_hash
        && leb 1 a.assertion_sequence))
      (validation "field constraint of CaseFactAssertion")
  raise_if (leb a.source_span.end a.source_span.start)
      (validation "assertion source span is invalid")
  raise_if (not (is_aware a.recorded_at)) (validation "recorded_at must be timezone-aware")
  raise_if (differ (targeted a.relation) (is_some a.supersedes_assertion_id))
      (validation "supersession identity must match relation")
  raise_if
      (differ (a.fact_code is FactCode.reported_delivery_location_checked)
        (is_some a.context_tool_call_id && is_some a.context_result_hash))
      (validation "delivery-location facts require exact proof context only")
  raise_if (a.relation is RelationHint.withdrawal && not (a.value is FactValue.unknown))
      (validation "withdrawal assertion must be unknown")
  ok a

pub record FactSnapshotEntry : Type 0 where
  pub status : FactStatus
  pub active_assertion_ids : List String
  pub superseded_assertion_ids : List String
  pub source_message_ids : List String
  pub context_tool_call_id : Option String
  pub context_result_hash : Option String

pub record QuestionState : Type 0 where
  pub asks : ℕ
  pub status : QuestionStatus

-- A dictionary with exactly the two fact codes as its keys is a function of the code.
pub record CaseFactSnapshot : Type 0 where
  pub case_id : String
  pub revision : ℕ
  pub facts : FactCode → FactSnapshotEntry
  pub question_state : FactCode → QuestionState
  pub snapshot_hash : String
  pub rebuilt_at : Timestamp

pub record FactQuestion : Type 0 where
  pub question_id : String
  pub case_id : String
  pub fact_code : FactCode
  pub context_result_hash : Option String
  pub targeted_conflict : Bool
  pub asked_at : Timestamp
