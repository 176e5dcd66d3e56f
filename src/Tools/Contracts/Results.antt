-- ===== src/Tools/Contracts/Results.antt =====
-- tools/contracts.py: `ToolResult`, the one form in which the result of a read travels.
use ecommerce_after_sales_ag.Common.{
  String, Bool, false, not, ◌&&◌, ◌||◌, Option, none, some, List, [], ◌∷◌, map, is_empty, is_none,
  is_some, truthy, non_empty, all_distinct, if◌then◌else◌,
}
use ecommerce_after_sales_ag.Common.Enum.{◌is◌}
use ecommerce_after_sales_ag.Common.Text.{is_digest}
use ecommerce_after_sales_ag.Common.Time.{Timestamp, is_aware}
use ecommerce_after_sales_ag.Common.Result.{Result, ok, validation, value_error, raise_if, ◌>>◌}
use ecommerce_after_sales_ag.Domain.State.{
  ExecutionStatus, EvidenceAvailability, RetrievalStatus, PolicyResolutionStatus,
  execution_status_enum, evidence_availability_enum, retrieval_status_enum,
}
use ecommerce_after_sales_ag.Domain.Models.{differ}
use ecommerce_after_sales_ag.Tools.EvidenceRef.{EvidenceRef}

-- All fields but the payload: what the source passes as `ToolResult[Any]`.
pub record Envelope : Type 0 where
  pub execution_status : ExecutionStatus
  pub evidence_availability : EvidenceAvailability
  pub source_type : String
  pub source_query_id : String
  pub source_record_ids : List String
  pub observed_at : Timestamp
  pub error_code : Option String
  pub retryable : Bool
  pub result_hash : String
  pub untrusted_fields : List String
  pub retrieval_status : Option RetrievalStatus
  pub policy_resolution_status : Option PolicyResolutionStatus

pub record ToolResult (A : Type 0) : Type 0 where
  pub envelope : Envelope
  pub open envelope use *
  pub payload : Option A

abbrev pub retrieved_as : Option RetrievalStatus → RetrievalStatus → Bool
retrieved_as none s = false
retrieved_as (some r) s = r is s

-- the checks on the policy fields, which every result makes
unfoldable pub validate_retrieval : Envelope → Result (Unit {0})
validate_retrieval r = do
  raise_if (is_none r.retrieval_status && is_some r.policy_resolution_status)
      (validation "policy resolution status requires a retrieval status")
  raise_if
      (retrieved_as r.retrieval_status RetrievalStatus.hit && is_none r.policy_resolution_status)
      (validation "retrieval hit requires policy resolution status")
  raise_if
      ((retrieved_as r.retrieval_status RetrievalStatus.no_hit
          || retrieved_as r.retrieval_status RetrievalStatus.unavailable)
        && is_some r.policy_resolution_status)
      (validation "no_hit or unavailable cannot fabricate policy resolution")

unfoldable pub validate_success : Envelope → Bool → Result (Unit {0})
validate_success r has_payload = do
  raise_if (r.evidence_availability is EvidenceAvailability.unavailable)
      (validation "successful execution cannot be unavailable")
  raise_if (retrieved_as r.retrieval_status RetrievalStatus.unavailable)
      (validation "successful execution cannot have unavailable retrieval")
  raise_if (is_some r.error_code || r.retryable)
      (validation "successful execution cannot carry an error")
  raise_if (r.evidence_availability is EvidenceAvailability.present && not has_payload)
      (validation "present evidence requires a payload")

unfoldable pub validate_failure : Envelope → Bool → Result (Unit {0})
validate_failure r has_payload = do
  raise_if (not (r.evidence_availability is EvidenceAvailability.unavailable))
      (validation "failed execution must be unavailable, never absent")
  raise_if (has_payload || not (truthy r.error_code))
      (validation "failed execution requires error_code and no payload")
  raise_if (differ r.retryable (r.execution_status is ExecutionStatus.retryable_error))
      (validation "retryable must agree with execution_status")
  raise_if
      (is_some r.retrieval_status
        && not (retrieved_as r.retrieval_status RetrievalStatus.unavailable))
      (validation "failed policy retrieval must be marked unavailable")

module _ {A : Type 0} where
  unfoldable pub validate_envelope : ToolResult A → Result (ToolResult A)
  validate_envelope r = do
    raise_if
        (not (non_empty r.source_type && non_empty r.source_query_id && is_digest r.result_hash))
        (validation "field constraint of ToolResult")
    raise_if (not (is_aware r.observed_at)) (validation "observed_at must be timezone-aware")
    raise_if (not (all_distinct r.source_record_ids))
        (validation "source_record_ids must not contain duplicates")
    raise_if (not (all_distinct r.untrusted_fields))
        (validation "untrusted_fields must not contain duplicates")
    validate_retrieval r.envelope
    if r.execution_status is ExecutionStatus.success
        then validate_success r.envelope (is_some r.payload)
        else validate_failure r.envelope (is_some r.payload)
    ok r

  -- `ToolResult.completed`; `digest` is the SHA-256 of the normalized fields' canonical JSON
  unfoldable pub completed :
      EvidenceAvailability
      → String
      → String
      → Timestamp
      → Option A
      → List String
      → List String
      → Option RetrievalStatus
      → Option PolicyResolutionStatus
      → String
      → Result (ToolResult A)
  completed availability source_type source_query_id observed_at payload record_ids untrusted
        retrieval resolution digest =
      do
        raise_if (availability is EvidenceAvailability.unavailable)
            (value_error "completed result cannot be unavailable")
        validate_envelope (record {
          envelope = record {
            execution_status = ExecutionStatus.success;
            evidence_availability = availability;
            source_type = source_type;
            source_query_id = source_query_id;
            source_record_ids = record_ids;
            observed_at = observed_at;
            error_code = none;
            retryable = false;
            result_hash = digest;
            untrusted_fields = untrusted;
            retrieval_status = retrieval;
            policy_resolution_status = resolution;
          };
          payload = payload;
        })

  -- `ToolResult.failed`
  unfoldable pub failed :
      Bool
      → String
      → String
      → Timestamp
      → String
      → Option RetrievalStatus
      → String
      → Result (ToolResult A)
  failed retryable source_type source_query_id observed_at error_code retrieval digest =
      validate_envelope (record {
        envelope = record {
          execution_status =
              if retryable
              then ExecutionStatus.retryable_error
              else ExecutionStatus.non_retryable_error;
          evidence_availability = EvidenceAvailability.unavailable;
          source_type = source_type;
          source_query_id = source_query_id;
          source_record_ids = [];
          observed_at = observed_at;
          error_code = some error_code;
          retryable = retryable;
          result_hash = digest;
          untrusted_fields = [];
          retrieval_status = retrieval;
          policy_resolution_status = none;
        };
        payload = none;
      })

  abbrev pub ref_to : String → ToolResult A → Option String → EvidenceRef
  ref_to tool_call_id r record_id = record {
    tool_call_id = tool_call_id;
    source_query_id = r.source_query_id;
    source_record_id = record_id;
    field_path = none;
    observed_at = r.observed_at;
    result_hash = r.result_hash;
  }

  -- a successful read that found nothing still has one reference
  unfoldable pub to_evidence_refs : ToolResult A → String → List EvidenceRef
  to_evidence_refs r tool_call_id =
      if not (r.execution_status is ExecutionStatus.success)
      then []
      else map (ref_to tool_call_id r)
          (if is_empty r.source_record_ids then none ∷ [] else map some r.source_record_ids)
