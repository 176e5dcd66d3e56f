-- ===== src/Tools/Tests/Reads.antt =====
-- A read that fails once, succeeds on the second attempt, and is kept in the cache.
use ecommerce_after_sales_ag.Common.{
  ℕ, true, false, none, some, List, [], ◌∷◌, ◌≡◌, refl, ◌≢◌, ◌⊎◌, not, all, is_empty, truthy,
}
use ecommerce_after_sales_ag.Common.Text.{sample_digest, is_digest}
use ecommerce_after_sales_ag.Common.Time.{aware}
use ecommerce_after_sales_ag.Domain.State.{
  ExecutionStatus, EvidenceAvailability, execution_status_enum,
}
use ecommerce_after_sales_ag.Common.Enum.{◌is◌}
use ecommerce_after_sales_ag.Tools.EvidenceRef.{ref_valid}
use ecommerce_after_sales_ag.Tools.Contracts.{
  ToolResult, validate_envelope, validate_retrieval, validate_success, validate_failure,
  to_evidence_refs,
}
use ecommerce_after_sales_ag.Tools.ResultLaws.{failure_is_never_absence, references_are_valid}
use ecommerce_after_sales_ag.Tools.Cache.{
  ToolCacheKey, same_key, lookup, put, without_case, CaseToolCache, new_cache, get, store,
  actual_attempts, record_actual_attempt, invalidate_case,
}
use ecommerce_after_sales_ag.Tools.Cache.History.{
  CacheCall, keep, attempt, forget, Final, serve, serve_all, attempts_among, reused_is_final,
  attempts_counted,
}

abbrev found : ToolResult ℕ
found = record {
  envelope = record {
    execution_status = ExecutionStatus.success;
    evidence_availability = EvidenceAvailability.present;
    source_type = "fixture";
    source_query_id = "query-1";
    source_record_ids = [];
    observed_at = aware 1000;
    error_code = none;
    retryable = false;
    result_hash = sample_digest;
    untrusted_fields = [];
    retrieval_status = none;
    policy_resolution_status = none;
  };
  payload = some 7;
}

abbrev pub timed_out : ToolResult ℕ
timed_out = record {
  envelope = record {
    execution_status = ExecutionStatus.retryable_error;
    evidence_availability = EvidenceAvailability.unavailable;
    source_type = "fixture";
    source_query_id = "query-1";
    source_record_ids = [];
    observed_at = aware 900;
    error_code = some "TIMEOUT";
    retryable = true;
    result_hash = sample_digest;
    untrusted_fields = [];
    retrieval_status = none;
    policy_resolution_status = none;
  };
  payload = none;
}

abbrev key : ToolCacheKey
key = record {
  case_id = "case-1";
  tool_name = "get_order_context";
  normalized_args = "{}";
  source_revision = "1";
}

abbrev session : List (CacheCall ℕ)
session = attempt key ∷ keep key timed_out ∷ forget "case-2" ∷ attempt key ∷ keep key found ∷ []

failure_is_never_absence_example :
    ((timed_out.execution_status ≡ ExecutionStatus.success)
      × (timed_out.evidence_availability ≢ EvidenceAvailability.unavailable)
      × (timed_out.error_code ≡ none)
      × (timed_out.retryable ≡ false))
    ⊎ ((timed_out.execution_status ≢ ExecutionStatus.success)
        × (timed_out.evidence_availability ≡ EvidenceAvailability.unavailable)
        × (timed_out.payload ≡ none)
        × (truthy timed_out.error_code ≡ true))
unfolding validate_envelope validate_retrieval validate_failure is_digest
failure_is_never_absence_example = failure_is_never_absence timed_out timed_out refl

references_are_valid_example :
    (all ref_valid (to_evidence_refs found "call-1") ≡ true)
    × (is_empty (to_evidence_refs found "call-1")
        ≡ not (found.execution_status is ExecutionStatus.success))
unfolding validate_envelope validate_retrieval validate_success is_digest
references_are_valid_example = references_are_valid found found "call-1" refl refl

reused_is_final_example : Final found
unfolding serve_all serve store record_actual_attempt invalidate_case new_cache get lookup put
    same_key without_case
reused_is_final_example = reused_is_final session key found refl

attempts_counted_example :
    actual_attempts key (serve_all session new_cache) ≡ attempts_among key session 0
attempts_counted_example = attempts_counted key session

abbrev holding : CaseToolCache ℕ
holding = record {
  reusable = (key, found) ∷ [];
  terminal_errors = [];
  actual_attempts_of = [];
  last_result_retryable = [];
}

abbrev waiting : CaseToolCache ℕ
waiting = record holding { last_result_retryable = key ∷ [] }
