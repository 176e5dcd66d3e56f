-- ===== src/Tools/Contracts/Policy.antt =====
-- policy/corpus.py, `PolicyFactSnapshot`, and tools/contracts.py: the result of a policy search.
use ecommerce_after_sales_ag.Common.{
  ℕ, String, Bool, true, false, not, ◌&&◌, Option, none, some, List, is_empty, is_none, is_some,
  leb, all_distinct, non_empty, opt_eq,
}
use ecommerce_after_sales_ag.Common.Enum.{◌is◌}
use ecommerce_after_sales_ag.Common.Text.{is_digest}
use ecommerce_after_sales_ag.Common.Time.{Timestamp, is_aware, not_after}
use ecommerce_after_sales_ag.Common.Result.{Result, ok, validation, raise_if, ◌>>◌}
use ecommerce_after_sales_ag.Domain.State.{
  IssueType, RetrievalStatus, PolicyResolutionStatus, issue_type_enum, retrieval_status_enum,
  policy_resolution_status_enum,
}
use ecommerce_after_sales_ag.Domain.Models.{aware_or_none}

pub record PolicyFactSnapshot : Type 0 where
  pub eligible : Bool
  pub stalled_after_hours : Option ℕ
  pub required_evidence_codes : List String
  pub effective_from : Timestamp
  pub effective_to : Option Timestamp
  pub service_level : String
  pub region : String
  pub policy_version : String
  pub clause_id : String
  pub source_hash : String
  pub issue_type : IssueType

abbrev at_least_one : Option ℕ → Bool
at_least_one none = true
at_least_one (some n) = leb 1 n

abbrev ends_by : Option Timestamp → Timestamp → Bool
ends_by none start = false
ends_by (some stop) start = not_after stop start

unfoldable pub validate_policy_facts : PolicyFactSnapshot → Result PolicyFactSnapshot
validate_policy_facts f = do
  raise_if
      (not (
        at_least_one f.stalled_after_hours
        && not (is_empty f.required_evidence_codes)
        && non_empty f.service_level
        && non_empty f.region
        && non_empty f.policy_version
        && non_empty f.clause_id
        && is_digest f.source_hash))
      (validation "field constraint of PolicyFactSnapshot")
  raise_if (not (is_aware f.effective_from)) (validation "effective_from must be timezone-aware")
  raise_if (not (aware_or_none f.effective_to)) (validation "effective_to must be timezone-aware")
  raise_if (ends_by f.effective_to f.effective_from)
      (validation "effective_to must be after effective_from")
  raise_if (f.issue_type is IssueType.stalled_tracking && is_none f.stalled_after_hours)
      (validation "stalled_tracking facts require stalled_after_hours")
  raise_if (f.issue_type is IssueType.signed_not_received && is_some f.stalled_after_hours)
      (validation "signed_not_received facts must not carry a stalled threshold")
  raise_if (not (all_distinct f.required_evidence_codes))
      (validation "required_evidence_codes must not contain duplicates")
  ok f

pub record VerifiedPolicyCitation : Type 0 where
  pub document_id : String
  pub document_title : String
  pub policy_version : String
  pub clause_id : String
  pub source_hash : String
  pub display_summary : String
  pub excerpt : String
  pub excerpt_hash : String

-- The retrieval diagnostics (scores, latencies, corpus and index identities) are left out: no
-- modelled operation reads them.
pub record PolicySearchPayload : Type 0 where
  pub order_id : String
  pub issue_type : IssueType
  pub service_level : String
  pub region : String
  pub evaluated_at : Timestamp
  pub retrieval_status : RetrievalStatus
  pub policy_resolution_status : Option PolicyResolutionStatus
  pub candidate_clause_ids : List String
  pub policy_fact_snapshot : Option PolicyFactSnapshot
  pub policy_fact_snapshot_hash : Option String
  pub citation : Option VerifiedPolicyCitation

-- `x is member` for a value that may be None
abbrev pub resolved_as : Option PolicyResolutionStatus → PolicyResolutionStatus → Bool
resolved_as none s = false
resolved_as (some r) s = r is s

-- `canonical_hash` is the SHA-256 of a snapshot's canonical JSON, which Python's hashlib computes.
module _ (canonical_hash : PolicyFactSnapshot → String) where
  abbrev hash_agrees : Option PolicyFactSnapshot → Option String → Bool
  hash_agrees none stated = false
  hash_agrees (some f) stated = opt_eq stated (some (canonical_hash f))

  unfoldable pub verified_for_gate : PolicySearchPayload → Bool
  verified_for_gate p =
      p.retrieval_status is RetrievalStatus.hit
      && resolved_as p.policy_resolution_status PolicyResolutionStatus.applicable
      && is_some p.policy_fact_snapshot
      && is_some p.citation
      && hash_agrees p.policy_fact_snapshot p.policy_fact_snapshot_hash
