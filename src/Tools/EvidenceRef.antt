-- ===== src/Tools/EvidenceRef.antt =====
-- tools/contracts.py: `EvidenceRef`, the link from a fact to the read that observed it.
use ecommerce_after_sales_ag.Common.{String, Option, Bool, ◌&&◌, non_empty}
use ecommerce_after_sales_ag.Common.Time.{Timestamp, is_aware}
use ecommerce_after_sales_ag.Common.Text.{is_digest}

pub record EvidenceRef : Type 0 where
  pub tool_call_id : String
  pub source_query_id : String
  pub source_record_id : Option String
  pub field_path : Option String
  pub observed_at : Timestamp
  pub result_hash : String

-- the field constraints and `validate_observed_at`
unfoldable pub ref_valid : EvidenceRef → Bool
ref_valid r =
    non_empty r.tool_call_id
    && non_empty r.source_query_id
    && is_digest r.result_hash
    && is_aware r.observed_at
