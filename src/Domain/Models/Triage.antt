-- ===== src/Domain/Models/Triage.antt =====
-- domain/models.py: `TriageResult`, all that a tool-free triage model may produce.
use ecommerce_after_sales_ag.Common.{ℕ, String, not, ◌&&◌, List, leb, length, all_distinct}
use ecommerce_after_sales_ag.Common.Result.{Result, ok, validation, raise_if, ◌>>◌}
use ecommerce_after_sales_ag.Domain.State.{TriageIntent}

-- `confidence` counts millionths; the source's float is only compared with 0 and 1.
pub record TriageResult : Type 0 where
  pub intent : TriageIntent
  pub risk_flags : List String
  pub order_ids_mentioned : List String
  pub confidence : ℕ

unfoldable pub validate_triage : TriageResult → Result TriageResult
validate_triage t = do
  raise_if
      (not (
        leb (length t.risk_flags) 16
        && leb (length t.order_ids_mentioned) 16
        && leb t.confidence 1000000))
      (validation "field constraint of TriageResult")
  raise_if (not (all_distinct t.risk_flags)) (validation "risk_flags must not contain duplicates")
  raise_if (not (all_distinct t.order_ids_mentioned))
      (validation "order_ids_mentioned must not contain duplicates")
  ok t
