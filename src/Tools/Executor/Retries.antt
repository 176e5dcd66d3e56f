-- ===== src/Tools/Executor/Retries.antt =====
-- tools/service.py: any sequence of calls reads a source at most twice for one query.
use ecommerce_after_sales_ag.Common.{◌≤◌, true, ◌≡◌, ◌⊎◌}
use ecommerce_after_sales_ag.Domain.State.{issue_type_enum}
use ecommerce_after_sales_ag.Tools.Cache.{ToolCacheKey, CaseToolCache, actual_attempts}
use ecommerce_after_sales_ag.Tools.Executor.Settled.{answered_or_retried}

module _ {A : Type 0} where
  -- Nothing has been read for the key, or at most two reads were made and it is answered or retried.
  abbrev pub IsSettled : ToolCacheKey → CaseToolCache A → Type 0
  IsSettled k c =
      (actual_attempts k c ≡ 0) ⊎ ((actual_attempts k c ≤ 2) × (answered_or_retried k c ≡ true))
