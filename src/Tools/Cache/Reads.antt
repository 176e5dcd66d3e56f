-- ===== src/Tools/Cache/Reads.antt =====
-- tools/cache.py: what one store and one invalidation change.
use ecommerce_after_sales_ag.Common.{
  String, true, false, none, some, ◌≡◌, ◌≢◌, inl, inr, arith, str_eq, Bool-cases, sym, ◌∙◌,
  if◌then◌else◌, true-ne-false,
}
use ecommerce_after_sales_ag.Common.Enum.{◌is◌, is_iff}
use ecommerce_after_sales_ag.Common.Result.{ok}
use ecommerce_after_sales_ag.Domain.State.{
  ExecutionStatus, execution_status_enum, evidence_availability_enum,
}
use ecommerce_after_sales_ag.Tools.Contracts.{ToolResult}
use ecommerce_after_sales_ag.Tools.Cache.{
  ToolCacheKey, same_key, put, CaseToolCache, get, store, invalidate_case,
}
use ecommerce_after_sales_ag.Tools.Cache.Entries.{lookup-put, lookup-without_case}

module _ {A : Type 0} where
  -- Forgetting a case makes its keys read nothing and changes no read of another case.
  pub get-invalidate_case :
      (k : ToolCacheKey) (case_id : String) (c : CaseToolCache A)
      → get k (invalidate_case case_id c) ≡ (if str_eq k.case_id case_id then none else get k c)
  unfolding get invalidate_case
  get-invalidate_case k case_id c = elim (Bool-cases (str_eq k.case_id case_id)) [
    | inl gone ↦ rw (
      lookup-without_case case_id k c.reusable,
      lookup-without_case case_id k c.terminal_errors,
      gone,
    )
    | inr kept ↦ rw (
      lookup-without_case case_id k c.reusable,
      lookup-without_case case_id k c.terminal_errors,
      kept,
    )
  ]

  -- what a store that is accepted changes
  data Stored (j : ToolCacheKey) (r : ToolResult A) (c c' : CaseToolCache A) : Type 0 where
    as_evidence :
        r.execution_status ≡ ExecutionStatus.success
        → c'.reusable ≡ put j r c.reusable
        → c'.terminal_errors ≡ c.terminal_errors
        → Stored j r c c'
    as_error :
        r.execution_status ≡ ExecutionStatus.non_retryable_error
        → c'.reusable ≡ c.reusable
        → c'.terminal_errors ≡ put j r c.terminal_errors
        → Stored j r c c'
    nowhere :
        r.execution_status ≢ ExecutionStatus.success
        → c'.reusable ≡ c.reusable
        → c'.terminal_errors ≡ c.terminal_errors
        → Stored j r c c'

  Stored-of_store :
      (j : ToolCacheKey) (r : ToolResult A) (c c' : CaseToolCache A)
      → store j r c ≡ ok c'
      → Stored j r c c'
  unfolding store
  Stored-of_store j r c c' h = elim (Bool-cases (r.execution_status is ExecutionStatus.success)) [
    | inl done ↦
        as_evidence ((is_iff r.execution_status ExecutionStatus.success).0 done)
          (ground (arith, done)) (ground (arith, done))
    | inr undone ↦ elim (Bool-cases (r.execution_status is ExecutionStatus.non_retryable_error)) [
      | inl final ↦
          as_error ((is_iff r.execution_status ExecutionStatus.non_retryable_error).0 final)
            (ground (arith, undone, final)) (ground (arith, undone, final))
      | inr again ↦
          nowhere
            (λ e.
              true-ne-false
                (sym ((is_iff r.execution_status ExecutionStatus.success).1 e) ∙ undone))
            (ground (arith, undone, again)) (ground (arith, undone, again))
    ]
  ]

  pub store_effects :
      (k j : ToolCacheKey) (r : ToolResult A) (c c' : CaseToolCache A)
      → store j r c ≡ ok c'
      → (same_key j k ≡ false → get k c' ≡ get k c)
        × (r.execution_status ≡ ExecutionStatus.success → same_key j k ≡ true → get k c' ≡ some r)
        × (r.execution_status ≡ ExecutionStatus.retryable_error → get k c' ≡ get k c)
  unfolding get
  store_effects k j r c c' h = elim (Stored-of_store j r c c' h) [
    | as_evidence won kept failed ↦ (
      (λ other. rw (kept, failed, lookup-put, other)),
      (λ _ same. rw (kept, failed, lookup-put, same)),
      (λ again. cc),
    )
    | as_error lost kept failed ↦
        ((λ other. rw (kept, failed, lookup-put, other)), (λ won same. cc), (λ again. cc))
    | nowhere lost kept failed ↦ (
      (λ other. rw (kept, failed)),
      (λ won same. absurd (lost won)),
      (λ again. rw (kept, failed)),
    )
  ]

  -- A completed read that is stored is given back under its key, and every other key gives back what
  -- it gave before.
  pub get-store :
      (k j : ToolCacheKey) (r : ToolResult A) (c c' : CaseToolCache A)
      → store j r c ≡ ok c'
      → r.execution_status ≡ ExecutionStatus.success
      → get k c' ≡ (if same_key j k then some r else get k c)
  get-store k j r c c' h won = elim (Bool-cases (same_key j k)) [
    | inl same ↦ rw same ((store_effects k j r c c' h).1 won same)
    | inr other ↦ rw other ((store_effects k j r c c' h).0 other)
  ]

  -- A read that failed but may be retried changes nothing that the cache gives back.
  pub get-store_retryable :
      (k j : ToolCacheKey) (r : ToolResult A) (c c' : CaseToolCache A)
      → store j r c ≡ ok c'
      → r.execution_status ≡ ExecutionStatus.retryable_error
      → get k c' ≡ get k c
  get-store_retryable k j r c c' h again = (store_effects k j r c c' h).2 again
