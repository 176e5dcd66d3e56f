-- ===== src/Tools/Executor/Counts.antt =====
-- tools/service.py: every read is counted against the budget.
use ecommerce_after_sales_ag.Common.{ℕ, ◌+◌, ◌≤◌, String, List, [], ◌∷◌, ◌≡◌, refl, ap, arith}
use ecommerce_after_sales_ag.Common.Json.{Fields}
use ecommerce_after_sales_ag.Common.Result.{Result, authorization, ok, err}
use ecommerce_after_sales_ag.Domain.State.{issue_type_enum}
use ecommerce_after_sales_ag.Tools.Contracts.{ToolResult}
use ecommerce_after_sales_ag.Tools.Cache.{ToolCacheKey, CaseToolCache, store}
use ecommerce_after_sales_ag.Tools.Executor.{
  TrustedToolContext, ReadTools, ToolState, Prepared, answered, reading, prepare, dispatch, stored,
  finish, complete, execute_result,
}
use ecommerce_after_sales_ag.Tools.Executor.Governed.{reads_are_governed}
use ecommerce_after_sales_ag.Tools.Executor.Tally.{execute_all, is_reading}

module _ {A : Type 0} (tools : ReadTools A) (trusted : TrustedToolContext) where
  -- the reads among the calls
  unfoldable pub reads_among : List (String × Fields) → ToolState A → ℕ
  reads_among [] s = 0
  reads_among (c ∷ cs) s =
      is_reading tools trusted (prepare tools trusted c.0 c.1 s)
      + reads_among cs (execute_result tools trusted c.0 c.1 s).1

  finish-budget :
      (name : String) (key : ToolCacheKey) (s : ToolState A) (r : Result (ToolResult A))
      → (finish tools trusted name key s r).1.budget ≡ s.budget
  unfolding finish
  finish-budget name key s (err authorization) = refl
  finish-budget name key s (err e) = refl
  finish-budget name key s (ok r) = stored_budget s r (store key r s.cache)
    where
      stored_budget :
          (s : ToolState A) (r : ToolResult A) (c : Result (CaseToolCache A))
          → (stored tools trusted s r c).1.budget ≡ s.budget
      stored_budget s r (err e) = refl
      stored_budget s r (ok c) = refl

  complete-budget :
      (name : String) (arguments : Fields) (s : ToolState A) (p : Prepared A)
      → prepare tools trusted name arguments s ≡ p
      → s.budget.actual_read_tool_executions ≤ 6
      → ((complete tools trusted name arguments s p).1.budget.actual_read_tool_executions
          ≡ s.budget.actual_read_tool_executions + is_reading tools trusted p)
        × (s.budget.actual_read_tool_executions + is_reading tools trusted p ≤ 6)
  unfolding complete
  complete-budget name arguments s (answered r) e l = (omega arith, omega (arith, l))
  complete-budget name arguments s (reading key n s') e l =
      let (scope, owner, counted, named, reads) =
        reads_are_governed tools trusted name arguments s key n s' e in
      let same =
        ap (λ b. b.actual_read_tool_executions)
          (finish-budget name key s' (dispatch tools trusted name arguments n)) in
      (omega (arith, same, counted.counted), omega (arith, counted.affordable))

  -- Along any sequence of calls each dispatched read is counted by the budget, which starts within its
  -- bound: all reads together never pass six.
  pub reads_are_counted :
      (cs : List (String × Fields)) (s : ToolState A)
      → s.budget.actual_read_tool_executions ≤ 6
      → ((execute_all tools trusted cs s).budget.actual_read_tool_executions
          ≡ s.budget.actual_read_tool_executions + reads_among cs s)
        × (s.budget.actual_read_tool_executions + reads_among cs s ≤ 6)
  unfolding execute_all reads_among execute_result
  reads_are_counted [] s l = (omega arith, omega (arith, l))
  reads_are_counted (c ∷ cs) s l =
      let p = prepare tools trusted c.0 c.1 s in
      let (grown, bound) = complete-budget c.0 c.1 s p refl l in
      let (rest, within) =
        reads_are_counted cs (complete tools trusted c.0 c.1 s p).1 (omega (arith, grown, bound)) in
      (omega (arith, rest, grown), omega (arith, within, grown))
