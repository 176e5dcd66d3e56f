-- ===== src/Tools/Budget/Laws.antt =====
-- tools/budget.py: the counters along any sequence of calls.
use ecommerce_after_sales_ag.Common.{ℕ, ◌≤◌, ◌<◌, ◌≡◌, ◌↔◌, arith, true, List, [], ◌∷◌}
use ecommerce_after_sales_ag.Common.Result.{Result, ok, err, is_ok}
use ecommerce_after_sales_ag.Tools.Budget.{
  ToolBudget, new_budget, record_planning_turn, record_actual_execution, reset_run,
}

-- The calls that a budget receives.
pub data Call : Type 0 where
  plan read new_run : Call

-- what a caller is left with when the call raises: the unchanged budget
abbrev after : Result ToolBudget → ToolBudget → ToolBudget
after (ok b) old = b
after (err e) old = old

unfoldable pub call : Call → ToolBudget → ToolBudget
call plan b = after (record_planning_turn b) b
call read b = after (record_actual_execution b) b
call new_run b = reset_run b

unfoldable pub calls : List Call → ToolBudget → ToolBudget
calls [] b = b
calls (c ∷ cs) b = calls cs (call c b)

pub record InBudget (b : ToolBudget) : Type 0 where
  pub case_turns : b.case_planning_turns ≤ 16
  pub run_turns : b.run_planning_turns ≤ 8
  pub reads : b.actual_read_tool_executions ≤ 6

new_budget-InBudget : (c r n : ℕ) (b : ToolBudget) → new_budget c r n ≡ ok b → InBudget b
unfolding new_budget
new_budget-InBudget c r n b h = ground arith

call-InBudget : (c : Call) (b : ToolBudget) → InBudget b → InBudget (call c b)
unfolding call record_planning_turn record_actual_execution reset_run
call-InBudget plan b h = ground arith
call-InBudget read b h = ground arith
call-InBudget new_run b h = ground arith

calls-InBudget : (cs : List Call) (b : ToolBudget) → InBudget b → InBudget (calls cs b)
unfolding calls
calls-InBudget [] b h = h
calls-InBudget (c ∷ cs) b h = calls-InBudget cs (call c b) (call-InBudget c b h)

-- From a budget that the constructor accepted, no sequence of calls, refused ones included, passes
-- 16 planning turns of the case, 8 of the run, or 6 executed reads.
pub budget_bounded :
    (c r n : ℕ) (b : ToolBudget) (cs : List Call) → new_budget c r n ≡ ok b → InBudget (calls cs b)
budget_bounded c r n b cs h = calls-InBudget cs b (new_budget-InBudget c r n b h)

call-monotone :
    (c : Call) (b : ToolBudget)
    → (b.case_planning_turns ≤ (call c b).case_planning_turns)
      × (b.actual_read_tool_executions ≤ (call c b).actual_read_tool_executions)
unfolding call record_planning_turn record_actual_execution reset_run
call-monotone plan b = ground arith
call-monotone read b = ground arith
call-monotone new_run b = ground arith

-- No sequence of calls gives back a planning turn of the case or an executed read: a new run resets
-- the run's counter alone.
pub allowance_never_returns :
    (cs : List Call) (b : ToolBudget)
    → (b.case_planning_turns ≤ (calls cs b).case_planning_turns)
      × (b.actual_read_tool_executions ≤ (calls cs b).actual_read_tool_executions)
unfolding calls
allowance_never_returns [] b = omega arith
allowance_never_returns (c ∷ cs) b =
    omega (arith, call-monotone c b, allowance_never_returns cs (call c b))

-- Within its bounds a budget accepts a planning turn exactly while both counters have room, and a
-- read exactly while fewer than six were executed.
pub accepted_iff :
    (b : ToolBudget)
    → ((is_ok (record_planning_turn b) ≡ true)
        ↔ ((b.case_planning_turns < 16) × (b.run_planning_turns < 8)))
      × ((is_ok (record_actual_execution b) ≡ true) ↔ (b.actual_read_tool_executions < 6))
unfolding record_planning_turn record_actual_execution
accepted_iff b =
    (((λ h. ground arith), (λ h. ground arith)), ((λ h. ground arith), (λ h. ground arith)))
