-- ===== src/Tools/Budget.antt =====
-- tools/budget.py: the planning and read counters of one case and its active run.
pub mod Laws
use ecommerce_after_sales_ag.Common.{ℕ, ◌+◌, Bool, not, leb, List, [], ◌∷◌, if◌then◌else◌}
use ecommerce_after_sales_ag.Common.Result.{
  Result, ok, err, value_error, budget_exceeded, raise_if, ◌>>◌, ◌>>=◌,
}

pub record ToolBudget : Type 0 where
  pub case_planning_turns : ℕ
  pub run_planning_turns : ℕ
  pub actual_read_tool_executions : ℕ

abbrev pub max_case_planning_turns : ℕ
max_case_planning_turns = 16

abbrev pub max_run_planning_turns : ℕ
max_run_planning_turns = 8

abbrev pub max_actual_read_tool_executions : ℕ
max_actual_read_tool_executions = 6

-- ToolBudget.__init__; a number of the model is at least 0
unfoldable pub new_budget : ℕ → ℕ → ℕ → Result ToolBudget
new_budget case_turns run_turns reads = do
  raise_if (not (leb case_turns max_case_planning_turns))
      (value_error "invalid initial Case planning-turn count")
  raise_if (not (leb run_turns max_run_planning_turns))
      (value_error "invalid initial Run planning-turn count")
  raise_if (not (leb reads max_actual_read_tool_executions))
      (value_error "invalid initial read-tool execution count")
  ok (record {
    case_planning_turns = case_turns;
    run_planning_turns = run_turns;
    actual_read_tool_executions = reads;
  })

-- The counters after a call that returns; a call that raises leaves them alone.
unfoldable pub record_planning_turn : ToolBudget → Result ToolBudget
record_planning_turn b = do
  raise_if (leb max_case_planning_turns b.case_planning_turns)
      (budget_exceeded "CASE_PLANNING_TURN_BUDGET_EXCEEDED")
  raise_if (leb max_run_planning_turns b.run_planning_turns)
      (budget_exceeded "RUN_PLANNING_TURN_BUDGET_EXCEEDED")
  ok (record b {
    case_planning_turns = b.case_planning_turns + 1;
    run_planning_turns = b.run_planning_turns + 1;
  })

unfoldable pub record_actual_execution : ToolBudget → Result ToolBudget
record_actual_execution b = do
  raise_if (leb max_actual_read_tool_executions b.actual_read_tool_executions)
      (budget_exceeded "READ_TOOL_EXECUTION_BUDGET_EXCEEDED")
  ok (record b { actual_read_tool_executions = b.actual_read_tool_executions + 1 })

unfoldable pub reset_run : ToolBudget → ToolBudget
reset_run b = record b { run_planning_turns = 0 }

pub record ToolBudgetSnapshot : Type 0 where
  pub case_planning_turns : ℕ
  pub run_planning_turns : ℕ
  pub actual_read_tool_executions : ℕ

unfoldable pub snapshot : ToolBudget → ToolBudgetSnapshot
snapshot b = record {
  case_planning_turns = b.case_planning_turns;
  run_planning_turns = b.run_planning_turns;
  actual_read_tool_executions = b.actual_read_tool_executions;
}
