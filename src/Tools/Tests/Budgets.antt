-- ===== src/Tools/Tests/Budgets.antt =====
-- A run that asks for more turns and reads than it has.
use ecommerce_after_sales_ag.Common.{List, [], ◌∷◌, refl}
use ecommerce_after_sales_ag.Tools.Budget.{ToolBudget, new_budget}
use ecommerce_after_sales_ag.Tools.Budget.Laws.{
  Call, plan, read, new_run, calls, InBudget, budget_bounded,
}

-- one turn short of each bound
abbrev nearly_spent : ToolBudget
nearly_spent = record {
  case_planning_turns = 15;
  run_planning_turns = 7;
  actual_read_tool_executions = 5;
}

abbrev greedy : List Call
greedy = plan ∷ read ∷ read ∷ plan ∷ new_run ∷ plan ∷ []

budget_bounded_example : InBudget (calls greedy nearly_spent)
unfolding new_budget
budget_bounded_example = budget_bounded 15 7 5 nearly_spent greedy refl
