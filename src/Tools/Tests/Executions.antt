-- ===== src/Tools/Tests/Executions.antt =====
-- Three calls for one query of a source that fails for now.
use ecommerce_after_sales_ag.Common.{
  ℕ, ◌+◌, ◌≤◌, String, none, some, List, [], ◌∷◌, ◌≡◌, refl, arith, str_eq, if◌then◌else◌,
}
use ecommerce_after_sales_ag.Common.Json.{Fields, end, field, str}
use ecommerce_after_sales_ag.Common.Result.{ok, ◌>>=◌}
use ecommerce_after_sales_ag.Common.Text.{sample_digest}
use ecommerce_after_sales_ag.Common.Time.{aware}
use ecommerce_after_sales_ag.Domain.State.{IssueType}
use ecommerce_after_sales_ag.Policy.Authorization.{OrderOwnershipSource, Owns, authorize_order}
use ecommerce_after_sales_ag.Tools.Budget.{ToolBudget, record_actual_execution}
use ecommerce_after_sales_ag.Tools.Cache.{
  ToolCacheKey, lookup, put, has, new_cache, get, record_actual_attempt, retry_exhausted,
}
use ecommerce_after_sales_ag.Tools.Executor.{
  TrustedToolContext, ReadTools, ToolState, validate_arguments, required_issue, keys_of, argument,
  count_attempt, look_up, authorized, checked, prepare, dispatch,
}
use ecommerce_after_sales_ag.Tools.Executor.Governed.{
  InScope, query_of, IsCounted, reads_are_governed,
}
use ecommerce_after_sales_ag.Tools.Executor.Tally.{execute_all}
use ecommerce_after_sales_ag.Tools.Executor.Counts.{reads_among, reads_are_counted}
use ecommerce_after_sales_ag.Tools.Tests.Reads.{timed_out}

-- one order, of one customer
abbrev orders : OrderOwnershipSource
orders = record {
  get_order_for_authorization = λ id.
      if str_eq id "ord_1"
      then some (record { order_id = id; customer_id = "cust_1"; source_revision = "rev_1" })
      else none;
}

-- a catalog that authorizes each read again, and raises for an order that is not the customer's
abbrev tools : ReadTools ℕ
tools = record {
  orders = orders;
  source_revision = λ order name. "rev_1";
  read = λ name context order issue attempt.
      authorize_order context.customer_id order orders >>= λ grant. ok timed_out;
  normalize_tool_arguments = λ arguments. "{\"order_id\":\"ord_1\"}";
  blocked_query_id = λ context name. "qry_blocked";
  blocked_hash = λ context name code. sample_digest;
}

abbrev trusted : TrustedToolContext
trusted = record {
  customer_id = "cust_1";
  conversation_id = "conv_1";
  case_id = "case_1";
  run_id = "run_1";
  authorized_order_id = "ord_1";
  canonical_issue_type = IssueType.stalled_tracking;
  fixture_version = "fixture-v1";
  fault_seed = "seed";
  evaluated_at = aware 1000;
  trace_id = "trace_1";
  target_shipment_id = none;
}

abbrev arguments : Fields
arguments = field "order_id" (str "ord_1") end

abbrev three_calls : List (String × Fields)
three_calls =
    ("get_order_context", arguments)
    ∷ ("get_order_context", arguments)
    ∷ ("get_order_context", arguments)
    ∷ []

abbrev fresh_budget : ToolBudget
fresh_budget = record {
  case_planning_turns = 0;
  run_planning_turns = 0;
  actual_read_tool_executions = 0;
}

abbrev fresh : ToolState ℕ
fresh = record { cache = new_cache; budget = fresh_budget }

abbrev key : ToolCacheKey
key = record {
  case_id = "case_1";
  tool_name = "get_order_context";
  normalized_args = "{\"order_id\":\"ord_1\"}";
  source_revision = "rev_1";
}

abbrev after_one : ToolState ℕ
after_one = record {
  cache = (record_actual_attempt key new_cache).1;
  budget = record fresh_budget { actual_read_tool_executions = 1 };
}

reads_are_governed_example :
    InScope trusted "get_order_context" arguments
    × Owns "cust_1" "ord_1" tools.orders
    × IsCounted tools trusted fresh key 1 after_one
    × (key ≡ query_of tools trusted "get_order_context" "{\"order_id\":\"ord_1\"}")
    × (dispatch tools trusted "get_order_context" arguments 1
        ≡ tools.read "get_order_context" trusted "ord_1" none 1)
unfolding prepare checked authorized look_up count_attempt validate_arguments required_issue keys_of
    argument authorize_order record_actual_execution get lookup new_cache retry_exhausted has
    record_actual_attempt put
reads_are_governed_example =
    reads_are_governed tools trusted "get_order_context" arguments fresh key 1 after_one refl

abbrev order_text : String
order_text = "{\"order_id\":\"ord_1\"}"

reads_are_counted_example :
    ((execute_all tools trusted three_calls fresh).budget.actual_read_tool_executions
      ≡ 0 + reads_among tools trusted three_calls fresh)
    × (0 + reads_among tools trusted three_calls fresh ≤ 6)
reads_are_counted_example = reads_are_counted tools trusted three_calls fresh (omega arith)
