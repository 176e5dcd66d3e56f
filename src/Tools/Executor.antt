-- ===== src/Tools/Executor.antt =====
-- tools/service.py: `GovernedToolExecutor`, which authorizes, reuses, counts and dispatches one read.
pub mod Governed
pub mod Settled
pub mod Tally
pub mod Retries
pub mod Counts
use ecommerce_after_sales_ag.Common.{
  ℕ, String, Bool, true, false, not, ◌&&◌, ◌||◌, Option, none, some, List, [], ◌∷◌, all, contains,
  opt_eq, str_eq, if◌then◌else◌,
}
use ecommerce_after_sales_ag.Common.Enum.{◌is◌, value_of, of_value}
use ecommerce_after_sales_ag.Common.Json.{Json, Fields, str, end, field}
use ecommerce_after_sales_ag.Common.Result.{
  Result, ok, err, Error, authorization, budget_exceeded, value_error, or_raise, ◌>>=◌,
}
use ecommerce_after_sales_ag.Common.Time.{Timestamp}
use ecommerce_after_sales_ag.Domain.State.{IssueType, issue_type_enum}
use ecommerce_after_sales_ag.Policy.Authorization.{
  OrderOwnershipSource, AuthorizationGrant, authorize_order,
}
use ecommerce_after_sales_ag.Tools.Budget.{ToolBudget, record_actual_execution}
use ecommerce_after_sales_ag.Tools.Cache.{
  ToolCacheKey, CaseToolCache, get, store, record_actual_attempt, retry_exhausted,
}
use ecommerce_after_sales_ag.Tools.Contracts.{ToolResult, failed}

-- The values of the server that arguments written by the model cannot override.
pub record TrustedToolContext : Type 0 where
  pub customer_id : String
  pub conversation_id : String
  pub case_id : String
  pub run_id : String
  pub authorized_order_id : String
  pub canonical_issue_type : IssueType
  pub fixture_version : String
  pub fault_seed : String
  pub evaluated_at : Timestamp
  pub trace_id : String
  pub target_shipment_id : Option String

-- What the executor uses of its catalog and of Python's json and hashlib: the orders, the revision
-- of a source, the read methods by their names, the JSON text of arguments, and the query id and
-- result hash of a blocked call.
pub record ReadTools (A : Type 0) : Type 0 where
  pub orders : OrderOwnershipSource
  pub source_revision : String → String → String
  pub read : String → TrustedToolContext → String → Option IssueType → ℕ → Result (ToolResult A)
  pub normalize_tool_arguments : Fields → String
  pub blocked_query_id : TrustedToolContext → String → String
  pub blocked_hash : TrustedToolContext → String → String → String

pub record ToolState (A : Type 0) : Type 0 where
  pub cache : CaseToolCache A
  pub budget : ToolBudget

abbrev pub read_tool_names : List String
read_tool_names =
    "get_order_context" ∷ "get_logistics_timeline" ∷ "get_delivery_proof"
    ∷ "get_carrier_service_alerts" ∷ "search_after_sales_policy" ∷ "get_existing_logistics_tickets"
    ∷ []

abbrev pub issue_tools : List String
issue_tools = "search_after_sales_policy" ∷ "get_existing_logistics_tickets" ∷ []

-- _ISSUE_RESTRICTED_TOOLS.get
unfoldable pub required_issue : String → Option IssueType
required_issue tool_name =
    if str_eq tool_name "get_delivery_proof"
    then some IssueType.signed_not_received
    else if str_eq tool_name "get_carrier_service_alerts"
    then some IssueType.stalled_tracking
    else none

-- the keys of a dictionary, and `d.get(key)`
unfoldable pub keys_of : Fields → List String
keys_of end = []
keys_of (field k v fs) = k ∷ keys_of fs

unfoldable pub argument : String → Fields → Option Json
argument key end = none
argument key (field k v fs) = let rest = argument key fs in if str_eq k key then some v else rest

-- `value == text`, for a value that may be of any type or missing
abbrev pub is_text : Option Json → String → Bool
is_text (some (str s)) text = str_eq s text
is_text _ text = false

-- `str(value)` of an argument that has been compared with a text
abbrev pub text_of : Option Json → String
text_of (some (str s)) = s
text_of _ = ""

-- IssueType(text)
unfoldable pub parse_issue : Option Json → Result IssueType
parse_issue value = or_raise (of_value (text_of value)) (value_error "not a valid IssueType")

-- set(a) == set(b)
abbrev pub same_set : List String → List String → Bool
same_set a b = all (λ x. contains x b) a && all (λ x. contains x a) b

abbrev pub wrong_issue : Option IssueType → IssueType → Bool
wrong_issue none issue = false
wrong_issue (some required) issue = not (issue is required)

unfoldable pub validate_arguments : TrustedToolContext → String → Fields → Option String
validate_arguments trusted tool_name arguments =
    if not (contains tool_name read_tool_names)
    then some "TOOL_NOT_ALLOWED"
    else if not (
        same_set (keys_of arguments) (
          if contains tool_name issue_tools
          then "order_id" ∷ "issue_type" ∷ []
          else "order_id" ∷ []))
    then some "INVALID_TOOL_ARGUMENTS"
    else if not (is_text (argument "order_id" arguments) trusted.authorized_order_id)
    then some "TOOL_SCOPE_MISMATCH"
    else if wrong_issue (required_issue tool_name) trusted.canonical_issue_type
    then some "TOOL_NOT_RELEVANT_TO_ISSUE"
    else if contains tool_name issue_tools
        && not (is_text (argument "issue_type" arguments) (value_of trusted.canonical_issue_type))
    then some "TOOL_SCOPE_MISMATCH"
    else none

-- What is known before the source is read: an answer, which leaves the state alone, or the key and
-- the number of the attempt, with the state that has counted it.
pub data Prepared (A : Type 0) : Type 0 where
  answered : Result (ToolResult A) → Prepared A
  reading : ToolCacheKey → ℕ → ToolState A → Prepared A

module _ {A : Type 0} (tools : ReadTools A) (trusted : TrustedToolContext) where
  unfoldable pub blocked_result : String → String → Result (ToolResult A)
  blocked_result tool_name error_code =
      let safe_name = if contains tool_name read_tool_names then tool_name else "governed_tool" in
      failed false safe_name (tools.blocked_query_id trusted safe_name) trusted.evaluated_at
        error_code none (tools.blocked_hash trusted safe_name error_code)

  unfoldable pub cache_key : String → Fields → ToolCacheKey
  cache_key tool_name arguments = record {
    case_id = trusted.case_id;
    tool_name = tool_name;
    normalized_args = tools.normalize_tool_arguments arguments;
    source_revision = tools.source_revision trusted.authorized_order_id tool_name;
  }

  unfoldable pub count_attempt :
      String → ToolCacheKey → ToolState A → Result ToolBudget → Prepared A
  count_attempt tool_name key s (ok budget) =
      let counted = record_actual_attempt key s.cache in
      reading key counted.0 (record { cache = counted.1; budget = budget })
  count_attempt tool_name key s (err (budget_exceeded code)) =
      answered (blocked_result tool_name code)
  count_attempt tool_name key s (err e) = answered (err e)

  unfoldable pub look_up : String → ToolCacheKey → ToolState A → Option (ToolResult A) → Prepared A
  look_up tool_name key s (some cached) = answered (ok cached)
  look_up tool_name key s none =
      if retry_exhausted key s.cache
      then answered (blocked_result tool_name "TOOL_RETRY_EXHAUSTED")
      else count_attempt tool_name key s (record_actual_execution s.budget)

  unfoldable pub authorized : String → Fields → ToolState A → Result AuthorizationGrant → Prepared A
  authorized tool_name arguments s (err authorization) =
      answered (blocked_result tool_name "ORDER_NOT_FOUND_OR_FORBIDDEN")
  authorized tool_name arguments s (err e) = answered (err e)
  authorized tool_name arguments s (ok grant) =
      let key : ToolCacheKey = record {
        case_id = trusted.case_id;
        tool_name = tool_name;
        normalized_args = tools.normalize_tool_arguments arguments;
        source_revision = tools.source_revision grant.order_id tool_name;
      } in
      look_up tool_name key s (get key s.cache)

  unfoldable pub checked : String → Fields → ToolState A → Option String → Prepared A
  checked tool_name arguments s (some error_code) = answered (blocked_result tool_name error_code)
  checked tool_name arguments s none =
      authorized tool_name arguments s
        (authorize_order trusted.customer_id trusted.authorized_order_id tools.orders)

  -- the body of execute_result up to the read; the order id that has passed the checks is the
  -- authorized one
  unfoldable pub prepare : String → Fields → ToolState A → Prepared A
  prepare tool_name arguments s =
      checked tool_name arguments s (validate_arguments trusted tool_name arguments)

  -- _dispatch
  unfoldable pub dispatch : String → Fields → ℕ → Result (ToolResult A)
  dispatch tool_name arguments attempt =
      if contains tool_name issue_tools
      then (do
        issue ← parse_issue (argument "issue_type" arguments)
        tools.read tool_name trusted (text_of (argument "order_id" arguments)) (some issue) attempt)
      else tools.read tool_name trusted (text_of (argument "order_id" arguments)) none attempt

  abbrev pub stored :
      ToolState A → ToolResult A → Result (CaseToolCache A) → Result (ToolResult A) × ToolState A
  stored s r (err e) = (err e, s)
  stored s r (ok cache) = (ok r, record s { cache = cache })

  unfoldable pub finish :
      String
      → ToolCacheKey
      → ToolState A
      → Result (ToolResult A)
      → Result (ToolResult A) × ToolState A
  finish tool_name key s (err authorization) =
      (blocked_result tool_name "ORDER_NOT_FOUND_OR_FORBIDDEN", s)
  finish tool_name key s (err e) = (err e, s)
  finish tool_name key s (ok r) = stored s r (store key r s.cache)

  unfoldable pub complete :
      String → Fields → ToolState A → Prepared A → Result (ToolResult A) × ToolState A
  complete tool_name arguments s (answered r) = (r, s)
  complete tool_name arguments s (reading key attempt s') =
      finish tool_name key s' (dispatch tool_name arguments attempt)

  unfoldable pub execute_result :
      String → Fields → ToolState A → Result (ToolResult A) × ToolState A
  execute_result tool_name arguments s =
      complete tool_name arguments s (prepare tool_name arguments s)

  unfoldable pub retry_exhausted_for : String → Fields → ToolState A → Bool
  retry_exhausted_for tool_name arguments s =
      contains tool_name read_tool_names
      && is_text (argument "order_id" arguments) trusted.authorized_order_id
      && retry_exhausted (cache_key tool_name arguments) s.cache
