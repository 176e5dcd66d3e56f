-- ===== src/Tools/Executor/Governed.antt =====
-- tools/service.py: when the source behind a read tool is asked, and how often.
use ecommerce_after_sales_ag.Common.{
  ℕ, ◌+◌, ◌<◌, String, Bool, true, false, not, ◌&&◌, Option, none, some, ◌≡◌, subst, refl, sym, ap,
  ◌∙◌, inl, inr, ◌⊎◌, arith, contains, if◌then◌else◌, Bool-cases, Option-cases, eq_iff,
  not-eq-false, true-ne-false,
}
use ecommerce_after_sales_ag.Common.Enum.{value_of}
use ecommerce_after_sales_ag.Common.Json.{Json, Fields, str}
use ecommerce_after_sales_ag.Common.Result.{Result, ok, err, authorization, budget_exceeded, is_ok}
use ecommerce_after_sales_ag.Domain.State.{IssueType, issue_type_enum}
use ecommerce_after_sales_ag.Policy.Authorization.{
  OrderOwnershipRecord, AuthorizationGrant, authorize_order, authorize_order-eq-ok,
  authorize_order_iff, Owns,
}
use ecommerce_after_sales_ag.Tools.Budget.{ToolBudget, record_actual_execution}
use ecommerce_after_sales_ag.Tools.Cache.{
  ToolCacheKey, get, record_actual_attempt, retry_exhausted, actual_attempts,
}
use ecommerce_after_sales_ag.Tools.Contracts.{ToolResult}
use ecommerce_after_sales_ag.Tools.Executor.{
  TrustedToolContext, ReadTools, ToolState, read_tool_names, issue_tools, required_issue, argument,
  is_text, wrong_issue, validate_arguments, reading, count_attempt, look_up, authorized, checked,
  prepare, dispatch, parse_issue,
}

-- The arguments name a read tool, the order of the case, and the case's issue where the tool takes one;
-- a tool for one issue is asked about this issue only.
pub record InScope (trusted : TrustedToolContext) (tool_name : String) (arguments : Fields)
    : Type 0 where
  pub known_tool : contains tool_name read_tool_names ≡ true
  pub own_order : argument "order_id" arguments ≡ some (str trusted.authorized_order_id)
  pub relevant : wrong_issue (required_issue tool_name) trusted.canonical_issue_type ≡ false
  pub own_issue :
      (contains tool_name issue_tools ≡ false)
      ⊎ (argument "issue_type" arguments ≡ some (str (value_of trusted.canonical_issue_type)))

is_text-eq-true : (o : Option Json) (s : String) → is_text o s ≡ true → o ≡ some (str s)
is_text-eq-true (some (str t)) s h = ap (λ x. some (str x)) ((eq_iff t s).0 h)
is_text-eq-true none s h = cc
is_text-eq-true (some j) s h = cc

passed :
    (refused : Bool) (code : String) (rest : Option String)
    → (if refused then some code else rest) ≡ none
    → (refused ≡ false) × (rest ≡ none)
passed true code rest h = cc
passed false code rest h = (refl, h)

not_refused : (a b : Bool) → (a && not b) ≡ false → (a ≡ false) ⊎ (b ≡ true)
not_refused true b h = inr (not-eq-false b h)
not_refused false b h = inl refl

validate_arguments-InScope :
    (trusted : TrustedToolContext) (tool_name : String) (arguments : Fields)
    → validate_arguments trusted tool_name arguments ≡ none
    → InScope trusted tool_name arguments
unfolding validate_arguments
validate_arguments-InScope trusted tool_name arguments h =
    let (a, h₁) = passed (not (contains tool_name read_tool_names)) _ _ h in
    let (b, h₂) = passed _ _ _ h₁ in
    let (c, h₃) =
      passed (not (is_text (argument "order_id" arguments) trusted.authorized_order_id)) _ _ h₂ in
    let (d, h₄) = passed _ _ _ h₃ in
    let (e, h₅) = passed _ _ _ h₄ in
    record {
      known_tool = not-eq-false _ a;
      own_order =
          is_text-eq-true (argument "order_id" arguments) trusted.authorized_order_id
            (not-eq-false _ c);
      relevant = d;
      own_issue = elim (not_refused (contains tool_name issue_tools) _ e) [
        | inl k ↦ inl k
        | inr k ↦ inr (is_text-eq-true (argument "issue_type" arguments) _ k)
      ];
    }

parse_issue-value : (i : IssueType) → parse_issue (some (str (value_of i))) ≡ ok i
unfolding parse_issue
parse_issue-value IssueType.signed_not_received = refl
parse_issue-value IssueType.stalled_tracking = refl

record_actual_execution-ok :
    (b b' : ToolBudget)
    → record_actual_execution b ≡ ok b'
    → (b.actual_read_tool_executions < 6)
      × (b'.actual_read_tool_executions ≡ b.actual_read_tool_executions + 1)
unfolding record_actual_execution
record_actual_execution-ok b b' h = ground arith

abbrev pub revision_of : {A : Type 0} → ReadTools A → Option OrderOwnershipRecord → String → String
revision_of tools none tool_name = ""
revision_of tools (some r) tool_name = tools.source_revision r.order_id tool_name

module _ {A : Type 0} (tools : ReadTools A) (trusted : TrustedToolContext) where
  -- What tells one query of a case from another: the tool, the text of its arguments, and the source's
  -- revision of the order that is on record.
  abbrev pub query_of : String → String → ToolCacheKey
  query_of tool_name text = record {
    case_id = trusted.case_id;
    tool_name = tool_name;
    normalized_args = text;
    source_revision =
        revision_of tools (tools.orders.get_order_for_authorization trusted.authorized_order_id)
          tool_name;
  }

  -- the issue that is handed to a tool that takes one
  abbrev pub issue_for : String → Option IssueType
  issue_for tool_name =
      if contains tool_name issue_tools then some trusted.canonical_issue_type else none

  dispatch-InScope :
      (name : String) (arguments : Fields) (n : ℕ)
      → InScope trusted name arguments
      → dispatch tools trusted name arguments n
        ≡ tools.read name trusted trusted.authorized_order_id (issue_for name) n
  unfolding dispatch
  dispatch-InScope name arguments n scope = elim (Bool-cases (contains name issue_tools)) [
    | inr k ↦ rw (k, scope.own_order) refl
    | inl k ↦ elim scope.own_issue [
      | inl k' ↦ absurd (true-ne-false (sym k ∙ k'))
      | inr e ↦ rw (k, scope.own_order, e, parse_issue-value trusted.canonical_issue_type) refl
    ]
  ]

  -- What holds when a read is about to be dispatched.
  pub record IsCounted (s : ToolState A) (key : ToolCacheKey) (n : ℕ) (s' : ToolState A)
      : Type 0 where
    pub unknown : get key s.cache ≡ none
    pub not_exhausted : retry_exhausted key s.cache ≡ false
    pub affordable : s.budget.actual_read_tool_executions < 6
    pub counted : s'.budget.actual_read_tool_executions ≡ s.budget.actual_read_tool_executions + 1
    pub attempt : n ≡ actual_attempts key s.cache + 1
    pub kept : s'.cache ≡ (record_actual_attempt key s.cache).1

  reading-injective :
      (j k : ToolCacheKey) (m n : ℕ) (s t : ToolState A)
      → reading j m s ≡ reading k n t
      → (j ≡ k) × (m ≡ n) × (s ≡ t)
  reading-injective j k m n s t h = (cc, cc, cc)

  count_attempt-IsCounted :
      (tool_name : String) (s : ToolState A) (k key : ToolCacheKey) (n : ℕ) (s' : ToolState A)
      (b : Result ToolBudget)
      → record_actual_execution s.budget ≡ b
      → get k s.cache ≡ none
      → retry_exhausted k s.cache ≡ false
      → count_attempt tools trusted tool_name k s b ≡ reading key n s'
      → (k ≡ key) × IsCounted s key n s'
  unfolding count_attempt actual_attempts record_actual_attempt
  count_attempt-IsCounted tool_name s k key n s' (err (budget_exceeded c)) h u x r = cc
  count_attempt-IsCounted tool_name s k key n s' (err e) h u x r = cc
  count_attempt-IsCounted tool_name s k key n s' (ok b) h u x r =
      let (same, number, left) = reading-injective k key _ n _ s' r in
      let (low, more) = record_actual_execution-ok s.budget b h in
      (
        same,
        subst (λ k'. IsCounted s k' n s') same
            (record {
              unknown = u;
              not_exhausted = x;
              affordable = low;
              counted = ap (λ t. t.budget.actual_read_tool_executions) (sym left) ∙ more;
              attempt = sym number;
              kept = ap (λ t. t.cache) (sym left);
            }),
      )

  look_up-IsCounted :
      (tool_name : String) (s : ToolState A) (k key : ToolCacheKey) (n : ℕ) (s' : ToolState A)
      (found : Option (ToolResult A))
      → get k s.cache ≡ found
      → look_up tools trusted tool_name k s found ≡ reading key n s'
      → (k ≡ key) × IsCounted s key n s'
  unfolding look_up
  look_up-IsCounted tool_name s k key n s' (some r) g h = cc
  look_up-IsCounted tool_name s k key n s' none g h =
      elim (Bool-cases (retry_exhausted k s.cache)) [
        | inl e ↦ absurd (let i = rw e at h in cc)
        | inr e ↦
            count_attempt-IsCounted tool_name s k key n s' (record_actual_execution s.budget) refl g
              e (rw e at h)
      ]

  authorized-IsCounted :
      (tool_name : String) (arguments : Fields) (s : ToolState A) (key : ToolCacheKey) (n : ℕ)
      (s' : ToolState A) (grant : Result AuthorizationGrant)
      → authorize_order trusted.customer_id trusted.authorized_order_id tools.orders ≡ grant
      → authorized tools trusted tool_name arguments s grant ≡ reading key n s'
      → (is_ok grant ≡ true)
        × (key ≡ query_of tool_name (tools.normalize_tool_arguments arguments))
        × IsCounted s key n s'
  unfolding authorized
  authorized-IsCounted tool_name arguments s key n s' (err authorization) g h = cc
  authorized-IsCounted tool_name arguments s key n s' (err e) g h = cc
  authorized-IsCounted tool_name arguments s key n s' (ok grant) g h =
      let (r, found, named) =
        authorize_order-eq-ok trusted.customer_id trusted.authorized_order_id tools.orders grant
          g in
      let (same, counted) = look_up-IsCounted tool_name s _ key n s' _ refl h in
      let revision : tools.source_revision grant.order_id tool_name
          ≡ revision_of tools (tools.orders.get_order_for_authorization trusted.authorized_order_id)
              tool_name =
        ap (λ o. tools.source_revision o tool_name) named
        ∙ ap (λ o. revision_of tools o tool_name) (sym found) in
      (
        refl,
        sym same ∙ (λ i. record {
          case_id = trusted.case_id;
          tool_name = tool_name;
          normalized_args = tools.normalize_tool_arguments arguments;
          source_revision = revision i;
        }),
        counted,
      )

  -- A source is read only for arguments in the scope of the case, on an order that the customer owns.
  -- The query is named by the case, the tool, the text of these arguments and the source's revision of
  -- the order on record; the cache does not answer this query and it has a retry left; the read is
  -- counted against a budget of six and the query's attempt recorded first. What is read is this tool's
  -- source, of the order of the case, with the case's issue where the tool takes one.
  pub reads_are_governed :
      (tool_name : String) (arguments : Fields) (s : ToolState A) (key : ToolCacheKey) (n : ℕ)
      (s' : ToolState A)
      → prepare tools trusted tool_name arguments s ≡ reading key n s'
      → InScope trusted tool_name arguments
        × Owns trusted.customer_id trusted.authorized_order_id tools.orders
        × IsCounted s key n s'
        × (key ≡ query_of tool_name (tools.normalize_tool_arguments arguments))
        × (dispatch tools trusted tool_name arguments n
            ≡ tools.read tool_name trusted trusted.authorized_order_id (issue_for tool_name) n)
  unfolding prepare checked
  reads_are_governed tool_name arguments s key n s' h =
      elim (Option-cases (validate_arguments trusted tool_name arguments)) [
        | inl e ↦
            let (granted, named, counted) =
              authorized-IsCounted tool_name arguments s key n s' _ refl (rw e at h) in
            let scope = validate_arguments-InScope trusted tool_name arguments e in
            (
              scope,
              (authorize_order_iff trusted.customer_id trusted.authorized_order_id tools.orders).0.0
                  granted,
              counted,
              named,
              dispatch-InScope tool_name arguments n scope,
            )
        | inr (code, e) ↦ absurd (let i = rw e at h in cc)
      ]
