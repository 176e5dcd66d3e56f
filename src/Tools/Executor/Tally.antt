-- ===== src/Tools/Executor/Tally.antt =====
-- tools/service.py: how often a sequence of calls reads the source behind one query.
use ecommerce_after_sales_ag.Common.{
  ℕ, ◌+◌, String, true, List, [], ◌∷◌, ◌≡◌, refl, ap, ◌∙◌, inl, inr, arith, contains, Bool-cases,
  Bool, ◌&&◌, Bool-ext, and_of_true, and-eq-true, str_eq, eq_iff, if◌then◌else◌,
}
use ecommerce_after_sales_ag.Common.Json.{Fields}
use ecommerce_after_sales_ag.Common.Result.{ok}
use ecommerce_after_sales_ag.Domain.State.{issue_type_enum}
use ecommerce_after_sales_ag.Tools.Contracts.{ToolResult, validate_envelope}
use ecommerce_after_sales_ag.Tools.Cache.{same_key, actual_attempts}
use ecommerce_after_sales_ag.Tools.Cache.Entries.{same_key_iff}
use ecommerce_after_sales_ag.Tools.Cache.History.{attempts-record_actual_attempt}
use ecommerce_after_sales_ag.Tools.Executor.{
  TrustedToolContext, ReadTools, ToolState, read_tool_names, Prepared, answered, reading, prepare,
  finish, complete, execute_result,
}
use ecommerce_after_sales_ag.Tools.Executor.Governed.{issue_for, query_of, reads_are_governed}
use ecommerce_after_sales_ag.Policy.Authorization.{Owns}
use ecommerce_after_sales_ag.Tools.Executor.Settled.{store_accepts, store-actual_attempts}

module _ {A : Type 0} where
  -- Every read tool that is asked about an order of the customer's, the case's, with the case's issue
  -- where it takes one, returns a result that its validator has passed. What the catalog does for
  -- another order, customer or tool, where it raises, is left open.
  abbrev pub IsReliable : ReadTools A → TrustedToolContext → Type 0
  IsReliable tools trusted =
      (name : String) (attempt : ℕ)
      → contains name read_tool_names ≡ true
      → Owns trusted.customer_id trusted.authorized_order_id tools.orders
      → (r : ToolResult A) × (tools.read name trusted trusted.authorized_order_id
            (issue_for tools trusted name) attempt
          ≡ ok r)
        × (validate_envelope r ≡ ok r)

module _ {A : Type 0} (tools : ReadTools A) (trusted : TrustedToolContext) where
  unfoldable pub execute_all : List (String × Fields) → ToolState A → ToolState A
  execute_all [] s = s
  execute_all (c ∷ cs) s = execute_all cs (execute_result tools trusted c.0 c.1 s).1

  abbrev pub is_reading : Prepared A → ℕ
  is_reading (answered r) = 0
  is_reading (reading key n s) = 1

  -- whether a call asks a tool with arguments of this text
  abbrev pub asks : String → String → String × Fields → Bool
  asks name text c = str_eq c.0 name && str_eq (tools.normalize_tool_arguments c.1) text

  -- how often the calls read the source behind a tool with arguments of this text
  unfoldable pub reads_for : String → String → List (String × Fields) → ToolState A → ℕ
  reads_for name text [] s = 0
  reads_for name text (c ∷ cs) s =
      (if asks name text c then is_reading (prepare tools trusted c.0 c.1 s) else 0)
      + reads_for name text cs (execute_result tools trusted c.0 c.1 s).1

  same_key-asks :
      (name text : String) (c : String × Fields)
      → same_key
          (query_of tools trusted c.0 (tools.normalize_tool_arguments c.1))
          (query_of tools trusted name text)
        ≡ asks name text c
  same_key-asks name text c =
      let one = query_of tools trusted c.0 (tools.normalize_tool_arguments c.1) in
      let two = query_of tools trusted name text in
      Bool-ext (same_key one two) (asks name text c) (
        (λ h.
            let e = (same_key_iff one two).0 h in
            and_of_true (str_eq c.0 name) (str_eq (tools.normalize_tool_arguments c.1) text)
              ((eq_iff c.0 name).1 (ap (λ k. k.tool_name) e))
              ((eq_iff (tools.normalize_tool_arguments c.1) text).1
                (ap (λ k. k.normalized_args) e))),
        (λ h.
            let (n, t) = and-eq-true (str_eq c.0 name) _ h in
            (same_key_iff one two).1 (
              ap (λ m. query_of tools trusted m (tools.normalize_tool_arguments c.1))
                ((eq_iff c.0 name).0 n)
              ∙ ap (query_of tools trusted name)
                  ((eq_iff (tools.normalize_tool_arguments c.1) text).0 t))),
      )

  -- a read of the query is an attempt that the cache counts, and no other read is
  complete-attempts :
      (name text : String) (c : String × Fields) (s : ToolState A) (p : Prepared A)
      → IsReliable tools trusted
      → prepare tools trusted c.0 c.1 s ≡ p
      → actual_attempts
          (query_of tools trusted name text)
          (complete tools trusted c.0 c.1 s p).1.cache
        ≡ actual_attempts (query_of tools trusted name text) s.cache
          + (if asks name text c then is_reading p else 0)
  unfolding complete finish
  complete-attempts name text c s (answered r) reliable e = elim (Bool-cases (asks name text c)) [
    | inl k ↦ rw k (omega arith)
    | inr k ↦ rw k (omega arith)
  ]
  complete-attempts name text c s (reading key n s') reliable e =
      let (scope, owner, counted, named, reads) =
        reads_are_governed tools trusted c.0 c.1 s key n s' e in
      let (r, got, valid) = reliable c.0 n scope.known_tool owner in
      let (c', kept) = store_accepts key r r s'.cache valid in
      let k = query_of tools trusted name text in
      let same = ap (λ j. same_key j k) named ∙ same_key-asks name text c in
      let one =
        store-actual_attempts k key r s'.cache c' kept
        ∙ ap (actual_attempts k) counted.kept
        ∙ attempts-record_actual_attempt k key s.cache in
      rw (reads ∙ got) (
        rw kept (elim (Bool-cases (asks name text c)) [
          | inl q ↦ rw q (let two = rw (same ∙ q) at one in two)
          | inr q ↦ rw q (let two = rw (same ∙ q) at one in omega (arith, two))
        ]))

  pub execute_all-attempts :
      (name text : String) (cs : List (String × Fields)) (s : ToolState A)
      → IsReliable tools trusted
      → actual_attempts (query_of tools trusted name text) (execute_all cs s).cache
        ≡ actual_attempts (query_of tools trusted name text) s.cache + reads_for name text cs s
  unfolding execute_all execute_result reads_for
  execute_all-attempts name text [] s reliable = omega arith
  execute_all-attempts name text (c ∷ cs) s reliable =
      let here = complete-attempts name text c s (prepare tools trusted c.0 c.1 s) reliable refl in
      let later =
        execute_all-attempts name text cs (execute_result tools trusted c.0 c.1 s).1 reliable in
      omega (arith, here, later)
