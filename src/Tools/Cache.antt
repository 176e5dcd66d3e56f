-- ===== src/Tools/Cache.antt =====
-- tools/cache.py: the cache of a case's reads, keyed by tool, arguments and source revision.
use ecommerce_after_sales_ag.Common.{
  ℕ, ◌+◌, String, Bool, true, false, not, ◌&&◌, Option, none, some, List, [], ◌∷◌, any, select,
  length, str_eq, leb, if◌then◌else◌, ◌||◌,
}
use ecommerce_after_sales_ag.Common.Enum.{◌is◌}
use ecommerce_after_sales_ag.Common.Result.{Result, ok, err, value_error}
use ecommerce_after_sales_ag.Domain.State.{
  ExecutionStatus, EvidenceAvailability, execution_status_enum, evidence_availability_enum,
}
use ecommerce_after_sales_ag.Tools.Contracts.{ToolResult}
pub mod Entries
pub mod History
pub mod Reads

-- `normalized_args` is the text of `normalize_tool_arguments`, which Python's json writes.
pub record ToolCacheKey : Type 0 where
  pub case_id : String
  pub tool_name : String
  pub normalized_args : String
  pub source_revision : String

-- `==` of the frozen dataclass
unfoldable pub same_key : ToolCacheKey → ToolCacheKey → Bool
same_key a b =
    str_eq a.case_id b.case_id
    && str_eq a.tool_name b.tool_name
    && str_eq a.normalized_args b.normalized_args
    && str_eq a.source_revision b.source_revision

-- A dictionary by its entries, in insertion order.
abbrev pub Entries : Type 0 → Type 0
Entries B = List (ToolCacheKey × B)

module _ {B : Type 0} where
  -- `d.get(key)`
  unfoldable pub lookup : ToolCacheKey → Entries B → Option B
  lookup k [] = none
  lookup k (e ∷ d) = let rest = lookup k d in if same_key e.0 k then some e.1 else rest

  -- `d[key] = value`
  unfoldable pub put : ToolCacheKey → B → Entries B → Entries B
  put k v [] = (k, v) ∷ []
  put k v (e ∷ d) = let rest = put k v d in if same_key e.0 k then (k, v) ∷ d else e ∷ rest

  -- the entries of the other cases
  unfoldable pub without_case : String → Entries B → Entries B
  without_case case_id = select (λ e. not (str_eq e.0.case_id case_id))

-- A set of keys: membership, `add`, `discard` and the keys of the other cases.
unfoldable pub has : ToolCacheKey → List ToolCacheKey → Bool
has k = any (λ j. same_key j k)

unfoldable pub add : ToolCacheKey → List ToolCacheKey → List ToolCacheKey
add k ks = if has k ks then ks else k ∷ ks

unfoldable pub discard : ToolCacheKey → List ToolCacheKey → List ToolCacheKey
discard k = select (λ j. not (same_key j k))

unfoldable pub keys_without_case : String → List ToolCacheKey → List ToolCacheKey
keys_without_case case_id = select (λ j. not (str_eq j.case_id case_id))

pub record CaseToolCache (A : Type 0) : Type 0 where
  pub reusable : Entries (ToolResult A)
  pub terminal_errors : Entries (ToolResult A)
  pub actual_attempts_of : Entries ℕ
  pub last_result_retryable : List ToolCacheKey

abbrev pub count_or_zero : Option ℕ → ℕ
count_or_zero none = 0
count_or_zero (some n) = n

module _ {A : Type 0} where
  unfoldable pub new_cache : CaseToolCache A
  new_cache = record {
    reusable = [];
    terminal_errors = [];
    actual_attempts_of = [];
    last_result_retryable = [];
  }

  -- `a or b`; a result is always true
  abbrev pub first_of : Option (ToolResult A) → Option (ToolResult A) → Option (ToolResult A)
  first_of none b = b
  first_of (some a) b = some a

  unfoldable pub get : ToolCacheKey → CaseToolCache A → Option (ToolResult A)
  get k c = first_of (lookup k c.reusable) (lookup k c.terminal_errors)

  unfoldable pub store : ToolCacheKey → ToolResult A → CaseToolCache A → Result (CaseToolCache A)
  store k r c =
      if r.execution_status is ExecutionStatus.success
      then (if not (
            r.evidence_availability is EvidenceAvailability.present
            || r.evidence_availability is EvidenceAvailability.absent)
          then err (value_error "only completed evidence is reusable")
          else ok (record c {
            reusable = put k r c.reusable;
            last_result_retryable = discard k c.last_result_retryable;
          }))
      else if r.execution_status is ExecutionStatus.non_retryable_error
      then ok (record c {
        terminal_errors = put k r c.terminal_errors;
        last_result_retryable = discard k c.last_result_retryable;
      })
      else ok (record c { last_result_retryable = add k c.last_result_retryable })

  unfoldable pub actual_attempts : ToolCacheKey → CaseToolCache A → ℕ
  actual_attempts k c = count_or_zero (lookup k c.actual_attempts_of)

  -- the new count and the cache that holds it
  unfoldable pub record_actual_attempt : ToolCacheKey → CaseToolCache A → ℕ × CaseToolCache A
  record_actual_attempt k c =
      let attempt = count_or_zero (lookup k c.actual_attempts_of) + 1 in
      (attempt, record c { actual_attempts_of = put k attempt c.actual_attempts_of })

  unfoldable pub retry_exhausted : ToolCacheKey → CaseToolCache A → Bool
  retry_exhausted k c =
      has k c.last_result_retryable && leb 2 (count_or_zero (lookup k c.actual_attempts_of))

  unfoldable pub invalidate_case : String → CaseToolCache A → CaseToolCache A
  invalidate_case case_id c = record {
    reusable = without_case case_id c.reusable;
    terminal_errors = without_case case_id c.terminal_errors;
    actual_attempts_of = without_case case_id c.actual_attempts_of;
    last_result_retryable = keys_without_case case_id c.last_result_retryable;
  }

  -- `__len__`
  unfoldable pub size : CaseToolCache A → ℕ
  size c = length c.reusable + length c.terminal_errors
