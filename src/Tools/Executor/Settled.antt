-- ===== src/Tools/Executor/Settled.antt =====
-- tools/cache.py: after a valid result is stored, its key is answered from the cache or waits for a retry.
use ecommerce_after_sales_ag.Common.{
  Bool, true, false, ◌||◌, Option, none, some, List, [], ◌∷◌, ◌≡◌, ◌≢◌, refl, ap, ◌∙◌, inl, inr,
  ◌⊎◌, arith, any, Bool-cases, is_some, or_right, or_left,
}
use ecommerce_after_sales_ag.Common.Enum.{◌is◌, is_iff}
use ecommerce_after_sales_ag.Common.Result.{ok, is_ok, is_ok-eq-true}
use ecommerce_after_sales_ag.Domain.State.{
  ExecutionStatus, EvidenceAvailability, execution_status_enum, evidence_availability_enum,
}
use ecommerce_after_sales_ag.Tools.Contracts.{ToolResult, validate_envelope}
use ecommerce_after_sales_ag.Tools.ResultLaws.{failure_is_never_absence}
use ecommerce_after_sales_ag.Tools.Cache.{
  ToolCacheKey, same_key, lookup, put, CaseToolCache, get, first_of, store, has, add, discard,
  actual_attempts, count_or_zero,
}
use ecommerce_after_sales_ag.Tools.Cache.Entries.{same_key_iff, lookup-put}
use ecommerce_after_sales_ag.Tools.Cache.Reads.{store_effects}

same_key_refl : (k : ToolCacheKey) → same_key k k ≡ true
same_key_refl k = (same_key_iff k k).1 refl

-- a key that is j is not k
other_key :
    (x j k : ToolCacheKey) → same_key x j ≡ true → same_key j k ≡ false → same_key x k ≡ false
other_key x j k h other = ap (λ a. same_key a k) ((same_key_iff x j).0 h) ∙ other

has-add : (k : ToolCacheKey) (ks : List ToolCacheKey) → has k (add k ks) ≡ true
unfolding has add
has-add k ks = elim (Bool-cases (any (λ j. same_key j k) ks)) [
  | inl e ↦ rw e e
  | inr e ↦ rw e (rw (same_key_refl k) refl)
]

has-add_other :
    (k j : ToolCacheKey) (ks : List ToolCacheKey)
    → same_key j k ≡ false
    → has k (add j ks) ≡ has k ks
unfolding has add
has-add_other k j ks other = elim (Bool-cases (any (λ i. same_key i j) ks)) [
  | inl e ↦ rw e refl
  | inr e ↦ rw (e, other) refl
]

has-discard_other :
    (k j : ToolCacheKey) (ks : List ToolCacheKey)
    → same_key j k ≡ false
    → has k (discard j ks) ≡ has k ks
unfolding has discard
has-discard_other k j [] other = refl
has-discard_other k j (x ∷ xs) other = elim (Bool-cases (same_key x j)) [
  | inl e ↦ rw (e, other_key x j k e other) (has-discard_other k j xs other)
  | inr e ↦ rw e (ap (λ b. same_key x k || b) (has-discard_other k j xs other))
]

-- how `store` tells the three outcomes of a read apart
status_tests :
    (x : ExecutionStatus)
    → ((x is ExecutionStatus.success) ≡ true)
      ⊎ (((x is ExecutionStatus.success) ≡ false)
          × ((x is ExecutionStatus.non_retryable_error) ≡ false))
      ⊎ (((x is ExecutionStatus.success) ≡ false)
          × ((x is ExecutionStatus.non_retryable_error) ≡ true))
status_tests ExecutionStatus.success = inl refl
status_tests ExecutionStatus.retryable_error = inr (inl (refl, refl))
status_tests ExecutionStatus.non_retryable_error = inr (inr (refl, refl))

known :
    (a : EvidenceAvailability)
    → a ≢ EvidenceAvailability.unavailable
    → (a is EvidenceAvailability.present || a is EvidenceAvailability.absent) ≡ true
known EvidenceAvailability.present h = refl
known EvidenceAvailability.absent h = refl
known EvidenceAvailability.unavailable h = absurd (h refl)

module _ {A : Type 0} where
  -- the cache answers the key, or its last read may be repeated
  abbrev pub answered_or_retried : ToolCacheKey → CaseToolCache A → Bool
  answered_or_retried k c = is_some (get k c) || has k c.last_result_retryable

  valid_success :
      (r r' : ToolResult A)
      → validate_envelope r ≡ ok r'
      → r.execution_status ≡ ExecutionStatus.success
      → r.evidence_availability ≢ EvidenceAvailability.unavailable
  valid_success r r' h won = elim (failure_is_never_absence r r' h) [
    | inl k ↦ k.1
    | inr k ↦ absurd (k.0 won)
  ]

  store-is_ok :
      (k : ToolCacheKey) (r r' : ToolResult A) (c : CaseToolCache A)
      → validate_envelope r ≡ ok r'
      → is_ok (store k r c) ≡ true
  unfolding store
  store-is_ok k r r' c h = elim (status_tests r.execution_status) [
    | inl won ↦
        let done = (is_iff r.execution_status ExecutionStatus.success).0 won in
        rw (won, known r.evidence_availability (valid_success r r' h done)) refl
    | inr (inl again) ↦ rw (again.0, again.1) refl
    | inr (inr lost) ↦ rw (lost.0, lost.1) refl
  ]

  -- a valid result is accepted
  pub store_accepts :
      (k : ToolCacheKey) (r r' : ToolResult A) (c : CaseToolCache A)
      → validate_envelope r ≡ ok r'
      → (c' : CaseToolCache A) × (store k r c ≡ ok c')
  store_accepts k r r' c h = is_ok-eq-true (store k r c) (store-is_ok k r r' c h)

  some_answer :
      (o : Option (ToolResult A)) (r : ToolResult A) → is_some (first_of o (some r)) ≡ true
  some_answer none r = refl
  some_answer (some a) r = refl

  pub store_settles :
      (k : ToolCacheKey) (r : ToolResult A) (c c' : CaseToolCache A)
      → store k r c ≡ ok c'
      → answered_or_retried k c' ≡ true
  unfolding store get
  store_settles k r c c' h = elim (status_tests r.execution_status) [
    | inl won ↦
        let there =
          (store_effects k k r c c' h).1 ((is_iff r.execution_status ExecutionStatus.success).0 won)
            (same_key_refl k) in
        or_left _ _ (ap is_some there)
    | inr (inl again) ↦
        let kept : c'.last_result_retryable ≡ add k c.last_result_retryable =
          ground (arith, again.0, again.1) in
        or_right _ _ (ap (has k) kept ∙ has-add k c.last_result_retryable)
    | inr (inr lost) ↦
        let kept : c'.terminal_errors ≡ put k r c.terminal_errors =
          ground (arith, lost.0, lost.1) in
        let found : lookup k c'.terminal_errors ≡ some r =
          ap (lookup k) kept ∙ (rw (lookup-put, same_key_refl k) refl) in
        or_left (is_some (get k c')) (has k c'.last_result_retryable)
          (rw found (some_answer (lookup k c'.reusable) r))
  ]

  retried_keeps :
      (k j : ToolCacheKey) (r : ToolResult A) (c c' : CaseToolCache A)
      → same_key j k ≡ false
      → store j r c ≡ ok c'
      → has k c'.last_result_retryable ≡ has k c.last_result_retryable
  unfolding store
  retried_keeps k j r c c' other h = elim (status_tests r.execution_status) [
    | inl won ↦
        let kept : c'.last_result_retryable ≡ discard j c.last_result_retryable =
          ground (arith, won) in
        ap (has k) kept ∙ has-discard_other k j c.last_result_retryable other
    | inr (inl again) ↦
        let kept : c'.last_result_retryable ≡ add j c.last_result_retryable =
          ground (arith, again.0, again.1) in
        ap (has k) kept ∙ has-add_other k j c.last_result_retryable other
    | inr (inr lost) ↦
        let kept : c'.last_result_retryable ≡ discard j c.last_result_retryable =
          ground (arith, lost.0, lost.1) in
        ap (has k) kept ∙ has-discard_other k j c.last_result_retryable other
  ]

  pub store_keeps :
      (k j : ToolCacheKey) (r : ToolResult A) (c c' : CaseToolCache A)
      → same_key j k ≡ false
      → store j r c ≡ ok c'
      → answered_or_retried k c' ≡ answered_or_retried k c
  store_keeps k j r c c' other h =
      rw ((store_effects k j r c c' h).0 other, retried_keeps k j r c c' other h) refl

  pub store-actual_attempts :
      (k j : ToolCacheKey) (r : ToolResult A) (c c' : CaseToolCache A)
      → store j r c ≡ ok c'
      → actual_attempts k c' ≡ actual_attempts k c
  unfolding store actual_attempts
  store-actual_attempts k j r c c' h =
      let kept : c'.actual_attempts_of ≡ c.actual_attempts_of = ground arith in
      ap (λ d. count_or_zero (lookup k d)) kept
