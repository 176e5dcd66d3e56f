-- ===== src/Tools/Cache/History.antt =====
-- tools/cache.py: what the cache gives back after any sequence of calls.
use ecommerce_after_sales_ag.Common.{
  ℕ, ◌+◌, String, some, List, [], ◌∷◌, ◌≡◌, refl, inl, inr, arith, All, str_eq, Bool-cases,
  Option-cases, sym, ap, ◌∙◌, if◌then◌else◌,
}
use ecommerce_after_sales_ag.Common.Enum.{◌is◌, is_iff}
use ecommerce_after_sales_ag.Common.Result.{Result, ok, err}
use ecommerce_after_sales_ag.Domain.State.{
  ExecutionStatus, EvidenceAvailability, execution_status_enum, evidence_availability_enum,
}
use ecommerce_after_sales_ag.Tools.Contracts.{ToolResult}
use ecommerce_after_sales_ag.Tools.Cache.{
  ToolCacheKey, same_key, lookup, CaseToolCache, new_cache, first_of, get, store, actual_attempts,
  record_actual_attempt, invalidate_case, count_or_zero,
}
use ecommerce_after_sales_ag.Tools.Cache.Entries.{
  same_key_iff, lookup-put, lookup-without_case, put-All, without_case-All, lookup-All,
}

-- The calls that change a cache.
pub data CacheCall (A : Type 0) : Type 0 where
  keep : ToolCacheKey → ToolResult A → CacheCall A
  attempt : ToolCacheKey → CacheCall A
  forget : String → CacheCall A

-- A completed read with known evidence, or an error that no retry can mend.
pub data Final {A : Type 0} (r : ToolResult A) : Type 0 where
  completed_present :
      r.execution_status ≡ ExecutionStatus.success
      → r.evidence_availability ≡ EvidenceAvailability.present
      → Final r
  completed_absent :
      r.execution_status ≡ ExecutionStatus.success
      → r.evidence_availability ≡ EvidenceAvailability.absent
      → Final r
  terminal : r.execution_status ≡ ExecutionStatus.non_retryable_error → Final r

module _ {A : Type 0} where
  -- what a caller is left with when the call raises: the unchanged cache
  abbrev after : Result (CaseToolCache A) → CaseToolCache A → CaseToolCache A
  after (ok c) old = c
  after (err e) old = old

  unfoldable pub serve : CacheCall A → CaseToolCache A → CaseToolCache A
  serve (keep k r) c = after (store k r c) c
  serve (attempt k) c = (record_actual_attempt k c).1
  serve (forget case_id) c = invalidate_case case_id c

  unfoldable pub serve_all : List (CacheCall A) → CaseToolCache A → CaseToolCache A
  serve_all [] c = c
  serve_all (x ∷ xs) c = serve_all xs (serve x c)

  record Clean (c : CaseToolCache A) : Type 0 where
    kept : All (λ e. Final e.1) c.reusable
    failed : All (λ e. Final e.1) c.terminal_errors

  store-Clean :
      (k : ToolCacheKey) (r : ToolResult A) (c : CaseToolCache A)
      → Clean c
      → Clean (after (store k r c) c)
  unfolding store
  store-Clean k r c h = elim (Bool-cases (r.execution_status is ExecutionStatus.success)) [
    | inl done ↦
        let won = (is_iff r.execution_status ExecutionStatus.success).0 done in
        elim (Bool-cases (r.evidence_availability is EvidenceAvailability.present)) [
          | inl here ↦
              let p = (is_iff r.evidence_availability EvidenceAvailability.present).0 here in
              rw (done, here)
                (record {
                  kept = put-All Final k r c.reusable (completed_present won p) h.kept;
                  failed = h.failed;
                })
          | inr elsewhere ↦
              elim (Bool-cases (r.evidence_availability is EvidenceAvailability.absent)) [
                | inl gone ↦
                    let p = (is_iff r.evidence_availability EvidenceAvailability.absent).0 gone in
                    rw (done, elsewhere, gone)
                      (record {
                        kept = put-All Final k r c.reusable (completed_absent won p) h.kept;
                        failed = h.failed;
                      })
                | inr lost ↦ rw (done, elsewhere, lost) h
              ]
        ]
    | inr undone ↦ elim (Bool-cases (r.execution_status is ExecutionStatus.non_retryable_error)) [
      | inl final ↦
          let p = (is_iff r.execution_status ExecutionStatus.non_retryable_error).0 final in
          rw (undone, final)
            (record {
              kept = h.kept;
              failed = put-All Final k r c.terminal_errors (terminal p) h.failed;
            })
      | inr again ↦ rw (undone, again) (record { kept = h.kept; failed = h.failed })
    ]
  ]

  serve-Clean : (x : CacheCall A) (c : CaseToolCache A) → Clean c → Clean (serve x c)
  unfolding serve record_actual_attempt invalidate_case
  serve-Clean (keep k r) c h = store-Clean k r c h
  serve-Clean (attempt k) c h = record { kept = h.kept; failed = h.failed }
  serve-Clean (forget case_id) c h = record {
    kept = without_case-All Final case_id c.reusable h.kept;
    failed = without_case-All Final case_id c.terminal_errors h.failed;
  }

  serve_all-Clean :
      (xs : List (CacheCall A)) (c : CaseToolCache A) → Clean c → Clean (serve_all xs c)
  unfolding serve_all
  serve_all-Clean [] c h = h
  serve_all-Clean (x ∷ xs) c h = serve_all-Clean xs (serve x c) (serve-Clean x c h)

  -- After any sequence of calls on a new cache, refused ones included, what it gives back is a
  -- completed read with known evidence or an error that no retry can mend: a retryable error is never
  -- reused as evidence.
  pub reused_is_final :
      (xs : List (CacheCall A)) (k : ToolCacheKey) (r : ToolResult A)
      → get k (serve_all xs new_cache) ≡ some r
      → Final r
  unfolding get new_cache
  reused_is_final xs k r h =
      let clean = serve_all-Clean xs new_cache (record { kept = tt; failed = tt }) in
      elim (Option-cases (lookup k (serve_all xs new_cache).reusable)) [
        | inl missing ↦ lookup-All Final k (serve_all xs new_cache).terminal_errors r clean.failed (
            ap (λ o. first_of o (lookup k (serve_all xs new_cache).terminal_errors)) (sym missing)
            ∙ h)
        | inr (v, there) ↦ lookup-All Final k (serve_all xs new_cache).reusable r clean.kept (
            there
            ∙ (ap (λ o. first_of o (lookup k (serve_all xs new_cache).terminal_errors)) (sym there)
                ∙ h))
      ]

  -- The attempts for a key among the calls, after `n` earlier ones; forgetting its case starts anew.
  unfoldable pub attempts_among : ToolCacheKey → List (CacheCall A) → ℕ → ℕ
  attempts_among k [] n = n
  attempts_among k (keep j r ∷ xs) n = attempts_among k xs n
  attempts_among k (attempt j ∷ xs) n = attempts_among k xs (if same_key j k then n + 1 else n)
  attempts_among k (forget case_id ∷ xs) n =
      attempts_among k xs (if str_eq k.case_id case_id then 0 else n)

  attempts-store :
      (k j : ToolCacheKey) (r : ToolResult A) (c : CaseToolCache A)
      → actual_attempts k (after (store j r c) c) ≡ actual_attempts k c
  unfolding store actual_attempts
  attempts-store k j r c =
      let kept : (after (store j r c) c).actual_attempts_of ≡ c.actual_attempts_of = ground arith in
      ap (λ d. count_or_zero (lookup k d)) kept

  pub attempts-record_actual_attempt :
      (k j : ToolCacheKey) (c : CaseToolCache A)
      → actual_attempts k (record_actual_attempt j c).1
        ≡ (if same_key j k then actual_attempts k c + 1 else actual_attempts k c)
  unfolding actual_attempts record_actual_attempt
  attempts-record_actual_attempt k j c = elim (Bool-cases (same_key j k)) [
    | inl same ↦
        rw (lookup-put, same)
          (ap (λ a. count_or_zero (lookup a c.actual_attempts_of) + 1) ((same_key_iff j k).0 same))
    | inr other ↦ rw (lookup-put, other)
  ]

  attempts-invalidate_case :
      (k : ToolCacheKey) (case_id : String) (c : CaseToolCache A)
      → actual_attempts k (invalidate_case case_id c)
        ≡ (if str_eq k.case_id case_id then 0 else actual_attempts k c)
  unfolding actual_attempts invalidate_case
  attempts-invalidate_case k case_id c = elim (Bool-cases (str_eq k.case_id case_id)) [
    | inl gone ↦ rw (lookup-without_case, gone)
    | inr kept ↦ rw (lookup-without_case, kept)
  ]

  attempts-serve_all :
      (k : ToolCacheKey) (xs : List (CacheCall A)) (c : CaseToolCache A)
      → actual_attempts k (serve_all xs c) ≡ attempts_among k xs (actual_attempts k c)
  unfolding serve_all serve attempts_among
  attempts-serve_all k [] c = refl
  attempts-serve_all k (keep j r ∷ xs) c =
      attempts-serve_all k xs (after (store j r c) c)
      ∙ ap (attempts_among k xs) (attempts-store k j r c)
  attempts-serve_all k (attempt j ∷ xs) c =
      attempts-serve_all k xs (record_actual_attempt j c).1
      ∙ ap (attempts_among k xs) (attempts-record_actual_attempt k j c)
  attempts-serve_all k (forget case_id ∷ xs) c =
      attempts-serve_all k xs (invalidate_case case_id c)
      ∙ ap (attempts_among k xs) (attempts-invalidate_case k case_id c)

  -- After any sequence of calls on a new cache the number of attempts it reports for a key is the
  -- number of attempts recorded for that key since its case was last forgotten.
  pub attempts_counted :
      (k : ToolCacheKey) (xs : List (CacheCall A))
      → actual_attempts k (serve_all xs new_cache) ≡ attempts_among k xs 0
  unfolding new_cache actual_attempts lookup
  attempts_counted k xs = attempts-serve_all k xs new_cache
