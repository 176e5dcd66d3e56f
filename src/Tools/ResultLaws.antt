-- ===== src/Tools/ResultLaws.antt =====
-- tools/contracts.py: what the validator of `ToolResult` promises of every result that it accepts.
use ecommerce_after_sales_ag.Common.{
  String, true, false, not, ◌||◌, ◌&&◌, Option, none, some, List, [], ◌∷◌, map, ◌≡◌, refl, ◌≢◌, ◌⊎◌,
  arith, all, all_distinct, is_empty, is_some, truthy, non_empty, Bool-cases, not-eq-false,
  or-eq-false, and-eq-true, true-ne-false, inl, inr, sym, ◌∙◌, if◌then◌else◌,
}
use ecommerce_after_sales_ag.Common.Enum.{◌is◌, is_iff}
use ecommerce_after_sales_ag.Common.Text.{is_digest}
use ecommerce_after_sales_ag.Common.Time.{is_aware}
use ecommerce_after_sales_ag.Common.Result.{ok, >>-eq-ok, raise_if-eq-ok, raise_if, validation}
use ecommerce_after_sales_ag.Domain.State.{
  ExecutionStatus, EvidenceAvailability, RetrievalStatus, execution_status_enum,
  evidence_availability_enum,
}
use ecommerce_after_sales_ag.Tools.EvidenceRef.{EvidenceRef, ref_valid}
use ecommerce_after_sales_ag.Tools.Contracts.{
  ToolResult, validate_retrieval, validate_success, validate_failure, retrieved_as,
  validate_envelope, ref_to, to_evidence_refs,
}

some_reference :
    (f : Option String → EvidenceRef) (ids : List String)
    → is_empty (map f (if is_empty ids then none ∷ [] else map some ids)) ≡ false
some_reference f [] = refl
some_reference f (i ∷ ids) = refl

module _ {A : Type 0} (r : ToolResult A) where
  record Checked : Type 0 where
    fields :
        (non_empty r.source_type && non_empty r.source_query_id && is_digest r.result_hash) ≡ true
    observed : is_aware r.observed_at ≡ true
    branch :
        (if r.execution_status is ExecutionStatus.success
          then validate_success r.envelope (is_some r.payload)
          else validate_failure r.envelope (is_some r.payload))
        ≡ ok tt

  Checked_of_validate_envelope : (r' : ToolResult A) → validate_envelope r ≡ ok r' → Checked
  unfolding validate_envelope
  Checked_of_validate_envelope r' h =
      let (fields, h₁) = >>-eq-ok _ _ h in
      let (observed, h₂) = >>-eq-ok _ _ h₁ in
      let (records, h₃) =
        >>-eq-ok
          (raise_if (not (all_distinct r.source_record_ids))
            (validation "source_record_ids must not contain duplicates"))
          _ h₂ in
      let (untrusted, h₄) =
        >>-eq-ok
          (raise_if (not (all_distinct r.untrusted_fields))
            (validation "untrusted_fields must not contain duplicates"))
          _ h₃ in
      let (retrieval, h₅) = >>-eq-ok (validate_retrieval r.envelope) _ h₄ in
      let (branch, _) = >>-eq-ok _ _ h₅ in
      record {
        fields = not-eq-false _ (raise_if-eq-ok _ _ fields);
        observed = not-eq-false _ (raise_if-eq-ok _ _ observed);
        branch = branch;
      }

  each_outcome :
      (r' : ToolResult A)
      → validate_envelope r ≡ ok r'
      → (r.execution_status ≡ ExecutionStatus.success
          → (r.evidence_availability ≢ EvidenceAvailability.unavailable)
            × (r.error_code ≡ none)
            × (r.retryable ≡ false))
        × (r.execution_status ≢ ExecutionStatus.success
            → (r.evidence_availability ≡ EvidenceAvailability.unavailable)
              × (r.payload ≡ none)
              × (truthy r.error_code ≡ true))
  unfolding validate_success validate_failure
  each_outcome r' h =
      let checked = Checked_of_validate_envelope r' h in
      (
        (λ won.
            let done = (is_iff r.execution_status ExecutionStatus.success).1 won in
            let ran : validate_success r.envelope (is_some r.payload) ≡ ok tt =
              ground (arith, done, checked.branch) in
            let (known, h₁) = >>-eq-ok _ _ ran in
            let (retrieved, h₂) =
              >>-eq-ok
                (raise_if (retrieved_as r.retrieval_status RetrievalStatus.unavailable)
                  (validation "successful execution cannot have unavailable retrieval"))
                _ h₁ in
            let (clean, h₃) = >>-eq-ok _ _ h₂ in
            let (no_code, no_retry) =
              or-eq-false (is_some r.error_code) r.retryable (
                raise_if-eq-ok _ (validation "successful execution cannot carry an error") clean) in
            (
              (λ e. true-ne-false (
                  sym ((is_iff r.evidence_availability EvidenceAvailability.unavailable).1 e)
                  ∙ raise_if-eq-ok _ _ known)),
              ground (arith, no_code),
              no_retry,
            )),
        (λ lost.
            let undone : (r.execution_status is ExecutionStatus.success) ≡ false =
              elim (Bool-cases (r.execution_status is ExecutionStatus.success)) [
                | inl done ↦
                    absurd (lost ((is_iff r.execution_status ExecutionStatus.success).0 done))
                | inr k ↦ k
              ] in
            let ran : validate_failure r.envelope (is_some r.payload) ≡ ok tt =
              ground (arith, undone, checked.branch) in
            let (unknown, h₁) = >>-eq-ok _ _ ran in
            let (empty, h₂) =
              >>-eq-ok
                (raise_if (is_some r.payload || not (truthy r.error_code))
                  (validation "failed execution requires error_code and no payload"))
                _ h₁ in
            let (no_payload, code) = or-eq-false (is_some r.payload) (not (truthy r.error_code)) (
              raise_if-eq-ok _ (validation "failed execution requires error_code and no payload")
                empty) in
            (
              (is_iff r.evidence_availability EvidenceAvailability.unavailable).0
                  (not-eq-false _ (raise_if-eq-ok _ _ unknown)),
              ground (arith, no_payload),
              not-eq-false _ code,
            )),
      )

  -- In a result that the validator accepts an error never passes for an absence: a read that succeeded
  -- has known evidence and no error code, and any other has no evidence, no payload and an error code.
  pub failure_is_never_absence :
      (r' : ToolResult A)
      → validate_envelope r ≡ ok r'
      → ((r.execution_status ≡ ExecutionStatus.success)
          × (r.evidence_availability ≢ EvidenceAvailability.unavailable)
          × (r.error_code ≡ none)
          × (r.retryable ≡ false))
        ⊎ ((r.execution_status ≢ ExecutionStatus.success)
            × (r.evidence_availability ≡ EvidenceAvailability.unavailable)
            × (r.payload ≡ none)
            × (truthy r.error_code ≡ true))
  failure_is_never_absence r' h =
      elim (Bool-cases (r.execution_status is ExecutionStatus.success)) [
        | inl done ↦
            let won = (is_iff r.execution_status ExecutionStatus.success).0 done in
            let (known, no_code, no_retry) = (each_outcome r' h).0 won in
            inl (won, known, no_code, no_retry)
        | inr undone ↦
            let lost : r.execution_status ≢ ExecutionStatus.success = λ e.
              true-ne-false
                (sym ((is_iff r.execution_status ExecutionStatus.success).1 e) ∙ undone) in
            let (unknown, empty, code) = (each_outcome r' h).1 lost in
            inr (lost, unknown, empty, code)
      ]

  all-ref_valid :
      (tool_call_id : String) (ids : List (Option String))
      → Checked
      → non_empty tool_call_id ≡ true
      → all ref_valid (map (ref_to tool_call_id r) ids) ≡ true
  unfolding ref_valid
  all-ref_valid tool_call_id [] checked named = refl
  all-ref_valid tool_call_id (i ∷ ids) checked named =
      let (pair, digest) =
        and-eq-true (non_empty r.source_type && non_empty r.source_query_id)
          (is_digest r.result_hash) checked.fields in
      let (_, query) = and-eq-true (non_empty r.source_type) (non_empty r.source_query_id) pair in
      rw (named, query, digest, checked.observed) (all-ref_valid tool_call_id ids checked named)

  -- Every reference that a validated result makes for a named call is itself valid, and it makes none
  -- exactly if the read did not succeed: a read that succeeded has one even when it found nothing.
  pub references_are_valid :
      (r' : ToolResult A) (tool_call_id : String)
      → validate_envelope r ≡ ok r'
      → non_empty tool_call_id ≡ true
      → (all ref_valid (to_evidence_refs r tool_call_id) ≡ true)
        × (is_empty (to_evidence_refs r tool_call_id)
            ≡ not (r.execution_status is ExecutionStatus.success))
  unfolding to_evidence_refs
  references_are_valid r' tool_call_id h named =
      let checked = Checked_of_validate_envelope r' h in
      elim (Bool-cases (r.execution_status is ExecutionStatus.success)) [
        | inl done ↦ (
          rw done (all-ref_valid tool_call_id _ checked named),
          rw done (some_reference (ref_to tool_call_id r) r.source_record_ids),
        )
        | inr undone ↦ (rw undone, rw undone)
      ]
