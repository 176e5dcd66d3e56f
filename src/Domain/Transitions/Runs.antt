-- ===== src/Domain/Transitions/Runs.antt =====
-- domain/transitions.py, `transition_run`: the life of one run of an investigation.
use ecommerce_after_sales_ag.Common.{
  String, true, false, Option, none, ◌≡◌, refl, ◌↔◌, arith, truthy, not-eq-false,
}
use ecommerce_after_sales_ag.Common.Enum.{◌is◌}
use ecommerce_after_sales_ag.Common.Result.{
  ok, >>-eq-ok, >>_of_ok, raise_if-eq-ok, raise_if_of_false,
}
use ecommerce_after_sales_ag.Domain.State.{RunState, run_state_enum}
use ecommerce_after_sales_ag.Domain.Models.{
  Run, validate_run, run_fields_valid, keep_failure_separate, differ,
}
use ecommerce_after_sales_ag.Domain.Transitions.{
  transition_run, assert_allowed, run_transitions, validated_update,
}

-- The documented lifecycle of a run, edge by edge.
pub data RunEdge : RunState → RunState → Type 0 where
  start : RunEdge RunState.queued RunState.running
  refuse : RunEdge RunState.queued RunState.failed
  succeed : RunEdge RunState.running RunState.succeeded
  break_off : RunEdge RunState.running RunState.failed

assert_allowed_of_RunEdge :
    {s t : RunState} → RunEdge s t → assert_allowed s t run_transitions ≡ ok tt
unfolding assert_allowed run_transitions
assert_allowed_of_RunEdge start = refl
assert_allowed_of_RunEdge refuse = refl
assert_allowed_of_RunEdge succeed = refl
assert_allowed_of_RunEdge break_off = refl

RunEdge-of_assert_allowed :
    (s t : RunState) → assert_allowed s t run_transitions ≡ ok tt → RunEdge s t
unfolding assert_allowed run_transitions
RunEdge-of_assert_allowed RunState.queued RunState.running h = start
RunEdge-of_assert_allowed RunState.queued RunState.failed h = refuse
RunEdge-of_assert_allowed RunState.running RunState.succeeded h = succeed
RunEdge-of_assert_allowed RunState.running RunState.failed h = break_off
RunEdge-of_assert_allowed _ _ h = cc

-- A failed run names its failure class, and no other run has one.
abbrev pub FailureFits : RunState → Option String → Type 0
FailureFits RunState.failed failure = truthy failure ≡ true
FailureFits _ failure = failure ≡ none

pub record IsValidRun (r : Run) : Type 0 where
  pub fields : run_fields_valid r ≡ true
  pub failure : FailureFits r.run_state r.failure_class

module _ (r : Run) where
  separate_of_FailureFits :
      (s : RunState)
      → r.run_state ≡ s
      → FailureFits s r.failure_class
      → keep_failure_separate r ≡ ok r
  unfolding keep_failure_separate
  separate_of_FailureFits RunState.failed e h = rw e (ground arith)
  separate_of_FailureFits _ e h = rw e (ground arith)

  FailureFits-of_separate :
      (s : RunState) (r' : Run)
      → r.run_state ≡ s
      → keep_failure_separate r ≡ ok r'
      → FailureFits s r.failure_class × (r' ≡ r)
  unfolding keep_failure_separate
  FailureFits-of_separate RunState.failed r' e h =
      let failed : (r.run_state is RunState.failed) ≡ true = rw e in ground (arith, failed)
  FailureFits-of_separate _ r' e h =
      let failed : (r.run_state is RunState.failed) ≡ false = rw e in ground (arith, failed)

validate_run-eq-ok : (r r' : Run) → validate_run r ≡ ok r' → IsValidRun r × (r' ≡ r)
unfolding validate_run
validate_run-eq-ok r r' h =
    let (fields, rest) = >>-eq-ok _ _ h in
    let (failure, same) = FailureFits-of_separate r r.run_state r' refl rest in
    (record { fields = not-eq-false _ (raise_if-eq-ok _ _ fields); failure = failure }, same)

validate_run_of_IsValidRun : (r : Run) → IsValidRun r → validate_run r ≡ ok r
unfolding validate_run
validate_run_of_IsValidRun r v =
    >>_of_ok _ _ (rw v.fields) (separate_of_FailureFits r r.run_state refl v.failure)

abbrev pub advanced : Run → RunState → Option String → Run
advanced r target failure = record r { run_state = target; failure_class = failure }

guard_of_FailureFits :
    (t : RunState) (failure : Option String)
    → FailureFits t failure
    → differ (t is RunState.failed) (truthy failure) ≡ false
guard_of_FailureFits RunState.failed failure h = ground arith
guard_of_FailureFits _ failure h = ground arith

-- On a valid run a move is accepted exactly if it follows an edge of the documented lifecycle and
-- names a failure class exactly if it fails the run; it then changes the state and the failure
-- class alone, and the run stays valid.
pub transition_run_exact :
    (r : Run) (target : RunState) (failure : Option String) (r' : Run)
    → IsValidRun r
    → (transition_run r target failure ≡ ok r') ↔ (
        RunEdge r.run_state target
        × FailureFits target failure
        × IsValidRun r'
        × (r' ≡ advanced r target failure))
unfolding transition_run validated_update run_fields_valid
transition_run_exact r target failure r' v = (
  (λ h.
      let (allowed, h₁) = >>-eq-ok _ _ h in
      let (guarded, built) = >>-eq-ok _ _ h₁ in
      let (w, same) = validate_run-eq-ok _ r' built in
      (RunEdge-of_assert_allowed r.run_state target allowed, w.failure, rw same w, same)),
  (λ (edge, fits, w, same). >>_of_ok _ _ (assert_allowed_of_RunEdge edge) (
      >>_of_ok _ _ (raise_if_of_false _ _ (guard_of_FailureFits target failure fits)) (
        rw same (
          validate_run_of_IsValidRun (advanced r target failure)
            (record { fields = v.fields; failure = fits }))))),
)
