-- ===== src/Domain/Transitions/Actions.antt =====
-- domain/transitions.py, `transition_action`: the life of one execution of a proposed action.
use ecommerce_after_sales_ag.Common.{
  String, Bool, true, false, not, ◌&&◌, Option, none, some, [], ◌∷◌, ◌≡◌, refl, ap, ◌∙◌, ◌↔◌, arith,
  truthy, is_some, not-eq-false,
}
use ecommerce_after_sales_ag.Common.Enum.{◌is◌, ◌is_in◌}
use ecommerce_after_sales_ag.Common.Time.{Timestamp, is_aware}
use ecommerce_after_sales_ag.Common.Result.{
  ok, >>-eq-ok, >>_of_ok, raise_if-eq-ok, raise_if_of_false,
}
use ecommerce_after_sales_ag.Domain.State.{ActionState, action_state_enum}
use ecommerce_after_sales_ag.Domain.Models.{
  ActionExecution, validate_action, action_fields_valid, validate_action_timestamps,
  submitted_states,
}
use ecommerce_after_sales_ag.Domain.Transitions.{
  transition_action, assert_allowed, action_transitions, submitted_after, verified_after,
  validated_update,
}

-- The documented lifecycle of an action, edge by edge.
pub data ActionEdge : ActionState → ActionState → Type 0 where
  submit : ActionEdge ActionState.ready ActionState.submitted
  verify : ActionEdge ActionState.submitted ActionState.succeeded
  fail_for_now : ActionEdge ActionState.submitted ActionState.failed_retryable
  fail_for_good : ActionEdge ActionState.submitted ActionState.failed_terminal
  lose_track : ActionEdge ActionState.submitted ActionState.uncertain
  resubmit : ActionEdge ActionState.failed_retryable ActionState.submitted

assert_allowed_of_ActionEdge :
    {s t : ActionState} → ActionEdge s t → assert_allowed s t action_transitions ≡ ok tt
unfolding assert_allowed action_transitions
assert_allowed_of_ActionEdge submit = refl
assert_allowed_of_ActionEdge verify = refl
assert_allowed_of_ActionEdge fail_for_now = refl
assert_allowed_of_ActionEdge fail_for_good = refl
assert_allowed_of_ActionEdge lose_track = refl
assert_allowed_of_ActionEdge resubmit = refl

ActionEdge-of_assert_allowed :
    (s t : ActionState) → assert_allowed s t action_transitions ≡ ok tt → ActionEdge s t
unfolding assert_allowed action_transitions
ActionEdge-of_assert_allowed ActionState.ready ActionState.submitted h = submit
ActionEdge-of_assert_allowed ActionState.submitted ActionState.succeeded h = verify
ActionEdge-of_assert_allowed ActionState.submitted ActionState.failed_retryable h = fail_for_now
ActionEdge-of_assert_allowed ActionState.submitted ActionState.failed_terminal h = fail_for_good
ActionEdge-of_assert_allowed ActionState.submitted ActionState.uncertain h = lose_track
ActionEdge-of_assert_allowed ActionState.failed_retryable ActionState.submitted h = resubmit
ActionEdge-of_assert_allowed _ _ h = cc

-- An error code comes with a failure or an uncertain result, and with nothing else.
abbrev pub ErrorFits : ActionState → Option String → Type 0
ErrorFits ActionState.ready code = code ≡ none
ErrorFits ActionState.submitted code = code ≡ none
ErrorFits ActionState.succeeded code = code ≡ none
ErrorFits _ code = truthy code ≡ true

abbrev pub dated : Option Timestamp → Bool
dated none = false
dated (some t) = is_aware t

-- An action has a submission time exactly if it left the executor, and a verification time exactly
-- if it succeeded.
abbrev pub TimesFit : ActionState → Option Timestamp → Option Timestamp → Type 0
TimesFit ActionState.ready submitted verified = (submitted ≡ none) × (verified ≡ none)
TimesFit ActionState.succeeded submitted verified =
    (dated submitted ≡ true) × (dated verified ≡ true)
TimesFit _ submitted verified = (dated submitted ≡ true) × (verified ≡ none)

pub record IsValidAction (a : ActionExecution) : Type 0 where
  pub fields : action_fields_valid a ≡ true
  pub times : TimesFit a.action_state a.submitted_at a.verified_at

module _ (a : ActionExecution) where
  timestamps_of_TimesFit :
      (s : ActionState)
      → a.action_state ≡ s
      → TimesFit s a.submitted_at a.verified_at
      → validate_action_timestamps a ≡ ok a
  unfolding validate_action_timestamps
  timestamps_of_TimesFit ActionState.ready e h = rw e (ground arith)
  timestamps_of_TimesFit _ e h = rw e (ground arith)

  TimesFit-of_timestamps :
      (s : ActionState) (a' : ActionExecution)
      → a.action_state ≡ s
      → validate_action_timestamps a ≡ ok a'
      → TimesFit s a.submitted_at a.verified_at × (a' ≡ a)
  unfolding validate_action_timestamps
  TimesFit-of_timestamps ActionState.ready a' e h =
      let left : (a.action_state is_in submitted_states) ≡ false = rw e in
      let done : (a.action_state is ActionState.succeeded) ≡ false = rw e in
      ground (arith, left, done)
  TimesFit-of_timestamps ActionState.succeeded a' e h =
      let left : (a.action_state is_in submitted_states) ≡ true = rw e in
      let done : (a.action_state is ActionState.succeeded) ≡ true = rw e in
      ground (arith, left, done)
  TimesFit-of_timestamps _ a' e h =
      let left : (a.action_state is_in submitted_states) ≡ true = rw e in
      let done : (a.action_state is ActionState.succeeded) ≡ false = rw e in
      ground (arith, left, done)

validate_action-eq-ok :
    (a a' : ActionExecution) → validate_action a ≡ ok a' → IsValidAction a × (a' ≡ a)
unfolding validate_action
validate_action-eq-ok a a' h =
    let (fields, rest) = >>-eq-ok _ _ h in
    let (times, same) = TimesFit-of_timestamps a a.action_state a' refl rest in
    (record { fields = not-eq-false _ (raise_if-eq-ok _ _ fields); times = times }, same)

validate_action_of_IsValidAction :
    (a : ActionExecution) → IsValidAction a → validate_action a ≡ ok a
unfolding validate_action
validate_action_of_IsValidAction a v =
    >>_of_ok _ _ (rw v.fields) (timestamps_of_TimesFit a a.action_state refl v.times)

-- The validator accepts an action exactly if it is valid.
pub validate_action_iff : (a : ActionExecution) → (validate_action a ≡ ok a) ↔ IsValidAction a
validate_action_iff a =
    ((λ h. (validate_action-eq-ok a a h).0), (λ v. validate_action_of_IsValidAction a v))

-- The time of the first submission, once there is one, and the time of success.
abbrev pub first_submission : ActionState → Timestamp → Option Timestamp → Option Timestamp
first_submission ActionState.submitted now none = some now
first_submission _ now earlier = earlier

abbrev pub success_time : ActionState → Timestamp → Option Timestamp → Option Timestamp
success_time ActionState.succeeded now earlier = some now
success_time _ now earlier = earlier

submitted_after-eq-first_submission :
    (s : ActionState) (now : Timestamp) (t : Option Timestamp)
    → submitted_after s now t ≡ first_submission s now t
submitted_after-eq-first_submission ActionState.submitted now none = refl
submitted_after-eq-first_submission ActionState.submitted now (some t) = refl
submitted_after-eq-first_submission _ now t = refl

verified_after-eq-success_time :
    (s : ActionState) (now : Timestamp) (t : Option Timestamp)
    → verified_after s now t ≡ success_time s now t
verified_after-eq-success_time ActionState.succeeded now t = refl
verified_after-eq-success_time _ now t = refl

-- The action after a move: the first submission's time stays, and success is dated.
abbrev pub acted : ActionExecution → ActionState → Timestamp → Option String → ActionExecution
acted a target now code = record a {
  action_state = target;
  submitted_at = first_submission target now a.submitted_at;
  verified_at = success_time target now a.verified_at;
  error_code = code;
}

-- what the code builds
abbrev updated : ActionExecution → ActionState → Timestamp → Option String → ActionExecution
updated a target now code = record a {
  action_state = target;
  submitted_at = submitted_after target now a.submitted_at;
  verified_at = verified_after target now a.verified_at;
  error_code = code;
}

updated-eq-acted :
    (a : ActionExecution) (target : ActionState) (now : Timestamp) (code : Option String)
    → updated a target now code ≡ acted a target now code
updated-eq-acted a target now code = λ i. record a {
  action_state = target;
  submitted_at = submitted_after-eq-first_submission target now a.submitted_at i;
  verified_at = verified_after-eq-success_time target now a.verified_at i;
  error_code = code;
}

module _ (a : ActionExecution) (now : Timestamp) (code : Option String) where
  times-updated :
      {s t : ActionState}
      → ActionEdge s t
      → is_aware now ≡ true
      → TimesFit s a.submitted_at a.verified_at
      → TimesFit t (updated a t now code).submitted_at (updated a t now code).verified_at
  times-updated submit w h = ground arith
  times-updated verify w h = ground arith
  times-updated fail_for_now w h = ground arith
  times-updated fail_for_good w h = ground arith
  times-updated lose_track w h = ground arith
  times-updated resubmit w h = ground arith

module _ (target : ActionState) (code : Option String) where
  -- the two checks of `transition_action` on the error code
  abbrev carries_no_error : Bool
  carries_no_error =
      (target is_in (ActionState.succeeded ∷ ActionState.submitted ∷ [])) && is_some code

  abbrev lacks_error : Bool
  lacks_error =
      (target is_in (
        ActionState.failed_retryable ∷ ActionState.failed_terminal ∷ ActionState.uncertain ∷ []))
      && not (truthy code)

checks_of_ErrorFits :
    {s t : ActionState} (code : Option String)
    → ActionEdge s t
    → ErrorFits t code
    → (carries_no_error t code ≡ false) × (lacks_error t code ≡ false)
checks_of_ErrorFits code submit h = ground arith
checks_of_ErrorFits code verify h = ground arith
checks_of_ErrorFits code fail_for_now h = ground arith
checks_of_ErrorFits code fail_for_good h = ground arith
checks_of_ErrorFits code lose_track h = ground arith
checks_of_ErrorFits code resubmit h = ground arith

ErrorFits-of_checks :
    {s t : ActionState} (code : Option String)
    → ActionEdge s t
    → carries_no_error t code ≡ false
    → lacks_error t code ≡ false
    → ErrorFits t code
ErrorFits-of_checks code submit h k = ground arith
ErrorFits-of_checks code verify h k = ground arith
ErrorFits-of_checks code fail_for_now h k = ground arith
ErrorFits-of_checks code fail_for_good h k = ground arith
ErrorFits-of_checks code lose_track h k = ground arith
ErrorFits-of_checks code resubmit h k = ground arith

-- A move that is accepted follows an edge of the documented lifecycle at an aware time, carries an
-- error code exactly if it records a failure or an uncertain result, gives a valid action, and
-- changes only the state, the error code and the two times: the first submission's time stays, and
-- success is dated.
pub transition_action_sound :
    (a : ActionExecution) (target : ActionState) (now : Timestamp) (code : Option String)
    (a' : ActionExecution)
    → transition_action a target now code ≡ ok a'
    → ActionEdge a.action_state target
      × (is_aware now ≡ true)
      × ErrorFits target code
      × IsValidAction a'
      × (a' ≡ acted a target now code)
unfolding transition_action validated_update
transition_action_sound a target now code a' h =
    let (allowed, h₁) = >>-eq-ok _ _ h in
    let (timed, h₂) = >>-eq-ok _ _ h₁ in
    let (carries, h₃) = >>-eq-ok _ _ h₂ in
    let (lacks, built) = >>-eq-ok _ _ h₃ in
    let (v, same) = validate_action-eq-ok _ a' built in
    let edge = ActionEdge-of_assert_allowed a.action_state target allowed in
    (
      edge,
      not-eq-false _ (raise_if-eq-ok _ _ timed),
      ErrorFits-of_checks code edge (raise_if-eq-ok _ _ carries) (raise_if-eq-ok _ _ lacks),
      rw same v,
      same ∙ updated-eq-acted a target now code,
    )

-- On a valid action every edge is accepted, at an aware time and with a fitting error code: neither
-- the guards nor the validator refuse it.
pub transition_action_complete :
    (a : ActionExecution) (target : ActionState) (now : Timestamp) (code : Option String)
    → IsValidAction a
    → ActionEdge a.action_state target
    → is_aware now ≡ true
    → ErrorFits target code
    → transition_action a target now code ≡ ok (acted a target now code)
unfolding transition_action validated_update action_fields_valid
transition_action_complete a target now code v edge timed fits =
    let (carries, lacks) = checks_of_ErrorFits code edge fits in
    >>_of_ok _ _ (assert_allowed_of_ActionEdge edge) (
      >>_of_ok _ _ (rw timed) (
        >>_of_ok _ _ (raise_if_of_false _ _ carries) (
          >>_of_ok _ _ (raise_if_of_false _ _ lacks) (
            validate_action_of_IsValidAction (updated a target now code) (record {
              fields = v.fields;
              times = times-updated a now code edge timed v.times;
            })))))
    ∙ ap ok (updated-eq-acted a target now code)
