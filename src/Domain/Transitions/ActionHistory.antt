-- ===== src/Domain/Transitions/ActionHistory.antt =====
-- domain/transitions.py: chains of action moves, from the submission to a final state.
use ecommerce_after_sales_ag.Common.{
  ℕ, ◌+◌, ◌≤◌, String, Bool, true, false, Option, some, List, [], ◌∷◌, ◌++◌, ◌≡◌, refl, ◌⊎◌, inl,
  inr, subst, arith, ap, if◌then◌else◌,
}
use ecommerce_after_sales_ag.Common.Enum.{◌is◌}
use ecommerce_after_sales_ag.Common.Time.{Timestamp}
use ecommerce_after_sales_ag.Common.Result.{Result, ok, ◌>>=◌, >>=-eq-ok, ok-injective}
use ecommerce_after_sales_ag.Domain.State.{ActionState, action_state_enum}
use ecommerce_after_sales_ag.Domain.Models.{ActionExecution}
use ecommerce_after_sales_ag.Domain.Transitions.{transition_action}
use ecommerce_after_sales_ag.Domain.Transitions.Actions.{
  ActionEdge, submit, verify, fail_for_now, fail_for_good, lose_track, resubmit,
  transition_action_sound,
}

-- The arguments of one call of `transition_action`.
pub record ActionMove : Type 0 where
  pub target : ActionState
  pub occurred_at : Timestamp
  pub error_code : Option String

-- A chain of moves, which stops at the first that is refused.
unfoldable pub run_action : ActionExecution → List ActionMove → Result ActionExecution
run_action a [] = ok a
run_action a (m ∷ ms) =
    transition_action a m.target m.occurred_at m.error_code >>= λ a'. run_action a' ms

-- Once an action has been submitted no chain of moves changes its submission time.
pub submission_time_kept :
    (a : ActionExecution) (ms : List ActionMove) (a' : ActionExecution) (t : Timestamp)
    → a.submitted_at ≡ some t
    → run_action a ms ≡ ok a'
    → a'.submitted_at ≡ some t
unfolding run_action
submission_time_kept a [] a' t e h = rw (← ok-injective h) e
submission_time_kept a (m ∷ ms) a' t e h =
    let (d, step, rest) = >>=-eq-ok _ _ h in
    let (_, _, _, _, same) = transition_action_sound a m.target m.occurred_at m.error_code d step in
    submission_time_kept d ms a' t (rw same (ground (arith, e))) rest

-- How many of the moves lead to the state.
unfoldable pub visits : ActionState → List ActionMove → ℕ
visits s [] = 0
visits s (m ∷ ms) = (if m.target is s then 1 else 0) + visits s ms

-- whether the next move may be a submission
abbrev may_submit : ActionState → ℕ
may_submit ActionState.ready = 1
may_submit ActionState.failed_retryable = 1
may_submit _ = 0

-- whether any move may follow
abbrev may_move : ActionState → Bool
may_move ActionState.ready = true
may_move ActionState.submitted = true
may_move ActionState.failed_retryable = true
may_move _ = false

may_move-ActionEdge : {s t : ActionState} → ActionEdge s t → may_move s ≡ true
may_move-ActionEdge submit = refl
may_move-ActionEdge verify = refl
may_move-ActionEdge fail_for_now = refl
may_move-ActionEdge fail_for_good = refl
may_move-ActionEdge lose_track = refl
may_move-ActionEdge resubmit = refl

may_submit-ActionEdge :
    {s t : ActionState}
    → ActionEdge s t
    → (if t is ActionState.submitted then 1 else 0) + may_submit t
      ≤ may_submit s + (if t is ActionState.failed_retryable then 1 else 0)
may_submit-ActionEdge submit = omega arith
may_submit-ActionEdge verify = omega arith
may_submit-ActionEdge fail_for_now = omega arith
may_submit-ActionEdge fail_for_good = omega arith
may_submit-ActionEdge lose_track = omega arith
may_submit-ActionEdge resubmit = omega arith

submissions-le :
    (a : ActionExecution) (ms : List ActionMove) (a' : ActionExecution)
    → run_action a ms ≡ ok a'
    → visits ActionState.submitted ms + may_submit a'.action_state
      ≤ may_submit a.action_state + visits ActionState.failed_retryable ms
unfolding run_action visits
submissions-le a [] a' h = rw (← ok-injective h) (omega arith)
submissions-le a (m ∷ ms) a' h =
    let (d, step, rest) = >>=-eq-ok _ _ h in
    let (edge, _, _, _, same) =
      transition_action_sound a m.target m.occurred_at m.error_code d step in
    let reached : d.action_state ≡ m.target = ap (λ (x : ActionExecution). x.action_state) same in
    let here = may_submit-ActionEdge edge in
    let later : visits ActionState.submitted ms + may_submit a'.action_state
        ≤ may_submit m.target + visits ActionState.failed_retryable ms =
      rw (← reached) (submissions-le d ms a' rest) in
    omega (arith, here, later)

-- no move leaves a success, a final failure or an uncertain result
after_final :
    (a : ActionExecution) (ms : List ActionMove) (a' : ActionExecution)
    → run_action a ms ≡ ok a'
    → (ms ≡ []) ⊎ (may_move a.action_state ≡ true)
unfolding run_action
after_final a [] a' h = inl refl
after_final a (m ∷ ms) a' h =
    let (d, step, rest) = >>=-eq-ok _ _ h in
    inr
      (may_move-ActionEdge (transition_action_sound a m.target m.occurred_at m.error_code d step).0)

-- no move leads back to `ready`
reached-ActionEdge :
    {s t : ActionState}
    → ActionEdge s t
    → may_move t ≡ true
    → (t ≡ ActionState.submitted) ⊎ (t ≡ ActionState.failed_retryable)
reached-ActionEdge submit h = inl refl
reached-ActionEdge resubmit h = inl refl
reached-ActionEdge fail_for_now h = inr refl
reached-ActionEdge verify h = cc
reached-ActionEdge fail_for_good h = cc
reached-ActionEdge lose_track h = cc

after_each :
    (a : ActionExecution) (before : List ActionMove) (m : ActionMove) (after : List ActionMove)
    (a' : ActionExecution)
    → run_action a (before ++ m ∷ after) ≡ ok a'
    → (after ≡ []) ⊎ (m.target ≡ ActionState.submitted) ⊎ (m.target ≡ ActionState.failed_retryable)
unfolding run_action
after_each a [] m after a' h =
    let (d, step, rest) = >>=-eq-ok (transition_action a m.target m.occurred_at m.error_code) _ h in
    let (edge, _, _, _, same) =
      transition_action_sound a m.target m.occurred_at m.error_code d step in
    let reached : d.action_state ≡ m.target = ap (λ (x : ActionExecution). x.action_state) same in
    elim (after_final d after a' rest) [
      | inl k ↦ inl k
      | inr k ↦ inr (reached-ActionEdge edge (subst (λ s. may_move s ≡ true) reached k))
    ]
after_each a (n ∷ before) m after a' h =
    let (d, step, rest) =
      >>=-eq-ok (transition_action a n.target n.occurred_at n.error_code)
        (λ d. run_action d (before ++ m ∷ after)) h in
    after_each d before m after a' rest

-- Along accepted moves from a ready action it is submitted at most once more than a retryable failure is
-- recorded. A move that another move follows is a submission or a retryable failure: nothing at all,
-- and so no submission, follows a success, a final failure or an uncertain result.
pub submissions_bounded :
    (a : ActionExecution) (before : List ActionMove) (m : ActionMove) (after : List ActionMove)
    (a' : ActionExecution)
    → a.action_state ≡ ActionState.ready
    → run_action a (before ++ m ∷ after) ≡ ok a'
    → (visits ActionState.submitted (before ++ m ∷ after)
        ≤ 1 + visits ActionState.failed_retryable (before ++ m ∷ after))
      × ((after ≡ [])
          ⊎ (m.target ≡ ActionState.submitted)
          ⊎ (m.target ≡ ActionState.failed_retryable))
submissions_bounded a before m after a' e h =
    let start : may_submit a.action_state ≡ 1 = rw e in
    (
      omega (arith, submissions-le a (before ++ m ∷ after) a' h, start),
      after_each a before m after a' h,
    )
