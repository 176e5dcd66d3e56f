-- ===== src/Domain/Transitions/CaseHistory.antt =====
-- domain/transitions.py: chains of case moves, as the application makes them one after another.
use ecommerce_after_sales_ag.Common.{
  String, Bool, true, false, Option, List, [], ◌∷◌, ◌≡◌, refl, ◌≢◌, ◌⊎◌, inl, inr, or-true, any,
  sym, subst,
}
use ecommerce_after_sales_ag.Common.Enum.{◌is◌}
use ecommerce_after_sales_ag.Common.Result.{Result, ok, ◌>>=◌, >>=-eq-ok, ok-injective}
use ecommerce_after_sales_ag.Domain.State.{CaseState, CaseOutcome, case_state_enum}
use ecommerce_after_sales_ag.Domain.Models.{InvestigationCase}
use ecommerce_after_sales_ag.Domain.Transitions.{transition_case}
use ecommerce_after_sales_ag.Domain.Transitions.Cases.{
  CaseEdge, offer, confirm, transition_case_sound,
}

-- A request to move a case: the arguments of `transition_case`.
pub record CaseMove : Type 0 where
  pub target : CaseState
  pub outcome : Option CaseOutcome
  pub reason : Option String

-- A chain of moves, which stops at the first that is refused.
unfoldable pub run_moves : InvestigationCase → List CaseMove → Result InvestigationCase
run_moves c [] = ok c
run_moves c (m ∷ ms) = transition_case c m.target m.outcome m.reason >>= λ c'. run_moves c' ms

-- A closed case accepts no move.
pub closed_absorbs :
    (c : InvestigationCase) (m : CaseMove) (c' : InvestigationCase)
    → c.case_state ≡ CaseState.closed
    → transition_case c m.target m.outcome m.reason ≢ ok c'
closed_absorbs c m c' e h = no_edge m.target (
    subst (λ s. CaseEdge s m.target) e (transition_case_sound c m.target m.outcome m.reason c' h).0)
  where
    no_edge : (t : CaseState) → CaseEdge CaseState.closed t → ⊥
    no_edge t e = elim e [ ]

-- A case that neither awaits the customer's confirmation nor executes an action.
abbrev pub unconfirmed : CaseState → Bool
unconfirmed CaseState.awaiting_customer_confirmation = false
unconfirmed CaseState.executing_action = false
unconfirmed _ = true

unconfirmed-CaseEdge :
    {s t : CaseState}
    → CaseEdge s t
    → unconfirmed s ≡ true
    → ((t is CaseState.awaiting_customer_confirmation) ≡ true) ⊎ (unconfirmed t ≡ true)
unconfirmed-CaseEdge offer h = inl refl
unconfirmed-CaseEdge confirm h = cc
unconfirmed-CaseEdge _ h = inr refl

abbrev pub asks_confirmation : CaseMove → Bool
asks_confirmation m = m.target is CaseState.awaiting_customer_confirmation

-- A chain of accepted moves from a case that neither awaits confirmation nor executes an action
-- reaches the executing state only if one of the moves asked the customer to confirm.
pub execution_needs_confirmation :
    (c : InvestigationCase) (ms : List CaseMove) (c' : InvestigationCase)
    → unconfirmed c.case_state ≡ true
    → run_moves c ms ≡ ok c'
    → c'.case_state ≡ CaseState.executing_action
    → any asks_confirmation ms ≡ true
unfolding run_moves
execution_needs_confirmation c [] c' u h x = cc (ok-injective h, u, x)
execution_needs_confirmation c (m ∷ ms) c' u h x =
    let (d, step, rest) = >>=-eq-ok _ _ h in
    let (edge, _, _, same) = transition_case_sound c m.target m.outcome m.reason d step in
    elim (unconfirmed-CaseEdge edge u) [
      | inl asked ↦ rw asked
      | inr still ↦
          rw
            (execution_needs_confirmation d ms c'
              (subst (λ r. unconfirmed r.case_state ≡ true) (sym same) still) rest x)
            (or-true _)
    ]
