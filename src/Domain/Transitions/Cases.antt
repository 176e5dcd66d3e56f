-- ===== src/Domain/Transitions/Cases.antt =====
-- domain/transitions.py, `transition_case`: the life of an investigation case.
use ecommerce_after_sales_ag.Common.{
  String, true, false, Option, none, ◌≡◌, refl, arith, truthy, is_some, not-eq-false, ◌↔◌,
}
use ecommerce_after_sales_ag.Common.Enum.{◌is◌}
use ecommerce_after_sales_ag.Common.Result.{ok, >>-eq-ok, >>_of_ok, raise_if-eq-ok}
use ecommerce_after_sales_ag.Domain.State.{CaseState, CaseOutcome, case_state_enum}
use ecommerce_after_sales_ag.Domain.Models.{
  InvestigationCase, validate_case, case_fields_valid, keep_state_and_outcome_consistent,
}
use ecommerce_after_sales_ag.Domain.Transitions.{
  transition_case, assert_allowed, case_transitions, check_closure, validated_update,
}

-- The documented lifecycle, edge by edge.
pub data CaseEdge : CaseState → CaseState → Type 0 where
  ask : CaseEdge CaseState.investigating CaseState.awaiting_customer_input
  offer : CaseEdge CaseState.investigating CaseState.awaiting_customer_confirmation
  postpone : CaseEdge CaseState.investigating CaseState.awaiting_retry
  conclude : CaseEdge CaseState.investigating CaseState.closed
  answer : CaseEdge CaseState.awaiting_customer_input CaseState.investigating
  hold : CaseEdge CaseState.awaiting_customer_input CaseState.awaiting_retry
  abandon : CaseEdge CaseState.awaiting_customer_input CaseState.closed
  confirm : CaseEdge CaseState.awaiting_customer_confirmation CaseState.executing_action
  decline : CaseEdge CaseState.awaiting_customer_confirmation CaseState.closed
  resume : CaseEdge CaseState.awaiting_retry CaseState.investigating
  give_up : CaseEdge CaseState.awaiting_retry CaseState.closed
  finish : CaseEdge CaseState.executing_action CaseState.closed

ruleset edges = (
  ask, offer, postpone, conclude, answer, hold, abandon, confirm, decline, resume, give_up, finish,
)

-- A closing move brings an outcome and a reason; any other brings neither.
abbrev pub ClosureFits : CaseState → Option CaseOutcome → Option String → Type 0
ClosureFits CaseState.closed outcome reason = (is_some outcome ≡ true) × (truthy reason ≡ true)
ClosureFits _ outcome reason = (outcome ≡ none) × (reason ≡ none)

abbrev pub moved :
    InvestigationCase → CaseState → Option CaseOutcome → Option String → InvestigationCase
moved c target outcome reason = record c {
  case_state = target;
  case_outcome = outcome;
  reason_code = reason;
}

assert_allowed_of_CaseEdge :
    {s t : CaseState} → CaseEdge s t → assert_allowed s t case_transitions ≡ ok tt
unfolding assert_allowed case_transitions
assert_allowed_of_CaseEdge ask = refl
assert_allowed_of_CaseEdge offer = refl
assert_allowed_of_CaseEdge postpone = refl
assert_allowed_of_CaseEdge conclude = refl
assert_allowed_of_CaseEdge answer = refl
assert_allowed_of_CaseEdge hold = refl
assert_allowed_of_CaseEdge abandon = refl
assert_allowed_of_CaseEdge confirm = refl
assert_allowed_of_CaseEdge decline = refl
assert_allowed_of_CaseEdge resume = refl
assert_allowed_of_CaseEdge give_up = refl
assert_allowed_of_CaseEdge finish = refl

CaseEdge-of_assert_allowed :
    (s t : CaseState) → assert_allowed s t case_transitions ≡ ok tt → CaseEdge s t
unfolding assert_allowed case_transitions
CaseEdge-of_assert_allowed CaseState.investigating CaseState.awaiting_customer_input h = ask
CaseEdge-of_assert_allowed CaseState.investigating CaseState.awaiting_customer_confirmation h =
    offer
CaseEdge-of_assert_allowed CaseState.investigating CaseState.awaiting_retry h = postpone
CaseEdge-of_assert_allowed CaseState.investigating CaseState.closed h = conclude
CaseEdge-of_assert_allowed CaseState.awaiting_customer_input CaseState.investigating h = answer
CaseEdge-of_assert_allowed CaseState.awaiting_customer_input CaseState.awaiting_retry h = hold
CaseEdge-of_assert_allowed CaseState.awaiting_customer_input CaseState.closed h = abandon
CaseEdge-of_assert_allowed CaseState.awaiting_customer_confirmation CaseState.executing_action h =
    confirm
CaseEdge-of_assert_allowed CaseState.awaiting_customer_confirmation CaseState.closed h = decline
CaseEdge-of_assert_allowed CaseState.awaiting_retry CaseState.investigating h = resume
CaseEdge-of_assert_allowed CaseState.awaiting_retry CaseState.closed h = give_up
CaseEdge-of_assert_allowed CaseState.executing_action CaseState.closed h = finish
CaseEdge-of_assert_allowed _ _ h = cc

check_closure_of_ClosureFits :
    (t : CaseState) (o : Option CaseOutcome) (r : Option String)
    → ClosureFits t o r
    → check_closure t o r ≡ ok tt
unfolding check_closure
check_closure_of_ClosureFits CaseState.closed o r h = ground arith
check_closure_of_ClosureFits _ o r h = ground arith

ClosureFits-of_check_closure :
    (t : CaseState) (o : Option CaseOutcome) (r : Option String)
    → check_closure t o r ≡ ok tt
    → ClosureFits t o r
unfolding check_closure
ClosureFits-of_check_closure CaseState.closed o r h = ground arith
ClosureFits-of_check_closure _ o r h = ground arith

-- What the validator asks of a case, read off its fields.
pub record IsValidCase (c : InvestigationCase) : Type 0 where
  pub fields : case_fields_valid c ≡ true
  pub closure : ClosureFits c.case_state c.case_outcome c.reason_code

module _ (c : InvestigationCase) where
  consistent_of_ClosureFits :
      (t : CaseState)
      → c.case_state ≡ t
      → ClosureFits t c.case_outcome c.reason_code
      → keep_state_and_outcome_consistent c ≡ ok c
  unfolding keep_state_and_outcome_consistent
  consistent_of_ClosureFits CaseState.closed e h = rw e (ground arith)
  consistent_of_ClosureFits _ e h = rw e (ground arith)

  ClosureFits-of_consistent :
      (t : CaseState) (c' : InvestigationCase)
      → c.case_state ≡ t
      → keep_state_and_outcome_consistent c ≡ ok c'
      → ClosureFits t c.case_outcome c.reason_code × (c' ≡ c)
  unfolding keep_state_and_outcome_consistent
  ClosureFits-of_consistent CaseState.closed c' e h =
      let shut : (c.case_state is CaseState.closed) ≡ true = rw e in ground (arith, shut)
  ClosureFits-of_consistent _ c' e h =
      let open' : (c.case_state is CaseState.closed) ≡ false = rw e in ground (arith, open')

validate_case-eq-ok :
    (c c' : InvestigationCase) → validate_case c ≡ ok c' → IsValidCase c × (c' ≡ c)
unfolding validate_case
validate_case-eq-ok c c' h =
    let (fields, rest) = >>-eq-ok _ _ h in
    let (closure, same) = ClosureFits-of_consistent c c.case_state c' refl rest in
    (record { fields = not-eq-false _ (raise_if-eq-ok _ _ fields); closure = closure }, same)

validate_case_of_IsValidCase : (c : InvestigationCase) → IsValidCase c → validate_case c ≡ ok c
unfolding validate_case
validate_case_of_IsValidCase c v =
    >>_of_ok _ _ (rw v.fields) (consistent_of_ClosureFits c c.case_state refl v.closure)

-- The validator accepts a case exactly if it is valid, and gives it back unchanged.
pub validate_case_iff : (c : InvestigationCase) → (validate_case c ≡ ok c) ↔ IsValidCase c
validate_case_iff c =
    ((λ h. (validate_case-eq-ok c c h).0), (λ v. validate_case_of_IsValidCase c v))

-- A move that is accepted follows an edge of the documented lifecycle, brings an outcome and a
-- reason exactly if it closes the case, gives a valid case, and changes no other field.
pub transition_case_sound :
    (c : InvestigationCase) (target : CaseState) (outcome : Option CaseOutcome)
    (reason : Option String) (c' : InvestigationCase)
    → transition_case c target outcome reason ≡ ok c'
    → CaseEdge c.case_state target
      × ClosureFits target outcome reason
      × IsValidCase c'
      × (c' ≡ moved c target outcome reason)
unfolding transition_case validated_update
transition_case_sound c target outcome reason c' h =
    let (allowed, rest) = >>-eq-ok _ _ h in
    let (fits, built) = >>-eq-ok _ _ rest in
    let (v, same) = validate_case-eq-ok _ c' built in
    (
      CaseEdge-of_assert_allowed c.case_state target allowed,
      ClosureFits-of_check_closure target outcome reason fits,
      rw same v,
      same,
    )

-- On a valid case every edge is accepted, with an outcome and a reason exactly if it closes the
-- case: neither the guards nor the validator refuse it.
pub transition_case_complete :
    (c : InvestigationCase) (target : CaseState) (outcome : Option CaseOutcome)
    (reason : Option String)
    → IsValidCase c
    → CaseEdge c.case_state target
    → ClosureFits target outcome reason
    → transition_case c target outcome reason ≡ ok (moved c target outcome reason)
unfolding transition_case validated_update case_fields_valid
transition_case_complete c target outcome reason v e f =
    >>_of_ok _ _ (assert_allowed_of_CaseEdge e) (
      >>_of_ok _ _ (check_closure_of_ClosureFits target outcome reason f) (
        validate_case_of_IsValidCase (moved c target outcome reason)
          (record { fields = v.fields; closure = f })))
