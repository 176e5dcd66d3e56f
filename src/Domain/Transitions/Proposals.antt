-- ===== src/Domain/Transitions/Proposals.antt =====
-- domain/transitions.py, `transition_proposal`: the single decision on a proposal.
use ecommerce_after_sales_ag.Common.{
  ◌+◌, ◌==◌, true, false, not, ◌≡◌, refl, ◌≢◌, ◌↔◌, arith, sym, ◌∙◌, ap, not-eq-false,
}
use ecommerce_after_sales_ag.Common.Time.{is_aware, instant, minutes}
use ecommerce_after_sales_ag.Common.Result.{
  ok, >>-eq-ok, >>_of_ok, raise_if-eq-ok, raise_if_of_false, ok-injective,
}
use ecommerce_after_sales_ag.Domain.State.{ProposalState, proposal_state_enum}
use ecommerce_after_sales_ag.Domain.Models.{
  ActionProposal, validate_proposal, proposal_fields_valid, validate_lifetime,
}
use ecommerce_after_sales_ag.Domain.Transitions.{
  transition_proposal, assert_allowed, proposal_transitions, validated_update,
}

pending_of_assert_allowed :
    (s t : ProposalState)
    → assert_allowed s t proposal_transitions ≡ ok tt
    → (s ≡ ProposalState.pending_confirmation) × (t ≢ ProposalState.pending_confirmation)
unfolding assert_allowed proposal_transitions
pending_of_assert_allowed ProposalState.pending_confirmation ProposalState.pending_confirmation h =
    cc
pending_of_assert_allowed ProposalState.pending_confirmation _ h = (refl, λ e. cc)
pending_of_assert_allowed _ _ h = cc

assert_allowed_of_pending :
    (s t : ProposalState)
    → (s ≡ ProposalState.pending_confirmation) × (t ≢ ProposalState.pending_confirmation)
    → assert_allowed s t proposal_transitions ≡ ok tt
unfolding assert_allowed proposal_transitions
assert_allowed_of_pending ProposalState.pending_confirmation ProposalState.pending_confirmation h =
    absurd (h.1 refl)
assert_allowed_of_pending ProposalState.pending_confirmation _ h = refl
assert_allowed_of_pending _ _ h = cc

-- What the validator asks of a proposal: the field constraints, and a life of exactly 15 minutes.
pub record IsValidProposal (p : ActionProposal) : Type 0 where
  pub fields : proposal_fields_valid p ≡ true
  pub created : is_aware p.created_at ≡ true
  pub expires : is_aware p.expires_at ≡ true
  pub lifetime : instant p.expires_at ≡ instant p.created_at + minutes 15

validate_proposal-eq-ok :
    (p p' : ActionProposal) → validate_proposal p ≡ ok p' → IsValidProposal p × (p' ≡ p)
unfolding validate_proposal validate_lifetime
validate_proposal-eq-ok p p' h =
    let (fields, h₁) = >>-eq-ok _ _ h in
    let (created, h₂) = >>-eq-ok _ _ h₁ in
    let (expires, h₃) = >>-eq-ok _ _ h₂ in
    let (life, same) = >>-eq-ok _ _ h₃ in
    let exact : (instant p.expires_at == instant p.created_at + minutes 15) ≡ true =
      not-eq-false _ (raise_if-eq-ok _ _ life) in
    (
      record {
        fields = not-eq-false _ (raise_if-eq-ok _ _ fields);
        created = not-eq-false _ (raise_if-eq-ok _ _ created);
        expires = not-eq-false _ (raise_if-eq-ok _ _ expires);
        lifetime = ground (arith, exact);
      },
      sym (ok-injective same),
    )

validate_proposal_of_IsValidProposal :
    (p : ActionProposal) → IsValidProposal p → validate_proposal p ≡ ok p
unfolding validate_proposal validate_lifetime
validate_proposal_of_IsValidProposal p v =
    let exact : not (instant p.expires_at == instant p.created_at + minutes 15) ≡ false =
      ground (arith, v.lifetime) in
    >>_of_ok _ _ (raise_if_of_false _ _ (ap not v.fields)) (
      >>_of_ok _ _ (raise_if_of_false _ _ (ap not v.created)) (
        >>_of_ok _ _ (raise_if_of_false _ _ (ap not v.expires))
          (>>_of_ok _ _ (raise_if_of_false _ _ exact) refl)))

-- The validator accepts a proposal exactly if its fields are well formed, its two times are aware,
-- and it expires exactly 15 minutes after its creation.
pub validate_proposal_iff : (p : ActionProposal) → (validate_proposal p ≡ ok p) ↔ IsValidProposal p
validate_proposal_iff p =
    ((λ h. (validate_proposal-eq-ok p p h).0), (λ v. validate_proposal_of_IsValidProposal p v))

-- A valid proposal accepts a decision exactly if it is pending and the decision is another state;
-- the decision then changes nothing but the state.
pub transition_proposal_exact :
    (p : ActionProposal) (target : ProposalState) (p' : ActionProposal)
    → IsValidProposal p
    → (transition_proposal p target ≡ ok p') ↔ (
        (p.proposal_state ≡ ProposalState.pending_confirmation)
        × (target ≢ ProposalState.pending_confirmation)
        × (p' ≡ record p { proposal_state = target }))
unfolding transition_proposal validated_update proposal_fields_valid
transition_proposal_exact p target p' v = (
  (λ h.
      let (allowed, built) = >>-eq-ok _ _ h in
      let (pending, decides) = pending_of_assert_allowed p.proposal_state target allowed in
      (pending, decides, (validate_proposal-eq-ok _ p' built).1)),
  (λ (pending, decides, same).
      >>_of_ok _ _ (assert_allowed_of_pending p.proposal_state target (pending, decides)) (
        rw same (
          validate_proposal_of_IsValidProposal (record p { proposal_state = target })
            (record {
              fields = v.fields;
              created = v.created;
              expires = v.expires;
              lifetime = v.lifetime;
            })))),
)

-- A decision is final: after one that was accepted every further decision is refused.
pub decided_once :
    (p p' p'' : ActionProposal) (first second : ProposalState)
    → transition_proposal p first ≡ ok p'
    → transition_proposal p' second ≢ ok p''
unfolding transition_proposal validated_update
decided_once p p' p'' first second h k =
    let (allowed, built) = >>-eq-ok _ _ h in
    let (again, _) = >>-eq-ok _ _ k in
    let decides = (pending_of_assert_allowed p.proposal_state first allowed).1 in
    let pending = (pending_of_assert_allowed p'.proposal_state second again).0 in
    let same = (validate_proposal-eq-ok _ p' built).1 in
    decides (sym (ap (λ (x : ActionProposal). x.proposal_state) same) ∙ pending)
