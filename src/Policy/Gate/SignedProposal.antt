-- ===== src/Policy/Gate/SignedProposal.antt =====
-- policy/evidence_gate.py, `evaluate_signed_not_received`: exactly when it proposes a ticket.
use ecommerce_after_sales_ag.Common.{
  true, false, not, ◌&&◌, some, ◌≡◌, refl, ◌↔◌, arith, is_some, is_none, Option-cases, not-eq-false,
  inl, inr, ap,
}
use ecommerce_after_sales_ag.Common.{String}
use ecommerce_after_sales_ag.Domain.State.{evidence_gate_decision_enum}
use ecommerce_after_sales_ag.Tools.Contracts.{OrderContextPayload, PolicyFactSnapshot}
use ecommerce_after_sales_ag.Policy.Gate.Facts.{
  SignedNotReceivedEvidence, gate_result, revision, proposal_allowed,
}
use ecommerce_after_sales_ag.Policy.Gate.Guards.{active_ticket, target_shipment}
use ecommerce_after_sales_ag.Policy.Gate.Clear.{
  or_else-proposes, CommonClear, common_guard-Blocks, common_guard_iff, Available,
  unavailable_result-Blocks, unavailable_result_iff, if-proposes,
}
use ecommerce_after_sales_ag.Policy.Gate.Signed.{
  signed_ticket_stage, signed_order_stage, evaluate_signed_not_received, target_delivered,
}
use ecommerce_after_sales_ag.Policy.Gate.SignedReady.{
  SomeReady, timeline_stage_only_if, timeline_stage_if,
}

module _ (canonical_hash : PolicyFactSnapshot → String) where
  ticket_stage_iff :
      (f : SignedNotReceivedEvidence) (order : OrderContextPayload)
      → Available f.order_context.envelope
      → (proposal_allowed (signed_ticket_stage canonical_hash f order) ≡ true) ↔ (
          Available f.existing_tickets.envelope
          × ((active_ticket f.existing_tickets ≡ false) × SomeReady canonical_hash f order))
  unfolding signed_ticket_stage gate_result proposal_allowed
  ticket_stage_iff f order a = (
    (λ h.
        let (silent, k) =
          (or_else-proposes _ _ (unavailable_result-Blocks _ f.critical_retry_exhausted)).0 h in
        let (t, u) = (unavailable_result_iff _ _).0 silent in
        let (idle, rest) = (if-proposes _ _ _ refl).0 k in
        (t, (idle, timeline_stage_only_if canonical_hash f order rest))),
    (λ (t, (idle, r)).
        (or_else-proposes _ _ (unavailable_result-Blocks _ f.critical_retry_exhausted)).1 (
          (unavailable_result_iff _ _).1 (t, tt),
          (if-proposes _ _ _ refl).1 (idle, timeline_stage_if canonical_hash f order a t r),
        )),
  )

  -- Everything that the gate asks for before it proposes a ticket.
  pub record Complete (f : SignedNotReceivedEvidence) (order : OrderContextPayload) : Type 0 where
    pub clear : CommonClear f.common
    pub order_read : Available f.order_context.envelope
    pub order_found : f.order_context.payload ≡ some order
    pub target_found :
        (is_some f.target_shipment_id && is_none (target_shipment order f.target_shipment_id))
        ≡ false
    pub delivered : target_delivered order (target_shipment order f.target_shipment_id) ≡ true
    pub tickets_read : Available f.existing_tickets.envelope
    pub no_active_ticket : active_ticket f.existing_tickets ≡ false
    pub case_ready : SomeReady canonical_hash f order

  order_stage_iff :
      (f : SignedNotReceivedEvidence) (order : OrderContextPayload)
      → CommonClear f.common
      → Available f.order_context.envelope
      → f.order_context.payload ≡ some order
      → (proposal_allowed (signed_order_stage canonical_hash f order) ≡ true) ↔ Complete f order
  unfolding signed_order_stage gate_result revision proposal_allowed
  order_stage_iff f order clear a there = (
    (λ h.
        let (known, k) = (if-proposes _ _ _ refl).0 h in
        let (delivered, rest) = (if-proposes _ _ _ refl).0 k in
        let (t, (idle, r)) = (ticket_stage_iff f order a).0 rest in
        record {
          clear = clear;
          order_read = a;
          order_found = there;
          target_found = known;
          delivered = not-eq-false _ delivered;
          tickets_read = t;
          no_active_ticket = idle;
          case_ready = r;
        }),
    (λ c. (if-proposes _ _ _ refl).1 (
      c.target_found,
      (if-proposes _ _ _ refl).1 (
        ap not c.delivered,
        (ticket_stage_iff f order a).1 (c.tickets_read, (c.no_active_ticket, c.case_ready)),
      ),
    )),
  )

  -- The gate proposes a ticket for a package that is reported missing exactly if, for the order that
  -- was read, every one of its conditions holds: the shared guards are clear, the order, the tickets,
  -- the timeline, the policy and the proof of delivery were read, the package is found and delivered,
  -- no ticket is active, its timeline has events, a policy governs the case and makes it eligible, the
  -- customer still misses it, no evidence contradicts the delivery, and no reception point is left
  -- unchecked.
  pub signed_proposal_iff :
      (f : SignedNotReceivedEvidence)
      → (proposal_allowed (evaluate_signed_not_received canonical_hash f) ≡ true)
        ↔ ((order : OrderContextPayload) × Complete f order)
  unfolding evaluate_signed_not_received gate_result proposal_allowed
  signed_proposal_iff f = (
    (λ h.
        let (silent, k) = (or_else-proposes _ _ (common_guard-Blocks f.common)).0 h in
        let (read, k) =
          (or_else-proposes _ _ (unavailable_result-Blocks _ f.critical_retry_exhausted)).0 k in
        let (a, u) = (unavailable_result_iff _ _).0 read in
        elim (Option-cases f.order_context.payload) [
          | inl missing ↦ absurd (ground (arith, missing, k))
          | inr (order, there) ↦ (
            order,
            (order_stage_iff f order ((common_guard_iff f.common).0 silent) a there).0
                (ground (arith, there, k)),
          )
        ]),
    (λ (order, c). (or_else-proposes _ _ (common_guard-Blocks f.common)).1 (
      (common_guard_iff f.common).1 c.clear,
      (or_else-proposes _ _ (unavailable_result-Blocks _ f.critical_retry_exhausted)).1 (
        (unavailable_result_iff _ _).1 (c.order_read, tt),
        rw c.order_found ((order_stage_iff f order c.clear c.order_read c.order_found).1 c),
      ),
    )),
  )
