-- ===== src/Policy/Gate/StalledProposal.antt =====
-- policy/evidence_gate.py, `evaluate_stalled_tracking`: exactly when it proposes a ticket.
use ecommerce_after_sales_ag.Common.{
  String, true, false, not, ◌&&◌, some, ◌≡◌, refl, ◌↔◌, arith, is_some, is_none, Option-cases,
  not-eq-false, inl, inr, ap,
}
use ecommerce_after_sales_ag.Domain.State.{evidence_gate_decision_enum}
use ecommerce_after_sales_ag.Tools.Contracts.{OrderContextPayload, PolicyFactSnapshot}
use ecommerce_after_sales_ag.Policy.Gate.Facts.{
  StalledTrackingEvidence, gate_result, revision, proposal_allowed,
}
use ecommerce_after_sales_ag.Policy.Gate.Guards.{target_shipment}
use ecommerce_after_sales_ag.Policy.Gate.Clear.{
  or_else-proposes, CommonClear, common_guard-Blocks, common_guard_iff, Available,
  unavailable_result-Blocks, unavailable_result_iff, if-proposes,
}
use ecommerce_after_sales_ag.Policy.Gate.StalledReady.{SomeOverdue, timeline_stage_iff}
use ecommerce_after_sales_ag.Policy.Gate.Stalled.{
  stalled_order_stage, evaluate_stalled_tracking, already_delivered, in_transit,
}

module _ (canonical_hash : PolicyFactSnapshot → String) where
  -- Everything that the gate asks for before it proposes a ticket.
  pub record StalledComplete (f : StalledTrackingEvidence) (order : OrderContextPayload)
      : Type 0 where
    pub clear : CommonClear f.common
    pub order_read : Available f.order_context.envelope
    pub timeline_read : Available f.timeline.envelope
    pub policy_read : Available f.policy.envelope
    pub order_found : f.order_context.payload ≡ some order
    pub target_found :
        (is_some f.target_shipment_id && is_none (target_shipment order f.target_shipment_id))
        ≡ false
    pub not_delivered : already_delivered (target_shipment order f.target_shipment_id) ≡ false
    pub on_its_way : in_transit order (target_shipment order f.target_shipment_id) ≡ true
    pub case_ready : SomeOverdue canonical_hash f order

  order_stage_iff :
      (f : StalledTrackingEvidence) (order : OrderContextPayload)
      → (proposal_allowed (stalled_order_stage canonical_hash f order) ≡ true) ↔ (
          ((is_some f.target_shipment_id && is_none (target_shipment order f.target_shipment_id))
            ≡ false)
          × (already_delivered (target_shipment order f.target_shipment_id) ≡ false)
          × (in_transit order (target_shipment order f.target_shipment_id) ≡ true)
          × SomeOverdue canonical_hash f order)
  unfolding stalled_order_stage gate_result revision proposal_allowed
  order_stage_iff f order = (
    (λ h.
        let (known, k) = (if-proposes _ _ _ refl).0 h in
        let (underway, k) = (if-proposes _ _ _ refl).0 k in
        let (moving, k) = (if-proposes _ _ _ refl).0 k in
        (known, underway, not-eq-false _ moving, (timeline_stage_iff canonical_hash f order).0 k)),
    (λ (known, underway, moving, r).
        let here = (timeline_stage_iff canonical_hash f order).1 r in
        let here = (if-proposes _ _ _ refl).1 (ap not moving, here) in
        let here = (if-proposes _ _ _ refl).1 (underway, here) in
        (if-proposes _ _ _ refl).1 (known, here)),
  )

  -- The gate proposes a ticket for a package whose tracking stalled exactly if, for the order that was
  -- read, every one of its conditions holds: the shared guards are clear, the order, the timeline, the
  -- policy, the carrier's alerts if there are any, and the tickets were read, the package is found and
  -- on its way, a policy governs the case, makes it eligible and states a threshold, the time since the
  -- last update is above that threshold, the order does not contradict its timeline, and no ticket and
  -- no recovery window is active.
  pub stalled_proposal_iff :
      (f : StalledTrackingEvidence)
      → (proposal_allowed (evaluate_stalled_tracking canonical_hash f) ≡ true)
        ↔ ((order : OrderContextPayload) × StalledComplete f order)
  unfolding evaluate_stalled_tracking gate_result proposal_allowed
  stalled_proposal_iff f = (
    (λ h.
        let (silent, k) = (or_else-proposes _ _ (common_guard-Blocks f.common)).0 h in
        let (read, k) =
          (or_else-proposes _ _ (unavailable_result-Blocks _ f.critical_retry_exhausted)).0 k in
        let (a, (t, (q, u))) = (unavailable_result_iff _ _).0 read in
        elim (Option-cases f.order_context.payload) [
          | inl missing ↦ absurd (ground (arith, missing, k))
          | inr (order, there) ↦
              let (known, underway, moving, r) =
                (order_stage_iff f order).0 (ground (arith, there, k)) in
              (
                order,
                record {
                  clear = (common_guard_iff f.common).0 silent;
                  order_read = a;
                  timeline_read = t;
                  policy_read = q;
                  order_found = there;
                  target_found = known;
                  not_delivered = underway;
                  on_its_way = moving;
                  case_ready = r;
                },
              )
        ]),
    (λ (order, c).
        let here =
          (order_stage_iff f order).1
            (c.target_found, c.not_delivered, c.on_its_way, c.case_ready) in
        (or_else-proposes _ _ (common_guard-Blocks f.common)).1 (
          (common_guard_iff f.common).1 c.clear,
          (or_else-proposes _ _ (unavailable_result-Blocks _ f.critical_retry_exhausted)).1 (
            (unavailable_result_iff _ _).1 (c.order_read, (c.timeline_read, (c.policy_read, tt))),
            rw c.order_found here,
          ),
        )),
  )
