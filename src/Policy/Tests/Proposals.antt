-- ===== src/Policy/Tests/Proposals.antt =====
-- The gate on the evidence of two complete cases.
use ecommerce_after_sales_ag.Common.{true, none, ◌≡◌, refl, ◌↔◌, []}
use ecommerce_after_sales_ag.Domain.State.{IssueType, OrderStatus}
use ecommerce_after_sales_ag.Tools.Contracts.{OrderContextPayload, verified_for_gate}
use ecommerce_after_sales_ag.Policy.Gate.Facts.{
  EvidenceGateResult, exactly_one_outcome, proposal_allowed, gate_result,
}
use ecommerce_after_sales_ag.Policy.Gate.Guards.{
  common_guard, unavailable_result, unavailable_answer, is_unavailable, active_ticket,
  target_shipment, target_timeline, policy_guard, policy_payload_guard, in_scope, out_of_window,
  covers, required_codes, has_structural_timeline_conflict, conflict_target, contradicts_timeline,
  sort_events,
}
use ecommerce_after_sales_ag.Policy.Gate.Signed.{
  evaluate_signed_not_received, signed_order_stage, signed_ticket_stage, signed_timeline_stage,
  signed_eligibility_stage, signed_proof_stage, reception_unchecked,
}
use ecommerce_after_sales_ag.Policy.Gate.Stalled.{
  evaluate_stalled_tracking, stalled_order_stage, stalled_timeline_stage, stalled_eligibility_stage,
  stalled_threshold_stage, stalled_elapsed_stage, stalled_alerts_stage, stalled_ticket_stage,
  stalled, evaluate_evidence_gate,
}
use ecommerce_after_sales_ag.Policy.Gate.Governed.{SomePolicy, policy_guard_iff}
use ecommerce_after_sales_ag.Policy.Gate.SignedProposal.{Complete, signed_proposal_iff}
use ecommerce_after_sales_ag.Policy.Gate.StalledProposal.{StalledComplete, stalled_proposal_iff}
use ecommerce_after_sales_ag.Common.Result.{ok}
use ecommerce_after_sales_ag.Policy.Gate.Outcomes.{gate_answers}
use ecommerce_after_sales_ag.Policy.Tests.Evidence.{
  fixed_hash, signed_evidence, stalled_evidence, order_in,
}

policy_guard_iff_example :
    (policy_guard fixed_hash signed_evidence.policy
        (order_in OrderStatus.delivered)
        IssueType.signed_not_received
        []
      ≡ none)
    ↔ SomePolicy fixed_hash signed_evidence.policy
        (order_in OrderStatus.delivered)
        IssueType.signed_not_received
policy_guard_iff_example =
    policy_guard_iff fixed_hash signed_evidence.policy (order_in OrderStatus.delivered)
      IssueType.signed_not_received []

signed_proposal_iff_example :
    (proposal_allowed (evaluate_signed_not_received fixed_hash signed_evidence) ≡ true)
    ↔ ((order : OrderContextPayload) × Complete fixed_hash signed_evidence order)
signed_proposal_iff_example = signed_proposal_iff fixed_hash signed_evidence

stalled_proposal_iff_example :
    (proposal_allowed (evaluate_stalled_tracking fixed_hash stalled_evidence) ≡ true)
    ↔ ((order : OrderContextPayload) × StalledComplete fixed_hash stalled_evidence order)
stalled_proposal_iff_example = stalled_proposal_iff fixed_hash stalled_evidence

-- both complete cases are in fact proposed
signed_evidence_proposes :
    proposal_allowed (evaluate_signed_not_received fixed_hash signed_evidence) ≡ true
unfolding evaluate_signed_not_received signed_order_stage signed_ticket_stage signed_timeline_stage
    signed_eligibility_stage signed_proof_stage reception_unchecked common_guard unavailable_result
    unavailable_answer is_unavailable active_ticket target_shipment target_timeline policy_guard
    policy_payload_guard verified_for_gate in_scope out_of_window covers required_codes gate_result
    proposal_allowed
signed_evidence_proposes = refl

stalled_evidence_proposes :
    proposal_allowed (evaluate_stalled_tracking fixed_hash stalled_evidence) ≡ true
unfolding evaluate_stalled_tracking stalled_order_stage stalled_timeline_stage
    stalled_eligibility_stage stalled_threshold_stage stalled_elapsed_stage stalled_alerts_stage
    stalled_ticket_stage has_structural_timeline_conflict conflict_target contradicts_timeline
    sort_events common_guard unavailable_result unavailable_answer is_unavailable active_ticket
    target_shipment target_timeline policy_guard policy_payload_guard verified_for_gate in_scope
    out_of_window covers required_codes gate_result proposal_allowed
stalled_evidence_proposes = refl

gate_answers_example :
    (r : EvidenceGateResult) × (evaluate_evidence_gate fixed_hash IssueType.stalled_tracking
        (stalled stalled_evidence)
      ≡ ok r)
    × (exactly_one_outcome r ≡ ok r)
gate_answers_example =
    gate_answers fixed_hash IssueType.stalled_tracking (stalled stalled_evidence) refl
