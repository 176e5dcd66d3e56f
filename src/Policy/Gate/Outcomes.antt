-- ===== src/Policy/Gate/Outcomes.antt =====
-- policy/evidence_gate.py: every result that the gate builds passes the validator of its model.
use ecommerce_after_sales_ag.Common.{
  String, ℕ, Bool, true, false, Option, none, some, ◌≡◌, refl, arith, non_empty, Option-cases, inl,
  inr, [], ◌∷◌, if◌then◌else◌,
}
use ecommerce_after_sales_ag.Common.Result.{ok}
use ecommerce_after_sales_ag.Domain.State.{EvidenceGateDecision, IssueType, TriageIntent}
use ecommerce_after_sales_ag.Tools.Contracts.{
  ToolResult, OrderContextPayload, ShipmentSummaryPayload, LogisticsTimelinePayload,
  PolicySearchPayload, PolicyFactSnapshot, CarrierServiceAlertsPayload,
}
use ecommerce_after_sales_ag.Policy.Gate.Facts.{
  EvidenceGateResult, exactly_one_outcome, CommonGateFacts, SignedNotReceivedEvidence,
  StalledTrackingEvidence, Named, gate_result, revision, or_else,
}
use ecommerce_after_sales_ag.Policy.Gate.Guards.{
  common_guard, unavailable_answer, unavailable_result, policy_payload_guard, policy_guard,
}
use ecommerce_after_sales_ag.Policy.Gate.Signed.{
  retry_or_support, signed_proof_stage, signed_eligibility_stage, signed_timeline_stage,
  signed_ticket_stage, signed_order_stage, evaluate_signed_not_received,
}
use ecommerce_after_sales_ag.Policy.Gate.Stalled.{
  not_in_transit_reason, alerts_guard, stalled_ticket_stage, stalled_alerts_stage,
  stalled_elapsed_stage, stalled_threshold_stage, stalled_eligibility_stage, stalled_timeline_stage,
  stalled_order_stage, evaluate_stalled_tracking, GateFacts, signed, stalled,
  evaluate_evidence_gate,
}

-- The validator accepts the result and gives it back.
unfoldable Accepted : EvidenceGateResult → Type 0
Accepted r = exactly_one_outcome r ≡ ok r

abbrev AcceptedIf : Option EvidenceGateResult → Type 0
AcceptedIf none = Unit
AcceptedIf (some r) = Accepted r

-- the evidence is of the kind that the issue asks for
abbrev pub fits : IssueType → GateFacts → Bool
fits IssueType.signed_not_received (signed f) = true
fits IssueType.signed_not_received (stalled f) = false
fits IssueType.stalled_tracking (stalled f) = true
fits IssueType.stalled_tracking (signed f) = false

gate_result-Accepted :
    (d : EvidenceGateDecision) (reason : String) (results : Named)
    → non_empty reason ≡ true
    → Accepted (gate_result d reason results)
unfolding Accepted exactly_one_outcome gate_result
gate_result-Accepted d reason results h = rw h

revision-Accepted :
    (issue : TriageIntent) (reason : String) (results : Named)
    → non_empty reason ≡ true
    → Accepted (revision issue reason results)
unfolding Accepted exactly_one_outcome revision
revision-Accepted issue reason results h = rw h

if-Accepted :
    (b : Bool) (r rest : EvidenceGateResult)
    → Accepted r
    → Accepted rest
    → Accepted (if b then r else rest)
if-Accepted true r rest h k = h
if-Accepted false r rest h k = k

or_else-Accepted :
    (g : Option EvidenceGateResult) (rest : EvidenceGateResult)
    → AcceptedIf g
    → Accepted rest
    → Accepted (or_else g rest)
or_else-Accepted none rest h k = k
or_else-Accepted (some r) rest h k = h

common_guard-Accepted : (f : CommonGateFacts) → AcceptedIf (common_guard f)
unfolding Accepted common_guard exactly_one_outcome gate_result
common_guard-Accepted f = ground arith

unavailable-Accepted : (d : Named) (exhausted : Bool) → AcceptedIf (unavailable_answer d exhausted)
unfolding Accepted unavailable_answer exactly_one_outcome gate_result
unavailable-Accepted [] exhausted = tt
unavailable-Accepted (e ∷ es) exhausted = ground arith

unavailable_result-Accepted :
    (d : Named) (exhausted : Bool) → AcceptedIf (unavailable_result d exhausted)
unfolding unavailable_result
unavailable_result-Accepted d exhausted = unavailable-Accepted _ exhausted

retry_or_support-Accepted :
    (refreshed : Bool) (reason : String) (d : Named)
    → non_empty reason ≡ true
    → Accepted (retry_or_support refreshed reason d)
retry_or_support-Accepted refreshed reason d h = gate_result-Accepted _ reason d h

ruleset accepting = (
  or_else-Accepted, unavailable_result-Accepted, if-Accepted, gate_result-Accepted,
  retry_or_support-Accepted, revision-Accepted, refl,
)

signed_proof-Accepted : (f : SignedNotReceivedEvidence) → Accepted (signed_proof_stage f)
unfolding signed_proof_stage
signed_proof-Accepted f = search (accepting)

signed_eligibility-Accepted :
    (f : SignedNotReceivedEvidence) (o : Option PolicyFactSnapshot)
    → Accepted (signed_eligibility_stage f o)
unfolding signed_eligibility_stage
signed_eligibility-Accepted f none = search (accepting)
signed_eligibility-Accepted f (some facts) = search (accepting, signed_proof-Accepted)

stalled_ticket-Accepted : (f : StalledTrackingEvidence) → Accepted (stalled_ticket_stage f)
unfolding stalled_ticket_stage
stalled_ticket-Accepted f = search (accepting)

alerts_guard-Accepted :
    (a : Option (ToolResult CarrierServiceAlertsPayload)) (exhausted : Bool)
    → AcceptedIf (alerts_guard a exhausted)
alerts_guard-Accepted none exhausted = tt
alerts_guard-Accepted (some a) exhausted = unavailable_result-Accepted _ exhausted

stalled_alerts-Accepted : (f : StalledTrackingEvidence) → Accepted (stalled_alerts_stage f)
unfolding stalled_alerts_stage
stalled_alerts-Accepted f = search (accepting, alerts_guard-Accepted, stalled_ticket-Accepted)

module _ (f : StalledTrackingEvidence) (order : OrderContextPayload)
    (timeline : LogisticsTimelinePayload) where
  stalled_elapsed-Accepted :
      (threshold : ℕ) (e : Option ℕ) → Accepted (stalled_elapsed_stage f order timeline threshold e)
  unfolding stalled_elapsed_stage
  stalled_elapsed-Accepted threshold none = search (accepting)
  stalled_elapsed-Accepted threshold (some elapsed) = search (accepting, stalled_alerts-Accepted)

  stalled_threshold-Accepted :
      (t : Option ℕ) → Accepted (stalled_threshold_stage f order timeline t)
  unfolding stalled_threshold_stage
  stalled_threshold-Accepted none = search (accepting)
  stalled_threshold-Accepted (some threshold) = search (accepting, stalled_elapsed-Accepted)

  stalled_eligibility-Accepted :
      (o : Option PolicyFactSnapshot) → Accepted (stalled_eligibility_stage f order timeline o)
  unfolding stalled_eligibility_stage
  stalled_eligibility-Accepted none = search (accepting)
  stalled_eligibility-Accepted (some facts) = search (accepting, stalled_threshold-Accepted)

module _ (canonical_hash : PolicyFactSnapshot → String) where
  policy_payload_guard-Accepted :
      (p : PolicySearchPayload) (order : OrderContextPayload) (issue : IssueType) (d : Named)
      → AcceptedIf (policy_payload_guard canonical_hash p order issue d)
  unfolding Accepted policy_payload_guard exactly_one_outcome gate_result
  policy_payload_guard-Accepted p order issue d = ground arith

  policy_guard-Accepted :
      (r : ToolResult PolicySearchPayload) (order : OrderContextPayload) (issue : IssueType)
      (d : Named)
      → AcceptedIf (policy_guard canonical_hash r order issue d)
  unfolding policy_guard
  policy_guard-Accepted r order issue d = elim (Option-cases r.payload) [
    | inl missing ↦ rw (missing, policy_guard) (search accepting)
    | inr (p, there) ↦ rw (there, policy_guard) (policy_payload_guard-Accepted p order issue d)
  ]

  signed_timeline-Accepted :
      (f : SignedNotReceivedEvidence) (order : OrderContextPayload)
      → Accepted (signed_timeline_stage canonical_hash f order)
  unfolding signed_timeline_stage
  signed_timeline-Accepted f order =
      search (accepting, policy_guard-Accepted, signed_eligibility-Accepted)

  signed_ticket-Accepted :
      (f : SignedNotReceivedEvidence) (order : OrderContextPayload)
      → Accepted (signed_ticket_stage canonical_hash f order)
  unfolding signed_ticket_stage
  signed_ticket-Accepted f order = search (accepting, signed_timeline-Accepted)

  signed_order-Accepted :
      (f : SignedNotReceivedEvidence) (order : OrderContextPayload)
      → Accepted (signed_order_stage canonical_hash f order)
  unfolding signed_order_stage
  signed_order-Accepted f order = search (accepting, signed_ticket-Accepted)

  signed-Accepted :
      (f : SignedNotReceivedEvidence) → Accepted (evaluate_signed_not_received canonical_hash f)
  unfolding evaluate_signed_not_received
  signed-Accepted f = or_else-Accepted _ _ (common_guard-Accepted f.common) (
      or_else-Accepted _ _ (unavailable_result-Accepted _ f.critical_retry_exhausted)
        (elim (Option-cases f.order_context.payload) [
          | inl missing ↦ rw missing (search accepting)
          | inr (order, there) ↦ rw there (signed_order-Accepted f order)
        ]))

  stalled_timeline-Accepted :
      (f : StalledTrackingEvidence) (order : OrderContextPayload)
      (t : Option LogisticsTimelinePayload)
      → Accepted (stalled_timeline_stage canonical_hash f order t)
  unfolding stalled_timeline_stage
  stalled_timeline-Accepted f order none = search (accepting)
  stalled_timeline-Accepted f order (some timeline) =
      search (accepting, policy_guard-Accepted, stalled_eligibility-Accepted)

  not_in_transit-Accepted :
      (s : Option ShipmentSummaryPayload) (d : Named)
      → Accepted (gate_result EvidenceGateDecision.complete_no_action (not_in_transit_reason s) d)
  not_in_transit-Accepted none d = search accepting
  not_in_transit-Accepted (some s) d = search accepting

  stalled_order-Accepted :
      (f : StalledTrackingEvidence) (order : OrderContextPayload)
      → Accepted (stalled_order_stage canonical_hash f order)
  unfolding stalled_order_stage
  stalled_order-Accepted f order =
      search (accepting, not_in_transit-Accepted, stalled_timeline-Accepted)

  stalled-Accepted :
      (f : StalledTrackingEvidence) → Accepted (evaluate_stalled_tracking canonical_hash f)
  unfolding evaluate_stalled_tracking
  stalled-Accepted f = or_else-Accepted _ _ (common_guard-Accepted f.common) (
      or_else-Accepted _ _ (unavailable_result-Accepted _ f.critical_retry_exhausted)
        (elim (Option-cases f.order_context.payload) [
          | inl missing ↦ rw missing (search accepting)
          | inr (order, there) ↦ rw there (stalled_order-Accepted f order)
        ]))

  -- For evidence of the kind that the issue asks for the gate answers, and its answer passes the
  -- validator of its model: it has a reason, and either a decision or an issue revision.
  pub gate_answers :
      (i : IssueType) (f : GateFacts)
      → fits i f ≡ true
      → (r : EvidenceGateResult) × (evaluate_evidence_gate canonical_hash i f ≡ ok r)
        × (exactly_one_outcome r ≡ ok r)
  unfolding evaluate_evidence_gate Accepted
  gate_answers IssueType.signed_not_received (signed f) h = (_, refl, signed-Accepted f)
  gate_answers IssueType.signed_not_received (stalled f) h = cc
  gate_answers IssueType.stalled_tracking (stalled f) h = (_, refl, stalled-Accepted f)
  gate_answers IssueType.stalled_tracking (signed f) h = cc
