-- ===== src/Policy/Gate/Signed.antt =====
-- policy/evidence_gate.py, `evaluate_signed_not_received`. Each stage is the body from one early
-- return to the end, so the stages run in the order of the source.
use ecommerce_after_sales_ag.Common.{
  String, Bool, true, false, not, ◌&&◌, Option, none, some, List, [], ◌∷◌, ◌++◌, contains, is_empty,
  is_some, is_none, str_eq, if◌then◌else◌,
}
use ecommerce_after_sales_ag.Common.Enum.{value_of, ◌is◌}
use ecommerce_after_sales_ag.Domain.State.{
  EvidenceGateDecision, OrderStatus, IssueType, TriageIntent, DeliveryProofStatus,
  order_status_enum, delivery_proof_status_enum,
}
use ecommerce_after_sales_ag.Tools.Contracts.{
  OrderContextPayload, ShipmentSummaryPayload, LogisticsTimelinePayload, PolicySearchPayload,
  PolicyFactSnapshot,
}
use ecommerce_after_sales_ag.Policy.Gate.Facts.{
  EvidenceGateResult, SignedNotReceivedEvidence, Named, gate_result, revision, or_else,
}
use ecommerce_after_sales_ag.Policy.Gate.Guards.{
  common_guard, unavailable_result, active_ticket, target_shipment, target_timeline, policy_guard,
}

abbrev order_only : SignedNotReceivedEvidence → Named
order_only f = ("order_context", f.order_context.envelope) ∷ []

abbrev tickets_only : SignedNotReceivedEvidence → Named
tickets_only f = ("existing_tickets", f.existing_tickets.envelope) ∷ []

abbrev pub pre_pod_critical : SignedNotReceivedEvidence → Named
pre_pod_critical f =
    ("order_context", f.order_context.envelope)
    ∷ ("timeline", f.timeline.envelope)
    ∷ ("existing_tickets", f.existing_tickets.envelope)
    ∷ ("policy", f.policy.envelope)
    ∷ []

abbrev proof_only : SignedNotReceivedEvidence → Named
proof_only f = ("delivery_proof", f.delivery_proof.envelope) ∷ []

abbrev pub all_critical : SignedNotReceivedEvidence → Named
all_critical f = pre_pod_critical f ++ proof_only f

abbrev pub reception_recipient_types : List String
reception_recipient_types =
    "self" ∷ "family" ∷ "front_desk" ∷ "neighbor" ∷ "collection_point" ∷ "locker" ∷ []

abbrev known_recipient : Option String → Bool
known_recipient none = false
known_recipient (some r) = contains r reception_recipient_types

-- the proof names a reception point that the customer has not checked yet
unfoldable pub reception_unchecked : SignedNotReceivedEvidence → Bool
reception_unchecked f = elim f.delivery_proof.payload [
  | none ↦ false
  | some p ↦
      p.pod_status is DeliveryProofStatus.found
      && known_recipient p.recipient_type
      && not f.reception_locations_checked
]

unfoldable pub signed_proof_stage : SignedNotReceivedEvidence → EvidenceGateResult
signed_proof_stage f = or_else (unavailable_result (proof_only f) f.critical_retry_exhausted) (
    if f.delivery_location_conflict
    then gate_result EvidenceGateDecision.require_human_support "DELIVERY_EVIDENCE_CONFLICT"
        (all_critical f)
    else if reception_unchecked f
    then gate_result EvidenceGateDecision.request_business_clarification "CHECK_RECEPTION_LOCATION"
        (all_critical f)
    else gate_result EvidenceGateDecision.propose_ticket "SIGNED_NOT_RECEIVED_EVIDENCE_COMPLETE"
        (all_critical f))

-- `facts.policy.payload.policy_fact_snapshot if facts.policy.payload else None`
abbrev pub facts_of : Option PolicySearchPayload → Option PolicyFactSnapshot
facts_of none = none
facts_of (some p) = p.policy_fact_snapshot

-- what to do without a timeline: one directed refresh, then human support
abbrev pub retry_or_support : Bool → String → Named → EvidenceGateResult
retry_or_support refreshed reason results =
    gate_result
      (if refreshed
        then EvidenceGateDecision.require_human_support
        else EvidenceGateDecision.retry_later)
      reason results

unfoldable pub signed_eligibility_stage :
    SignedNotReceivedEvidence → Option PolicyFactSnapshot → EvidenceGateResult
signed_eligibility_stage f none =
    gate_result EvidenceGateDecision.require_human_support "POLICY_CANONICAL_VALIDATION_FAILED"
      (pre_pod_critical f)
signed_eligibility_stage f (some facts) =
    if not facts.eligible
    then gate_result EvidenceGateDecision.complete_no_action "POLICY_NOT_ELIGIBLE"
        (pre_pod_critical f)
    else if not f.customer_still_reports_missing
    then gate_result EvidenceGateDecision.complete_no_action "CUSTOMER_REPORT_RESOLVED"
        (pre_pod_critical f)
    else signed_proof_stage f

-- `timeline.payload is None or not timeline.payload.events`
abbrev pub no_events : Option LogisticsTimelinePayload → Bool
no_events none = true
no_events (some t) = is_empty t.events

-- `_target_timeline(…) is None or not ….events`
abbrev pub no_target_events : Option LogisticsTimelinePayload → Option String → Bool
no_target_events none target = true
no_target_events (some t) target = elim (target_timeline t target) [
  | none ↦ true
  | some s ↦ is_empty s.events
]

-- the status by which a report that does not match is revised
abbrev current_status : OrderContextPayload → Option ShipmentSummaryPayload → String
current_status order none = value_of order.order_status
current_status order (some s) = s.shipment_status

unfoldable pub revised_issue : String → TriageIntent
revised_issue status =
    if contains status
      (value_of OrderStatus.shipped ∷ "in_transit" ∷ "out_for_delivery" ∷ "stalled" ∷ [])
    then TriageIntent.stalled_tracking
    else TriageIntent.other_logistics

abbrev pub target_delivered : OrderContextPayload → Option ShipmentSummaryPayload → Bool
target_delivered order none = order.order_status is OrderStatus.delivered
target_delivered order (some s) = str_eq s.shipment_status (value_of OrderStatus.delivered)

module _ (canonical_hash : PolicyFactSnapshot → String) where
  unfoldable pub signed_timeline_stage :
      SignedNotReceivedEvidence → OrderContextPayload → EvidenceGateResult
  signed_timeline_stage f order =
      or_else (unavailable_result (pre_pod_critical f) f.critical_retry_exhausted) (
        if no_events f.timeline.payload
        then retry_or_support f.directed_refresh_completed "DELIVERED_WITHOUT_TIMELINE_EVIDENCE"
            (pre_pod_critical f)
        else if no_target_events f.timeline.payload f.target_shipment_id
        then retry_or_support f.directed_refresh_completed "TARGET_TIMELINE_ABSENT"
            (pre_pod_critical f)
        else or_else
            (policy_guard canonical_hash f.policy order IssueType.signed_not_received
              (pre_pod_critical f))
            (signed_eligibility_stage f (facts_of f.policy.payload)))

  unfoldable pub signed_ticket_stage :
      SignedNotReceivedEvidence → OrderContextPayload → EvidenceGateResult
  signed_ticket_stage f order =
      or_else (unavailable_result (tickets_only f) f.critical_retry_exhausted) (
        if active_ticket f.existing_tickets
        then gate_result EvidenceGateDecision.complete_no_action "ACTIVE_LOGISTICS_TICKET_EXISTS"
            (tickets_only f)
        else signed_timeline_stage f order)

  unfoldable pub signed_order_stage :
      SignedNotReceivedEvidence → OrderContextPayload → EvidenceGateResult
  signed_order_stage f order =
      let target = target_shipment order f.target_shipment_id in
      if is_some f.target_shipment_id && is_none target
      then gate_result EvidenceGateDecision.require_human_support "TARGET_SHIPMENT_NOT_FOUND"
          (order_only f)
      else if not (target_delivered order target)
      then revision (revised_issue (current_status order target))
          "REPORTED_ISSUE_DOES_NOT_MATCH_ORDER_STATE" (order_only f)
      else signed_ticket_stage f order

  unfoldable pub evaluate_signed_not_received : SignedNotReceivedEvidence → EvidenceGateResult
  evaluate_signed_not_received f = or_else (common_guard f.common) (
      or_else (unavailable_result (order_only f) f.critical_retry_exhausted)
        (elim f.order_context.payload [
          | none ↦
              gate_result EvidenceGateDecision.require_human_support
                "ORDER_CONTEXT_ABSENT_AFTER_AUTHORIZATION" (order_only f)
          | some order ↦ signed_order_stage f order
        ]))
