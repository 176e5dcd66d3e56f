-- ===== src/Policy/Gate/Stalled.antt =====
-- policy/evidence_gate.py, `evaluate_stalled_tracking` and `evaluate_evidence_gate`. Each stage is
-- the body from one early return to the end, so the stages run in the order of the source.
use ecommerce_after_sales_ag.Common.{
  ℕ, ◌*◌, String, Bool, false, not, ◌&&◌, Option, none, some, [], ◌∷◌, ◌++◌, any, contains, is_some,
  is_none, leb, str_eq, if◌then◌else◌,
}
use ecommerce_after_sales_ag.Common.Enum.{value_of, ◌is◌}
use ecommerce_after_sales_ag.Common.Result.{Result, ok, err, type_error}
use ecommerce_after_sales_ag.Domain.State.{
  EvidenceGateDecision, OrderStatus, IssueType, TriageIntent, order_status_enum,
}
use ecommerce_after_sales_ag.Tools.Contracts.{
  ToolResult, OrderContextPayload, ShipmentSummaryPayload, LogisticsTimelinePayload,
  PolicyFactSnapshot, CarrierServiceAlertsPayload, is_active,
}
use ecommerce_after_sales_ag.Policy.Gate.Facts.{
  EvidenceGateResult, SignedNotReceivedEvidence, StalledTrackingEvidence, Named, dict_set,
  gate_result, revision, or_else,
}
use ecommerce_after_sales_ag.Policy.Gate.Guards.{
  common_guard, unavailable_result, active_ticket, target_shipment, target_timeline, Scoped,
  active_shipment_states, has_structural_timeline_conflict, policy_guard,
}
use ecommerce_after_sales_ag.Policy.Gate.Signed.{
  facts_of, retry_or_support, evaluate_signed_not_received,
}

abbrev pub decision_inputs : StalledTrackingEvidence → Named
decision_inputs f =
    ("order_context", f.order_context.envelope)
    ∷ ("timeline", f.timeline.envelope)
    ∷ ("policy", f.policy.envelope)
    ∷ []

abbrev with_alerts : Option (ToolResult CarrierServiceAlertsPayload) → Named → Named
with_alerts none d = d
with_alerts (some a) d = dict_set "carrier_alerts" a.envelope d

unfoldable pub stalled_critical : StalledTrackingEvidence → Named
unfolding dict_set
stalled_critical f =
    with_alerts f.carrier_alerts
      (decision_inputs f ++ (("existing_tickets", f.existing_tickets.envelope) ∷ []))

-- an alert that is active when the alerts were observed; the validator of a result has made sure that
-- this time is aware, so `is_active_at` does not raise
abbrev pub recovery_window : Option (ToolResult CarrierServiceAlertsPayload) → Bool
recovery_window none = false
recovery_window (some r) = elim r.payload [
  | none ↦ false
  | some p ↦ any (λ a. is_active a r.observed_at) p.alerts
]

unfoldable pub stalled_ticket_stage : StalledTrackingEvidence → EvidenceGateResult
stalled_ticket_stage f =
    or_else
      (unavailable_result (("existing_tickets", f.existing_tickets.envelope) ∷ [])
        f.critical_retry_exhausted)
      (if active_ticket f.existing_tickets
        then gate_result EvidenceGateDecision.complete_no_action "ACTIVE_LOGISTICS_TICKET_EXISTS"
            (stalled_critical f)
        else if recovery_window f.carrier_alerts
        then gate_result EvidenceGateDecision.complete_no_action "ACTIVE_CARRIER_RECOVERY_WINDOW"
            (with_alerts f.carrier_alerts (stalled_critical f))
        else gate_result EvidenceGateDecision.propose_ticket "STALLED_TRACKING_EVIDENCE_COMPLETE"
            (stalled_critical f))

-- `if facts.carrier_alerts is not None`
abbrev pub alerts_guard :
    Option (ToolResult CarrierServiceAlertsPayload) → Bool → Option EvidenceGateResult
alerts_guard none exhausted = none
alerts_guard (some a) exhausted = unavailable_result (("carrier_alerts", a.envelope) ∷ []) exhausted

unfoldable pub stalled_alerts_stage : StalledTrackingEvidence → EvidenceGateResult
stalled_alerts_stage f =
    or_else (alerts_guard f.carrier_alerts f.critical_retry_exhausted) (stalled_ticket_stage f)

-- hours as the microseconds in which the elapsed time is kept
abbrev pub hours : ℕ → ℕ
hours n = n * 3600000000

abbrev pub elapsed_of : Option Scoped → Option ℕ
elapsed_of none = none
elapsed_of (some s) = s.hours_since_last_update

unfoldable pub stalled_elapsed_stage :
    StalledTrackingEvidence
    → OrderContextPayload
    → LogisticsTimelinePayload
    → ℕ
    → Option ℕ
    → EvidenceGateResult
stalled_elapsed_stage f order timeline threshold none =
    retry_or_support f.directed_refresh_completed "TARGET_TIMELINE_ABSENT" (decision_inputs f)
stalled_elapsed_stage f order timeline threshold (some elapsed) =
    if has_structural_timeline_conflict order timeline f.timeline.observed_at f.target_shipment_id
    then gate_result EvidenceGateDecision.require_human_support "PERSISTENT_STRUCTURAL_CONFLICT"
        (decision_inputs f)
    else if leb elapsed (hours threshold)
    then gate_result EvidenceGateDecision.complete_no_action "WITHIN_TRACKING_SLA"
        (decision_inputs f)
    else stalled_alerts_stage f

unfoldable pub stalled_threshold_stage :
    StalledTrackingEvidence
    → OrderContextPayload
    → LogisticsTimelinePayload
    → Option ℕ
    → EvidenceGateResult
stalled_threshold_stage f order timeline none =
    gate_result EvidenceGateDecision.require_human_support "STALL_THRESHOLD_ABSENT"
      (decision_inputs f)
stalled_threshold_stage f order timeline (some threshold) =
    stalled_elapsed_stage f order timeline threshold
      (elapsed_of (target_timeline timeline f.target_shipment_id))

unfoldable pub stalled_eligibility_stage :
    StalledTrackingEvidence
    → OrderContextPayload
    → LogisticsTimelinePayload
    → Option PolicyFactSnapshot
    → EvidenceGateResult
stalled_eligibility_stage f order timeline none =
    gate_result EvidenceGateDecision.require_human_support "POLICY_CANONICAL_VALIDATION_FAILED"
      (decision_inputs f)
stalled_eligibility_stage f order timeline (some facts) =
    if not facts.eligible
    then gate_result EvidenceGateDecision.complete_no_action "POLICY_NOT_ELIGIBLE"
        (decision_inputs f)
    else stalled_threshold_stage f order timeline facts.stalled_after_hours

-- the timeline, if it has a last update
abbrev pub updated_timeline : Option LogisticsTimelinePayload → Option LogisticsTimelinePayload
updated_timeline none = none
updated_timeline (some t) = elim t.hours_since_last_update [ none ↦ none | some h ↦ some t ]

abbrev pub in_transit : OrderContextPayload → Option ShipmentSummaryPayload → Bool
in_transit order none = order.order_status is OrderStatus.shipped
in_transit order (some s) = contains s.shipment_status active_shipment_states

abbrev pub not_in_transit_reason : Option ShipmentSummaryPayload → String
not_in_transit_reason none = "ORDER_NOT_IN_TRANSIT"
not_in_transit_reason (some s) = "SHIPMENT_NOT_IN_TRANSIT"

abbrev pub already_delivered : Option ShipmentSummaryPayload → Bool
already_delivered none = false
already_delivered (some s) = str_eq s.shipment_status (value_of OrderStatus.delivered)

module _ (canonical_hash : PolicyFactSnapshot → String) where
  unfoldable pub stalled_timeline_stage :
      StalledTrackingEvidence
      → OrderContextPayload
      → Option LogisticsTimelinePayload
      → EvidenceGateResult
  stalled_timeline_stage f order none =
      retry_or_support f.directed_refresh_completed "TRACKING_TIMELINE_ABSENT" (decision_inputs f)
  stalled_timeline_stage f order (some timeline) =
      or_else
        (policy_guard canonical_hash f.policy order IssueType.stalled_tracking (decision_inputs f))
        (stalled_eligibility_stage f order timeline (facts_of f.policy.payload))

  unfoldable pub stalled_order_stage :
      StalledTrackingEvidence → OrderContextPayload → EvidenceGateResult
  stalled_order_stage f order =
      let target = target_shipment order f.target_shipment_id in
      if is_some f.target_shipment_id && is_none target
      then gate_result EvidenceGateDecision.require_human_support "TARGET_SHIPMENT_NOT_FOUND"
          (decision_inputs f)
      else if already_delivered target
      then revision TriageIntent.signed_not_received "REPORTED_ISSUE_DOES_NOT_MATCH_SHIPMENT_STATE"
          (("order_context", f.order_context.envelope) ∷ [])
      else if not (in_transit order target)
      then gate_result EvidenceGateDecision.complete_no_action (not_in_transit_reason target)
          (decision_inputs f)
      else stalled_timeline_stage f order (updated_timeline f.timeline.payload)

  unfoldable pub evaluate_stalled_tracking : StalledTrackingEvidence → EvidenceGateResult
  evaluate_stalled_tracking f = or_else (common_guard f.common) (
      or_else (unavailable_result (decision_inputs f) f.critical_retry_exhausted)
        (elim f.order_context.payload [
          | none ↦
              gate_result EvidenceGateDecision.require_human_support
                "ORDER_CONTEXT_ABSENT_AFTER_AUTHORIZATION" (decision_inputs f)
          | some order ↦ stalled_order_stage f order
        ]))

-- The union type of the facts.
pub data GateFacts : Type 0 where
  signed : SignedNotReceivedEvidence → GateFacts
  stalled : StalledTrackingEvidence → GateFacts

module _ (canonical_hash : PolicyFactSnapshot → String) where
  unfoldable pub evaluate_evidence_gate : IssueType → GateFacts → Result EvidenceGateResult
  evaluate_evidence_gate IssueType.signed_not_received (signed f) =
      ok (evaluate_signed_not_received canonical_hash f)
  evaluate_evidence_gate IssueType.signed_not_received (stalled f) =
      err (type_error "signed_not_received requires SignedNotReceivedEvidence")
  evaluate_evidence_gate IssueType.stalled_tracking (stalled f) =
      ok (evaluate_stalled_tracking canonical_hash f)
  evaluate_evidence_gate IssueType.stalled_tracking (signed f) =
      err (type_error "stalled_tracking requires StalledTrackingEvidence")
