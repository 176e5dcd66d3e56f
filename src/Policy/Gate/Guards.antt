-- ===== src/Policy/Gate/Guards.antt =====
-- policy/evidence_gate.py: the guards that both truth tables share.
use ecommerce_after_sales_ag.Common.{
  ℕ, String, Bool, false, not, ◌&&◌, ◌||◌, Option, none, some, List, [], ◌∷◌, map, any, all, find,
  select, contains, is_empty, opt_eq, str_eq, if◌then◌else◌,
}
use ecommerce_after_sales_ag.Common.Enum.{value_of, ◌is◌}
use ecommerce_after_sales_ag.Common.Time.{Timestamp, before, not_after}
use ecommerce_after_sales_ag.Domain.State.{
  EvidenceGateDecision, ExecutionStatus, EvidenceAvailability, OrderStatus, IssueType,
  RetrievalStatus, PolicyResolutionStatus, execution_status_enum, evidence_availability_enum,
  order_status_enum, issue_type_enum, retrieval_status_enum,
}
use ecommerce_after_sales_ag.Tools.Contracts.{
  Envelope, ToolResult, TimelineEvent, ShipmentSummaryPayload, OrderContextPayload,
  LogisticsTimelinePayload, ShipmentTimelinePayload, ExistingLogisticsTicketsPayload,
  PolicySearchPayload, PolicyFactSnapshot, VerifiedPolicyCitation, resolved_as, verified_for_gate,
}
use ecommerce_after_sales_ag.Policy.Gate.Facts.{
  EvidenceGateResult, CommonGateFacts, Named, gate_result,
}

abbrev require_support : String → Named → Option EvidenceGateResult
require_support reason results =
    some (gate_result EvidenceGateDecision.require_human_support reason results)

-- _common_guard
unfoldable pub common_guard : CommonGateFacts → Option EvidenceGateResult
common_guard f =
    if not f.authorization_valid
    then require_support "AUTHORIZATION_NOT_VALID" []
    else if f.budget_exceeded
    then require_support "INVESTIGATION_BUDGET_EXCEEDED" []
    else if not f.evidence_scope_matches_case
    then require_support "EVIDENCE_SCOPE_MISMATCH" []
    else if not f.requested_action_supported
    then require_support "UNSUPPORTED_ACTION_RECOMMENDATION" []
    else if f.structural_conflict
    then (if f.directed_refresh_completed
        then require_support "PERSISTENT_STRUCTURAL_CONFLICT" []
        else some (
            gate_result EvidenceGateDecision.retry_later "STRUCTURAL_CONFLICT_REQUIRES_REFRESH" []))
    else none

unfoldable pub is_unavailable : Envelope → Bool
is_unavailable r =
    r.evidence_availability is EvidenceAvailability.unavailable
    || not (r.execution_status is ExecutionStatus.success)

unfoldable pub can_retry : Named → Bool → Bool
can_retry unavailable retry_exhausted = any (λ e. e.1.retryable) unavailable && not retry_exhausted

-- the answer for the reads that are unavailable
unfoldable pub unavailable_answer : Named → Bool → Option EvidenceGateResult
unavailable_answer [] retry_exhausted = none
unavailable_answer (e ∷ es) retry_exhausted =
    if can_retry (e ∷ es) retry_exhausted
    then some
        (gate_result EvidenceGateDecision.retry_later "CRITICAL_EVIDENCE_UNAVAILABLE" (e ∷ es))
    else require_support "CRITICAL_EVIDENCE_UNAVAILABLE_FINAL" (e ∷ es)

-- _unavailable_result
unfoldable pub unavailable_result : Named → Bool → Option EvidenceGateResult
unavailable_result results retry_exhausted =
    unavailable_answer (select (λ e. is_unavailable e.1) results) retry_exhausted

-- _active_ticket
unfoldable pub active_ticket : ToolResult ExistingLogisticsTicketsPayload → Bool
active_ticket r = elim r.payload [
  | none ↦ false
  | some p ↦ not (is_empty p.active_tickets) || not (is_empty p.existing_investigations)
]

-- _target_shipment
unfoldable pub target_shipment : OrderContextPayload → Option String → Option ShipmentSummaryPayload
target_shipment order none = none
target_shipment order (some target) = find (λ s. str_eq s.shipment_id target) order.shipments

-- What the gate reads of a timeline, of the order's or of one package's.
pub record Scoped : Type 0 where
  pub events : List TimelineEvent
  pub hours_since_last_update : Option ℕ

abbrev scope_of_package : Option ShipmentTimelinePayload → Option Scoped
scope_of_package none = none
scope_of_package (some p) =
    some (record { events = p.events; hours_since_last_update = p.hours_since_last_update })

-- _target_timeline
unfoldable pub target_timeline : LogisticsTimelinePayload → Option String → Option Scoped
target_timeline t none =
    some (record { events = t.events; hours_since_last_update = t.hours_since_last_update })
target_timeline t (some target) =
    scope_of_package (find (λ p. str_eq p.shipment_id target) t.shipment_timelines)

-- `sorted(events, key=occurred_at)`, which keeps the order of equal keys
insert_event : TimelineEvent → List TimelineEvent → List TimelineEvent
insert_event e [] = e ∷ []
insert_event e (x ∷ xs) =
    let rest = insert_event e xs in
    if before x.occurred_at e.occurred_at then x ∷ rest else e ∷ x ∷ xs

unfoldable pub sort_events : List TimelineEvent → List TimelineEvent
unfolding insert_event
sort_events [] = []
sort_events (e ∷ es) = insert_event e (sort_events es)

abbrev delivered_status : String
delivered_status = value_of OrderStatus.delivered

-- some status after the first "delivered" is another one
unfoldable pub moved_after_delivery : List String → Bool
moved_after_delivery [] = false
moved_after_delivery (s ∷ ss) =
    let later = moved_after_delivery ss in
    if str_eq s delivered_status then any (λ t. not (str_eq t delivered_status)) ss else later

abbrev pub active_shipment_states : List String
active_shipment_states = "shipped" ∷ "in_transit" ∷ "out_for_delivery" ∷ "stalled" ∷ []

-- the package whose timeline is checked: the target, or the only one
unfoldable pub conflict_target : OrderContextPayload → Option String → Option ShipmentSummaryPayload
conflict_target order (some target) = target_shipment order (some target)
conflict_target order none = elim order.shipments [
  | [] ↦ none
  | s ∷ rest ↦ if is_empty rest then some s else none
]

unfoldable pub contradicts_timeline : ShipmentSummaryPayload → Scoped → Timestamp → Bool
contradicts_timeline s scoped observed_at =
    let statuses = map (λ e. e.status) (sort_events scoped.events) in
    not (is_empty scoped.events)
    && (any (λ e. before observed_at e.occurred_at) scoped.events
        || contains s.shipment_status active_shipment_states && contains delivered_status statuses
        || str_eq s.shipment_status delivered_status && moved_after_delivery statuses)

-- _has_structural_timeline_conflict
unfoldable pub has_structural_timeline_conflict :
    OrderContextPayload → LogisticsTimelinePayload → Timestamp → Option String → Bool
has_structural_timeline_conflict order timeline observed_at target_id =
    elim (conflict_target order target_id) [
      | none ↦ false
      | some s ↦ elim (target_timeline timeline target_id) [
        | none ↦ false
        | some scoped ↦ contradicts_timeline s scoped observed_at
      ]
    ]

-- one field of the citation, or None without a citation
abbrev pub cited : (VerifiedPolicyCitation → String) → Option VerifiedPolicyCitation → Option String
cited f none = none
cited f (some c) = some (f c)

-- the facts are those of this order, this issue and the cited clause
unfoldable pub in_scope :
    PolicySearchPayload → PolicyFactSnapshot → OrderContextPayload → IssueType → Bool
in_scope p facts order issue =
    facts.issue_type is issue
    && str_eq facts.service_level order.service_level
    && str_eq facts.region order.region
    && opt_eq (some facts.policy_version) (cited (λ c. c.policy_version) p.citation)
    && opt_eq (some facts.clause_id) (cited (λ c. c.clause_id) p.citation)
    && opt_eq (some facts.source_hash) (cited (λ c. c.source_hash) p.citation)

abbrev pub ended : Option Timestamp → Timestamp → Bool
ended none now = false
ended (some stop) now = not_after stop now

unfoldable pub out_of_window : PolicySearchPayload → PolicyFactSnapshot → Bool
out_of_window p facts =
    before p.evaluated_at facts.effective_from || ended facts.effective_to p.evaluated_at

unfoldable pub required_codes : IssueType → List String
required_codes IssueType.signed_not_received =
    "order_delivered" ∷ "timeline" ∷ "delivery_proof" ∷ "no_active_ticket" ∷ []
required_codes IssueType.stalled_tracking = "order_shipped" ∷ "timeline" ∷ "no_active_ticket" ∷ []

-- `required.issubset(set(codes))`
unfoldable pub covers : List String → List String → Bool
covers codes required = all (λ r. contains r codes) required

module _ (canonical_hash : PolicyFactSnapshot → String) where
  -- the checks once the payload is there
  unfoldable pub policy_payload_guard :
      PolicySearchPayload → OrderContextPayload → IssueType → Named → Option EvidenceGateResult
  policy_payload_guard p order issue results =
      if p.retrieval_status is RetrievalStatus.no_hit
      then require_support "POLICY_RETRIEVAL_NO_HIT" results
      else if not (p.retrieval_status is RetrievalStatus.hit)
      then require_support "POLICY_RETRIEVAL_NOT_VERIFIABLE" results
      else if resolved_as p.policy_resolution_status PolicyResolutionStatus.not_applicable
      then some
          (gate_result EvidenceGateDecision.complete_no_action "POLICY_NOT_APPLICABLE" results)
      else if resolved_as p.policy_resolution_status PolicyResolutionStatus.version_conflict
      then require_support "POLICY_VERSION_CONFLICT" results
      else if not (verified_for_gate canonical_hash p)
      then require_support "POLICY_CANONICAL_VALIDATION_FAILED" results
      else elim p.policy_fact_snapshot [
        | none ↦ require_support "POLICY_CANONICAL_VALIDATION_FAILED" results
        | some facts ↦
            if not (in_scope p facts order issue)
            then require_support "POLICY_SCOPE_OR_CITATION_MISMATCH" results
            else if out_of_window p facts
            then require_support "POLICY_EFFECTIVE_WINDOW_INVALID" results
            else if not (covers facts.required_evidence_codes (required_codes issue))
            then require_support "POLICY_REQUIRED_EVIDENCE_MISMATCH" results
            else none
      ]

  -- _policy_guard
  unfoldable pub policy_guard :
      ToolResult PolicySearchPayload
      → OrderContextPayload
      → IssueType
      → Named
      → Option EvidenceGateResult
  policy_guard policy order issue results = elim policy.payload [
    | none ↦ require_support "POLICY_RESOLUTION_MISSING" results
    | some p ↦ policy_payload_guard p order issue results
  ]
