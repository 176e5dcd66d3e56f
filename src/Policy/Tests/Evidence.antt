-- ===== src/Policy/Tests/Evidence.antt =====
-- The evidence of two complete cases, as the read tools return it.
use ecommerce_after_sales_ag.Common.{ℕ, String, true, false, Option, none, some, List, [], ◌∷◌}
use ecommerce_after_sales_ag.Common.Text.{sample_digest}
use ecommerce_after_sales_ag.Common.Time.{Timestamp, aware}
use ecommerce_after_sales_ag.Domain.State.{
  ExecutionStatus, EvidenceAvailability, OrderStatus, IssueType, RetrievalStatus,
  PolicyResolutionStatus, DeliveryProofStatus,
}
use ecommerce_after_sales_ag.Tools.Contracts.{
  Envelope, ToolResult, TimelineEvent, OrderContextPayload, LogisticsTimelinePayload,
  DeliveryProofPayload, ExistingLogisticsTicketsPayload, PolicySearchPayload, PolicyFactSnapshot,
  VerifiedPolicyCitation,
}
use ecommerce_after_sales_ag.Policy.Gate.Facts.{
  CommonGateFacts, SignedNotReceivedEvidence, StalledTrackingEvidence,
}

-- stands for the digest of every snapshot
abbrev pub fixed_hash : PolicyFactSnapshot → String
fixed_hash facts = sample_digest

abbrev pub seen : Timestamp
seen = aware 1000000

abbrev envelope_of : EvidenceAvailability → Envelope
envelope_of availability = record {
  execution_status = ExecutionStatus.success;
  evidence_availability = availability;
  source_type = "fixture";
  source_query_id = "query-1";
  source_record_ids = "record-1" ∷ [];
  observed_at = seen;
  error_code = none;
  retryable = false;
  result_hash = sample_digest;
  untrusted_fields = [];
  retrieval_status = none;
  policy_resolution_status = none;
}

abbrev read_as : {A : Type 0} → A → ToolResult A
read_as a = record { envelope = envelope_of EvidenceAvailability.present; payload = some a }

abbrev pub clear_facts : CommonGateFacts
clear_facts = record {
  authorization_valid = true;
  budget_exceeded = false;
  evidence_scope_matches_case = true;
  requested_action_supported = true;
  structural_conflict = false;
  directed_refresh_completed = false;
  critical_retry_exhausted = false;
  target_shipment_id = none;
}

abbrev pub order_in : OrderStatus → OrderContextPayload
order_in status = record {
  order_id = "order-1";
  order_status = status;
  tracking_number = none;
  service_level = "standard";
  region = "north";
  shipped_at = none;
  delivered_at = none;
  shipments = [];
}

abbrev event_as : String → TimelineEvent
event_as status = record {
  event_id = "event-1";
  shipment_id = none;
  status = status;
  occurred_at = aware 500;
  location = none;
  note = none;
}

-- the last event is `elapsed` microseconds ago
abbrev pub timeline_as : String → ℕ → LogisticsTimelinePayload
timeline_as status elapsed = record {
  order_id = "order-1";
  events = event_as status ∷ [];
  last_update_at = some (aware 500);
  hours_since_last_update = some elapsed;
  shipment_timelines = [];
}

abbrev pub facts_for : IssueType → Option ℕ → List String → PolicyFactSnapshot
facts_for issue threshold demands = record {
  eligible = true;
  stalled_after_hours = threshold;
  required_evidence_codes = demands;
  effective_from = aware 100;
  effective_to = none;
  service_level = "standard";
  region = "north";
  policy_version = "2026-01";
  clause_id = "clause-1";
  source_hash = sample_digest;
  issue_type = issue;
}

abbrev pub citation : VerifiedPolicyCitation
citation = record {
  document_id = "document-1";
  document_title = "Delivery policy";
  policy_version = "2026-01";
  clause_id = "clause-1";
  source_hash = sample_digest;
  display_summary = "summary";
  excerpt = "excerpt";
  excerpt_hash = sample_digest;
}

abbrev pub search_for : IssueType → PolicyFactSnapshot → PolicySearchPayload
search_for issue facts = record {
  order_id = "order-1";
  issue_type = issue;
  service_level = "standard";
  region = "north";
  evaluated_at = seen;
  retrieval_status = RetrievalStatus.hit;
  policy_resolution_status = some PolicyResolutionStatus.applicable;
  candidate_clause_ids = "clause-1" ∷ [];
  policy_fact_snapshot = some facts;
  policy_fact_snapshot_hash = some sample_digest;
  citation = some citation;
}

abbrev no_tickets : IssueType → ExistingLogisticsTicketsPayload
no_tickets issue = record {
  order_id = "order-1";
  issue_type = issue;
  active_tickets = [];
  existing_investigations = [];
}

abbrev pub signed_facts : PolicyFactSnapshot
signed_facts =
    facts_for IssueType.signed_not_received none
      ("order_delivered" ∷ "timeline" ∷ "delivery_proof" ∷ "no_active_ticket" ∷ [])

abbrev no_proof : DeliveryProofPayload
no_proof = record {
  order_id = "order-1";
  shipment_id = none;
  pod_status = DeliveryProofStatus.not_found;
  recipient_type = none;
  signed_at = none;
  note = none;
}

abbrev pub signed_evidence : SignedNotReceivedEvidence
signed_evidence = record {
  common = clear_facts;
  order_context = read_as (order_in OrderStatus.delivered);
  timeline = read_as (timeline_as "delivered" 7200000000);
  delivery_proof = read_as no_proof;
  existing_tickets = read_as (no_tickets IssueType.signed_not_received);
  policy = read_as (search_for IssueType.signed_not_received signed_facts);
  customer_still_reports_missing = true;
  reception_locations_checked = false;
  delivery_location_conflict = false;
}

abbrev pub stalled_facts : PolicyFactSnapshot
stalled_facts =
    facts_for IssueType.stalled_tracking (some 48)
      ("order_shipped" ∷ "timeline" ∷ "no_active_ticket" ∷ [])

-- 49 hours without an update
abbrev pub stalled_evidence : StalledTrackingEvidence
stalled_evidence = record {
  common = clear_facts;
  order_context = read_as (order_in OrderStatus.shipped);
  timeline = read_as (timeline_as "in_transit" 176400000000);
  existing_tickets = read_as (no_tickets IssueType.stalled_tracking);
  policy = read_as (search_for IssueType.stalled_tracking stalled_facts);
  carrier_alerts = none;
}
