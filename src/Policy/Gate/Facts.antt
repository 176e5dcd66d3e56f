-- ===== src/Policy/Gate/Facts.antt =====
-- policy/evidence_gate.py: the gate's inputs and its result.
use ecommerce_after_sales_ag.Common.{
  String, Bool, Option, none, some, List, [], ◌∷◌, map, is_none, non_empty, str_eq, not,
  if◌then◌else◌,
}
use ecommerce_after_sales_ag.Common.Enum.{◌is◌}
use ecommerce_after_sales_ag.Common.Result.{Result, ok, validation, raise_if, ◌>>◌}
use ecommerce_after_sales_ag.Domain.State.{
  EvidenceGateDecision, TriageIntent, evidence_gate_decision_enum,
}
use ecommerce_after_sales_ag.Domain.Models.{differ}
use ecommerce_after_sales_ag.Tools.Contracts.{
  Envelope, ToolResult, OrderContextPayload, LogisticsTimelinePayload, DeliveryProofPayload,
  ExistingLogisticsTicketsPayload, PolicySearchPayload, CarrierServiceAlertsPayload,
}

pub record EvidenceGateResult : Type 0 where
  pub decision : Option EvidenceGateDecision
  pub reason_code : String
  pub revised_issue_type : Option TriageIntent
  pub critical_result_hashes : List (String × String)

-- `exactly_one_outcome`
unfoldable pub exactly_one_outcome : EvidenceGateResult → Result EvidenceGateResult
exactly_one_outcome r = do
  raise_if (not (non_empty r.reason_code)) (validation "field constraint of EvidenceGateResult")
  raise_if (not (differ (is_none r.decision) (is_none r.revised_issue_type)))
      (validation "gate result requires exactly one decision or issue revision")
  ok r

abbrev pub decided : Option EvidenceGateDecision → EvidenceGateDecision → Bool
decided none d = Bool.false
decided (some e) d = e is d

unfoldable pub proposal_allowed : EvidenceGateResult → Bool
proposal_allowed r = decided r.decision EvidenceGateDecision.propose_ticket

pub record CommonGateFacts : Type 0 where
  pub authorization_valid : Bool
  pub budget_exceeded : Bool
  pub evidence_scope_matches_case : Bool
  pub requested_action_supported : Bool
  pub structural_conflict : Bool
  pub directed_refresh_completed : Bool
  pub critical_retry_exhausted : Bool
  pub target_shipment_id : Option String

pub record SignedNotReceivedEvidence : Type 0 where
  pub common : CommonGateFacts
  pub open common use *
  pub order_context : ToolResult OrderContextPayload
  pub timeline : ToolResult LogisticsTimelinePayload
  pub delivery_proof : ToolResult DeliveryProofPayload
  pub existing_tickets : ToolResult ExistingLogisticsTicketsPayload
  pub policy : ToolResult PolicySearchPayload
  pub customer_still_reports_missing : Bool
  pub reception_locations_checked : Bool
  pub delivery_location_conflict : Bool

pub record StalledTrackingEvidence : Type 0 where
  pub common : CommonGateFacts
  pub open common use *
  pub order_context : ToolResult OrderContextPayload
  pub timeline : ToolResult LogisticsTimelinePayload
  pub existing_tickets : ToolResult ExistingLogisticsTicketsPayload
  pub policy : ToolResult PolicySearchPayload
  pub carrier_alerts : Option (ToolResult CarrierServiceAlertsPayload)

-- `dict[str, ToolResult[Any]]`, in insertion order
abbrev pub Named : Type 0
Named = List (String × Envelope)

-- `{**d, key: value}`
unfoldable pub dict_set : String → Envelope → Named → Named
dict_set k v [] = (k, v) ∷ []
dict_set k v (e ∷ d) = let rest = dict_set k v d in if str_eq e.0 k then (k, v) ∷ d else e ∷ rest

abbrev pub hashes : Named → List (String × String)
hashes = map (λ e. (e.0, e.1.result_hash))

-- _result
unfoldable pub gate_result : EvidenceGateDecision → String → Named → EvidenceGateResult
gate_result decision reason results = record {
  decision = some decision;
  reason_code = reason;
  revised_issue_type = none;
  critical_result_hashes = hashes results;
}

-- the issue revision that both tables build
unfoldable pub revision : TriageIntent → String → Named → EvidenceGateResult
revision issue reason results = record {
  decision = none;
  reason_code = reason;
  revised_issue_type = some issue;
  critical_result_hashes = hashes results;
}

-- `if found := guard(…): return found`, with the rest of the body
abbrev pub or_else : Option EvidenceGateResult → EvidenceGateResult → EvidenceGateResult
or_else none rest = rest
or_else (some r) rest = r
