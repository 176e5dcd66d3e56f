-- ===== src/Domain/Tests/Outcomes.antt =====
-- Customer outcomes of concrete states.
use ecommerce_after_sales_ag.Common.{none, some, ◌≡◌, refl, ◌↔◌}
use ecommerce_after_sales_ag.Domain.State.{CaseState, CustomerDisposition}
use ecommerce_after_sales_ag.Domain.Dispositions.{
  member, Facts, texts_of, project_customer_disposition,
}
use ecommerce_after_sales_ag.Domain.Dispositions.Laws.{Doubt, escalate_iff, refresh_escalates}

abbrev awaiting_refresh : Facts
awaiting_refresh = record {
  gate_decision = none;
  case_state = some (member CaseState.awaiting_retry);
  case_outcome = none;
  proposal_state = none;
  action_state = none;
  reason_code = some "STRUCTURAL_CONFLICT_REQUIRES_REFRESH";
}

escalate_iff_example :
    (project_customer_disposition awaiting_refresh ≡ CustomerDisposition.escalate)
    ↔ Doubt (texts_of awaiting_refresh)
escalate_iff_example = escalate_iff awaiting_refresh

refresh_escalates_example :
    project_customer_disposition awaiting_refresh ≡ CustomerDisposition.escalate
refresh_escalates_example = refresh_escalates awaiting_refresh refl
