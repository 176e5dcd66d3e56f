-- ===== src/Tools/Contracts/Tickets.antt =====
-- tools/contracts.py: the tickets and investigations that an order already has.
use ecommerce_after_sales_ag.Common.{
  String, Bool, false, not, ◌&&◌, ◌||◌, Option, none, some, List, [], ◌∷◌, contains, non_empty,
  str_eq, if◌then◌else◌,
}
use ecommerce_after_sales_ag.Common.Time.{Timestamp, is_aware, before}
use ecommerce_after_sales_ag.Common.Result.{Result, ok, validation, raise_if, ◌>>◌}
use ecommerce_after_sales_ag.Domain.State.{IssueType}
use ecommerce_after_sales_ag.Domain.Models.{aware_or_none}

-- `a or b` for optional values: a time counts as true, a text unless it is empty
abbrev pub time_or : Option Timestamp → Timestamp → Timestamp
time_or none t = t
time_or (some s) t = s

abbrev pub text_or : Option String → String → String
text_or none t = t
text_or (some s) t = if non_empty s then s else t

-- `value is not None and value != expected`
abbrev pub contradicts : Option String → String → Bool
contradicts none expected = false
contradicts (some s) expected = not (str_eq s expected)

pub record LogisticsTicket : Type 0 where
  pub ticket_id : String
  pub order_id : String
  pub issue_type : IssueType
  pub ticket_status : String
  pub created_at : Timestamp
  pub target_shipment_id : Option String
  pub stage : Option String
  pub next_update_at : Option Timestamp
  pub status : Option String
  pub opened_at : Option Timestamp
  pub last_updated_at : Option Timestamp
  pub target_order_id : Option String
  pub is_active : Option Bool
  pub updated_at : Option Timestamp

abbrev pub active_ticket_statuses : List String
active_ticket_statuses = "open" ∷ "investigating" ∷ "awaiting_carrier" ∷ []

-- `validate_created_at`, which also derives the read projection
unfoldable pub validate_ticket : LogisticsTicket → Result LogisticsTicket
validate_ticket t = do
  raise_if (not (non_empty t.ticket_id && non_empty t.order_id && non_empty t.ticket_status))
      (validation "field constraint of LogisticsTicket")
  raise_if (not (is_aware t.created_at)) (validation "created_at must be timezone-aware")
  raise_if (not (aware_or_none t.updated_at)) (validation "updated_at must be timezone-aware")
  raise_if (not (aware_or_none t.next_update_at))
      (validation "next_update_at must be timezone-aware")
  raise_if (contradicts t.status t.ticket_status)
      (validation "status must come from the canonical ticket_status")
  raise_if (contradicts t.target_order_id t.order_id)
      (validation "target_order_id must match order_id")
  let updated = time_or t.updated_at t.created_at
  ok (record t {
    status = some t.ticket_status;
    stage = some (text_or t.stage t.ticket_status);
    opened_at = some (time_or t.opened_at t.created_at);
    last_updated_at = some (time_or t.last_updated_at updated);
    target_order_id = some t.order_id;
    is_active = some (contains t.ticket_status active_ticket_statuses);
    updated_at = some updated;
  })

pub record ExistingInvestigation : Type 0 where
  pub case_id : String
  pub order_id : String
  pub issue_type : IssueType
  pub target_shipment_id : Option String
  pub stage : String
  pub updated_at : Timestamp
  pub next_update_at : Option Timestamp
  pub status : Option String
  pub opened_at : Option Timestamp
  pub last_updated_at : Option Timestamp
  pub target_order_id : Option String
  pub is_active : Option Bool
  pub created_at : Option Timestamp

abbrev pub open_case_states : List String
open_case_states = "investigating" ∷ "awaiting_customer_input" ∷ "awaiting_retry" ∷ []

abbrev updated_before : Timestamp → Option Timestamp → Bool
updated_before updated none = false
updated_before updated (some created) = before updated created

abbrev unknown_state : Option String → Bool
unknown_state none = false
unknown_state (some s) = not (contains s open_case_states || str_eq s "closed")

-- `validate_timestamps`, which also derives the read projection
unfoldable pub validate_investigation : ExistingInvestigation → Result ExistingInvestigation
validate_investigation i = do
  raise_if (not (non_empty i.case_id && non_empty i.order_id && non_empty i.stage))
      (validation "field constraint of ExistingInvestigation")
  raise_if (not (is_aware i.updated_at)) (validation "updated_at must be timezone-aware")
  raise_if (not (aware_or_none i.created_at)) (validation "created_at must be timezone-aware")
  raise_if (not (aware_or_none i.next_update_at))
      (validation "next_update_at must be timezone-aware")
  raise_if (updated_before i.updated_at i.created_at)
      (validation "updated_at cannot precede created_at")
  raise_if (unknown_state i.status) (validation "status must be a canonical case state")
  raise_if (contradicts i.target_order_id i.order_id)
      (validation "target_order_id must match order_id")
  let opened = time_or i.opened_at (time_or i.created_at i.updated_at)
  let status = text_or i.status "investigating"
  ok (record i {
    status = some status;
    opened_at = some opened;
    last_updated_at = some (time_or i.last_updated_at i.updated_at);
    target_order_id = some i.order_id;
    is_active = some (contains status open_case_states);
    created_at = some (time_or i.created_at opened);
  })

pub record ExistingLogisticsTicketsPayload : Type 0 where
  pub order_id : String
  pub issue_type : IssueType
  pub active_tickets : List LogisticsTicket
  pub existing_investigations : List ExistingInvestigation
