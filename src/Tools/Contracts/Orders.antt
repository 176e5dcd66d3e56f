-- ===== src/Tools/Contracts/Orders.antt =====
-- tools/contracts.py: the order, its packages and their timelines.
use ecommerce_after_sales_ag.Common.{
  ℕ, String, Bool, false, not, ◌&&◌, Option, some, List, is_empty, is_some, leb, all, non_empty,
}
use ecommerce_after_sales_ag.Common.Time.{Timestamp, is_aware, before}
use ecommerce_after_sales_ag.Common.Result.{Result, ok, validation, raise_if, ◌>>◌}
use ecommerce_after_sales_ag.Domain.State.{OrderStatus}
use ecommerce_after_sales_ag.Domain.Models.{aware_or_none, differ}

pub record TimelineEvent : Type 0 where
  pub event_id : String
  pub shipment_id : Option String
  pub status : String
  pub occurred_at : Timestamp
  pub location : Option String
  pub note : Option String

unfoldable pub event_valid : TimelineEvent → Bool
event_valid e = non_empty e.event_id && non_empty e.status && is_aware e.occurred_at

pub record ShipmentSummaryPayload : Type 0 where
  pub shipment_id : String
  pub package_sequence : ℕ
  pub package_count : ℕ
  pub tracking_number : String
  pub shipment_status : String
  pub carrier_code : String
  pub shipped_at : Option Timestamp
  pub delivered_at : Option Timestamp
  pub last_update_at : Option Timestamp

-- both times are there, and the second precedes the first
abbrev pub precedes : Option Timestamp → Option Timestamp → Bool
precedes (some later) (some earlier) = before later earlier
precedes _ _ = false

unfoldable pub validate_shipment : ShipmentSummaryPayload → Result ShipmentSummaryPayload
validate_shipment s = do
  raise_if
      (not (
        non_empty s.shipment_id
        && leb 1 s.package_sequence
        && leb 1 s.package_count
        && non_empty s.tracking_number
        && non_empty s.shipment_status
        && non_empty s.carrier_code))
      (validation "field constraint of ShipmentSummaryPayload")
  raise_if (not (aware_or_none s.shipped_at)) (validation "shipped_at must be timezone-aware")
  raise_if (not (aware_or_none s.delivered_at)) (validation "delivered_at must be timezone-aware")
  raise_if (not (aware_or_none s.last_update_at))
      (validation "last_update_at must be timezone-aware")
  raise_if (precedes s.delivered_at s.shipped_at)
      (validation "delivered_at cannot precede shipped_at")
  ok s

-- `hours_since_last_update` is kept as the elapsed microseconds from which the source computes it.
pub record ShipmentTimelinePayload : Type 0 where
  pub shipment_id : String
  pub package_sequence : ℕ
  pub events : List TimelineEvent
  pub last_update_at : Option Timestamp
  pub hours_since_last_update : Option ℕ

unfoldable pub validate_shipment_timeline : ShipmentTimelinePayload → Result ShipmentTimelinePayload
validate_shipment_timeline t = do
  raise_if (not (non_empty t.shipment_id && leb 1 t.package_sequence && all event_valid t.events))
      (validation "field constraint of ShipmentTimelinePayload")
  raise_if (not (aware_or_none t.last_update_at))
      (validation "last_update_at must be timezone-aware")
  raise_if (differ (not (is_empty t.events)) (is_some t.last_update_at))
      (validation "last_update_at must be present exactly when events exist")
  ok t

pub record OrderContextPayload : Type 0 where
  pub order_id : String
  pub order_status : OrderStatus
  pub tracking_number : Option String
  pub service_level : String
  pub region : String
  pub shipped_at : Option Timestamp
  pub delivered_at : Option Timestamp
  pub shipments : List ShipmentSummaryPayload

unfoldable pub validate_order_context : OrderContextPayload → Result OrderContextPayload
validate_order_context o = do
  raise_if (not (non_empty o.order_id && non_empty o.service_level && non_empty o.region))
      (validation "field constraint of OrderContextPayload")
  raise_if (not (aware_or_none o.shipped_at)) (validation "shipped_at must be timezone-aware")
  raise_if (not (aware_or_none o.delivered_at)) (validation "delivered_at must be timezone-aware")
  ok o

pub record LogisticsTimelinePayload : Type 0 where
  pub order_id : String
  pub events : List TimelineEvent
  pub last_update_at : Option Timestamp
  pub hours_since_last_update : Option ℕ
  pub shipment_timelines : List ShipmentTimelinePayload

unfoldable pub validate_timeline : LogisticsTimelinePayload → Result LogisticsTimelinePayload
validate_timeline t = do
  raise_if (not (non_empty t.order_id && all event_valid t.events))
      (validation "field constraint of LogisticsTimelinePayload")
  raise_if (not (aware_or_none t.last_update_at))
      (validation "last_update_at must be timezone-aware")
  raise_if (differ (not (is_empty t.events)) (is_some t.last_update_at))
      (validation "last_update_at must be present exactly when timeline events exist")
  ok t
