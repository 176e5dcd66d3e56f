-- ===== src/Tools/Contracts/Reports.antt =====
-- tools/contracts.py: delivery proofs and carrier alerts.
use ecommerce_after_sales_ag.Common.{
  String, Bool, true, false, not, ◌&&◌, ◌||◌, Option, none, some, List, is_some, non_empty, str_eq,
  ◌≡◌, refl,
}
use ecommerce_after_sales_ag.Common.Enum.{◌is◌}
use ecommerce_after_sales_ag.Common.Time.{Timestamp, is_aware, before, not_after}
use ecommerce_after_sales_ag.Common.Result.{Result, ok, validation, raise_if, ◌>>◌}
use ecommerce_after_sales_ag.Domain.State.{DeliveryProofStatus, delivery_proof_status_enum}
use ecommerce_after_sales_ag.Domain.Models.{aware_or_none}

pub record DeliveryProofPayload : Type 0 where
  pub order_id : String
  pub shipment_id : Option String
  pub pod_status : DeliveryProofStatus
  pub recipient_type : Option String
  pub signed_at : Option Timestamp
  pub note : Option String

unfoldable pub validate_proof : DeliveryProofPayload → Result DeliveryProofPayload
validate_proof p = do
  raise_if (not (non_empty p.order_id)) (validation "field constraint of DeliveryProofPayload")
  raise_if (not (aware_or_none p.signed_at)) (validation "signed_at must be timezone-aware")
  raise_if
      (p.pod_status is DeliveryProofStatus.not_found
        && (is_some p.recipient_type || is_some p.signed_at))
      (validation "not-found delivery proof cannot contain reception facts")
  ok p

-- `status` is the literal "active" or "resolved".
pub record CarrierAlert : Type 0 where
  pub alert_id : String
  pub code : String
  pub description : String
  pub active_from : Timestamp
  pub active_until : Option Timestamp
  pub impact_area : String
  pub status : String
  pub expected_recovery_at : Option Timestamp

abbrev pub ends_before : Option Timestamp → Timestamp → Bool
ends_before none start = false
ends_before (some stop) start = before stop start

unfoldable pub validate_window : CarrierAlert → Result CarrierAlert
validate_window a = do
  raise_if
      (not (
        non_empty a.alert_id
        && non_empty a.code
        && non_empty a.description
        && (str_eq a.status "active" || str_eq a.status "resolved")))
      (validation "field constraint of CarrierAlert")
  raise_if (not (is_aware a.active_from)) (validation "active_from must be timezone-aware")
  raise_if (not (aware_or_none a.active_until)) (validation "active_until must be timezone-aware")
  raise_if (ends_before a.active_until a.active_from)
      (validation "active_until cannot precede active_from")
  raise_if (not (aware_or_none a.expected_recovery_at))
      (validation "expected_recovery_at must be timezone-aware")
  raise_if (ends_before a.expected_recovery_at a.active_from)
      (validation "expected_recovery_at cannot precede active_from")
  ok a

abbrev pub still_open : Option Timestamp → Timestamp → Bool
still_open none now = true
still_open (some stop) now = before now stop

-- what `is_active_at` answers at an aware time
unfoldable pub is_active : CarrierAlert → Timestamp → Bool
is_active a now =
    str_eq a.status "active" && not_after a.active_from now && still_open a.active_until now

unfoldable pub is_active_at : CarrierAlert → Timestamp → Result Bool
is_active_at a now =
    raise_if (not (is_aware now)) (validation "evaluated_at must be timezone-aware")
    >> ok (is_active a now)

-- at an aware time the check does not raise
is_active_at-aware :
    (a : CarrierAlert) (now : Timestamp)
    → is_aware now ≡ true
    → is_active_at a now ≡ ok (is_active a now)
unfolding is_active_at
is_active_at-aware a now h = rw h refl

pub record CarrierServiceAlertsPayload : Type 0 where
  pub order_id : String
  pub alerts : List CarrierAlert
