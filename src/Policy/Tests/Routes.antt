-- ===== src/Policy/Tests/Routes.antt =====
-- A catalog of two orders, of which one is the customer's, and messages that mention them.
use ecommerce_after_sales_ag.Common.{
  String, true, Option, none, some, List, [], ◌∷◌, ◌≡◌, refl, ◌↔◌, ◌⊎◌, str_eq, eq_iff,
  true-ne-false, sym, ap, ◌∙◌, ◌++◌, map, not, select, contains, if◌then◌else◌,
}
use ecommerce_after_sales_ag.Common.Result.{ok, err, authorization, is_ok}
use ecommerce_after_sales_ag.Domain.State.{IssueType, TriageIntent}
use ecommerce_after_sales_ag.Domain.Models.{TriageResult}
use ecommerce_after_sales_ag.Policy.Authorization.{
  OrderOwnershipRecord, OrderOwnershipSource, authorize_order, Owns, authorize_order_iff,
}
use ecommerce_after_sales_ag.Policy.Router.{
  PolicyDecision, PolicyRoute, route_triage, route_sorted, sort_orders, sort_order, flag_fragments,
  route_supported, issue_of_intent, decide,
}
use ecommerce_after_sales_ag.Policy.Router.Orders.{owns}
use ecommerce_after_sales_ag.Policy.Router.Routed.{reported}
use ecommerce_after_sales_ag.Policy.Router.Laws.{
  blocking_flags, flagged, refused_order, route_triage_total, routed_order_is_owned,
  opens_investigation_iff, route_triage-indistinguishable,
}

abbrev record_of : String → OrderOwnershipRecord
record_of customer = record { order_id = "order-1"; customer_id = customer; source_revision = "1" }

abbrev catalog : OrderOwnershipSource
catalog = record {
  get_order_for_authorization = λ o.
      if str_eq o "order-1"
      then some (record_of "ann")
      else if str_eq o "order-2"
      then some (record_of "bob")
      else none;
}

-- the same catalog without the order of the other customer
abbrev smaller_catalog : OrderOwnershipSource
smaller_catalog = record {
  get_order_for_authorization = λ o. if str_eq o "order-1" then some (record_of "ann") else none;
}

abbrev late_message : TriageResult
late_message = record {
  intent = TriageIntent.stalled_tracking;
  risk_flags = [];
  order_ids_mentioned = "order-2" ∷ "order-1" ∷ [];
  confidence = 900000;
}

abbrev late_decision : PolicyDecision
late_decision = record {
  route = PolicyRoute.supported_logistics;
  supported = true;
  canonical_issue_type = some IssueType.stalled_tracking;
  authorized_order_id = some "order-1";
  blocked_fragments =
      (record { category = "unauthorized_order_access"; order_id = some "order-2" }) ∷ [];
  risk_flags = [];
  reason_code = "AUTHORIZED_SUPPORTED_ISSUE";
}

late_routed : route_triage "ann" late_message catalog ≡ ok late_decision
unfolding route_triage route_sorted sort_orders sort_order flag_fragments route_supported
    issue_of_intent decide authorize_order
late_routed = refl

authorize_order_iff_example :
    ((is_ok (authorize_order "ann" "order-2" catalog) ≡ true) ↔ Owns "ann" "order-2" catalog)
    × ((authorize_order "ann" "order-2" catalog ≡ err authorization) ⊎ Owns "ann" "order-2" catalog)
authorize_order_iff_example = authorize_order_iff "ann" "order-2" catalog

routed_order_is_owned_example :
    Owns "ann" "order-1" catalog
    × (contains "order-1" ("order-2" ∷ "order-1" ∷ []) ≡ true)
    × (select (owns "ann" catalog) ("order-2" ∷ "order-1" ∷ []) ≡ "order-1" ∷ [])
routed_order_is_owned_example =
    routed_order_is_owned "ann" late_message catalog late_decision "order-1" late_routed refl

opens_investigation_iff_example :
    ((late_decision.supported ≡ true)
      × (late_decision.canonical_issue_type ≡ some IssueType.stalled_tracking)
      × (late_decision.authorized_order_id ≡ some "order-1"))
    ↔ ((late_message.intent ≡ reported IssueType.stalled_tracking)
        × (select (owns "ann" catalog) late_message.order_ids_mentioned ≡ "order-1" ∷ []))
opens_investigation_iff_example =
    opens_investigation_iff "ann" late_message catalog late_decision IssueType.stalled_tracking
      "order-1" late_routed

abbrev late_flags : List String
late_flags = "prohibited_action_request" ∷ "frustrated_customer" ∷ []

abbrev flagged_message : TriageResult
flagged_message = record late_message { risk_flags = late_flags }

route_triage_total_example :
    (d : PolicyDecision) × (route_triage "ann" flagged_message catalog ≡ ok d)
    × (d.risk_flags ≡ late_flags)
    × (d.blocked_fragments
        ≡ map flagged (select (λ f. contains f late_flags) blocking_flags)
          ++ map refused_order
              (select (λ o. not (owns "ann" catalog o)) ("order-2" ∷ "order-1" ∷ [])))
route_triage_total_example = route_triage_total "ann" flagged_message catalog

-- every order is the other customer's
abbrev foreign_catalog : OrderOwnershipSource
foreign_catalog = record { get_order_for_authorization = λ o. some (record_of "bob") }

abbrev empty_catalog : OrderOwnershipSource
empty_catalog = record { get_order_for_authorization = λ o. none }

abbrev owner : Option OrderOwnershipRecord → String
owner none = ""
owner (some r) = r.customer_id

nothing_owned : (o : String) → Owns "ann" o foreign_catalog ↔ Owns "ann" o empty_catalog
nothing_owned o = (
  (λ (r, found, mine).
      absurd (true-ne-false (sym ((eq_iff "bob" "ann").1 (ap owner found ∙ mine))))),
  (λ (r, found, mine). cc),
)

route_triage-indistinguishable_example :
    route_triage "ann" late_message foreign_catalog ≡ route_triage "ann" late_message empty_catalog
route_triage-indistinguishable_example =
    route_triage-indistinguishable "ann" late_message foreign_catalog empty_catalog nothing_owned
