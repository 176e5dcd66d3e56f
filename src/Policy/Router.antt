-- ===== src/Policy/Router.antt =====
-- application/policy_router.py: the route of a triaged message, decided before any case exists.
pub mod Orders
pub mod Routed
pub mod Laws
use ecommerce_after_sales_ag.Common.{
  String, Bool, true, false, ◌&&◌, ◌||◌, not, Option, none, some, List, [], ◌∷◌, ◌++◌, contains,
  is_empty, if◌then◌else◌,
}
use ecommerce_after_sales_ag.Common.Enum.{StrEnum, of_value, value_of, ◌is◌, ◌is_in◌}
use ecommerce_after_sales_ag.Common.Result.{
  Result, ok, err, authorization, value_error, key_error, ◌>>=◌,
}
use ecommerce_after_sales_ag.Domain.State.{
  IssueType, TriageIntent, issue_type_enum, triage_intent_enum,
}
use ecommerce_after_sales_ag.Domain.Models.{TriageResult}
use ecommerce_after_sales_ag.Policy.Authorization.{
  OrderOwnershipSource, AuthorizationGrant, authorize_order,
}

pub data PolicyRoute : Type 0 where
  supported_logistics standard_reply ambiguous out_of_scope prohibited unauthorized : PolicyRoute

pub record BlockedFragment : Type 0 where
  pub category : String
  pub order_id : Option String

pub record PolicyDecision : Type 0 where
  pub route : PolicyRoute
  pub supported : Bool
  pub canonical_issue_type : Option IssueType
  pub authorized_order_id : Option String
  pub blocked_fragments : List BlockedFragment
  pub risk_flags : List String
  pub reason_code : String

-- one `if flag in triage.risk_flags: blocked.append(…)`
abbrev pub flag_fragment : String → List String → List BlockedFragment
flag_fragment flag flags =
    if contains flag flags then record { category = flag; order_id = none } ∷ [] else []

unfoldable pub flag_fragments : List String → List BlockedFragment
flag_fragments flags =
    flag_fragment "instruction_override_attempt" flags
    ++ (flag_fragment "prohibited_action_request" flags
        ++ flag_fragment "unnecessary_personal_data" flags)

-- The lists `blocked` and `authorized_order_ids`.
pub record Sorted : Type 0 where
  pub blocked : List BlockedFragment
  pub authorized : List String

abbrev pub foreign : String → BlockedFragment
foreign order_id = record { category = "unauthorized_order_access"; order_id = some order_id }

-- one turn of the loop: `try … except AuthorizationError … else …`
unfoldable pub sort_order : Result AuthorizationGrant → String → Sorted → Result Sorted
sort_order (ok g) order_id s = ok (record s { authorized = s.authorized ++ (order_id ∷ []) })
sort_order (err authorization) order_id s =
    ok (record s { blocked = s.blocked ++ (foreign order_id ∷ []) })
sort_order (err e) order_id s = err e

unfoldable pub sort_orders : String → OrderOwnershipSource → List String → Sorted → Result Sorted
sort_orders customer source [] s = ok s
sort_orders customer source (o ∷ os) s =
    sort_order (authorize_order customer o source) o s >>= λ s'. sort_orders customer source os s'

-- the arguments shared by every `PolicyDecision(…)` of the function
unfoldable pub decide :
    TriageResult
    → Sorted
    → PolicyRoute
    → Bool
    → Option IssueType
    → Option String
    → String
    → PolicyDecision
decide t s route supported issue order reason = record {
  route = route;
  supported = supported;
  canonical_issue_type = issue;
  authorized_order_id = order;
  blocked_fragments = s.blocked;
  risk_flags = t.risk_flags;
  reason_code = reason;
}

-- `IssueType(triage.intent.value)`
unfoldable pub issue_of_intent : TriageIntent → Result IssueType
issue_of_intent intent = elim (of_value ⦃e = issue_type_enum⦄ (value_of intent)) [
  | some issue ↦ ok issue
  | none ↦ err (value_error (value_of intent))
]

abbrev pub selection_required : TriageResult → Sorted → PolicyDecision
selection_required t s =
    decide t s PolicyRoute.ambiguous false none none "MULTIPLE_AUTHORIZED_ORDERS_REQUIRE_SELECTION"

abbrev pub no_authorized_order : TriageResult → Sorted → PolicyDecision
no_authorized_order t s =
    decide t s PolicyRoute.unauthorized false none none "NO_AUTHORIZED_ORDER_IN_REQUEST"

-- the branch of the two supported issues, by the number of authorized orders
unfoldable pub route_supported : TriageResult → Sorted → List String → Result PolicyDecision
route_supported t s (o ∷ []) = issue_of_intent t.intent >>= λ issue. ok (
    decide t s PolicyRoute.supported_logistics true (some issue) (some o)
      "AUTHORIZED_SUPPORTED_ISSUE")
route_supported t s (o ∷ p ∷ os) = ok (selection_required t s)
route_supported t s [] = ok (
    if not (is_empty t.order_ids_mentioned)
    then no_authorized_order t s
    else decide t s PolicyRoute.ambiguous false none none "ORDER_ID_REQUIRED")

-- standard_reply_reasons
unfoldable pub standard_reply_reason : TriageIntent → Option String
standard_reply_reason TriageIntent.capability_help = some "CAPABILITY_HELP_STANDARD_REPLY"
standard_reply_reason TriageIntent.order_id_help = some "ORDER_ID_HELP_STANDARD_REPLY"
standard_reply_reason TriageIntent.tracking_status_query =
    some "TRACKING_STATUS_REQUIRES_CLARIFICATION"
standard_reply_reason TriageIntent.delivery_eta_info = some "DELIVERY_ETA_STANDARD_REPLY"
standard_reply_reason TriageIntent.change_delivery_info = some "CHANGE_DELIVERY_INFO_STANDARD_REPLY"
standard_reply_reason TriageIntent.refund_return_info = some "REFUND_RETURN_INFO_STANDARD_REPLY"
standard_reply_reason TriageIntent.human_support_request = some "HUMAN_SUPPORT_REQUESTED"
standard_reply_reason TriageIntent.thanks_close = some "THANKS_CLOSE_STANDARD_REPLY"
standard_reply_reason _ = none

-- the order that a standard reply names
unfoldable pub standard_reply_order : TriageIntent → List String → Option String
standard_reply_order TriageIntent.tracking_status_query (o ∷ []) = some o
standard_reply_order _ _ = none

abbrev pub standard_decision : TriageResult → Sorted → String → PolicyDecision
standard_decision t s reason =
    decide t s PolicyRoute.standard_reply false none (standard_reply_order t.intent s.authorized)
      reason

unfoldable pub route_standard : TriageResult → Sorted → List String → String → PolicyDecision
route_standard t s authorized reason =
    if t.intent is TriageIntent.tracking_status_query
    then (elim authorized [
      | [] ↦
          if not (is_empty t.order_ids_mentioned)
          then no_authorized_order t s
          else standard_decision t s reason
      | o ∷ os ↦ if is_empty os then standard_decision t s reason else selection_required t s
    ])
    else standard_decision t s reason

-- route_by_intent, reason_by_intent
unfoldable pub route_by_intent : TriageIntent → Option PolicyRoute
route_by_intent TriageIntent.ambiguous = some PolicyRoute.ambiguous
route_by_intent TriageIntent.other_logistics = some PolicyRoute.ambiguous
route_by_intent TriageIntent.out_of_scope = some PolicyRoute.out_of_scope
route_by_intent TriageIntent.prohibited = some PolicyRoute.prohibited
route_by_intent _ = none

unfoldable pub reason_by_intent : TriageIntent → Option String
reason_by_intent TriageIntent.ambiguous = some "ISSUE_REQUIRES_CLARIFICATION"
reason_by_intent TriageIntent.other_logistics = some "UNSUPPORTED_LOGISTICS_REQUIRES_CLARIFICATION"
reason_by_intent TriageIntent.out_of_scope = some "OUT_OF_SCOPE"
reason_by_intent TriageIntent.prohibited = some "PROHIBITED_ONLY_REQUEST"
reason_by_intent _ = none

-- `table[intent]`, which raises where the table has no entry
unfoldable pub entry {ℓ} : {A : Type ℓ} → Option A → Result A
entry none = err (key_error "intent")
entry (some a) = ok a

unfoldable pub route_other : TriageResult → Sorted → Result PolicyDecision
route_other t s = do
  route ← entry (route_by_intent t.intent)
  reason ← entry (reason_by_intent t.intent)
  ok (decide t s route false none none reason)

unfoldable pub route_sorted : TriageResult → Sorted → Result PolicyDecision
route_sorted t s =
    if t.intent is_in (TriageIntent.signed_not_received ∷ TriageIntent.stalled_tracking ∷ [])
    then route_supported t s s.authorized
    else elim (standard_reply_reason t.intent) [
      | some reason ↦ ok (route_standard t s s.authorized reason)
      | none ↦ route_other t s
    ]

unfoldable pub route_triage : String → TriageResult → OrderOwnershipSource → Result PolicyDecision
route_triage customer t source =
    sort_orders customer source t.order_ids_mentioned
      (record { blocked = flag_fragments t.risk_flags; authorized = [] })
    >>= λ s. route_sorted t s
