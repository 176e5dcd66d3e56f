-- ===== src/Policy/Router/Laws.antt =====
-- application/policy_router.py: what a routing decision promises.
use mathlib.Core.Path.{fun_ext}
use ecommerce_after_sales_ag.Common.{
  String, Bool, Bool-ext, true, false, not, none, some, List, [], ◌∷◌, refl, if◌then◌else◌, ◌++◌,
  ◌≡◌, ◌↔◌, map, select, ap, sym, ◌∙◌, contains, subst,
}
use ecommerce_after_sales_ag.Common.Result.{ok, ok-injective}
use ecommerce_after_sales_ag.Domain.State.{IssueType, issue_type_enum, triage_intent_enum}
use ecommerce_after_sales_ag.Domain.Models.{TriageResult}
use ecommerce_after_sales_ag.Policy.Authorization.{OrderOwnershipSource, authorize_order_iff, Owns}
use ecommerce_after_sales_ag.Policy.Router.{
  PolicyDecision, BlockedFragment, Sorted, foreign, flag_fragments, route_sorted, route_triage,
}
use ecommerce_after_sales_ag.Policy.Router.Orders.{
  owns, partition, sort_orders-eq-partition, select-single,
}
use ecommerce_after_sales_ag.Policy.Router.Routed.{reported, Routed, route_sorted_total}

-- The lists over which a message is routed.
abbrev pub sorted_orders : String → TriageResult → OrderOwnershipSource → Sorted
sorted_orders c t source =
    partition (owns c source) t.order_ids_mentioned
      (record { blocked = flag_fragments t.risk_flags; authorized = [] })

route_triage-eq-route_sorted :
    (c : String) (t : TriageResult) (source : OrderOwnershipSource)
    → route_triage c t source ≡ route_sorted t (sorted_orders c t source)
unfolding route_triage
route_triage-eq-route_sorted c t source = rw sort_orders-eq-partition

-- The flags for which a fragment of the message is blocked.
abbrev pub blocking_flags : List String
blocking_flags =
    "instruction_override_attempt" ∷ "prohibited_action_request" ∷ "unnecessary_personal_data" ∷ []

abbrev pub flagged : String → BlockedFragment
flagged flag = record { category = flag; order_id = none }

abbrev pub refused_order : String → BlockedFragment
refused_order o = record { category = "unauthorized_order_access"; order_id = some o }

flag_fragments-eq-map :
    (flags : List String)
    → flag_fragments flags ≡ map flagged (select (λ f. contains f flags) blocking_flags)
unfolding flag_fragments
flag_fragments-eq-map flags =
    three (contains "instruction_override_attempt" flags)
      (contains "prohibited_action_request" flags) (contains "unnecessary_personal_data" flags)
  where
    three :
        (a b c : Bool)
        → (if a then flagged "instruction_override_attempt" ∷ [] else [])
            ++ ((if b then flagged "prohibited_action_request" ∷ [] else [])
                ++ (if c then flagged "unnecessary_personal_data" ∷ [] else []))
          ≡ map flagged (
              let last : List String = if c then "unnecessary_personal_data" ∷ [] else [] in
              let two : List String = if b then "prohibited_action_request" ∷ last else last in
              if a then "instruction_override_attempt" ∷ two else two)
    three true true true = refl
    three true true false = refl
    three true false true = refl
    three true false false = refl
    three false true true = refl
    three false true false = refl
    three false false true = refl
    three false false false = refl

-- Routing never raises. The decision carries the flags of the triage, and blocks exactly a fragment for
-- each of the three blocking flags that triage has raised, and then each mentioned order that is not
-- granted to the customer, in the message's order.
pub route_triage_total :
    (c : String) (t : TriageResult) (source : OrderOwnershipSource)
    → (d : PolicyDecision) × (route_triage c t source ≡ ok d)
      × (d.risk_flags ≡ t.risk_flags)
      × (d.blocked_fragments
          ≡ map flagged (select (λ f. contains f t.risk_flags) blocking_flags)
            ++ map refused_order (select (λ o. not (owns c source o)) t.order_ids_mentioned))
route_triage_total c t source =
    let (d, routed, facts) = route_sorted_total t (sorted_orders c t source) in
    (
      d,
      route_triage-eq-route_sorted c t source ∙ routed,
      facts.flags,
      facts.blocked
          ∙ ap (λ fs. fs ++ map foreign (select (λ o. not (owns c source o)) t.order_ids_mentioned))
              (flag_fragments-eq-map t.risk_flags),
    )

Routed-of_route_triage :
    (c : String) (t : TriageResult) (source : OrderOwnershipSource) (d : PolicyDecision)
    → route_triage c t source ≡ ok d
    → Routed t (sorted_orders c t source) d
Routed-of_route_triage c t source d h =
    let (d', routed, facts) = route_sorted_total t (sorted_orders c t source) in
    subst (Routed t (sorted_orders c t source))
      (ok-injective (sym routed ∙ (sym (route_triage-eq-route_sorted c t source) ∙ h))) facts

-- A decision names an order only if the message mentions that order and its record names the
-- customer, and no other order that the message mentions is the customer's.
pub routed_order_is_owned :
    (c : String) (t : TriageResult) (source : OrderOwnershipSource) (d : PolicyDecision)
    (o : String)
    → route_triage c t source ≡ ok d
    → d.authorized_order_id ≡ some o
    → Owns c o source
      × (contains o t.order_ids_mentioned ≡ true)
      × (select (owns c source) t.order_ids_mentioned ≡ o ∷ [])
routed_order_is_owned c t source d o h e =
    let only = (Routed-of_route_triage c t source d h).named o e in
    let (mine, there) = select-single (owns c source) t.order_ids_mentioned o only in
    ((authorize_order_iff c o source).0.0 mine, there, only)

-- A decision opens an investigation of an issue for an order exactly if triage reported that issue
-- and the order is the only one of the mentioned orders that is granted to the customer.
pub opens_investigation_iff :
    (c : String) (t : TriageResult) (source : OrderOwnershipSource) (d : PolicyDecision)
    (i : IssueType) (o : String)
    → route_triage c t source ≡ ok d
    → ((d.supported ≡ true) × (d.canonical_issue_type ≡ some i) × (d.authorized_order_id ≡ some o))
      ↔ ((t.intent ≡ reported i) × (select (owns c source) t.order_ids_mentioned ≡ o ∷ []))
opens_investigation_iff c t source d i o h =
    let facts = Routed-of_route_triage c t source d h in
    (
      (λ (_, issue, order). ((facts.opened i issue).0, facts.named o order)),
      (λ (intent, only). facts.opens i o intent only),
    )

-- Whether an order is missing or belongs to somebody else makes no difference: two sources that
-- grant the same orders to the customer give the same decision.
pub route_triage-indistinguishable :
    (c : String) (t : TriageResult) (one two : OrderOwnershipSource)
    → ((o : String) → Owns c o one ↔ Owns c o two)
    → route_triage c t one ≡ route_triage c t two
route_triage-indistinguishable c t one two same =
    let agree : owns c one ≡ owns c two = fun_ext λ o. Bool-ext _ _ (
      (λ h. (authorize_order_iff c o two).0.1 ((same o).0 ((authorize_order_iff c o one).0.0 h))),
      (λ h. (authorize_order_iff c o one).0.1 ((same o).1 ((authorize_order_iff c o two).0.0 h))),
    ) in
    route_triage-eq-route_sorted c t one
    ∙ (ap
          (λ (granted : String → Bool). route_sorted t (
            partition granted t.order_ids_mentioned
              (record { blocked = flag_fragments t.risk_flags; authorized = [] })))
          agree
        ∙ sym (route_triage-eq-route_sorted c t two))
