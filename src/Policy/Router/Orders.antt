-- ===== src/Policy/Router/Orders.antt =====
-- application/policy_router.py: the loop that authorizes each order a message mentions.
use mathlib.Core.List.{append-nil, append_assoc}
use text.Mathlib.TextPositions.{eq_refl}
use ecommerce_after_sales_ag.Common.{
  String, Bool, true, not, List, [], ◌∷◌, ◌++◌, ◌≡◌, refl, arith, map, inl, inr, ◌⊎◌, select, sym,
  contains, Bool-cases, or_left, or_right, if◌then◌else◌,
}
use ecommerce_after_sales_ag.Common.Result.{Result, ok, err, authorization, is_ok}
use ecommerce_after_sales_ag.Policy.Authorization.{
  OrderOwnershipSource, authorize_order, authorize_order_iff, AuthorizationGrant,
}
use ecommerce_after_sales_ag.Policy.Router.{Sorted, foreign, sort_order, sort_orders}

abbrev pub owns : String → OrderOwnershipSource → String → Bool
owns c source o = is_ok (authorize_order c o source)

-- The sorted lists, by one pass for each.
abbrev pub partition : (String → Bool) → List String → Sorted → Sorted
partition granted os s = record {
  blocked = s.blocked ++ map foreign (select (λ o. not (granted o)) os);
  authorized = s.authorized ++ select granted os;
}

sort_order_lem :
    (r : Result AuthorizationGrant) (o : String) (s : Sorted)
    → (r ≡ err authorization) ⊎ (is_ok r ≡ true)
    → sort_order r o s
      ≡ ok (
          if is_ok r
          then record s { authorized = s.authorized ++ (o ∷ []) }
          else record s { blocked = s.blocked ++ (foreign o ∷ []) })
unfolding sort_order
sort_order_lem r o s (inl k) = rw k refl
sort_order_lem (ok g) o s (inr k) = refl
sort_order_lem (err e) o s (inr k) = cc

-- an order is granted, or refused by the error that the loop catches
granted_or_caught :
    (c o : String) (source : OrderOwnershipSource)
    → (authorize_order c o source ≡ err authorization) ⊎ (owns c source o ≡ true)
granted_or_caught c o source = elim (authorize_order_iff c o source).1 [
  | inl e ↦ inl e
  | inr mine ↦ inr ((authorize_order_iff c o source).0.1 mine)
]

-- The loop never raises, keeps the order of the message, blocks each refused order, and keeps each
-- granted one.
pub sort_orders-eq-partition :
    (c : String) (source : OrderOwnershipSource) (os : List String) (s : Sorted)
    → sort_orders c source os s ≡ ok (partition (owns c source) os s)
unfolding sort_orders
sort_orders-eq-partition c source [] s = λ i. ok (record {
  blocked = sym (append-nil s.blocked) i;
  authorized = sym (append-nil s.authorized) i;
})
sort_orders-eq-partition c source (o ∷ os) s =
    let turn = sort_order_lem (authorize_order c o source) o s (granted_or_caught c o source) in
    elim (Bool-cases (owns c source o)) [
      | inl mine ↦ rw (turn, mine) (rw (sort_orders-eq-partition c source os, append_assoc) refl)
      | inr other ↦ rw (turn, other) (rw (sort_orders-eq-partition c source os, append_assoc) refl)
    ]

-- What a filter leaves satisfies its test and was there.
pub select-single :
    (p : String → Bool) (xs : List String) (o : String)
    → select p xs ≡ o ∷ []
    → (p o ≡ true) × (contains o xs ≡ true)
select-single p [] o h = cc
select-single p (x ∷ xs) o h = elim (Bool-cases (p x)) [
  | inl kept ↦
      let same : x ≡ o = ground (arith, kept) in
      (rw (← same) kept, rw (← same) (or_left _ _ (eq_refl x)))
  | inr left ↦
      let (holds, there) = select-single p xs o (ground (arith, left)) in
      (holds, or_right _ _ there)
]
