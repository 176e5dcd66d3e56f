-- ===== src/Policy/Authorization.antt =====
-- policy/authorization.py: the one rule by which every read of an order is authorized.
use ecommerce_after_sales_ag.Common.{
  String, true, false, not, Option, none, some, ◌≡◌, refl, sym, ap, ◌↔◌, ◌⊎◌, inl, inr, Bool-cases,
  false, arith, str_eq, if◌then◌else◌, eq_iff,
}
use ecommerce_after_sales_ag.Common.Result.{Result, ok, err, authorization, is_ok, ok-injective}

pub record OrderOwnershipRecord : Type 0 where
  pub order_id : String
  pub customer_id : String
  pub source_revision : String

-- The protocol that a source of orders implements.
pub record OrderOwnershipSource : Type 0 where
  pub get_order_for_authorization : String → Option OrderOwnershipRecord

pub record AuthorizationGrant : Type 0 where
  pub customer_id : String
  pub order_id : String
  pub source_revision : String

grant_of : String → Option OrderOwnershipRecord → Result AuthorizationGrant
grant_of customer_id none = err authorization
grant_of customer_id (some r) =
    if not (str_eq r.customer_id customer_id)
    then err authorization
    else ok (record {
      customer_id = customer_id;
      order_id = r.order_id;
      source_revision = r.source_revision;
    })

unfoldable pub authorize_order : String → String → OrderOwnershipSource → Result AuthorizationGrant
unfolding grant_of
authorize_order customer_id order_id source =
    grant_of customer_id (source.get_order_for_authorization order_id)

-- The record of the order exists and names the customer.
abbrev pub Owns : String → String → OrderOwnershipSource → Type 0
Owns customer_id order_id source =
    (r : OrderOwnershipRecord) × (source.get_order_for_authorization order_id ≡ some r)
    × (r.customer_id ≡ customer_id)

granted :
    (c : String) (o : Option OrderOwnershipRecord)
    → is_ok (grant_of c o) ≡ true
    → (r : OrderOwnershipRecord) × (o ≡ some r) × (r.customer_id ≡ c)
unfolding grant_of
granted c none h = cc
granted c (some r) h = (r, refl, (eq_iff r.customer_id c).0 (ground arith))

granted_order :
    (c : String) (o : Option OrderOwnershipRecord) (g : AuthorizationGrant)
    → grant_of c o ≡ ok g
    → (r : OrderOwnershipRecord) × (o ≡ some r) × (g.order_id ≡ r.order_id)
unfolding grant_of
granted_order c none g h = cc
granted_order c (some r) g h = elim (Bool-cases (str_eq r.customer_id c)) [
  | inl e ↦ (r, refl, ap (λ x. x.order_id) (sym (ok-injective (rw e at h))))
  | inr e ↦ absurd (let k = rw e at h in cc)
]

-- a grant names the order of the record
pub authorize_order-eq-ok :
    (c o : String) (source : OrderOwnershipSource) (g : AuthorizationGrant)
    → authorize_order c o source ≡ ok g
    → (r : OrderOwnershipRecord) × (source.get_order_for_authorization o ≡ some r)
      × (g.order_id ≡ r.order_id)
unfolding authorize_order
authorize_order-eq-ok c o source g h = granted_order c (source.get_order_for_authorization o) g h

refused :
    (c : String) (o : Option OrderOwnershipRecord)
    → is_ok (grant_of c o) ≡ false
    → grant_of c o ≡ err authorization
unfolding grant_of
refused c none h = refl
refused c (some r) h = ground arith

-- An order is granted exactly if its record names the customer; every other order, missing or of
-- another customer, is refused by one and the same error.
pub authorize_order_iff :
    (c o : String) (source : OrderOwnershipSource)
    → ((is_ok (authorize_order c o source) ≡ true) ↔ Owns c o source)
      × ((authorize_order c o source ≡ err authorization) ⊎ Owns c o source)
unfolding authorize_order
authorize_order_iff c o source = (
  (
    (λ h. granted c (source.get_order_for_authorization o) h),
    (λ (r, found, mine). rw found (ground (arith, (eq_iff r.customer_id c).1 mine))),
  ),
  elim (Bool-cases (is_ok (grant_of c (source.get_order_for_authorization o)))) [
    | inl ok' ↦ inr (granted c (source.get_order_for_authorization o) ok')
    | inr failed ↦ inl (refused c (source.get_order_for_authorization o) failed)
  ],
)
