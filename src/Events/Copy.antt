-- ===== src/Events/Copy.antt =====
-- events/store.py: `_copy_json`, which gives back the value it is given.
use ecommerce_after_sales_ag.Common.{List, [], ◌∷◌, ◌≡◌, refl, ap, map}
use ecommerce_after_sales_ag.Common.Json.{
  Json, Items, Fields, null, truth, num, decimal, str, arr, obj, nil, cons, end, field,
}

-- _copy_json
unfoldable mutual
  pub copy_json : Json → Json
  copy_json (obj fs) = obj (copy_fields fs)
  copy_json (arr xs) = arr (copy_items xs)
  copy_json null = null
  copy_json (truth b) = truth b
  copy_json (num n) = num n
  copy_json (decimal s) = decimal s
  copy_json (str s) = str s

  pub copy_items : Items → Items
  copy_items nil = nil
  copy_items (cons x xs) = cons (copy_json x) (copy_items xs)

  pub copy_fields : Fields → Fields
  copy_fields end = end
  copy_fields (field k x fs) = field k (copy_json x) (copy_fields fs)

-- A copy has the same keys and values, in the same order.
mutual
  unfolding copy_json

  pub copy_json_lem : (v : Json) → copy_json v ≡ v
  copy_json_lem (obj fs) = ap obj (copy_fields_lem fs)
  copy_json_lem (arr xs) = ap arr (copy_items_lem xs)
  copy_json_lem null = refl
  copy_json_lem (truth b) = refl
  copy_json_lem (num n) = refl
  copy_json_lem (decimal s) = refl
  copy_json_lem (str s) = refl

  pub copy_items_lem : (xs : Items) → copy_items xs ≡ xs
  copy_items_lem nil = refl
  copy_items_lem (cons x xs) = cc (copy_json_lem x, copy_items_lem xs)

  pub copy_fields_lem : (fs : Fields) → copy_fields fs ≡ fs
  copy_fields_lem end = refl
  copy_fields_lem (field k x fs) = cc (copy_json_lem x, copy_fields_lem fs)

pub map-copy_fields : (refs : List Fields) → map copy_fields refs ≡ refs
map-copy_fields [] = refl
map-copy_fields (r ∷ rs) = cc (copy_fields_lem r, map-copy_fields rs)
