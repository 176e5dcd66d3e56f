-- ===== src/Common/Json.antt =====
-- The JSON values that the source keeps in fields of type `dict[str, Any]`.
-- A float is its text in JSON.
use ecommerce_after_sales_ag.Common.{Bool, String}
use ecommerce_after_sales_ag.Common.Integer.{ℤ}

mutual
  pub data Json : Type 0 where
    null : Json
    truth : Bool → Json
    num : ℤ → Json
    decimal : String → Json
    str : String → Json
    arr : Items → Json
    obj : Fields → Json

  pub data Items : Type 0 where
    nil : Items
    cons : Json → Items → Items

  pub data Fields : Type 0 where
    end : Fields
    field : String → Json → Fields → Fields
