-- ===== src/Common/Integer.antt =====
-- Python's int where a negative value is an answer of its own.
use ecommerce_after_sales_ag.Common.{ℕ}

pub data ℤ : Type 0 where
  pos : ℕ → ℤ
  -- negsuc n is -(n + 1)
  negsuc : ℕ → ℤ
