-- ===== src/Common/Time.antt =====
-- Python's `datetime`: an instant in microseconds, and whether a UTC offset is known. Values with
-- an offset are compared by their instants; the validators of the source refuse the others.
use ecommerce_after_sales_ag.Common.{ℕ, ◌+◌, ◌*◌, Bool, true, false, ltb, leb}

pub data Timestamp : Type 0 where
  aware : ℕ → Timestamp
  naive : ℕ → Timestamp

abbrev pub instant : Timestamp → ℕ
instant (aware t) = t
instant (naive t) = t

abbrev pub is_aware : Timestamp → Bool
is_aware (aware t) = true
is_aware (naive t) = false

-- a < b
abbrev pub before : Timestamp → Timestamp → Bool
before a b = ltb (instant a) (instant b)

-- a <= b
abbrev pub not_after : Timestamp → Timestamp → Bool
not_after a b = leb (instant a) (instant b)

-- timedelta(minutes=m)
abbrev pub minutes : ℕ → ℕ
minutes m = m * 60000000

-- t + delta
abbrev pub later : Timestamp → ℕ → Timestamp
later (aware t) d = aware (t + d)
later (naive t) d = naive (t + d)
