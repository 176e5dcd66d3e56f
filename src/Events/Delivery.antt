-- ===== src/Events/Delivery.antt =====
-- events/store.py: a subscription among everything else that happens to the store.
pub mod Slices
pub mod Sources
pub mod Refills
pub mod Invariant
pub mod Pieces
pub mod Neighbours
pub mod Acts
pub mod Order
pub mod Effort
pub mod Draining
use ecommerce_after_sales_ag.Common.{
  ℕ, zero, suc, String, Bool, true, false, Option, none, some, List, [], ◌∷◌, ◌++◌, ◌==◌,
  if◌then◌else◌,
}
use ecommerce_after_sales_ag.Common.Result.{Result, ok, err}
use ecommerce_after_sales_ag.Common.Time.{Timestamp}
use ecommerce_after_sales_ag.Events.Models.{EventDraft, EventEnvelope}
use ecommerce_after_sales_ag.Events.Store.{EventStore, append, register, unregister}
use ecommerce_after_sales_ag.Events.Subscription.{Subscription, advance}

-- The store, one subscription, and what it has yielded so far.
pub record World : Type 0 where
  pub store : EventStore
  pub subscription : Subscription
  pub delivered : List EventEnvelope

-- What may happen: an append, another subscriber that comes or goes, or a piece of the generator.
pub data Act : Type 0 where
  appends : EventDraft → Timestamp → Act
  joins : String → Act
  leaves : String → ℕ → Act
  advances : Act

-- an append that raises leaves the store as it was
abbrev pub after_append : Result (EventEnvelope × EventStore) → EventStore → EventStore
after_append (err e) s = s
after_append (ok r) s = r.1

abbrev pub yielded : Option EventEnvelope → List EventEnvelope → List EventEnvelope
yielded none es = es
yielded (some e) es = es ++ e ∷ []

unfoldable pub follow : World → World
follow w =
    let r = advance w.subscription w.store in
    record { store = r.2; subscription = r.1; delivered = yielded r.0 w.delivered }

-- only the generator itself unregisters its queue
unfoldable pub happen : Act → World → World
happen (appends d now) w = record w { store = after_append (append d now w.store) w.store }
happen (joins c) w = record w { store = record w.store { hub = (register c w.store.hub).1 } }
happen (leaves c q) w =
    if q == w.subscription.queue
    then w
    else record w { store = record w.store { hub = unregister c q w.store.hub } }
happen advances w = follow w

unfoldable pub happen_all : List Act → World → World
happen_all [] w = w
happen_all (a ∷ acts) w = happen_all acts (happen a w)

-- the generator left alone for n pieces
unfoldable pub follow_for : ℕ → World → World
follow_for zero w = w
follow_for (suc n) w = follow_for n (follow w)
