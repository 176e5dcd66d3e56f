-- ===== src/Events/Subscription.antt =====
-- events/store.py: `EventStore.subscribe`, the generator that replays and then follows a conversation.
-- `advance` is what it does up to its next event, query, or look into the queue; between two such
-- pieces anything else may happen to the store.
use ecommerce_after_sales_ag.Common.{
  ℕ, String, Bool, Option, none, some, List, [], ◌∷◌, length, ltb, ◌==◌, if◌then◌else◌,
}
use ecommerce_after_sales_ag.Common.Integer.{ℤ, pos, negsuc}
use ecommerce_after_sales_ag.Common.Result.{Result, ok, err, Error, value_error}
use ecommerce_after_sales_ag.Events.Models.{EventEnvelope}
use ecommerce_after_sales_ag.Events.Store.{EventStore, register, unregister}
use ecommerce_after_sales_ag.Events.Replay.{list_after}

-- Where the generator stands: before the next replay query, inside the loop over a batch (the rest of
-- the batch, and whether it is shorter than the page), at the queue, or ended.
pub data Phase : Type 0 where
  querying : Phase
  replaying : List EventEnvelope → Bool → Phase
  live : Phase
  ended : Option Error → Phase

pub record Subscription : Type 0 where
  pub conversation_id : String
  pub queue : ℕ
  pub cursor : ℕ
  pub phase : Phase

-- the length of a page when the caller names no limit
abbrev pub page_size : ℕ
page_size = 500

-- up to the first query
unfoldable pub subscribe : String → ℤ → EventStore → Result (Subscription × EventStore)
subscribe conversation_id (negsuc n) s = err (value_error "after_sequence must be nonnegative")
subscribe conversation_id (pos after_sequence) s =
    let registered = register conversation_id s.hub in
    ok (
      record {
        conversation_id = conversation_id;
        queue = registered.0;
        cursor = after_sequence;
        phase = querying;
      },
      record s { hub = registered.1 },
    )

-- the `finally` of the generator
unfoldable pub close : Option Error → Subscription → EventStore → Subscription × EventStore
close e sub s = (
  record sub { phase = ended e },
  record s { hub = unregister sub.conversation_id sub.queue s.hub },
)

-- an event of a batch or of the queue is yielded if it is past the cursor
unfoldable pub offer : EventEnvelope → Subscription → Option EventEnvelope × Subscription
offer event sub =
    if ltb sub.cursor event.sequence
    then (some event, record sub { cursor = event.sequence })
    else (none, sub)

-- a page of the replay
unfoldable pub take_batch :
    Result (List EventEnvelope) → Subscription → EventStore → Subscription × EventStore
take_batch (err e) sub s = close (some e) sub s
take_batch (ok []) sub s = (record sub { phase = live }, s)
take_batch (ok (e ∷ es)) sub s =
    (record sub { phase = replaying (e ∷ es) (ltb (length (e ∷ es)) page_size) }, s)

-- `queue.get()` took the front of the queue
unfoldable pub dequeue : ℕ → List EventEnvelope → EventStore → EventStore
dequeue queue rest s = record s {
  hub = record s.hub { queues = λ q. if q == queue then rest else s.hub.queues q };
}

unfoldable pub advance_at :
    Phase
    → List EventEnvelope
    → Subscription
    → EventStore
    → Option EventEnvelope × Subscription × EventStore
advance_at querying waiting sub s =
    let page = list_after sub.conversation_id (pos sub.cursor) (pos page_size) s.database in
    let taken = take_batch page sub s in (none, taken.0, taken.1)
advance_at (replaying [] short) waiting sub s =
    (none, (if short then record sub { phase = live } else record sub { phase = querying }), s)
advance_at (replaying (e ∷ es) short) waiting sub s =
    let offered = offer e sub in (offered.0, record offered.1 { phase = replaying es short }, s)
advance_at live [] sub s = (none, sub, s)
advance_at live (e ∷ es) sub s =
    let offered = offer e sub in (offered.0, offered.1, dequeue sub.queue es s)
advance_at (ended e) waiting sub s = (none, sub, s)

unfoldable pub advance :
    Subscription → EventStore → Option EventEnvelope × Subscription × EventStore
advance sub s = advance_at sub.phase (s.hub.queues sub.queue) sub s
