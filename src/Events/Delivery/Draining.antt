-- ===== src/Events/Delivery/Draining.antt =====
-- events/store.py: a generator that is left alone yields all there is and then waits.
use ecommerce_after_sales_ag.Common.{
  ℕ, zero, suc, ◌+◌, ◌*◌, ◌≤◌, String, true, false, List, [], ◌∷◌, ◌≡◌, refl, ap, ◌∙◌, inl, inr,
  arith, ltb, select, length, length-append,
}
use ecommerce_after_sales_ag.Common.Integer.{pos}
use ecommerce_after_sales_ag.Common.Result.{Result, ok, err}
use ecommerce_after_sales_ag.Events.Models.{EventEnvelope}
use ecommerce_after_sales_ag.Events.Store.{EventStore}
use ecommerce_after_sales_ag.Events.Subscription.{
  Phase, querying, replaying, live, ended, Subscription, dequeue, take_batch, close, advance_at,
  advance, subscribe,
}
use ecommerce_after_sales_ag.Events.Log.{IsLogged}
use ecommerce_after_sales_ag.Events.Pages.{skip, events_of}
use ecommerce_after_sales_ag.Events.Delivery.{World, Act, happen_all, follow, follow_for}
use ecommerce_after_sales_ag.Events.Delivery.Slices.{length-skip}
use ecommerce_after_sales_ag.Events.Delivery.Sources.{Sources}
use ecommerce_after_sales_ag.Events.Delivery.Invariant.{IsFollowing, batch_of, is_last, after_piece}
use ecommerce_after_sales_ag.Events.Delivery.Acts.{happen_all-IsFollowing}
use ecommerce_after_sales_ag.Events.Delivery.Pieces.{follow-IsFollowing}
use ecommerce_after_sales_ag.Events.Delivery.Order.{
  IsTidy, opened, opened-IsFollowing, followed_conversation, waiting_complete,
  advance_at-conversation,
}
use ecommerce_after_sales_ag.Events.Delivery.Effort.{effort, effort_of, IsWaiting, follow-effort}

still :
    (w : World) (p : Phase) (queue : List EventEnvelope)
    → p ≡ live
    → queue ≡ []
    → after_piece (advance_at p queue w.subscription w.store) w.delivered ≡ w
unfolding advance_at
still w p queue h k =
    ap (λ x. after_piece (advance_at x queue w.subscription w.store) w.delivered) h
    ∙ ap (λ y. after_piece (advance_at live y w.subscription w.store) w.delivered) k

-- a generator that waits changes nothing
follow_for-still : (n : ℕ) (w : World) → IsWaiting w → follow_for n w ≡ w
unfolding follow_for follow advance
follow_for-still zero w h = refl
follow_for-still (suc n) w h =
    ap (follow_for n) (still w w.subscription.phase _ h.0 h.1) ∙ follow_for-still n w h

follow_for-IsWaiting :
    (start n : ℕ) (w : World)
    → IsFollowing start w
    → effort_of w ≤ n
    → IsFollowing start (follow_for n w) × IsWaiting (follow_for n w)
unfolding follow_for
follow_for-IsWaiting start zero w f l = elim (follow-effort start w f) [
  | inl h ↦ (f, h)
  | inr h ↦ absurd (omega (arith, h, l))
]
follow_for-IsWaiting start (suc n) w f l = elim (follow-effort start w f) [
  | inl h ↦ rw (follow_for-still (suc n) w h, follow_for) (f, h)
  | inr h ↦
      follow_for-IsWaiting start n (follow w) (follow-IsFollowing start w f) (omega (arith, h, l))
]

take_batch-database :
    (r : Result (List EventEnvelope)) (sub : Subscription) (s : EventStore)
    → (take_batch r sub s).1.database ≡ s.database
unfolding take_batch close
take_batch-database (err e) sub s = refl
take_batch-database (ok []) sub s = refl
take_batch-database (ok (e ∷ es)) sub s = refl

advance_at-database :
    (p : Phase) (waiting : List EventEnvelope) (sub : Subscription) (s : EventStore)
    → (advance_at p waiting sub s).2.database ≡ s.database
unfolding advance_at dequeue
advance_at-database querying waiting sub s = take_batch-database _ sub s
advance_at-database (replaying [] true) waiting sub s = refl
advance_at-database (replaying [] false) waiting sub s = refl
advance_at-database (replaying (e ∷ es) short) waiting sub s = refl
advance_at-database live [] sub s = refl
advance_at-database live (e ∷ es) sub s = refl
advance_at-database (ended e) waiting sub s = refl

-- the generator writes nothing
follow_for-same :
    (n : ℕ) (w : World)
    → ((follow_for n w).store.database ≡ w.store.database)
      × ((follow_for n w).subscription.conversation_id ≡ w.subscription.conversation_id)
unfolding follow_for follow advance
follow_for-same zero w = (refl, refl)
follow_for-same (suc n) w =
    let (db, c) = follow_for-same n (follow w) in
    (
      db ∙ advance_at-database w.subscription.phase _ w.subscription w.store,
      c ∙ advance_at-conversation w.subscription.phase _ w.subscription w.store,
    )

length-skip_le : (j : ℕ) (xs : List EventEnvelope) → length (skip j xs) ≤ length xs
length-skip_le j xs = elim (length-skip j xs) [
  | inl h ↦ omega (arith, h.1)
  | inr h ↦ omega (arith, ap length h.1)
]

effort-bound :
    (cursor : ℕ) (log queue : List EventEnvelope) (p : Phase)
    → Sources cursor log queue (batch_of p) (is_last p)
    → effort p (length queue) (length (skip cursor log)) ≤ 3 * length log + length queue + 2
effort-bound cursor log queue querying h = omega (arith, length-skip_le cursor log)
effort-bound cursor log queue (replaying es true) h = omega (
  arith,
  length-skip_le cursor log,
  ap length h ∙ length-append es (select (λ e. ltb (cursor + length es) e.sequence) queue),
)
effort-bound cursor log queue (replaying es false) h =
    omega (arith, length-skip_le cursor log, ap length h.0.1 ∙ length-append es h.0.0)
effort-bound cursor log queue live h = omega arith
effort-bound cursor log queue (ended e) h = omega arith

-- A subscription to a well-numbered store, after any acts: left alone for three pieces for each event
-- of its conversation, one for each event of its queue and two more, the generator stands waiting at
-- an empty queue and has yielded every event that comes after the start.
pub drained :
    (c : String) (start : ℕ) (s : EventStore) (r : Subscription × EventStore) (acts : List Act)
    (n : ℕ)
    → IsLogged s.database
    → IsTidy s.hub
    → subscribe c (pos start) s ≡ ok r
    → 3 * length (events_of c (happen_all acts (opened r)).store.database)
        + length (
            (happen_all acts (opened r)).store.hub.queues
              (happen_all acts (opened r)).subscription.queue)
        + 2
      ≤ n
    → IsWaiting (follow_for n (happen_all acts (opened r)))
      × ((follow_for n (happen_all acts (opened r))).delivered
          ≡ skip start (events_of c (happen_all acts (opened r)).store.database))
drained c start s r acts n l t h enough =
    let w = happen_all acts (opened r) in
    let f = happen_all-IsFollowing start acts (opened r) (opened-IsFollowing c start s r l t h) in
    let same = followed_conversation c start s r acts h in
    let bound =
      effort-bound w.subscription.cursor (events_of w.subscription.conversation_id w.store.database)
        (w.store.hub.queues w.subscription.queue) w.subscription.phase f.accounted.sources in
    let count = ap (λ x. length (events_of x w.store.database)) same in
    let (g, (p, q)) = follow_for-IsWaiting start n w f (omega (arith, bound, count, enough)) in
    let (db, c') = follow_for-same n w in
    (
      (p, q),
      waiting_complete start (follow_for n w) g p q
          ∙ ap (λ x. skip start (events_of x (follow_for n w).store.database)) (c' ∙ same)
          ∙ ap (λ x. skip start (events_of c x)) db,
    )
