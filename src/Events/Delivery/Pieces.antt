-- ===== src/Events/Delivery/Pieces.antt =====
-- events/store.py: every piece of the generator keeps the invariant of its subscription.
use ecommerce_after_sales_ag.Common.{
  ℕ, Bool, true, false, List, [], ◌∷◌, ◌≡◌, refl, sym, subst, inl, inr, arith, ltb, ◌==◌,
  Bool-cases,
}
use ecommerce_after_sales_ag.Events.Models.{EventEnvelope}
use ecommerce_after_sales_ag.Events.Store.{EventStore}
use ecommerce_after_sales_ag.Events.Subscription.{
  Phase, querying, replaying, live, ended, Subscription, page_size, offer, dequeue, advance_at,
  advance,
}
use ecommerce_after_sales_ag.Events.Log.{IsLogged}
use ecommerce_after_sales_ag.Events.Pages.{events_of, list_after_slice}
use ecommerce_after_sales_ag.Events.Delivery.{World, follow}
use ecommerce_after_sales_ag.Events.Delivery.Sources.{Sources-batch, Sources-queue, Sources-old}
use ecommerce_after_sales_ag.Events.Delivery.Refills.{Sources-page}
use ecommerce_after_sales_ag.Events.Delivery.Invariant.{
  IsTuned, IsAccounted, IsFollowing, events_of-IsCounted, yield_next, move_on, after_piece,
  take_batch-IsFollowing,
}

==_refl : (n : ℕ) → (n == n) ≡ true
==_refl n = ground arith

advance_at-batch :
    (start : ℕ) (sub : Subscription) (s : EventStore) (delivered es : List EventEnvelope)
    (e : EventEnvelope) (short : Bool)
    → IsLogged s.database
    → IsTuned s.hub sub.conversation_id sub.queue
    → IsAccounted start
        (events_of sub.conversation_id s.database)
        sub.cursor
        (s.hub.queues sub.queue)
        (replaying (e ∷ es) short)
        delivered
    → IsFollowing start (
        after_piece
          (advance_at (replaying (e ∷ es) short) (s.hub.queues sub.queue) sub s)
          delivered)
unfolding advance_at offer
advance_at-batch start sub s delivered es e short l t a =
    let log = events_of sub.conversation_id s.database in
    let queue = s.hub.queues sub.queue in
    let (next, rest) = Sources-batch sub.cursor log queue es e short a.sources in
    let (number, b) =
      yield_next start log sub.cursor queue queue (replaying (e ∷ es) short) (replaying es short)
        delivered e (events_of-IsCounted sub.conversation_id s.database l) a next rest refl in
    let new : ltb sub.cursor e.sequence ≡ true = ground (arith, number) in
    rw new (record { logged = l; tuned = t; accounted = b })

advance_at-queue :
    (start : ℕ) (sub : Subscription) (s : EventStore) (delivered es : List EventEnvelope)
    (e : EventEnvelope)
    → IsLogged s.database
    → IsTuned s.hub sub.conversation_id sub.queue
    → IsAccounted start
        (events_of sub.conversation_id s.database)
        sub.cursor
        (e ∷ es)
        live
        delivered
    → sub.phase ≡ live
    → IsFollowing start (after_piece (advance_at live (e ∷ es) sub s) delivered)
unfolding advance_at offer dequeue
advance_at-queue start sub s delivered es e l t a p =
    let log = events_of sub.conversation_id s.database in
    let tuned : IsTuned s.hub sub.conversation_id sub.queue = t in
    elim (Bool-cases (ltb sub.cursor e.sequence)) [
      | inl new ↦
          let (next, rest) =
            Sources-queue sub.cursor log es e (events_of-IsCounted sub.conversation_id s.database l)
              new a.sources in
          let (number, b) =
            yield_next start log sub.cursor (e ∷ es) es live live delivered e
              (events_of-IsCounted sub.conversation_id s.database l) a next rest refl in
          rw new (record {
            logged = l;
            tuned = record { alone = t.alone; older = t.older };
            accounted = rw (==_refl sub.queue, p) b;
          })
      | inr old ↦
          let b =
            move_on start log sub.cursor (e ∷ es) es live live delivered a
              (Sources-old sub.cursor log es e old a.sources) refl in
          rw old (record {
            logged = l;
            tuned = record { alone = t.alone; older = t.older };
            accounted = rw (==_refl sub.queue, p) b;
          })
    ]

advance_at-IsFollowing :
    (start : ℕ) (p : Phase) (queue : List EventEnvelope) (sub : Subscription) (s : EventStore)
    (delivered : List EventEnvelope)
    → IsLogged s.database
    → IsTuned s.hub sub.conversation_id sub.queue
    → IsAccounted start (events_of sub.conversation_id s.database) sub.cursor queue p delivered
    → s.hub.queues sub.queue ≡ queue
    → sub.phase ≡ p
    → IsFollowing start (after_piece (advance_at p queue sub s) delivered)
unfolding advance_at
advance_at-IsFollowing start querying queue sub s delivered l t a q p =
    let log = events_of sub.conversation_id s.database in
    let page =
      list_after_slice sub.conversation_id sub.cursor page_size s.database l (omega arith)
        (omega arith) in
    let b = subst (λ x. IsAccounted start log sub.cursor x querying delivered) (sym q) a in
    rw page (
      take_batch-IsFollowing start sub s delivered _ l t b (
        Sources-page sub.cursor page_size log (s.hub.queues sub.queue)
          (events_of-IsCounted sub.conversation_id s.database l) b.sources))
advance_at-IsFollowing start (replaying [] true) queue sub s delivered l t a q p = record {
  logged = l;
  tuned = t;
  accounted = move_on start _ _ _ _ (replaying [] true) live delivered a (rw q a.sources) refl;
}
advance_at-IsFollowing start (replaying [] false) queue sub s delivered l t a q p = record {
  logged = l;
  tuned = t;
  accounted = move_on start _ _ _ _ (replaying [] false) querying delivered a (rw q a.sources) refl;
}
advance_at-IsFollowing start (replaying (e ∷ es) short) queue sub s delivered l t a q p =
    advance_at-batch start sub s delivered es e short l t (
      subst
        (λ x.
          IsAccounted start (events_of sub.conversation_id s.database) sub.cursor x
            (replaying (e ∷ es) short) delivered)
        (sym q) a)
advance_at-IsFollowing start live [] sub s delivered l t a q p = record {
  logged = l;
  tuned = t;
  accounted = rw (q, p) a;
}
advance_at-IsFollowing start live (e ∷ es) sub s delivered l t a q p =
    advance_at-queue start sub s delivered es e l t a p
advance_at-IsFollowing start (ended x) queue sub s delivered l t a q p =
    absurd (let k = a.running in cc)

pub follow-IsFollowing :
    (start : ℕ) (w : World) → IsFollowing start w → IsFollowing start (follow w)
unfolding follow advance
follow-IsFollowing start w f =
    advance_at-IsFollowing start w.subscription.phase (w.store.hub.queues w.subscription.queue)
      w.subscription w.store w.delivered f.logged f.tuned f.accounted refl refl
