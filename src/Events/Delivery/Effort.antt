-- ===== src/Events/Delivery/Effort.antt =====
-- events/store.py: how much work a generator has left, which each of its pieces makes less.
use ecommerce_after_sales_ag.Common.{
  ℕ, suc, ◌+◌, ◌-◌, ◌*◌, ◌≤◌, ◌<◌, Bool, true, false, List, [], ◌∷◌, ◌≡◌, refl, sym, ap, ◌∙◌, inl,
  inr, ◌⊎◌, arith, ltb, ◌==◌, length, Bool-cases, none, length-append,
}
use ecommerce_after_sales_ag.Common.Result.{ok}
use ecommerce_after_sales_ag.Events.Models.{EventEnvelope}
use ecommerce_after_sales_ag.Events.Store.{EventStore}
use ecommerce_after_sales_ag.Events.Subscription.{
  Phase, querying, replaying, live, ended, Subscription, page_size, offer, dequeue, take_batch,
  advance_at, advance,
}
use ecommerce_after_sales_ag.Events.Replay.{first_rows}
use ecommerce_after_sales_ag.Events.Log.{IsLogged}
use ecommerce_after_sales_ag.Events.Pages.{skip, events_of, list_after_slice}
use ecommerce_after_sales_ag.Events.Delivery.{World, follow}
use ecommerce_after_sales_ag.Events.Delivery.Slices.{skip-suc, first_rows-prefix}
use ecommerce_after_sales_ag.Events.Delivery.Sources.{head_of_rest, Sources-batch}
use ecommerce_after_sales_ag.Events.Delivery.Invariant.{
  IsAccounted, IsFollowing, events_of-IsCounted, after_piece,
}

-- how many pieces are left, from the length of the queue and of what is not yet yielded
abbrev pub effort : Phase → ℕ → ℕ → ℕ
effort querying q p = 3 * p + 1 + q
effort (replaying es true) q p = length es + 1 + q
effort (replaying es false) q p = 3 * (p - length es) + length es + 2 + q
effort live q p = q
effort (ended e) q p = 0

abbrev pub left_of : World → List EventEnvelope
left_of w = skip w.subscription.cursor (events_of w.subscription.conversation_id w.store.database)

abbrev pub effort_of : World → ℕ
effort_of w =
    effort w.subscription.phase (length (w.store.hub.queues w.subscription.queue))
      (length (left_of w))

abbrev pub IsWaiting : World → Type 0
IsWaiting w = (w.subscription.phase ≡ live) × (w.store.hub.queues w.subscription.queue ≡ [])

==_refl : (n : ℕ) → (n == n) ≡ true
==_refl n = ground arith

take_batch-effort :
    (sub : Subscription) (s : EventStore) (delivered batch : List EventEnvelope) (p : ℕ)
    → length (skip sub.cursor (events_of sub.conversation_id s.database)) ≡ p
    → length batch ≤ p
    → let r = take_batch (ok batch) sub s in
      effort_of (after_piece (none, r.0, r.1) delivered)
      < 3 * p + 1 + length (s.hub.queues sub.queue)
unfolding take_batch
take_batch-effort sub s delivered [] p h l = omega arith
take_batch-effort sub s delivered (e ∷ es) p h l =
    elim (Bool-cases (ltb (length (e ∷ es)) page_size)) [
      | inl k ↦ rw k (omega (arith, l))
      | inr k ↦ rw k (omega (arith, h, l))
    ]

batch-effort :
    (sub : Subscription) (s : EventStore) (delivered es : List EventEnvelope) (e : EventEnvelope)
    (short : Bool) (t : List EventEnvelope)
    → skip sub.cursor (events_of sub.conversation_id s.database) ≡ e ∷ t
    → e.sequence ≡ suc sub.cursor
    → effort_of (
        after_piece
          (advance_at (replaying (e ∷ es) short) (s.hub.queues sub.queue) sub s)
          delivered)
      < effort (replaying (e ∷ es) short) (length (s.hub.queues sub.queue)) (length (e ∷ t))
unfolding advance_at offer
batch-effort sub s delivered es e short t h number =
    let new : ltb sub.cursor e.sequence ≡ true = ground (arith, number) in
    let log = events_of sub.conversation_id s.database in
    let rest : skip e.sequence log ≡ t = ap (λ n. skip n log) number ∙ skip-suc sub.cursor log h in
    rw (new, rest)
      (elim (Bool-cases short) [ inl k ↦ rw k (omega arith) | inr k ↦ rw k (omega arith) ])

queue-effort :
    (sub : Subscription) (s : EventStore) (delivered es : List EventEnvelope) (e : EventEnvelope)
    → sub.phase ≡ live
    → effort_of (after_piece (advance_at live (e ∷ es) sub s) delivered) < suc (length es)
unfolding advance_at offer dequeue
queue-effort sub s delivered es e p = elim (Bool-cases (ltb sub.cursor e.sequence)) [
  | inl k ↦ rw k (rw (p, ==_refl sub.queue) (omega arith))
  | inr k ↦ rw k (rw (p, ==_refl sub.queue) (omega arith))
]

page_within : (limit : ℕ) (xs : List EventEnvelope) → length (first_rows limit xs) ≤ length xs
page_within limit xs =
    let (t, h) = first_rows-prefix limit xs in
    omega (arith, ap length h ∙ length-append (first_rows limit xs) t)

advance_at-effort :
    (start : ℕ) (p : Phase) (queue : List EventEnvelope) (sub : Subscription) (s : EventStore)
    (delivered : List EventEnvelope)
    → IsLogged s.database
    → IsAccounted start (events_of sub.conversation_id s.database) sub.cursor queue p delivered
    → s.hub.queues sub.queue ≡ queue
    → sub.phase ≡ p
    → ((p ≡ live) × (queue ≡ []))
      ⊎ (effort_of (after_piece (advance_at p queue sub s) delivered)
          < effort p
              (length queue)
              (length (skip sub.cursor (events_of sub.conversation_id s.database))))
unfolding advance_at
advance_at-effort start querying queue sub s delivered l a q p =
    let log = events_of sub.conversation_id s.database in
    let page =
      list_after_slice sub.conversation_id sub.cursor page_size s.database l (omega arith)
        (omega arith) in
    inr (
      rw (page, sym q)
        ((take_batch-effort sub s delivered (first_rows page_size (skip sub.cursor log)) _ refl
          (page_within page_size (skip sub.cursor log)))))
advance_at-effort start (replaying [] true) queue sub s delivered l a q p = inr (rw q (omega arith))
advance_at-effort start (replaying [] false) queue sub s delivered l a q p =
    inr (rw q (omega arith))
advance_at-effort start (replaying (e ∷ es) short) queue sub s delivered l a q p =
    let log = events_of sub.conversation_id s.database in
    let ((t, h), _) = Sources-batch sub.cursor log queue es e short a.sources in
    let (number, _) =
      head_of_rest sub.cursor log e t (events_of-IsCounted sub.conversation_id s.database l) h in
    inr (rw (h, sym q) (batch-effort sub s delivered es e short t h number))
advance_at-effort start live [] sub s delivered l a q p = inl (refl, refl)
advance_at-effort start live (e ∷ es) sub s delivered l a q p =
    inr (queue-effort sub s delivered es e p)
advance_at-effort start (ended x) queue sub s delivered l a q p = absurd (let k = a.running in cc)

pub follow-effort :
    (start : ℕ) (w : World)
    → IsFollowing start w
    → IsWaiting w ⊎ (effort_of (follow w) < effort_of w)
unfolding follow advance
follow-effort start w f =
    advance_at-effort start w.subscription.phase (w.store.hub.queues w.subscription.queue)
      w.subscription w.store w.delivered f.logged f.accounted refl refl
