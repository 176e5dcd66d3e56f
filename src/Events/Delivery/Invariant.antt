-- ===== src/Events/Delivery/Invariant.antt =====
-- events/store.py: what holds of a subscription whatever happens to the store, shown for every act.
use mathlib.Core.List.{append_assoc}
use ecommerce_after_sales_ag.Common.{
  ℕ, suc, ◌≤◌, ◌<◌, String, Bool, true, false, List, [], ◌∷◌, ◌++◌, ◌≡◌, refl, sym, ap, subst, ◌∙◌,
  ◌⊎◌, inr, arith, any, str_eq, ltb, ◌==◌, length, Option, none,
}
use ecommerce_after_sales_ag.Common.Result.{ok}
use ecommerce_after_sales_ag.Events.Models.{EventEnvelope}
use ecommerce_after_sales_ag.Events.Store.{Database, EventHub, EventStore}
use ecommerce_after_sales_ag.Events.Subscription.{
  Phase, querying, replaying, live, ended, Subscription, page_size, take_batch,
}
use ecommerce_after_sales_ag.Events.Log.{IsLogged}
use ecommerce_after_sales_ag.Events.Pages.{skip, events_of}
use ecommerce_after_sales_ag.Events.Delivery.{World, yielded}
use ecommerce_after_sales_ag.Events.Delivery.Slices.{IsCounted, IsCounted-view, skip-suc}
use ecommerce_after_sales_ag.Events.Delivery.Sources.{Sources, head_of_rest}

-- The queue is registered for the subscription's conversation and for no other.
pub record IsTuned (h : EventHub) (conversation_id : String) (queue : ℕ) : Type 0 where
  pub alone : (c : String) → any (λ s. s == queue) (h.subscribers c) ≡ str_eq c conversation_id
  pub older : queue < h.made

-- what the generator holds of its batch, and whether it will query again
abbrev pub batch_of : Phase → List EventEnvelope
batch_of querying = []
batch_of (replaying es short) = es
batch_of live = []
batch_of (ended e) = []

abbrev pub is_last : Phase → Bool
is_last querying = false
is_last (replaying es short) = short
is_last live = true
is_last (ended e) = true

abbrev pub has_ended : Phase → Bool
has_ended (ended e) = true
has_ended _ = false

-- What has been yielded and what is left make up all that comes after the start, the generator holds
-- what it needs for the rest, and it has not failed.
pub record IsAccounted (start : ℕ) (log : List EventEnvelope) (cursor : ℕ)
    (queue : List EventEnvelope) (phase : Phase) (delivered : List EventEnvelope) : Type 0 where
  pub account : delivered ++ skip cursor log ≡ skip start log
  pub bounded : ((cursor ≡ start) × (delivered ≡ [])) ⊎ (cursor ≤ length log)
  pub onwards : start ≤ cursor
  pub sources : Sources cursor log queue (batch_of phase) (is_last phase)
  pub running : has_ended phase ≡ false

pub record IsFollowing (start : ℕ) (w : World) : Type 0 where
  pub logged : IsLogged w.store.database
  pub tuned : IsTuned w.store.hub w.subscription.conversation_id w.subscription.queue
  pub accounted :
      IsAccounted start
        (events_of w.subscription.conversation_id w.store.database)
        w.subscription.cursor
        (w.store.hub.queues w.subscription.queue)
        w.subscription.phase
        w.delivered

pub events_of-IsCounted : (c : String) (db : Database) → IsLogged db → IsCounted 0 (events_of c db)
events_of-IsCounted c db w = IsCounted-view 0 _ (w.numbered c)

-- the next event is yielded: the cursor moves to its number
pub yield_next :
    (start : ℕ) (log : List EventEnvelope) (cursor : ℕ) (queue queue' : List EventEnvelope)
    (phase phase' : Phase) (delivered : List EventEnvelope) (e : EventEnvelope)
    → IsCounted 0 log
    → IsAccounted start log cursor queue phase delivered
    → ((t : List EventEnvelope) × (skip cursor log ≡ e ∷ t))
    → Sources (suc cursor) log queue' (batch_of phase') (is_last phase')
    → has_ended phase' ≡ false
    → (e.sequence ≡ suc cursor)
      × IsAccounted start log e.sequence queue' phase' (delivered ++ e ∷ [])
yield_next start log cursor queue queue' phase phase' delivered e c a (t, h) s r =
    let (number, within) = head_of_rest cursor log e t c h in
    (
      number,
      subst (λ n. IsAccounted start log n queue' phase' (delivered ++ e ∷ [])) (sym number)
          (record {
            account =
                append_assoc delivered (e ∷ []) (skip (suc cursor) log)
                ∙ ap (λ xs. delivered ++ e ∷ xs) (skip-suc cursor log h)
                ∙ ap (λ xs. delivered ++ xs) (sym h)
                ∙ a.account;
            bounded = inr (omega (arith, within));
            onwards = omega (arith, a.onwards);
            sources = s;
            running = r;
          }),
    )

-- the phase and the queue change, and nothing is yielded
pub move_on :
    (start : ℕ) (log : List EventEnvelope) (cursor : ℕ) (queue queue' : List EventEnvelope)
    (phase phase' : Phase) (delivered : List EventEnvelope)
    → IsAccounted start log cursor queue phase delivered
    → Sources cursor log queue' (batch_of phase') (is_last phase')
    → has_ended phase' ≡ false
    → IsAccounted start log cursor queue' phase' delivered
move_on start log cursor queue queue' phase phase' delivered a s r = record {
  account = a.account;
  bounded = a.bounded;
  onwards = a.onwards;
  sources = s;
  running = r;
}

-- the world after a piece of the generator
abbrev pub after_piece :
    Option EventEnvelope × Subscription × EventStore → List EventEnvelope → World
after_piece r delivered = record {
  store = r.2;
  subscription = r.1;
  delivered = yielded r.0 delivered;
}

pub take_batch-IsFollowing :
    (start : ℕ) (sub : Subscription) (s : EventStore) (delivered batch : List EventEnvelope)
    → IsLogged s.database
    → IsTuned s.hub sub.conversation_id sub.queue
    → IsAccounted start
        (events_of sub.conversation_id s.database)
        sub.cursor
        (s.hub.queues sub.queue)
        querying
        delivered
    → Sources sub.cursor
        (events_of sub.conversation_id s.database)
        (s.hub.queues sub.queue)
        batch
        (ltb (length batch) page_size)
    → let r = take_batch (ok batch) sub s in
      IsFollowing start (after_piece (none, r.0, r.1) delivered)
unfolding take_batch
take_batch-IsFollowing start sub s delivered [] l t a h = record {
  logged = l;
  tuned = t;
  accounted = move_on start _ _ _ _ querying live delivered a h refl;
}
take_batch-IsFollowing start sub s delivered (e ∷ es) l t a h = record {
  logged = l;
  tuned = t;
  accounted = move_on start _ _ _ _ querying (replaying (e ∷ es) _) delivered a h refl;
}
