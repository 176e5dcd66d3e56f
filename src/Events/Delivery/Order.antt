-- ===== src/Events/Delivery/Order.antt =====
-- events/store.py: what a subscriber receives.
use mathlib.Core.List.{append-nil}
use ecommerce_after_sales_ag.Common.{
  ℕ, ◌<◌, String, true, false, List, [], ◌∷◌, ◌++◌, ◌≡◌, refl, sym, ap, subst, ◌∙◌, inl, inr, arith,
  any, All, str_eq, ltb, ◌==◌, Bool-cases,
}
use ecommerce_after_sales_ag.Common.Integer.{pos}
use ecommerce_after_sales_ag.Common.Result.{Result, ok, err, ok-injective}
use ecommerce_after_sales_ag.Events.Models.{EventEnvelope}
use ecommerce_after_sales_ag.Events.Store.{EventHub, EventStore, register}
use ecommerce_after_sales_ag.Events.Subscription.{
  Subscription, Phase, querying, replaying, live, ended, subscribe, take_batch, close, offer,
  advance_at, advance,
}
use ecommerce_after_sales_ag.Events.Log.{IsLogged}
use ecommerce_after_sales_ag.Events.Pages.{skip, events_of}
use ecommerce_after_sales_ag.Events.Delivery.{
  World, Act, appends, joins, leaves, advances, happen, follow, happen_all,
}
use ecommerce_after_sales_ag.Events.Delivery.Invariant.{IsTuned, IsFollowing, has_ended}
use ecommerce_after_sales_ag.Events.Delivery.Acts.{happen_all-IsFollowing}

-- Every queue of the hub has been made by it.
abbrev pub IsTidy : EventHub → Type 0
IsTidy h = (c : String) → All (λ q. q < h.made) (h.subscribers c)

-- a new subscription, before its first piece
abbrev pub opened : Subscription × EventStore → World
opened r = record { store = r.1; subscription = r.0; delivered = [] }

not_among : (n : ℕ) (ids : List ℕ) → All (λ q. q < n) ids → any (λ s. s == n) ids ≡ false
not_among n [] h = refl
not_among n (i ∷ ids) h =
    let apart : (i == n) ≡ false = ground (arith, h.0) in rw apart (not_among n ids h.1)

==_refl : (n : ℕ) → (n == n) ≡ true
==_refl n = ground arith

subscribed-IsTuned : (h : EventHub) (c : String) → IsTidy h → IsTuned (register c h).1 c h.made
unfolding register
subscribed-IsTuned h c t = record {
  alone = λ y. elim (Bool-cases (str_eq y c)) [
    | inl e ↦ rw (e, ==_refl h.made) refl
    | inr e ↦ rw e (not_among h.made (h.subscribers y) (t y))
  ];
  older = omega arith;
}

pub opened-IsFollowing :
    (c : String) (start : ℕ) (s : EventStore) (r : Subscription × EventStore)
    → IsLogged s.database
    → IsTidy s.hub
    → subscribe c (pos start) s ≡ ok r
    → IsFollowing start (opened r)
unfolding subscribe register
opened-IsFollowing c start s r l t h =
    subst (λ x. IsFollowing start (opened x)) (ok-injective h)
      (record {
        logged = l;
        tuned = subscribed-IsTuned s.hub c t;
        accounted = rw (==_refl s.hub.made) (record {
          account = refl;
          bounded = inl (refl, refl);
          onwards = omega arith;
          sources = (
            (skip start (events_of c s.database), refl),
            (events_of c s.database, sym (append-nil (events_of c s.database))),
          );
          running = refl;
        });
      })

take_batch-conversation :
    (r : Result (List EventEnvelope)) (sub : Subscription) (s : EventStore)
    → (take_batch r sub s).0.conversation_id ≡ sub.conversation_id
unfolding take_batch close
take_batch-conversation (err e) sub s = refl
take_batch-conversation (ok []) sub s = refl
take_batch-conversation (ok (e ∷ es)) sub s = refl

offer-conversation :
    (e : EventEnvelope) (sub : Subscription) → (offer e sub).1.conversation_id ≡ sub.conversation_id
unfolding offer
offer-conversation e sub = elim (Bool-cases (ltb sub.cursor e.sequence)) [
  | inl h ↦ rw h refl
  | inr h ↦ rw h refl
]

pub advance_at-conversation :
    (p : Phase) (waiting : List EventEnvelope) (sub : Subscription) (s : EventStore)
    → (advance_at p waiting sub s).1.conversation_id ≡ sub.conversation_id
unfolding advance_at
advance_at-conversation querying waiting sub s = take_batch-conversation _ sub s
advance_at-conversation (replaying [] true) waiting sub s = refl
advance_at-conversation (replaying [] false) waiting sub s = refl
advance_at-conversation (replaying (e ∷ es) short) waiting sub s = offer-conversation e sub
advance_at-conversation live [] sub s = refl
advance_at-conversation live (e ∷ es) sub s = offer-conversation e sub
advance_at-conversation (ended e) waiting sub s = refl

happen-conversation :
    (act : Act) (w : World)
    → (happen act w).subscription.conversation_id ≡ w.subscription.conversation_id
unfolding happen follow advance
happen-conversation (appends d now) w = refl
happen-conversation (joins c) w = refl
happen-conversation (leaves c q) w = elim (Bool-cases (q == w.subscription.queue)) [
  | inl e ↦ rw e refl
  | inr e ↦ rw e refl
]
happen-conversation advances w =
    advance_at-conversation w.subscription.phase _ w.subscription w.store

pub happen_all-conversation :
    (acts : List Act) (w : World)
    → (happen_all acts w).subscription.conversation_id ≡ w.subscription.conversation_id
unfolding happen_all
happen_all-conversation [] w = refl
happen_all-conversation (a ∷ acts) w =
    happen_all-conversation acts (happen a w) ∙ happen-conversation a w

subscribe-conversation :
    (c : String) (start : ℕ) (s : EventStore) (r : Subscription × EventStore)
    → subscribe c (pos start) s ≡ ok r
    → r.0.conversation_id ≡ c
unfolding subscribe
subscribe-conversation c start s r h = sym (ap (λ x. x.0.conversation_id) (ok-injective h))

-- the conversation of a subscription, whatever has happened since
pub followed_conversation :
    (c : String) (start : ℕ) (s : EventStore) (r : Subscription × EventStore) (acts : List Act)
    → subscribe c (pos start) s ≡ ok r
    → (happen_all acts (opened r)).subscription.conversation_id ≡ c
followed_conversation c start s r acts h =
    happen_all-conversation acts (opened r) ∙ subscribe-conversation c start s r h

-- at an empty queue nothing is left
pub waiting_complete :
    (start : ℕ) (w : World)
    → IsFollowing start w
    → w.subscription.phase ≡ live
    → w.store.hub.queues w.subscription.queue ≡ []
    → w.delivered ≡ skip start (events_of w.subscription.conversation_id w.store.database)
waiting_complete start w f p q =
    let nothing_left = rw (p, q) at f.accounted.sources in
    sym (append-nil w.delivered)
    ∙ ap (λ xs. w.delivered ++ xs) (sym nothing_left)
    ∙ f.accounted.account

-- A subscription to a well-numbered store, with any appends, other subscribers and pieces of the
-- generator in any order after it: what it has yielded is the beginning of what now comes after the
-- start in its conversation, so nothing is missing, repeated, out of order or of another conversation;
-- and the generator has not raised.
pub delivered_in_order :
    (c : String) (start : ℕ) (s : EventStore) (r : Subscription × EventStore) (acts : List Act)
    → IsLogged s.database
    → IsTidy s.hub
    → subscribe c (pos start) s ≡ ok r
    → let w = happen_all acts (opened r) in
      ((rest : List EventEnvelope) × (w.delivered ++ rest
          ≡ skip start (events_of c w.store.database)))
      × (has_ended w.subscription.phase ≡ false)
delivered_in_order c start s r acts l t h =
    let w = happen_all acts (opened r) in
    let f = happen_all-IsFollowing start acts (opened r) (opened-IsFollowing c start s r l t h) in
    let same = followed_conversation c start s r acts h in
    (
      (
        skip w.subscription.cursor (events_of w.subscription.conversation_id w.store.database),
        f.accounted.account ∙ ap (λ x. skip start (events_of x w.store.database)) same,
      ),
      f.accounted.running,
    )

-- The same subscription, once it waits at an empty queue: it has yielded every event that comes after
-- the start, those appended during the replay included.
pub caught_up :
    (c : String) (start : ℕ) (s : EventStore) (r : Subscription × EventStore) (acts : List Act)
    → IsLogged s.database
    → IsTidy s.hub
    → subscribe c (pos start) s ≡ ok r
    → (happen_all acts (opened r)).subscription.phase ≡ live
    → (happen_all acts (opened r)).store.hub.queues (happen_all acts (opened r)).subscription.queue
      ≡ []
    → (happen_all acts (opened r)).delivered
      ≡ skip start (events_of c (happen_all acts (opened r)).store.database)
caught_up c start s r acts l t h p q =
    let w = happen_all acts (opened r) in
    let f = happen_all-IsFollowing start acts (opened r) (opened-IsFollowing c start s r l t h) in
    waiting_complete start w f p q
    ∙ ap (λ x. skip start (events_of x w.store.database)) (followed_conversation c start s r acts h)
