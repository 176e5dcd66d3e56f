-- ===== src/Events/Delivery/Acts.antt =====
-- events/store.py: whatever happens to the store keeps the invariant of a subscription.
use ecommerce_after_sales_ag.Common.{
  ℕ, String, false, not, ◌||◌, List, [], ◌∷◌, ◌≡◌, refl, ap, ◌∙◌, inl, inr, arith, any, select,
  str_eq, ◌==◌, Bool-cases,
}
use ecommerce_after_sales_ag.Common.Result.{Result, ok, err}
use ecommerce_after_sales_ag.Common.Time.{Timestamp}
use ecommerce_after_sales_ag.Events.Models.{EventDraft, EventEnvelope, event_visibility_enum}
use ecommerce_after_sales_ag.Events.Store.{EventHub, EventStore, append, register, unregister}
use ecommerce_after_sales_ag.Events.Delivery.{
  World, Act, appends, joins, leaves, advances, after_append, happen, happen_all,
}
use ecommerce_after_sales_ag.Events.Delivery.Invariant.{IsTuned, IsFollowing}
use ecommerce_after_sales_ag.Events.Delivery.Pieces.{follow-IsFollowing}
use ecommerce_after_sales_ag.Events.Delivery.Neighbours.{append-IsFollowing}

registered_apart :
    (h : EventHub) (c x : String) (q : ℕ) → IsTuned h c q → IsTuned (register x h).1 c q
unfolding register
registered_apart h c x q t =
    let apart : (h.made == q) ≡ false = ground (arith, t.older) in
    record {
      alone = λ y. elim (Bool-cases (str_eq y x)) [
        | inl e ↦ rw (e, apart) (t.alone y)
        | inr e ↦ rw e (t.alone y)
      ];
      older = omega (arith, t.older);
    }

-- a queue that another subscriber drops is not this one
any-select_other :
    (ids : List ℕ) (q other : ℕ)
    → (other == q) ≡ false
    → any (λ s. s == q) (select (λ s. not (s == other)) ids) ≡ any (λ s. s == q) ids
any-select_other [] q other h = refl
any-select_other (i ∷ ids) q other h = elim (Bool-cases (i == other)) [
  | inl e ↦
      let apart : (i == q) ≡ false = ground arith in rw (e, apart) (any-select_other ids q other h)
  | inr e ↦ rw e (ap (λ b. (i == q) || b) (any-select_other ids q other h))
]

unregistered_apart :
    (h : EventHub) (c x : String) (q other : ℕ)
    → (other == q) ≡ false
    → IsTuned h c q
    → IsTuned (unregister x other h) c q
unfolding unregister
unregistered_apart h c x q other apart t = record {
  alone = λ y. elim (Bool-cases (str_eq y x)) [
    | inl e ↦ rw e (any-select_other (h.subscribers y) q other apart ∙ t.alone y)
    | inr e ↦ rw e (t.alone y)
  ];
  older = t.older;
}

after_append-IsFollowing :
    (start : ℕ) (w : World) (d : EventDraft) (now : Timestamp)
    (r : Result (EventEnvelope × EventStore))
    → append d now w.store ≡ r
    → IsFollowing start w
    → IsFollowing start (record w { store = after_append r w.store })
after_append-IsFollowing start w d now (err e) h f = f
after_append-IsFollowing start w d now (ok (e, s)) h f = append-IsFollowing start w d now e s h f

join-IsFollowing :
    (start : ℕ) (w : World) (c : String)
    → IsFollowing start w
    → IsFollowing start (record w { store = record w.store { hub = (register c w.store.hub).1 } })
unfolding register
join-IsFollowing start w c f =
    let older = f.tuned.older in
    let apart : (w.subscription.queue == w.store.hub.made) ≡ false = ground arith in
    record {
      logged = f.logged;
      tuned =
          registered_apart w.store.hub w.subscription.conversation_id c w.subscription.queue
            f.tuned;
      accounted = rw apart f.accounted;
    }

leave-IsFollowing :
    (start : ℕ) (w : World) (c : String) (q : ℕ)
    → IsFollowing start w
    → IsFollowing start (happen (leaves c q) w)
unfolding happen unregister
leave-IsFollowing start w c q f = elim (Bool-cases (q == w.subscription.queue)) [
  | inl e ↦ rw e f
  | inr e ↦ rw e (record {
    logged = f.logged;
    tuned =
        unregistered_apart w.store.hub w.subscription.conversation_id c w.subscription.queue q e
          f.tuned;
    accounted = f.accounted;
  })
]

pub happen-IsFollowing :
    (start : ℕ) (act : Act) (w : World) → IsFollowing start w → IsFollowing start (happen act w)
unfolding happen
happen-IsFollowing start (appends d now) w f =
    after_append-IsFollowing start w d now (append d now w.store) refl f
happen-IsFollowing start (joins c) w f = join-IsFollowing start w c f
happen-IsFollowing start (leaves c q) w f = leave-IsFollowing start w c q f
happen-IsFollowing start advances w f = follow-IsFollowing start w f

pub happen_all-IsFollowing :
    (start : ℕ) (acts : List Act) (w : World)
    → IsFollowing start w
    → IsFollowing start (happen_all acts w)
unfolding happen_all
happen_all-IsFollowing start [] w f = f
happen_all-IsFollowing start (a ∷ acts) w f =
    happen_all-IsFollowing start acts (happen a w) (happen-IsFollowing start a w f)
