-- ===== src/Events/Delivery/Neighbours.antt =====
-- events/store.py: appends keep the invariant of a subscription.
use mathlib.Core.List.{append_assoc}
use ecommerce_after_sales_ag.Common.{
  ℕ, suc, ◌≤◌, String, Bool, true, false, List, [], ◌∷◌, ◌++◌, ◌≡◌, refl, sym, ap, subst, ◌∙◌, inl,
  inr, arith, str_eq, length, Bool-cases, map, ◌⊎◌, length-append, eq_iff,
}
use ecommerce_after_sales_ag.Common.Result.{ok}
use ecommerce_after_sales_ag.Common.Time.{Timestamp}
use ecommerce_after_sales_ag.Events.Models.{
  EventDraft, EventRow, EventEnvelope, event_visibility_enum,
}
use ecommerce_after_sales_ag.Events.Store.{EventHub, EventStore, append, publish}
use ecommerce_after_sales_ag.Events.Subscription.{Phase}
use ecommerce_after_sales_ag.Events.Log.{log_of, append-Appended, row_of}
use ecommerce_after_sales_ag.Events.Growth.{append_extends, grown}
use ecommerce_after_sales_ag.Events.Pages.{skip, events_of, view, view-row_of}
use ecommerce_after_sales_ag.Events.Delivery.{World}
use ecommerce_after_sales_ag.Events.Delivery.Slices.{skip-snoc}
use ecommerce_after_sales_ag.Events.Delivery.Refills.{Sources-snoc}
use ecommerce_after_sales_ag.Events.Delivery.Invariant.{IsTuned, IsAccounted, IsFollowing}

map-snoc :
    {A B : Type 0} (f : A → B) (xs : List A) (x : A) → map f (xs ++ x ∷ []) ≡ map f xs ++ f x ∷ []
map-snoc f [] x = refl
map-snoc f (y ∷ ys) x = ap (◌∷◌ (f y)) (map-snoc f ys x)

length-map : {A B : Type 0} (f : A → B) (xs : List A) → length (map f xs) ≡ length xs
length-map f [] = refl
length-map f (x ∷ xs) = ap suc (length-map f xs)

account-snoc :
    (start : ℕ) (log : List EventEnvelope) (cursor : ℕ) (delivered : List EventEnvelope)
    (x : EventEnvelope)
    → delivered ++ skip cursor log ≡ skip start log
    → ((cursor ≡ start) × (delivered ≡ [])) ⊎ (cursor ≤ length log)
    → start ≤ cursor
    → delivered ++ skip cursor (log ++ x ∷ []) ≡ skip start (log ++ x ∷ [])
account-snoc start log cursor delivered x h (inl (at_start, nothing)) l =
    ap (λ d. d ++ skip cursor (log ++ x ∷ [])) nothing ∙ ap (λ c. skip c (log ++ x ∷ [])) at_start
account-snoc start log cursor delivered x h (inr within) l = elim (skip-snoc cursor log x) [
  | inl k ↦ elim (skip-snoc start log x) [
    | inl m ↦
        ap (λ xs. delivered ++ xs) k.1
        ∙ sym (append_assoc delivered (skip cursor log) (x ∷ []))
        ∙ ap (λ xs. xs ++ x ∷ []) h
        ∙ sym m.1
    | inr m ↦ absurd (omega (arith, m.0, within, l))
  ]
  | inr k ↦ absurd (omega (arith, k.0, within))
]

IsAccounted-snoc :
    (start : ℕ) (log : List EventEnvelope) (cursor : ℕ) (queue : List EventEnvelope) (phase : Phase)
    (delivered : List EventEnvelope) (x : EventEnvelope)
    → x.sequence ≡ suc (length log)
    → IsAccounted start log cursor queue phase delivered
    → IsAccounted start (log ++ x ∷ []) cursor (queue ++ x ∷ []) phase delivered
IsAccounted-snoc start log cursor queue phase delivered x number a = record {
  account = account-snoc start log cursor delivered x a.account a.bounded a.onwards;
  bounded = elim a.bounded [
    | inl h ↦ inl h
    | inr h ↦ inr (omega (arith, h, length-append log (x ∷ [])))
  ];
  onwards = a.onwards;
  sources = Sources-snoc cursor log queue _ x _ number a.sources;
  running = a.running;
}

-- what an append adds to a list of a conversation's events
abbrev with_event : Bool → EventEnvelope → List EventEnvelope → List EventEnvelope
with_event true e es = es ++ e ∷ []
with_event false e es = es

map-view-grown :
    (c : String) (r : EventRow) (rows : List EventRow)
    → map view (grown c r rows)
      ≡ with_event (str_eq r.conversation_id c) (view r) (map view (log_of c rows))
map-view-grown c r rows = elim (Bool-cases (str_eq r.conversation_id c)) [
  | inl e ↦ rw e (map-snoc view (log_of c rows) r)
  | inr e ↦ rw e refl
]

published :
    (h : EventHub) (c : String) (q : ℕ) (e : EventEnvelope)
    → IsTuned h c q
    → (publish e h).queues q ≡ with_event (str_eq e.conversation_id c) e (h.queues q)
unfolding publish
published h c q e t =
    rw (t.alone e.conversation_id)
      (elim (Bool-cases (str_eq e.conversation_id c)) [ inl k ↦ rw k refl | inr k ↦ rw k refl ])

IsTuned-publish :
    (h : EventHub) (c : String) (q : ℕ) (e : EventEnvelope)
    → IsTuned h c q
    → IsTuned (publish e h) c q
unfolding publish
IsTuned-publish h c q e t = record { alone = t.alone; older = t.older }

-- an append to another conversation leaves the log and the queue; one to this conversation adds the
-- same event to both
with_event-IsAccounted :
    (start : ℕ) (log : List EventEnvelope) (cursor : ℕ) (queue : List EventEnvelope) (phase : Phase)
    (delivered : List EventEnvelope) (e : EventEnvelope) (same : Bool)
    → (same ≡ false) ⊎ (e.sequence ≡ suc (length log))
    → IsAccounted start log cursor queue phase delivered
    → IsAccounted start (with_event same e log) cursor (with_event same e queue) phase delivered
with_event-IsAccounted start log cursor queue phase delivered e false n a = a
with_event-IsAccounted start log cursor queue phase delivered e true (inl n) a = absurd (cc)
with_event-IsAccounted start log cursor queue phase delivered e true (inr n) a =
    IsAccounted-snoc start log cursor queue phase delivered e n a

pub append-IsFollowing :
    (start : ℕ) (w : World) (d : EventDraft) (now : Timestamp) (e : EventEnvelope) (s' : EventStore)
    → append d now w.store ≡ ok (e, s')
    → IsFollowing start w
    → IsFollowing start (record w { store = s' })
append-IsFollowing start w d now e s' h f =
    let c = w.subscription.conversation_id in
    let q = w.subscription.queue in
    let (logged, number, (v, named, is_e, grows)) =
      append_extends d now w.store e s' c f.logged h in
    let a = append-Appended d now w.store e s' h in
    let r = row_of d v now e.sequence in
    let owner : e.conversation_id ≡ d.conversation_id = ap (λ x. x.conversation_id) is_e in
    let same = str_eq d.conversation_id c in
    let log : events_of c s'.database ≡ with_event same e (events_of c w.store.database) =
      ap (map view) grows
      ∙ map-view-grown c r w.store.database.events
      ∙ ap (λ x. with_event same x (events_of c w.store.database))
          (view-row_of d v now e.sequence ∙ sym is_e) in
    let queue : s'.hub.queues q ≡ with_event same e (w.store.hub.queues q) =
      ap (λ x. x.queues q) a.left_hub
      ∙ published w.store.hub c q e f.tuned
      ∙ ap (λ x. with_event (str_eq x c) e (w.store.hub.queues q)) owner in
    let numbered : (same ≡ false) ⊎ (e.sequence ≡ suc (length (events_of c w.store.database))) =
      elim (Bool-cases same) [
        | inl k ↦ inr (
            number
            ∙ ap (λ x. suc (length (log_of x w.store.database.events)))
                ((eq_iff d.conversation_id c).0 k)
            ∙ ap suc (sym (length-map view (log_of c w.store.database.events))))
        | inr k ↦ inl k
      ] in
    record {
      logged = logged;
      tuned =
          subst (λ x. IsTuned x c q) (sym a.left_hub) (IsTuned-publish w.store.hub c q e f.tuned);
      accounted =
          rw (log, queue)
            (with_event-IsAccounted start (events_of c w.store.database) w.subscription.cursor
              (w.store.hub.queues q) w.subscription.phase w.delivered e same numbered f.accounted);
    }
