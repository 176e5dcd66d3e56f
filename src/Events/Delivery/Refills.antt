-- ===== src/Events/Delivery/Refills.antt =====
-- events/store.py: a replay query and an append keep what the generator holds enough.
use mathlib.Core.List.{append_assoc, append-nil}
use ecommerce_after_sales_ag.Common.{
  ℕ, suc, ◌+◌, ◌≤◌, ◌<◌, Bool, true, false, List, [], ◌∷◌, ◌++◌, ◌≡◌, refl, sym, ap, subst, ◌∙◌,
  inl, inr, arith, ltb, length, Bool-cases, lt→ltb, ltb→lt, length-append,
}
use ecommerce_after_sales_ag.Common.Selections.{select-append, select-none}
use ecommerce_after_sales_ag.Events.Models.{EventEnvelope}
use ecommerce_after_sales_ag.Events.Replay.{first_rows}
use ecommerce_after_sales_ag.Events.Pages.{skip}
use ecommerce_after_sales_ag.Events.Delivery.Slices.{
  IsCounted, IsCounted-below, past, length-skip, skip-snoc, first_rows-prefix, first_rows-short,
}
use ecommerce_after_sales_ag.Events.Delivery.Sources.{Sources}

IsCounted-append :
    (k : ℕ) (xs ys : List EventEnvelope) → IsCounted k (xs ++ ys) → IsCounted (k + length xs) ys
IsCounted-append k [] ys h = subst (λ n. IsCounted n ys) (omega arith) h
IsCounted-append k (x ∷ xs) ys h =
    subst (λ n. IsCounted n ys) (omega arith) (IsCounted-append (suc k) xs ys h.1)

-- nothing of the queue is past the end of the log
nothing_past :
    (n : ℕ) (log base queue : List EventEnvelope)
    → IsCounted 0 log
    → log ≡ base ++ queue
    → length log ≤ n
    → past n queue ≡ []
nothing_past n log base queue c h l =
    let counted = IsCounted-append 0 base queue (subst (IsCounted 0) h c) in
    let bound = ap length h ∙ length-append base queue in
    select-none (λ e. ltb n e.sequence) queue
      (IsCounted-below (0 + length base) n queue counted (omega (arith, bound, l)))

-- a page reaches the end of the log if it is short
page_reach :
    (cursor : ℕ) (log batch : List EventEnvelope)
    → batch ≡ skip cursor log
    → length log ≤ cursor + length batch
page_reach cursor log batch h = elim (length-skip cursor log) [
  | inl k ↦ omega (arith, k.1, ap length h)
  | inr k ↦ omega (arith, k.0)
]

pub Sources-page :
    (cursor limit : ℕ) (log queue : List EventEnvelope)
    → IsCounted 0 log
    → Sources cursor log queue [] false
    → let batch = first_rows limit (skip cursor log) in
      Sources cursor log queue batch (ltb (length batch) limit)
Sources-page cursor limit log queue c (t, (base, split)) =
    let batch = first_rows limit (skip cursor log) in
    elim (Bool-cases (ltb (length batch) limit)) [
      | inl e ↦
          let whole = first_rows-short limit (skip cursor log) (ltb→lt (length batch) limit e) in
          let reach = page_reach cursor log batch whole in
          let none_left = nothing_past (cursor + length batch) log base queue c split reach in
          rw e (sym whole ∙ sym (append-nil batch) ∙ ap (λ q. batch ++ q) (sym none_left))
      | inr e ↦
          let (u, h) = first_rows-prefix limit (skip cursor log) in rw e ((u, h), (base, split))
    ]

-- past one more event
past_snoc_new :
    (n : ℕ) (queue : List EventEnvelope) (x : EventEnvelope)
    → n < x.sequence
    → past n (queue ++ x ∷ []) ≡ past n queue ++ x ∷ []
past_snoc_new n queue x l =
    rw (lt→ltb n x.sequence l) at (select-append (λ e. ltb n e.sequence) queue (x ∷ []))

past_snoc_old :
    (n : ℕ) (queue : List EventEnvelope) (x : EventEnvelope)
    → x.sequence ≤ n
    → past n (queue ++ x ∷ []) ≡ past n queue
past_snoc_old n queue x l =
    let behind : ltb n x.sequence ≡ false = ground arith in
    rw behind at (select-append (λ e. ltb n e.sequence) queue (x ∷ [])) ∙ append-nil (past n queue)

empty_parts : {A : Type 0} (xs ys : List A) → [] ≡ xs ++ ys → (xs ≡ []) × (ys ≡ [])
empty_parts [] ys h = (refl, sym h)
empty_parts (x ∷ xs) ys h = cc

grow_last :
    (cursor : ℕ) (log queue batch : List EventEnvelope) (x : EventEnvelope)
    → x.sequence ≡ suc (length log)
    → Sources cursor log queue batch true
    → Sources cursor (log ++ x ∷ []) (queue ++ x ∷ []) batch true
grow_last cursor log queue batch x number h = elim (skip-snoc cursor log x) [
  | inl k ↦
      let n = cursor + length batch in
      let within : n < x.sequence = elim (length-skip cursor log) [
        | inl l ↦ omega (arith, l.1, ap length h ∙ length-append batch (past n queue), number)
        | inr l ↦ absurd (omega (arith, l.0, k.0))
      ] in
      k.1
      ∙ ap (λ xs. xs ++ x ∷ []) h
      ∙ append_assoc batch (past n queue) (x ∷ [])
      ∙ ap (λ q. batch ++ q) (sym (past_snoc_new n queue x within))
  | inr k ↦
      let (no_batch, no_queue) = empty_parts batch _ (sym k.1 ∙ h) in
      let n = cursor + length batch in
      k.2
      ∙ sym k.1
      ∙ h
      ∙ ap (λ q. batch ++ q) (sym (past_snoc_old n queue x (omega (arith, number, k.0))))
]

grow_earlier :
    (cursor : ℕ) (log queue batch : List EventEnvelope) (x : EventEnvelope)
    → Sources cursor log queue batch false
    → Sources cursor (log ++ x ∷ []) (queue ++ x ∷ []) batch false
grow_earlier cursor log queue batch x ((t, h), (base, split)) = (
  elim (skip-snoc cursor log x) [
    | inl k ↦ (t ++ x ∷ [], k.1 ∙ ap (λ xs. xs ++ x ∷ []) h ∙ append_assoc batch t (x ∷ []))
    | inr k ↦ (t, k.2 ∙ sym k.1 ∙ h)
  ],
  (base, ap (λ xs. xs ++ x ∷ []) split ∙ append_assoc base queue (x ∷ [])),
)

pub Sources-snoc :
    (cursor : ℕ) (log queue batch : List EventEnvelope) (x : EventEnvelope) (short : Bool)
    → x.sequence ≡ suc (length log)
    → Sources cursor log queue batch short
    → Sources cursor (log ++ x ∷ []) (queue ++ x ∷ []) batch short
Sources-snoc cursor log queue batch x true number h = grow_last cursor log queue batch x number h
Sources-snoc cursor log queue batch x false number h = grow_earlier cursor log queue batch x h
