-- ===== src/Events/Delivery/Sources.antt =====
-- events/store.py: why what the generator still holds, its batch and its queue, is enough for it to
-- yield what is left of the log.
use ecommerce_after_sales_ag.Common.{
  ℕ, suc, ◌+◌, ◌<◌, Bool, true, false, List, [], ◌∷◌, ◌++◌, ◌≡◌, sym, ap, subst, ◌∙◌, inl, inr,
  arith, ltb, length,
}
use ecommerce_after_sales_ag.Events.Models.{EventEnvelope}
use ecommerce_after_sales_ag.Events.Pages.{skip}
use ecommerce_after_sales_ag.Events.Delivery.Slices.{
  IsCounted, IsCounted-above, IsCounted-skip, past, past_later, past_all, skip-suc, length-skip,
}

-- Before the last page of the replay the batch starts what is left, and the queue holds the end of
-- the log. From the last page on, the batch and the queue's events past it are what is left.
abbrev pub Sources :
    ℕ → List EventEnvelope → List EventEnvelope → List EventEnvelope → Bool → Type 0
Sources cursor log queue batch false =
    ((t : List EventEnvelope) × (skip cursor log ≡ batch ++ t))
    × ((base : List EventEnvelope) × (log ≡ base ++ queue))
Sources cursor log queue batch true = skip cursor log ≡ batch ++ past (cursor + length batch) queue

-- what the head of what is left says about the rest
pub head_of_rest :
    (cursor : ℕ) (log : List EventEnvelope) (e : EventEnvelope) (t : List EventEnvelope)
    → IsCounted 0 log
    → skip cursor log ≡ e ∷ t
    → (e.sequence ≡ suc cursor) × (cursor < length log)
head_of_rest cursor log e t c h =
    let counted = subst (IsCounted (0 + cursor)) h (IsCounted-skip 0 cursor log c) in
    (
      omega (arith, counted.0),
      elim (length-skip cursor log) [
        | inl k ↦ omega (arith, k.1, ap length h)
        | inr k ↦ let clash = sym k.1 ∙ h in cc
      ],
    )

-- a batch moves on by the event it starts with
pub Sources-batch :
    (cursor : ℕ) (log queue es : List EventEnvelope) (e : EventEnvelope) (short : Bool)
    → Sources cursor log queue (e ∷ es) short
    → ((t : List EventEnvelope) × (skip cursor log ≡ e ∷ t))
      × Sources (suc cursor) log queue es short
Sources-batch cursor log queue es e false ((t, h), base) =
    ((es ++ t, h), ((t, skip-suc cursor log h), base))
Sources-batch cursor log queue es e true h =
    let later = skip-suc cursor log h in
    let moved : cursor + suc (length es) ≡ suc cursor + length es = omega arith in
    ((es ++ past (cursor + suc (length es)) queue, h), later ∙ ap (λ n. es ++ past n queue) moved)

-- a queued event past the cursor is the next one
pub Sources-queue :
    (cursor : ℕ) (log es : List EventEnvelope) (e : EventEnvelope)
    → IsCounted 0 log
    → ltb cursor e.sequence ≡ true
    → Sources cursor log (e ∷ es) [] true
    → ((t : List EventEnvelope) × (skip cursor log ≡ e ∷ t)) × Sources (suc cursor) log es [] true
Sources-queue cursor log es e c new h =
    let here : cursor + 0 ≡ cursor = omega arith in
    let whole : skip cursor log ≡ e ∷ past cursor es =
      rw new at (h ∙ ap (λ n. past n (e ∷ es)) here) in
    let rest = skip-suc cursor log whole in
    let above = past_all (suc cursor) (skip (suc cursor) log) (
      IsCounted-above (0 + suc cursor) (suc cursor) _ (IsCounted-skip 0 (suc cursor) log c)
        (omega arith)) in
    let there : suc cursor ≡ suc cursor + 0 = omega arith in
    (
      (past cursor es, whole),
      sym above
          ∙ ap (past (suc cursor)) rest
          ∙ past_later cursor (suc cursor) es (omega arith)
          ∙ ap (λ n. past n es) there,
    )

-- a queued event that the replay has already yielded
pub Sources-old :
    (cursor : ℕ) (log es : List EventEnvelope) (e : EventEnvelope)
    → ltb cursor e.sequence ≡ false
    → Sources cursor log (e ∷ es) [] true
    → Sources cursor log es [] true
Sources-old cursor log es e old h =
    let here : cursor + 0 ≡ cursor = omega arith in
    let whole : skip cursor log ≡ past cursor es = rw old at (h ∙ ap (λ n. past n (e ∷ es)) here) in
    whole ∙ ap (λ n. past n es) (sym here)
