-- ===== src/Events/Growth.antt =====
-- events/store.py: a log grows by one event, which gets the next number, and no other log changes.
use mathlib.Core.List.{append-nil}
use ecommerce_after_sales_ag.Common.{
  ℕ, suc, ◌+◌, String, true, false, some, List, [], ◌∷◌, ◌++◌, ◌≡◌, refl, sym, ap, ◌∙◌, inl, inr,
  arith, subst, str_eq, length, if◌then◌else◌, Bool-cases, eq_iff, true-ne-false, length-append,
}
use ecommerce_after_sales_ag.Common.Enum.{value_of}
use ecommerce_after_sales_ag.Common.Result.{ok}
use ecommerce_after_sales_ag.Common.Selections.{select-append, All-append}
use ecommerce_after_sales_ag.Common.Time.{Timestamp}
use ecommerce_after_sales_ag.Events.Models.{
  EventDraft, EventRow, EventEnvelope, EventVisibility, event_visibility_enum,
}
use ecommerce_after_sales_ag.Events.Store.{
  ConversationRow, EventStore, advance_sequence, sequence_of, append,
}
use ecommerce_after_sales_ag.Events.Log.{
  log_of, IsNumbered, count_or_zero, IsLogged, parse_visibility-eq-ok, envelope_of, row_of,
  Appended, append-Appended,
}

pub sequence_of-advance_same :
    (c : String) (cs : List ConversationRow)
    → (n : ℕ) → sequence_of c (advance_sequence c cs) ≡ some n
    → n ≡ suc (count_or_zero (sequence_of c cs))
unfolding sequence_of advance_sequence
sequence_of-advance_same c [] n h = cc
sequence_of-advance_same c (r ∷ rs) n h = elim (Bool-cases (str_eq r.conversation_id c)) [
  | inl e ↦ rw e (let k = rw e at h in ground (arith, k))
  | inr e ↦ rw e (sequence_of-advance_same c rs n (rw e at h))
]

-- an id that is x is not c
not_both : (a c x : String) → str_eq a x ≡ true → str_eq c x ≡ false → str_eq a c ≡ false
not_both a c x e h = elim (Bool-cases (str_eq a c)) [
  | inl f ↦
      let same : c ≡ x = sym ((eq_iff a c).0 f) ∙ (eq_iff a x).0 e in
      absurd (true-ne-false (sym ((eq_iff c x).1 same) ∙ h))
  | inr f ↦ f
]

sequence_of-advance_other :
    (c x : String) (cs : List ConversationRow)
    → str_eq c x ≡ false
    → sequence_of x (advance_sequence c cs) ≡ sequence_of x cs
unfolding sequence_of advance_sequence
sequence_of-advance_other c x [] h = refl
sequence_of-advance_other c x (r ∷ rs) h = elim (Bool-cases (str_eq r.conversation_id x)) [
  | inl e ↦
      let apart : str_eq r.conversation_id c ≡ false = not_both r.conversation_id c x e h in
      rw (e, apart) refl
  | inr e ↦ rw e (sequence_of-advance_other c x rs h)
]

pub IsNumbered-snoc :
    (k : ℕ) (rs : List EventRow) (r : EventRow)
    → IsNumbered k rs
    → r.sequence ≡ suc (k + length rs)
    → IsNumbered k (rs ++ r ∷ [])
IsNumbered-snoc k [] r h e = (omega (arith, e), tt)
IsNumbered-snoc k (x ∷ xs) r h e = (h.0, IsNumbered-snoc (suc k) xs r h.1 (omega (arith, e)))

-- the log of c once a row of the conversation d has been added
log_of-added_same :
    (r : EventRow) (rows : List EventRow)
    → log_of r.conversation_id (rows ++ r ∷ []) ≡ log_of r.conversation_id rows ++ r ∷ []
log_of-added_same r rows =
    rw ((eq_iff r.conversation_id r.conversation_id).1 refl) at
      (select-append (λ x. str_eq x.conversation_id r.conversation_id) rows (r ∷ []))

log_of-added_other :
    (c : String) (r : EventRow) (rows : List EventRow)
    → str_eq r.conversation_id c ≡ false
    → log_of c (rows ++ r ∷ []) ≡ log_of c rows
log_of-added_other c r rows h =
    rw h at (select-append (λ x. str_eq x.conversation_id c) rows (r ∷ []))
    ∙ append-nil (log_of c rows)

Appended-number :
    (d : EventDraft) (now : Timestamp) (s : EventStore) (e : EventEnvelope) (s' : EventStore)
    → IsLogged s.database
    → (a : Appended d now s e s')
    → a.number ≡ suc (length (log_of d.conversation_id s.database.events))
Appended-number d now s e s' w a =
    sequence_of-advance_same d.conversation_id s.database.conversations a.number a.given
    ∙ ap suc (w.counted d.conversation_id)

-- the log of c after a row of the conversation d, and its number
abbrev pub grown : String → EventRow → List EventRow → List EventRow
grown c r rows = if str_eq r.conversation_id c then log_of c rows ++ r ∷ [] else log_of c rows

log_of-added :
    (c : String) (r : EventRow) (rows : List EventRow) → log_of c (rows ++ r ∷ []) ≡ grown c r rows
log_of-added c r rows = elim (Bool-cases (str_eq r.conversation_id c)) [
  | inl e ↦ rw e (
      subst (λ c. log_of c (rows ++ r ∷ []) ≡ log_of c rows ++ r ∷ [])
        ((eq_iff r.conversation_id c).0 e) (log_of-added_same r rows))
  | inr e ↦ rw e (log_of-added_other c r rows e)
]

grown-IsNumbered :
    (c : String) (r : EventRow) (rows : List EventRow)
    → IsNumbered 0 (log_of c rows)
    → r.sequence ≡ suc (length (log_of r.conversation_id rows))
    → IsNumbered 0 (grown c r rows)
grown-IsNumbered c r rows h e = elim (Bool-cases (str_eq r.conversation_id c)) [
  | inl f ↦
      let same = ap (λ c. suc (length (log_of c rows))) ((eq_iff r.conversation_id c).0 f) in
      rw f (IsNumbered-snoc 0 (log_of c rows) r h (omega (arith, e, same)))
  | inr f ↦ rw f h
]

grown-counted :
    (c : String) (r : EventRow) (rows : List EventRow) (cs : List ConversationRow)
    → count_or_zero (sequence_of c cs) ≡ length (log_of c rows)
    → sequence_of r.conversation_id (advance_sequence r.conversation_id cs)
      ≡ some (suc (length (log_of r.conversation_id rows)))
    → count_or_zero (sequence_of c (advance_sequence r.conversation_id cs))
      ≡ length (grown c r rows)
grown-counted c r rows cs h g = elim (Bool-cases (str_eq r.conversation_id c)) [
  | inl f ↦ rw f (
      subst
        (λ c.
          count_or_zero (sequence_of c (advance_sequence r.conversation_id cs))
          ≡ length (log_of c rows ++ r ∷ []))
        ((eq_iff r.conversation_id c).0 f)
        (ap count_or_zero g
          ∙ omega (arith, length-append (log_of r.conversation_id rows) (r ∷ []))))
  | inr f ↦ rw f (ap count_or_zero (sequence_of-advance_other r.conversation_id c cs f) ∙ h)
]

pub Appended-IsLogged :
    (d : EventDraft) (now : Timestamp) (s : EventStore) (e : EventEnvelope) (s' : EventStore)
    → IsLogged s.database
    → Appended d now s e s'
    → IsLogged s'.database
Appended-IsLogged d now s e s' w a =
    let r = row_of d a.visibility now a.number in
    let number = Appended-number d now s e s' w a in
    rw (a.left_events, a.left_conversations)
      (record {
        numbered = λ c.
            rw (log_of-added c r s.database.events)
              (grown-IsNumbered c r s.database.events (w.numbered c) number);
        counted = λ c. rw (log_of-added c r s.database.events) (
            grown-counted c r s.database.events s.database.conversations (w.counted c)
              (a.given ∙ ap some number));
        readable = All-append _ s.database.events (r ∷ []) w.readable ((a.visibility, refl), tt);
      })

-- An append to a well-numbered store keeps it well-numbered. The new event's number is one more than
-- the length of its conversation's log, at whose end it now stands; the logs of the other
-- conversations are what they were. The answer is the stored event, with the visibility that the
-- draft names.
pub append_extends :
    (d : EventDraft) (now : Timestamp) (s : EventStore) (e : EventEnvelope) (s' : EventStore)
    (c : String)
    → IsLogged s.database
    → append d now s ≡ ok (e, s')
    → IsLogged s'.database
      × (e.sequence ≡ suc (length (log_of d.conversation_id s.database.events)))
      × ((v : EventVisibility) × (d.visibility ≡ value_of v)
          × (e ≡ envelope_of (row_of d v now e.sequence) v)
          × (log_of c s'.database.events ≡ grown c (row_of d v now e.sequence) s.database.events))
append_extends d now s e s' c w h =
    let a = append-Appended d now s e s' h in
    let number : e.sequence ≡ a.number = ap (λ e. e.sequence) a.answer in
    (
      Appended-IsLogged d now s e s' w a,
      number ∙ Appended-number d now s e s' w a,
      (
        a.visibility,
        parse_visibility-eq-ok d.visibility a.visibility a.parsed,
        subst (λ n. e ≡ envelope_of (row_of d a.visibility now n) a.visibility) (sym number)
            a.answer,
        ap (log_of c) a.left_events
            ∙ log_of-added c (row_of d a.visibility now a.number) s.database.events
            ∙ ap (λ n. grown c (row_of d a.visibility now n) s.database.events) (sym number),
      ),
    )
