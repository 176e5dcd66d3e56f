-- ===== src/Events/Acceptance.antt =====
-- events/store.py: which drafts `append` accepts.
use ecommerce_after_sales_ag.Common.{
  ℕ, suc, ◌+◌, ◌≤◌, ◌<◌, String, Bool, true, false, not, ◌&&◌, ◌||◌, some, List, [], ◌∷◌, ◌++◌, ◌≡◌,
  refl, sym, ap, ◌∙◌, inl, inr, ◌↔◌, arith, any, select, str_eq, leb, ◌==◌, is_some, length,
  Bool-cases, Option-cases, le→leb, true-ne-false, leb→le, not-eq-true, and-eq-true,
}
use ecommerce_after_sales_ag.Common.Enum.{value_of}
use ecommerce_after_sales_ag.Common.Result.{ok, is_ok, is_ok-eq-true}
use ecommerce_after_sales_ag.Common.Time.{Timestamp}
use ecommerce_after_sales_ag.Events.Models.{
  EventDraft, EventRow, EventVisibility, event_visibility_enum, parse_visibility,
}
use ecommerce_after_sales_ag.Events.Store.{
  ConversationRow, Database, EventStore, advance_sequence, sequence_of, row_fits, insert_row,
  commit, append,
}
use ecommerce_after_sales_ag.Events.Log.{
  log_of, IsNumbered, IsLogged, row_of, append-Appended, next_number, new_row_lem,
  parse_visibility-eq-ok, parse_visibility-value, to_envelope_lem,
}
use ecommerce_after_sales_ag.Events.Growth.{sequence_of-advance_same}

-- no event of a log has a number above its length
number_is_new :
    (k : ℕ) (rs : List EventRow) (n : ℕ)
    → IsNumbered k rs
    → k + length rs < n
    → any (λ r. r.sequence == n) rs ≡ false
number_is_new k [] n h l = refl
number_is_new k (r ∷ rs) n h l =
    ground (arith, h.0, number_is_new (suc k) rs n h.1 (omega (arith, l)))

any-select :
    {A : Type 0} (p q : A → Bool) (xs : List A) → any (λ x. p x && q x) xs ≡ any q (select p xs)
any-select p q [] = refl
any-select p q (x ∷ xs) = elim (Bool-cases (p x)) [
  | inl e ↦ rw e (ap (λ b. q x || b) (any-select p q xs))
  | inr e ↦ rw e (any-select p q xs)
]

sequence_of-advance_known :
    (c : String) (cs : List ConversationRow)
    → is_some (sequence_of c cs) ≡ is_some (sequence_of c (advance_sequence c cs))
unfolding sequence_of advance_sequence
sequence_of-advance_known c [] = refl
sequence_of-advance_known c (r ∷ rs) = elim (Bool-cases (str_eq r.conversation_id c)) [
  | inl e ↦ rw e refl
  | inr e ↦ rw e (sequence_of-advance_known c rs)
]

numbers_fit :
    (c : String) (db : Database) (n : ℕ)
    → IsLogged db
    → n ≡ suc (length (log_of c db.events))
    → any (λ r. str_eq r.conversation_id c && (r.sequence == n)) db.events ≡ false
numbers_fit c db n w e =
    any-select (λ r. str_eq r.conversation_id c) (λ r. r.sequence == n) db.events
    ∙ number_is_new 0 (log_of c db.events) n (w.numbered c) (omega (arith, e))

-- the conversation exists
abbrev pub is_known : String → Database → Bool
is_known c db = is_some (sequence_of c db.conversations)

-- some event has the id
abbrev pub has_event : String → Database → Bool
has_event event_id db = any (λ r. str_eq r.event_id event_id) db.events

next_number_lem :
    (c : String) (db : Database)
    → IsLogged db
    → is_known c db ≡ true
    → next_number c db ≡ some (suc (length (log_of c db.events)))
next_number_lem c db w k = elim (Option-cases (next_number c db)) [
  | inl e ↦
      absurd (true-ne-false (sym k ∙ sequence_of-advance_known c db.conversations ∙ ap is_some e))
  | inr (n, e) ↦
      e ∙ ap some (sequence_of-advance_same c db.conversations n e ∙ ap suc (w.counted c))
]

fits_of_fresh :
    (d : EventDraft) (now : Timestamp) (db : Database) (v : EventVisibility)
    → IsLogged db
    → has_event d.event_id db ≡ false
    → 1 ≤ d.schema_version
    → row_fits (row_of d v now (suc (length (log_of d.conversation_id db.events)))) db.events ≡ true
unfolding row_fits
fits_of_fresh d now db v w fresh version =
    let n = suc (length (log_of d.conversation_id db.events)) in
    rw (fresh, numbers_fit d.conversation_id db n w refl, le→leb 1 d.schema_version version)
      (le→leb 1 n (omega arith))

commit_of_fits :
    (d : EventDraft) (now : Timestamp) (db : Database) (v : EventVisibility) (n : ℕ)
    → parse_visibility d.visibility ≡ ok v
    → row_fits (row_of d v now n) db.events ≡ true
    → (committed : Database) × (commit d now db (some n) ≡ ok (row_of d v now n, committed))
unfolding commit insert_row
commit_of_fits d now db v n parsed fits =
    let committed : Database = record {
      conversations = advance_sequence d.conversation_id db.conversations;
      events = db.events ++ row_of d v now n ∷ [];
    } in
    (committed, rw parsed (rw (new_row_lem d v now n) (rw fits refl)))

append_of_commit :
    (d : EventDraft) (now : Timestamp) (s : EventStore) (v : EventVisibility) (n : ℕ)
    (committed : Database)
    → next_number d.conversation_id s.database ≡ some n
    → commit d now s.database (some n) ≡ ok (row_of d v now n, committed)
    → is_ok (append d now s) ≡ true
unfolding append
append_of_commit d now s v n committed g h =
    rw g (rw h (rw (to_envelope_lem (row_of d v now n) v refl) refl))

accepted :
    (d : EventDraft) (now : Timestamp) (s : EventStore) (v : EventVisibility)
    → IsLogged s.database
    → is_known d.conversation_id s.database ≡ true
    → has_event d.event_id s.database ≡ false
    → d.visibility ≡ value_of v
    → 1 ≤ d.schema_version
    → is_ok (append d now s) ≡ true
accepted d now s v w known fresh named version =
    let n = suc (length (log_of d.conversation_id s.database.events)) in
    let parsed = ap parse_visibility named ∙ parse_visibility-value v in
    let (db, h) =
      commit_of_fits d now s.database v n parsed
        (fits_of_fresh d now s.database v w fresh version) in
    append_of_commit d now s v n db (next_number_lem d.conversation_id s.database w known) h

pub row_fits-eq-true :
    (r : EventRow) (rows : List EventRow)
    → row_fits r rows ≡ true
    → (any (λ x. str_eq x.event_id r.event_id) rows ≡ false) × (1 ≤ r.schema_version)
unfolding row_fits
row_fits-eq-true r rows h =
    let (a, _) = and-eq-true _ (leb 1 r.sequence) h in
    let (b, version) = and-eq-true _ (leb 1 r.schema_version) a in
    let (fresh, _) = and-eq-true (not (any (λ x. str_eq x.event_id r.event_id) rows)) _ b in
    (not-eq-true _ fresh, leb→le 1 r.schema_version version)

-- On a well-numbered store, `append` succeeds exactly for a draft that names an existing conversation,
-- an id that no event has, one of the three visibilities and a positive schema version: the
-- constraints on the numbers never stand in the way.
pub append_accepted_iff :
    (d : EventDraft) (now : Timestamp) (s : EventStore)
    → IsLogged s.database
    → (is_ok (append d now s) ≡ true) ↔ (
        (is_known d.conversation_id s.database ≡ true)
        × (has_event d.event_id s.database ≡ false)
        × ((v : EventVisibility) × (d.visibility ≡ value_of v))
        × (1 ≤ d.schema_version))
append_accepted_iff d now s w = (
  (λ h.
      let (r, k) = is_ok-eq-true (append d now s) h in
      let a = append-Appended d now s r.0 r.1 k in
      let (fresh, version) =
        row_fits-eq-true (row_of d a.visibility now a.number) s.database.events a.fits in
      let known =
        sequence_of-advance_known d.conversation_id s.database.conversations ∙ ap is_some a.given in
      (
        known,
        fresh,
        (a.visibility, parse_visibility-eq-ok d.visibility a.visibility a.parsed),
        version,
      )),
  (λ (known, fresh, (v, named), version). accepted d now s v w known fresh named version),
)
