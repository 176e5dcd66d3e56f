-- ===== src/Events/Log.antt =====
-- events/store.py: the log of a conversation, and what `append` does to it.
use ecommerce_after_sales_ag.Common.{
  ℕ, suc, String, true, Option, none, some, List, [], ◌∷◌, ◌++◌, ◌≡◌, refl, sym, ap, ◌∙◌, inl, inr,
  select, str_eq, All, length, Bool-cases,
}
use ecommerce_after_sales_ag.Common.Enum.{value_of, of_value, of_value-eq-some}
use ecommerce_after_sales_ag.Common.Result.{ok, >>=-eq-ok, ok-injective, or_raise-eq-ok}
use ecommerce_after_sales_ag.Common.Time.{Timestamp}
use ecommerce_after_sales_ag.Events.Copy.{copy_fields_lem, map-copy_fields}
use ecommerce_after_sales_ag.Events.Models.{
  EventDraft, EventRow, EventEnvelope, EventVisibility, event_visibility_enum, parse_visibility,
}
use ecommerce_after_sales_ag.Events.Store.{
  Database, EventStore, to_envelope, advance_sequence, sequence_of, row_fits, new_row, or_now,
  insert_row, commit, append, publish,
}

-- the events of a conversation, in the order in which they were committed
abbrev pub log_of : String → List EventRow → List EventRow
log_of c = select (λ r. str_eq r.conversation_id c)

-- numbered onwards from k + 1, without a gap
abbrev pub IsNumbered : ℕ → List EventRow → Type 0
IsNumbered k [] = Unit
IsNumbered k (r ∷ rs) = (r.sequence ≡ suc k) × IsNumbered (suc k) rs

abbrev pub count_or_zero : Option ℕ → ℕ
count_or_zero none = 0
count_or_zero (some n) = n

-- Each log is numbered from 1, the counter of a conversation is the length of its log, and every
-- row can be read back.
pub record IsLogged (db : Database) : Type 0 where
  pub numbered : (c : String) → IsNumbered 0 (log_of c db.events)
  pub counted :
      (c : String) → count_or_zero (sequence_of c db.conversations) ≡ length (log_of c db.events)
  pub readable : All (λ r. (v : EventVisibility) × (r.visibility ≡ value_of v)) db.events

pub parse_visibility-value : (v : EventVisibility) → parse_visibility (value_of v) ≡ ok v
unfolding parse_visibility
parse_visibility-value EventVisibility.customer = refl
parse_visibility-value EventVisibility.developer = refl
parse_visibility-value EventVisibility.both = refl

pub parse_visibility-eq-ok :
    (t : String) (v : EventVisibility) → parse_visibility t ≡ ok v → t ≡ value_of v
unfolding parse_visibility
parse_visibility-eq-ok t v h = of_value-eq-some t (or_raise-eq-ok (of_value t) _ h)

-- the envelope of a row whose visibility is v
abbrev pub envelope_of : EventRow → EventVisibility → EventEnvelope
envelope_of r v = record {
  content = r.content;
  visibility = v;
  timestamp = r.timestamp;
  sequence = r.sequence;
}

pub to_envelope_lem :
    (r : EventRow) (v : EventVisibility)
    → r.visibility ≡ value_of v
    → to_envelope r ≡ ok (envelope_of r v)
unfolding to_envelope
to_envelope_lem r v h =
    rw (h, parse_visibility-value v, copy_fields_lem r.payload, map-copy_fields r.evidence_refs)
      refl

-- the row that `append` adds
abbrev pub row_of : EventDraft → EventVisibility → Timestamp → ℕ → EventRow
row_of d v now n = record {
  content = d.content;
  visibility = value_of v;
  timestamp = or_now d.timestamp now;
  sequence = n;
}

pub new_row_lem :
    (d : EventDraft) (v : EventVisibility) (now : Timestamp) (n : ℕ)
    → new_row d v now n ≡ row_of d v now n
unfolding new_row
new_row_lem d v now n = rw (copy_fields_lem d.payload, map-copy_fields d.evidence_refs) refl

insert_row-eq-ok :
    (row : EventRow) (db : Database) {r : EventRow × Database}
    → insert_row row db ≡ ok r
    → (row_fits row db.events ≡ true)
      × (r.0 ≡ row)
      × (r.1 ≡ record {
        conversations = advance_sequence row.conversation_id db.conversations;
        events = db.events ++ row ∷ [];
      })
unfolding insert_row
insert_row-eq-ok row db h = elim (Bool-cases (row_fits row db.events)) [
  | inl e ↦ let k = rw e at h in (e, cc, cc)
  | inr e ↦ absurd (let k = rw e at h in cc)
]

-- the number that the next event of the conversation gets
abbrev pub next_number : String → Database → Option ℕ
next_number c db = sequence_of c (advance_sequence c db.conversations)

-- What a successful `append` gives back and leaves behind.
pub record Appended (d : EventDraft) (now : Timestamp) (s : EventStore) (e : EventEnvelope)
    (s' : EventStore) : Type 0 where
  pub visibility : EventVisibility
  pub number : ℕ
  pub parsed : parse_visibility d.visibility ≡ ok visibility
  pub given : next_number d.conversation_id s.database ≡ some number
  pub fits : row_fits (row_of d visibility now number) s.database.events ≡ true
  pub answer : e ≡ envelope_of (row_of d visibility now number) visibility
  pub left_conversations :
      s'.database.conversations ≡ advance_sequence d.conversation_id s.database.conversations
  pub left_events : s'.database.events ≡ s.database.events ++ row_of d visibility now number ∷ []
  pub left_hub : s'.hub ≡ publish e s.hub

commit-Appended :
    (d : EventDraft) (now : Timestamp) (s : EventStore) (e : EventEnvelope) (s' : EventStore)
    (n : Option ℕ) (r : EventRow × Database)
    → next_number d.conversation_id s.database ≡ n
    → commit d now s.database n ≡ ok r
    → to_envelope r.0 ≡ ok e
    → s'.database ≡ r.1
    → s'.hub ≡ publish e s.hub
    → Appended d now s e s'
unfolding commit
commit-Appended d now s e s' none r g h read kept told = cc
commit-Appended d now s e s' (some n) r g h read kept told =
    let (v, parsed, inserted) = >>=-eq-ok (parse_visibility d.visibility) _ h in
    let (fits, is_row, is_left) =
      insert_row-eq-ok (row_of d v now n) s.database (rw (new_row_lem d v now n) at inserted) in
    record {
      visibility = v;
      number = n;
      parsed = parsed;
      given = g;
      fits = fits;
      answer =
          ok-injective
            (sym read ∙ ap to_envelope is_row ∙ to_envelope_lem (row_of d v now n) v refl);
      left_conversations = ap (λ db. db.conversations) (kept ∙ is_left);
      left_events = ap (λ db. db.events) (kept ∙ is_left);
      left_hub = told;
    }

pub append-Appended :
    (d : EventDraft) (now : Timestamp) (s : EventStore) (e : EventEnvelope) (s' : EventStore)
    → append d now s ≡ ok (e, s')
    → Appended d now s e s'
unfolding append
append-Appended d now s e s' h =
    let n = next_number d.conversation_id s.database in
    let (r, committed, k) = >>=-eq-ok (commit d now s.database n) _ h in
    let (w, read, last) = >>=-eq-ok (to_envelope r.0) _ k in
    let same = ok-injective last in
    let is_e : w ≡ e = ap (λ p. p.0) same in
    commit-Appended d now s e s' n r refl committed (read ∙ ap ok is_e)
      (sym (ap (λ p. p.1.database) same))
      (sym (ap (λ p. p.1.hub) same) ∙ ap (λ x. publish x s.hub) is_e)
