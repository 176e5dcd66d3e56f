-- ===== src/Events/Lookup.antt =====
-- events/store.py: events by their id, and a replay that resumes from one.
use ecommerce_after_sales_ag.Common.{
  ℕ, String, false, some, List, [], ◌∷◌, ◌++◌, ◌≡◌, ◌≤◌, refl, sym, ap, ◌∙◌, inl, inr, find, str_eq,
  if◌then◌else◌, Bool-cases, eq_iff,
}
use ecommerce_after_sales_ag.Common.Integer.{pos}
use ecommerce_after_sales_ag.Common.Result.{ok, err, not_found, ◌>>=◌}
use ecommerce_after_sales_ag.Common.Selections.{find-append_new}
use ecommerce_after_sales_ag.Common.Time.{Timestamp}
use ecommerce_after_sales_ag.Events.Models.{EventDraft, EventRow, EventEnvelope}
use ecommerce_after_sales_ag.Events.Store.{Database, EventStore, append}
use ecommerce_after_sales_ag.Events.Replay.{
  first_rows, get_event, read_found, resume_after, resume_from, list_after_event_id,
}
use ecommerce_after_sales_ag.Events.Log.{IsLogged, append-Appended, row_of, to_envelope_lem}
use ecommerce_after_sales_ag.Events.Acceptance.{row_fits-eq-true}
use ecommerce_after_sales_ag.Events.Pages.{skip, events_of, list_after_slice}

-- a search by another id does not see the new row
found_other :
    (id : String) (rows : List EventRow) (row : EventRow)
    → str_eq row.event_id id ≡ false
    → find (λ r. str_eq r.event_id id) (rows ++ row ∷ []) ≡ find (λ r. str_eq r.event_id id) rows
found_other id [] row h = rw h refl
found_other id (x ∷ rows) row h = elim (Bool-cases (str_eq x.event_id id)) [
  | inl e ↦ rw e refl
  | inr e ↦ rw e (found_other id rows row h)
]

-- After an append, to an empty table too, the event is read back by its id exactly as `append` answered
-- it, and a lookup by any other id answers as before, whether or not it finds an event.
pub read_back :
    (d : EventDraft) (now : Timestamp) (s : EventStore) (e : EventEnvelope) (s' : EventStore)
    (id : String)
    → append d now s ≡ ok (e, s')
    → get_event id s'.database
      ≡ (if str_eq d.event_id id then ok (some e) else get_event id s.database)
unfolding get_event
read_back d now s e s' id h =
    let a = append-Appended d now s e s' h in
    let r = row_of d a.visibility now a.number in
    let (fresh, _) = row_fits-eq-true r s.database.events a.fits in
    let left = ap (λ rows. read_found (find (λ r. str_eq r.event_id id) rows)) a.left_events in
    elim (Bool-cases (str_eq d.event_id id)) [
      | inl same ↦
          let is_id = (eq_iff d.event_id id).0 same in
          let found =
            find-append_new (λ r. str_eq r.event_id d.event_id) s.database.events r fresh
              ((eq_iff d.event_id d.event_id).1 refl) in
          rw same (
            left
            ∙ ap (λ i. read_found (find (λ r. str_eq r.event_id i) (s.database.events ++ r ∷ [])))
                (sym is_id)
            ∙ ap read_found found
            ∙ ap (λ v. v >>= λ x. ok (some x)) (to_envelope_lem r a.visibility refl)
            ∙ ap (λ v. ok (some v)) (sym a.answer))
      | inr other ↦ rw other (left ∙ ap read_found (found_other id s.database.events r other))
    ]

-- A replay from the non-empty id of a stored event, with a limit in its bounds, returns the next events of the
-- conversation if the event belongs to it, and raises if it belongs to another conversation.
pub resume_exact :
    (c id : String) (e : EventEnvelope) (limit : ℕ) (db : Database)
    → IsLogged db
    → str_eq id "" ≡ false
    → get_event id db ≡ ok (some e)
    → 1 ≤ limit
    → limit ≤ 5000
    → list_after_event_id c (some id) (pos limit) db ≡ (
        if str_eq e.conversation_id c
        then ok (first_rows limit (skip e.sequence (events_of c db)))
        else err (not_found "Last-Event-ID is not visible in this Conversation"))
unfolding list_after_event_id resume_from resume_after
resume_exact c id e limit db w named found low high =
    rw (named, found)
      (elim (Bool-cases (str_eq e.conversation_id c)) [
        | inl k ↦ rw k (list_after_slice c e.sequence limit db w low high)
        | inr k ↦ rw k refl
      ])
