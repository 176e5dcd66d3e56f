-- ===== src/Events/Replay.antt =====
-- events/store.py: the queries of `EventStore` that replay a conversation.
use ecommerce_after_sales_ag.Common.{
  ℕ, zero, suc, String, Bool, true, not, ◌&&◌, Option, none, some, List, [], ◌∷◌, ◌++◌, map, find,
  select, str_eq, opt_eq, leb, ltb, contains, if◌then◌else◌,
}
use ecommerce_after_sales_ag.Common.Integer.{ℤ, pos, negsuc}
use ecommerce_after_sales_ag.Common.Json.{Fields}
use ecommerce_after_sales_ag.Common.Result.{
  Result, ok, err, value_error, not_found, ◌>>◌, ◌>>=◌, raise_if,
}
use ecommerce_after_sales_ag.Common.Sorting.{sort_by}
use ecommerce_after_sales_ag.Events.Copy.{copy_fields}
use ecommerce_after_sales_ag.Events.Models.{EventRow, EventEnvelope}
use ecommerce_after_sales_ag.Events.Store.{Database, to_envelope}

-- LIMIT n
unfoldable pub first_rows {ℓ} : {A : Type ℓ} → ℕ → List A → List A
first_rows zero xs = []
first_rows (suc n) [] = []
first_rows (suc n) (x ∷ xs) = x ∷ first_rows n xs

-- [_to_envelope(row) for row in rows]
unfoldable pub to_envelopes : List EventRow → Result (List EventEnvelope)
to_envelopes [] = ok []
to_envelopes (r ∷ rs) = do e ← to_envelope r; es ← to_envelopes rs; ok (e ∷ es)

abbrev pub read_found : Option EventRow → Result (Option EventEnvelope)
read_found none = ok none
read_found (some row) = do envelope ← to_envelope row; ok (some envelope)

-- EventStore.get
unfoldable pub get_event : String → Database → Result (Option EventEnvelope)
get_event event_id db = read_found (find (λ r. str_eq r.event_id event_id) db.events)

-- the query of `list_after`
unfoldable pub rows_after : String → ℕ → ℕ → Database → List EventRow
rows_after conversation_id after limit db = first_rows limit (
    sort_by (λ r. r.sequence)
      (select (λ r. str_eq r.conversation_id conversation_id && ltb after r.sequence) db.events))

unfoldable pub page_of : String → ℕ → ℤ → Database → Result (List EventEnvelope)
page_of conversation_id after (negsuc n) db = err (value_error "limit must be between 1 and 5000")
page_of conversation_id after (pos limit) db =
    raise_if (not (leb 1 limit && leb limit 5000)) (value_error "limit must be between 1 and 5000")
    >> to_envelopes (rows_after conversation_id after limit db)

unfoldable pub list_after : String → ℤ → ℤ → Database → Result (List EventEnvelope)
unfolding page_of
list_after conversation_id (negsuc n) limit db =
    err (value_error "after_sequence must be nonnegative")
list_after conversation_id (pos after) limit db = page_of conversation_id after limit db

-- the row that the standard Last-Event-ID names
unfoldable pub resume_after :
    String → Option EventEnvelope → ℤ → Database → Result (List EventEnvelope)
resume_after conversation_id none limit db =
    err (not_found "Last-Event-ID is not visible in this Conversation")
resume_after conversation_id (some event) limit db =
    raise_if (not (str_eq event.conversation_id conversation_id))
      (not_found "Last-Event-ID is not visible in this Conversation")
    >> list_after conversation_id (pos event.sequence) limit db

unfoldable pub resume_from : String → String → ℤ → Database → Result (List EventEnvelope)
unfolding resume_after
resume_from conversation_id last_event_id limit db =
    if str_eq last_event_id ""
    then list_after conversation_id (pos 0) limit db
    else do event ← get_event last_event_id db; resume_after conversation_id event limit db

unfoldable pub list_after_event_id :
    String → Option String → ℤ → Database → Result (List EventEnvelope)
unfolding resume_from
list_after_event_id conversation_id none limit db = list_after conversation_id (pos 0) limit db
list_after_event_id conversation_id (some last_event_id) limit db =
    resume_from conversation_id last_event_id limit db

-- `x IS NULL OR column = x` of an optional argument
abbrev filtered_by : Option String → Option String → Bool
filtered_by none column = true
filtered_by (some wanted) column = opt_eq column (some wanted)

unfoldable pub refs_of : List EventRow → List Fields
refs_of [] = []
refs_of (r ∷ rs) =
    let rest = refs_of rs in
    if contains r.event_type ("tool_call_completed" ∷ "tool_call_cache_hit" ∷ [])
    then map copy_fields r.evidence_refs ++ rest
    else rest

unfoldable pub list_evidence_refs : String → Option String → Option String → Database → List Fields
unfolding refs_of
list_evidence_refs conversation_id case_id run_id db = refs_of (
    sort_by (λ r. r.sequence)
      (select
        (λ r.
          str_eq r.conversation_id conversation_id
          && filtered_by case_id r.case_id
          && filtered_by run_id r.run_id)
        db.events))
