-- ===== src/Events/Store.antt =====
-- events/store.py: `EventStore` over the tables of conversations and events, and the hub that tells the
-- subscribers in this process. A method that raises leaves the store as it was: the transaction is
-- rolled back, and nothing has been published.
use ecommerce_after_sales_ag.Common.{
  ℕ, suc, ◌+◌, String, Bool, not, ◌&&◌, Option, none, some, List, [], ◌∷◌, ◌++◌, map, any, select,
  str_eq, leb, ◌==◌, if◌then◌else◌,
}
use ecommerce_after_sales_ag.Common.Enum.{value_of}
use ecommerce_after_sales_ag.Common.Result.{
  Result, ok, err, not_found, storage_integrity, ◌>>◌, ◌>>=◌, raise_if,
}
use ecommerce_after_sales_ag.Common.Time.{Timestamp}
use ecommerce_after_sales_ag.Events.Copy.{copy_fields}
use ecommerce_after_sales_ag.Events.Models.{
  EventDraft, EventRow, EventEnvelope, EventVisibility, event_visibility_enum, parse_visibility,
}

-- The columns of a conversation that the event store reads.
pub record ConversationRow : Type 0 where
  pub conversation_id : String
  pub next_event_sequence : ℕ

pub record Database : Type 0 where
  pub conversations : List ConversationRow
  pub events : List EventRow

-- The subscribers of each conversation and the content of each queue. A queue is named by the
-- number of queues made before it; a conversation without an entry has the empty list.
pub record EventHub : Type 0 where
  pub subscribers : String → List ℕ
  pub queues : ℕ → List EventEnvelope
  pub made : ℕ

pub record EventStore : Type 0 where
  pub database : Database
  pub hub : EventHub

unfoldable pub new_hub : EventHub
new_hub = record { subscribers = λ c. []; queues = λ q. []; made = 0 }

-- _EventHub.register: the new queue and the hub that knows it
unfoldable pub register : String → EventHub → ℕ × EventHub
register conversation_id h = (
  h.made,
  record {
    subscribers =
        λ c. if str_eq c conversation_id then h.made ∷ h.subscribers c else h.subscribers c;
    queues = λ q. if q == h.made then [] else h.queues q;
    made = suc h.made;
  },
)

-- _EventHub.unregister
unfoldable pub unregister : String → ℕ → EventHub → EventHub
unregister conversation_id queue h = record h {
  subscribers = λ c.
      if str_eq c conversation_id
      then select (λ q. not (q == queue)) (h.subscribers c)
      else h.subscribers c;
}

-- _EventHub.publish: every queue of the set gets the event
unfoldable pub publish : EventEnvelope → EventHub → EventHub
publish event h = record h {
  queues = λ q.
      if any (λ s. s == q) (h.subscribers event.conversation_id)
      then h.queues q ++ event ∷ []
      else h.queues q;
}

-- _to_envelope
unfoldable pub to_envelope : EventRow → Result EventEnvelope
to_envelope row = do
  visibility ← parse_visibility row.visibility
  ok (record {
    content = record row.content {
      payload = copy_fields row.payload;
      evidence_refs = map copy_fields row.evidence_refs;
    };
    visibility = visibility;
    timestamp = row.timestamp;
    sequence = row.sequence;
  })

-- SET next_event_sequence = next_event_sequence + 1 WHERE conversation_id = ...
unfoldable pub advance_sequence : String → List ConversationRow → List ConversationRow
advance_sequence conversation_id [] = []
advance_sequence conversation_id (c ∷ cs) =
    record c {
      next_event_sequence =
          if str_eq c.conversation_id conversation_id
          then c.next_event_sequence + 1
          else c.next_event_sequence;
    }
    ∷ advance_sequence conversation_id cs

-- RETURNING next_event_sequence
unfoldable pub sequence_of : String → List ConversationRow → Option ℕ
sequence_of conversation_id [] = none
sequence_of conversation_id (c ∷ cs) =
    let rest = sequence_of conversation_id cs in
    if str_eq c.conversation_id conversation_id then some c.next_event_sequence else rest

-- The primary key and the constraints of the table of events.
unfoldable pub row_fits : EventRow → List EventRow → Bool
row_fits row events =
    not (any (λ r. str_eq r.event_id row.event_id) events)
    && not (
        any (λ r. str_eq r.conversation_id row.conversation_id && (r.sequence == row.sequence))
          events)
    && leb 1 row.schema_version
    && leb 1 row.sequence

abbrev pub or_now : Option Timestamp → Timestamp → Timestamp
or_now none now = now
or_now (some t) now = t

unfoldable pub new_row : EventDraft → EventVisibility → Timestamp → ℕ → EventRow
new_row draft visibility now sequence = record {
  content = record draft.content {
    payload = copy_fields draft.payload;
    evidence_refs = map copy_fields draft.evidence_refs;
  };
  visibility = value_of visibility;
  timestamp = or_now draft.timestamp now;
  sequence = sequence;
}

-- INSERT, and the commit of both changes
unfoldable pub insert_row : EventRow → Database → Result (EventRow × Database)
insert_row row db =
    raise_if (not (row_fits row db.events)) (storage_integrity "events")
    >> ok (
      row,
      record {
        conversations = advance_sequence row.conversation_id db.conversations;
        events = db.events ++ row ∷ [];
      },
    )

-- the transaction of `append`, with the number that the update has returned
unfoldable pub commit : EventDraft → Timestamp → Database → Option ℕ → Result (EventRow × Database)
commit draft now db none = err (not_found "Conversation was not found")
commit draft now db (some sequence) = do
  visibility ← parse_visibility draft.visibility
  insert_row (new_row draft visibility now sequence) db

unfoldable pub append : EventDraft → Timestamp → EventStore → Result (EventEnvelope × EventStore)
append draft now s = do
  let db = s.database
  let bumped = advance_sequence draft.conversation_id db.conversations
  (row, committed) ← commit draft now db (sequence_of draft.conversation_id bumped)
  envelope ← to_envelope row
  ok (envelope, record { database = committed; hub = publish envelope s.hub })
