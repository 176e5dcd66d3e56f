-- ===== src/Events/Tests.antt =====
-- Two conversations, one event, and a second one that is appended to it.
mod Appends
mod Streams
use ecommerce_after_sales_ag.Common.{
  String, Option, none, some, List, [], ◌∷◌, ◌≡◌, refl, inl, inr, str_eq, Bool-cases, is_some, true,
}
use ecommerce_after_sales_ag.Common.Json.{end, field, str}
use ecommerce_after_sales_ag.Common.Result.{ok}
use ecommerce_after_sales_ag.Common.Time.{Timestamp, aware}
use ecommerce_after_sales_ag.Events.Models.{
  Content, EventDraft, EventRow, EventEnvelope, EventVisibility, validate_draft, is_event_type,
  parse_visibility,
}
use ecommerce_after_sales_ag.Events.Store.{
  ConversationRow, Database, EventHub, EventStore, new_hub, sequence_of,
}
use ecommerce_after_sales_ag.Events.Log.{IsLogged, row_of, envelope_of}

abbrev content : String → Content
content id = record {
  event_id = id;
  schema_version = 1;
  conversation_id = "conv_1";
  case_id = none;
  run_id = none;
  event_type = "case_created";
  summary = "A case was created";
  payload = field "state" (str "created") end;
  evidence_refs = [];
}

abbrev draft : String → EventDraft
draft id = record { content = content id; visibility = "both"; timestamp = none }

validate_draft_test : validate_draft (draft "evt_2") ≡ ok tt
unfolding validate_draft is_event_type parse_visibility
validate_draft_test = refl

abbrev noon : Timestamp
noon = aware 1000

abbrev first_row : EventRow
first_row = row_of (draft "evt_1") EventVisibility.both noon 1

abbrev second_row : EventRow
second_row = row_of (draft "evt_2") EventVisibility.both noon 2

abbrev first_event : EventEnvelope
first_event = envelope_of first_row EventVisibility.both

abbrev second_event : EventEnvelope
second_event = envelope_of second_row EventVisibility.both

abbrev one_event : Database
one_event = record {
  conversations =
      record { conversation_id = "conv_1"; next_event_sequence = 1 }
      ∷ record { conversation_id = "conv_2"; next_event_sequence = 0 }
      ∷ [];
  events = first_row ∷ [];
}

abbrev quiet : EventStore
quiet = record { database = one_event; hub = new_hub }

one_event-IsLogged : IsLogged one_event
unfolding sequence_of
one_event-IsLogged = record {
  numbered =
      λ c. elim (Bool-cases (str_eq "conv_1" c)) [ inl e ↦ rw e (refl, tt) | inr e ↦ rw e tt ];
  counted = λ c. elim (Bool-cases (str_eq "conv_1" c)) [
    | inl e ↦ rw e refl
    | inr e ↦ elim (Bool-cases (str_eq "conv_2" c)) [
      | inl f ↦ rw (e, f) refl
      | inr f ↦ rw (e, f) refl
    ]
  ];
  readable = ((EventVisibility.both, refl), tt);
}
