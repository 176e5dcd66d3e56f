-- ===== src/Events/Tests/Appends.antt =====
-- A second event for a conversation that has one.
use ecommerce_after_sales_ag.Common.{
  ◌≡◌, if◌then◌else◌, str_eq, ◌↔◌, ◌≤◌, refl, true, false, some, [], ◌∷◌, arith,
}
use ecommerce_after_sales_ag.Common.Enum.{value_of}
use ecommerce_after_sales_ag.Common.Integer.{pos}
use ecommerce_after_sales_ag.Common.Result.{ok, err, is_ok, not_found}
use ecommerce_after_sales_ag.Events.Copy.{copy_fields}
use ecommerce_after_sales_ag.Events.Models.{
  EventVisibility, parse_visibility, event_visibility_enum,
}
use ecommerce_after_sales_ag.Events.Store.{
  EventStore, append, commit, sequence_of, advance_sequence, insert_row, row_fits, new_row,
  to_envelope, new_hub, publish,
}
use ecommerce_after_sales_ag.Events.Replay.{first_rows, get_event, list_after, list_after_event_id}
use ecommerce_after_sales_ag.Events.Log.{IsLogged}
use ecommerce_after_sales_ag.Events.Growth.{append_extends}
use ecommerce_after_sales_ag.Events.Acceptance.{is_known, has_event, append_accepted_iff}
use ecommerce_after_sales_ag.Events.Pages.{list_after_slice}
use ecommerce_after_sales_ag.Events.Lookup.{read_back, resume_exact}
use ecommerce_after_sales_ag.Events.Tests.{
  draft, noon, first_event, second_event, first_row, second_row, one_event, quiet,
  one_event-IsLogged,
}

abbrev appended : EventStore
unfolding new_hub publish
appended = record {
  database = record {
    conversations =
        record { conversation_id = "conv_1"; next_event_sequence = 2 }
        ∷ record { conversation_id = "conv_2"; next_event_sequence = 0 }
        ∷ [];
    events = first_row ∷ second_row ∷ [];
  };
  hub = publish second_event new_hub;
}

append_extends_example : IsLogged appended.database
unfolding append commit sequence_of advance_sequence parse_visibility insert_row row_fits new_row
    to_envelope copy_fields publish new_hub
append_extends_example =
    (append_extends (draft "evt_2") noon quiet second_event appended "conv_1" one_event-IsLogged
      refl).0

append_accepted_iff_example : (is_ok (append (draft "evt_1") noon quiet) ≡ true) ↔ (
    (is_known "conv_1" one_event ≡ true)
    × (has_event "evt_1" one_event ≡ false)
    × ((v : EventVisibility) × ("both" ≡ value_of v))
    × (1 ≤ 1))
append_accepted_iff_example = append_accepted_iff (draft "evt_1") noon quiet one_event-IsLogged

list_after_slice_example : list_after "conv_1" (pos 0) (pos 500) one_event ≡ ok (first_event ∷ [])
unfolding first_rows
list_after_slice_example =
    list_after_slice "conv_1" 0 500 one_event one_event-IsLogged (omega arith) (omega arith)

read_back_example :
    get_event "evt_2" appended.database
    ≡ (if str_eq "evt_2" "evt_2" then ok (some second_event) else get_event "evt_2" quiet.database)
unfolding append commit sequence_of advance_sequence parse_visibility insert_row row_fits new_row
    to_envelope copy_fields publish new_hub
read_back_example = read_back (draft "evt_2") noon quiet second_event appended "evt_2" refl

resume_exact_example :
    list_after_event_id "conv_2" (some "evt_1") (pos 500) one_event
    ≡ err (not_found "Last-Event-ID is not visible in this Conversation")
unfolding get_event to_envelope parse_visibility copy_fields
resume_exact_example =
    resume_exact "conv_2" "evt_1" first_event 500 one_event one_event-IsLogged refl refl
      (omega arith) (omega arith)
