-- ===== src/Events/Tests/Streams.antt =====
-- A subscriber that replays the first event while the second is appended.
use ecommerce_after_sales_ag.Common.{◌≡◌, refl, false, List, [], ◌∷◌, ◌++◌, arith}
use ecommerce_after_sales_ag.Common.Sorting.{sort_by, insert_by}
use ecommerce_after_sales_ag.Events.Copy.{copy_fields}
use ecommerce_after_sales_ag.Events.Replay.{
  list_after, page_of, to_envelopes, rows_after, first_rows,
}
use ecommerce_after_sales_ag.Events.Models.{EventEnvelope, parse_visibility}
use ecommerce_after_sales_ag.Events.Store.{
  EventStore, register, unregister, append, commit, sequence_of, advance_sequence, insert_row,
  row_fits, new_row, to_envelope, new_hub, publish,
}
use ecommerce_after_sales_ag.Events.Subscription.{
  Subscription, querying, subscribe, advance, advance_at, take_batch, offer, dequeue,
}
use ecommerce_after_sales_ag.Events.Pages.{skip, events_of}
use ecommerce_after_sales_ag.Events.Delivery.{
  Act, appends, joins, leaves, advances, happen, follow, happen_all, follow_for,
}
use ecommerce_after_sales_ag.Events.Delivery.Invariant.{has_ended}
use ecommerce_after_sales_ag.Events.Delivery.Order.{opened, IsTidy, delivered_in_order}
use ecommerce_after_sales_ag.Events.Delivery.Effort.{IsWaiting}
use ecommerce_after_sales_ag.Events.Delivery.Draining.{drained}
use ecommerce_after_sales_ag.Events.Tests.{
  draft, noon, first_event, second_event, quiet, one_event-IsLogged,
}

abbrev opening : Subscription × EventStore
unfolding register new_hub
opening = (
  record { conversation_id = "conv_1"; queue = 0; cursor = 0; phase = querying },
  record quiet { hub = (register "conv_1" new_hub).1 },
)

abbrev meanwhile : List Act
meanwhile =
    advances
    ∷ appends (draft "evt_2") noon
    ∷ joins "conv_2"
    ∷ advances
    ∷ advances
    ∷ advances
    ∷ leaves "conv_2" 1
    ∷ []

quiet-IsTidy : IsTidy quiet.hub
unfolding new_hub
quiet-IsTidy c = tt

delivered_in_order_example :
    ((rest : List EventEnvelope) × ((happen_all meanwhile (opened opening)).delivered ++ rest
        ≡ skip 0 (events_of "conv_1" (happen_all meanwhile (opened opening)).store.database)))
    × (has_ended (happen_all meanwhile (opened opening)).subscription.phase ≡ false)
unfolding subscribe register new_hub
delivered_in_order_example =
    delivered_in_order "conv_1" 0 quiet opening meanwhile one_event-IsLogged quiet-IsTidy refl

drained_example :
    IsWaiting (follow_for 12 (happen_all (appends (draft "evt_2") noon ∷ []) (opened opening)))
    × ((follow_for 12 (happen_all (appends (draft "evt_2") noon ∷ []) (opened opening))).delivered
        ≡ first_event ∷ second_event ∷ [])
unfolding append commit sequence_of advance_sequence parse_visibility insert_row row_fits new_row
    to_envelope copy_fields publish new_hub subscribe register unregister happen_all happen follow
    advance advance_at take_batch offer dequeue list_after page_of to_envelopes rows_after
    first_rows sort_by insert_by
drained_example =
    drained "conv_1" 0 quiet opening (appends (draft "evt_2") noon ∷ []) 12 one_event-IsLogged
      quiet-IsTidy refl (omega arith)
