-- ===== src/Tests/Events.antt =====
-- Readiness over the heap, and the shared types, on small inputs.
use rtt.Prelude.{true, false, none, some, [], Returns}
use rtt.Api.{Event, EventKind}
use rtt.Readiness.{Readiness, new, insert_event, poll}
use rtt.Readiness.View.{IsValid, new-IsValid, insert_event-IsValid}
use rtt.Readiness.Polling.{Polled, poll-Polled}
use rtt.Tests.Heap.{heap}

abbrev pub some_event : EventKind → Event
some_event kind = record {
  token = 0;
  kind = kind;
  is_server = true;
  is_error = false;
  stream_id = 4;
}

-- one event that is ready, one that waits for instant 30 and one for 9000
abbrev pub two_waiting : Readiness heap
two_waiting =
    insert_event heap
      (insert_event heap (insert_event heap (new heap) (some_event EventKind.accept) none)
        (some_event EventKind.send) (some 30))
      (some_event EventKind.stream_send) (some 9000)

pub two_waiting-IsValid : IsValid heap two_waiting
two_waiting-IsValid = insert_event-IsValid heap _ _ (some 9000) (
    insert_event-IsValid heap _ _ (some 30) (insert_event-IsValid heap _ _ none (new-IsValid heap)))

poll-Polled_example : Returns (poll heap two_waiting 10 250 []) (Polled heap 10 250 two_waiting)
poll-Polled_example = poll-Polled heap 10 250 two_waiting two_waiting-IsValid
