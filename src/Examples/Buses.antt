-- ===== src/Examples/Buses.antt =====
-- Tests and instances for app/workflow/events.py.
use ops_knowledge.Prelude.{
  ℕ, ◌≡◌, refl, true, false, none, some, List, [], ◌∷◌, not, get_elem?, arith,
}
use ops_knowledge.Workflow.Bus.{
  EventType, workflow_start, workflow_end, stream_chunk, Event, Subscriber, EventBus, is_full,
  new_bus, put, put_nowait, get, stream, replay, new_queue, subscribe, fan_out, publish, close,
  is_critical, Reach, started, subscribed, published, closed_after,
}
use ops_knowledge.Workflow.Bus.Order.{delivered}
use ops_knowledge.Workflow.Bus.Invariant.{IsFaithful, Reach-IsFaithful}
use ops_knowledge.Workflow.Bus.Ending.{late_subscriber_exact}
use ops_knowledge.Workflow.Bus.Closing.{close_exact}

abbrev event : EventType → ℕ → Event ℕ
event type n = record { type = type; execution_id = 1; node_id = none; payload = n; ts = n }

abbrev at_once : ℕ → ℕ
at_once i = 0

-- One subscriber of a bus with room for two, and three events; the last is critical, and the
-- consumer takes one item in the time it waits.
abbrev sent : List (Event ℕ)
sent = event workflow_start 1 ∷ event stream_chunk 2 ∷ event workflow_end 3 ∷ []

abbrev open_bus : EventBus ℕ
open_bus =
    publish (λ i. 1) (event workflow_end 3)
      (publish at_once (event stream_chunk 2)
        (publish at_once (event workflow_start 1) (subscribe (new_bus 2 2))))

abbrev open_run : Reach 2 2 sent open_bus
open_run =
    published (λ i. 1) (event workflow_end 3)
      (published at_once (event stream_chunk 2)
        (published at_once (event workflow_start 1) (subscribed started)))

abbrev served_one : Subscriber ℕ
served_one = record {
  queue = some (event stream_chunk 2) ∷ some (event workflow_end 3) ∷ [];
  yielded = event workflow_start 1 ∷ [];
  ended = false;
}

waited_for : open_bus.subs ≡ served_one ∷ []
unfolding new_bus subscribe new_queue replay publish fan_out is_critical put put_nowait stream get
waited_for = refl

-- A chunk is dropped where the queue is full.
chunk_dropped : (publish at_once (event stream_chunk 4) open_bus).subs ≡ served_one ∷ []
unfolding new_bus subscribe new_queue replay publish fan_out is_critical put put_nowait stream get
chunk_dropped = refl

history_kept :
    (publish at_once (event stream_chunk 4) open_bus).history
    ≡ event workflow_end 3 ∷ event stream_chunk 4 ∷ []
unfolding new_bus subscribe publish
history_kept = refl

Reach-IsFaithful_example : IsFaithful 2 2 sent (subscribe (close open_bus))
Reach-IsFaithful_example =
    Reach-IsFaithful 2 2 (omega arith) sent (subscribe (close open_bus))
      (subscribed (closed_after open_run))

abbrev closed_bus : EventBus ℕ
closed_bus = record {
  subs = [];
  closed = true;
  history = event workflow_start 1 ∷ event workflow_end 3 ∷ [];
  queue_size = 2;
  history_max = 2;
}

-- The history fills the queue, so the sentinel is lost and the loop does not return.
late_subscriber_exact_example : stream 3 (new_queue closed_bus) ≡ record {
  queue = [];
  yielded = event workflow_start 1 ∷ event workflow_end 3 ∷ [];
  ended = false;
}
late_subscriber_exact_example = late_subscriber_exact closed_bus 3 (omega arith) refl (omega arith)

still_open : open_bus.closed ≡ false
unfolding new_bus subscribe publish
still_open = refl

first_found : get_elem? open_bus.subs 0 ≡ some served_one
unfolding new_bus subscribe new_queue replay publish fan_out is_critical put put_nowait stream get
first_found = refl

close_exact_example :
    (s' : Subscriber ℕ) × (get_elem? (close open_bus).subs 0 ≡ some s')
    × (stream 3 s' ≡ record {
      queue = [];
      yielded = delivered served_one;
      ended = not (is_full open_bus.queue_size served_one.queue);
    })
close_exact_example =
    close_exact 2 2 sent open_bus 0 served_one 3 open_run still_open first_found (omega arith)
