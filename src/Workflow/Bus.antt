-- ===== src/Workflow/Bus.antt =====
-- The event bus of a run: `Event` and `EventBus` of app/workflow/events.py. `D` is the payload of an
-- event. A queue belongs to one consumer, the loop of `stream`: what it has yielded and whether it
-- has returned stand beside the queue. A critical event waits for room at most `critical_wait`
-- seconds; what the consumer takes in that time is given, and taking nothing is the timeout.
pub mod Thinned
pub mod Order
pub mod Invariant
pub mod Ending
pub mod Closing
use ops_knowledge.Prelude.{
  ℕ, zero, suc, ◌+◌, ◌-◌, Bool, true, false, ◌&&◌, ltb, leb, if◌then◌else◌, Option, none, some,
  List, [], ◌∷◌, ◌++◌, map, length, drop,
}
use ops_knowledge.Prelude.Texts.{Text}

pub data EventType : Type 0 where
  workflow_start workflow_end : EventType
  node_start node_output node_error node_end : EventType
  stream_chunk heartbeat waiting_input : EventType

unfoldable pub is_critical : EventType → Bool
is_critical workflow_start = true
is_critical workflow_end = true
is_critical node_error = true
is_critical t = false

pub record Event (D : Type 0) : Type 0 where
  pub type : EventType
  pub execution_id : ℕ
  pub node_id : Option Text
  pub payload : D
  pub ts : ℕ

-- `asyncio.Queue`, with `none` for the sentinel, and its consumer.
pub record Subscriber (D : Type 0) : Type 0 where
  pub queue : List (Option (Event D))
  pub yielded : List (Event D)
  pub ended : Bool

pub record EventBus (D : Type 0) : Type 0 where
  pub subs : List (Subscriber D)
  pub closed : Bool
  pub history : List (Event D)
  pub queue_size : ℕ
  pub history_max : ℕ

-- Both sizes, at every call of the constructor.
abbrev pub default_size : ℕ
default_size = 256

unfoldable pub new_bus : {D : Type 0} → ℕ → ℕ → EventBus D
new_bus queue_size history_size = record {
  subs = [];
  closed = false;
  history = [];
  queue_size = queue_size;
  history_max = history_size;
}

module _ {D : Type 0} where
  -- `Queue.full()`: a size of 0 is no bound.
  abbrev pub is_full : ℕ → List (Option (Event D)) → Bool
  is_full size queue = ltb 0 size && leb size (length queue)

  abbrev pub push : Option (Event D) → Subscriber D → Subscriber D
  push x s = record s { queue = s.queue ++ x ∷ [] }

  -- `put_nowait`, with QueueFull ignored.
  unfoldable pub put_nowait : ℕ → Option (Event D) → Subscriber D → Subscriber D
  put_nowait size x s = if is_full size s.queue then s else push x s

  -- One turn of the loop of `stream`; on an empty queue it goes on waiting.
  abbrev pub taken : List (Event D) → List (Option (Event D)) → Subscriber D
  taken yielded [] = record { queue = []; yielded = yielded; ended = false }
  taken yielded (none ∷ queue) = record { queue = queue; yielded = yielded; ended = true }
  taken yielded (some ev ∷ queue) = record {
    queue = queue;
    yielded = yielded ++ ev ∷ [];
    ended = false;
  }

  unfoldable pub get : Subscriber D → Subscriber D
  get s = if s.ended then s else taken s.yielded s.queue

  unfoldable pub stream : ℕ → Subscriber D → Subscriber D
  stream zero s = s
  stream (suc turns) s = stream turns (get s)

  -- `wait_for(q.put(ev))`: at once if there is room, else after the consumer took `turns` items; the
  -- event is dropped if that made no room.
  unfoldable pub put : ℕ → ℕ → Event D → Subscriber D → Subscriber D
  put size turns ev s =
      put_nowait size (some ev) (if is_full size s.queue then stream turns s else s)

  unfoldable pub replay : ℕ → List (Event D) → Subscriber D → Subscriber D
  replay size [] s = s
  replay size (ev ∷ history) s =
      if is_full size s.queue then s else replay size history (push (some ev) s)

  abbrev pub no_events : Subscriber D
  no_events = record { queue = []; yielded = []; ended = false }

  -- The queue that `subscribe` makes and returns.
  unfoldable pub new_queue : EventBus D → Subscriber D
  new_queue bus =
      let q = replay bus.queue_size bus.history no_events in
      if bus.closed then put_nowait bus.queue_size none q else q

  unfoldable pub subscribe : EventBus D → EventBus D
  subscribe bus = record bus { subs = bus.subs ++ new_queue bus ∷ [] }

  abbrev pub trimmed : ℕ → List (Event D) → List (Event D)
  trimmed history_max history =
      if ltb history_max (length history)
      then drop (length history - history_max) history
      else history

  -- The loop of `publish` over the subscribers; `turns i` is what the i-th takes while it is waited
  -- for.
  unfoldable pub fan_out : ℕ → (ℕ → ℕ) → Event D → List (Subscriber D) → List (Subscriber D)
  fan_out size turns ev [] = []
  fan_out size turns ev (s ∷ subs) =
      (if is_critical ev.type then put size (turns 0) ev s else put_nowait size (some ev) s)
      ∷ fan_out size (λ i. turns (suc i)) ev subs

  unfoldable pub publish : (ℕ → ℕ) → Event D → EventBus D → EventBus D
  publish turns ev bus =
      let history = trimmed bus.history_max (bus.history ++ ev ∷ []) in
      if bus.closed
      then record bus { history = history }
      else record bus { history = history; subs = fan_out bus.queue_size turns ev bus.subs }

  unfoldable pub close : EventBus D → EventBus D
  close bus = record bus { closed = true; subs = map (put_nowait bus.queue_size none) bus.subs }

  -- The i-th consumer takes one item.
  unfoldable pub get_at : ℕ → List (Subscriber D) → List (Subscriber D)
  get_at i [] = []
  get_at zero (s ∷ subs) = get s ∷ subs
  get_at (suc i) (s ∷ subs) = s ∷ get_at i subs

-- What can happen to a bus: the calls, and a turn of a consumer. The first list is all that was
-- published.
pub data Reach {D : Type 0} (queue_size history_size : ℕ)
    : List (Event D) → EventBus D → Type 0 where
  started : Reach queue_size history_size [] (new_bus queue_size history_size)
  subscribed :
      {es : List (Event D)} {bus : EventBus D}
      → Reach queue_size history_size es bus
      → Reach queue_size history_size es (subscribe bus)
  published :
      {es : List (Event D)} {bus : EventBus D} (turns : ℕ → ℕ) (ev : Event D)
      → Reach queue_size history_size es bus
      → Reach queue_size history_size (es ++ ev ∷ []) (publish turns ev bus)
  closed_after :
      {es : List (Event D)} {bus : EventBus D}
      → Reach queue_size history_size es bus
      → Reach queue_size history_size es (close bus)
  got :
      {es : List (Event D)} {bus : EventBus D} (i : ℕ)
      → Reach queue_size history_size es bus
      → Reach queue_size history_size es (record bus { subs = get_at i bus.subs })
