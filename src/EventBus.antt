-- ===== src/EventBus.antt =====
-- events.go: MemoryEventBus. Each method holds the lock, so it is one step. A channel has an identity, a
-- capacity and the events that wait in it; what the consumers take out is not modelled.
pub mod History
use nexus_hunter_ai.Prelude.{
  ℕ, ◌-◌, String, ◌==◌, Bool, true, false, ◌||◌, Option, none, some, List, [], ◌∷◌, ◌++◌, map,
  length, from_index, leb, ltb, nat_eq, if◌then◌else◌,
}
use nexus_hunter_ai.Prelude.Maps.{Map, find, put}
use nexus_hunter_ai.Jobs.Data.{Event}
use nexus_hunter_ai.Storage.Upserts.{listed}

pub record Channel : Type 0 where
  pub identity : ℕ
  pub capacity : ℕ
  pub waiting : List Event

pub record MemoryEventBus : Type 0 where
  pub subscribers : Map (List Channel)
  pub all_subs : List Channel
  pub history : List Event
  pub max_history : ℕ

-- NewMemoryEventBus; a maximum below 0 is passed as 0
unfoldable pub new_memory_event_bus : (max_history : ℕ) → MemoryEventBus
new_memory_event_bus max_history = record {
  subscribers = [];
  all_subs = [];
  history = [];
  max_history = if nat_eq max_history 0 then 500 else max_history;
}

-- the event with its identifier and time; `generated` is what GenerateID returns
unfoldable pub completed_event : (now : ℕ) (generated : String) → Event → Event
completed_event now generated event = record event {
  event_id = if event.event_id == "" then generated else event.event_id;
  timestamp = if nat_eq event.timestamp 0 then now else event.timestamp;
}

-- the bounded history with one more event
unfoldable pub append_history : (max_history : ℕ) → List Event → Event → List Event
append_history max_history history event =
    if leb max_history (length history)
    then from_index 1 history ++ event ∷ []
    else history ++ event ∷ []

-- the non-blocking send: a full channel drops the event
unfoldable pub send : Event → Channel → Channel
send event ch =
    if ltb (length ch.waiting) ch.capacity
    then record ch { waiting = ch.waiting ++ event ∷ [] }
    else ch

-- the loop over the subscribers of the event's type, if there are any
unfoldable pub send_to_type : Event → Map (List Channel) → Map (List Channel)
unfolding send
send_to_type event subscribers = elim (find subscribers event.event_type) [
  | none ↦ subscribers
  | some subs ↦ put subscribers event.event_type (map (send event) subs)
]

-- Publish
unfoldable pub publish : (now : ℕ) (generated : String) → Event → MemoryEventBus → MemoryEventBus
unfolding completed_event append_history send_to_type send
publish now generated event b =
    let sent = completed_event now generated event in
    record b {
      history = append_history b.max_history b.history sent;
      subscribers = send_to_type sent b.subscribers;
      all_subs = map (send sent) b.all_subs;
    }

-- Subscribe: a new channel with room for 64 events
unfoldable pub subscribe : (identity : ℕ) (event_type : String) → MemoryEventBus → MemoryEventBus
subscribe identity event_type b = record b {
  subscribers = put b.subscribers event_type (
      listed (find b.subscribers event_type)
      ++ record { identity = identity; capacity = 64; waiting = [] } ∷ []);
}

-- SubscribeAll: a new channel with room for 128 events
unfoldable pub subscribe_all : (identity : ℕ) → MemoryEventBus → MemoryEventBus
subscribe_all identity b = record b {
  all_subs = b.all_subs ++ record { identity = identity; capacity = 128; waiting = [] } ∷ [];
}

-- the loop of the two cancellations: the first channel of the identity goes
unfoldable pub without_channel : (identity : ℕ) → List Channel → List Channel
without_channel identity [] = []
without_channel identity (ch ∷ chs) =
    let rest = without_channel identity chs in
    if nat_eq ch.identity identity then chs else ch ∷ rest

-- the function that Subscribe returns
unfoldable pub unsubscribe : (identity : ℕ) (event_type : String) → MemoryEventBus → MemoryEventBus
unfolding without_channel
unsubscribe identity event_type b = elim (find b.subscribers event_type) [
  | none ↦ b
  | some subs ↦ record b {
    subscribers = put b.subscribers event_type (without_channel identity subs);
  }
]

-- the function that SubscribeAll returns
unfoldable pub unsubscribe_all : (identity : ℕ) → MemoryEventBus → MemoryEventBus
unfolding without_channel
unsubscribe_all identity b = record b { all_subs = without_channel identity b.all_subs }

-- GetRecentEvents; a limit below 0 is passed as 0
unfoldable pub get_recent_events : (limit : ℕ) → MemoryEventBus → List Event
get_recent_events limit b =
    let count = length b.history in
    let used = if nat_eq limit 0 || ltb count limit then count else limit in
    from_index (count - used) b.history

-- GetEvents
unfoldable pub get_events : MemoryEventBus → List Event
get_events b = b.history
