-- ===== src/Storage/Events.antt =====
-- memory.go: the event log. An event's payload is redacted when it is recorded.
pub mod Log
use nexus_hunter_ai.Prelude.{
  ℕ, ◌-◌, String, ◌==◌, Bool, true, false, ◌||◌, Option, none, some, List, [], ◌∷◌, ◌++◌, any,
  filter, length, from_index, leb, ltb, nat_eq, Result, ok, err, if◌then◌else◌,
}
use nexus_hunter_ai.Prelude.Texts.{Text, codes, contains, to_lower}
use nexus_hunter_ai.Jobs.Values.{Value, Fields, text, no_fields, field}
use nexus_hunter_ai.Jobs.Data.{Event}
use nexus_hunter_ai.Storage.Data.{MemoryStorage, StorageError, looked_up}

abbrev secret_keywords : List Text
secret_keywords =
    codes "password"
    ∷ codes "token"
    ∷ codes "secret"
    ∷ codes "api_key"
    ∷ codes "credential"
    ∷ codes "authorization"
    ∷ codes "bearer"
    ∷ []

unfoldable pub is_secret : String → Bool
is_secret key = any (λ keyword. contains (to_lower (codes key)) keyword) secret_keywords

abbrev pub redacted_secret : Value
redacted_secret = text "[REDACTED_AUDIT_SECRET]"

-- sanitizeSecrets; a nil map is the one without fields
unfoldable pub sanitize_secrets : Fields → Fields
sanitize_secrets no_fields = no_fields
sanitize_secrets (field key value rest) =
    field key (if is_secret key then redacted_secret else value) (sanitize_secrets rest)

abbrev or_now : ℕ → ℕ → ℕ
or_now time now = if nat_eq time 0 then now else time

-- the event as it is appended, once its identifier is settled
unfoldable pub stamped_event : (now : ℕ) (id : String) → Event → Event
unfolding sanitize_secrets
stamped_event now id event = record event {
  event_id = id;
  timestamp = or_now event.timestamp now;
  created_at = or_now event.created_at now;
  payload = sanitize_secrets event.payload;
}

unfoldable pub has_event : String → List Event → Bool
has_event id events = any (λ e. e.event_id == id) events

-- recordEventLocked of an event that is not nil; `generated` is the identifier made from the clock
unfoldable pub record_event_locked :
    (now : ℕ) (generated : String) → Event → List Event → List Event
unfolding stamped_event has_event
record_event_locked now generated event events =
    if event.event_id == ""
    then events ++ stamped_event now generated event ∷ []
    else if has_event event.event_id events
    then events
    else events ++ stamped_event now event.event_id event ∷ []

-- Record
unfoldable pub record_event : (now : ℕ) (generated : String) → Event → MemoryStorage → MemoryStorage
unfolding record_event_locked
record_event now generated event m = record m {
  events = record_event_locked now generated event m.events;
}

-- the first event with the identifier
unfoldable pub find_event : String → List Event → Option Event
find_event id [] = none
find_event id (e ∷ es) = if e.event_id == id then some e else find_event id es

-- Get
unfoldable pub get : String → MemoryStorage → Result StorageError Event
unfolding find_event
get id m = looked_up (find_event id m.events) ok

-- ListRecent; a limit below 0 is passed as 0
unfoldable pub list_recent : (limit : ℕ) → MemoryStorage → List Event
list_recent limit m =
    let count = length m.events in
    let used = if nat_eq limit 0 || ltb count limit then count else limit in
    from_index (count - used) m.events

unfoldable pub list_by_target : String → MemoryStorage → List Event
list_by_target target_id m = filter (λ e. e.target_id == target_id) m.events

unfoldable pub list_by_job : String → MemoryStorage → List Event
list_by_job job_id m = filter (λ e. e.job_id == job_id) m.events

unfoldable pub get_by_correlation_id : String → MemoryStorage → List Event
get_by_correlation_id id m = filter (λ e. e.correlation_id == id) m.events
