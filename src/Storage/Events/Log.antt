-- ===== src/Storage/Events/Log.antt =====
-- What every log of events keeps: identifiers that differ, and payloads without secrets.
use nexus_hunter_ai.Prelude.{
  ℕ, String, ◌==◌, eq_iff, eq_refl, true, false, ◌||◌, List, [], ◌∷◌, ◌++◌, All, All-append, ◌≡◌,
  refl, inl, inr, Bool-cases, arith,
}
use nexus_hunter_ai.Jobs.Values.{Fields, no_fields, field}
use nexus_hunter_ai.Jobs.Data.{Event}
use nexus_hunter_ai.Storage.Events.{
  has_event, is_secret, record_event_locked, redacted_secret, sanitize_secrets, stamped_event,
}

-- directly under a key that names a secret stands the mark
abbrev pub IsClean : Fields → Type 0
IsClean no_fields = Unit
IsClean (field key value rest) = (is_secret key ≡ true → value ≡ redacted_secret) × IsClean rest

-- no two events have the same identifier
abbrev pub UniqueIds : List Event → Type 0
UniqueIds [] = Unit
UniqueIds (e ∷ es) = (has_event e.event_id es ≡ false) × UniqueIds es

abbrev pub IsSound : List Event → Type 0
IsSound events = UniqueIds events × All (λ e. IsClean e.payload) events

sanitize_secrets-IsClean : (payload : Fields) → IsClean (sanitize_secrets payload)
unfolding sanitize_secrets
sanitize_secrets-IsClean no_fields = tt
sanitize_secrets-IsClean (field key value rest) =
    ((λ secret. rw secret refl), sanitize_secrets-IsClean rest)

has_event-append :
    (id : String) (events : List Event) (e : Event)
    → has_event id (events ++ e ∷ []) ≡ (has_event id events || e.event_id == id)
unfolding has_event
has_event-append id [] e = ground arith
has_event-append id (x ∷ events) e = ground (arith, has_event-append id events e)

UniqueIds-append :
    (events : List Event) (e : Event)
    → has_event e.event_id events ≡ false
    → UniqueIds events
    → UniqueIds (events ++ e ∷ [])
unfolding has_event
UniqueIds-append [] e fresh h = (refl, tt)
UniqueIds-append (x ∷ events) e fresh h = (
  ground (
    arith,
    has_event-append x.event_id events e,
    eq_iff e.event_id x.event_id,
    eq_iff x.event_id e.event_id,
  ),
  UniqueIds-append events e (ground arith) h.1,
)

appended :
    (now : ℕ) (id : String) (event : Event) (events : List Event)
    → has_event id events ≡ false
    → IsSound events
    → IsSound (events ++ stamped_event now id event ∷ [])
unfolding stamped_event
appended now id event events fresh h = (
  UniqueIds-append events (stamped_event now id event) fresh h.0,
  All-append (λ e. IsClean e.payload) events (stamped_event now id event)
      (sanitize_secrets-IsClean event.payload) h.1,
)

-- Recording keeps the log sound: identifiers stay different, and directly in every payload, maps
-- inside it aside, a key that names a secret holds the mark of redaction. Where the event comes
-- without an identifier, the condition is that the log does not hold yet the one made from the clock.
pub record_event_locked-IsSound :
    (now : ℕ) (generated : String) (event : Event) (events : List Event)
    → (event.event_id == "" ≡ true → has_event generated events ≡ false)
    → IsSound events
    → IsSound (record_event_locked now generated event events)
unfolding record_event_locked
record_event_locked-IsSound now generated event events fresh h =
    elim (Bool-cases (event.event_id == "")) [
      | inl e ↦ rw (record_event_locked, e) (appended now generated event events (fresh e) h)
      | inr n ↦ elim (Bool-cases (has_event event.event_id events)) [
        | inl there ↦ rw (record_event_locked, n, there) h
        | inr new ↦
            rw (record_event_locked, n, new) (appended now event.event_id event events new h)
      ]
    ]

has_event_self :
    (now : ℕ) (id : String) (event : Event) (events : List Event)
    → has_event id (events ++ stamped_event now id event ∷ []) ≡ true
unfolding stamped_event
has_event_self now id event events =
    rw (has_event-append id events (stamped_event now id event), eq_refl id) (ground arith)

pub recorded :
    (now : ℕ) (generated : String) (event : Event) (events : List Event)
    → (event.event_id == "") ≡ false
    → has_event event.event_id (record_event_locked now generated event events) ≡ true
unfolding record_event_locked
recorded now generated event events named = elim (Bool-cases (has_event event.event_id events)) [
  | inl there ↦ rw (record_event_locked, named, there) there
  | inr new ↦ rw (record_event_locked, named, new) (has_event_self now event.event_id event events)
]

known :
    (later : ℕ) (other : String) (again : Event) (events : List Event)
    → (again.event_id == "") ≡ false
    → has_event again.event_id events ≡ true
    → record_event_locked later other again events ≡ events
unfolding record_event_locked
known later other again events named there = rw (record_event_locked, named, there) refl

-- A delivery under an identifier that was delivered before changes nothing, whatever else the second
-- event says and whenever it comes.
pub record_event_locked-again :
    (now later : ℕ) (generated other : String) (event again : Event) (events : List Event)
    → (event.event_id == "") ≡ false
    → again.event_id ≡ event.event_id
    → record_event_locked later other again (record_event_locked now generated event events)
      ≡ record_event_locked now generated event events
record_event_locked-again now later generated other event again events named same =
    known later other again (record_event_locked now generated event events) (rw same named)
      (rw same (recorded now generated event events named))
