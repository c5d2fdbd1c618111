-- ===== src/Jobs/Audit.antt =====
-- jobs.go: ReconstructJobLifecycle.
use nexus_hunter_ai.Prelude.{
  ℕ, suc, String, Bool, not, ◌&&◌, ◌||◌, List, [], ◌∷◌, ◌==◌, nat_eq, ltb, if◌then◌else◌, Result,
  ok, err, ◌>>=◌,
}
use nexus_hunter_ai.Prelude.Sorts.{sort_by}
use nexus_hunter_ai.Jobs.Data.{
  Event, queued, running, completed, failed, cancelled, job_created, job_started, job_completed,
  job_failed, job_cancelled,
}
use nexus_hunter_ai.Jobs.Repository.{string_less}

-- the kinds of error; their messages name the step, the states and the event
pub data AuditError : Type 0 where
  no_events unexpected_created bad_new_state bad_transition inconsistent_states : AuditError

abbrev AuditResult : Type 0
AuditResult = Result AuditError String

-- the comparator: timestamp ASC, then event_id ASC
unfoldable pub audited_before : Event → Event → Bool
unfolding string_less
audited_before a b =
    if nat_eq a.timestamp b.timestamp
    then string_less a.event_id b.event_id
    else ltb a.timestamp b.timestamp

-- the cases JOB_STARTED, JOB_COMPLETED and JOB_FAILED: from the one state to the other
unfoldable pub move : (from to current : String) → Event → AuditResult
move from to current evt =
    if not (current == from)
    then err bad_transition
    else if not (evt.previous_state == from) || not (evt.new_state == to)
    then err inconsistent_states
    else ok to

-- the switch on the event's type, at position i; an event of another type changes nothing
unfoldable pub audit_event : ℕ → String → Event → AuditResult
unfolding move
audit_event i current evt =
    if evt.event_type == job_created
    then (if not (nat_eq i 0)
        then err unexpected_created
        else if not (evt.new_state == queued)
        then err bad_new_state
        else ok queued)
    else if evt.event_type == job_started
    then move queued running current evt
    else if evt.event_type == job_completed
    then move running completed current evt
    else if evt.event_type == job_failed
    then move running failed current evt
    else if evt.event_type == job_cancelled
    then (if not (current == queued) && not (current == running)
        then err bad_transition
        else if not (evt.new_state == cancelled)
        then err bad_new_state
        else ok cancelled)
    else ok current

-- the loop
unfoldable pub audit_events : ℕ → String → List Event → AuditResult
unfolding audit_event
audit_events i current [] = ok current
audit_events i current (evt ∷ evts) =
    audit_event i current evt >>= λ current'. audit_events (suc i) current' evts

abbrev from_sorted : List Event → AuditResult
from_sorted [] = err no_events
from_sorted (evt ∷ evts) = audit_events 0 "" (evt ∷ evts)

unfoldable pub reconstruct_job_lifecycle : List Event → AuditResult
unfolding audit_events sort_by audited_before
reconstruct_job_lifecycle events_list = from_sorted (sort_by audited_before events_list)
