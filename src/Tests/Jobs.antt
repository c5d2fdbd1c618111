-- ===== src/Tests/Jobs.antt =====
-- The job manager on a concrete run: a job is created, started, completed, and a call comes too late.
use nexus_hunter_ai.Prelude.{
  ℕ, String, ◌≡◌, refl, false, Option, none, some, List, [], ok, err, Result,
}
use nexus_hunter_ai.Prelude.Maps.{find, put}
use nexus_hunter_ai.Jobs.Data.{ScanJob, Event, running, completed, deep_copy_scan_job}
use nexus_hunter_ai.Jobs.Exec.{Manager, Stamp, new_manager}
use nexus_hunter_ai.Jobs.Repository.{get_job_by_id, create_job, transition_job}
use nexus_hunter_ai.Jobs.Manager.{
  fetch, validate_target_active, persist_job_create, persist_job_transition, create_scan_job,
  start_job, complete_job, handle_target_deactivated, new_job, publish, transition_event,
  created_event,
}
use nexus_hunter_ai.Prelude.Sorts.{Ordered}
use nexus_hunter_ai.Jobs.Audit.{
  AuditError, bad_transition, audited_before, reconstruct_job_lifecycle,
}
use nexus_hunter_ai.Jobs.Lifecycle.{
  create, start_it, complete_it, cancel_it, perform, Reach, here, after, retargeted, status_of,
  ◌⟶*◌, reach-⟶*, terminal_absorbs,
}
use nexus_hunter_ai.Jobs.Trail.{events_of}
use nexus_hunter_ai.Jobs.History.{Reach-audit}
use nexus_hunter_ai.Jobs.Progress.{Allowed, unchecked, started, finished, run_to_completion}
use nexus_hunter_ai.Jobs.Deactivation.{active_at, deactivated-not-active}

abbrev stamp : ℕ → Stamp
stamp t = record { now = t; now_text = "now"; corr_id = "corr-1"; event_id = "evt-1" }

abbrev empty_manager : Manager
empty_manager = new_manager (some [])

abbrev with_job : Manager
with_job = perform (create (stamp 1) "job-1" "tgt-1" "recon" none) empty_manager

abbrev with_started : Manager
with_started = perform (start_it (stamp 2) "job-1") with_job

abbrev with_completed : Manager
with_completed = perform (complete_it (stamp 3) "job-1") with_started

-- the targets are gone when the last call comes
abbrev no_targets : Manager
no_targets = record with_completed { target_checker = some (λ id. none) }

abbrev too_late : Manager
too_late = perform (cancel_it (stamp 4) "job-1") no_targets

run_to_start : Reach empty_manager with_started
unfolding find
run_to_start =
    after (after here (create (stamp 1) "job-1" "tgt-1" "recon" none) refl refl)
      (start_it (stamp 2) "job-1") tt refl

reach-⟶*_example : status_of empty_manager "job-1" ⟶* status_of with_started "job-1"
reach-⟶*_example = reach-⟶* "job-1" run_to_start

completed_stored : status_of with_completed "job-1" ≡ some completed
unfolding status_of find put perform fetch get_job_by_id validate_target_active create_scan_job
    start_job complete_job persist_job_create create_job persist_job_transition transition_job
    deep_copy_scan_job
completed_stored = refl

late_cancel : Reach with_completed too_late
late_cancel = after (retargeted here (some (λ id. none)) refl) (cancel_it (stamp 4) "job-1") tt refl

terminal_absorbs_example : status_of too_late "job-1" ≡ some completed
terminal_absorbs_example = terminal_absorbs "job-1" completed late_cancel refl completed_stored

abbrev started_one : ScanJob
started_one = record (new_job (stamp 1) "job-1" "tgt-1" "recon" none) {
  status = running;
  started_at = some 2;
}

started_stored : find with_started.repo "job-1" ≡ some started_one
unfolding find put perform fetch get_job_by_id validate_target_active create_scan_job start_job
    persist_job_create create_job persist_job_transition transition_job deep_copy_scan_job new_job
    publish
started_stored = refl

abbrev heard : Option (List Event) → List Event
heard none = []
heard (some evs) = evs

abbrev start_events : List Event
start_events = heard with_started.bus

start_heard : with_started.bus ≡ some start_events
unfolding find put perform fetch get_job_by_id validate_target_active create_scan_job start_job
    persist_job_create create_job persist_job_transition transition_job deep_copy_scan_job new_job
    publish
start_heard = refl

start-Ordered : Ordered audited_before (events_of "job-1" start_events)
unfolding find put perform fetch get_job_by_id validate_target_active create_scan_job start_job
    persist_job_create create_job persist_job_transition transition_job deep_copy_scan_job new_job
    publish audited_before transition_event created_event
start-Ordered = (refl, tt)

Reach-audit_example : reconstruct_job_lifecycle (events_of "job-1" start_events) ≡ ok running
Reach-audit_example =
    Reach-audit empty_manager start_events "job-1" started_one refl refl run_to_start start_heard
      started_stored start-Ordered

-- created and started at one time, with identifiers that sort the other way
abbrev tied : List Event
tied = heard (
    (perform (start_it (record (stamp 1) { event_id = "evt-a" }) "job-1") (
      perform (create (record (stamp 1) { event_id = "evt-b" }) "job-1" "tgt-1" "recon" none)
        empty_manager)).bus)

-- the audit takes the start for the first event
tied_refused :
    Path
      (Result AuditError String)
      (reconstruct_job_lifecycle (events_of "job-1" tied))
      (err bad_transition)
unfolding find put perform fetch get_job_by_id validate_target_active create_scan_job start_job
    persist_job_create create_job persist_job_transition transition_job deep_copy_scan_job new_job
    publish transition_event created_event reconstruct_job_lifecycle
tied_refused = refl

deactivated-not-active_example :
    active_at
      (handle_target_deactivated 9 "now" (λ id. ("corr-9", "evt-9")) "tgt-1" with_started).0
      "job-1"
    ≡ false
unfolding new_job
deactivated-not-active_example =
    deactivated-not-active 9 "now" (λ id. ("corr-9", "evt-9")) with_started started_one
      started_stored

abbrev queued_one : ScanJob
queued_one = new_job (stamp 1) "job-1" "tgt-1" "recon" none

queued_stored : find with_job.repo "job-1" ≡ some queued_one
unfolding find put perform validate_target_active create_scan_job persist_job_create create_job
    deep_copy_scan_job new_job publish
queued_stored = refl

job-Allowed : Allowed "tgt-1" with_job
unfolding perform validate_target_active create_scan_job persist_job_create publish
job-Allowed = unchecked refl

run_to_completion_example :
    ((start_job (stamp 2) "job-1" with_job).1 ≡ ok (started (stamp 2) with_job queued_one))
    × ((complete_job (stamp 3) "job-1" (start_job (stamp 2) "job-1" with_job).0).1
        ≡ ok (finished (stamp 3) with_job (started (stamp 2) with_job queued_one)))
    × (find (complete_job (stamp 3) "job-1" (start_job (stamp 2) "job-1" with_job).0).0.repo "job-1"
        ≡ some (finished (stamp 3) with_job (started (stamp 2) with_job queued_one)))
unfolding new_job
run_to_completion_example =
    run_to_completion (stamp 2) (stamp 3) with_job queued_one queued_stored refl job-Allowed
