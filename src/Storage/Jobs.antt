-- ===== src/Storage/Jobs.antt =====
-- memory.go: the job repository, in which a transition and its audit event are one step.
pub mod Atomic
use nexus_hunter_ai.Prelude.{
  ℕ, String, ◌==◌, Bool, true, false, ◌||◌, Option, none, some, List, [], ◌∷◌, any, filter, map,
  Result, ok, err, if◌then◌else◌,
}
use nexus_hunter_ai.Prelude.Maps.{find, put, delete, values}
use nexus_hunter_ai.Prelude.Sorts.{sort_by}
use nexus_hunter_ai.Jobs.Data.{ScanJob, Event, deep_copy_scan_job}
use nexus_hunter_ai.Jobs.Repository.{expected_of, is_nil, listed_before}
use nexus_hunter_ai.Storage.Data.{MemoryStorage, StorageError, looked_up, job_state_conflict}
use nexus_hunter_ai.Storage.Events.{record_event_locked}

-- `if event != nil { m.recordEventLocked(event) }`
unfoldable pub with_event : (now : ℕ) (generated : String) → Option Event → List Event → List Event
unfolding record_event_locked
with_event now generated none events = events
with_event now generated (some e) events = record_event_locked now generated e events

unfoldable pub create_job : ScanJob → MemoryStorage → MemoryStorage
create_job job m = record m { jobs = put m.jobs job.id (deep_copy_scan_job job) }

unfoldable pub get_job_by_id : String → MemoryStorage → Result StorageError ScanJob
get_job_by_id id m = looked_up (find m.jobs id) λ j. ok (deep_copy_scan_job j)

unfoldable pub list_jobs : (target_id : String) → MemoryStorage → List ScanJob
unfolding listed_before sort_by
list_jobs target_id m = sort_by listed_before (
    map deep_copy_scan_job
      (filter (λ j. target_id == "" || j.target_id == target_id) (values m.jobs)))

-- TransitionJobWithAuditEvent
unfoldable pub transition_job_with_audit_event :
    (now : ℕ) (generated : String)
    → ScanJob
    → (expected : List String) → Option Event
    → MemoryStorage
    → Result StorageError MemoryStorage
unfolding with_event
transition_job_with_audit_event now generated job expected event m =
    looked_up (find m.jobs job.id) λ curr.
      if any (λ s. curr.status == s) expected || is_nil expected
      then ok (record m {
        jobs = put m.jobs job.id (deep_copy_scan_job job);
        events = with_event now generated event m.events;
      })
      else err job_state_conflict

-- UpdateJob
unfoldable pub update_job : ScanJob → MemoryStorage → Result StorageError MemoryStorage
unfolding transition_job_with_audit_event
update_job job m = transition_job_with_audit_event 0 "" job [] none m

unfoldable pub delete_job : String → MemoryStorage → Result StorageError MemoryStorage
delete_job id m = looked_up (find m.jobs id) λ j. ok (record m { jobs = delete m.jobs id })

-- CreateJobWithAuditEvent
unfoldable pub create_job_with_audit_event :
    (now : ℕ) (generated : String) → ScanJob → Option Event → MemoryStorage → MemoryStorage
unfolding with_event
create_job_with_audit_event now generated job event m = record m {
  jobs = put m.jobs job.id (deep_copy_scan_job job);
  events = with_event now generated event m.events;
}

-- UpdateJobWithAuditEvent
unfoldable pub update_job_with_audit_event :
    (now : ℕ) (generated : String)
    → ScanJob
    → Option Event
    → MemoryStorage
    → Result StorageError MemoryStorage
unfolding transition_job_with_audit_event
update_job_with_audit_event now generated job event m =
    transition_job_with_audit_event now generated job (expected_of event) event m
