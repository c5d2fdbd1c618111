-- ===== src/Storage/Jobs/Atomic.antt =====
-- memory.go: a job's transition and its audit event are stored together or not at all.
use nexus_hunter_ai.Prelude.{
  ℕ, String, ◌==◌, true, false, Option, some, List, Result, ok, err, ◌≡◌, refl, inl, inr, if-cases,
  Option-cases, Bool-cases, ◌||◌, any, eq_refl, ap, subst,
}
use nexus_hunter_ai.Prelude.Maps.{Map, find, put, find-put}
use nexus_hunter_ai.Jobs.Data.{
  ScanJob, Event, JobError, job_not_found, deep_copy_scan_job, deep_copy_scan_job_lem,
}
use nexus_hunter_ai.Jobs.Repository.{is_nil, transition_job}
use nexus_hunter_ai.Storage.Data.{MemoryStorage, StorageError, looked_up-ok, not_found}
use nexus_hunter_ai.Storage.Events.{has_event}
use nexus_hunter_ai.Storage.Events.Log.{recorded}
use nexus_hunter_ai.Storage.Jobs.{transition_job_with_audit_event, with_event}

-- the errors of the repository in jobs.go that this one returns under other names
abbrev pub as_job_error : StorageError → JobError
as_job_error not_found = job_not_found
as_job_error _ = JobError.job_state_conflict

-- the jobs of a result
abbrev pub jobs_of : Result StorageError MemoryStorage → Result JobError (Map ScanJob)
jobs_of (ok m) = ok m.jobs
jobs_of (err e) = err (as_job_error e)

-- Whatever event goes with it, a transition does to the jobs what the repository of the job manager
-- (jobs.go) does, its errors included.
pub transition-transition_job :
    (now : ℕ) (generated : String) (job : ScanJob) (expected : List String) (event : Option Event)
    (m : MemoryStorage)
    → jobs_of (transition_job_with_audit_event now generated job expected event m)
      ≡ transition_job job expected m.jobs
unfolding transition_job_with_audit_event transition_job
transition-transition_job now generated job expected event m =
    elim (Option-cases (find m.jobs job.id)) [
      | inl e ↦ rw (transition_job_with_audit_event, transition_job, e) refl
      | inr (curr, e) ↦
          elim (Bool-cases (any (λ s. curr.status == s) expected || is_nil expected)) [
            | inl b ↦ rw (transition_job_with_audit_event, transition_job, e, b) refl
            | inr b ↦ rw (transition_job_with_audit_event, transition_job, e, b) refl
          ]
    ]

-- A transition that succeeds found the job in an expected status, stores exactly the given job, and
-- leaves its event, if it has one with an identifier, in the log.
pub transition-stored :
    (now : ℕ) (generated : String) (job : ScanJob) (expected : List String) (event : Event)
    (m m' : MemoryStorage)
    → (event.event_id == "") ≡ false
    → transition_job_with_audit_event now generated job expected (some event) m ≡ ok m'
    → (curr : ScanJob) × (find m.jobs job.id ≡ some curr)
      × ((any (λ s. curr.status == s) expected || is_nil expected) ≡ true)
      × (find m'.jobs job.id ≡ some job)
      × (has_event event.event_id m'.events ≡ true)
unfolding transition_job_with_audit_event with_event
transition-stored now generated job expected event m m' named h =
    let (curr, there, h₁) = looked_up-ok (find m.jobs job.id) h in
    elim (if-cases (any (λ s. curr.status == s) expected || is_nil expected) h₁) [
      | inl (met, made) ↦
          let written : MemoryStorage = record m {
            jobs = put m.jobs job.id (deep_copy_scan_job job);
            events = with_event now generated (some event) m.events;
          } in
          let same : written ≡ m' = cc made in
          let after =
            subst
              (λ (x : MemoryStorage).
                (find x.jobs job.id ≡ some job) × (has_event event.event_id x.events ≡ true))
              same
              (
                rw (find-put, eq_refl job.id) (ap some (deep_copy_scan_job_lem job)),
                recorded now generated event m.events named,
              ) in
          (curr, there, met, after.0, after.1)
      | inr e ↦ absurd (cc (e.1))
    ]
