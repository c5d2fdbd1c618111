-- ===== src/Jobs/Progress.antt =====
-- jobs.go: the calls that run a stored job.
use nexus_hunter_ai.Prelude.{
  String, ◌≡◌, refl, ◌∙◌, ◌==◌, eq_refl, true, false, Option, none, some, [], ◌∷◌, arith, ok,
}
use nexus_hunter_ai.Prelude.Maps.{find, find-put}
use nexus_hunter_ai.Models.{Target, target_active}
use nexus_hunter_ai.Jobs.Values.{text}
use nexus_hunter_ai.Jobs.Data.{
  ScanJob, Event, job_started, job_completed, queued, running, completed, deep_copy_scan_job_lem,
}
use nexus_hunter_ai.Jobs.Repository.{get_job_by_id}
use nexus_hunter_ai.Jobs.Exec.{Manager, Stamp, ◌>>=◌, ◌>>◌}
use nexus_hunter_ai.Jobs.Manager.{
  fetch, check_target, validate_target_active, publish, start_job, complete_job, transition_event,
}
use nexus_hunter_ai.Jobs.Effects.{commit, persist_fits}

-- no checker, or one that knows the target as active
pub data Allowed (target_id : String) (m : Manager) : Type 0 where
  unchecked : m.target_checker ≡ none → Allowed target_id m
  active :
      {get : String → Option Target} {t : Target}
      → m.target_checker ≡ some get
      → get target_id ≡ some t
      → t.status ≡ target_active
      → Allowed target_id m

Allowed-validates :
    (id : String) (m : Manager) → Allowed id m → validate_target_active id m ≡ (m, ok tt)
unfolding validate_target_active check_target
Allowed-validates id m (unchecked e) = ground arith
Allowed-validates id m (active {t = t} e f g) = ground (arith, eq_refl t.status)

Allowed-commit :
    (id : String) (m : Manager) (job : ScanJob) (ev : Event)
    → Allowed id m
    → Allowed id (commit m job ev)
unfolding commit publish
Allowed-commit id m job ev (unchecked e) = unchecked e
Allowed-commit id m job ev (active e f g) = active e f g

commit-stores :
    (m : Manager) (job : ScanJob) (ev : Event) → find (commit m job ev).repo job.id ≡ some job
unfolding commit publish
commit-stores m job ev = find-put m.repo job.id job.id job ∙ rw (eq_refl job.id) refl

fetch-found :
    (m : Manager) (id : String) (job : ScanJob)
    → find m.repo id ≡ some job
    → fetch id m ≡ (m, ok job)
unfolding fetch get_job_by_id
fetch-found m id job h = rw (fetch, get_job_by_id, h, deep_copy_scan_job_lem job) refl

module _ (s : Stamp) (m : Manager) (job : ScanJob) where
  abbrev pub started : ScanJob
  started = record job { status = running; started_at = some s.now }

  abbrev start_event : Event
  start_event =
      transition_event s job_started job job.status running (("job_type", text job.type) ∷ [])

  start_job-queued :
      find m.repo job.id ≡ some job
      → job.status ≡ queued
      → validate_target_active job.target_id m ≡ (m, ok tt)
      → start_job s job.id m ≡ (commit m started start_event, ok started)
  unfolding start_job
  start_job-queued found e allowed =
      let not_running : (job.status == running) ≡ false = rw e refl in
      let is_queued : (job.status == queued) ≡ true = rw e refl in
      rw
        (
          start_job,
          fetch-found m job.id job found,
          allowed,
          not_running,
          is_queued,
          ◌>>=◌,
          ◌>>◌,
          persist_fits m started queued [] start_event found (rw e refl),
          deep_copy_scan_job_lem started,
        )
        refl

  abbrev pub finished : ScanJob
  finished = record job { status = completed; completed_at = some s.now }

  abbrev finish_event : Event
  finish_event =
      transition_event s job_completed job job.status completed (("job_type", text job.type) ∷ [])

  complete_job-running :
      find m.repo job.id ≡ some job
      → job.status ≡ running
      → validate_target_active job.target_id m ≡ (m, ok tt)
      → complete_job s job.id m ≡ (commit m finished finish_event, ok finished)
  unfolding complete_job
  complete_job-running found e allowed =
      let not_completed : (job.status == completed) ≡ false = rw e refl in
      let is_running : (job.status == running) ≡ true = rw e refl in
      rw
        (
          complete_job,
          fetch-found m job.id job found,
          allowed,
          not_completed,
          is_running,
          ◌>>=◌,
          ◌>>◌,
          persist_fits m finished running [] finish_event found (rw e refl),
          deep_copy_scan_job_lem finished,
        )
        refl

-- A stored job that is queued, and whose target is active where it is checked, is run to its end by
-- StartJob and then CompleteJob: both return the job without an error, and it is then stored as
-- COMPLETED, with the times of the two calls and otherwise as it was.
pub run_to_completion :
    (s s' : Stamp) (m : Manager) (job : ScanJob)
    → find m.repo job.id ≡ some job
    → job.status ≡ queued
    → Allowed job.target_id m
    → let m' = (start_job s job.id m).0 in
      let done = finished s' m (started s m job) in
      ((start_job s job.id m).1 ≡ ok (started s m job))
      × ((complete_job s' job.id m').1 ≡ ok done)
      × (find (complete_job s' job.id m').0.repo job.id ≡ some done)
run_to_completion s s' m job found e allowed =
    let first = start_job-queued s m job found e (Allowed-validates job.target_id m allowed) in
    let m' = commit m (started s m job) (start_event s m job) in
    let second =
      complete_job-running s' m' (started s m job)
        (commit-stores m (started s m job) (start_event s m job)) refl
        (Allowed-validates job.target_id m'
          (Allowed-commit job.target_id m (started s m job) (start_event s m job) allowed)) in
    rw (first, second)
      (
        refl,
        refl,
        commit-stores m' (finished s' m' (started s m job)) (finish_event s' m' (started s m job)),
      )
