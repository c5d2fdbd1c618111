-- ===== src/Jobs/Manager.antt =====
-- jobs.go: the Manager. Every repository of its interface has CreateJobWithAuditEvent and
-- TransitionJobWithAuditEvent, so persistJobCreate and persistJobTransition take their first branch.
use nexus_hunter_ai.Prelude.{
  ℕ, String, not, ◌||◌, Option, none, some, List, [], ◌∷◌, ◌++◌, ◌==◌, if◌then◌else◌, Result, ok,
  err,
}
use nexus_hunter_ai.Models.{Target, target_active}
use nexus_hunter_ai.Jobs.Values.{Value, Fields, no_fields, text, object, fields, deep_copy_map}
use nexus_hunter_ai.Jobs.Data.{
  ScanJob, Event, JobError, job_not_found, invalid_state, missing_target, missing_job_type,
  target_not_found, target_not_active, queued, running, completed, failed, cancelled, job_created,
  job_started, job_completed, job_failed, job_cancelled, deep_copy_scan_job,
}
use nexus_hunter_ai.Jobs.Repository.{create_job, get_job_by_id, list_jobs, transition_job}
use nexus_hunter_ai.Jobs.Exec.{Manager, Stamp, Exec, pure, raise, ignore, ◌>>=◌, ◌>>◌}

unfoldable pub check_target : Option Target → Exec (Unit {0})
check_target none = raise target_not_found
check_target (some t) = if t.status == target_active then pure tt else raise target_not_active

-- validateTargetActive
unfoldable pub validate_target_active : String → Exec (Unit {0})
unfolding check_target
validate_target_active target_id m = elim m.target_checker [
  | none ↦ pure tt m
  | some get_by_id ↦ check_target (get_by_id target_id) m
]

-- m.eventBus.Publish, whose error is logged or dropped
unfoldable pub publish : Event → Manager → Manager
publish event m = record m {
  bus = elim m.bus [ none ↦ none | some events ↦ some (events ++ event ∷ []) ];
}

unfoldable pub persist_job_create : ScanJob → Event → Exec (Unit {0})
unfolding publish
persist_job_create job event m = (publish event (record m { repo = create_job job m.repo }), ok tt)

unfoldable pub persist_job_transition : ScanJob → List String → Event → Exec (Unit {0})
unfolding publish
persist_job_transition job expected event m = elim (transition_job job expected m.repo) [
  | err e ↦ (m, err e)
  | ok jobs ↦ (publish event (record m { repo = jobs }), ok tt)
]

-- m.repo.GetJobByID, where any error becomes ErrJobNotFound
unfoldable pub fetch : String → Exec ScanJob
fetch id m = elim (get_job_by_id m.repo id) [
  | err e ↦ (m, err job_not_found)
  | ok job ↦ (m, ok job)
]

-- GetJob
unfoldable pub get_job : String → Manager → Result JobError ScanJob
get_job id m = elim (get_job_by_id m.repo id) [
  | err e ↦ err e
  | ok job ↦ ok (deep_copy_scan_job job)
]

-- The audit event of a transition; `extra` are the payload's last entries.
unfoldable pub transition_event :
    Stamp → String → ScanJob → String → String → List (String × Value) → Event
transition_event s event_type job prev_status new_state extra = record {
  event_id = s.event_id;
  event_type = event_type;
  job_id = job.id;
  target_id = job.target_id;
  timestamp = s.now;
  correlation_id = s.corr_id;
  previous_state = prev_status;
  new_state = new_state;
  created_at = s.now;
  payload = fields (
      ("job_id", text job.id)
      ∷ ("target_id", text job.target_id)
      ∷ ("timestamp", text s.now_text)
      ∷ ("correlation_id", text s.corr_id)
      ∷ ("previous_state", text prev_status)
      ∷ ("new_state", text new_state)
      ∷ extra);
}

-- a nil metadata map becomes an empty one
abbrev pub or_empty : Option Fields → Fields
or_empty none = no_fields
or_empty (some m) = m

-- the job that CreateJob enqueues
unfoldable pub new_job : Stamp → (job_id target_id job_type : String) → Option Fields → ScanJob
new_job s job_id target_id job_type metadata = record {
  id = job_id;
  target_id = target_id;
  type = job_type;
  status = queued;
  created_at = s.now;
  started_at = none;
  completed_at = none;
  error = "";
  metadata = deep_copy_map (some (or_empty metadata));
}

-- its audit event
unfoldable pub created_event : Stamp → ScanJob → Fields → Event
unfolding transition_event
created_event s job metadata = transition_event s job_created job "" queued (
    ("job_type", text job.type)
    ∷ ("metadata", object (or_empty (deep_copy_map (some metadata))))
    ∷ [])

-- CreateJob
unfoldable pub create_scan_job :
    Stamp → (job_id target_id job_type : String) → Option Fields → Exec ScanJob
unfolding new_job created_event
create_scan_job s job_id target_id job_type metadata =
    let job = new_job s job_id target_id job_type metadata in
    if target_id == ""
    then raise missing_target
    else if job_type == ""
    then raise missing_job_type
    else do
      validate_target_active target_id
      persist_job_create job (created_event s job (or_empty metadata))
      pure (deep_copy_scan_job job)

-- StartJob
unfoldable pub start_job : Stamp → String → Exec ScanJob
start_job s id = do
  job ← fetch id
  validate_target_active job.target_id
  let started = record job { status = running; started_at = some s.now }
  if job.status == running
      then pure (deep_copy_scan_job job)
      else if not (job.status == queued)
      then raise invalid_state
      else do
        persist_job_transition started (queued ∷ []) (
            transition_event s job_started job job.status running
              (("job_type", text job.type) ∷ []))
        pure (deep_copy_scan_job started)

-- CompleteJob
unfoldable pub complete_job : Stamp → String → Exec ScanJob
complete_job s id = do
  job ← fetch id
  validate_target_active job.target_id
  let done = record job { status = completed; completed_at = some s.now }
  if job.status == completed
      then pure (deep_copy_scan_job job)
      else if not (job.status == running)
      then raise invalid_state
      else do
        persist_job_transition done (running ∷ []) (
            transition_event s job_completed job job.status completed
              (("job_type", text job.type) ∷ []))
        pure (deep_copy_scan_job done)

-- FailJob
unfoldable pub fail_job : Stamp → String → String → Exec ScanJob
fail_job s id failure_reason = do
  job ← fetch id
  validate_target_active job.target_id
  let done = record job { status = failed; completed_at = some s.now; error = failure_reason }
  if job.status == failed
      then pure (deep_copy_scan_job job)
      else if not (job.status == running)
      then raise invalid_state
      else do
        persist_job_transition done (running ∷ []) (
            transition_event s job_failed job job.status failed
              (("job_type", text job.type) ∷ ("error", text failure_reason) ∷ []))
        pure (deep_copy_scan_job done)

-- CancelJob
unfoldable pub cancel_job : Stamp → String → Exec ScanJob
cancel_job s id = do
  job ← fetch id
  validate_target_active job.target_id
  let done = record job { status = cancelled; completed_at = some s.now }
  if job.status == cancelled
      then pure (deep_copy_scan_job job)
      else if job.status == completed || job.status == failed
      then raise invalid_state
      else do
        persist_job_transition done (queued ∷ running ∷ []) (
            transition_event s job_cancelled job job.status cancelled
              (("job_type", text job.type) ∷ []))
        pure (deep_copy_scan_job done)

abbrev pub deactivation_reason : String
deactivation_reason = "target deactivated or deleted: lifecycle violation fail-closed"

-- the job as the loop of HandleTargetDeactivated writes it
unfoldable pub deactivated : Stamp → ScanJob → ScanJob
deactivated s job = record job {
  status = cancelled;
  completed_at = some s.now;
  error = deactivation_reason;
}

-- one round of the loop of HandleTargetDeactivated; an error of the transition is dropped
unfoldable pub cancel_listed : Stamp → ScanJob → Exec (Unit {0})
unfolding deactivated
cancel_listed s job =
    if job.status == queued || job.status == running
    then ignore (
        persist_job_transition (deactivated s job) (queued ∷ running ∷ []) (
          transition_event s job_cancelled job job.status cancelled
            (("error", text deactivation_reason) ∷ [])))
    else pure tt

unfoldable pub cancel_all : (String → Stamp) → List ScanJob → Exec (Unit {0})
unfolding cancel_listed
cancel_all stamps [] = pure tt
cancel_all stamps (job ∷ jobs) = do cancel_listed (stamps job.id) job; cancel_all stamps jobs

-- the one time of the call, with the identifiers drawn in the round of a job
abbrev pub round : ℕ → String → (String → String × String) → String → Stamp
round now now_text ids id = record {
  now = now;
  now_text = now_text;
  corr_id = (ids id).0;
  event_id = (ids id).1;
}

-- HandleTargetDeactivated
unfoldable pub handle_target_deactivated :
    (now : ℕ) (now_text : String) → (String → String × String) → String → Exec (Unit {0})
unfolding cancel_all
handle_target_deactivated now now_text ids target_id m =
    cancel_all (round now now_text ids) (list_jobs m.repo target_id) m
