-- ===== src/Jobs/Data.antt =====
-- models.go: ScanJob, Event and their constants; jobs.go: the errors and deepCopyScanJob.
-- A time is a number of nanoseconds.
use nexus_hunter_ai.Prelude.{ℕ, String, Option, none, some, ◌≡◌, refl}
use nexus_hunter_ai.Jobs.Values.{Fields, deep_copy_map, deep_copy_map_lem}

-- models.JobStatus
abbrev pub queued : String
queued = "QUEUED"

abbrev pub running : String
running = "RUNNING"

abbrev pub completed : String
completed = "COMPLETED"

abbrev pub failed : String
failed = "FAILED"

abbrev pub cancelled : String
cancelled = "CANCELLED"

-- the event types of a job's lifecycle
abbrev pub job_created : String
job_created = "job.created"

abbrev pub job_started : String
job_started = "job.started"

abbrev pub job_completed : String
job_completed = "job.completed"

abbrev pub job_failed : String
job_failed = "job.failed"

abbrev pub job_cancelled : String
job_cancelled = "job.cancelled"

pub record ScanJob : Type 0 where
  pub id : String
  pub target_id : String
  pub type : String
  pub status : String
  pub created_at : ℕ
  pub started_at : Option ℕ
  pub completed_at : Option ℕ
  pub error : String
  pub metadata : Option Fields

pub record Event : Type 0 where
  pub event_id : String
  pub event_type : String
  pub job_id : String
  pub target_id : String
  pub timestamp : ℕ
  pub correlation_id : String
  pub previous_state : String
  pub new_state : String
  pub payload : Fields
  pub created_at : ℕ

pub data JobError : Type 0 where
  job_not_found job_state_conflict invalid_state missing_target missing_job_type : JobError
  target_not_found target_not_active : JobError

abbrev copy_time : Option ℕ → Option ℕ
copy_time none = none
copy_time (some t) = some t

unfoldable pub deep_copy_scan_job : ScanJob → ScanJob
unfolding deep_copy_map
deep_copy_scan_job job = record job {
  started_at = copy_time job.started_at;
  completed_at = copy_time job.completed_at;
  metadata = deep_copy_map job.metadata;
}

copy_time_lem : (t : Option ℕ) → copy_time t ≡ t
copy_time_lem none = refl
copy_time_lem (some t) = refl

-- The copy of a job equals the job.
pub deep_copy_scan_job_lem : (job : ScanJob) → deep_copy_scan_job job ≡ job
unfolding deep_copy_scan_job
deep_copy_scan_job_lem job =
    cc
      (copy_time_lem job.started_at, copy_time_lem job.completed_at, deep_copy_map_lem job.metadata)
