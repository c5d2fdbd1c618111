-- ===== src/Jobs/Repository.antt =====
-- jobs.go: MemoryJobRepository.
use nexus_hunter_ai.Prelude.{
  String, Bool, true, false, ◌||◌, Option, none, some, List, [], ◌∷◌, map, ◌==◌, nat_eq, ltb,
  if◌then◌else◌, any, filter, Result, ok, err,
}
use nexus_hunter_ai.Prelude.Maps.{Map, find, put, delete, values}
use nexus_hunter_ai.Prelude.Sorts.{sort_by}
use nexus_hunter_ai.Prelude.Texts.{Text, codes}
use nexus_hunter_ai.Jobs.Data.{
  ScanJob, Event, JobError, job_not_found, job_state_conflict, deep_copy_scan_job,
}

-- `<` on Go strings: byte by byte
unfoldable pub bytes_less : Text → Text → Bool
bytes_less s [] = false
bytes_less [] (b ∷ t) = true
bytes_less (a ∷ s) (b ∷ t) = if ltb a b then true else if nat_eq a b then bytes_less s t else false

unfoldable pub string_less : String → String → Bool
unfolding bytes_less
string_less s t = bytes_less (codes s) (codes t)

unfoldable pub create_job : ScanJob → Map ScanJob → Map ScanJob
create_job job jobs = put jobs job.id (deep_copy_scan_job job)

unfoldable pub get_job_by_id : Map ScanJob → String → Result JobError ScanJob
get_job_by_id jobs id = elim (find jobs id) [
  | none ↦ err job_not_found
  | some j ↦ ok (deep_copy_scan_job j)
]

-- the comparator of ListJobs: created_at DESC, then id DESC
unfoldable pub listed_before : ScanJob → ScanJob → Bool
unfolding string_less
listed_before a b =
    if nat_eq a.created_at b.created_at
    then string_less b.id a.id
    else ltb b.created_at a.created_at

unfoldable pub list_jobs : Map ScanJob → String → List ScanJob
unfolding listed_before sort_by
list_jobs jobs target_id = sort_by listed_before (
    map deep_copy_scan_job
      (filter (λ j. target_id == "" || j.target_id == target_id) (values jobs)))

-- TransitionJobWithAuditEvent: an update guarded by the statuses expected of the stored job. The
-- event goes to the caller's bus; this repository does not keep it.
abbrev pub is_nil : List String → Bool
is_nil [] = true
is_nil (s ∷ ss) = false

unfoldable pub transition_job : ScanJob → List String → Map ScanJob → Result JobError (Map ScanJob)
transition_job job expected jobs = elim (find jobs job.id) [
  | none ↦ err job_not_found
  | some curr ↦
      if any (λ s. curr.status == s) expected || is_nil expected
      then ok (put jobs job.id (deep_copy_scan_job job))
      else err job_state_conflict
]

-- UpdateJob: a transition that expects nothing
unfoldable pub update_job : ScanJob → Map ScanJob → Result JobError (Map ScanJob)
unfolding transition_job
update_job job jobs = transition_job job [] jobs

-- UpdateJobWithAuditEvent: the expected status is the event's previous state, if it names one
abbrev pub expected_of : Option Event → List String
expected_of none = []
expected_of (some e) = if e.previous_state == "" then [] else e.previous_state ∷ []

unfoldable pub update_job_with_audit_event :
    ScanJob → Option Event → Map ScanJob → Result JobError (Map ScanJob)
unfolding transition_job
update_job_with_audit_event job event jobs = transition_job job (expected_of event) jobs

unfoldable pub delete_job : String → Map ScanJob → Result JobError (Map ScanJob)
delete_job id jobs = elim (find jobs id) [ none ↦ err job_not_found | some j ↦ ok (delete jobs id) ]
