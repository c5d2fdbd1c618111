-- ===== src/Jobs/Effects/Calls.antt =====
-- Each call of the manager is one effect.
use nexus_hunter_ai.Prelude.{
  String, ◌≡◌, refl, false, not, ◌||◌, Option, none, List, [], ◌∷◌, ◌==◌, eq_iff, arith, inl, inr,
  Bool-cases,
}
use nexus_hunter_ai.Prelude.Maps.{find}
use nexus_hunter_ai.Jobs.Values.{Value, text, Fields}
use nexus_hunter_ai.Jobs.Data.{
  ScanJob, queued, running, completed, failed, cancelled, job_started, job_completed, job_failed,
  job_cancelled, deep_copy_scan_job_lem,
}
use nexus_hunter_ai.Jobs.Repository.{create_job}
use nexus_hunter_ai.Jobs.Exec.{Manager, Stamp, Exec, ◌>>=◌, ◌>>◌}
use nexus_hunter_ai.Jobs.Manager.{
  create_scan_job, new_job, created_event, or_empty, start_job, complete_job, fail_job, cancel_job,
  cancel_listed, validate_target_active, persist_job_create, fetch, transition_event, deactivated,
  deactivation_reason,
}
use nexus_hunter_ai.Jobs.Audit.{audit_event}
use nexus_hunter_ai.Jobs.Effects.{
  start, complete, fail, cancel, Effect, Tells, persist-Written, Written, untouched, Written-Effect,
  Effect-read, Effect-if, Effect-move, fetch-reads, validate-reads, commit,
}

-- What each call writes to the bus is what the audit accepts.
module _ (s : Stamp) (job new : ScanJob) (extra : List (String × Value)) where
  Tells-start :
      new.status ≡ running
      → not (job.status == queued) ≡ false
      → Tells (queued ∷ []) new (transition_event s job_started job job.status running extra)
  unfolding Tells transition_event audit_event
  Tells-start e h c k =
      (start (ground (arith, eq_iff c queued)) e, λ i. ground (arith, eq_iff c queued))

  Tells-complete :
      new.status ≡ completed
      → not (job.status == running) ≡ false
      → Tells (running ∷ []) new (transition_event s job_completed job job.status completed extra)
  unfolding Tells transition_event audit_event
  Tells-complete e h c k =
      (complete (ground (arith, eq_iff c running)) e, λ i. ground (arith, eq_iff c running))

  Tells-fail :
      new.status ≡ failed
      → not (job.status == running) ≡ false
      → Tells (running ∷ []) new (transition_event s job_failed job job.status failed extra)
  unfolding Tells transition_event audit_event
  Tells-fail e h c k =
      (fail (ground (arith, eq_iff c running)) e, λ i. ground (arith, eq_iff c running))

  Tells-cancel :
      new.status ≡ cancelled
      → Tells
          (queued ∷ running ∷ [])
          new
          (transition_event s job_cancelled job job.status cancelled extra)
  unfolding Tells transition_event audit_event
  Tells-cancel e c k = (
    cancel (ground (arith, eq_iff c queued, eq_iff c running)) e,
    λ i. ground (arith, eq_iff c queued, eq_iff c running),
  )

-- the payload's last entry in most events
abbrev kind : ScanJob → List (String × Value)
kind job = ("job_type", text job.type) ∷ []

module _ (s : Stamp) (id : String) (m : Manager) where
  -- the common beginning: the job is read and its target is checked
  Effect-on :
      (g : ScanJob → Exec ScanJob)
      → ((job : ScanJob) → Effect s.now m (g job m).0)
      → Effect s.now m ((fetch id >>= λ job. (validate_target_active job.target_id >> g job)) m).0
  Effect-on g rest = Effect-read s.now m (fetch id) _ (fetch-reads id m) λ job.
      Effect-read s.now m (validate_target_active job.target_id) (λ _. g job) (validate-reads _ m)
        λ _. rest job

  pub start_job-Effect : Effect s.now m (start_job s id m).0
  unfolding start_job transition_event
  start_job-Effect =
      Effect-on _
        λ job. Effect-move s.now m _ _ _ _ _ _ _ _ refl refl (Tells-start s job _ (kind job) refl)

  pub complete_job-Effect : Effect s.now m (complete_job s id m).0
  unfolding complete_job transition_event
  complete_job-Effect =
      Effect-on _ λ job.
        Effect-move s.now m _ _ _ _ _ _ _ _ refl refl (Tells-complete s job _ (kind job) refl)

  pub fail_job-Effect : (reason : String) → Effect s.now m (fail_job s id reason m).0
  unfolding fail_job transition_event
  fail_job-Effect reason = Effect-on _ λ job.
      Effect-move s.now m _ _ _ _ _ _ _ _ refl refl
        (Tells-fail s job _ (("job_type", text job.type) ∷ ("error", text reason) ∷ []) refl)

  pub cancel_job-Effect : Effect s.now m (cancel_job s id m).0
  unfolding cancel_job transition_event
  cancel_job-Effect = Effect-on _ λ job.
      Effect-move s.now m _ _ _ _ _ _ _ _ refl refl (λ _. Tells-cancel s job _ (kind job) refl)

pub cancel_listed-Written :
    (s : Stamp) (job : ScanJob) (m : Manager)
    → Written s.now (deactivated s job) m (cancel_listed s job m).0
unfolding cancel_listed transition_event deactivated
cancel_listed-Written s job m = elim (Bool-cases (job.status == queued || job.status == running)) [
  | inl active ↦ rw active (
      persist-Written s.now m (deactivated s job) _ _ _ refl refl
        (Tells-cancel s job _ (("error", text deactivation_reason) ∷ []) refl))
  | inr done ↦ rw done (untouched refl)
]

pub cancel_listed-Effect :
    (s : Stamp) (job : ScanJob) (m : Manager) → Effect s.now m (cancel_listed s job m).0
cancel_listed-Effect s job m = Written-Effect s.now m (cancel_listed-Written s job m)

-- CreateJob under an identifier that is not in use
pub create_scan_job-Effect :
    (s : Stamp) (job_id target_id job_type : String) (metadata : Option Fields) (m : Manager)
    → find m.repo job_id ≡ none
    → Effect s.now m (create_scan_job s job_id target_id job_type metadata m).0
unfolding create_scan_job transition_event audit_event new_job persist_job_create create_job commit
create_scan_job-Effect s job_id target_id job_type metadata m fresh =
    Effect-if s.now m (target_id == "") _ _ (λ _. Effect.idle refl)
      λ _.
        Effect-if s.now m (job_type == "") _ _ (λ _. Effect.idle refl)
          λ _.
            Effect-read s.now m (validate_target_active target_id) _ (validate-reads target_id m)
              λ _.
                let job = new_job s job_id target_id job_type metadata in
                Effect.enqueued job (created_event s job (or_empty metadata)) fresh
                  (record { job_id = refl; timestamp = refl; status = refl; heard = refl })
                  (rw deep_copy_scan_job_lem)
