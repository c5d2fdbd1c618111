-- ===== src/Jobs/Effects.antt =====
-- What one call of the manager does: nothing, one new job, or one edge of the lifecycle, each with
-- the event that goes to the bus.
pub mod Calls
use nexus_hunter_ai.Prelude.{
  ℕ, String, ◌≡◌, refl, ap, Bool, true, false, not, ◌||◌, Option, none, some, List, [], ◌∷◌, ◌==◌,
  eq_iff, arith, if◌then◌else◌, any, Result, ok, err, ◌⊎◌, inl, inr, Bool-cases, Option-cases,
}
use nexus_hunter_ai.Prelude.Maps.{find, put}
use nexus_hunter_ai.Models.{Target}
use nexus_hunter_ai.Jobs.Values.{Value, text, Fields}
use nexus_hunter_ai.Jobs.Data.{
  ScanJob, Event, JobError, job_not_found, job_state_conflict, queued, running, completed, failed,
  cancelled, job_created, job_started, job_completed, job_failed, job_cancelled, deep_copy_scan_job,
  deep_copy_scan_job_lem,
}
use nexus_hunter_ai.Jobs.Repository.{create_job, get_job_by_id, transition_job, list_jobs}
use nexus_hunter_ai.Jobs.Exec.{Manager, Stamp, Exec, ◌>>=◌, ◌>>◌, pure, raise, continue}
use nexus_hunter_ai.Jobs.Manager.{
  create_scan_job, new_job, created_event, or_empty, start_job, complete_job, fail_job, cancel_job,
  cancel_listed, cancel_all, handle_target_deactivated, validate_target_active, publish,
  persist_job_create, persist_job_transition, fetch, transition_event, check_target,
  deactivation_reason,
}
use nexus_hunter_ai.Jobs.Audit.{audit_event}

-- the edges of the lifecycle
infix 40 ◌⟶◌
pub data ◌⟶◌ (a b : String) : Type 0 where
  start : a ≡ queued → b ≡ running → a ⟶ b
  complete : a ≡ running → b ≡ completed → a ⟶ b
  fail : a ≡ running → b ≡ failed → a ⟶ b
  cancel : (a ≡ queued) ⊎ (a ≡ running) → b ≡ cancelled → a ⟶ b

-- a job is written, and its event handed to the bus
unfoldable pub commit : Manager → ScanJob → Event → Manager
unfolding publish
commit m job ev = publish ev (record m { repo = put m.repo job.id job })

-- the event tells of the new job
pub record Enqueues (t : ℕ) (job : ScanJob) (ev : Event) : Type 0 where
  pub job_id : ev.job_id ≡ job.id
  pub timestamp : ev.timestamp ≡ t
  pub status : job.status ≡ queued
  pub heard : audit_event 0 "" ev ≡ ok queued

-- the event tells of the edge from `a` to the job's status, and the audit accepts it there
pub record Announces (t : ℕ) (a : String) (job : ScanJob) (ev : Event) : Type 0 where
  pub job_id : ev.job_id ≡ job.id
  pub timestamp : ev.timestamp ≡ t
  pub edge : a ⟶ job.status
  pub heard : (i : ℕ) → audit_event i a ev ≡ ok job.status

pub data Effect (t : ℕ) (m m' : Manager) : Type 0 where
  idle : m' ≡ m → Effect t m m'
  enqueued :
      (job : ScanJob) (ev : Event)
      → find m.repo job.id ≡ none
      → Enqueues t job ev
      → m' ≡ commit m job ev
      → Effect t m m'
  moved :
      (curr job : ScanJob) (ev : Event)
      → find m.repo job.id ≡ some curr
      → Announces t curr.status job ev
      → m' ≡ commit m job ev
      → Effect t m m'

-- an effect that writes this job, if any
pub data Written (t : ℕ) (job : ScanJob) (m m' : Manager) : Type 0 where
  untouched : m' ≡ m → Written t job m m'
  wrote :
      (curr : ScanJob) (ev : Event)
      → find m.repo job.id ≡ some curr
      → Announces t curr.status job ev
      → m' ≡ commit m job ev
      → Written t job m m'

-- What is expected of the stored status makes the event tell the truth.
unfoldable pub Tells : List String → ScanJob → Event → Type 0
Tells expected job ev =
    (c : String)
    → any (λ s. c == s) expected ≡ true
    → (c ⟶ job.status) × ((i : ℕ) → audit_event i c ev ≡ ok job.status)

-- the three outcomes of a guarded write
module _ (m : Manager) (job : ScanJob) (e : String) (expected : List String) (ev : Event) where
  abbrev persisted : Manager × Result JobError (Unit {0})
  persisted = persist_job_transition job (e ∷ expected) ev m

  pub persist_missing : find m.repo job.id ≡ none → persisted ≡ (m, err job_not_found)
  unfolding persist_job_transition transition_job
  persist_missing h = ground arith

  pub persist_conflict :
      {curr : ScanJob}
      → find m.repo job.id ≡ some curr
      → any (λ s. curr.status == s) (e ∷ expected) ≡ false
      → persisted ≡ (m, err job_state_conflict)
  unfolding persist_job_transition transition_job
  persist_conflict h k = ground arith

  pub persist_fits :
      {curr : ScanJob}
      → find m.repo job.id ≡ some curr
      → any (λ s. curr.status == s) (e ∷ expected) ≡ true
      → persisted ≡ (commit m job ev, ok tt)
  unfolding persist_job_transition transition_job commit
  persist_fits h k = ground (arith, deep_copy_scan_job_lem job)

continue-pure :
    {A B : Type 0} (b : B) (m : Manager) (r : Result JobError A)
    → (continue r (λ _. pure b) m).0 ≡ m
continue-pure b m (ok a) = refl
continue-pure b m (err e) = refl

module _ (t : ℕ) (m : Manager) where
  Effect-of_eq : {m' m'' : Manager} → m'' ≡ m' → Effect t m m' → Effect t m m''
  Effect-of_eq e h = rw e h

  pub persist-Written :
      (job : ScanJob) (e : String) (expected : List String) (ev : Event)
      → ev.job_id ≡ job.id
      → ev.timestamp ≡ t
      → Tells (e ∷ expected) job ev
      → Written t job m (persist_job_transition job (e ∷ expected) ev m).0
  unfolding Tells
  persist-Written job e expected ev same_id same_time tells =
      elim (Option-cases (find m.repo job.id)) [
        | inl missing ↦ untouched (ap (λ r. r.0) (persist_missing m job e expected ev missing))
        | inr (curr, found) ↦ elim (Bool-cases (any (λ s. curr.status == s) (e ∷ expected))) [
          | inl fits ↦
              wrote curr ev found
                (record {
                  job_id = same_id;
                  timestamp = same_time;
                  edge = (tells curr.status fits).0;
                  heard = (tells curr.status fits).1;
                })
                (ap (λ r. r.0) (persist_fits m job e expected ev found fits))
          | inr conflict ↦
              untouched (ap (λ r. r.0) (persist_conflict m job e expected ev found conflict))
        ]
      ]

  pub Written-Effect : {job : ScanJob} {m' : Manager} → Written t job m m' → Effect t m m'
  Written-Effect (untouched e) = idle e
  Written-Effect {job} (wrote curr ev found says e) = moved curr job ev found says e

  Effect-continue :
      {A B : Type 0} (g : A → Exec B) (m' : Manager) (r : Result JobError A)
      → m' ≡ m
      → ((a : A) → Effect t m (g a m).0)
      → Effect t m (continue r g m').0
  Effect-continue g m' (ok a) e rest = rw e (rest a)
  Effect-continue g m' (err x) e rest = Effect.idle e

  -- a step that only reads
  pub Effect-read :
      {A B : Type 0} (f : Exec A) (g : A → Exec B)
      → (f m).0 ≡ m
      → ((a : A) → Effect t m (g a m).0)
      → Effect t m ((f >>= g) m).0
  Effect-read f g reads rest = Effect-continue g (f m).0 (f m).1 reads rest

  -- the last step's value is another
  pub Effect-return :
      {A B : Type 0} (f : Exec A) (b : B)
      → Effect t m (f m).0
      → Effect t m ((f >>= λ _. pure b) m).0
  Effect-return f b h = Effect-of_eq (continue-pure b (f m).0 (f m).1) h

  pub Effect-if :
      {A : Type 0} (b : Bool) (f g : Exec A)
      → (b ≡ true → Effect t m (f m).0)
      → (b ≡ false → Effect t m (g m).0)
      → Effect t m ((if b then f else g) m).0
  Effect-if true f g yes_case no_case = yes_case refl
  Effect-if false f g yes_case no_case = no_case refl

  -- the end of StartJob, CompleteJob, FailJob and CancelJob
  pub Effect-move :
      (already bad : Bool) (old new : ScanJob) (x : JobError) (e : String) (expected : List String)
      (ev : Event)
      → ev.job_id ≡ new.id
      → ev.timestamp ≡ t
      → (bad ≡ false → Tells (e ∷ expected) new ev)
      → Effect t m
          ((if already
              then pure old
              else if bad
              then raise x
              else (persist_job_transition new (e ∷ expected) ev >> pure (deep_copy_scan_job new)))
            m).0
  Effect-move already bad old new x e expected ev same_id same_time tells =
      Effect-if already _ _ (λ _. Effect.idle refl)
        λ _.
          Effect-if bad _ _ (λ _. Effect.idle refl)
            λ good.
              Effect-return (persist_job_transition new (e ∷ expected) ev) (deep_copy_scan_job new)
                (Written-Effect (persist-Written new e expected ev same_id same_time (tells good)))

pub fetch-reads : (id : String) (m : Manager) → (fetch id m).0 ≡ m
unfolding fetch
fetch-reads id m = ground arith

check_target-reads : (t : Option Target) (m : Manager) → (check_target t m).0 ≡ m
unfolding check_target
check_target-reads none m = refl
check_target-reads (some t) m = ground arith

pub validate-reads : (id : String) (m : Manager) → (validate_target_active id m).0 ≡ m
unfolding validate_target_active
validate-reads id m = ground (arith)
