-- ===== src/Jobs/Lifecycle.antt =====
-- The lifecycle of a scan job as a state machine, and the manager's calls as its steps.
use nexus_hunter_ai.Prelude.{
  ℕ, String, ◌≡◌, refl, sym, ap, ◌∙◌, subst, ◌||◌, Bool, true, false, Option, none, some, List, [],
  ◌∷◌, ◌==◌, eq_iff, arith, if◌then◌else◌, inl, inr, Bool-cases,
}
use mathlib.Core.Option
use nexus_hunter_ai.Prelude.Maps.{find, find-put}
use nexus_hunter_ai.Models.{Target}
use nexus_hunter_ai.Jobs.Values.{Fields}
use nexus_hunter_ai.Jobs.Data.{ScanJob, Event, queued, running, completed, failed, cancelled}
use nexus_hunter_ai.Jobs.Repository.{list_jobs}
use nexus_hunter_ai.Jobs.Exec.{Manager, Stamp}
use nexus_hunter_ai.Jobs.Manager.{
  create_scan_job, start_job, complete_job, fail_job, cancel_job, cancel_listed, cancel_all,
  handle_target_deactivated, round,
}
use nexus_hunter_ai.Jobs.Effects.{
  ◌⟶◌, start, complete, fail, cancel, Effect, idle, enqueued, moved, commit,
}
use nexus_hunter_ai.Jobs.Effects.Calls.{
  create_scan_job-Effect, start_job-Effect, complete_job-Effect, fail_job-Effect, cancel_job-Effect,
  cancel_listed-Effect,
}

-- the calls of JobService that write
pub data Call : Type 0 where
  create : Stamp → (job_id target_id job_type : String) → Option Fields → Call
  start_it complete_it cancel_it : Stamp → String → Call
  fail_it : Stamp → (id failure_reason : String) → Call
  deactivate :
      (now : ℕ) (now_text : String) → (String → String × String) → (target_id : String) → Call

unfoldable pub perform : Call → Manager → Manager
perform (create s job_id target_id job_type metadata) m =
    (create_scan_job s job_id target_id job_type metadata m).0
perform (start_it s id) m = (start_job s id m).0
perform (complete_it s id) m = (complete_job s id m).0
perform (cancel_it s id) m = (cancel_job s id m).0
perform (fail_it s id reason) m = (fail_job s id reason m).0
perform (deactivate now now_text ids target_id) m =
    (handle_target_deactivated now now_text ids target_id m).0

-- events.GenerateID has drawn an identifier that is not in use
abbrev pub IsFresh : Call → Manager → Type 0
IsFresh (create s job_id target_id job_type metadata) m = find m.repo job_id ≡ none
IsFresh _ m = Unit

-- The managers that calls lead to, at whatever times. Before a call, the repository of targets that the
-- manager asks may have changed.
pub data Reach (m : Manager) : Manager → Type 0 where
  here : Reach m m
  after :
      {m' m'' : Manager} → Reach m m' → (c : Call) → IsFresh c m' → m'' ≡ perform c m' → Reach m m''
  retargeted :
      {m' m'' : Manager}
      → Reach m m'
      → (checker : Option (String → Option Target)) → m'' ≡ record m' { target_checker = checker }
      → Reach m m''

-- the status that is stored under an identifier
unfoldable pub status_of : Manager → String → Option String
status_of m id = Option.map (λ (j : ScanJob). j.status) (find m.repo id)

-- how what is stored under one identifier may change: along the edges of the lifecycle
infix 40 ◌⟶*◌
pub data ◌⟶*◌ (o : Option String) : Option String → Type 0 where
  same : o ⟶* o
  new : {p p' : Option String} → o ⟶* p → p ≡ none → p' ≡ some queued → o ⟶* p'
  edge : {p p' : Option String} {a b : String} → o ⟶* p → p ≡ some a → a ⟶ b → p' ≡ some b → o ⟶* p'

⟶*-trans : {o p q : Option String} → o ⟶* p → p ⟶* q → o ⟶* q
⟶*-trans r same = r
⟶*-trans r (new s e f) = new (⟶*-trans r s) e f
⟶*-trans r (edge s e h f) = edge (⟶*-trans r s) e h f

commit-status :
    (m : Manager) (job : ScanJob) (ev : Event) (id : String)
    → status_of (commit m job ev) id ≡ (if job.id == id then some job.status else status_of m id)
unfolding status_of commit
commit-status m job ev id = rw find-put (ground arith)

status_of-find :
    (m : Manager) (k id : String) (o : Option ScanJob)
    → find m.repo k ≡ o
    → k ≡ id
    → status_of m id ≡ Option.map (λ (j : ScanJob). j.status) o
unfolding status_of
status_of-find m k id o found e = rw (← e, found)

module _ (m m' : Manager) (id : String) (job : ScanJob) (ev : Event)
    (e : m' ≡ commit m job ev) where
  written : {p : Option String} → job.id == id ≡ true → p ≡ some job.status → status_of m' id ≡ p
  written h f = rw (e, f) (commit-status m job ev id ∙ rw h)

  elsewhere : job.id == id ≡ false → status_of m id ⟶* status_of m' id
  elsewhere h =
      subst (λ o. status_of m id ⟶* o) (sym (rw e (commit-status m job ev id ∙ rw h))) same

module _ {t : ℕ} (m m' : Manager) (id : String) where
  pub Effect-⟶* : Effect t m m' → status_of m id ⟶* status_of m' id
  Effect-⟶* (idle e) = rw e same
  Effect-⟶* (enqueued job ev fresh says e) = elim (Bool-cases (job.id == id)) [
    | inl h ↦
        new same (status_of-find m job.id id none fresh ((eq_iff job.id id).0 h))
          (written m m' id job ev e h (ap some (sym says.status)))
    | inr h ↦ elsewhere m m' id job ev e h
  ]
  Effect-⟶* (moved curr job ev found says e) = elim (Bool-cases (job.id == id)) [
    | inl h ↦
        edge same (status_of-find m job.id id (some curr) found ((eq_iff job.id id).0 h)) says.edge
          (written m m' id job ev e h refl)
    | inr h ↦ elsewhere m m' id job ev e h
  ]

-- a round returns no error, so the loop goes on
pub cancel_all_cons :
    (stamps : String → Stamp) (job : ScanJob) (jobs : List ScanJob) (m : Manager)
    → (cancel_all stamps (job ∷ jobs) m).0
      ≡ (cancel_all stamps jobs (cancel_listed (stamps job.id) job m).0).0
unfolding cancel_all cancel_listed
cancel_all_cons stamps job jobs m =
    elim (Bool-cases (job.status == queued || job.status == running)) [
      | inl h ↦ rw h
      | inr h ↦ rw h
    ]

cancel_all-⟶* :
    (stamps : String → Stamp) (jobs : List ScanJob) (m : Manager) (id : String)
    → status_of m id ⟶* status_of (cancel_all stamps jobs m).0 id
unfolding cancel_all
cancel_all-⟶* stamps [] m id = same
cancel_all-⟶* stamps (job ∷ jobs) m id =
    ⟶*-trans (Effect-⟶* m _ id (cancel_listed-Effect (stamps job.id) job m)) (
      subst (λ m'. status_of (cancel_listed (stamps job.id) job m).0 id ⟶* status_of m' id)
        (sym (cancel_all_cons stamps job jobs m))
        (cancel_all-⟶* stamps jobs (cancel_listed (stamps job.id) job m).0 id))

-- Whatever the call, and whether it fails or not, what is stored under an identifier changes only
-- along the edges of the lifecycle, and a new job starts in QUEUED.
perform-⟶* :
    (c : Call) (m : Manager) (id : String)
    → IsFresh c m
    → status_of m id ⟶* status_of (perform c m) id
unfolding perform handle_target_deactivated
perform-⟶* (create s k target_id job_type metadata) m id fresh =
    Effect-⟶* m _ id (create_scan_job-Effect s k target_id job_type metadata m fresh)
perform-⟶* (start_it s k) m id _ = Effect-⟶* m _ id (start_job-Effect s k m)
perform-⟶* (complete_it s k) m id _ = Effect-⟶* m _ id (complete_job-Effect s k m)
perform-⟶* (cancel_it s k) m id _ = Effect-⟶* m _ id (cancel_job-Effect s k m)
perform-⟶* (fail_it s k reason) m id _ = Effect-⟶* m _ id (fail_job-Effect s k m reason)
perform-⟶* (deactivate now now_text ids target_id) m id _ =
    cancel_all-⟶* (round now now_text ids) (list_jobs m.repo target_id) m id

-- Any calls, at whatever times and whatever the repository of targets answers in each of them, in
-- which a new job gets an identifier that is not in use, change the status stored under an identifier
-- along the edges of the lifecycle only, a new job's from none to QUEUED.
pub reach-⟶* : {m m' : Manager} (id : String) → Reach m m' → status_of m id ⟶* status_of m' id
unfolding status_of
reach-⟶* id here = same
reach-⟶* {m} id (after {m' = n} r c fresh e) =
    ⟶*-trans (reach-⟶* id r) (
      subst (λ o. status_of n id ⟶* o) (ap (λ x. status_of x id) (sym e)) (perform-⟶* c n id fresh))
reach-⟶* {m} id (retargeted r checker e) =
    subst (λ o. status_of m id ⟶* o) (ap (λ x. status_of x id) (sym e)) (reach-⟶* id r)

abbrev pub is_terminal : String → Bool
is_terminal s = s == completed || s == failed || s == cancelled

⟶-not-terminal : {a b : String} → a ⟶ b → is_terminal a ≡ true → ⊥
⟶-not-terminal (start e f) h = cc (rw e at h)
⟶-not-terminal (complete e f) h = cc (rw e at h)
⟶-not-terminal (fail e f) h = cc (rw e at h)
⟶-not-terminal (cancel (inl e) f) h = cc (rw e at h)
⟶-not-terminal (cancel (inr e) f) h = cc (rw e at h)

⟶*-terminal :
    {o p : Option String} {s : String} → o ⟶* p → o ≡ some s → is_terminal s ≡ true → p ≡ some s
⟶*-terminal same e h = e
⟶*-terminal (new r e f) g h = cc (⟶*-terminal r g h)
⟶*-terminal {s} (edge {a = a} r e f k) g h =
    let same_status : a ≡ s = cc (⟶*-terminal r g h) in absurd (⟶-not-terminal f (rw same_status h))

-- A job that is completed, failed or cancelled stays so after any calls, at whatever times and whatever
-- the repository of targets answers in each of them, in which a new job gets an identifier that is not
-- in use.
pub terminal_absorbs :
    {m m' : Manager} (id s : String)
    → Reach m m'
    → is_terminal s ≡ true
    → status_of m id ≡ some s
    → status_of m' id ≡ some s
terminal_absorbs id s r h e = ⟶*-terminal (reach-⟶* id r) e h
