-- ===== src/Jobs/Deactivation.antt =====
-- HandleTargetDeactivated leaves the target no active job.
use nexus_hunter_ai.Prelude.{
  ℕ, String, ◌≡◌, refl, sym, ap, subst, Bool, true, false, ◌||◌, Option, none, some, List, [], ◌∷◌,
  map, ◌==◌, eq_iff, eq_refl, arith, inl, inr, Bool-cases, Option-cases, filter, Has, Has-filter,
  any, Result,
}
use nexus_hunter_ai.Prelude.Maps.{Map, find, values}
use nexus_hunter_ai.Prelude.Sorts.{Has-sort_by}
use nexus_hunter_ai.Jobs.Data.{
  ScanJob, Event, JobError, queued, running, deep_copy_scan_job, deep_copy_scan_job_lem,
}
use nexus_hunter_ai.Jobs.Repository.{list_jobs, listed_before}
use nexus_hunter_ai.Jobs.Exec.{Manager, Stamp}
use nexus_hunter_ai.Jobs.Manager.{
  cancel_listed, cancel_all, deactivated, handle_target_deactivated, round,
}
use nexus_hunter_ai.Jobs.Effects.{
  commit, persist_missing, persist_conflict, persist_fits, Written, untouched, wrote,
}
use nexus_hunter_ai.Jobs.Effects.Calls.{cancel_listed-Written}
use nexus_hunter_ai.Jobs.Trail.{commit-repo}
use nexus_hunter_ai.Jobs.Lifecycle.{cancel_all_cons}

abbrev pub is_active : String → Bool
is_active s = s == queued || s == running

abbrev pub active_job : Option ScanJob → Bool
active_job none = false
active_job (some j) = is_active j.status

-- is an active job stored under the identifier
abbrev pub active_at : Manager → String → Bool
active_at m id = active_job (find m.repo id)

some-eq : {a b : ScanJob} → some a ≡ some b → b ≡ a
some-eq h = cc

find-Has :
    (jobs : Map ScanJob) (id : String) (j : ScanJob) → find jobs id ≡ some j → Has j (values jobs)
unfolding find
find-Has [] id j h = cc
find-Has (e ∷ jobs) id j h = elim (Bool-cases (e.0 == id)) [
  | inl here ↦ inl (some-eq (rw here at h))
  | inr away ↦ inr (find-Has jobs id j (rw away at h))
]

map_copies : (xs : List ScanJob) → map deep_copy_scan_job xs ≡ xs
map_copies [] = refl
map_copies (x ∷ xs) = cc (deep_copy_scan_job_lem x, map_copies xs)

-- ListJobs finds every job of the target.
list_jobs_complete :
    (jobs : Map ScanJob) (id target_id : String) (j : ScanJob)
    → find jobs id ≡ some j
    → j.target_id ≡ target_id
    → Has j (list_jobs jobs target_id)
unfolding list_jobs
list_jobs_complete jobs id target_id j found e =
    Has-sort_by listed_before j (map deep_copy_scan_job (filter of_target (values jobs))) (
      rw map_copies (
        Has-filter of_target j (values jobs) (ground (arith, eq_iff j.target_id target_id))
          (find-Has jobs id j found)))
  where
    of_target : ScanJob → Bool
    of_target job = target_id == "" || job.target_id == target_id

deactivated_inactive :
    (s : Stamp) (job : ScanJob) (m : Manager) (ev : Event) (id : String)
    → (job.id == id ≡ false → active_at m id ≡ false)
    → active_at (commit m (deactivated s job) ev) id ≡ false
deactivated_inactive s job m ev id h =
    rw (commit-repo m (deactivated s job) ev id) (elim (Bool-cases (job.id == id)) [
      | inl here ↦ unfold deactivated in rw here refl
      | inr away ↦ unfold deactivated in rw away (h away)
    ])

-- a round leaves no active job where there was none
cancel_listed-inactive :
    (s : Stamp) (job : ScanJob) (m : Manager) (id : String)
    → active_at m id ≡ false
    → active_at (cancel_listed s job m).0 id ≡ false
cancel_listed-inactive s job m id h = go (cancel_listed-Written s job m)
  where
    go : {m' : Manager} → Written s.now (deactivated s job) m m' → active_at m' id ≡ false
    go (untouched e) = rw e h
    go (wrote curr ev found says e) = rw e (deactivated_inactive s job m ev id (λ _. h))

-- a round leaves no active job under its own identifier, if the listed job was active
cancel_listed-cancels :
    (s : Stamp) (job : ScanJob) (m : Manager)
    → is_active job.status ≡ true
    → active_at (cancel_listed s job m).0 job.id ≡ false
unfolding cancel_listed
cancel_listed-cancels s job m h = rw h (elim (Option-cases (find m.repo job.id)) [
  | inl missing ↦ after (persist_missing m _ queued (running ∷ []) _ missing) (rw missing refl)
  | inr (curr, found) ↦ elim (Bool-cases (any (λ s. curr.status == s) (queued ∷ running ∷ []))) [
    | inl fits ↦
        after (persist_fits m _ queued (running ∷ []) _ found fits)
          (deactivated_inactive s job m _ job.id (λ away. cc (eq_refl job.id, away)))
    | inr conflict ↦
        after (persist_conflict m _ queued (running ∷ []) _ found conflict)
          (rw found (ground arith))
  ]
])
  where
    after :
        {m' m'' : Manager} {r r' : Result JobError (Unit {0})}
        → Path (Manager × Result JobError (Unit {0})) (m', r) (m'', r')
        → active_at m'' job.id ≡ false
        → active_at m' job.id ≡ false
    after e k = subst (λ x. active_at x.0 job.id ≡ false) (sym e) k

cancel_all-inactive :
    (stamps : String → Stamp) (jobs : List ScanJob) (m : Manager) (id : String)
    → active_at m id ≡ false
    → active_at (cancel_all stamps jobs m).0 id ≡ false
unfolding cancel_all
cancel_all-inactive stamps [] m id h = h
cancel_all-inactive stamps (job ∷ jobs) m id h =
    subst (λ x. active_at x id ≡ false) (sym (cancel_all_cons stamps job jobs m))
      (cancel_all-inactive stamps jobs (cancel_listed (stamps job.id) job m).0 id
        (cancel_listed-inactive (stamps job.id) job m id h))

cancel_all-cancels :
    (stamps : String → Stamp) (jobs : List ScanJob) (m : Manager) (j : ScanJob)
    → Has j jobs
    → is_active j.status ≡ true
    → active_at (cancel_all stamps jobs m).0 j.id ≡ false
cancel_all-cancels stamps [] m j h a = absurd h
cancel_all-cancels stamps (job ∷ jobs) m j (inl e) a =
    subst (λ x. active_at x j.id ≡ false) (sym (cancel_all_cons stamps job jobs m))
      (cancel_all-inactive stamps jobs (cancel_listed (stamps job.id) job m).0 j.id (
        subst (λ k. active_at (cancel_listed (stamps job.id) job m).0 k ≡ false)
          (ap (λ (x : ScanJob). x.id) (sym e))
          (cancel_listed-cancels (stamps job.id) job m
            (subst (λ (x : ScanJob). is_active x.status ≡ true) e a))))
cancel_all-cancels stamps (job ∷ jobs) m j (inr h) a =
    subst (λ x. active_at x j.id ≡ false) (sym (cancel_all_cons stamps job jobs m))
      (cancel_all-cancels stamps jobs (cancel_listed (stamps job.id) job m).0 j h a)

-- When a target is deactivated, no job that was stored for it, under the job's own identifier, is
-- queued or running any more.
pub deactivated-not-active :
    (now : ℕ) (now_text : String) (ids : String → String × String) (m : Manager) (j : ScanJob)
    → find m.repo j.id ≡ some j
    → active_at (handle_target_deactivated now now_text ids j.target_id m).0 j.id ≡ false
unfolding handle_target_deactivated
deactivated-not-active now now_text ids m j found =
    let jobs = list_jobs m.repo j.target_id in
    elim (Bool-cases (is_active j.status)) [
      | inl a ↦
          cancel_all-cancels (round now now_text ids) jobs m j
            (list_jobs_complete m.repo j.id j.target_id j found refl) a
      | inr a ↦ cancel_all-inactive (round now now_text ids) jobs m j.id (rw found a)
    ]
