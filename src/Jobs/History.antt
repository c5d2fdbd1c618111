-- ===== src/Jobs/History.antt =====
-- Every history of calls leaves events on the bus from which the audit rebuilds the jobs' statuses.
use nexus_hunter_ai.Prelude.{String, ◌≡◌, refl, sym, subst, ◌∙◌, some, List, [], ◌∷◌, ok}
use mathlib.Core.Path.{subst₂}
use nexus_hunter_ai.Prelude.Maps.{find}
use nexus_hunter_ai.Prelude.Sorts.{Ordered}
use nexus_hunter_ai.Jobs.Data.{ScanJob, Event}
use nexus_hunter_ai.Jobs.Repository.{list_jobs}
use nexus_hunter_ai.Jobs.Exec.{Manager, Stamp}
use nexus_hunter_ai.Jobs.Manager.{cancel_listed, cancel_all, handle_target_deactivated, round}
use nexus_hunter_ai.Jobs.Audit.{audited_before, reconstruct_job_lifecycle}
use nexus_hunter_ai.Jobs.Effects.Calls.{
  create_scan_job-Effect, start_job-Effect, complete_job-Effect, fail_job-Effect, cancel_job-Effect,
  cancel_listed-Written,
}
use nexus_hunter_ai.Jobs.Lifecycle.{
  Call, create, start_it, complete_it, cancel_it, fail_it, deactivate, perform, IsFresh, Reach,
  here, after, retargeted, cancel_all_cons,
}
use nexus_hunter_ai.Jobs.Trail.{
  events_of, Follows, Tracks, Effect-Tracks, Written-Tracks, Follows-audit,
}

cancel_all-Tracks :
    (stamps : String → Stamp) (jobs : List ScanJob) (m : Manager)
    → Tracks m
    → Tracks (cancel_all stamps jobs m).0
unfolding cancel_all
cancel_all-Tracks stamps [] m h = h
cancel_all-Tracks stamps (job ∷ jobs) m h =
    let m' = (cancel_listed (stamps job.id) job m).0 in
    subst (λ x. Tracks x) (sym (cancel_all_cons stamps job jobs m))
      (cancel_all-Tracks stamps jobs m'
        (Written-Tracks m h (cancel_listed-Written (stamps job.id) job m)))

perform-Tracks : (c : Call) (m : Manager) → IsFresh c m → Tracks m → Tracks (perform c m)
unfolding perform handle_target_deactivated
perform-Tracks (create s k target_id job_type metadata) m fresh h =
    Effect-Tracks m h (create_scan_job-Effect s k target_id job_type metadata m fresh)
perform-Tracks (start_it s k) m _ h = Effect-Tracks m h (start_job-Effect s k m)
perform-Tracks (complete_it s k) m _ h = Effect-Tracks m h (complete_job-Effect s k m)
perform-Tracks (cancel_it s k) m _ h = Effect-Tracks m h (cancel_job-Effect s k m)
perform-Tracks (fail_it s k reason) m _ h = Effect-Tracks m h (fail_job-Effect s k m reason)
perform-Tracks (deactivate now now_text ids target_id) m _ h =
    cancel_all-Tracks (round now now_text ids) (list_jobs m.repo target_id) m h

Reach-Tracks : {m m' : Manager} → Tracks m → Reach m m' → Tracks m'
Reach-Tracks h here = h
Reach-Tracks h (after {m' = n} r c fresh e) = rw e (perform-Tracks c n fresh (Reach-Tracks h r))
Reach-Tracks h (retargeted r checker e) =
    rw e (record { at = λ evs heard id. (Reach-Tracks h r).at evs heard id })

nil-eq : {evs : List Event} → some [] ≡ some evs → [] ≡ evs
nil-eq h = cc

fresh-Tracks : (m : Manager) → m.repo ≡ [] → m.bus ≡ some [] → Tracks m
unfolding find
fresh-Tracks m no_jobs quiet = record {
  at = λ evs e id.
      subst₂ (λ es jobs. Follows (events_of id es) (find jobs id)) (nil-eq (sym quiet ∙ e))
        (sym no_jobs) refl;
}

-- From a manager with no jobs and an empty bus, after any calls, whatever the repository of targets
-- answers in each of them, in which a new job gets an identifier that is not in use, the audit of the
-- events on the bus that name a stored job gives the status stored for it. The condition is that, in
-- the order of their publication, no event of the job has an earlier time than the one before it, nor
-- the same time and a smaller event identifier.
pub Reach-audit :
    (m : Manager) {m' : Manager} (evs : List Event) (id : String) (job : ScanJob)
    → m.repo ≡ []
    → m.bus ≡ some []
    → Reach m m'
    → m'.bus ≡ some evs
    → find m'.repo id ≡ some job
    → Ordered audited_before (events_of id evs)
    → reconstruct_job_lifecycle (events_of id evs) ≡ ok job.status
Reach-audit m evs id job no_jobs quiet r heard found ordered =
    Follows-audit (events_of id evs) job ordered (
      subst (λ o. Follows (events_of id evs) o) found
        ((Reach-Tracks (fresh-Tracks m no_jobs quiet) r).at evs heard id))
