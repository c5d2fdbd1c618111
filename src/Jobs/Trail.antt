-- ===== src/Jobs/Trail.antt =====
-- The events on the bus tell the stored status of every job: the audit of a job's events gives it.
use nexus_hunter_ai.Prelude.{
  ℕ, suc, String, ◌≡◌, ◌≢◌, refl, sym, ap, ◌∙◌, subst, Bool, true, false, Option, none, some, List,
  [], ◌∷◌, ◌++◌, ◌==◌, eq_iff, if◌then◌else◌, inl, inr, Bool-cases, Option-cases, filter,
  filter-append, Result, ok, Result-cases,
}
use mathlib.Core.List.{append-nil}
use mathlib.Core.Path.{subst₂}
use nexus_hunter_ai.Prelude.Maps.{find, find-put}
use nexus_hunter_ai.Prelude.Sorts.{Ordered, sort_by-Ordered}
use nexus_hunter_ai.Jobs.Data.{ScanJob, Event}
use nexus_hunter_ai.Jobs.Exec.{Manager}
use nexus_hunter_ai.Jobs.Audit.{
  audit_event, audit_events, audited_before, reconstruct_job_lifecycle, AuditError,
}
use nexus_hunter_ai.Jobs.Effects.{
  Effect, idle, enqueued, moved, Enqueues, Announces, commit, Written, untouched, wrote,
}

abbrev pub events_of : String → List Event → List Event
events_of id = filter (λ e. e.job_id == id)

ok-injective : {a b : String} → Path (Result AuditError String) (ok a) (ok b) → a ≡ b
ok-injective h = cc

-- One more event that the audit accepts is one more step.
audit_events-append :
    (i : ℕ) (c : String) (es : List Event) (e : Event) {a b : String}
    → audit_events i c es ≡ ok a
    → ((j : ℕ) → audit_event j a e ≡ ok b)
    → audit_events i c (es ++ e ∷ []) ≡ ok b
unfolding audit_events
audit_events-append i c [] e {a} h heard = rw (ok-injective h, heard i) refl
audit_events-append i c (f ∷ es) e h heard = elim (Result-cases (audit_event i c f)) [
  | inl (c', next) ↦ rw next (audit_events-append (suc i) c' es e (rw next at h) heard)
  | inr (x, stop) ↦ cc (rw stop at h)
]

-- What the events of one job tell of what is stored: nothing of no job, and otherwise its status.
abbrev pub Follows : List Event → Option ScanJob → Type 0
Follows es none = es ≡ []
Follows es (some job) = (es ≢ []) × (audit_events 0 "" es ≡ ok job.status)

pub record Tracks (m : Manager) : Type 0 where
  pub at :
      (evs : List Event)
      → m.bus ≡ some evs
      → (id : String) → Follows (events_of id evs) (find m.repo id)

append-ne-nil : (es : List Event) (e : Event) → (es ++ e ∷ []) ≢ []
append-ne-nil [] e h = cc h
append-ne-nil (f ∷ es) e h = cc h

Follows-first :
    {t : ℕ} {es : List Event} (job : ScanJob) (ev : Event)
    → es ≡ []
    → Enqueues t job ev
    → Follows (es ++ ev ∷ []) (some job)
unfolding audit_events
Follows-first job ev none_yet says =
    rw none_yet (append-ne-nil [] ev, rw (says.heard, says.status) refl)

Follows-next :
    {t : ℕ} {es : List Event} (curr job : ScanJob) (ev : Event)
    → Follows es (some curr)
    → Announces t curr.status job ev
    → Follows (es ++ ev ∷ []) (some job)
Follows-next {t} {es} curr job ev (ne, told) says =
    (append-ne-nil es ev, audit_events-append 0 "" es ev told says.heard)

pub commit-repo :
    (m : Manager) (job : ScanJob) (ev : Event) (id : String)
    → find (commit m job ev).repo id ≡ (if job.id == id then some job else find m.repo id)
unfolding commit
commit-repo m job ev id = find-put m.repo job.id id job

some-injective_events : {xs ys : List Event} → some xs ≡ some ys → xs ≡ ys
some-injective_events h = cc

commit-bus :
    (m : Manager) (job : ScanJob) (ev : Event) {evs' : List Event}
    → (commit m job ev).bus ≡ some evs'
    → (evs : List Event) × (m.bus ≡ some evs) × (evs' ≡ evs ++ ev ∷ [])
unfolding commit
commit-bus m job ev h = elim (Option-cases m.bus) [
  | inl silent ↦ cc (rw silent at h)
  | inr (evs, heard) ↦ (evs, heard, sym (some-injective_events (rw heard at h)))
]

events_of-append :
    (id k : String) (evs : List Event) (ev : Event)
    → ev.job_id ≡ k
    → events_of id (evs ++ ev ∷ [])
      ≡ (if k == id then events_of id evs ++ ev ∷ [] else events_of id evs)
events_of-append id k evs ev e = elim (Bool-cases (ev.job_id == id)) [
  | inl h ↦ rw (← e, filter-append, h) refl
  | inr h ↦ rw (← e, filter-append, h) (append-nil (events_of id evs))
]

by_case :
    (P : List Event → Option ScanJob → Type 0) {es es' : List Event} {o o' : Option ScanJob}
    (b : Bool)
    → (b ≡ true → P es' o')
    → (b ≡ false → P es o)
    → P (if b then es' else es) (if b then o' else o)
by_case P true f g = f refl
by_case P false f g = g refl

-- A commit keeps what is known of every job, if its event follows for the job that it writes.
commit-Tracks :
    (m : Manager) (job : ScanJob) (ev : Event)
    → Tracks m
    → ev.job_id ≡ job.id
    → ((es : List Event) → Follows es (find m.repo job.id) → Follows (es ++ ev ∷ []) (some job))
    → Tracks (commit m job ev)
commit-Tracks m job ev h same_id write = record { at = at_id }
  where
    at_id :
        (evs' : List Event)
        → (commit m job ev).bus ≡ some evs'
        → (id : String) → Follows (events_of id evs') (find (commit m job ev).repo id)
    at_id evs' e id =
        let (evs, heard, more) = commit-bus m job ev e in
        subst₂ Follows (sym (ap (events_of id) more ∙ events_of-append id job.id evs ev same_id))
          (sym (commit-repo m job ev id))
          (by_case Follows (job.id == id)
            (λ here. write (events_of id evs) (
              subst (λ k. Follows (events_of id evs) (find m.repo k))
                (sym ((eq_iff job.id id).0 here)) (h.at evs heard id)))
            (λ away. h.at evs heard id))

module _ {t : ℕ} (m : Manager) (h : Tracks m) where
  pub Effect-Tracks : {m' : Manager} → Effect t m m' → Tracks m'
  Effect-Tracks (idle e) = rw e h
  Effect-Tracks (enqueued job ev fresh says e) = rw e (
      commit-Tracks m job ev h says.job_id
        λ es k. Follows-first job ev (subst (λ o. Follows es o) fresh k) says)
  Effect-Tracks (moved curr job ev found says e) = rw e (
      commit-Tracks m job ev h says.job_id
        λ es k. Follows-next curr job ev (subst (λ o. Follows es o) found k) says)

  pub Written-Tracks : {job : ScanJob} {m' : Manager} → Written t job m m' → Tracks m'
  Written-Tracks (untouched e) = rw e h
  Written-Tracks {job} (wrote curr ev found says e) = rw e (
      commit-Tracks m job ev h says.job_id
        λ es k. Follows-next curr job ev (subst (λ o. Follows es o) found k) says)

-- The audit of a job's events gives the status that is stored, where the sort leaves them in the order in
-- which they came.
pub Follows-audit :
    (es : List Event) (job : ScanJob)
    → Ordered audited_before es
    → Follows es (some job)
    → reconstruct_job_lifecycle es ≡ ok job.status
unfolding reconstruct_job_lifecycle
Follows-audit [] job ordered (ne, told) = absurd (ne refl)
Follows-audit (e ∷ es) job ordered (ne, told) =
    rw (sort_by-Ordered audited_before (e ∷ es) ordered) told
