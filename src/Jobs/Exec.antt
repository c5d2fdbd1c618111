-- ===== src/Jobs/Exec.antt =====
-- jobs.go: the Manager's fields, and its methods as actions that may return an error. What a method
-- did before it returned an error stays done, so the manager comes back beside the error too.
use nexus_hunter_ai.Prelude.{ℕ, String, Option, none, some, List, [], Result, ok, err}
use nexus_hunter_ai.Prelude.Maps.{Map}
use nexus_hunter_ai.Models.{Target}
use nexus_hunter_ai.Jobs.Data.{ScanJob, Event, JobError}

-- `bus` holds the events handed to Publish, oldest first; it is none for a manager without a bus.
-- A checker answers none where GetByID returns an error or a nil target.
pub record Manager : Type 0 where
  pub repo : Map ScanJob
  pub bus : Option (List Event)
  pub target_checker : Option (String → Option Target)

-- NewManager with its default repository
abbrev pub new_manager : Option (List Event) → Manager
new_manager bus = record { repo = []; bus = bus; target_checker = none }

-- SetTargetChecker
abbrev pub set_target_checker : (String → Option Target) → Manager → Manager
set_target_checker checker m = record m { target_checker = some checker }

-- what time.Now and one round of events.GenerateID return in a call
pub record Stamp : Type 0 where
  pub now : ℕ
  pub now_text : String
  pub corr_id : String
  pub event_id : String

abbrev pub Exec {ℓ} : Type ℓ → Type ℓ
Exec A = Manager → Manager × Result JobError A

abbrev pub pure {ℓ} : {A : Type ℓ} → A → Exec A
pure a m = (m, ok a)

abbrev pub raise {ℓ} : {A : Type ℓ} → JobError → Exec A
raise e m = (m, err e)

abbrev pub continue {ℓ} : {A B : Type ℓ} → Result JobError A → (A → Exec B) → Exec B
continue (ok a) f m = f a m
continue (err e) f m = (m, err e)

infixl 5 ◌>>=◌ ◌>>◌
abbrev pub ◌>>=◌ {ℓ} : {A B : Type ℓ} → Exec A → (A → Exec B) → Exec B
◌>>=◌ f g m = let (m', r) = f m in continue r g m'

abbrev pub ◌>>◌ {ℓ} : {A B : Type ℓ} → Exec A → Exec B → Exec B
f >> g = f >>= λ _. g

-- an error that the caller drops
abbrev pub ignore {ℓ} : {A : Type ℓ} → Exec A → Exec (Unit {0})
ignore f m = ((f m).0, ok tt)
