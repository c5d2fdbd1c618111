-- ===== src/Storage/Evidence.antt =====
-- memory.go: the evidence repository, which the evidence engine is given as its store.
pub mod Lawful
pub mod Timeline
use nexus_hunter_ai.Prelude.{
  ℕ, ◌+◌, String, ◌==◌, Bool, true, false, not, ◌||◌, ◌&&◌, Option, none, some, List, [], ◌∷◌, ◌++◌,
  filter, leb, nat_eq, Result, ok, if◌then◌else◌,
}
use mathlib.Core.List.{reverse}
use nexus_hunter_ai.Prelude.Maps.{Map, find, put, values}
use nexus_hunter_ai.Evidence.Data.{Evidence, EvidenceDiff}
use nexus_hunter_ai.Evidence.Store.{
  EvidenceStore, EvidenceTimelineEvent, SecurityContradiction, SecurityExpectation, SecurityOutlier,
}
use nexus_hunter_ai.Storage.Data.{StorageError, looked_up}
use nexus_hunter_ai.Storage.Upserts.{listed}

-- the collections of MemoryStorage that these operations use
pub record EvidenceMemory : Type 0 where
  pub evidence_records : Map Evidence
  pub evidence_diffs : Map EvidenceDiff
  pub security_expectations : Map (List SecurityExpectation)
  pub contradictions : Map SecurityContradiction
  pub outliers : Map (List SecurityOutlier)
  pub timeline_events : List EvidenceTimelineEvent

abbrev pub new_evidence_memory : EvidenceMemory
new_evidence_memory = record {
  evidence_records = [];
  evidence_diffs = [];
  security_expectations = [];
  contradictions = [];
  outliers = [];
  timeline_events = [];
}

unfoldable pub save_evidence : EvidenceMemory → Evidence → EvidenceMemory
save_evidence m ev = record m { evidence_records = put m.evidence_records ev.id ev }

unfoldable pub get_evidence : EvidenceMemory → String → Result StorageError Evidence
get_evidence m id = looked_up (find m.evidence_records id) ok

unfoldable pub list_evidence_by_target : EvidenceMemory → String → List Evidence
list_evidence_by_target m target_id =
    filter (λ ev. ev.target_id == target_id) (values m.evidence_records)

unfoldable pub list_evidence_by_asset : EvidenceMemory → String → List Evidence
list_evidence_by_asset m asset_id =
    filter (λ ev. ev.asset_id == asset_id) (values m.evidence_records)

unfoldable pub list_evidence_by_observation : EvidenceMemory → String → List Evidence
list_evidence_by_observation m obs_id =
    filter (λ ev. ev.observation_id == obs_id) (values m.evidence_records)

unfoldable pub save_evidence_diff : EvidenceMemory → EvidenceDiff → EvidenceMemory
save_evidence_diff m diff = record m { evidence_diffs = put m.evidence_diffs diff.id diff }

unfoldable pub get_evidence_diff : EvidenceMemory → String → Result StorageError EvidenceDiff
get_evidence_diff m id = looked_up (find m.evidence_diffs id) ok

unfoldable pub list_evidence_diffs : EvidenceMemory → String → List EvidenceDiff
list_evidence_diffs m target_id =
    filter (λ diff. diff.target_id == target_id) (values m.evidence_diffs)

-- append to the slice under a target
unfoldable pub push {ℓ} : {A : Type ℓ} → Map (List A) → String → A → Map (List A)
push m key x = put m key (listed (find m key) ++ x ∷ [])

unfoldable pub save_security_expectation : EvidenceMemory → SecurityExpectation → EvidenceMemory
unfolding push
save_security_expectation m exp = record m {
  security_expectations = push m.security_expectations exp.target_id exp;
}

unfoldable pub list_security_expectations :
    EvidenceMemory → (target_id asset_id : String) → List SecurityExpectation
list_security_expectations m target_id asset_id =
    filter (λ exp. asset_id == "" || exp.asset_id == asset_id)
      (listed (find m.security_expectations target_id))

unfoldable pub save_security_contradiction : EvidenceMemory → SecurityContradiction → EvidenceMemory
save_security_contradiction m con = record m { contradictions = put m.contradictions con.id con }

unfoldable pub get_security_contradiction :
    EvidenceMemory → String → Result StorageError SecurityContradiction
get_security_contradiction m id = looked_up (find m.contradictions id) ok

unfoldable pub list_security_contradictions :
    EvidenceMemory → (target_id asset_id : String) → List SecurityContradiction
list_security_contradictions m target_id asset_id =
    filter (λ con. con.target_id == target_id && (asset_id == "" || con.asset_id == asset_id))
      (values m.contradictions)

unfoldable pub save_security_outlier : EvidenceMemory → SecurityOutlier → EvidenceMemory
unfolding push
save_security_outlier m out = record m { outliers = push m.outliers out.target_id out }

unfoldable pub list_security_outliers :
    EvidenceMemory → (target_id asset_id : String) → List SecurityOutlier
list_security_outliers m target_id asset_id =
    filter (λ out. asset_id == "" || out.asset_id == asset_id) (listed (find m.outliers target_id))

unfoldable pub record_timeline_event : EvidenceMemory → EvidenceTimelineEvent → EvidenceMemory
record_timeline_event m event = record m { timeline_events = m.timeline_events ++ event ∷ [] }

-- the two `continue` guards of ListTimelineEvents
unfoldable pub is_wanted : (target_id asset_id : String) → EvidenceTimelineEvent → Bool
is_wanted target_id asset_id item =
    if not (target_id == "") && not (item.target_id == target_id)
    then false
    else if not (asset_id == "") && not (item.asset_id == asset_id)
    then false
    else true

-- the loop from the newest event on; `count` is len(res), and the loop breaks at the limit
unfoldable pub newest :
    (limit count : ℕ)
    → (EvidenceTimelineEvent → Bool)
    → List EvidenceTimelineEvent
    → List EvidenceTimelineEvent
newest limit count wanted [] = []
newest limit count wanted (item ∷ items) =
    if wanted item
    then item
      ∷ elim (leb limit (count + 1)) [ true ↦ [] | false ↦ newest limit (count + 1) wanted items ]
    else newest limit count wanted items

-- ListTimelineEvents; a limit below 0 is passed as 0
unfoldable pub list_timeline_events :
    EvidenceMemory → (target_id asset_id : String) (limit : ℕ) → List EvidenceTimelineEvent
unfolding is_wanted newest
list_timeline_events m target_id asset_id limit =
    let used = if nat_eq limit 0 then 50 else limit in
    newest used 0 (is_wanted target_id asset_id) (reverse m.timeline_events)

abbrev found {ℓ} : {A : Type ℓ} → Result StorageError A → Option A
found (ok a) = some a
found (Result.err e) = none

-- MemoryStorage as the engine's Storage: no write fails
abbrev pub memory_evidence_store : EvidenceStore
memory_evidence_store = record {
  State = EvidenceMemory;
  save_evidence = λ m ev. some (save_evidence m ev);
  get_evidence = λ m id. found (get_evidence m id);
  list_evidence_by_asset = list_evidence_by_asset;
  save_evidence_diff = λ m diff. some (save_evidence_diff m diff);
  save_security_contradiction = λ m con. some (save_security_contradiction m con);
  list_security_contradictions = list_security_contradictions;
  list_security_outliers = list_security_outliers;
  record_timeline_event = λ m event. some (record_timeline_event m event);
}
