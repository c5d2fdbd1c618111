-- ===== src/Evidence/Store.antt =====
-- The records that the evidence engine stores besides evidence (models/evidence.go), and the part of
-- its interface Storage (engine.go) that it calls. The fields Details and RuleDetails, which no
-- modelled function reads, are left out.
use nexus_hunter_ai.Prelude.{ℕ, String, Option, some, List, ◌≡◌}
use nexus_hunter_ai.Prelude.Texts.{Text}
use nexus_hunter_ai.Evidence.Data.{Evidence, EvidenceDiff, EvidenceProvenance, Meaning}

pub record SecurityExpectation : Type 0 where
  pub id : String
  pub target_id : String
  pub asset_id : String
  pub endpoint : Text
  pub control_name : Text
  pub source : String
  pub expected_state : String
  pub description : Text
  pub created_at : ℕ

pub record SecurityContradiction : Type 0 where
  pub id : String
  pub target_id : String
  pub asset_id : String
  pub endpoint : Text
  pub contradiction_type : String
  pub status : String
  pub severity : String
  pub title : Text
  pub description : Text
  pub expectation_id : String
  pub observed_state : String
  pub evidence_refs : List String
  pub explanation : Text
  pub suggested_followup : List Text
  pub created_at : ℕ
  pub updated_at : ℕ

pub record SecurityOutlier : Type 0 where
  pub id : String
  pub target_id : String
  pub asset_id : String
  pub endpoint : Text
  pub comparison_group : String
  pub observed_value : Text
  pub baseline_value : Text
  pub deviation_type : String
  pub evidence_refs : List String
  pub created_at : ℕ

-- the field Summary: the text of evidence or of a title, or the sentence of a comparison
pub data TimelineSummary : Type 0 where
  plain : Text → TimelineSummary
  meaning_of : Meaning → TimelineSummary

pub record EvidenceTimelineEvent : Type 0 where
  pub id : String
  pub target_id : String
  pub asset_id : String
  pub event_type : String
  pub summary : TimelineSummary
  pub epistemic_status : String
  pub timestamp : ℕ
  pub provenance : EvidenceProvenance
  pub reference_id : String

-- Storage: an operation that writes gives the new state, or none where it returns an error and
-- writes nothing; the engine drops the error of an operation that lists, and reads no members then
pub record EvidenceStore : Type 1 where
  pub State : Type 0
  pub save_evidence : State → Evidence → Option State
  pub get_evidence : State → String → Option Evidence
  pub list_evidence_by_asset : State → String → List Evidence
  pub save_evidence_diff : State → EvidenceDiff → Option State
  pub save_security_contradiction : State → SecurityContradiction → Option State
  pub list_security_contradictions :
      State → (target_id asset_id : String) → List SecurityContradiction
  pub list_security_outliers : State → (target_id asset_id : String) → List SecurityOutlier
  pub record_timeline_event : State → EvidenceTimelineEvent → Option State

-- what the engine relies on: saved evidence is found as it was saved, and the timeline is kept apart
-- from the evidence
pub record IsLawful (S : EvidenceStore) : Type 0 where
  pub get-save :
      (s s' : S.State) (ev : Evidence)
      → S.save_evidence s ev ≡ some s'
      → S.get_evidence s' ev.id ≡ some ev
  pub get-timeline :
      (s s' : S.State) (event : EvidenceTimelineEvent) (id : String)
      → S.record_timeline_event s event ≡ some s'
      → S.get_evidence s' id ≡ S.get_evidence s id
