-- ===== src/Storage/Reasoning/Data.antt =====
-- The records of the reasoning repository (models/reasoning.go), and the collections of MemoryStorage
-- that hold them. Metadata, and the confidence of a control, which is a float64, are left out.
use nexus_hunter_ai.Prelude.{ℕ, String, Bool, Option, List, [], nat_eq, if◌then◌else◌}
use nexus_hunter_ai.Prelude.Maps.{Map}
use nexus_hunter_ai.Prelude.Texts.{Text}

pub record ReasoningSignal : Type 0 where
  pub id : String
  pub target_id : String
  pub asset_id : String
  pub endpoint : Text
  pub signal_type : String
  pub category : String
  pub title : Text
  pub description : Text
  pub epistemic_status : String
  pub status : String
  pub severity_of_attention : String
  pub source_observations : List String
  pub source_evidence : List String
  pub detector : String
  pub detector_version : String
  pub created_at : ℕ
  pub updated_at : ℕ

pub record FalsificationCondition : Type 0 where
  pub id : String
  pub hypothesis_id : String
  pub condition_description : Text
  pub required_evidence : Text
  pub validation_method : Text
  pub result : String
  pub evidence_refs : List String
  pub evaluated_at : Option ℕ

pub record EvidenceRequirement : Type 0 where
  pub id : String
  pub hypothesis_id : String
  pub description : Text
  pub importance : String
  pub evidence_type : String
  pub collection_method : Text
  pub status : String
  pub satisfied_by_ref : String
  pub created_at : ℕ

pub record Hypothesis : Type 0 where
  pub id : String
  pub group_id : String
  pub target_id : String
  pub asset_id : String
  pub endpoint : Text
  pub title : Text
  pub description : Text
  pub category : String
  pub epistemic_status : String
  pub status : String
  pub reasoning_method : String
  pub supporting_signals : List String
  pub supporting_evidence : List String
  pub contradicting_evidence : List String
  pub alternative_hypotheses : List String
  pub missing_evidence : List EvidenceRequirement
  pub falsification_conditions : List FalsificationCondition
  pub recommended_investigations : List String
  pub evidence_strength : ℕ
  pub investigation_priority : ℕ
  pub created_at : ℕ
  pub updated_at : ℕ

pub record HypothesisGroup : Type 0 where
  pub id : String
  pub target_id : String
  pub asset_id : String
  pub subject : Text
  pub signals : List String
  pub hypothesis_ids : List String
  pub hypotheses : List Hypothesis
  pub active_investigation : String
  pub has_competing_theories : Bool
  pub created_at : ℕ
  pub updated_at : ℕ

-- the steps and the factors of the priority, which the storage only copies, are left out
pub record Investigation : Type 0 where
  pub id : String
  pub target_id : String
  pub asset_id : String
  pub hypothesis_id : String
  pub group_id : String
  pub title : Text
  pub objective : Text
  pub priority : String
  pub priority_score : ℕ
  pub status : String
  pub result_summary : Text
  pub generated_evidence : List String
  pub updated_hypothesis : String
  pub created_by : String
  pub created_at : ℕ
  pub completed_at : Option ℕ

pub record TrustBoundary : Type 0 where
  pub id : String
  pub target_id : String
  pub asset_id : String
  pub boundary_name : Text
  pub from_tier : String
  pub to_tier : String
  pub epistemic_status : String
  pub evidence_refs : List String
  pub notes : Text
  pub created_at : ℕ

pub record PermissionMatrixEntry : Type 0 where
  pub id : String
  pub target_id : String
  pub asset_id : String
  pub endpoint : Text
  pub context_id : String
  pub context_name : Text
  pub state : String
  pub status_code : ℕ
  pub evidence_refs : List String
  pub observed_at : ℕ

pub record SecurityControlRecord : Type 0 where
  pub id : String
  pub target_id : String
  pub asset_id : String
  pub endpoint : Text
  pub control_name : Text
  pub expected_state : String
  pub observed_state : String
  pub is_contradicted : Bool
  pub evidence_refs : List String
  pub evaluated_at : ℕ

pub record ReasoningRun : Type 0 where
  pub id : String
  pub target_id : String
  pub asset_id : String
  pub engine : String
  pub engine_version : String
  pub input_count : ℕ
  pub signals_count : ℕ
  pub hypotheses_count : ℕ
  pub duration_ms : ℕ
  pub status : String
  pub error_message : Text
  pub created_at : ℕ

pub record ReasoningMemory : Type 0 where
  pub signals : Map ReasoningSignal
  pub groups : Map HypothesisGroup
  pub hypotheses : Map Hypothesis
  pub falsifications : Map (List FalsificationCondition)
  pub requirements : Map (List EvidenceRequirement)
  pub investigations : Map Investigation
  pub trust_boundaries : Map (List TrustBoundary)
  pub permission_matrix : Map (List PermissionMatrixEntry)
  pub security_controls : Map (List SecurityControlRecord)
  pub reasoning_runs : Map ReasoningRun

abbrev pub new_reasoning_memory : ReasoningMemory
new_reasoning_memory = record {
  signals = [];
  groups = [];
  hypotheses = [];
  falsifications = [];
  requirements = [];
  investigations = [];
  trust_boundaries = [];
  permission_matrix = [];
  security_controls = [];
  reasoning_runs = [];
}

-- a time that is set where it is the zero time
abbrev pub or_now : ℕ → ℕ → ℕ
or_now time now = if nat_eq time 0 then now else time
