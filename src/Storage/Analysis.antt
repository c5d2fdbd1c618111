-- ===== src/Storage/Analysis.antt =====
-- memory.go: the runs of the analysis, their signals and the evidence of finding candidates. The
-- score of a candidate, which is a float64, is left out, and so is the list that it sorts.
use nexus_hunter_ai.Prelude.{
  ℕ, String, ◌==◌, Bool, ◌||◌, Option, List, [], ◌∷◌, ◌++◌, filter, ltb, Result, ok, if◌then◌else◌,
}
use nexus_hunter_ai.Prelude.Maps.{Map, find, put, values}
use nexus_hunter_ai.Prelude.Sorts.{sort_by}
use nexus_hunter_ai.Prelude.Texts.{Text, codes, is_empty}
use nexus_hunter_ai.Jobs.Values.{Fields}
use nexus_hunter_ai.Storage.Data.{StorageError, looked_up}
use nexus_hunter_ai.Storage.Upserts.{listed}

pub record AnalysisRun : Type 0 where
  pub id : String
  pub target_id : String
  pub asset_id : String
  pub status : String
  pub provider : String
  pub model : String
  pub signals_count : ℕ
  pub candidates_count : ℕ
  pub summary : Text
  pub confidence_notes : Text
  pub error : Text
  pub execution_time_ms : ℕ
  pub created_at : ℕ
  pub completed_at : Option ℕ

pub record SecuritySignal : Type 0 where
  pub id : String
  pub analysis_run_id : String
  pub target_id : String
  pub asset_id : String
  pub signal_type : String
  pub severity_hint : String
  pub evidence : Text
  pub source : Text
  pub url : Text
  pub details : Fields
  pub detected_at : ℕ

pub record CandidateEvidence : Type 0 where
  pub id : String
  pub candidate_id : String
  pub evidence_type : String
  pub reference_id : String
  pub summary : Text
  pub sha256 : String
  pub details : Fields
  pub collected_at : ℕ

pub record FindingCandidate : Type 0 where
  pub id : String
  pub analysis_run_id : String
  pub target_id : String
  pub asset_id : String
  pub category : String
  pub title : Text
  pub description : Text
  pub state : String
  pub reasoning : Text
  pub missing_evidence : Text
  pub validation_steps : List Text
  pub evidence_references : List String
  pub recommended_verification : Text
  pub is_mock : Bool
  pub created_at : ℕ
  pub updated_at : ℕ
  pub evidence : List CandidateEvidence
  pub signals : List SecuritySignal

pub record AnalysisMemory : Type 0 where
  pub analysis_runs : Map AnalysisRun
  pub signals : Map (List SecuritySignal)
  pub candidates : Map FindingCandidate
  pub candidate_evidences : Map (List CandidateEvidence)

unfoldable pub save_analysis_run : AnalysisRun → AnalysisMemory → AnalysisMemory
save_analysis_run run m = record m { analysis_runs = put m.analysis_runs run.id run }

unfoldable pub get_analysis_run : String → AnalysisMemory → Result StorageError AnalysisRun
get_analysis_run id m = looked_up (find m.analysis_runs id) ok

unfoldable pub list_analysis_runs : (target_id : String) → AnalysisMemory → List AnalysisRun
unfolding sort_by
list_analysis_runs target_id m =
    sort_by (λ a b. ltb b.created_at a.created_at)
      (filter (λ r. target_id == "" || r.target_id == target_id) (values m.analysis_runs))

unfoldable pub update_analysis_run :
    AnalysisRun → AnalysisMemory → Result StorageError AnalysisMemory
unfolding save_analysis_run
update_analysis_run run m =
    looked_up (find m.analysis_runs run.id) (λ _. ok (save_analysis_run run m))

unfoldable pub save_security_signal : SecuritySignal → AnalysisMemory → AnalysisMemory
save_security_signal signal m = record m {
  signals =
      put m.signals signal.target_id (listed (find m.signals signal.target_id) ++ signal ∷ []);
}

unfoldable pub list_security_signals :
    (target_id asset_id : String) → AnalysisMemory → List SecuritySignal
unfolding sort_by
list_security_signals target_id asset_id m =
    sort_by (λ a b. ltb b.detected_at a.detected_at)
      (filter (λ sig. asset_id == "" || sig.asset_id == asset_id)
        (listed (find m.signals target_id)))

unfoldable pub save_finding_candidate : FindingCandidate → AnalysisMemory → AnalysisMemory
save_finding_candidate candidate m = record m {
  candidates = put m.candidates candidate.id candidate;
}

-- the candidate with its evidence attached; the source shares the pointers of the evidence
unfoldable pub get_finding_candidate :
    String → AnalysisMemory → Result StorageError FindingCandidate
get_finding_candidate id m =
    looked_up (find m.candidates id)
      (λ c. ok (record c { evidence = listed (find m.candidate_evidences id) }))

-- the reasoning with the change of state appended, where a reason is given
unfoldable pub with_reason : (new_state : String) (reason : Text) → Text → Text
with_reason new_state reason reasoning =
    if is_empty reason
    then reasoning
    else reasoning
      ++ (codes "\n[State changed to "
          ++ (codes new_state ++ (codes ": " ++ (reason ++ codes "]"))))

unfoldable pub update_candidate_state :
    (now : ℕ) (id new_state : String) (reason : Text)
    → AnalysisMemory
    → Result StorageError AnalysisMemory
unfolding with_reason
update_candidate_state now id new_state reason m = looked_up (find m.candidates id) (λ c.
    ok (record m {
      candidates = put m.candidates id (record c {
        state = new_state;
        updated_at = now;
        reasoning = with_reason new_state reason c.reasoning;
      });
    }))

unfoldable pub save_candidate_evidence : CandidateEvidence → AnalysisMemory → AnalysisMemory
save_candidate_evidence evidence m = record m {
  candidate_evidences =
      put m.candidate_evidences evidence.candidate_id
        (listed (find m.candidate_evidences evidence.candidate_id) ++ evidence ∷ []);
}

unfoldable pub list_candidate_evidence :
    (candidate_id : String) → AnalysisMemory → List CandidateEvidence
list_candidate_evidence candidate_id m = listed (find m.candidate_evidences candidate_id)
