-- ===== src/Reasoning/Plan.antt =====
-- engine.go: PlanInvestigation and extractPath.
use nexus_hunter_ai.Prelude.{
  ℕ, String, Option, none, some, List, [], ◌∷◌, ◌++◌, if◌then◌else◌, leb, ltb, Result, ok, err,
  Bool,
}
use nexus_hunter_ai.Prelude.Texts.{Text, codes, has_prefix, cut, is_empty}
use nexus_hunter_ai.Reasoning.Transitions.{planned}

-- the fields of models.Hypothesis that a plan takes over
pub record Hypothesis : Type 0 where
  pub id : String
  pub target_id : String
  pub asset_id : String
  pub group_id : String
  pub title : Text
  pub investigation_priority : ℕ
  pub priority_breakdown : List (String × ℕ)

pub record InvestigationStep : Type 0 where
  pub step_number : ℕ
  pub name : String
  pub description : String
  pub action_type : String
  pub scope_constraint : String
  pub status : String

pub record Investigation : Type 0 where
  pub id : String
  pub target_id : String
  pub asset_id : String
  pub hypothesis_id : String
  pub group_id : String
  pub title : Text
  pub objective : Text
  pub priority : String
  pub priority_score : ℕ
  pub priority_factors : List (String × ℕ)
  pub status : String
  pub steps : List InvestigationStep
  pub created_by : String
  pub created_at : ℕ

pub data PlanError : Type 0 where
  hypothesis_not_found save_failed : PlanError

-- the priority level of a plan
unfoldable pub priority_level : ℕ → String
priority_level score =
    if leb 75 score
    then "HIGH"
    else if leb 90 score
    then "CRITICAL"
    else if ltb score 40
    then "LOW"
    else "MEDIUM"

abbrev pub investigation_steps : List InvestigationStep
investigation_steps =
    (record {
      step_number = 1;
      name = "Capture Verified Scope Baseline";
      description =
          "Verify target host against active scope boundaries and capture non-intrusive GET/HEAD response baseline.";
      action_type = "CAPTURE_BASELINE";
      scope_constraint = "STRICT_SCOPE_ALLOWLIST";
      status = "PENDING";
    }
      ∷ record {
        step_number = 2;
        name = "Evaluate Multi-Role Differential";
        description =
            "Issue safe GET request with simulated anonymous context vs standard authorized researcher context.";
        action_type = "COMPARE_CONTEXTS";
        scope_constraint = "STRICT_SCOPE_ALLOWLIST";
        status = "PENDING";
      }
      ∷ record {
        step_number = 3;
        name = "Inspect Response Stability & Semantic Variation";
        description =
            "Calculate Level 1 Raw Diff, Level 2 Semantic Diff, and Level 3 Security Diff across observations.";
        action_type = "EVALUATE_SEMANTICS";
        scope_constraint = "PASSIVE_ANALYSIS_ONLY";
        status = "PENDING";
      }
      ∷ record {
        step_number = 4;
        name = "Update Hypothesis Falsification Matrix";
        description =
            "Test empirical findings against falsification conditions to support or eliminate competing hypotheses.";
        action_type = "FALSIFICATION_EVALUATION";
        scope_constraint = "LOCAL_REASONING_ONLY";
        status = "PENDING";
      }
      ∷ [])

-- the plan for a hypothesis; its identifier is drawn from a hash of the hypothesis and the time
unfoldable pub investigation_for :
    (inv_id created_by : String) (now : ℕ) → Hypothesis → Investigation
unfolding priority_level
investigation_for inv_id created_by now hyp = record {
  id = inv_id;
  target_id = hyp.target_id;
  asset_id = hyp.asset_id;
  hypothesis_id = hyp.id;
  group_id = hyp.group_id;
  title = codes "Safe Differential Investigation: " ++ hyp.title;
  objective =
      codes "Collect differential evidence to evaluate whether '"
      ++ (hyp.title ++ codes "' holds true or is falsified.");
  priority = priority_level hyp.investigation_priority;
  priority_score = hyp.investigation_priority;
  priority_factors = hyp.priority_breakdown;
  status = planned;
  steps = investigation_steps;
  created_by = created_by;
  created_at = now;
}

-- PlanInvestigation, over the repository's GetHypothesis and SaveInvestigation
unfoldable pub plan_investigation :
    (get : String → Option Hypothesis) (save : Investigation → Bool)
    → (inv_id created_by : String) (now : ℕ) (hypothesis_id : String)
    → Result PlanError Investigation
unfolding investigation_for
plan_investigation get save inv_id created_by now hypothesis_id = elim (get hypothesis_id) [
  | none ↦ err hypothesis_not_found
  | some hyp ↦
      let inv = investigation_for inv_id created_by now hyp in
      if save inv then ok inv else err save_failed
]

-- what stands behind the first occurrence, and what begins with it
unfoldable pub after_first : Text → Text → Option Text
unfolding has_prefix cut
after_first [] p = if is_empty p then some [] else none
after_first (a ∷ s) p = if has_prefix (a ∷ s) p then some (cut (a ∷ s) p) else after_first s p

unfoldable pub from_slash : Text → Option Text
from_slash [] = none
from_slash (a ∷ s) = if has_prefix (a ∷ s) (codes "/") then some (a ∷ s) else from_slash s

-- extractPath, of the URL of a request that is not nil
unfoldable pub extract_path : Option Text → Text
unfolding after_first from_slash
extract_path none = codes "/"
extract_path (some url) = if is_empty url then codes "/" else elim (after_first url (codes "://")) [
  | none ↦ url
  | some rest ↦ elim (from_slash rest) [ none ↦ url | some path ↦ path ]
]
