-- ===== src/Planner/Data.antt =====
-- planner.go: the allowlist, the banned words and the errors; models: InvestigationPlan and its steps.
use nexus_hunter_ai.Prelude.{ℕ, String, Bool, Option, List, [], ◌∷◌}
use nexus_hunter_ai.Prelude.Texts.{Text, codes}
use nexus_hunter_ai.Scope.Evaluate.{Reason}

abbrev pub allowed_action_types : List String
allowed_action_types =
    "FETCH_URL" ∷ "COMPARE_RESPONSES" ∷ "INSPECT_HEADERS" ∷ "EXTRACT_JS_REFERENCE"
    ∷ "CHECK_STATUS_CODE" ∷ "VERIFY_DNS" ∷ "INSPECT_TLS" ∷ "SAFE_METADATA_CHECK" ∷ []

abbrev pub banned_exploit_words : List Text
banned_exploit_words =
    codes "exploit"
    ∷ codes "inject"
    ∷ codes "bypass"
    ∷ codes "brute_force"
    ∷ codes "dump_database"
    ∷ codes "steal_credential"
    ∷ codes "sqli_payload"
    ∷ codes "rce_payload"
    ∷ codes "reverse_shell"
    ∷ codes "privilege_escalation"
    ∷ codes "dos_attack"
    ∷ []

pub record PlanStep : Type 0 where
  pub step_number : ℕ
  pub action_type : String
  pub description : Text
  pub target_url : Text
  pub status : String
  pub approved_by_human : Bool
  pub approved_at : Option ℕ

-- The fields of a plan that the service sets from its input or reads again; the others are constant
-- prose.
pub record InvestigationPlan : Type 0 where
  pub id : String
  pub target_id : String
  pub asset_id : String
  pub hypothesis_id : String
  pub title : Text
  pub hypothesis : Text
  pub observed_facts : List Text
  pub evidence_required_count : ℕ
  pub evidence_satisfied_count : ℕ
  pub epistemic_status : String
  pub status : String
  pub source_evidence_ids : List String
  pub steps : List PlanStep
  pub created_at : ℕ
  pub updated_at : ℕ

pub data PlanError : Type 0 where
  nil_plan premature_confirmation plan_target_nil plan_not_found step_not_found : PlanError
  action_not_allowed : String → PlanError
  destructive_action : Text → PlanError
  target_out_of_scope : Text → Reason → PlanError
  plan_closed : String → PlanError
  step_taken : ℕ → String → PlanError
