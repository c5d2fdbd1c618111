-- ===== src/Planner/Service.antt =====
-- planner.go: GenerateInvestigationPlan and ApproveStep.
use nexus_hunter_ai.Prelude.{
  ℕ, ◌+◌, String, Bool, true, false, ◌||◌, Option, none, some, List, [], ◌∷◌, ◌++◌, ◌==◌,
  if◌then◌else◌, nat_eq, length, Result, ok, err, ◌>>=◌,
}
use nexus_hunter_ai.Prelude.Decimal.{decimal, decimal_from}
use nexus_hunter_ai.Prelude.Texts.{Text, codes, text_eq, has_prefix, is_empty}
use nexus_hunter_ai.Prelude.Maps.{Map, find, put}
use nexus_hunter_ai.Models.{Target}
use nexus_hunter_ai.Scope.Platform.{Platform}
use nexus_hunter_ai.Scope.Evaluate.{evaluate}
use nexus_hunter_ai.Planner.Data.{
  PlanStep, InvestigationPlan, PlanError, plan_target_nil, plan_not_found, step_not_found,
  plan_closed, step_taken,
}
use nexus_hunter_ai.Planner.Sanitize.{sanitize_untrusted_text}
use nexus_hunter_ai.Planner.Validate.{Scoping, validate_plan}

-- the parts of HTTPService, CloudReference and WAFObservation that a plan quotes
pub record HttpService : Type 0 where
  pub url : Text
  pub status_code : ℕ
  pub server_header : Text

pub record CloudReference : Type 0 where
  pub provider : Text
  pub resource_type : Text
  pub normalized_target : Text
  pub raw_reference : Text

pub record WafObservation : Type 0 where
  pub provider : Text
  pub throttling_state : Text

-- PlannerContext; of the asset, the hostname; of a JavaScript reference, its normalized value
pub record PlannerContext : Type 0 where
  pub asset_hostname : Option Text
  pub services : List HttpService
  pub js_references : List Text
  pub cloud_references : List CloudReference
  pub waf_observation : Option WafObservation
  pub hypothesis_id : String
  pub hypothesis_title : Text
  pub source_evidence_ids : List String

service_facts : List HttpService → List Text
service_facts [] = []
service_facts (svc ∷ rest) =
    (codes "Observed HTTP Service "
      ++ (svc.url
          ++ (codes " with status "
              ++ (decimal svc.status_code
                  ++ (codes " (Server: " ++ (svc.server_header ++ codes ")"))))))
    ∷ []

js_facts : List Text → List Text
js_facts [] = []
js_facts (r ∷ rs) =
    (codes "Identified "
      ++ (decimal (length (r ∷ rs)) ++ codes " structural references in JavaScript assets"))
    ∷ []

cloud_facts : List CloudReference → List Text
cloud_facts [] = []
cloud_facts (r ∷ rs) =
    (codes "Identified "
      ++ (decimal (length (r ∷ rs))
          ++ (codes " cloud infrastructure references (" ++ (r.provider ++ codes ")"))))
    ∷ []

waf_facts : Option WafObservation → List Text
waf_facts none = []
waf_facts (some w) =
    if text_eq w.provider (codes "None Detected")
    then []
    else (codes "Active WAF observed: "
        ++ (w.provider ++ (codes " (State: " ++ (w.throttling_state ++ codes ")"))))
      ∷ []

-- a step that waits for its approval
unfoldable pub pending : ℕ → String → (description target_url : Text) → PlanStep
pending n action description target_url = record {
  step_number = n;
  action_type = action;
  description = description;
  target_url = target_url;
  status = "PENDING";
  approved_by_human = false;
  approved_at = none;
}

pub base_url : Target → Option Text → Text
base_url target none = codes "https://" ++ target.root_domain
base_url target (some hostname) =
    if is_empty hostname
    then codes "https://" ++ target.root_domain
    else codes "https://" ++ hostname

unfoldable pub js_steps : Text → ℕ → List Text → List PlanStep
js_steps base n [] = []
js_steps base n (r ∷ rs) =
    pending n "CHECK_STATUS_CODE"
      (codes "Probe route '" ++ (r ++ codes "' with non-destructive GET request"))
      (if has_prefix r (codes "/") then base ++ r else r)
    ∷ []

unfoldable pub cloud_steps : ℕ → List CloudReference → List PlanStep
cloud_steps n [] = []
cloud_steps n (r ∷ rs) =
    pending n "SAFE_METADATA_CHECK"
      (codes "Safe read-only HEAD probe on "
        ++ (r.provider
            ++ (codes " "
                ++ (r.resource_type ++ (codes " (" ++ (r.normalized_target ++ codes ")"))))))
      r.raw_reference
    ∷ []

-- the steps that the context asks for, numbered from 1
unfoldable pub plan_steps : Target → PlannerContext → List PlanStep
unfolding pending base_url js_steps cloud_steps
plan_steps target input =
    let base = base_url target input.asset_hostname in
    let js = js_steps base 2 input.js_references in
    pending 1 "INSPECT_HEADERS"
        (codes "Retrieve and verify HTTP response headers for security controls and routing tags")
        base
      ∷ js
    ++ cloud_steps (2 + length js) input.cloud_references

unfoldable pub build_plan :
    (plan_id : String) (now : ℕ) → Target → (asset_id : String) → PlannerContext → InvestigationPlan
unfolding service_facts js_facts cloud_facts waf_facts decimal_from plan_steps
build_plan plan_id now target asset_id input =
    let hyp = sanitize_untrusted_text input.hypothesis_title in
    let untitled = is_empty input.hypothesis_title in
    record {
      id = plan_id;
      target_id = target.id;
      asset_id = asset_id;
      hypothesis_id = input.hypothesis_id;
      title =
          if untitled
          then codes "Structured Asset Surface & Boundary Investigation"
          else codes "Investigation: " ++ hyp;
      hypothesis =
          if untitled
          then codes
              "Asset exposes differentiated endpoints or structural references requiring controlled verification"
          else hyp;
      observed_facts =
          service_facts input.services
          ++ (js_facts input.js_references
              ++ (cloud_facts input.cloud_references ++ waf_facts input.waf_observation));
      evidence_required_count = 2;
      evidence_satisfied_count = 0;
      epistemic_status = "HYPOTHESIZED";
      status = "PLANNED";
      source_evidence_ids = input.source_evidence_ids;
      steps = plan_steps target input;
      created_at = now;
      updated_at = now;
    }

abbrev pub Plans : Type 0
Plans = Map InvestigationPlan

-- The service's scope check for a target; `has_scope` tells whether there is a scope service.
abbrev pub scoping_for : Platform → Bool → Target → Scoping
scoping_for pf has_scope target = if has_scope then some (evaluate pf (some target)) else none

-- GenerateInvestigationPlan
unfoldable pub generate_investigation_plan :
    (pf : Platform) (has_scope : Bool) (plan_id : String) (now : ℕ)
    → Option Target
    → (asset_id : String) → PlannerContext
    → Plans
    → Plans × Result PlanError InvestigationPlan
generate_investigation_plan pf has_scope plan_id now none asset_id input plans =
    (plans, err plan_target_nil)
generate_investigation_plan pf has_scope plan_id now (some target) asset_id input plans =
    let plan = build_plan plan_id now target asset_id input in
    elim (validate_plan pf (scoping_for pf has_scope target) (some plan)) [
      | err e ↦ (plans, err e)
      | ok _ ↦ (put plans plan_id plan, ok plan)
    ]

abbrev pub is_closed : String → Bool
is_closed s = s == "RUNNING" || s == "CANCELLED" || s == "COMPLETED" || s == "FAILED"

abbrev pub is_taken : String → Bool
is_taken s = s == "APPROVED" || s == "RUNNING" || s == "COMPLETED"

unfoldable pub approved : ℕ → PlanStep → PlanStep
approved now s = record s { approved_by_human = true; approved_at = some now; status = "APPROVED" }

-- the loop over the steps: the first step of the number is approved
unfoldable pub approve_steps : ℕ → ℕ → List PlanStep → Result PlanError (List PlanStep)
unfolding approved
approve_steps now n [] = err step_not_found
approve_steps now n (s ∷ ss) =
    let rest = approve_steps now n ss in
    if nat_eq s.step_number n
    then (if is_taken s.status then err (step_taken n s.status) else ok (approved now s ∷ ss))
    else (rest >>= λ ss'. ok (s ∷ ss'))

-- ApproveStep
unfoldable pub approve_step :
    (now : ℕ) (plan_id : String) (step_number : ℕ)
    → Plans
    → Plans × Result PlanError InvestigationPlan
approve_step now plan_id n plans = elim (find plans plan_id) [
  | none ↦ (plans, err plan_not_found)
  | some plan ↦
      if is_closed plan.status
      then (plans, err (plan_closed plan.status))
      else elim (approve_steps now n plan.steps) [
        | err e ↦ (plans, err e)
        | ok steps ↦
            let plan' = record plan { steps = steps; status = "APPROVED"; updated_at = now } in
            (put plans plan_id plan', ok plan')
      ]
]
