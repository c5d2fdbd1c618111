-- ===== src/Tests/Planner.antt =====
-- The planner on a concrete plan.
use nexus_hunter_ai.Prelude.{
  ◌≡◌, ◌↔◌, refl, true, false, ◌&&◌, none, some, [], ◌∷◌, ◌==◌, ltb, All, ok, err,
}
use nexus_hunter_ai.Prelude.Texts.{codes}
use nexus_hunter_ai.Prelude.Maps.{find}
use nexus_hunter_ai.Planner.Data.{PlanStep, InvestigationPlan, step_taken}
use nexus_hunter_ai.Planner.Validate.{validate_plan}
use nexus_hunter_ai.Planner.Service.{
  PlannerContext, Plans, build_plan, scoping_for, approved, approve_steps, approve_step,
}
use nexus_hunter_ai.Planner.Safety.{IsSafe, validate_plan_iff}
use nexus_hunter_ai.Planner.Approval.{Approves, approve_step-once}
use nexus_hunter_ai.Storage.Plans.{approve_plan_step}
use nexus_hunter_ai.Storage.Plans.Approval.{approve_step-approve_plan_step}
use nexus_hunter_ai.Tests.Scope.{small_platform, example_target}

abbrev routes : PlannerContext
routes = record {
  asset_hostname = none;
  services = [];
  js_references = codes "/api/users" ∷ [];
  cloud_references = [];
  waf_observation = none;
  hypothesis_id = "hyp-1";
  hypothesis_title = codes "Open API";
  source_evidence_ids = "ev-1" ∷ [];
}

abbrev open_plan : InvestigationPlan
open_plan = build_plan "plan-1" 7 (example_target []) "asset-1" routes

validate_plan_iff_example :
    (validate_plan small_platform
        (scoping_for small_platform true (example_target []))
        (some open_plan)
      ≡ ok tt)
    ↔ ((open_plan.epistemic_status == "CONFIRMED"
            && ltb open_plan.evidence_satisfied_count open_plan.evidence_required_count
          ≡ false)
        × All
            (IsSafe small_platform (scoping_for small_platform true (example_target [])))
            open_plan.steps)
validate_plan_iff_example =
    validate_plan_iff small_platform (scoping_for small_platform true (example_target [])) open_plan

abbrev plans : Plans
plans = ("plan-1", open_plan) ∷ []

abbrev first_step : PlanStep
first_step = record {
  step_number = 1;
  action_type = "INSPECT_HEADERS";
  description = codes "Retrieve the headers";
  target_url = codes "https://example.com";
  status = "PENDING";
  approved_by_human = false;
  approved_at = none;
}

abbrev short_plan : InvestigationPlan
short_plan = record open_plan { steps = first_step ∷ [] }

abbrev short_plans : Plans
short_plans = ("plan-1", short_plan) ∷ []

abbrev short_approved : InvestigationPlan
short_approved = record short_plan {
  steps = approved 8 first_step ∷ [];
  status = "APPROVED";
  updated_at = 8;
}

short_found : find short_plans "plan-1" ≡ some short_plan
unfolding find
short_found = refl

short_granted : (approve_step 8 "plan-1" 1 short_plans).1 ≡ ok short_approved
unfolding approve_step find build_plan approve_steps
short_granted = refl

approve_step-once_example :
    Approves 8 1 (first_step ∷ []) short_approved.steps
    × (find (approve_step 8 "plan-1" 1 short_plans).0 "plan-1" ≡ some short_approved)
    × (short_approved.status ≡ "APPROVED")
    × ((approve_step 9 "plan-1" 1 (approve_step 8 "plan-1" 1 short_plans).0).1
        ≡ err (step_taken 1 "APPROVED"))
approve_step-once_example = approve_step-once 8 "plan-1" 1 short_plans 9 short_found short_granted

approve_step-approve_plan_step_example :
    approve_plan_step 8 "plan-1" 1 short_plans ≡ ok (approve_step 8 "plan-1" 1 short_plans).0
unfolding approve_step find build_plan approve_steps
approve_step-approve_plan_step_example =
    approve_step-approve_plan_step 8 "plan-1" 1 short_plans
      (approve_step 8 "plan-1" 1 short_plans).0 short_approved refl
