-- ===== src/Storage/Plans.antt =====
-- memory.go: the repository of investigation plans, over the plans of the planner.
pub mod Approval
use nexus_hunter_ai.Prelude.{
  ℕ, String, ◌==◌, Bool, ◌&&◌, ◌||◌, Option, none, some, List, [], ◌∷◌, filter, ltb, nat_eq, Result,
  ok, err, if◌then◌else◌,
}
use nexus_hunter_ai.Prelude.Maps.{Map, find, put, values}
use nexus_hunter_ai.Prelude.Sorts.{sort_by}
use nexus_hunter_ai.Planner.Data.{InvestigationPlan, PlanStep}
use nexus_hunter_ai.Planner.Service.{approved}
use nexus_hunter_ai.Storage.Data.{StorageError, looked_up}

unfoldable pub save_investigation_plan :
    InvestigationPlan → Map InvestigationPlan → Map InvestigationPlan
save_investigation_plan plan plans = put plans plan.id plan

unfoldable pub get_investigation_plan :
    String → Map InvestigationPlan → Result StorageError InvestigationPlan
get_investigation_plan id plans = looked_up (find plans id) ok

unfoldable pub list_investigation_plans :
    (target_id asset_id : String) → Map InvestigationPlan → List InvestigationPlan
unfolding sort_by
list_investigation_plans target_id asset_id plans =
    sort_by (λ a b. ltb b.created_at a.created_at)
      (filter (λ p. p.target_id == target_id && (asset_id == "" || p.asset_id == asset_id))
        (values plans))

-- the loop of ApprovePlanStep: none where no step has the number
unfoldable pub approve_first : (now n : ℕ) → List PlanStep → Option (List PlanStep)
unfolding approved
approve_first now n [] = none
approve_first now n (s ∷ steps) =
    let rest = approve_first now n steps in
    if nat_eq s.step_number n
    then some (approved now s ∷ steps)
    else elim rest [ none ↦ none | some done ↦ some (s ∷ done) ]

-- ApprovePlanStep
unfoldable pub approve_plan_step :
    (now : ℕ) (plan_id : String) (step_number : ℕ)
    → Map InvestigationPlan
    → Result StorageError (Map InvestigationPlan)
unfolding approve_first
approve_plan_step now plan_id n plans = looked_up (find plans plan_id) λ plan.
    looked_up (approve_first now n plan.steps) λ steps.
      ok (put plans plan_id (record plan { steps = steps; status = "APPROVED"; updated_at = now }))

-- UpdatePlanStatus
unfoldable pub update_plan_status :
    (now : ℕ) (plan_id status : String)
    → Map InvestigationPlan
    → Result StorageError (Map InvestigationPlan)
update_plan_status now plan_id status plans =
    looked_up (find plans plan_id)
      λ plan. ok (put plans plan_id (record plan { status = status; updated_at = now }))
