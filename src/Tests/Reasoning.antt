-- ===== src/Tests/Reasoning.antt =====
-- The status checks and the planner of investigations on concrete runs.
use nexus_hunter_ai.Prelude.{String, ◌≡◌, ◌≢◌, refl, true, some, List, [], ◌∷◌, All, Has, ok}
use nexus_hunter_ai.Prelude.Texts.{codes}
use nexus_hunter_ai.Reasoning.Transitions.{
  validate_hypothesis_transition, hypothesized, investigating, supported, planned,
}
use nexus_hunter_ai.Reasoning.Machines.{Run, stay, step, verdict_needs_investigation}
use nexus_hunter_ai.Reasoning.Plan.{
  Hypothesis, Investigation, InvestigationStep, plan_investigation, investigation_for,
}
use nexus_hunter_ai.Reasoning.Priority.{planned-not-critical}

abbrev verdict_trail : List String
verdict_trail = supported ∷ investigating ∷ hypothesized ∷ []

verdict-Run : Run validate_hypothesis_transition hypothesized verdict_trail supported
unfolding validate_hypothesis_transition
verdict-Run = step (step stay refl) refl

verdict_needs_investigation_example : Has investigating verdict_trail
verdict_needs_investigation_example =
    verdict_needs_investigation hypothesized supported verdict-Run refl refl

abbrev urgent : Hypothesis
urgent = record {
  id = "hyp-1";
  target_id = "tgt-1";
  asset_id = "asset-1";
  group_id = "grp-1";
  title = codes "Broken access control";
  investigation_priority = 95;
  priority_breakdown = [];
}

abbrev urgent_plan : Investigation
urgent_plan = investigation_for "inv-1" "ai" 7 urgent

urgent_planned :
    plan_investigation (λ id. some urgent) (λ inv. true) "inv-1" "ai" 7 "hyp-1" ≡ ok urgent_plan
unfolding plan_investigation
urgent_planned = refl

planned-not-critical_example :
    (urgent_plan.status ≡ planned)
    × (urgent_plan.hypothesis_id ≡ "hyp-1")
    × (urgent_plan.target_id ≡ "tgt-1")
    × All (λ (s : InvestigationStep). s.status ≡ "PENDING") urgent_plan.steps
    × (urgent_plan.priority ≢ "CRITICAL")
planned-not-critical_example =
    planned-not-critical (λ id. some urgent) (λ inv. true) "inv-1" "ai" 7 "hyp-1" refl
      urgent_planned
