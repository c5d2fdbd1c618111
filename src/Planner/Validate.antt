-- ===== src/Planner/Validate.antt =====
-- planner.go: ValidatePlan.
use nexus_hunter_ai.Prelude.{
  String, ◌&&◌, ◌||◌, Option, none, some, List, [], ◌∷◌, ◌==◌, if◌then◌else◌, ltb, any, Result, ok,
  err, ◌>>=◌,
}
use nexus_hunter_ai.Prelude.Texts.{Text, contains, to_lower, is_empty}
use nexus_hunter_ai.Scope.Platform.{Platform}
use nexus_hunter_ai.Scope.Evaluate.{ScopeDecision}
use nexus_hunter_ai.Planner.Data.{
  PlanStep, InvestigationPlan, PlanError, nil_plan, premature_confirmation, action_not_allowed,
  destructive_action, target_out_of_scope, allowed_action_types, banned_exploit_words,
}

unfoldable pub check_action : String → Result PlanError (Unit {0})
check_action action =
    if any (λ a. a == action) allowed_action_types then ok tt else err (action_not_allowed action)

unfoldable pub check_words : Text → List Text → Result PlanError (Unit {0})
check_words desc_lower [] = ok tt
check_words desc_lower (banned ∷ rest) =
    let next = check_words desc_lower rest in
    if contains desc_lower banned then err (destructive_action banned) else next

-- The scope service is what Evaluate answers for the target; it is none where the service or the
-- target is nil.
abbrev pub Scoping : Type 0
Scoping = Option ((hostname raw_url : Text) → ScopeDecision)

abbrev pub decided : Text → ScopeDecision → Result PlanError (Unit {0})
decided url (ok matched) = ok tt
decided url (err reason) = err (target_out_of_scope url reason)

module _ (pf : Platform) (scoping : Scoping) where
  unfoldable pub check_url : PlanStep → Result PlanError (Unit {0})
  check_url step = elim scoping [
    | none ↦ ok tt
    | some evaluate ↦
        if is_empty step.target_url then ok tt else elim (pf.parse_url step.target_url) [
          | none ↦ ok tt
          | some u ↦
              if is_empty u.hostname || step.action_type == "SAFE_METADATA_CHECK"
              then ok tt
              else decided step.target_url (evaluate u.hostname step.target_url)
        ]
  ]

  unfoldable pub check_step : PlanStep → Result PlanError (Unit {0})
  check_step step = do
    _ ← check_action step.action_type
    _ ← check_words (to_lower step.description) banned_exploit_words
    check_url step

  unfoldable pub check_steps : List PlanStep → Result PlanError (Unit {0})
  check_steps [] = ok tt
  check_steps (s ∷ ss) = check_step s >>= λ _. check_steps ss

  -- ValidatePlan
  unfoldable pub validate_plan : Option InvestigationPlan → Result PlanError (Unit {0})
  validate_plan none = err nil_plan
  validate_plan (some plan) =
      if plan.epistemic_status == "CONFIRMED"
        && ltb plan.evidence_satisfied_count plan.evidence_required_count
      then err premature_confirmation
      else check_steps plan.steps
