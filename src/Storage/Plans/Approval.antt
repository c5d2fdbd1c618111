-- ===== src/Storage/Plans/Approval.antt =====
-- memory.go and planner.go: two ways of approving a step.
use nexus_hunter_ai.Prelude.{
  ℕ, String, Option, none, some, List, [], ◌∷◌, nat_eq, Result, ok, err, bind-ok, if◌then◌else◌,
  if-cases, ◌≡◌, refl, inl, inr,
}
use nexus_hunter_ai.Prelude.Maps.{find, put}
use nexus_hunter_ai.Planner.Data.{
  InvestigationPlan, PlanError, PlanStep, plan_closed, plan_not_found,
}
use nexus_hunter_ai.Planner.Service.{Plans, approve_step, approve_steps, is_closed, is_taken}
use nexus_hunter_ai.Storage.Data.{looked_up}
use nexus_hunter_ai.Storage.Plans.{approve_first, approve_plan_step}

steps_agree :
    (now n : ℕ) (steps done : List PlanStep)
    → approve_steps now n steps ≡ ok done
    → approve_first now n steps ≡ some done
unfolding approve_steps approve_first
steps_agree now n [] done h = absurd (cc h)
steps_agree now n (s ∷ steps) done h = elim (if-cases (nat_eq s.step_number n) h) [
  | inl (b, h₁) ↦ elim (if-cases (is_taken s.status) h₁) [
    | inl e ↦ absurd (cc (e.1))
    | inr (_, h₂) ↦ rw (approve_first, b) (cc h₂)
  ]
  | inr (c, h₁) ↦
      let (rest, found, made) = bind-ok (approve_steps now n steps) (λ ss. ok (s ∷ ss)) h₁ in
      rw (approve_first, c, steps_agree now n steps rest found) (cc made)
]

-- the end of ApproveStep, once the steps were gone through
from_steps :
    (now : ℕ) (plan_id : String) (n : ℕ) (plans plans' : Plans) (old plan : InvestigationPlan)
    (r : Result PlanError (List PlanStep))
    → approve_steps now n old.steps ≡ r
    → elim r as (λ _. Plans × Result PlanError InvestigationPlan) [
      | err e ↦ (plans, err e)
      | ok steps ↦
          let plan' = record old { steps = steps; status = "APPROVED"; updated_at = now } in
          (put plans plan_id plan', ok plan')
    ]
      ≡ (plans', ok plan)
    → looked_up (approve_first now n old.steps) (λ steps.
      ok (put plans plan_id (record old { steps = steps; status = "APPROVED"; updated_at = now })))
      ≡ ok plans'
from_steps now plan_id n plans plans' old plan (err e) r h = absurd (cc h)
from_steps now plan_id n plans plans' old plan (ok steps) r h =
    rw (steps_agree now n old.steps steps r) (cc h)

-- ApproveStep, once the plan was looked up
from_lookup :
    (now : ℕ) (plan_id : String) (n : ℕ) (plans plans' : Plans) (plan : InvestigationPlan)
    (o : Option InvestigationPlan)
    → elim o as (λ _. Plans × Result PlanError InvestigationPlan) [
      | none ↦ (plans, err plan_not_found)
      | some found ↦
          if is_closed found.status
          then (plans, err (plan_closed found.status))
          else elim (approve_steps now n found.steps) [
            | err e ↦ (plans, err e)
            | ok steps ↦
                let plan' = record found { steps = steps; status = "APPROVED"; updated_at = now } in
                (put plans plan_id plan', ok plan')
          ]
    ]
      ≡ (plans', ok plan)
    → looked_up o (λ found. looked_up (approve_first now n found.steps) (λ steps.
      ok (
        put plans plan_id (record found { steps = steps; status = "APPROVED"; updated_at = now }))))
      ≡ ok plans'
from_lookup now plan_id n plans plans' plan none h = absurd (cc h)
from_lookup now plan_id n plans plans' plan (some found) h =
    elim (if-cases (is_closed found.status) h) [
      | inl e ↦ absurd (cc (e.1))
      | inr (_, h₁) ↦
          from_steps now plan_id n plans plans' found plan (approve_steps now n found.steps) refl h₁
    ]

-- Where the planner's ApproveStep grants an approval, the storage's ApprovePlanStep stores the same
-- plans. (It does not ask whether the plan is closed or the step taken, as the planner does.)
pub approve_step-approve_plan_step :
    (now : ℕ) (plan_id : String) (n : ℕ) (plans plans' : Plans) (plan : InvestigationPlan)
    → approve_step now plan_id n plans ≡ (plans', ok plan)
    → approve_plan_step now plan_id n plans ≡ ok plans'
unfolding approve_step approve_plan_step
approve_step-approve_plan_step now plan_id n plans plans' plan h =
    from_lookup now plan_id n plans plans' plan (find plans plan_id) h
