-- ===== src/Planner/Approval.antt =====
-- What ApproveStep changes, and what the plans of the service await.
use nexus_hunter_ai.Prelude.{
  ℕ, String, false, some, List, [], ◌∷◌, ◌==◌, ◌≡◌, refl, arith, Bool-cases, inl, inr, Result, ok,
  err, nat_eq, ◌≢◌, subst, sym, ◌∙◌, eq_refl, bind-ok, Result-cases,
}
use nexus_hunter_ai.Prelude.Maps.{find, put, find-put}
use nexus_hunter_ai.Planner.Data.{PlanStep, InvestigationPlan, PlanError, step_taken}
use nexus_hunter_ai.Planner.Service.{
  Plans, approved, approve_steps, approve_step, is_closed, is_taken,
}

-- One step, the first of the number, which was not taken yet, is approved; the others are as before.
pub data Approves (now n : ℕ) : List PlanStep → List PlanStep → Type 0 where
  this :
      {s : PlanStep} {ss : List PlanStep}
      → s.step_number ≡ n
      → (s.status == "APPROVED") ≡ false
      → Approves now n (s ∷ ss) (approved now s ∷ ss)
  beyond :
      {s : PlanStep} {ss ss' : List PlanStep}
      → s.step_number ≢ n
      → Approves now n ss ss'
      → Approves now n (s ∷ ss) (s ∷ ss')

ok-injective {ℓ κ} : {E : Type ℓ} {A : Type κ} {a b : A} → Path (Result E A) (ok a) (ok b) → a ≡ b
ok-injective e = cc

approve_steps-Approves :
    (now n : ℕ) (ss : List PlanStep) {ss' : List PlanStep}
    → approve_steps now n ss ≡ ok ss'
    → Approves now n ss ss'
unfolding approve_steps
approve_steps-Approves now n [] h = cc
approve_steps-Approves now n (s ∷ ss) {ss'} h = elim (Bool-cases (nat_eq s.step_number n)) [
  | inl e ↦ elim (Bool-cases (is_taken s.status)) [
    | inl t ↦ cc (rw (e, t) at h)
    | inr f ↦
        subst (Approves now n (s ∷ ss)) (ok-injective (rw (e, f) at h))
          (this (ground arith) (ground arith))
  ]
  | inr e ↦
      let (rest, k, last) = bind-ok (approve_steps now n ss) _ (rw e at h) in
      subst (Approves now n (s ∷ ss)) (ok-injective last)
        (beyond (ground arith) (approve_steps-Approves now n ss k))
]

Approves-again :
    (now next n : ℕ) {ss ss' : List PlanStep}
    → Approves now n ss ss'
    → approve_steps next n ss' ≡ err (step_taken n "APPROVED")
unfolding approve_steps approved
Approves-again now next n (this {s = s} e f) = ground arith
Approves-again now next n (beyond {s = s} e r) = rw (Approves-again now next n r) (ground arith)

-- the plan with its steps after an approval
abbrev with_steps : ℕ → InvestigationPlan → List PlanStep → InvestigationPlan
with_steps now plan steps = record plan { steps = steps; status = "APPROVED"; updated_at = now }

find-put_same :
    (plans : Plans) (id : String) (p : InvestigationPlan) → find (put plans id p) id ≡ some p
find-put_same plans id p = find-put plans id id p ∙ rw (eq_refl id) refl

module _ (now : ℕ) (id : String) (n : ℕ) (plans : Plans) where
  -- An approval that is refused changes no plan.
  pub refused-unchanged :
      (e : PlanError)
      → (approve_step now id n plans).1 ≡ err e
      → (approve_step now id n plans).0 ≡ plans
  unfolding approve_step
  refused-unchanged e h = ground arith

  granted :
      {plan : InvestigationPlan} {steps : List PlanStep}
      → find plans id ≡ some plan
      → is_closed plan.status ≡ false
      → approve_steps now n plan.steps ≡ ok steps
      → approve_step now id n plans
        ≡ (put plans id (with_steps now plan steps), ok (with_steps now plan steps))
  unfolding approve_step
  granted found is_open fine = rw (approve_step, found, is_open, fine) refl

  again :
      (next : ℕ) (plan : InvestigationPlan) {steps : List PlanStep}
      → Approves now n plan.steps steps
      → (approve_step next id n (put plans id (with_steps now plan steps))).1
        ≡ err (step_taken n "APPROVED")
  unfolding approve_step
  again next plan {steps} r =
      rw
        (
          approve_step,
          find-put_same plans id (with_steps now plan steps),
          Approves-again now next n r,
        )
        refl

  -- the steps that an approval leads to
  outcome :
      {plan plan' : InvestigationPlan}
      → find plans id ≡ some plan
      → (approve_step now id n plans).1 ≡ ok plan'
      → (steps : List PlanStep) × (is_closed plan.status ≡ false)
        × (approve_steps now n plan.steps ≡ ok steps)
        × (plan' ≡ with_steps now plan steps)
  unfolding approve_step
  outcome {plan} found h = elim (Bool-cases (is_closed plan.status)) [
    | inl t ↦ cc (rw (approve_step, found, t) at h)
    | inr f ↦ elim (Result-cases (approve_steps now n plan.steps)) [
      | inl (steps, fine) ↦
          (steps, f, fine, sym (ok-injective (rw (approve_step, found, f, fine) at h)))
      | inr (e, bad) ↦ cc (rw (approve_step, found, f, bad) at h)
    ]
  ]

  -- An approval that is granted sets the first step of the number, which was not approved before, and no
  -- other step; the plan is stored with the status APPROVED; and the same approval is refused from
  -- then on.
  pub approve_step-once :
      (next : ℕ) {plan plan' : InvestigationPlan}
      → find plans id ≡ some plan
      → (approve_step now id n plans).1 ≡ ok plan'
      → Approves now n plan.steps plan'.steps
        × (find (approve_step now id n plans).0 id ≡ some plan')
        × (plan'.status ≡ "APPROVED")
        × ((approve_step next id n (approve_step now id n plans).0).1
            ≡ err (step_taken n "APPROVED"))
  approve_step-once next {plan} {plan'} found h =
      let (steps, is_open, fine, e) = outcome found h in
      let marked = approve_steps-Approves now n plan.steps fine in
      rw (e, granted found is_open fine)
        (marked, find-put_same plans id (with_steps now plan steps), refl, again next plan marked)
