-- ===== src/Reasoning/Priority.antt =====
-- The priority that PlanInvestigation gives, and what a new investigation starts with.
use nexus_hunter_ai.Prelude.{
  ℕ, String, ◌≡◌, ◌≢◌, refl, Bool, Option, some, arith, ltb, leb, All, Bool-cases, inl, inr, Result,
  ok,
}
use nexus_hunter_ai.Reasoning.Transitions.{planned}
use nexus_hunter_ai.Reasoning.Plan.{
  Hypothesis, Investigation, InvestigationStep, PlanError, priority_level, investigation_for,
  plan_investigation,
}

not_critical : (n : ℕ) → priority_level n ≢ "CRITICAL"
unfolding priority_level
not_critical n h = elim (Bool-cases (leb 75 n)) [
  | inl t ↦ cc (rw t at h)
  | inr f ↦ elim (Bool-cases (leb 90 n)) [
    | inl k ↦ ground arith
    | inr k ↦ elim (Bool-cases (ltb n 40)) [
      | inl l ↦ cc (rw (f, k, l) at h)
      | inr l ↦ cc (rw (f, k, l) at h)
    ]
  ]
]

ok-eq : {a b : Investigation} → Path (Result PlanError Investigation) (ok a) (ok b) → a ≡ b
ok-eq e = cc

-- An investigation that PlanInvestigation returns is PLANNED, belongs to the hypothesis that was asked
-- for and its target, has steps that are all PENDING, and never has the priority CRITICAL, whatever
-- the hypothesis scores, 90 and above included.
pub planned-not-critical :
    (get : String → Option Hypothesis) (save : Investigation → Bool) (inv_id created_by : String)
    (now : ℕ) (hypothesis_id : String) {hyp : Hypothesis} {inv : Investigation}
    → get hypothesis_id ≡ some hyp
    → plan_investigation get save inv_id created_by now hypothesis_id ≡ ok inv
    → (inv.status ≡ planned)
      × (inv.hypothesis_id ≡ hyp.id)
      × (inv.target_id ≡ hyp.target_id)
      × All (λ (s : InvestigationStep). s.status ≡ "PENDING") inv.steps
      × (inv.priority ≢ "CRITICAL")
unfolding plan_investigation investigation_for
planned-not-critical get save inv_id created_by now hypothesis_id {hyp} {inv} found h =
    let plan = investigation_for inv_id created_by now hyp in
    elim (Bool-cases (save plan)) [
      | inl t ↦ rw (← ok-eq (rw (plan_investigation, found, t) at h)) (
        refl,
        refl,
        refl,
        (refl, (refl, (refl, (refl, tt)))),
        not_critical hyp.investigation_priority,
      )
      | inr f ↦ cc (rw (plan_investigation, found, f) at h)
    ]
