-- ===== src/Reasoning/Machines.antt =====
-- What the transition checks allow over a sequence of accepted transitions.
use nexus_hunter_ai.Prelude.{
  String, ◌≡◌, ◌≢◌, refl, subst, ◌||◌, Bool, true, false, ◌==◌, eq_iff, arith, ◌⊎◌, inl, inr,
  Bool-cases, List, [], ◌∷◌, Has,
}
use nexus_hunter_ai.Reasoning.Transitions.{
  validate_hypothesis_transition, validate_investigation_transition, hypothesized, investigating,
  supported, falsified, dismissed, unknown, planned, queued, running, completed, failed, cancelled,
}

-- the statuses that a check accepts one after the other, the first and the last included
pub data Run (check : String → String → Bool) (a : String) : List String → String → Type 0 where
  stay : Run check a (a ∷ []) a
  step :
      {trail : List String} {b c : String}
      → Run check a trail b
      → check b c ≡ true
      → Run check a (c ∷ trail) c

last-Has :
    {check : String → String → Bool} {a b : String} {trail : List String}
    → Run check a trail b
    → Has b trail
last-Has stay = inl refl
last-Has (step r k) = inl refl

-- A status that one other status alone leads to is reached through that one.
gate :
    {check : String → String → Bool} {a b : String} {trail : List String} (g : String)
    (P : String → Type 0)
    → ((c d : String) → P d → check c d ≡ true → P c ⊎ (c ≡ g))
    → ¬ P a
    → Run check a trail b
    → P b
    → Has g trail
gate g P only away stay p = absurd (away p)
gate g P only away (step {trail = trail} {b = c} {c = d} r k) p = elim (only c d p k) [
  | inl q ↦ inr (gate g P only away r q)
  | inr e ↦ inr (subst (λ x. Has x trail) e (last-Has r))
]

ne-by : {a b : String} → a == b ≡ false → a ≢ b
ne-by {a} {b} h e = cc (h, (eq_iff a b).1 e)

-- what a hypothesis can only become while it is investigated
abbrev pub is_verdict : String → Bool
is_verdict s = s == supported || s == falsified || s == unknown

supported_from :
    (c : String)
    → validate_hypothesis_transition c supported ≡ true
    → (c ≡ supported) ⊎ (c ≡ investigating)
unfolding validate_hypothesis_transition
supported_from c h = ground (
  arith,
  eq_iff c supported,
  eq_iff c hypothesized,
  eq_iff c investigating,
  eq_iff c falsified,
  eq_iff c unknown,
  eq_iff c dismissed,
)

falsified_from :
    (c : String)
    → validate_hypothesis_transition c falsified ≡ true
    → (c ≡ falsified) ⊎ (c ≡ investigating)
unfolding validate_hypothesis_transition
falsified_from c h = ground (
  arith,
  eq_iff c supported,
  eq_iff c hypothesized,
  eq_iff c investigating,
  eq_iff c falsified,
  eq_iff c unknown,
  eq_iff c dismissed,
)

unknown_from :
    (c : String)
    → validate_hypothesis_transition c unknown ≡ true
    → (c ≡ unknown) ⊎ (c ≡ investigating)
unfolding validate_hypothesis_transition
unknown_from c h = ground (
  arith,
  eq_iff c supported,
  eq_iff c hypothesized,
  eq_iff c investigating,
  eq_iff c falsified,
  eq_iff c unknown,
  eq_iff c dismissed,
)

verdict_from :
    (c b : String)
    → is_verdict b ≡ true
    → validate_hypothesis_transition c b ≡ true
    → (c ≡ b) ⊎ (c ≡ investigating)
verdict_from c b v h = elim (Bool-cases (b == supported)) [
  | inl e ↦ go supported ((eq_iff b supported).0 e) (supported_from c)
  | inr n ↦ elim (Bool-cases (b == falsified)) [
    | inl e ↦ go falsified ((eq_iff b falsified).0 e) (falsified_from c)
    | inr m ↦ go unknown ((eq_iff b unknown).0 (ground arith)) (unknown_from c)
  ]
]
  where
    go :
        (s : String)
        → b ≡ s
        → (validate_hypothesis_transition c s ≡ true → (c ≡ s) ⊎ (c ≡ investigating))
        → (c ≡ b) ⊎ (c ≡ investigating)
    go s e f = rw e (f (rw (← e) h))

-- No hypothesis becomes supported, falsified or unknown without an investigation: every accepted
-- sequence of transitions to such a status from another one passes through INVESTIGATING.
pub verdict_needs_investigation :
    {trail : List String} (a b : String)
    → Run validate_hypothesis_transition a trail b
    → is_verdict b ≡ true
    → a == b ≡ false
    → Has investigating trail
verdict_needs_investigation a b r v n =
    gate investigating (λ s. s ≡ b)
      (λ c d e h. elim (verdict_from c b v (rw e at h)) [ inl k ↦ inl k | inr k ↦ inr k ]) (ne-by n)
      r refl

completed_from :
    (c : String)
    → validate_investigation_transition c completed ≡ true
    → (c ≡ completed) ⊎ (c ≡ running)
unfolding validate_investigation_transition
completed_from c h = ground (
  arith,
  eq_iff c completed,
  eq_iff c running,
  eq_iff c planned,
  eq_iff c queued,
  eq_iff c failed,
  eq_iff c cancelled,
)

-- Every accepted sequence of transitions of an investigation to COMPLETED from another status passes
-- through RUNNING.
pub completed_needs-Run :
    {trail : List String} (a : String)
    → Run validate_investigation_transition a trail completed
    → a == completed ≡ false
    → Has running trail
completed_needs-Run a r n =
    gate running (λ s. s ≡ completed) (λ c d e h. completed_from c (rw e at h)) (ne-by n) r refl

completed_to : (b : String) → validate_investigation_transition completed b ≡ true → b ≡ completed
unfolding validate_investigation_transition
completed_to b h = ground (arith, eq_iff completed b)

-- Every accepted sequence of transitions of an investigation from COMPLETED ends at COMPLETED.
pub completed_final :
    {trail : List String} (b : String)
    → Run validate_investigation_transition completed trail b
    → b ≡ completed
completed_final b stay = refl
completed_final b (step {c = c} r k) = completed_to b (rw (← completed_final _ r) k)
