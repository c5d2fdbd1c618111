-- ===== src/Planner/Safety.antt =====
-- What a plan that ValidatePlan accepts may do, and what the generated plans contain.
use nexus_hunter_ai.Prelude.{
  String, true, false, ◌&&◌, ◌||◌, none, some, List, [], ◌∷◌, ◌==◌, ◌≡◌, refl, arith, ltb, any, All,
  Bool-cases, inl, inr, ◌↔◌, ok, bind-ok, Option-cases, Result-cases,
}
use nexus_hunter_ai.Prelude.Texts.{Text, contains, to_lower, is_empty}
use nexus_hunter_ai.Scope.Platform.{Platform, Url}
use nexus_hunter_ai.Scope.Evaluate.{ScopeDecision}
use nexus_hunter_ai.Planner.Data.{
  PlanStep, InvestigationPlan, allowed_action_types, banned_exploit_words,
}
use nexus_hunter_ai.Planner.Validate.{
  Scoping, check_action, check_words, check_url, check_step, check_steps, validate_plan,
}

module _ (pf : Platform) (scoping : Scoping) where
  -- The URL of a step that may run: either there is no check of it, for one of the reasons that the
  -- service has, or the scope service authorizes it.
  pub data Permitted (step : PlanStep) : Type 0 where
    no_service : scoping ≡ none → Permitted step
    no_url : is_empty step.target_url ≡ true → Permitted step
    unreadable : pf.parse_url step.target_url ≡ none → Permitted step
    exempt :
        {u : Url}
        → pf.parse_url step.target_url ≡ some u
        → (is_empty u.hostname || step.action_type == "SAFE_METADATA_CHECK") ≡ true
        → Permitted step
    authorized :
        {check : (hostname raw_url : Text) → ScopeDecision} {u : Url} {matched : Text}
        → scoping ≡ some check
        → pf.parse_url step.target_url ≡ some u
        → check u.hostname step.target_url ≡ ok matched
        → Permitted step

  -- a step that may run: an allowed action, a description without a banned word, and a permitted URL
  pub record IsSafe (step : PlanStep) : Type 0 where
    pub allowed : any (λ a. a == step.action_type) allowed_action_types ≡ true
    pub harmless : All (λ w. contains (to_lower step.description) w ≡ false) banned_exploit_words
    pub in_scope : Permitted step

  url_sound : (s : PlanStep) → check_url pf scoping s ≡ ok tt → Permitted s
  unfolding check_url
  url_sound s h = elim (Option-cases scoping) [
    | inl gone ↦ no_service gone
    | inr (check, e) ↦ elim (Bool-cases (is_empty s.target_url)) [
      | inl empty ↦ no_url empty
      | inr url ↦ elim (Option-cases (pf.parse_url s.target_url)) [
        | inl bad ↦ unreadable bad
        | inr (u, parsed) ↦
            elim (Bool-cases (is_empty u.hostname || s.action_type == "SAFE_METADATA_CHECK")) [
              | inl x ↦ exempt parsed x
              | inr x ↦ elim (Result-cases (check u.hostname s.target_url)) [
                | inl (matched, fine) ↦ authorized e parsed fine
                | inr (reason, bad) ↦ cc (rw (e, url, parsed, x, bad) at h)
              ]
            ]
      ]
    ]
  ]

  url_complete : (s : PlanStep) → Permitted s → check_url pf scoping s ≡ ok tt
  unfolding check_url
  url_complete s (no_service e) = rw e refl
  url_complete s (no_url e) = ground arith
  url_complete s (unreadable e) = ground arith
  url_complete s (exempt e x) = ground arith
  url_complete s (authorized e f g) = ground arith

  words_sound :
      (d : Text) (ws : List Text) → check_words d ws ≡ ok tt → All (λ w. contains d w ≡ false) ws
  unfolding check_words
  words_sound d [] h = tt
  words_sound d (w ∷ ws) h = (ground arith, words_sound d ws (ground arith))

  words_complete :
      (d : Text) (ws : List Text) → All (λ w. contains d w ≡ false) ws → check_words d ws ≡ ok tt
  unfolding check_words
  words_complete d [] h = refl
  words_complete d (w ∷ ws) h = ground (arith, words_complete d ws h.1)

  action_sound :
      (a : String) → check_action a ≡ ok tt → any (λ b. b == a) allowed_action_types ≡ true
  unfolding check_action
  action_sound a h = elim (Bool-cases (any (λ b. b == a) allowed_action_types)) [
    | inl t ↦ t
    | inr n ↦ cc (rw n at h)
  ]

  step_sound : (s : PlanStep) → check_step pf scoping s ≡ ok tt → IsSafe s
  unfolding check_step
  step_sound s h =
      let (_, action, h₁) = bind-ok (check_action s.action_type) _ h in
      let (_, words, h₂) =
        bind-ok (check_words (to_lower s.description) banned_exploit_words) _ h₁ in
      record {
        allowed = action_sound s.action_type action;
        harmless = words_sound (to_lower s.description) banned_exploit_words words;
        in_scope = url_sound s h₂;
      }

  step_complete : (s : PlanStep) → IsSafe s → check_step pf scoping s ≡ ok tt
  unfolding check_step check_action
  step_complete s k =
      rw (k.allowed, words_complete (to_lower s.description) banned_exploit_words k.harmless)
        (url_complete s k.in_scope)

  steps_sound : (ss : List PlanStep) → check_steps pf scoping ss ≡ ok tt → All IsSafe ss
  unfolding check_steps
  steps_sound [] h = tt
  steps_sound (s ∷ ss) h =
      let (_, first, rest) = bind-ok (check_step pf scoping s) _ h in
      (step_sound s first, steps_sound ss rest)

  steps_complete : (ss : List PlanStep) → All IsSafe ss → check_steps pf scoping ss ≡ ok tt
  unfolding check_steps
  steps_complete [] h = refl
  steps_complete (s ∷ ss) h = rw (step_complete s h.0) (steps_complete ss h.1)

  -- ValidatePlan accepts a plan exactly when it does not claim CONFIRMED with too little evidence, and
  -- every step has an allowed action, a description with no banned word in any case of letters, and
  -- a URL that the scope service authorizes or that it does not check.
  pub validate_plan_iff :
      (plan : InvestigationPlan)
      → (validate_plan pf scoping (some plan) ≡ ok tt) ↔ (
          (plan.epistemic_status == "CONFIRMED"
              && ltb plan.evidence_satisfied_count plan.evidence_required_count
            ≡ false)
          × All IsSafe plan.steps)
  unfolding validate_plan
  validate_plan_iff plan =
      let early =
        plan.epistemic_status == "CONFIRMED"
        && ltb plan.evidence_satisfied_count plan.evidence_required_count in
      (
        λ h. elim (Bool-cases early) [
          | inl t ↦ cc (rw t at h)
          | inr f ↦ (f, steps_sound plan.steps (rw f at h))
        ],
        λ k. rw k.0 (steps_complete plan.steps k.1),
      )
