-- ===== src/Scope/Authorized.antt =====
-- What a decision of Evaluate means: an independent description of an authorized request.
use nexus_hunter_ai.Prelude.{
  ◌≡◌, ◌≢◌, refl, ◌↔◌, true, false, not, ◌&&◌, none, some, List, [], ◌∷◌, ◌++◌, ◌==◌, eq_iff, arith,
  ◌⊎◌, inl, inr, Bool-cases, Option-cases, All, Has, All-Has, sym, subst, ◌∙◌, Result, ok, bind-ok,
}
use nexus_hunter_ai.Prelude.Texts.{Text, codes, to_lower, trim_space, is_empty}
use nexus_hunter_ai.Models.{Target, target_active}
use nexus_hunter_ai.Scope.Platform.{Platform}
use nexus_hunter_ai.Scope.Hosts.{is_valid_hostname, matches_pattern}
use nexus_hunter_ai.Scope.Evaluate.{
  Reason, Request, read_request, check_host, check_excluded_patterns, rule_applies,
  check_exclude_rules, exclude_of, include_of, allowed_list, find_domain, find_include,
  check_include, find_path, check_path, evaluate_target, evaluate,
}
use nexus_hunter_ai.Scope.Searches.{
  Spares, DomainCovers, RuleCovers, PathCovers, excluded_patterns_sound, excluded_patterns_complete,
  exclude_rules_sound, exclude_rules_complete, find_domain_sound, find_domain_complete,
  find_include_sound, find_include_complete, find_path_sound, find_path_complete,
}

-- A request is authorized for a target: the target is active, the request is well formed, nothing
-- excludes it, something includes it, and the path restrictions, if any, let its URL pass.
pub record Authorized (pf : Platform) (target : Target) (hostname raw_url : Text) : Type 0 where
  pub active : (target.status ≡ "") ⊎ (target.status ≡ target_active)
  pub request : Request
  pub is_read : read_request pf hostname raw_url ≡ ok request
  pub named : is_empty request.host ≡ false
  pub valid : is_valid_hostname pf request.host ≡ true
  pub not_excluded : All (Spares pf request raw_url) target.excluded_patterns
  pub no_rule_excludes :
      All (λ rule. rule_applies pf request rule ≡ false) (exclude_of pf target.scope_config)
  pub included :
      DomainCovers pf request (allowed_list pf target)
      ⊎ RuleCovers pf request (include_of pf target.scope_config)
  pub path :
      (target.allowed_url_patterns ≡ [])
      ⊎ ((request.url ≢ none) × PathCovers pf request target.allowed_url_patterns)

module _ (pf : Platform) (target : Target) (r : Request) where
  check_include_sound :
      {d : Text}
      → check_include pf target r ≡ ok d
      → DomainCovers pf r (allowed_list pf target)
        ⊎ RuleCovers pf r (include_of pf target.scope_config)
  unfolding check_include
  check_include_sound h = elim (Option-cases (find_domain pf r.host (allowed_list pf target))) [
    | inr (d, found) ↦ inl (find_domain_sound pf r (allowed_list pf target) found)
    | inl missing ↦ elim (Option-cases (find_include pf r (include_of pf target.scope_config))) [
      | inr (d, found) ↦ inr (find_include_sound pf r (include_of pf target.scope_config) found)
      | inl none_too ↦ ground arith
    ]
  ]

  check_include_complete :
      DomainCovers pf r (allowed_list pf target)
        ⊎ RuleCovers pf r (include_of pf target.scope_config)
      → (d : Text) × (check_include pf target r ≡ ok d)
  unfolding check_include
  check_include_complete h = elim (Option-cases (find_domain pf r.host (allowed_list pf target))) [
    | inr (d, found) ↦ (d, ground arith)
    | inl missing ↦ elim (Option-cases (find_include pf r (include_of pf target.scope_config))) [
      | inr (d, found) ↦ (d, ground arith)
      | inl none_too ↦ elim h [
        | inl k ↦ absurd (find_domain_complete pf r (allowed_list pf target) k missing)
        | inr k ↦ absurd (find_include_complete pf r (include_of pf target.scope_config) k none_too)
      ]
    ]
  ]

  check_path_sound :
      (ps : List Text) (m : Text) {d : Text}
      → check_path pf ps r m ≡ ok d
      → (ps ≡ []) ⊎ ((r.url ≢ none) × PathCovers pf r ps)
  unfolding check_path
  check_path_sound [] m h = inl refl
  check_path_sound (p ∷ ps) m h = elim (Option-cases r.url) [
    | inl no_url ↦ ground arith
    | inr (u, url) ↦ elim (Option-cases (find_path pf r.path (p ∷ ps))) [
      | inl missing ↦ ground arith
      | inr (d, found) ↦ inr (λ e. cc (url, e), find_path_sound pf r (p ∷ ps) found)
    ]
  ]

  check_path_complete :
      (ps : List Text) (m : Text)
      → (ps ≡ []) ⊎ ((r.url ≢ none) × PathCovers pf r ps)
      → (d : Text) × (check_path pf ps r m ≡ ok d)
  unfolding check_path
  check_path_complete [] m h = (m, refl)
  check_path_complete (p ∷ ps) m (inl e) = cc
  check_path_complete (p ∷ ps) m (inr (url, covers)) = elim (Option-cases r.url) [
    | inl no_url ↦ absurd (url no_url)
    | inr (u, has_url) ↦ elim (Option-cases (find_path pf r.path (p ∷ ps))) [
      | inl missing ↦ absurd (find_path_complete pf r (p ∷ ps) covers missing)
      | inr (d, found) ↦ (m ++ codes " && " ++ d, ground arith)
    ]
  ]

  check_host_sound :
      check_host pf r ≡ ok tt → (is_empty r.host ≡ false) × (is_valid_hostname pf r.host ≡ true)
  unfolding check_host
  check_host_sound h = ground arith

  check_host_complete :
      is_empty r.host ≡ false → is_valid_hostname pf r.host ≡ true → check_host pf r ≡ ok tt
  unfolding check_host
  check_host_complete h k = ground arith

module _ (pf : Platform) (target : Target) (hostname raw_url : Text) where
  status_sound :
      (not (target.status == "") && not (target.status == target_active)) ≡ false
      → (target.status ≡ "") ⊎ (target.status ≡ target_active)
  status_sound h = elim (Bool-cases (target.status == "")) [
    | inl e ↦ inl ((eq_iff target.status "").0 e)
    | inr n ↦ inr ((eq_iff target.status target_active).0 (ground arith))
  ]

  status_complete :
      (target.status ≡ "") ⊎ (target.status ≡ target_active)
      → (not (target.status == "") && not (target.status == target_active)) ≡ false
  status_complete h = ground (arith, eq_iff target.status "", eq_iff target.status target_active)

  sound_step :
      {d : Text}
      → evaluate_target pf target hostname raw_url ≡ ok d
      → Authorized pf target hostname raw_url
  unfolding evaluate_target
  sound_step h =
      elim (Bool-cases (not (target.status == "") && not (target.status == target_active))) [
        | inl off ↦ cc (rw off at h)
        | inr on ↦
            let (r, is_read, h₁) = bind-ok (read_request pf hostname raw_url) _ (rw on at h) in
            let (_, host, h₂) = bind-ok (check_host pf r) _ h₁ in
            let (_, patterns, h₃) =
              bind-ok (check_excluded_patterns pf r raw_url target.excluded_patterns) _ h₂ in
            let (_, rules, h₄) =
              bind-ok (check_exclude_rules pf r (exclude_of pf target.scope_config)) _ h₃ in
            let (m, inc, h₅) = bind-ok (check_include pf target r) _ h₄ in
            record {
              active = status_sound on;
              request = r;
              is_read = is_read;
              named = (check_host_sound pf target r host).0;
              valid = (check_host_sound pf target r host).1;
              not_excluded = excluded_patterns_sound pf r raw_url target.excluded_patterns patterns;
              no_rule_excludes = exclude_rules_sound pf r (exclude_of pf target.scope_config) rules;
              included = check_include_sound pf target r inc;
              path = check_path_sound pf target r target.allowed_url_patterns m h₅;
            }
      ]

  complete_step :
      Authorized pf target hostname raw_url
      → (d : Text) × (evaluate_target pf target hostname raw_url ≡ ok d)
  unfolding evaluate_target
  complete_step a =
      let r = a.request in
      let (m, inc) = check_include_complete pf target r a.included in
      let (d, path) = check_path_complete pf target r target.allowed_url_patterns m a.path in
      (
        d,
        rw
            (
              status_complete a.active,
              a.is_read,
              check_host_complete pf target r a.named a.valid,
              excluded_patterns_complete pf r raw_url target.excluded_patterns a.not_excluded,
              exclude_rules_complete pf r (exclude_of pf target.scope_config) a.no_rule_excludes,
              inc,
            )
            path,
      )

-- Evaluate authorizes a request for a target exactly when the target is active or has no status, the
-- request reads as a named valid host, no excluded pattern and no exclude rule touches it, an
-- allowed domain or an include rule covers it, and its path passes the target's URL patterns.
pub evaluate_iff :
    (pf : Platform) (target : Target) (hostname raw_url : Text)
    → ((d : Text) × (evaluate pf (some target) hostname raw_url ≡ ok d))
      ↔ Authorized pf target hostname raw_url
unfolding evaluate
evaluate_iff pf target hostname raw_url =
    (λ h. sound_step pf target hostname raw_url h.1, complete_step pf target hostname raw_url)

-- A request whose host matches an excluded pattern that is not blank is not authorized, whatever the
-- target allows.
pub excluded-refused :
    (pf : Platform) (target : Target) (hostname raw_url excluded : Text) {r : Request} {d : Text}
    → read_request pf hostname raw_url ≡ ok r
    → Has excluded target.excluded_patterns
    → is_empty (to_lower (trim_space excluded)) ≡ false
    → matches_pattern r.host (to_lower (trim_space excluded)) ≡ true
    → evaluate pf (some target) hostname raw_url ≢ ok d
unfolding evaluate
excluded-refused pf target hostname raw_url excluded {r} is_read listed present matched h =
    let a = sound_step pf target hostname raw_url h in
    let same : a.request ≡ r = ok-eq (sym a.is_read ∙ is_read) in
    clash (
      subst (λ q. Spares pf q raw_url excluded) same
        (All-Has (Spares pf a.request raw_url) excluded target.excluded_patterns a.not_excluded
          listed))
  where
    ok-eq : {q q' : Request} → Path (Result Reason Request) (ok q) (ok q') → q ≡ q'
    ok-eq e = cc

    clash : Spares pf r raw_url excluded → ⊥
    clash (inl gone) = cc (present, gone)
    clash (inr (spared, _)) = cc (matched, spared)
