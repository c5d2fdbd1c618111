-- ===== src/Scope/Searches.antt =====
-- What the loops of Evaluate look for: each against a description of what it finds.
use nexus_hunter_ai.Prelude.{
  ◌≡◌, ◌≢◌, refl, true, false, not, ◌&&◌, ◌||◌, none, some, List, [], ◌∷◌, arith, ◌⊎◌, inl, inr,
  Bool-cases, All, Has, ok,
}
use nexus_hunter_ai.Prelude.Texts.{Text, contains, to_lower, trim_space, is_empty}
use nexus_hunter_ai.Models.{AdvancedScopeRule}
use nexus_hunter_ai.Scope.Platform.{Platform}
use nexus_hunter_ai.Scope.Hosts.{matches_pattern, matches_path_pattern}
use nexus_hunter_ai.Scope.Evaluate.{
  Request, check_excluded_patterns, path_excluded, rule_applies, check_exclude_rules, domain_allows,
  find_domain, find_include, find_path,
}

module _ (pf : Platform) (r : Request) where
  -- the exclusion does not touch the request
  abbrev pub Spares : Text → Text → Type 0
  Spares raw_url excluded =
      (is_empty (to_lower (trim_space excluded)) ≡ true)
      ⊎ ((matches_pattern r.host (to_lower (trim_space excluded)) ≡ false)
          × (not (is_empty raw_url)
                && (contains raw_url (to_lower (trim_space excluded))
                    || path_excluded pf r.url (to_lower (trim_space excluded)))
              ≡ false))

  pub excluded_patterns_sound :
      (raw_url : Text) (ps : List Text)
      → check_excluded_patterns pf r raw_url ps ≡ ok tt
      → All (Spares raw_url) ps
  unfolding check_excluded_patterns
  excluded_patterns_sound raw_url [] h = tt
  excluded_patterns_sound raw_url (p ∷ ps) h =
      (ground arith, excluded_patterns_sound raw_url ps (ground arith))

  pub excluded_patterns_complete :
      (raw_url : Text) (ps : List Text)
      → All (Spares raw_url) ps
      → check_excluded_patterns pf r raw_url ps ≡ ok tt
  unfolding check_excluded_patterns
  excluded_patterns_complete raw_url [] h = refl
  excluded_patterns_complete raw_url (p ∷ ps) h =
      ground (arith, excluded_patterns_complete raw_url ps h.1)

  pub exclude_rules_sound :
      (rules : List AdvancedScopeRule)
      → check_exclude_rules pf r rules ≡ ok tt
      → All (λ rule. rule_applies pf r rule ≡ false) rules
  unfolding check_exclude_rules
  exclude_rules_sound [] h = tt
  exclude_rules_sound (x ∷ rules) h = (ground arith, exclude_rules_sound rules (ground arith))

  pub exclude_rules_complete :
      (rules : List AdvancedScopeRule)
      → All (λ rule. rule_applies pf r rule ≡ false) rules
      → check_exclude_rules pf r rules ≡ ok tt
  unfolding check_exclude_rules
  exclude_rules_complete [] h = refl
  exclude_rules_complete (x ∷ rules) h = ground (arith, exclude_rules_complete rules h.1)

  -- a domain of the allowed list covers the host
  abbrev pub DomainCovers : List Text → Type 0
  DomainCovers l = (rule : Text) × Has rule l × (domain_allows pf r.host rule ≡ true)

  abbrev pub RuleCovers : List AdvancedScopeRule → Type 0
  RuleCovers l = (rule : AdvancedScopeRule) × Has rule l × (rule_applies pf r rule ≡ true)

  pub find_domain_sound :
      (l : List Text) {d : Text} → find_domain pf r.host l ≡ some d → DomainCovers l
  unfolding find_domain
  find_domain_sound [] h = cc
  find_domain_sound (x ∷ l) h = elim (Bool-cases (domain_allows pf r.host x)) [
    | inl t ↦ (x, inl refl, t)
    | inr f ↦ let (rule, k, e) = find_domain_sound l (rw f at h) in (rule, inr k, e)
  ]

  pub find_domain_complete : (l : List Text) → DomainCovers l → find_domain pf r.host l ≢ none
  unfolding find_domain
  find_domain_complete [] c h = absurd c.1
  find_domain_complete (x ∷ l) (rule, inl e, k) h = cc (rw (← e, k) at h)
  find_domain_complete (x ∷ l) (rule, inr e, k) h =
      find_domain_complete l (rule, e, k) (ground arith)

  pub find_include_sound :
      (l : List AdvancedScopeRule) {d : Text} → find_include pf r l ≡ some d → RuleCovers l
  unfolding find_include
  find_include_sound [] h = cc
  find_include_sound (x ∷ l) h = elim (Bool-cases (rule_applies pf r x)) [
    | inl t ↦ (x, inl refl, t)
    | inr f ↦ let (rule, k, e) = find_include_sound l (rw f at h) in (rule, inr k, e)
  ]

  pub find_include_complete :
      (l : List AdvancedScopeRule) → RuleCovers l → find_include pf r l ≢ none
  unfolding find_include
  find_include_complete [] c h = absurd c.1
  find_include_complete (x ∷ l) (rule, inl e, k) h = cc (rw (← e, k) at h)
  find_include_complete (x ∷ l) (rule, inr e, k) h =
      find_include_complete l (rule, e, k) (ground arith)

  -- a pattern of the target covers the path of the URL
  abbrev pub PathCovers : List Text → Type 0
  PathCovers l =
      (p : Text) × Has p l
      × (is_empty (trim_space p) ≡ false)
      × (matches_path_pattern r.path (trim_space p) ≡ true)

  pub find_path_sound : (l : List Text) {d : Text} → find_path pf r.path l ≡ some d → PathCovers l
  unfolding find_path
  find_path_sound [] h = cc
  find_path_sound (x ∷ l) h = elim (Bool-cases (is_empty (trim_space x))) [
    | inl t ↦ let (p, k, e, m) = find_path_sound l (rw t at h) in (p, inr k, e, m)
    | inr f ↦ elim (Bool-cases (matches_path_pattern r.path (trim_space x))) [
      | inl m ↦ (x, inl refl, f, m)
      | inr n ↦ let (p, k, e, m) = find_path_sound l (rw (f, n) at h) in (p, inr k, e, m)
    ]
  ]

  pub find_path_complete : (l : List Text) → PathCovers l → find_path pf r.path l ≢ none
  unfolding find_path
  find_path_complete [] c h = absurd c.1
  find_path_complete (x ∷ l) (p, inl e, k, m) h = cc (rw (← e, k, m) at h)
  find_path_complete (x ∷ l) (p, inr e, k, m) h = find_path_complete l (p, e, k, m) (ground arith)
