-- ===== src/Scope/Validate.antt =====
-- scope.go: ValidateTarget.
use nexus_hunter_ai.Prelude.{
  Bool, true, false, not, ◌&&◌, ◌||◌, Option, none, some, List, [], ◌∷◌, nat_eq, if◌then◌else◌,
  Result, ok, err, ◌>>=◌,
}
use nexus_hunter_ai.Prelude.Texts.{
  Text, codes, text_eq, has_prefix, trim_prefix, to_lower, trim_space, is_empty,
}
use nexus_hunter_ai.Models.{Target, AdvancedScopeRule, AdvancedScopeConfig}
use nexus_hunter_ai.Scope.Platform.{Platform}
use nexus_hunter_ai.Scope.Hosts.{is_valid_hostname}

pub data TargetError : Type 0 where
  nil_target empty_name empty_root wildcard_too_broad : TargetError
  invalid_root : Text → TargetError
  invalid_wildcard invalid_domain bad_include_regex bad_exclude_regex : Text → TargetError

-- strings.Count(d, ".") < 1
unfoldable pub has_no_dot : Text → Bool
has_no_dot [] = true
has_no_dot (c ∷ s) = not (nat_eq c b'.') && has_no_dot s

abbrev no_includes : Option AdvancedScopeConfig → Bool
no_includes none = true
no_includes (some c) = no_rules c.include
  where
    no_rules : List AdvancedScopeRule → Bool
    no_rules [] = true
    no_rules (x ∷ xs) = false

module _ (pf : Platform) where
  unfoldable pub check_domain : Text → Result TargetError (Unit {0})
  unfolding has_no_dot
  check_domain domain =
      let d = to_lower (trim_space domain) in
      if is_empty d
      then ok tt
      else if text_eq d (codes "*") || text_eq d (codes "*.") || has_no_dot d
      then err wildcard_too_broad
      else if has_prefix d (codes "*.")
      then (if not (is_valid_hostname pf (trim_prefix d (codes "*.")))
          then err (invalid_wildcard domain)
          else ok tt)
      else if not (is_valid_hostname pf d)
      then err (invalid_domain domain)
      else ok tt

  unfoldable pub check_domains : List Text → Result TargetError (Unit {0})
  unfolding check_domain
  check_domains [] = ok tt
  check_domains (d ∷ ds) = check_domain d >>= λ _. check_domains ds

  -- regexp.Compile fails on a host that is not empty
  abbrev bad_regex : AdvancedScopeRule → Bool
  bad_regex rule =
      not (is_empty rule.host) && elim (pf.compile rule.host) [ none ↦ true | some match ↦ false ]

  unfoldable pub check_regexes :
      (Text → TargetError) → List AdvancedScopeRule → Result TargetError (Unit {0})
  check_regexes e [] = ok tt
  check_regexes e (rule ∷ rules) =
      let next = check_regexes e rules in if bad_regex rule then err (e rule.host) else next

  unfoldable pub check_scope_config : Option AdvancedScopeConfig → Result TargetError (Unit {0})
  unfolding check_regexes
  check_scope_config none = ok tt
  check_scope_config (some c) =
      check_regexes bad_include_regex c.include >>= λ _. check_regexes bad_exclude_regex c.exclude

  -- ValidateTarget
  unfoldable pub validate_target : Option Target → Result TargetError (Unit {0})
  unfolding check_domains check_scope_config
  validate_target none = err nil_target
  validate_target (some target) =
      let root = to_lower (trim_space target.root_domain) in
      if is_empty (trim_space target.name)
      then err empty_name
      else if is_empty root && no_includes target.scope_config
      then err empty_root
      else if not (is_empty root) && not (is_valid_hostname pf root)
      then err (invalid_root root)
      else (check_domains target.allowed_domains >>= λ _. check_scope_config target.scope_config)
