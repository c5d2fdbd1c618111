-- ===== src/Scope/Evaluate.antt =====
-- scope.go: Validator.Evaluate and IsInScope. Each return of a refusal is an error of a `Result`.
use nexus_hunter_ai.Prelude.{
  Bool, true, false, not, ◌&&◌, ◌||◌, Option, none, some, List, [], ◌∷◌, ◌++◌, ◌==◌, if◌then◌else◌,
  Result, ok, err, ◌>>=◌,
}
use nexus_hunter_ai.Prelude.Texts.{
  Text, codes, text_eq, has_prefix, trim_prefix, contains, to_lower, trim_space, is_empty,
}
use nexus_hunter_ai.Models.{Target, target_active, AdvancedScopeRule, AdvancedScopeConfig}
use nexus_hunter_ai.Scope.Platform.{Platform, Url}
use nexus_hunter_ai.Scope.Hosts.{
  is_valid_hostname, under_base, matches_pattern, matches_path_pattern,
}
use nexus_hunter_ai.Scope.Rules.{match_advanced_rule}

-- the reasons of a refusal, with what their messages quote
pub data Reason : Type 0 where
  target_nil target_inactive malformed_url bad_scheme missing_host host_mismatch : Reason
  malformed_host : Text → Reason
  host_excluded : Text → Reason
  url_excluded : Text → Reason
  rule_excluded : AdvancedScopeRule → Reason
  out_of_scope : Text → Reason
  url_required : Reason
  path_restricted : Text → Reason

-- ScopeDecision: the matched rule of an authorization, or the reason of a refusal
abbrev pub ScopeDecision : Type 0
ScopeDecision = Result Reason Text

-- what Evaluate knows of the request after parsing
pub record Request : Type 0 where
  pub host : Text
  pub url : Option Url
  pub protocol : Text
  pub port : Text
  pub path : Text

abbrev default_port : Text → Text → Text
default_port protocol port =
    if not (is_empty port)
    then port
    else if text_eq protocol (codes "https")
    then codes "443"
    else if text_eq protocol (codes "http")
    then codes "80"
    else port

abbrev default_path : Text → Text
default_path path = if is_empty path then codes "/" else path

module _ (pf : Platform) where
  unfoldable pub read_url : Text → Url → Result Reason Request
  read_url host u =
      let protocol = to_lower u.scheme in
      if not (text_eq u.scheme (codes "http")) && not (text_eq u.scheme (codes "https"))
      then err bad_scheme
      else if is_empty u.hostname
      then err missing_host
      else if not (is_empty host) && not (text_eq (to_lower u.hostname) host)
      then err host_mismatch
      else ok (record {
        host = if is_empty host then to_lower u.hostname else host;
        url = some u;
        protocol = protocol;
        port = default_port protocol u.port;
        path = default_path u.path;
      })

  -- the request's host, and its URL if there is one
  unfoldable pub read_request : (hostname raw_url : Text) → Result Reason Request
  unfolding read_url
  read_request hostname raw_url =
      let host = to_lower (trim_space hostname) in
      if is_empty raw_url
      then ok
          (record { host = host; url = none; protocol = codes "any"; port = []; path = codes "/" })
      else elim (pf.parse_url raw_url) [ none ↦ err malformed_url | some u ↦ read_url host u ]

  unfoldable pub check_host : Request → Result Reason (Unit {0})
  check_host r =
      if is_empty r.host
      then err (malformed_host [])
      else if not (is_valid_hostname pf r.host)
      then err (malformed_host r.host)
      else ok tt

  -- does the URL's path start with an exclusion
  abbrev pub path_excluded : Option Url → Text → Bool
  path_excluded none ex = false
  path_excluded (some u) ex = has_prefix u.path ex

  -- step 1 A: the simple exclusions
  unfoldable pub check_excluded_patterns :
      Request → (raw_url : Text) → List Text → Result Reason (Unit {0})
  check_excluded_patterns r raw_url [] = ok tt
  check_excluded_patterns r raw_url (excluded ∷ rest) =
      let ex = to_lower (trim_space excluded) in
      let next = check_excluded_patterns r raw_url rest in
      if is_empty ex
      then next
      else if matches_pattern r.host ex
      then err (host_excluded ex)
      else if not (is_empty raw_url) && (contains raw_url ex || path_excluded r.url ex)
      then err (url_excluded ex)
      else next

  abbrev pub rule_applies : Request → AdvancedScopeRule → Bool
  rule_applies r rule = rule.enabled && match_advanced_rule pf rule r.host r.port r.protocol r.path

  -- step 1 B: the exclude rules
  unfoldable pub check_exclude_rules : Request → List AdvancedScopeRule → Result Reason (Unit {0})
  check_exclude_rules r [] = ok tt
  check_exclude_rules r (rule ∷ rest) =
      let next = check_exclude_rules r rest in
      if rule_applies r rule then err (rule_excluded rule) else next

  abbrev pub exclude_of : Option AdvancedScopeConfig → List AdvancedScopeRule
  exclude_of none = []
  exclude_of (some c) = c.exclude

  abbrev pub include_of : Option AdvancedScopeConfig → List AdvancedScopeRule
  include_of none = []
  include_of (some c) = c.include

  -- the cleaned entries that are not empty
  unfoldable pub clean_list : List Text → List Text
  clean_list [] = []
  clean_list (d ∷ ds) =
      let clean = to_lower (trim_space d) in
      if is_empty clean then clean_list ds else clean ∷ clean_list ds

  unfoldable pub allowed_list : Target → List Text
  unfolding clean_list
  allowed_list target = clean_list (target.root_domain ∷ target.allowed_domains)

  unfoldable pub domain_allows : Text → Text → Bool
  domain_allows host rule =
      if has_prefix rule (codes "*.")
      then under_base host (trim_prefix rule (codes "*."))
      else text_eq host rule

  -- step 2 A: the first allowed domain of the host
  unfoldable pub find_domain : Text → List Text → Option Text
  unfolding domain_allows
  find_domain host [] = none
  find_domain host (rule ∷ rest) =
      let next = find_domain host rest in if domain_allows host rule then some rule else next

  -- step 2 B: the first include rule of the request
  unfoldable pub find_include : Request → List AdvancedScopeRule → Option Text
  find_include r [] = none
  find_include r (rule ∷ rest) =
      let next = find_include r rest in
      if rule_applies r rule
      then some (codes "advanced_include: host=" ++ rule.host ++ codes ", file=" ++ rule.file)
      else next

  unfoldable pub check_include : Target → Request → Result Reason Text
  check_include target r = elim (find_domain r.host (allowed_list target)) [
    | some rule ↦ ok rule
    | none ↦ elim (find_include r (include_of target.scope_config)) [
      | some rule ↦ ok rule
      | none ↦ err (out_of_scope r.host)
    ]
  ]

  -- step 3: the first path pattern of the request
  unfoldable pub find_path : Text → List Text → Option Text
  find_path path [] = none
  find_path path (pattern ∷ rest) =
      let p = trim_space pattern in
      let next = find_path path rest in
      if is_empty p then next else if matches_path_pattern path p then some p else next

  unfoldable pub check_path : List Text → Request → Text → Result Reason Text
  check_path [] r matched = ok matched
  check_path (p ∷ ps) r matched = elim r.url [
    | none ↦ err url_required
    | some u ↦ elim (find_path r.path (p ∷ ps)) [
      | none ↦ err (path_restricted r.path)
      | some pattern ↦ ok (matched ++ codes " && " ++ pattern)
    ]
  ]

  -- Evaluate, for a target that is not nil
  unfoldable pub evaluate_target : Target → (hostname raw_url : Text) → ScopeDecision
  evaluate_target target hostname raw_url =
      if not (target.status == "") && not (target.status == target_active)
      then err target_inactive
      else do
        r ← read_request hostname raw_url
        _ ← check_host r
        _ ← check_excluded_patterns r raw_url target.excluded_patterns
        _ ← check_exclude_rules r (exclude_of target.scope_config)
        matched ← check_include target r
        check_path target.allowed_url_patterns r matched

  unfoldable pub evaluate : Option Target → (hostname raw_url : Text) → ScopeDecision
  unfolding evaluate_target
  evaluate none hostname raw_url = err target_nil
  evaluate (some target) hostname raw_url = evaluate_target target hostname raw_url

  -- IsInScope: true, or the decision's reason as an error
  unfoldable pub is_in_scope : Option Target → (hostname raw_url : Text) → Result Reason Bool
  unfolding evaluate
  is_in_scope target hostname raw_url = evaluate target hostname raw_url >>= λ _. ok true
