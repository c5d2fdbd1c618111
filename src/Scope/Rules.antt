-- ===== src/Scope/Rules.antt =====
-- scope.go: matchAdvancedRule.
use nexus_hunter_ai.Prelude.{Bool, false, not, ◌||◌, none, some, ◌++◌, if◌then◌else◌}
use nexus_hunter_ai.Prelude.Texts.{Text, codes, text_eq, to_lower, is_empty}
use nexus_hunter_ai.Models.{AdvancedScopeRule}
use nexus_hunter_ai.Scope.Platform.{Platform}

module _ (pf : Platform) where
  -- re, err := regexp.Compile(pattern); err == nil && re.MatchString(s)
  unfoldable pub regex_matches : Text → Text → Bool
  regex_matches pattern s = elim (pf.compile pattern) [ none ↦ false | some match ↦ match s ]

  unfoldable pub host_matches : AdvancedScopeRule → Text → Bool
  unfolding regex_matches
  host_matches rule host = is_empty rule.host || regex_matches (codes "(?i)" ++ rule.host) host

  unfoldable pub protocol_matches : AdvancedScopeRule → Text → Bool
  unfolding regex_matches
  protocol_matches rule protocol =
      is_empty rule.protocol
      || text_eq rule.protocol (codes "any")
      || text_eq rule.protocol (codes "^.*$")
      || text_eq (to_lower rule.protocol) (to_lower protocol)
      || regex_matches (codes "(?i)" ++ rule.protocol) protocol

  -- a rule for a port holds where no port is known
  unfoldable pub port_matches : AdvancedScopeRule → Text → Bool
  unfolding regex_matches
  port_matches rule port =
      is_empty rule.port
      || text_eq rule.port (codes "^.*$")
      || is_empty port
      || regex_matches rule.port port

  unfoldable pub file_matches : AdvancedScopeRule → Text → Bool
  unfolding regex_matches
  file_matches rule path =
      is_empty rule.file
      || text_eq rule.file (codes "^/.*$")
      || text_eq rule.file (codes "^.*$")
      || regex_matches (codes "(?i)" ++ rule.file) path

  unfoldable pub match_advanced_rule : AdvancedScopeRule → (host port protocol path : Text) → Bool
  match_advanced_rule rule host port protocol path =
      if not (host_matches rule host)
      then false
      else if not (protocol_matches rule protocol)
      then false
      else if not (port_matches rule port)
      then false
      else file_matches rule path
