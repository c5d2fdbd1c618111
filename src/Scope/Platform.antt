-- ===== src/Scope/Platform.antt =====
-- What scope.go takes from Go's net/url, net and regexp, as a parameter of the model.
use nexus_hunter_ai.Prelude.{Bool, Option}
use nexus_hunter_ai.Prelude.Texts.{Text}

-- u.Scheme, u.Hostname(), u.Port(), u.Path
pub record Url : Type 0 where
  pub scheme : Text
  pub hostname : Text
  pub port : Text
  pub path : Text

pub record Platform : Type 0 where
  -- url.Parse; none is an error
  pub parse_url : Text → Option Url
  -- net.ParseIP(h) != nil
  pub is_ip : Text → Bool
  -- regexp.Compile, and MatchString of what it returns
  pub compile : Text → Option (Text → Bool)
