-- ===== src/Evidence/Redactor.antt =====
-- What sanitizer.go takes from Go's regexp, net/url and encoding/json, as a parameter of the model, and
-- the lists of sensitive names.
use nexus_hunter_ai.Prelude.{Bool, Option, List, [], ◌∷◌, any}
use nexus_hunter_ai.Prelude.Texts.{Text, codes, text_eq}
use nexus_hunter_ai.Jobs.Values.{Fields}

pub record Redactor : Type 0 where
  -- MatchString of jwtRegex, bearerRegex and apiKeyRegex
  pub has_jwt : Text → Bool
  pub has_bearer : Text → Bool
  pub has_api_key : Text → Bool
  -- ReplaceAllString of the three, each with its replacement
  pub mask_jwt : Text → Text
  pub mask_bearer : Text → Text
  pub mask_api_key : Text → Text
  -- the query's keys of the URL that url.Parse reads; none is an error
  pub query_keys : Text → Option (List Text)
  -- the URL with [REDACTED] set under the keys
  pub redact_query : Text → List Text → Text
  -- json.Unmarshal into a map, and json.Marshal; none is an error
  pub unmarshal : Text → Option Fields
  pub marshal : Fields → Option Text

abbrev pub sensitive_header_keys : List Text
sensitive_header_keys =
    codes "authorization"
    ∷ codes "proxy-authorization"
    ∷ codes "cookie"
    ∷ codes "set-cookie"
    ∷ codes "x-api-key"
    ∷ codes "x-auth-token"
    ∷ codes "x-csrf-token"
    ∷ codes "x-xsrf-token"
    ∷ codes "x-session-id"
    ∷ codes "x-token"
    ∷ codes "x-secret"
    ∷ codes "api-key"
    ∷ codes "apikey"
    ∷ codes "token"
    ∷ codes "secret"
    ∷ codes "session"
    ∷ []

abbrev pub sensitive_query_keys : List Text
sensitive_query_keys =
    codes "token"
    ∷ codes "access_token"
    ∷ codes "auth"
    ∷ codes "key"
    ∷ codes "api_key"
    ∷ codes "apikey"
    ∷ codes "secret"
    ∷ codes "client_secret"
    ∷ codes "password"
    ∷ codes "pwd"
    ∷ codes "session"
    ∷ codes "session_id"
    ∷ codes "jwt"
    ∷ []

unfoldable pub is_sensitive_header : Text → Bool
is_sensitive_header k = any (text_eq k) sensitive_header_keys

unfoldable pub is_sensitive_query : Text → Bool
is_sensitive_query k = any (text_eq k) sensitive_query_keys
