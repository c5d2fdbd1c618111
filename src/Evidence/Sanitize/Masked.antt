-- ===== src/Evidence/Sanitize/Masked.antt =====
-- What redaction leaves under the names of sensitive headers.
use nexus_hunter_ai.Prelude.{Bool, true, false, Option, none, some, List, [], ◌++◌, ◌≡◌, ◌⊎◌, All}
use nexus_hunter_ai.Prelude.Texts.{Text, codes, contains, to_lower, trim_space}
use nexus_hunter_ai.Prelude.TextMaps.{TextMap}
use nexus_hunter_ai.Evidence.Data.{Evidence, HttpRequestContext, HttpResponseContext}
use nexus_hunter_ai.Evidence.Redactor.{Redactor, is_sensitive_header}
use nexus_hunter_ai.Evidence.Sanitize.{before_equals, is_session_cookie, join}

-- a part of a cookie header: a name with the mark, no assignment, or one to a name that is no session's
abbrev pub IsMaskedCookie : Text → Type 0
IsMaskedCookie part =
    ((name : Text) × (part ≡ name ++ codes "=[REDACTED]"))
    ⊎ ((before_equals (trim_space part) ≡ none)
        ⊎ ((name : Text) × (before_equals (trim_space part) ≡ some name)
            × (is_session_cookie (to_lower (trim_space name)) ≡ false)))

-- the value of a sensitive header: one of two marks, or the masked parts of a cookie header
abbrev pub IsMaskedValue : Text → Bool → Type 0
IsMaskedValue val true =
    (parts : List Text) × (val ≡ join (codes "; ") parts) × All IsMaskedCookie parts
IsMaskedValue val false = (val ≡ codes "Bearer [REDACTED]") ⊎ (val ≡ codes "[REDACTED]")

abbrev pub is_cookie : Text → Bool
is_cookie name = contains (to_lower (trim_space name)) (codes "cookie")

-- a header with a sensitive name has a masked value
abbrev pub IsMasked : Text × Text → Type 0
IsMasked e =
    is_sensitive_header (to_lower (trim_space e.0)) ≡ true → IsMaskedValue e.1 (is_cookie e.0)

module _ (rx : Redactor) where
  abbrev pub request_headers : Option HttpRequestContext → TextMap Text
  request_headers none = []
  request_headers (some r) = r.headers

  abbrev pub response_headers : Option HttpResponseContext → TextMap Text
  response_headers none = []
  response_headers (some r) = r.headers
