-- ===== src/Evidence/Sanitize.antt =====
-- sanitizer.go: Sanitize and the redaction of headers, URLs and bodies. A list of redacted fields is
-- passed through the steps as in the code.
pub mod Masked
use nexus_hunter_ai.Prelude.{
  ℕ, ◌+◌, Bool, true, false, not, ◌||◌, Option, none, some, List, [], ◌∷◌, ◌++◌, map, any, nat_eq,
  if◌then◌else◌,
}
use nexus_hunter_ai.Prelude.Texts.{
  Text, codes, text_eq, has_prefix, contains, to_lower, trim_space, is_empty,
}
use nexus_hunter_ai.Prelude.TextMaps.{TextMap}
use nexus_hunter_ai.Evidence.Data.{
  Evidence, HttpRequestContext, HttpResponseContext, RedactionStatusRecord,
}
use nexus_hunter_ai.Evidence.Redactor.{Redactor, is_sensitive_header, is_sensitive_query}
use nexus_hunter_ai.Evidence.Dedupe.{deduplicate_strings}
use nexus_hunter_ai.Evidence.Json.{item_path, sanitize_json_map}

-- strings.Split(s, c) for one byte c; `word` is the part read so far
unfoldable pub split_from : ℕ → Text → Text → List Text
split_from c word [] = word ∷ []
split_from c word (a ∷ s) = elim (nat_eq a c) [
  | true ↦ word ∷ split_from c [] s
  | false ↦ split_from c (word ++ a ∷ []) s
]

-- strings.Join(parts, sep)
unfoldable pub join : Text → List Text → Text
join sep [] = []
join sep (p ∷ []) = p
join sep (p ∷ q ∷ ps) = p ++ (sep ++ join sep (q ∷ ps))

-- what stands before the first `=`, if there is one
unfoldable pub before_equals : Text → Option Text
before_equals [] = none
before_equals (a ∷ s) = elim (nat_eq a b'=') [
  | true ↦ some []
  | false ↦ elim (before_equals s) [ none ↦ none | some name ↦ some (a ∷ name) ]
]

unfoldable pub is_session_cookie : Text → Bool
is_session_cookie name =
    is_sensitive_query name
    || contains name (codes "sess")
    || contains name (codes "auth")
    || contains name (codes "token")

-- one part of a cookie header
unfoldable pub mask_cookie : Text → Text
unfolding before_equals is_session_cookie
mask_cookie part = elim (before_equals (trim_space part)) [
  | none ↦ part
  | some name ↦
      if is_session_cookie (to_lower (trim_space name)) then name ++ codes "=[REDACTED]" else part
]

-- maskValue
unfoldable pub mask_value : (key val : Text) → Text
unfolding split_from join mask_cookie
mask_value key val =
    if contains key (codes "cookie")
    then join (codes "; ") (map mask_cookie (split_from b';' [] val))
    else if has_prefix (to_lower val) (codes "bearer ")
    then codes "Bearer [REDACTED]"
    else codes "[REDACTED]"

abbrev pub no_items : List Text → Bool
no_items [] = true
no_items (x ∷ xs) = false

module _ (rx : Redactor) where
  -- the new value of a header, or none where it stays
  unfoldable pub redacted_header : (key val : Text) → Option Text
  unfolding mask_value
  redacted_header k v =
      let lower_k = to_lower (trim_space k) in
      if is_sensitive_header lower_k
      then some (mask_value lower_k v)
      else if rx.has_bearer v
      then some (rx.mask_bearer v)
      else if rx.has_jwt v
      then some (rx.mask_jwt v)
      else none

  -- sanitizeHeaders
  unfoldable pub sanitize_headers :
      TextMap Text → (prefix : Text) → (redacted : List Text) → TextMap Text × List Text
  sanitize_headers [] prefix redacted = ([], redacted)
  sanitize_headers (e ∷ headers) prefix redacted = elim (redacted_header e.0 e.1) [
    | none ↦ let rest = sanitize_headers headers prefix redacted in (e ∷ rest.0, rest.1)
    | some v ↦
        let rest =
          sanitize_headers headers prefix (redacted ++ (prefix ++ (codes "." ++ e.0)) ∷ []) in
        ((e.0, v) ∷ rest.0, rest.1)
  ]

  abbrev sensitive_of : List Text → List Text
  sensitive_of [] = []
  sensitive_of (k ∷ ks) =
      if is_sensitive_query (to_lower k) then k ∷ sensitive_of ks else sensitive_of ks

  abbrev redacted_url :
      Text → (prefix : Text) → (redacted : List Text) → List Text → Text × List Text
  redacted_url raw_url prefix redacted [] = (raw_url, redacted)
  redacted_url raw_url prefix redacted (k ∷ ks) =
      (rx.redact_query raw_url (k ∷ ks), redacted ++ map (λ q. prefix ++ (codes "?" ++ q)) (k ∷ ks))

  -- sanitizeURL
  unfoldable pub sanitize_url : Text → (prefix : Text) → (redacted : List Text) → Text × List Text
  sanitize_url raw_url prefix redacted =
      if is_empty raw_url then (raw_url, redacted) else elim (rx.query_keys raw_url) [
        | none ↦ (raw_url, redacted)
        | some keys ↦ redacted_url raw_url prefix redacted (sensitive_of keys)
      ]

  -- one of the three replacements in plain text
  abbrev mask_text :
      (test : Text → Bool) (mask : Text → Text)
      → (name : Text) → Text × List Text
      → Text × List Text
  mask_text test mask name (body, redacted) =
      if test body then (mask body, redacted ++ name ∷ []) else (body, redacted)

  unfoldable pub mask_plain : Text → (prefix : Text) → (redacted : List Text) → Text × List Text
  mask_plain body prefix redacted =
      mask_text rx.has_api_key rx.mask_api_key (prefix ++ codes ".secret_pattern") (
        mask_text rx.has_bearer rx.mask_bearer (prefix ++ codes ".bearer")
          (mask_text rx.has_jwt rx.mask_jwt (prefix ++ codes ".jwt") (body, redacted)))

  -- the structural redaction of a JSON body: none where plain text is to be searched, with the
  -- redacted fields so far
  unfoldable pub redact_json :
      Text → (prefix : Text) → (redacted : List Text) → Option Text × List Text
  unfolding sanitize_json_map
  redact_json body prefix redacted = elim (rx.unmarshal body) [
    | none ↦ (none, redacted)
    | some json_map ↦
        let r = sanitize_json_map rx prefix json_map in
        elim r.1 [ [] ↦ (none, redacted) | p ∷ ps ↦ (rx.marshal r.0, redacted ++ p ∷ ps) ]
  ]

  -- sanitizeBody
  unfoldable pub sanitize_body : Text → (prefix : Text) → (redacted : List Text) → Text × List Text
  unfolding mask_plain redact_json
  sanitize_body body prefix redacted =
      if is_empty body
      then (body, redacted)
      else (let (json, fields) = redact_json body prefix redacted in
          elim json [ some marshaled ↦ (marshaled, fields) | none ↦ mask_plain body prefix fields ])

  unfoldable pub sanitize_request :
      Option HttpRequestContext → List Text → Option HttpRequestContext × List Text
  unfolding sanitize_headers sanitize_url sanitize_body
  sanitize_request none redacted = (none, redacted)
  sanitize_request (some req) redacted =
      let (headers, f₁) = sanitize_headers req.headers (codes "request.headers") redacted in
      let (url, f₂) = sanitize_url req.url (codes "request.url") f₁ in
      let (body, f₃) = sanitize_body req.body_summary (codes "request.body") f₂ in
      (some (record req { headers = headers; url = url; body_summary = body }), f₃)

  unfoldable pub sanitize_response :
      Option HttpResponseContext → List Text → Option HttpResponseContext × List Text
  unfolding sanitize_headers sanitize_body
  sanitize_response none redacted = (none, redacted)
  sanitize_response (some resp) redacted =
      let (headers, f₁) = sanitize_headers resp.headers (codes "response.headers") redacted in
      let (body, f₂) = sanitize_body resp.body_snippet (codes "response.body") f₁ in
      (some (record resp { headers = headers; body_snippet = body }), f₂)

  -- the loop over the redirect chain, from the index i on
  unfoldable pub sanitize_chain : ℕ → List Text → List Text → List Text × List Text
  unfolding sanitize_url
  sanitize_chain i [] redacted = ([], redacted)
  sanitize_chain i (u ∷ us) redacted =
      let (url, red) = sanitize_url u (item_path (codes "redirect_chain") i) [] in
      let (rest, fields) = sanitize_chain (i + 1) us (redacted ++ red) in (url ∷ rest, fields)

  -- Sanitize of evidence that is not nil
  unfoldable pub sanitize : (now : ℕ) → Evidence → Evidence
  unfolding sanitize_request sanitize_response sanitize_headers sanitize_chain deduplicate_strings
  sanitize now ev =
      let (request, f₁) = sanitize_request ev.request [] in
      let (response, f₂) = sanitize_response ev.response f₁ in
      let (relevant, f₃) = sanitize_headers ev.relevant_headers (codes "relevant_headers") [] in
      let (chain, f₄) = sanitize_chain 0 ev.redirect_chain (f₂ ++ f₃) in
      record ev {
        request = request;
        response = response;
        relevant_headers = relevant;
        redirect_chain = chain;
        redaction_status = some (record {
          is_redacted = not (no_items f₄);
          redacted_fields = deduplicate_strings f₄;
          sanitized_at = now;
        });
      }
