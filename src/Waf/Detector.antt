-- ===== src/Waf/Detector.antt =====
-- waf.go: the detector and its throttlers.
use nexus_hunter_ai.Prelude.{
  ℕ, ◌+◌, String, Bool, ◌&&◌, ◌||◌, none, some, List, [], ◌∷◌, ◌==◌, if◌then◌else◌, leb, nat_eq,
  not,
}
use nexus_hunter_ai.Prelude.Texts.{Text, codes, contains, to_lower, is_empty}
use nexus_hunter_ai.Prelude.Maps.{Map, find, put}
use nexus_hunter_ai.Waf.Throttler.{
  Rates, AdaptiveThrottler, new_adaptive_throttler, record429, record_block, record_success,
  get_status,
}

pub record WafSignature : Type 0 where
  pub provider : String
  pub headers : List (String × Text)
  pub body_phrases : List Text

-- The headers of a signature are a Go map: the order of its entries is one of those that an
-- iteration may take.
abbrev pub known_signatures : List WafSignature
known_signatures =
    (record {
      provider = "Cloudflare";
      headers = ("cf-ray", []) ∷ ("cf-cache-status", []) ∷ ("server", codes "cloudflare") ∷ [];
      body_phrases =
          codes "Attention Required! | Cloudflare"
          ∷ codes "Cloudflare Ray ID"
          ∷ codes "cf-browser-verification"
          ∷ [];
    }
      ∷ record {
        provider = "AWS WAF";
        headers = ("x-amzn-requestid", []) ∷ ("x-amz-cf-id", []) ∷ ("x-amz-waf-action", []) ∷ [];
        body_phrases = codes "403 Forbidden: AWS WAF" ∷ codes "Request blocked by AWS WAF" ∷ [];
      }
      ∷ record {
        provider = "Akamai";
        headers =
            ("x-akamai-transformed", [])
            ∷ ("akamai-origin-hop", [])
            ∷ ("server", codes "AkamaiGHost")
            ∷ [];
        body_phrases = codes "Access Denied: Akamai" ∷ codes "Reference&#32;&#35;" ∷ [];
      }
      ∷ record {
        provider = "Fastly";
        headers = ("x-fastly-request-id", []) ∷ ("fastly-restarts", []) ∷ [];
        body_phrases = codes "Fastly error: unknown domain" ∷ [];
      }
      ∷ record {
        provider = "Imperva";
        headers = ("x-iinfo", []) ∷ ("x-cdn", codes "incapsula") ∷ [];
        body_phrases = codes "Incapsula incident ID" ∷ codes "Powered by Imperva" ∷ [];
      }
      ∷ [])

-- http.Response: the status, and Header.Get
pub record Response : Type 0 where
  pub status_code : ℕ
  pub header : String → Text

-- does a header of a signature match the response
unfoldable pub header_matches : Response → String × Text → Bool
header_matches resp (key, value) =
    not (is_empty (resp.header key))
    && (is_empty value || contains (to_lower (resp.header key)) (to_lower value))

unfoldable pub count_headers : Response → List (String × Text) → ℕ
unfolding header_matches
count_headers resp [] = 0
count_headers resp (h ∷ hs) = (if header_matches resp h then 1 else 0) + count_headers resp hs

unfoldable pub count_phrases : Text → List Text → ℕ
count_phrases body [] = 0
count_phrases body (p ∷ ps) = (if contains body p then 2 else 0) + count_phrases body ps

-- providerMatches
unfoldable pub provider_matches : Response → Text → WafSignature → ℕ
unfolding count_headers count_phrases
provider_matches resp body sig =
    count_headers resp sig.headers + count_phrases body sig.body_phrases

-- the loop over the signatures, with the provider and the confidence so far
unfoldable pub classify : Response → Text → List WafSignature → String × String → String × String
classify resp body [] found = found
classify resp body (sig ∷ sigs) (provider, confidence) =
    let n = provider_matches resp body sig in
    let go_on = classify resp body sigs (
      if nat_eq n 1 && provider == "None Detected"
      then (sig.provider, "MEDIUM")
      else (provider, confidence)) in
    if leb 2 n then (sig.provider, "HIGH") else go_on

module _ (rs : Rates) where
  -- GetAdaptiveThrottler
  unfoldable pub get_adaptive_throttler :
      String → Map (AdaptiveThrottler rs) → AdaptiveThrottler rs × Map (AdaptiveThrottler rs)
  get_adaptive_throttler asset_id throttlers = elim (find throttlers asset_id) [
    | some t ↦ (t, throttlers)
    | none ↦ let t = new_adaptive_throttler rs asset_id in (t, put throttlers asset_id t)
  ]

  -- The status code's effect on the throttler; `retry_after` is what strconv.Atoi reads in the
  -- Retry-After header, 0 where there is none.
  unfoldable pub observe :
      (now retry_after status_code : ℕ) → String → AdaptiveThrottler rs → AdaptiveThrottler rs
  observe now retry_after status_code provider t =
      if nat_eq status_code 429
      then record429 rs now retry_after t
      else if nat_eq status_code 403 && not (provider == "None Detected")
      then record_block rs t
      else if nat_eq status_code 200
      then record_success rs t
      else t

  -- InspectResponse of a response that is not nil: the provider, its confidence and the status of the
  -- asset's throttler, which is shared with the map
  unfoldable pub inspect_response :
      (now retry_after : ℕ) (asset_id : String) (resp : Response) (body : Text)
      → Map (AdaptiveThrottler rs)
      → (String × String × String × rs.Rate × Bool) × Map (AdaptiveThrottler rs)
  unfolding get_adaptive_throttler observe
  inspect_response now retry_after asset_id resp body throttlers =
      let (provider, confidence) = classify resp body known_signatures ("None Detected", "LOW") in
      let (t, ts) = get_adaptive_throttler asset_id throttlers in
      let t' = observe now retry_after resp.status_code provider t in
      let (state, rps, open_breaker) = get_status rs t' in
      ((provider, confidence, state, rps, open_breaker), put ts asset_id t')
