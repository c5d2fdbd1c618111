-- ===== src/Evidence/Diff.antt =====
-- diff.go: ComputeDiff.
use nexus_hunter_ai.Prelude.{
  ℕ, String, Bool, true, false, not, ◌&&◌, ◌||◌, Option, none, some, List, [], ◌∷◌, ◌==◌,
  if◌then◌else◌, nat_eq, leb, ltb, length,
}
use nexus_hunter_ai.Prelude.Int.{ℤ, pos, negsuc, sub_ℕ}
use nexus_hunter_ai.Prelude.Texts.{text_eq, is_empty}
use nexus_hunter_ai.Evidence.Data.{
  Evidence, HttpResponseContext, Level1RawDiff, Level2SemanticDiff, Level3SecurityDiff,
  EvidenceDiff, Meaning, restricted_to_accessible, accessible_to_restricted, status_shifted,
  body_mutated, equivalent, no_deviation, server_error, redirect_mutated, differential_access,
}
use nexus_hunter_ai.Evidence.Headers.{compare_headers}

abbrev pub is_restricted : ℕ → Bool
is_restricted status = nat_eq status 401 || nat_eq status 403

abbrev pub is_success : ℕ → Bool
is_success status = leb 200 status && ltb status 300

abbrev pub is_redirect : ℕ → Bool
is_redirect status = nat_eq status 301 || nat_eq status 302

-- level 1, for two responses
unfoldable pub raw_of_responses :
    HttpResponseContext → HttpResponseContext → Bool → Level1RawDiff → Level1RawDiff
raw_of_responses a b filter_noise raw =
    let changes = compare_headers a.headers b.headers filter_noise in
    record raw {
      body_length_delta = sub_ℕ b.body_length a.body_length;
      body_hash_a = a.body_hash;
      body_hash_b = b.body_hash;
      body_hash_changed =
          not (a.body_hash == "") && not (b.body_hash == "") && not (a.body_hash == b.body_hash);
      response_time_delta = sub_ℕ b.response_time_ms a.response_time_ms;
      added_headers = changes.added;
      removed_headers = changes.removed;
      modified_headers = changes.modified;
    }

-- a step that needs both responses
abbrev with_responses {ℓ} :
    {A : Type ℓ}
    → Option HttpResponseContext
    → Option HttpResponseContext
    → (HttpResponseContext → HttpResponseContext → A → A)
    → A
    → A
with_responses (some a) (some b) step x = step a b x
with_responses (some a) none step x = x
with_responses none b step x = x

unfoldable pub raw_diff_of : (a b : Evidence) → Bool → Level1RawDiff
unfolding raw_of_responses
raw_diff_of a b filter_noise =
    with_responses a.response b.response (λ ra rb. raw_of_responses ra rb filter_noise)
      (record {
        status_from = a.status_code;
        status_to = b.status_code;
        status_changed = not (nat_eq a.status_code b.status_code);
        body_length_delta = pos 0;
        body_hash_a = "";
        body_hash_b = "";
        body_hash_changed = false;
        added_headers = [];
        removed_headers = [];
        modified_headers = [];
        response_time_delta = pos 0;
      })

abbrev is_zero : ℤ → Bool
is_zero (pos n) = nat_eq n 0
is_zero (negsuc n) = false

-- level 2: the category, its sentence, and whether the access changed
unfoldable pub category_of : (status_a status_b : ℕ) → Level1RawDiff → String × Meaning × Bool
category_of a b raw =
    if is_restricted a && is_success b
    then ("AUTHORIZATION_RESPONSE_SHIFT", restricted_to_accessible a b, true)
    else if is_success a && is_restricted b
    then ("ACCESS_RESTRICTION_ENFORCED", accessible_to_restricted a b, true)
    else if raw.status_changed
    then ("HTTP_STATUS_SHIFT", status_shifted a b, false)
    else if raw.body_hash_changed && not (is_zero raw.body_length_delta)
    then ("RESPONSE_BODY_MUTATION", body_mutated raw.body_length_delta, false)
    else ("EQUIVALENT_BEHAVIOR", equivalent, false)

unfoldable pub semantic_of_responses :
    ℕ → HttpResponseContext → HttpResponseContext → Level2SemanticDiff → Level2SemanticDiff
semantic_of_responses status_b a b semantic = record semantic {
  content_type_changed =
      not (text_eq a.content_type b.content_type)
      && not (is_empty a.content_type)
      && not (is_empty b.content_type);
  error_payload_detected = leb 400 status_b && ltb status_b 600;
}

unfoldable pub semantic_diff_of : (a b : Evidence) → Level1RawDiff → Level2SemanticDiff
unfolding category_of semantic_of_responses
semantic_diff_of a b raw =
    let (category, meaning, auth) = category_of a.status_code b.status_code raw in
    let base = with_responses a.response b.response (semantic_of_responses b.status_code) (record {
      category = category;
      meaning = meaning;
      auth_behavior_changed = auth;
      content_type_changed = false;
      redirect_changed = false;
      error_payload_detected = false;
    }) in
    record base {
      redirect_changed = not (nat_eq (length a.redirect_chain) (length b.redirect_chain));
    }

abbrev access_questions : List String
access_questions =
    "Does Probe B represent an unauthenticated or lower-privileged authorization context?"
    ∷ "Are the returned body contents equivalent to those served to higher-privileged sessions?"
    ∷ "Does the endpoint rely on client-side routing rather than server-side authorization enforcement?"
    ∷ []

abbrev error_questions : List String
error_questions =
    "Does the condition represent an unhandled exception or parsing failure?"
    ∷ "Are internal stack traces, frameworks, or database errors leaked in the 500 response body?"
    ∷ []

abbrev redirect_questions : List String
redirect_questions =
    "Does the redirect destination validate hostnames and avoid open redirection?"
    ∷ "Does the redirect drop sensitive headers or downgrade protocols?" ∷ []

-- level 3, with isSecurityRelevant
unfoldable pub security_diff_of :
    (a b : Evidence) → Level1RawDiff → Level2SemanticDiff → Level3SecurityDiff × Bool
security_diff_of a b raw semantic =
    let calm : Level3SecurityDiff = record {
      context_a = a.id;
      context_b = b.id;
      relevance_explanation = no_deviation;
      requires_followup = false;
      suggested_questions = [];
    } in
    if semantic.auth_behavior_changed
    then (
      record calm {
        requires_followup = true;
        relevance_explanation = differential_access a.summary a.status_code b.summary b.status_code;
        suggested_questions = access_questions;
      },
      true,
    )
    else if raw.status_changed && (nat_eq a.status_code 500 || nat_eq b.status_code 500)
    then (
      record calm {
        requires_followup = true;
        relevance_explanation = server_error;
        suggested_questions = error_questions;
      },
      true,
    )
    else if raw.status_changed && (is_redirect a.status_code || is_redirect b.status_code)
    then (
      record calm {
        requires_followup = true;
        relevance_explanation = redirect_mutated;
        suggested_questions = redirect_questions;
      },
      true,
    )
    else (calm, false)

abbrev or_other : String → String → String
or_other x y = if x == "" then y else x

-- ComputeDiff of two items that are not nil; `id` is the new identifier and `now` the time
unfoldable pub compute_diff :
    (id : String) (now : ℕ) (a b : Evidence) (filter_noise : Bool) → EvidenceDiff
unfolding raw_diff_of semantic_diff_of security_diff_of
compute_diff id now a b filter_noise =
    let raw = raw_diff_of a b filter_noise in
    let semantic = semantic_diff_of a b raw in
    let (security, relevant) = security_diff_of a b raw semantic in
    record {
      id = id;
      target_id = or_other a.target_id b.target_id;
      asset_id = or_other a.asset_id b.asset_id;
      evidence_a_id = a.id;
      evidence_b_id = b.id;
      raw_diff = raw;
      semantic_diff = semantic;
      security_diff = security;
      is_noise_filtered = filter_noise;
      is_security_relevant = relevant;
      computed_at = now;
    }
