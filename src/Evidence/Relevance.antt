-- ===== src/Evidence/Relevance.antt =====
-- When ComputeDiff calls a difference relevant, and what it says of two equal observations.
use nexus_hunter_ai.Prelude.{
  ℕ, String, Bool, true, false, not, ◌&&◌, ◌||◌, Option, none, some, ◌≡◌, ◌⊎◌, inl, inr, refl,
  arith, nat_eq, Bool-cases, eq_refl, sym, ◌∙◌, ◌∙◌,
}
use nexus_hunter_ai.Prelude.Int.{pos}
use nexus_hunter_ai.Prelude.Texts.{Text}
use nexus_hunter_ai.Prelude.TextMaps.{TextMap, look}
use nexus_hunter_ai.Prelude.Int.{sub_ℕ-self}
use nexus_hunter_ai.Prelude.Texts.{text_eq_refl}
use nexus_hunter_ai.Evidence.Headers.{is_skipped, normalized, compare_headers}
use nexus_hunter_ai.Evidence.Headers.Laws.{
  report_added, report_modified, unless_skipped, compare_headers_lem,
}
use nexus_hunter_ai.Evidence.Data.{HttpResponseContext, Evidence, Level1RawDiff, Level2SemanticDiff}
use nexus_hunter_ai.Evidence.Diff.{
  is_restricted, is_success, is_redirect, raw_diff_of, raw_of_responses, semantic_diff_of,
  category_of, semantic_of_responses, security_diff_of, compute_diff,
}

-- one of the two observations was refused and the other served
abbrev pub access_shift : ℕ → ℕ → Bool
access_shift a b = (is_restricted a && is_success b) || (is_success a && is_restricted b)

-- a difference that a researcher should follow up
abbrev pub relevant_status : ℕ → ℕ → Bool
relevant_status a b =
    access_shift a b
    || (not (nat_eq a b) && (nat_eq a 500 || nat_eq b 500 || is_redirect a || is_redirect b))

raw-status :
    (a b : Evidence) (f : Bool)
    → (raw_diff_of a b f).status_changed ≡ not (nat_eq a.status_code b.status_code)
unfolding raw_diff_of
raw-status a b f = ground arith

category-auth : (a b : ℕ) (raw : Level1RawDiff) → (category_of a b raw).2 ≡ access_shift a b
unfolding category_of
category-auth a b raw = elim (Bool-cases (is_restricted a && is_success b)) [
  | inl x ↦ rw (category_of, x) refl
  | inr x ↦ elim (Bool-cases (is_success a && is_restricted b)) [
    | inl y ↦ rw (category_of, x, y) refl
    | inr y ↦ elim (Bool-cases raw.status_changed) [
      | inl z ↦ rw (category_of, x, y, z) refl
      | inr z ↦ rw (category_of, x, y, z) (ground arith)
    ]
  ]
]

semantic-auth :
    (a b : Evidence) (raw : Level1RawDiff)
    → (semantic_diff_of a b raw).auth_behavior_changed ≡ access_shift a.status_code b.status_code
unfolding semantic_diff_of semantic_of_responses
semantic-auth a b raw = ground (arith, category-auth a.status_code b.status_code raw)

any_of_three :
    (s p q r t : Bool)
    → ((s && (p || q)) ≡ true) ⊎ ((s && (r || t)) ≡ true)
    → (s && (p || q || r || t)) ≡ true
any_of_three true true q r t h = refl
any_of_three true false true r t h = refl
any_of_three true false false r t (inl h) = cc h
any_of_three true false false r t (inr h) = h
any_of_three false p q r t (inl h) = h
any_of_three false p q r t (inr h) = h

none_of_three :
    (s p q r t : Bool)
    → (s && (p || q)) ≡ false
    → (s && (r || t)) ≡ false
    → (s && (p || q || r || t)) ≡ false
none_of_three true true q r t h k = cc h
none_of_three true false true r t h k = cc h
none_of_three true false false r t h k = k
none_of_three false p q r t h k = refl

security-relevant :
    (a b : Evidence) (raw : Level1RawDiff) (semantic : Level2SemanticDiff)
    → (security_diff_of a b raw semantic).1 ≡ (
        semantic.auth_behavior_changed
        || (raw.status_changed
            && (nat_eq a.status_code 500
                || nat_eq b.status_code 500
                || is_redirect a.status_code
                || is_redirect b.status_code)))
unfolding security_diff_of
security-relevant a b raw semantic = elim (Bool-cases semantic.auth_behavior_changed) [
  | inl x ↦ rw (security_diff_of, x) refl
  | inr x ↦
      elim (Bool-cases
        (raw.status_changed && (nat_eq a.status_code 500 || nat_eq b.status_code 500))) [
          | inl y ↦
              rw (security_diff_of, x, y)
                (sym (
                  any_of_three raw.status_changed (nat_eq a.status_code 500)
                    (nat_eq b.status_code 500) (is_redirect a.status_code)
                    (is_redirect b.status_code) (inl y)))
          | inr y ↦
              elim (Bool-cases
                (raw.status_changed && (is_redirect a.status_code || is_redirect b.status_code))) [
                  | inl z ↦
                      rw (security_diff_of, x, y, z)
                        (sym (
                          any_of_three raw.status_changed (nat_eq a.status_code 500)
                            (nat_eq b.status_code 500) (is_redirect a.status_code)
                            (is_redirect b.status_code) (inr z)))
                  | inr z ↦
                      rw (security_diff_of, x, y, z)
                        (sym (
                          none_of_three raw.status_changed (nat_eq a.status_code 500)
                            (nat_eq b.status_code 500) (is_redirect a.status_code)
                            (is_redirect b.status_code) y z))
                ]
        ]
]

-- ComputeDiff calls a difference relevant exactly when access shifted between refused and served, or
-- the status changed and one side is a server error 500 or a redirect.
pub relevant_lem :
    (id : String) (now : ℕ) (a b : Evidence) (filter_noise : Bool)
    → (compute_diff id now a b filter_noise).is_security_relevant
      ≡ relevant_status a.status_code b.status_code
unfolding compute_diff
relevant_lem id now a b filter_noise =
    let raw = raw_diff_of a b filter_noise in
    rw
      (
        security-relevant a b raw (semantic_diff_of a b raw),
        semantic-auth a b raw,
        raw-status a b filter_noise,
      )
      refl

unless_skipped-none : (b : Bool) → unless_skipped b none ≡ none
unless_skipped-none true = refl
unless_skipped-none false = refl

report_added-same : (o : Option Text) → report_added o o ≡ none
report_added-same none = refl
report_added-same (some v) = refl

report_modified-same : (o : Option Text) → report_modified o o ≡ none
report_modified-same none = refl
report_modified-same (some v) = rw text_eq_refl refl

same_headers :
    (h : TextMap Text) (f : Bool) (k : Text)
    → (look (compare_headers h h f).added k ≡ none)
      × (look (compare_headers h h f).removed k ≡ none)
      × (look (compare_headers h h f).modified k ≡ none)
same_headers h f k =
    let c = compare_headers_lem h h f k in
    let n = look (normalized h) k in
    let quiet = unless_skipped-none (is_skipped f k) in
    (
      c.0 ∙ rw (report_added-same n) quiet,
      c.1 ∙ rw (report_added-same n) quiet,
      c.2 ∙ rw (report_modified-same n) quiet,
    )

abbrev pub NoChange : Level1RawDiff → Type 0
NoChange raw =
    (raw.status_changed ≡ false)
    × (raw.body_hash_changed ≡ false)
    × (raw.body_length_delta ≡ pos 0)
    × (raw.response_time_delta ≡ pos 0)
    × ((k : Text) → look raw.added_headers k ≡ none)
    × ((k : Text) → look raw.removed_headers k ≡ none)
    × ((k : Text) → look raw.modified_headers k ≡ none)

raw_same :
    (a : Evidence) (f : Bool) (o : Option HttpResponseContext)
    → a.response ≡ o
    → NoChange (raw_diff_of a a f)
unfolding raw_diff_of raw_of_responses look
raw_same a f none e =
    rw (raw_diff_of, e) (ground arith, refl, refl, refl, λ k. refl, λ k. refl, λ k. refl)
raw_same a f (some r) e =
    rw (raw_diff_of, raw_of_responses, e)
      (
        ground arith,
        ground (arith, eq_refl r.body_hash),
        sub_ℕ-self r.body_length,
        sub_ℕ-self r.response_time_ms,
        λ k. (same_headers r.headers f k).0,
        λ k. (same_headers r.headers f k).1,
        λ k. (same_headers r.headers f k).2,
      )

calm_status : (s : ℕ) → relevant_status s s ≡ false
calm_status s = ground arith

same_category :
    (s : ℕ) (raw : Level1RawDiff)
    → raw.status_changed ≡ false
    → raw.body_hash_changed ≡ false
    → (category_of s s raw).0 ≡ "EQUIVALENT_BEHAVIOR"
unfolding category_of
same_category s raw h k =
    let shut : (is_restricted s && is_success s) ≡ false = ground arith in
    let open_again : (is_success s && is_restricted s) ≡ false = ground arith in
    rw (category_of, shut, open_again, h, k) refl

kept_category :
    (a b : Evidence) (raw : Level1RawDiff)
    → (semantic_diff_of a b raw).category ≡ (category_of a.status_code b.status_code raw).0
unfolding semantic_diff_of semantic_of_responses
kept_category a b raw = ground arith

-- An observation compared with itself shows no difference: the behavior is equivalent and not relevant,
-- status, body and times are unchanged, and no header is added, removed or modified.
pub self_diff :
    (id : String) (now : ℕ) (a : Evidence) (filter_noise : Bool)
    → let d = compute_diff id now a a filter_noise in
      (d.semantic_diff.category ≡ "EQUIVALENT_BEHAVIOR")
      × (d.is_security_relevant ≡ false)
      × NoChange d.raw_diff
unfolding compute_diff semantic_diff_of
self_diff id now a filter_noise =
    let raw = raw_diff_of a a filter_noise in
    let same = raw_same a filter_noise a.response refl in
    (
      kept_category a a raw ∙ same_category a.status_code raw same.0 same.1,
      relevant_lem id now a a filter_noise ∙ calm_status a.status_code,
      same,
    )
