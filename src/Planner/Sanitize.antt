-- ===== src/Planner/Sanitize.antt =====
-- planner.go: SanitizeUntrustedText.
use nexus_hunter_ai.Prelude.{
  ℕ, zero, suc, ◌-◌, true, false, List, [], ◌∷◌, ◌++◌, if◌then◌else◌, length, ◌≡◌, refl, ap, arith,
  All, Bool-cases, inl, inr,
}
use nexus_hunter_ai.Prelude.Texts.{Text, codes, has_prefix, contains, to_lower, trim_space}

unfoldable pub take : ℕ → Text → Text
take zero s = []
take (suc n) [] = []
take (suc n) (c ∷ s) = c ∷ take n s

-- strings.ReplaceAll(s, p, r) with p not empty: `skip` bytes still belong to the last occurrence
unfoldable pub replace_from : ℕ → Text → (p r : Text) → Text
replace_from skip [] p r = []
replace_from (suc skip) (c ∷ s) p r = replace_from skip s p r
replace_from zero (c ∷ s) p r = elim (has_prefix (c ∷ s) p) [
  | true ↦ r ++ replace_from (length p - 1) s p r
  | false ↦ c ∷ replace_from 0 s p r
]

abbrev pub injection_patterns : List Text
injection_patterns =
    codes "ignore previous"
    ∷ codes "ignore all previous"
    ∷ codes "system prompt"
    ∷ codes "override rules"
    ∷ codes "bypass safety"
    ∷ codes "you are now in"
    ∷ codes "act as an unrestricted"
    ∷ codes "output confirmed"
    ∷ codes "mark as verified"
    ∷ codes "eval("
    ∷ codes "<script"
    ∷ []

abbrev pub redaction : Text
redaction = codes "[REDACTED_INJECTION_PATTERN]"

-- the loop; `lower` is computed anew from the input whenever the input changes
unfoldable pub redact_all : List Text → Text → Text
unfolding replace_from
redact_all [] input = input
redact_all (p ∷ ps) input =
    redact_all ps (if contains (to_lower input) p then replace_from 0 input p redaction else input)

unfoldable pub sanitize_untrusted_text : Text → Text
unfolding take redact_all
sanitize_untrusted_text input = trim_space (redact_all injection_patterns (take 256 input))

replace_from-absent : (s p r : Text) → contains s p ≡ false → replace_from 0 s p r ≡ s
unfolding replace_from contains
replace_from-absent [] p r h = refl
replace_from-absent (c ∷ s) p r h = elim (Bool-cases (has_prefix (c ∷ s) p)) [
  | inl t ↦ ground arith
  | inr f ↦ ground (arith, replace_from-absent s p r)
]

redact_all-absent :
    (ps : List Text) (input : Text)
    → All (λ p. contains input p ≡ false) ps
    → redact_all ps input ≡ input
unfolding redact_all
redact_all-absent [] input h = refl
redact_all-absent (p ∷ ps) input h = elim (Bool-cases (contains (to_lower input) p)) [
  | inl t ↦ rw (t, replace_from-absent input p redaction h.0) (redact_all-absent ps input h.1)
  | inr f ↦ rw f (redact_all-absent ps input h.1)
]

-- A text that has no pattern in the patterns' own lower case is passed on as it is, cut and trimmed,
-- also where it has a pattern in other case.
pub sanitize-other_case :
    (input : Text)
    → All (λ p. contains (take 256 input) p ≡ false) injection_patterns
    → sanitize_untrusted_text input ≡ trim_space (take 256 input)
unfolding sanitize_untrusted_text
sanitize-other_case input h =
    ap trim_space (redact_all-absent injection_patterns (take 256 input) h)
