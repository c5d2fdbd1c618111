-- ===== src/Scope/Domains.antt =====
-- Which hosts an allowed domain covers.
use nexus_hunter_ai.Prelude.{
  ◌≡◌, refl, ◌↔◌, Bool, true, false, ◌++◌, ◌⊎◌, inl, inr, Bool-cases, ◌||◌,
}
use nexus_hunter_ai.Prelude.Texts.{Text, codes, text_eq, text_eq_iff, text_eq_refl}
use nexus_hunter_ai.Prelude.Texts.Laws.{has_suffix_iff, has_prefix-append, trim_prefix-append}
use nexus_hunter_ai.Scope.Platform.{Platform}
use nexus_hunter_ai.Scope.Hosts.{under_base}
use nexus_hunter_ai.Scope.Evaluate.{domain_allows}

-- the base itself, or labels before a dot and the base
abbrev pub Under : Text → Text → Type 0
Under host base = (host ≡ base) ⊎ ((labels : Text) × (host ≡ labels ++ (codes "." ++ base)))

or_true : (b : Bool) {c : Bool} → c ≡ true → (b || c) ≡ true
or_true true h = refl
or_true false h = h

pub under_base_iff : (host base : Text) → (under_base host base ≡ true) ↔ Under host base
unfolding under_base
under_base_iff host base = (
  λ h. elim (Bool-cases (text_eq host base)) [
    | inl e ↦ inl ((text_eq_iff host base).0 e)
    | inr n ↦ inr ((has_suffix_iff host (codes "." ++ base)).0 (rw n at h))
  ],
  λ h. elim h [
    | inl e ↦ rw (e, text_eq_refl)
    | inr k ↦ or_true (text_eq host base) ((has_suffix_iff host (codes "." ++ base)).1 k)
  ],
)

-- A wildcard rule covers its base and the names below it, and no other host, also none that merely ends
-- in the same letters.
pub wildcard-allows :
    (pf : Platform) (host base : Text)
    → (domain_allows pf host (codes "*." ++ base) ≡ true) ↔ Under host base
unfolding domain_allows
wildcard-allows pf host base =
    rw (has_prefix-append (codes "*.") base, trim_prefix-append (codes "*.") base)
      (under_base_iff host base)
