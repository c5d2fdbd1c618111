-- ===== src/Prelude/Texts/Laws.antt =====
-- What the tests on prefixes and suffixes decide.
use mathlib.Core.Path.{◌≡◌, refl, sym, ap, ◌∙◌}
use mathlib.Core.Logic.{◌↔◌}
use mathlib.Core.Bool.{true}
use mathlib.Core.List.{[], ◌∷◌, ◌++◌, reverse, reverse-append, reverse-reverse}
use native.Mathlib.Omega.{arith}
use nexus_hunter_ai.Prelude.Texts.{Text, has_prefix, has_suffix, cut, trim_prefix}

prefix_rest : (s p : Text) → has_prefix s p ≡ true → (r : Text) × (s ≡ p ++ r)
unfolding has_prefix
prefix_rest s [] h = (s, refl)
prefix_rest [] (b ∷ p) h = cc
prefix_rest (a ∷ s) (b ∷ p) h =
    let (r, e) = prefix_rest s p (ground arith) in (r, same_head (ground arith) e)
  where
    same_head : {t : Text} → a ≡ b → s ≡ t → a ∷ s ≡ b ∷ t
    same_head d e = cc (d, e)

pub has_prefix-append : (p r : Text) → has_prefix (p ++ r) p ≡ true
unfolding has_prefix
has_prefix-append [] r = refl
has_prefix-append (a ∷ p) r = ground (arith, has_prefix-append p r)

pub has_prefix_iff : (s p : Text) → (has_prefix s p ≡ true) ↔ ((r : Text) × (s ≡ p ++ r))
has_prefix_iff s p = (prefix_rest s p, λ h. rw h.1 (has_prefix-append p h.0))

unreverse : (s p r : Text) → reverse s ≡ reverse p ++ r → s ≡ reverse r ++ p
unreverse s p r e =
    sym (reverse-reverse s)
    ∙ ap reverse e
    ∙ reverse-append (reverse p) r
    ∙ ap (λ t. reverse r ++ t) (reverse-reverse p)

-- A text has the suffix exactly when it is some text followed by the suffix.
pub has_suffix_iff : (s p : Text) → (has_suffix s p ≡ true) ↔ ((r : Text) × (s ≡ r ++ p))
unfolding has_suffix
has_suffix_iff s p = (
  λ h. let (r, e) = prefix_rest (reverse s) (reverse p) h in (reverse r, unreverse s p r e),
  λ h. rw (h.1, reverse-append) (has_prefix-append (reverse p) (reverse h.0)),
)

cut-append : (p r : Text) → cut (p ++ r) p ≡ r
unfolding cut
cut-append [] r = refl
cut-append (a ∷ p) r = cut-append p r

pub trim_prefix-append : (p r : Text) → trim_prefix (p ++ r) p ≡ r
unfolding trim_prefix
trim_prefix-append p r = ground (arith, has_prefix-append p r, cut-append p r)
