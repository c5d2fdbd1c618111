-- ===== src/Prelude/Texts.antt =====
-- ASCII texts as lists of bytes, with the functions of Go's `strings` that the program calls.
pub mod Laws
use Prim.Native.Nat.{ℕ, zero, suc, ◌+◌}
use Prim.Native.Char.{code}
use Prim.Native.String.{String}
use mathlib.Core.Path.{◌≡◌, refl, ap}
use mathlib.Core.Logic.{◌↔◌}
use mathlib.Core.Bool.{Bool, true, false, ◌&&◌, ◌||◌}
use mathlib.Core.List.{List, [], ◌∷◌, ◌++◌, map, reverse}
use native.Mathlib.Omega.{arith}
use nexus_hunter_ai.Prelude.Tests.{leb, ltb, nat_eq, if◌then◌else◌}

abbrev pub Text : Type 0
Text = List ℕ

-- a text literal
abbrev pub codes : String → Text
codes String.[] = []
codes (String.◌∷◌ c s) = code c ∷ codes s

-- s == t
unfoldable pub text_eq : Text → Text → Bool
text_eq [] [] = true
text_eq (a ∷ s) (b ∷ t) = nat_eq a b && text_eq s t
text_eq _ _ = false

-- strings.HasPrefix(s, p)
unfoldable pub has_prefix : Text → Text → Bool
has_prefix s [] = true
has_prefix [] (b ∷ p) = false
has_prefix (a ∷ s) (b ∷ p) = nat_eq a b && has_prefix s p

-- the text without its first bytes, as many as the other has
unfoldable pub cut : Text → Text → Text
cut s [] = s
cut [] (b ∷ p) = []
cut (a ∷ s) (b ∷ p) = cut s p

-- strings.TrimPrefix(s, p)
unfoldable pub trim_prefix : Text → Text → Text
unfolding has_prefix cut
trim_prefix s p = if has_prefix s p then cut s p else s

-- strings.HasSuffix(s, p)
unfoldable pub has_suffix : Text → Text → Bool
unfolding has_prefix
has_suffix s p = has_prefix (reverse s) (reverse p)

-- strings.Contains(s, p)
unfoldable pub contains : Text → Text → Bool
unfolding has_prefix
contains [] p = has_prefix [] p
contains (a ∷ s) p = has_prefix (a ∷ s) p || contains s p

unfoldable pub lower_byte : ℕ → ℕ
lower_byte c = if leb b'A' c && leb c b'Z' then c + 32 else c

-- strings.ToLower(s)
unfoldable pub to_lower : Text → Text
unfolding lower_byte
to_lower = map lower_byte

unfoldable pub is_space : ℕ → Bool
is_space c = (leb 9 c && leb c 13) || nat_eq c 32

unfoldable pub trim_left : Text → Text
unfolding is_space
trim_left [] = []
trim_left (c ∷ s) = if is_space c then trim_left s else c ∷ s

-- strings.TrimSpace(s)
unfoldable pub trim_space : Text → Text
unfolding trim_left
trim_space s = reverse (trim_left (reverse (trim_left s)))

abbrev pub is_empty : Text → Bool
is_empty [] = true
is_empty (c ∷ s) = false

text_eq_sound : (s t : Text) → text_eq s t ≡ true → s ≡ t
unfolding text_eq
text_eq_sound [] [] h = refl
text_eq_sound [] (b ∷ t) h = ground arith
text_eq_sound (a ∷ s) [] h = ground arith
text_eq_sound (a ∷ s) (b ∷ t) h = ground (arith, text_eq_sound s t)

pub text_eq_refl : (s : Text) → text_eq s s ≡ true
unfolding text_eq
text_eq_refl [] = refl
text_eq_refl (a ∷ s) = ground (arith, text_eq_refl s)

pub text_eq_iff : (s t : Text) → (text_eq s t ≡ true) ↔ (s ≡ t)
text_eq_iff s t = (text_eq_sound s t, λ e. subst_refl e)
  where
    subst_refl : s ≡ t → text_eq s t ≡ true
    subst_refl e = rw (← e) (text_eq_refl s)

-- Lower case twice is lower case once.
lower_byte_idem : (c : ℕ) → lower_byte (lower_byte c) ≡ lower_byte c
unfolding lower_byte
lower_byte_idem c = ground arith

pub to_lower_idem : (s : Text) → to_lower (to_lower s) ≡ to_lower s
unfolding to_lower
to_lower_idem [] = refl
to_lower_idem (c ∷ s) = cc (lower_byte_idem c, to_lower_idem s)
