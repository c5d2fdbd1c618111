-- ===== src/Prelude/Lists.antt =====
-- Lists with native lengths, Boolean searches, and the predicate that all members satisfy `P`.
use Prim.Native.Nat.{ℕ, suc, ◌+◌, ◌-◌}
use mathlib.Core.Path.{◌≡◌, refl, sym, subst}
use mathlib.Core.Bool.{Bool, true, false, ◌||◌, ◌&&◌}
use mathlib.Core.List.{List, [], ◌∷◌, ◌++◌}
use native.Mathlib.Omega.{arith}
use mathlib.Core.Logic.{◌⊎◌, inl, inr}
use nexus_hunter_ai.Prelude.Tests.{nat_eq, if◌then◌else◌, Bool-cases}

module _ {ℓ} {A : Type ℓ} where
  abbrev pub length : List A → ℕ
  length [] = 0
  length (x ∷ xs) = suc (length xs)

  pub length-append : (xs ys : List A) → length (xs ++ ys) ≡ length xs + length ys
  length-append [] ys = omega arith
  length-append (x ∷ xs) ys = omega (arith, length-append xs ys)

  -- does a member pass the test (a loop that breaks at the first one)
  abbrev pub any : (A → Bool) → List A → Bool
  any p [] = false
  any p (x ∷ xs) = p x || any p xs

  abbrev pub all : (A → Bool) → List A → Bool
  all p [] = true
  all p (x ∷ xs) = p x && all p xs

  abbrev pub filter : (A → Bool) → List A → List A
  filter p [] = []
  filter p (x ∷ xs) = if p x then x ∷ filter p xs else filter p xs

  abbrev pub All {κ} : (A → Type κ) → List A → Type κ
  All P [] = Unit
  All P (x ∷ xs) = P x × All P xs

  -- the first members, as many as a number says
  abbrev pub first : ℕ → List A → List A
  first n [] = []
  first n (x ∷ xs) = if nat_eq n 0 then [] else x ∷ first (n - 1) xs

  -- the list from an index on
  abbrev pub from_index : ℕ → List A → List A
  from_index n [] = []
  from_index n (x ∷ xs) = if nat_eq n 0 then x ∷ xs else from_index (n - 1) xs

  pub append-nil : (xs : List A) → xs ++ [] ≡ xs
  append-nil [] = refl
  append-nil (x ∷ xs) = cc (append-nil xs)

  pub All-append {κ} :
      (P : A → Type κ) (xs : List A) (x : A) → P x → All P xs → All P (xs ++ x ∷ [])
  All-append P [] x p h = (p, tt)
  All-append P (y ∷ xs) x p h = (h.0, All-append P xs x p h.1)

  pub filter-append :
      (p : A → Bool) (xs ys : List A) → filter p (xs ++ ys) ≡ filter p xs ++ filter p ys
  filter-append p [] ys = refl
  filter-append p (x ∷ xs) ys = rw (filter-append p xs ys) (ground arith)

module _ {A : Type 0} where
  -- membership, with the place kept
  abbrev pub Has : A → List A → Type 0
  Has a [] = ⊥
  Has a (x ∷ xs) = (a ≡ x) ⊎ Has a xs

  pub Has-filter :
      (p : A → Bool) (a : A) (xs : List A) → p a ≡ true → Has a xs → Has a (filter p xs)
  Has-filter p a [] h k = k
  Has-filter p a (x ∷ xs) h (inl e) = rw (← e, h) (inl refl)
  Has-filter p a (x ∷ xs) h (inr k) = elim (Bool-cases (p x)) [
    | inl t ↦ rw t (inr (Has-filter p a xs h k))
    | inr f ↦ rw f (Has-filter p a xs h k)
  ]

  pub All-Has : (P : A → Type 0) (a : A) (xs : List A) → All P xs → Has a xs → P a
  All-Has P a (x ∷ xs) h (inl e) = subst P (sym e) h.0
  All-Has P a (x ∷ xs) h (inr k) = All-Has P a xs h.1 k
  All-Has P a [] h k = absurd k
