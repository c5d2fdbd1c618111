-- ===== src/Prelude/Sorts.antt =====
-- sort.Slice under a comparator that leaves no ties: an insertion sort.
use mathlib.Core.Path.{◌≡◌, refl, ap, ◌∙◌}
use mathlib.Core.Bool.{Bool, true, false}
use mathlib.Core.List.{List, [], ◌∷◌, Perm}
use mathlib.Core.List.Perm
use mathlib.Core.Logic.{◌⊎◌, inl, inr}
use nexus_hunter_ai.Prelude.Tests.{if◌then◌else◌, Bool-cases}
use nexus_hunter_ai.Prelude.Lists.{Has}

module _ {ℓ} {A : Type ℓ} where
  unfoldable pub insert_by : (A → A → Bool) → A → List A → List A
  insert_by less x [] = x ∷ []
  insert_by less x (y ∷ ys) = if less y x then y ∷ insert_by less x ys else x ∷ y ∷ ys

  unfoldable pub sort_by : (A → A → Bool) → List A → List A
  unfolding insert_by
  sort_by less [] = []
  sort_by less (x ∷ xs) = insert_by less x (sort_by less xs)

  -- no member is less than the one before it
  abbrev pub Ordered : (A → A → Bool) → List A → Type 0
  Ordered less [] = Unit
  Ordered less (x ∷ []) = Unit
  Ordered less (x ∷ y ∷ ys) = (less y x ≡ false) × Ordered less (y ∷ ys)

  insert_by-Ordered :
      (less : A → A → Bool) (x y : A) (ys : List A)
      → less y x ≡ false
      → insert_by less x (y ∷ ys) ≡ x ∷ y ∷ ys
  unfolding insert_by
  insert_by-Ordered less x y ys h = rw h

  -- A list in order is left as it is.
  pub sort_by-Ordered : (less : A → A → Bool) (xs : List A) → Ordered less xs → sort_by less xs ≡ xs
  unfolding sort_by
  sort_by-Ordered less [] h = refl
  sort_by-Ordered less (x ∷ []) h = refl
  sort_by-Ordered less (x ∷ y ∷ ys) h =
      ap (insert_by less x) (sort_by-Ordered less (y ∷ ys) h.1) ∙ insert_by-Ordered less x y ys h.0

  insert_by-perm : (less : A → A → Bool) (x : A) (ys : List A) → Perm (insert_by less x ys) (x ∷ ys)
  unfolding insert_by
  insert_by-perm less x [] = Perm.refl _
  insert_by-perm less x (y ∷ ys) = pick (less y x) (insert_by-perm less x ys)
    where
      pick :
          (b : Bool)
          → Perm (insert_by less x ys) (x ∷ ys)
          → Perm (if b then y ∷ insert_by less x ys else x ∷ y ∷ ys) (x ∷ y ∷ ys)
      pick true h = Perm.trans (Perm.cons y h) (Perm.swap x y ys)
      pick false h = Perm.refl _

  -- Sorting keeps the members, each as often.
  pub sort_by-perm : (less : A → A → Bool) (xs : List A) → Perm (sort_by less xs) xs
  unfolding sort_by
  sort_by-perm less [] = Perm.refl _
  sort_by-perm less (x ∷ xs) =
      Perm.trans (insert_by-perm less x (sort_by less xs)) (Perm.cons x (sort_by-perm less xs))

module _ {A : Type 0} (less : A → A → Bool) (a : A) where
  Has-insert_by : (x : A) (ys : List A) → (a ≡ x) ⊎ Has a ys → Has a (insert_by less x ys)
  unfolding insert_by
  Has-insert_by x [] h = h
  Has-insert_by x (y ∷ ys) h = elim (Bool-cases (less y x)) [
    | inl later ↦ rw later (shift h (λ k. Has-insert_by x ys k))
    | inr first ↦ rw first h
  ]
    where
      shift :
          (a ≡ x) ⊎ ((a ≡ y) ⊎ Has a ys)
          → ((a ≡ x) ⊎ Has a ys → Has a (insert_by less x ys))
          → (a ≡ y) ⊎ Has a (insert_by less x ys)
      shift (inl e) ih = inr (ih (inl e))
      shift (inr (inl e)) ih = inl e
      shift (inr (inr k)) ih = inr (ih (inr k))

  -- Sorting loses no member.
  pub Has-sort_by : (xs : List A) → Has a xs → Has a (sort_by less xs)
  unfolding sort_by
  Has-sort_by [] h = h
  Has-sort_by (x ∷ xs) (inl e) = Has-insert_by x (sort_by less xs) (inl e)
  Has-sort_by (x ∷ xs) (inr h) = Has-insert_by x (sort_by less xs) (inr (Has-sort_by xs h))
