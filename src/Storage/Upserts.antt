-- ===== src/Storage/Upserts.antt =====
-- memory.go: the loop of SaveDNSRecord, SaveHTTPService and SaveURL over the records of an asset.
use nexus_hunter_ai.Prelude.{
  Bool, false, Option, none, some, List, [], ◌∷◌, any, if◌then◌else◌, ◌≡◌, refl, inl, inr,
  Bool-cases, arith,
}

-- m[key] of a map of slices
abbrev pub listed {ℓ} : {A : Type ℓ} → Option (List A) → List A
listed none = []
listed (some xs) = xs

module _ {A : Type 0} (same : A → A → Bool) (merge : A → A → A) where
  -- the first record that is the same is updated; where there is none, the new one is appended
  unfoldable pub upsert : A → List A → List A
  upsert r [] = r ∷ []
  upsert r (x ∷ xs) = let rest = upsert r xs in if same x r then merge x r ∷ xs else x ∷ rest

  -- no two records are the same
  abbrev pub Apart : List A → Type 0
  Apart [] = Unit
  Apart (x ∷ xs) = (any (λ y. same y x) xs ≡ false) × Apart xs

  -- the test compares keys that an update keeps
  pub record IsKeyed : Type 0 where
    pub symmetric : (a b : A) → same a b ≡ same b a
    pub keeps : (x r z : A) → same (merge x r) z ≡ same x z

  module _ (keyed : IsKeyed) where
    any-upsert :
        (z r : A) (xs : List A)
        → same z r ≡ false
        → any (λ y. same y z) xs ≡ false
        → any (λ y. same y z) (upsert r xs) ≡ false
    unfolding upsert
    any-upsert z r [] apart h = ground (arith, keyed.symmetric z r)
    any-upsert z r (x ∷ xs) apart h = elim (Bool-cases (same x r)) [
      | inl b ↦ rw b (ground (arith, keyed.keeps x r z))
      | inr n ↦ rw n (ground (arith, any-upsert z r xs apart))
    ]

    any-merged :
        (x r : A) (xs : List A)
        → any (λ y. same y x) xs ≡ false
        → any (λ y. same y (merge x r)) xs ≡ false
    any-merged x r [] h = refl
    any-merged x r (y ∷ xs) h = ground (
      arith,
      any-merged x r xs,
      keyed.symmetric y (merge x r),
      keyed.keeps x r y,
      keyed.symmetric x y,
    )

    pub upsert-Apart : (r : A) (xs : List A) → Apart xs → Apart (upsert r xs)
    unfolding upsert
    upsert-Apart r [] h = (refl, tt)
    upsert-Apart r (x ∷ xs) h = elim (Bool-cases (same x r)) [
      | inl b ↦ rw b (any-merged x r xs h.0, h.1)
      | inr n ↦ rw n (any-upsert x r xs n h.0, upsert-Apart r xs h.1)
    ]
