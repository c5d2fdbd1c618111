-- ===== src/Evidence/Dedupe.antt =====
-- sanitizer.go: deduplicateStrings.
use nexus_hunter_ai.Prelude.{
  Bool, true, false, ◌||◌, List, [], ◌∷◌, ◌≡◌, ◌↔◌, inl, inr, refl, sym, subst, any, Has,
  Bool-cases,
}
use nexus_hunter_ai.Prelude.Texts.{Text, text_eq, text_eq_iff, text_eq_refl}

-- `seen` holds the items that were kept, and the map of those seen
unfoldable pub deduplicate_from : List Text → List Text → List Text
deduplicate_from seen [] = []
deduplicate_from seen (x ∷ xs) = elim (any (text_eq x) seen) [
  | true ↦ deduplicate_from seen xs
  | false ↦ x ∷ deduplicate_from (x ∷ seen) xs
]

-- deduplicateStrings
unfoldable pub deduplicate_strings : List Text → List Text
unfolding deduplicate_from
deduplicate_strings items = deduplicate_from [] items

-- no item stands twice
abbrev pub Distinct : List Text → Type 0
Distinct [] = Unit
Distinct (x ∷ xs) = (¬ Has x xs) × Distinct xs

or_true : (b : Bool) {c : Bool} → c ≡ true → (b || c) ≡ true
or_true true h = refl
or_true false h = h

any-Has : (x : Text) (xs : List Text) → (any (text_eq x) xs ≡ true) ↔ Has x xs
any-Has x [] = (λ h. cc h, λ h. absurd h)
any-Has x (y ∷ ys) = (
  λ h. elim (Bool-cases (text_eq x y)) [
    | inl e ↦ inl ((text_eq_iff x y).0 e)
    | inr n ↦ inr ((any-Has x ys).0 (rw n at h))
  ],
  λ h. elim h [
    | inl e ↦ rw (e, text_eq_refl) refl
    | inr k ↦ or_true (text_eq x y) ((any-Has x ys).1 k)
  ],
)

step_old :
    (y : Text) (ys seen : List Text)
    → any (text_eq y) seen ≡ true
    → deduplicate_from seen (y ∷ ys) ≡ deduplicate_from seen ys
unfolding deduplicate_from
step_old y ys seen h = rw (deduplicate_from, h) refl

step_new :
    (y : Text) (ys seen : List Text)
    → any (text_eq y) seen ≡ false
    → deduplicate_from seen (y ∷ ys) ≡ y ∷ deduplicate_from (y ∷ seen) ys
unfolding deduplicate_from
step_new y ys seen h = rw (deduplicate_from, h) refl

-- The items that are not seen yet, and no others, are kept.
keeps :
    (x : Text) (xs seen : List Text)
    → Has x (deduplicate_from seen xs) ↔ (Has x xs × (¬ Has x seen))
unfolding deduplicate_from
keeps x [] seen = (λ h. absurd h, λ h. h.0)
keeps x (y ∷ ys) seen = elim (Bool-cases (any (text_eq y) seen)) [
  | inl old ↦ rw (step_old y ys seen old) (
    λ h. let k = (keeps x ys seen).0 h in (inr k.0, k.1),
    λ h. elim h.0 [
      | inl e ↦ absurd (h.1 (subst (λ z. Has z seen) (sym e) ((any-Has y seen).0 old)))
      | inr k ↦ (keeps x ys seen).1 (k, h.1)
    ],
  )
  | inr new ↦ rw (step_new y ys seen new) (
    λ h. elim h [
      | inl e ↦ (inl e, λ s. clash e s new)
      | inr k ↦ let r = (keeps x ys (y ∷ seen)).0 k in (inr r.0, λ s. r.1 (inr s))
    ],
    λ h. elim (Bool-cases (text_eq x y)) [
      | inl e ↦ inl ((text_eq_iff x y).0 e)
      | inr n ↦ inr (
          (keeps x ys (y ∷ seen)).1
            (other n h.0, λ s. elim s [ inl e ↦ cc (n, (text_eq_iff x y).1 e) | inr s' ↦ h.1 s' ]))
    ],
  )
]
  where
    clash : x ≡ y → Has x seen → any (text_eq y) seen ≡ false → ⊥
    clash e s new = cc (new, (any-Has y seen).1 (subst (λ z. Has z seen) e s))

    other : text_eq x y ≡ false → Has x (y ∷ ys) → Has x ys
    other n (inl e) = cc (n, (text_eq_iff x y).1 e)
    other n (inr k) = k

Distinct-from : (xs seen : List Text) → Distinct (deduplicate_from seen xs)
unfolding deduplicate_from
Distinct-from [] seen = tt
Distinct-from (y ∷ ys) seen = elim (Bool-cases (any (text_eq y) seen)) [
  | inl old ↦ rw (step_old y ys seen old) (Distinct-from ys seen)
  | inr new ↦
      rw (step_new y ys seen new)
        (λ h. ((keeps y ys (y ∷ seen)).0 h).1 (inl refl), Distinct-from ys (y ∷ seen))
]

-- deduplicateStrings keeps every item, adds none, and leaves none twice.
pub deduplicate_strings_lem :
    (items : List Text)
    → Distinct (deduplicate_strings items)
      × ((x : Text) → Has x (deduplicate_strings items) ↔ Has x items)
unfolding deduplicate_strings
deduplicate_strings_lem items = (
  Distinct-from items [],
  λ x. (λ h. ((keeps x items []).0 h).0, λ h. (keeps x items []).1 (h, λ s. absurd s)),
)
