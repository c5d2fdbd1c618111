-- ===== src/Storage/Observations/Pages.antt =====
-- memory.go: reading a filtered list page by page.
use nexus_hunter_ai.Prelude.{
  ℕ, zero, suc, ◌+◌, ◌-◌, ◌*◌, ◌≤◌, ◌<◌, false, ◌||◌, List, [], ◌∷◌, ◌++◌, first, from_index,
  length, leb, ltb, nat_eq, ◌≡◌, refl, sym, ◌∙◌, inl, inr, Bool-cases, arith,
}
use nexus_hunter_ai.Storage.Observations.{page}

module _ {A : Type 0} where
  -- the pages at the offsets k, k + limit, and so on, as many as `pages`, one after another
  unfoldable pub read_pages : (limit pages offset : ℕ) → List A → List A
  unfolding page
  read_pages limit zero offset xs = []
  read_pages limit (suc pages) offset xs =
      (page limit offset xs).0 ++ read_pages limit pages (offset + limit) xs

  first_all : (n : ℕ) (xs : List A) → length xs ≤ n → first n xs ≡ xs
  first_all n [] h = refl
  first_all n (x ∷ xs) h = ground (arith, first_all (n - 1) xs)

  length-from_index : (k : ℕ) (xs : List A) → length (from_index k xs) ≡ length xs - k
  length-from_index k [] = omega arith
  length-from_index k (x ∷ xs) = ground (arith, length-from_index (k - 1) xs)

  from_index_past : (k : ℕ) (xs : List A) → length xs ≤ k → from_index k xs ≡ []
  from_index_past k [] h = refl
  from_index_past k (x ∷ xs) h = ground (arith, from_index_past (k - 1) xs)

  from_index_step :
      (k : ℕ) (x : A) (xs : List A) → 0 < k → from_index k (x ∷ xs) ≡ from_index (k - 1) xs
  from_index_step k x xs h = ground arith

  split_start : (n : ℕ) (xs : List A) → first n xs ++ from_index n xs ≡ xs
  split_start n [] = refl
  split_start n (x ∷ xs) = ground (arith, split_start (n - 1) xs)

  split_at :
      (n k : ℕ) (xs : List A) → first n (from_index k xs) ++ from_index (k + n) xs ≡ from_index k xs
  split_at n k [] = refl
  split_at n k (x ∷ xs) = elim (Bool-cases (nat_eq k 0)) [
    | inl b ↦
        let zero_k : k ≡ 0 = ground arith in
        let sum : k + n ≡ n = omega (arith, zero_k) in rw (sum, zero_k) (split_start n (x ∷ xs))
    | inr c ↦
        let sum : k + n - 1 ≡ k - 1 + n = ground arith in
        rw (from_index_step k x xs (ground arith), from_index_step (k + n) x xs (ground arith), sum)
          (split_at n (k - 1) xs)
  ]

  page_lem :
      (limit offset : ℕ) (xs : List A)
      → 0 < limit
      → limit ≤ 200
      → (page limit offset xs).0 ≡ first limit (from_index offset xs)
  unfolding page
  page_lem limit offset xs h k =
      let kept : (nat_eq limit 0 || ltb 200 limit) ≡ false = ground arith in
      let many = length-from_index offset xs in
      elim (Bool-cases (leb (length xs) offset)) [
        | inl past ↦ rw (page, past, from_index_past offset xs (ground arith)) refl
        | inr within ↦ elim (Bool-cases (ltb (length xs) (offset + limit))) [
          | inl last ↦
              rw (page, kept, within, last)
                (first_all (length xs - offset) (from_index offset xs) (ground (arith, many))
                  ∙ sym (first_all limit (from_index offset xs) (ground (arith, many))))
          | inr more ↦
              let left : offset + limit - offset ≡ limit = omega arith in
              rw (page, kept, within, more, left) refl
        ]
      ]

  -- With a limit between 1 and 200, the pages at the offsets 0, limit, 2 * limit and so on, once they
  -- are enough for the total, make up the whole list: no record is missed, none comes twice.
  pub read_pages-all :
      (limit pages : ℕ) (xs : List A)
      → 0 < limit
      → limit ≤ 200
      → length xs ≤ pages * limit
      → read_pages limit pages 0 xs ≡ xs
  unfolding read_pages
  read_pages-all limit pages xs h k enough =
      pages_from pages 0 (omega (arith, enough)) ∙ from_start xs
    where
      from_start : (xs : List A) → from_index 0 xs ≡ xs
      from_start [] = refl
      from_start (x ∷ xs) = refl

      pages_from :
          (n offset : ℕ)
          → length xs ≤ offset + n * limit
          → read_pages limit n offset xs ≡ from_index offset xs
      pages_from zero offset e = sym (from_index_past offset xs (omega (arith, e)))
      pages_from (suc n) offset e =
          rw (page_lem limit offset xs h k, pages_from n (offset + limit) (omega (arith, e)))
            (split_at limit offset xs)
