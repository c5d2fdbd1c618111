-- ===== src/Storage/Imports/Confirmed.antt =====
-- memory.go: what holds after ConfirmScopeAndCreateTarget.
use nexus_hunter_ai.Prelude.{
  ℕ, String, ◌==◌, eq_refl, true, false, Option, none, some, any, ok, err, ◌≡◌, refl, inl, inr,
  if-cases, subst,
}
use nexus_hunter_ai.Prelude.Maps.{find, put, find-put}
use nexus_hunter_ai.Prelude.Texts.{Text, text_eq, is_empty, trim_space}
use nexus_hunter_ai.Models.{Target}
use nexus_hunter_ai.Storage.Data.{MemoryStorage, ScopeImportReview, invalid_state, looked_up-ok}
use nexus_hunter_ai.Storage.Imports.{
  Snapshots, attributed_target, confirm_found, confirm_import_review_provenance,
  confirm_scope_and_create_target, confirmed, confirmed_review, create_attributed, if_absent,
  is_blank, rejected, snapshot_hash, target_or_error,
}

-- a review that is CONFIRMED, and the target that it names, stored and attributed to it
abbrev pub IsAttributed : MemoryStorage → ScopeImportReview → Target → Type 0
IsAttributed m review t =
    (review.status ≡ confirmed)
    × (find m.targets review.target_id ≡ some t)
    × (t.scope_import_id ≡ review.id)
    × (t.root_domain ≡ review.selected_root_domain)
    × (t.confirmed_by ≡ review.confirmed_by)
    × (t.canonical_scope_sha256 ≡ review.canonical_scope_sha256)
    × (t.authorization_snapshot_sha256 ≡ review.authorization_snapshot_sha256)

-- what the checks let through
abbrev pub IsConfirmable : (selected confirmed_by : Text) → ScopeImportReview → Type 0
IsConfirmable selected confirmed_by rev =
    ((rev.status == confirmed) ≡ false)
    × ((rev.status == rejected) ≡ false)
    × (is_blank selected ≡ false)
    × (is_blank confirmed_by ≡ false)
    × (any (λ cand. text_eq cand.normalized_domain selected) rev.root_domains ≡ true)

module _ (sn : Snapshots) (now : ℕ) (id : String) (selected confirmed_by reason : Text) where
  -- what create_attributed stores
  abbrev target_of : ScopeImportReview → Target → Target
  target_of rev target =
      attributed_target (snapshot_hash sn now rev selected confirmed_by target.id) now rev selected
        confirmed_by target

  abbrev review_of : ScopeImportReview → Target → ScopeImportReview
  review_of rev target =
      confirmed_review (snapshot_hash sn now rev selected confirmed_by target.id) now selected
        confirmed_by reason target.id rev

  absent_ok :
      {A : Type 0} (old : Option Target) {r r' : A}
      → if_absent old (ok r) ≡ ok r'
      → (old ≡ none) × (r ≡ r')
  absent_ok none h = (refl, cc h)
  absent_ok (some t) h = absurd (cc h)

  attributed :
      (rev : ScopeImportReview) (target : Target) (m : MemoryStorage)
      → find m.targets target.id ≡ none
      → (let t = target_of rev target in
          let review = review_of rev target in
          let m' : MemoryStorage = record m {
            targets = put m.targets t.id t;
            scope_imports = put m.scope_imports id review;
          } in
          (find m.targets t.id ≡ none)
          × (find m'.scope_imports id ≡ some review)
          × IsAttributed m' review t)
  unfolding attributed_target confirmed_review
  attributed rev target m fresh = (
    fresh,
    rw (find-put, eq_refl id) refl,
    (refl, rw (find-put, eq_refl target.id) refl, refl, refl, refl, refl, refl),
  )

  created :
      (rev : ScopeImportReview) (target : Target) (m m' : MemoryStorage) (t : Target)
      (review : ScopeImportReview)
      → create_attributed sn now id selected confirmed_by reason rev target m ≡ ok (t, review, m')
      → (find m.targets t.id ≡ none)
        × (find m'.scope_imports id ≡ some review)
        × IsAttributed m' review t
  unfolding create_attributed
  created rev target m m' t review h =
      let (fresh, made) = absent_ok (find m.targets target.id) h in
      subst
        (λ (r : Target × ScopeImportReview × MemoryStorage).
          (find m.targets r.0.id ≡ none)
          × (find r.2.scope_imports id ≡ some r.1)
          × IsAttributed r.2 r.1 r.0)
        made (attributed rev target m fresh)

  found :
      (rev : ScopeImportReview) (target : Option Target) (m : MemoryStorage)
      {r : Target × ScopeImportReview × MemoryStorage}
      → confirm_found sn now id selected confirmed_by reason rev target m ≡ ok r
      → IsConfirmable selected confirmed_by rev
        × ((t : Target) × (create_attributed sn now id selected confirmed_by reason rev t m ≡ ok r))
  unfolding confirm_found
  found rev target m {r = r} h = elim (if-cases (rev.status == confirmed) h) [
    | inl e ↦ absurd (cc (e.1))
    | inr (n₁, h₁) ↦ elim (if-cases (rev.status == rejected) h₁) [
      | inl e ↦ absurd (cc (e.1))
      | inr (n₂, h₂) ↦ elim (if-cases (is_blank selected) h₂) [
        | inl e ↦ absurd (cc (e.1))
        | inr (n₃, h₃) ↦ elim (if-cases (is_blank confirmed_by) h₃) [
          | inl e ↦ absurd (cc (e.1))
          | inr (n₄, h₄) ↦
              elim (if-cases
                (any (λ cand. text_eq cand.normalized_domain selected) rev.root_domains) h₄) [
                  | inl (b, h₅) ↦ ((n₁, n₂, n₃, n₄, b), given target h₅)
                  | inr e ↦ absurd (cc (e.1))
                ]
        ]
      ]
    ]
  ]
    where
      given :
          (o : Option Target)
          → target_or_error o
              (λ t. create_attributed sn now id selected confirmed_by reason rev t m)
            ≡ ok r
          → (t : Target) × (create_attributed sn now id selected confirmed_by reason rev t m ≡ ok r)
      given none h = absurd (cc h)
      given (some t) h = (t, h)

  -- Where ConfirmScopeAndCreateTarget succeeds, the import existed, was neither CONFIRMED nor
  -- REJECTED, had the selected root among its candidates, and the operator's name was not blank; the
  -- target's identifier was free; afterwards the import is CONFIRMED, and the target that it names is
  -- stored, with the import, root, operator and hashes that the import records. Where it fails,
  -- nothing changes: no new state is returned.
  pub confirm_scope-IsAttributed :
      (target : Option Target) (m m' : MemoryStorage) (t : Target) (review : ScopeImportReview)
      → confirm_scope_and_create_target sn now id selected target confirmed_by reason m
        ≡ ok (t, review, m')
      → (rev : ScopeImportReview) × (find m.scope_imports id ≡ some rev)
        × IsConfirmable selected confirmed_by rev
        × (find m.targets t.id ≡ none)
        × (find m'.scope_imports id ≡ some review)
        × IsAttributed m' review t
  unfolding confirm_scope_and_create_target
  confirm_scope-IsAttributed target m m' t review h =
      let (rev, there, h₁) = looked_up-ok (find m.scope_imports id) h in
      let (checked, (given, h₂)) = found rev target m h₁ in
      let (fresh, kept, whole) = created rev given m m' t review h₂ in
      (rev, there, checked, fresh, kept, whole)

  -- An import that ConfirmScopeAndCreateTarget confirmed is not confirmed again, whoever tries and
  -- with whichever root and target: both ways of confirming return ErrInvalidState (the second,
  -- ConfirmImportReviewProvenance, when the operator's name is not blank).
  pub confirm_scope-once :
      (target other : Option Target) (m m' : MemoryStorage) (t : Target)
      (review : ScopeImportReview) (later : ℕ) (root operator why : Text) (other_id : String)
      → confirm_scope_and_create_target sn now id selected target confirmed_by reason m
        ≡ ok (t, review, m')
      → is_empty (trim_space operator) ≡ false
      → (confirm_scope_and_create_target sn later id root other operator why m' ≡ err invalid_state)
        × (confirm_import_review_provenance later id root other_id operator m' ≡ err invalid_state)
  unfolding confirm_scope_and_create_target confirm_found confirm_import_review_provenance
  confirm_scope-once target other m m' t review later root operator why other_id h named =
      let (rev, there, checked, fresh, kept, whole) =
        confirm_scope-IsAttributed target m m' t review h in
      (
        rw (confirm_scope_and_create_target, kept, confirm_found, whole.0) refl,
        rw (confirm_import_review_provenance, named, kept, whole.0) refl,
      )
