-- ===== src/Storage/Imports.antt =====
-- memory.go: scope imports, and ConfirmScopeAndCreateTarget.
pub mod Confirmed
use nexus_hunter_ai.Prelude.{
  ℕ, String, ◌==◌, ◌||◌, Bool, true, false, Option, none, some, List, ◌∷◌, ◌++◌, any, not, ltb,
  Result, ok, err, if◌then◌else◌,
}
use nexus_hunter_ai.Prelude.Maps.{find, put, values}
use nexus_hunter_ai.Prelude.Sorts.{sort_by}
use nexus_hunter_ai.Prelude.Texts.{Text, codes, text_eq, is_empty, trim_space}
use nexus_hunter_ai.Models.{Target}
use nexus_hunter_ai.Storage.Data.{
  CanonicalScopeRoots, MemoryStorage, ScopeImportReview, StorageError, looked_up, conflict,
  invalid_state, import_rejected, root_domain_required, confirmed_by_required, not_a_candidate,
  target_nil,
}

abbrev pub confirmed : String
confirmed = "CONFIRMED"

abbrev pub rejected : String
rejected = "REJECTED"

unfoldable pub save_import_review : ScopeImportReview → MemoryStorage → MemoryStorage
save_import_review review m = record m { scope_imports = put m.scope_imports review.id review }

unfoldable pub get_import_review : String → MemoryStorage → Result StorageError ScopeImportReview
get_import_review id m = looked_up (find m.scope_imports id) ok

-- the newest first
unfoldable pub list_import_reviews : MemoryStorage → List ScopeImportReview
unfolding sort_by
list_import_reviews m = sort_by (λ a b. ltb b.created_at a.created_at) (values m.scope_imports)

-- x == "" || strings.TrimSpace(x) == ""
abbrev pub is_blank : Text → Bool
is_blank t = is_empty t || is_empty (trim_space t)

-- ConfirmImportReviewProvenance
unfoldable pub confirm_import_review_provenance :
    (now : ℕ) (id : String) (selected : Text) (target_id : String) (confirmed_by : Text)
    → MemoryStorage
    → Result StorageError MemoryStorage
confirm_import_review_provenance now id selected target_id confirmed_by m =
    if is_empty (trim_space confirmed_by)
    then err confirmed_by_required
    else (looked_up (find m.scope_imports id) λ rev.
        if rev.status == confirmed
        then err invalid_state
        else ok (record m {
          scope_imports = put m.scope_imports id (record rev {
            status = confirmed;
            selected_root_domain = selected;
            target_id = target_id;
            confirmed_by = confirmed_by;
            confirmed_at = some now;
          });
        }))

-- the hexadecimal SHA-256 of a text, and time.Format under RFC3339
pub record Snapshots : Type 0 where
  pub sha256_hex : Text → Text
  pub format_rfc3339 : ℕ → Text

abbrev with_colon : Text → Text → Text
with_colon a b = a ++ (codes ":" ++ b)

-- the hash of the authorization snapshot
unfoldable pub snapshot_hash :
    Snapshots
    → (now : ℕ) → ScopeImportReview
    → (selected confirmed_by : Text) → (target_id : String) → Text
snapshot_hash sn now rev selected confirmed_by target_id = sn.sha256_hex (
    with_colon rev.canonical_scope_sha256 (
      with_colon selected
        (with_colon confirmed_by (with_colon (sn.format_rfc3339 now) (codes target_id)))))

-- the target as it is stored
unfoldable pub attributed_target :
    (hash : Text) (now : ℕ) → ScopeImportReview → (selected confirmed_by : Text) → Target → Target
attributed_target hash now rev selected confirmed_by target = record target {
  root_domain = selected;
  primary_root_domain = selected;
  scope_import_id = rev.id;
  canonical_scope_sha256 = rev.canonical_scope_sha256;
  canonical_scope_hash = rev.canonical_scope_sha256;
  authorization_snapshot_sha256 = hash;
  confirmed_by = confirmed_by;
  confirmation_timestamp = some now;
  created_at = now;
  updated_at = now;
}

abbrev with_root : Text → Option CanonicalScopeRoots → Option CanonicalScopeRoots
with_root selected none = none
with_root selected (some c) = some (record c { confirmed_primary_root_domain = selected })

-- the review as it is stored
unfoldable pub confirmed_review :
    (hash : Text) (now : ℕ) (selected confirmed_by reason : Text) (target_id : String)
    → ScopeImportReview
    → ScopeImportReview
confirmed_review hash now selected confirmed_by reason target_id rev = record rev {
  status = confirmed;
  selected_root_domain = selected;
  target_id = target_id;
  confirmed_by = confirmed_by;
  confirmed_at = some now;
  selection_reason = reason;
  authorization_snapshot_sha256 = hash;
  canonical_scope = with_root selected rev.canonical_scope;
}

abbrev pub if_absent {ℓ} :
    {A : Type ℓ} → Option Target → Result StorageError A → Result StorageError A
if_absent none r = r
if_absent (some t) r = err conflict

-- the last conflict check, and the two writes
unfoldable pub create_attributed :
    Snapshots
    → (now : ℕ) (id : String) (selected confirmed_by reason : Text) → ScopeImportReview
    → Target
    → MemoryStorage
    → Result StorageError (Target × ScopeImportReview × MemoryStorage)
unfolding snapshot_hash attributed_target confirmed_review
create_attributed sn now id selected confirmed_by reason rev target m =
    let hash = snapshot_hash sn now rev selected confirmed_by target.id in
    let created = attributed_target hash now rev selected confirmed_by target in
    let review = confirmed_review hash now selected confirmed_by reason target.id rev in
    if_absent (find m.targets target.id) (
      ok (
        created,
        review,
        record m {
          targets = put m.targets created.id created;
          scope_imports = put m.scope_imports id review;
        },
      ))

abbrev target_or_error {ℓ} :
    {A : Type ℓ} → Option Target → (Target → Result StorageError A) → Result StorageError A
target_or_error none next = err target_nil
target_or_error (some t) next = next t

-- the checks on a review that was found
unfoldable pub confirm_found :
    Snapshots
    → (now : ℕ) (id : String) (selected confirmed_by reason : Text) → ScopeImportReview
    → Option Target
    → MemoryStorage
    → Result StorageError (Target × ScopeImportReview × MemoryStorage)
unfolding create_attributed
confirm_found sn now id selected confirmed_by reason rev target m =
    if rev.status == confirmed
    then err invalid_state
    else if rev.status == rejected
    then err import_rejected
    else if is_blank selected
    then err root_domain_required
    else if is_blank confirmed_by
    then err confirmed_by_required
    else if any (λ cand. text_eq cand.normalized_domain selected) rev.root_domains
    then target_or_error target
        (λ t. create_attributed sn now id selected confirmed_by reason rev t m)
    else err not_a_candidate

-- ConfirmScopeAndCreateTarget
unfoldable pub confirm_scope_and_create_target :
    Snapshots
    → (now : ℕ) (id : String) (selected : Text) → Option Target
    → (confirmed_by reason : Text) → MemoryStorage
    → Result StorageError (Target × ScopeImportReview × MemoryStorage)
unfolding confirm_found
confirm_scope_and_create_target sn now id selected target confirmed_by reason m =
    looked_up (find m.scope_imports id)
      λ rev. confirm_found sn now id selected confirmed_by reason rev target m
