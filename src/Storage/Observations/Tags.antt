-- ===== src/Storage/Observations/Tags.antt =====
-- memory.go: adding and removing tags of an asset.
use nexus_hunter_ai.Prelude.{
  ℕ, String, eq_refl, Bool, true, false, not, ◌||◌, List, [], ◌∷◌, ◌++◌, any, filter, ok, ◌≡◌, refl,
  inl, inr, Bool-cases, arith,
}
use nexus_hunter_ai.Prelude.Maps.{find, put, find-put}
use nexus_hunter_ai.Prelude.Texts.{Text, text_eq_refl}
use nexus_hunter_ai.Storage.Upserts.{listed}
use nexus_hunter_ai.Storage.Observations.Data.{AssetTag, ObservationMemory}
use nexus_hunter_ai.Storage.Observations.{
  add_asset_tag, equal_fold, list_asset_tags, remove_asset_tag,
}

-- tags that are kept when one spelling is removed
kept_apart :
    (tag : Text) (tags : List AssetTag)
    → any (λ t. equal_fold t.tag tag) (filter (λ t. not (equal_fold t.tag tag)) tags) ≡ false
kept_apart tag [] = refl
kept_apart tag (t ∷ tags) = ground (arith, kept_apart tag tags)

any-append :
    (test : AssetTag → Bool) (tags : List AssetTag) (t : AssetTag)
    → any test (tags ++ t ∷ []) ≡ (any test tags || test t)
any-append test [] t = ground arith
any-append test (x ∷ tags) t = ground (arith, any-append test tags t)

-- After AddAssetTag, the asset has a tag of that spelling up to case.
added :
    (now : ℕ) (tag : AssetTag) (m : ObservationMemory)
    → any (λ t. equal_fold t.tag tag.tag) (list_asset_tags tag.asset_id (add_asset_tag now tag m))
      ≡ true
unfolding add_asset_tag list_asset_tags equal_fold
added now tag m =
    elim (Bool-cases (any (λ t. equal_fold t.tag tag.tag) (listed (find m.tags tag.asset_id)))) [
      | inl there ↦ rw (add_asset_tag, there) there
      | inr new ↦
          rw (add_asset_tag, new, find-put, eq_refl tag.asset_id)
            (rw (any-append, new, text_eq_refl) refl)
    ]

removable :
    (asset_id : String) (tag : Text) (m : ObservationMemory)
    → any (λ t. equal_fold t.tag tag) (list_asset_tags asset_id m) ≡ true
    → (m' : ObservationMemory) × (remove_asset_tag asset_id tag m ≡ ok m')
      × (any (λ t. equal_fold t.tag tag) (list_asset_tags asset_id m') ≡ false)
unfolding remove_asset_tag list_asset_tags
removable asset_id tag m there = (
  record m {
    tags =
        put m.tags asset_id
          (filter (λ t. not (equal_fold t.tag tag)) (listed (find m.tags asset_id)));
  },
  rw (remove_asset_tag, there) refl,
  rw (find-put, eq_refl asset_id) (kept_apart tag (listed (find m.tags asset_id))),
)

-- A tag that AddAssetTag added, or found there in another case, is removed by RemoveAssetTag without
-- an error, and then the asset has no tag of that spelling in any case.
pub add-remove :
    (now : ℕ) (tag : AssetTag) (m : ObservationMemory)
    → (m' : ObservationMemory) × (remove_asset_tag tag.asset_id tag.tag (add_asset_tag now tag m)
        ≡ ok m')
      × (any (λ t. equal_fold t.tag tag.tag) (list_asset_tags tag.asset_id m') ≡ false)
add-remove now tag m = removable tag.asset_id tag.tag (add_asset_tag now tag m) (added now tag m)
