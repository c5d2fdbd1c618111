-- ===== src/Storage/Assets/Index.antt =====
-- memory.go: the index of assets leads to assets of the host that it names.
use nexus_hunter_ai.Prelude.{
  String, ◌==◌, eq_iff, eq_refl, Option, none, some, Result, ok, err, if◌then◌else◌, ◌≡◌, refl, ap,
  ◌∙◌, ◌⊎◌, inl, inr, Bool-cases, Option-cases, arith,
}
use nexus_hunter_ai.Prelude.Maps.{Map, find, put, find-put}
use nexus_hunter_ai.Prelude.Texts.{Text, text_eq, text_eq_iff, text_eq_refl}
use nexus_hunter_ai.Prelude.TextMaps.{look, store, look-store}
use nexus_hunter_ai.Storage.Data.{Asset, MemoryStorage, StorageError, looked_up}
use nexus_hunter_ai.Storage.Assets.{
  existing_of, get_asset_by_hostname, key_of, save_asset, seen_asset, update_asset_status,
  write_asset,
}

-- an entry of the index leads to a stored asset of its target and host
abbrev pub IsIndexed : MemoryStorage → Type 0
IsIndexed m =
    (key : Text) (id : String)
    → look m.assets_by_host key ≡ some id
    → (a : Asset) × (find m.assets id ≡ some a) × (key_of a ≡ key)

-- the same of an operation that may fail
abbrev pub IsIndexedOk : Result StorageError MemoryStorage → Type 0
IsIndexedOk (ok m) = IsIndexed m
IsIndexedOk (err e) = Unit

existing_of-cases :
    (o : Option String) (assets : Map Asset)
    → (existing_of o assets ≡ none)
      ⊎ ((id : String) × (a : Asset) × (o ≡ some id)
          × (find assets id ≡ some a)
          × (existing_of o assets ≡ some (id, a)))
unfolding existing_of
existing_of-cases none assets = inl refl
existing_of-cases (some id) assets = elim (Option-cases (find assets id)) [
  | inl e ↦ inl (rw (existing_of, e) refl)
  | inr (a, e) ↦ inr (id, a, refl, e, rw (existing_of, e) refl)
]

-- After SaveAsset, the asset's target and host lead to an asset that was last seen when the saved
-- one was, with its status unless that is empty.
pub save_asset-get :
    (asset : Asset) (m : MemoryStorage)
    → (b : Asset) × (get_asset_by_hostname asset.target_id asset.hostname (save_asset asset m)
        ≡ ok b)
      × (b.last_seen ≡ asset.last_seen)
      × (b.status ≡ (if asset.status == "" then b.status else asset.status))
unfolding save_asset write_asset get_asset_by_hostname seen_asset
save_asset-get asset m = elim (existing_of-cases (look m.assets_by_host (key_of asset)) m.assets) [
  | inl new ↦ (
    asset,
    rw
        (
          save_asset,
          new,
          get_asset_by_hostname,
          look-store,
          text_eq_refl (key_of asset),
          find-put,
          eq_refl asset.id,
        )
        refl,
    refl,
    ground arith,
  )
  | inr (id, a, at, there, e) ↦ (
    seen_asset a asset,
    rw (save_asset, e, get_asset_by_hostname, at, find-put, eq_refl id) refl,
    refl,
    ground arith,
  )
]

inserted :
    (asset : Asset) (m : MemoryStorage)
    → ((a : Asset) → find m.assets asset.id ≡ some a → key_of asset ≡ key_of a)
    → IsIndexed m
    → IsIndexed (write_asset none asset m)
unfolding write_asset
inserted asset m fresh h key id e = elim (Bool-cases (text_eq (key_of asset) key)) [
  | inl b ↦
      let now : look (store m.assets_by_host (key_of asset) asset.id) key ≡ some asset.id =
        look-store m.assets_by_host (key_of asset) key asset.id ∙ rw b refl in
      let same : asset.id ≡ id = cc (e, now) in
      (asset, rw (← same, find-put, eq_refl asset.id) refl, (text_eq_iff (key_of asset) key).0 b)
  | inr n ↦
      let kept : look (store m.assets_by_host (key_of asset) asset.id) key
          ≡ look m.assets_by_host key =
        look-store m.assets_by_host (key_of asset) key asset.id ∙ rw n refl in
      let (a, at, keyed) = h key id (cc (e, kept)) in
      elim (Bool-cases (asset.id == id)) [
        | inl s ↦
            let same : asset.id ≡ id = (eq_iff asset.id id).0 s in
            (asset, rw (find-put, s) refl, fresh a (rw same at) ∙ keyed)
        | inr other ↦ (a, rw (find-put, other) at, keyed)
      ]
]

merged :
    (id : String) (a asset : Asset) (m : MemoryStorage)
    → find m.assets id ≡ some a
    → key_of asset ≡ key_of a
    → IsIndexed m
    → IsIndexed (record m { assets = put m.assets id asset })
merged id a asset m there same h key other e =
    let (b, at, keyed) = h key other e in
    elim (Bool-cases (id == other)) [
      | inl s ↦
          let ab : a ≡ b = cc (there, at, (eq_iff id other).0 s) in
          (asset, rw (find-put, s) refl, same ∙ (ap key_of ab ∙ keyed))
      | inr n ↦ (b, rw (find-put, n) at, keyed)
    ]

-- SaveAsset and UpdateAssetStatus keep the index: each of its entries leads to a stored asset of the
-- target and the host that it names. SaveAsset does so on the condition that a stored asset with the
-- identifier of the saved one, if there is any, is of the same target and host.
pub save_asset-IsIndexed :
    (asset : Asset) (id status : String) (m : MemoryStorage)
    → ((a : Asset) → find m.assets asset.id ≡ some a → key_of asset ≡ key_of a)
    → IsIndexed m
    → IsIndexed (save_asset asset m) × IsIndexedOk (update_asset_status id status m)
unfolding save_asset write_asset seen_asset update_asset_status
save_asset-IsIndexed asset id status m fresh h = (saved, updated (find m.assets id) refl)
  where
    saved : IsIndexed (save_asset asset m)
    saved = elim (existing_of-cases (look m.assets_by_host (key_of asset)) m.assets) [
      | inl new ↦ rw (save_asset, new) (inserted asset m fresh h)
      | inr (i, a, at, there, e) ↦
          rw (save_asset, e) (merged i a (seen_asset a asset) m there refl h)
    ]

    updated :
        (o : Option Asset)
        → find m.assets id ≡ o
        → IsIndexedOk (
            looked_up o
              λ a. ok (record m { assets = put m.assets id (record a { status = status }) }))
    updated none e = tt
    updated (some a) e = merged id a (record a { status = status }) m e refl h
