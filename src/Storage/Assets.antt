-- ===== src/Storage/Assets.antt =====
-- memory.go: assets, with their index by target and host.
pub mod Index
use nexus_hunter_ai.Prelude.{
  String, ◌==◌, Bool, true, false, ◌||◌, Option, none, some, List, ◌++◌, filter, Result, ok, err,
  if◌then◌else◌,
}
use nexus_hunter_ai.Prelude.Maps.{Map, find, put, values}
use nexus_hunter_ai.Prelude.Texts.{Text, codes}
use nexus_hunter_ai.Prelude.TextMaps.{look, store}
use nexus_hunter_ai.Storage.Data.{Asset, MemoryStorage, StorageError, looked_up}

-- targetID + ":" + hostname
unfoldable pub host_key : (target_id hostname : String) → Text
host_key target_id hostname = codes target_id ++ (codes ":" ++ codes hostname)

abbrev pub key_of : Asset → Text
key_of a = host_key a.target_id a.hostname

-- the asset that an entry of the index leads to, if both are there
unfoldable pub existing_of : Option String → Map Asset → Option (String × Asset)
existing_of none assets = none
existing_of (some id) assets = elim (find assets id) [ none ↦ none | some a ↦ some (id, a) ]

-- what a second sighting changes
unfoldable pub seen_asset : (existing asset : Asset) → Asset
seen_asset existing asset = record existing {
  last_seen = asset.last_seen;
  status = if asset.status == "" then existing.status else asset.status;
}

-- the write, once it is known whether the host has an asset
unfoldable pub write_asset : Option (String × Asset) → Asset → MemoryStorage → MemoryStorage
unfolding seen_asset host_key
write_asset (some e) asset m = record m { assets = put m.assets e.0 (seen_asset e.1 asset) }
write_asset none asset m = record m {
  assets = put m.assets asset.id asset;
  assets_by_host = store m.assets_by_host (key_of asset) asset.id;
}

-- SaveAsset
unfoldable pub save_asset : Asset → MemoryStorage → MemoryStorage
unfolding existing_of write_asset host_key
save_asset asset m =
    write_asset (existing_of (look m.assets_by_host (key_of asset)) m.assets) asset m

unfoldable pub get_asset_by_hostname :
    (target_id hostname : String) → MemoryStorage → Result StorageError Asset
unfolding host_key
get_asset_by_hostname target_id hostname m =
    looked_up (look m.assets_by_host (host_key target_id hostname))
      λ id. looked_up (find m.assets id) ok

unfoldable pub list_assets : (target_id : String) → MemoryStorage → List Asset
list_assets target_id m =
    filter (λ a. target_id == "" || a.target_id == target_id) (values m.assets)

unfoldable pub update_asset_status :
    (id status : String) → MemoryStorage → Result StorageError MemoryStorage
update_asset_status id status m =
    looked_up (find m.assets id)
      λ asset. ok (record m { assets = put m.assets id (record asset { status = status }) })
