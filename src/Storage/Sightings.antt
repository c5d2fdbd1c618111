-- ===== src/Storage/Sightings.antt =====
-- memory.go: what was found in scripts, cloud references and WAF observations. The rate of an
-- observation, which is a float64, is left out.
use nexus_hunter_ai.Prelude.{
  ℕ, String, ◌==◌, Bool, ◌&&◌, ◌||◌, Option, none, some, List, [], ◌∷◌, ◌++◌, filter, ltb, Result,
  ok, if◌then◌else◌,
}
use nexus_hunter_ai.Prelude.Maps.{Map, find, put, values}
use nexus_hunter_ai.Prelude.Sorts.{sort_by}
use nexus_hunter_ai.Prelude.Texts.{Text, codes}
use nexus_hunter_ai.Prelude.TextMaps.{TextMap, look, store}
use nexus_hunter_ai.Storage.Data.{StorageError, looked_up}
use nexus_hunter_ai.Storage.Upserts.{listed}

pub record JsAsset : Type 0 where
  pub id : String
  pub target_id : String
  pub asset_id : String
  pub url : Text
  pub parent_url : Text
  pub discovered_at : ℕ
  pub in_scope : Bool
  pub scope_reason : Text
  pub content_sha256 : String
  pub byte_size : ℕ
  pub is_third_party : Bool
  pub fetch_status : String
  pub line_count : ℕ
  pub created_at : ℕ

pub record JsReference : Type 0 where
  pub id : String
  pub target_id : String
  pub asset_id : String
  pub js_asset_id : String
  pub source_url : Text
  pub category : String
  pub extracted_value : Text
  pub normalized_value : Text
  pub scope_status : String
  pub confidence : String
  pub evidence_id : String
  pub provenance_sha : String
  pub created_at : ℕ

pub record JsSecretIndicator : Type 0 where
  pub id : String
  pub target_id : String
  pub asset_id : String
  pub js_asset_id : String
  pub secret_type : String
  pub location : Text
  pub masked_preview : Text
  pub sha256 : String
  pub confidence : String
  pub evidence_id : String
  pub created_at : ℕ

pub record CloudReference : Type 0 where
  pub id : String
  pub target_id : String
  pub asset_id : String
  pub provider : String
  pub resource_type : String
  pub raw_reference : Text
  pub normalized_target : Text
  pub source_origin : String
  pub source_location : Text
  pub scope_status : String
  pub validation_status : String
  pub status_code : ℕ
  pub public_accessible : Bool
  pub evidence_id : String
  pub created_at : ℕ

pub record WafObservation : Type 0 where
  pub id : String
  pub target_id : String
  pub asset_id : String
  pub provider : String
  pub confidence : String
  pub evidence_ids : List String
  pub matched_indicators : List Text
  pub observed_headers : List Text
  pub throttling_state : String
  pub retry_after_seconds : ℕ
  pub circuit_breaker_open : Bool
  pub throttle_reason : Text
  pub created_at : ℕ
  pub updated_at : ℕ

pub record SightingMemory : Type 0 where
  pub js_assets : Map JsAsset
  pub js_references : Map (List JsReference)
  pub js_secrets : Map (List JsSecretIndicator)
  pub cloud_references : Map (List CloudReference)
  pub waf_observations : TextMap WafObservation

abbrev pushed {ℓ} : {A : Type ℓ} → Map (List A) → String → A → Map (List A)
pushed m key x = put m key (listed (find m key) ++ x ∷ [])

unfoldable pub save_js_asset : JsAsset → SightingMemory → SightingMemory
save_js_asset asset m = record m { js_assets = put m.js_assets asset.id asset }

unfoldable pub get_js_asset : String → SightingMemory → Result StorageError JsAsset
get_js_asset id m = looked_up (find m.js_assets id) ok

unfoldable pub list_js_assets : (target_id asset_id : String) → SightingMemory → List JsAsset
unfolding sort_by
list_js_assets target_id asset_id m =
    sort_by (λ a b. ltb b.discovered_at a.discovered_at)
      (filter (λ a. a.target_id == target_id && (asset_id == "" || a.asset_id == asset_id))
        (values m.js_assets))

unfoldable pub save_js_reference : JsReference → SightingMemory → SightingMemory
save_js_reference ref m = record m { js_references = pushed m.js_references ref.target_id ref }

unfoldable pub list_js_references :
    (target_id js_asset_id : String) → SightingMemory → List JsReference
unfolding sort_by
list_js_references target_id js_asset_id m =
    sort_by (λ a b. ltb b.created_at a.created_at)
      (filter (λ ref. js_asset_id == "" || ref.js_asset_id == js_asset_id)
        (listed (find m.js_references target_id)))

unfoldable pub save_secret_indicator : JsSecretIndicator → SightingMemory → SightingMemory
save_secret_indicator sec m = record m { js_secrets = pushed m.js_secrets sec.target_id sec }

unfoldable pub list_secret_indicators :
    (target_id asset_id : String) → SightingMemory → List JsSecretIndicator
unfolding sort_by
list_secret_indicators target_id asset_id m =
    sort_by (λ a b. ltb b.created_at a.created_at)
      (filter (λ sec. asset_id == "" || sec.asset_id == asset_id)
        (listed (find m.js_secrets target_id)))

unfoldable pub save_cloud_reference : CloudReference → SightingMemory → SightingMemory
save_cloud_reference ref m = record m {
  cloud_references = pushed m.cloud_references ref.target_id ref;
}

unfoldable pub first_reference : String → List CloudReference → Option CloudReference
first_reference id [] = none
first_reference id (r ∷ refs) = if r.id == id then some r else first_reference id refs

-- the loops of GetCloudReference over the map
unfoldable pub find_reference : String → Map (List CloudReference) → Option CloudReference
unfolding first_reference
find_reference id [] = none
find_reference id (e ∷ m) = elim (first_reference id e.1) [
  | some r ↦ some r
  | none ↦ find_reference id m
]

unfoldable pub get_cloud_reference : String → SightingMemory → Result StorageError CloudReference
unfolding find_reference
get_cloud_reference id m = looked_up (find_reference id m.cloud_references) ok

unfoldable pub list_cloud_references :
    (target_id asset_id : String) → SightingMemory → List CloudReference
unfolding sort_by
list_cloud_references target_id asset_id m =
    sort_by (λ a b. ltb b.created_at a.created_at)
      (filter (λ ref. asset_id == "" || ref.asset_id == asset_id)
        (listed (find m.cloud_references target_id)))

-- "%s:%s" of a target and an asset
unfoldable pub waf_key : (target_id asset_id : String) → Text
waf_key target_id asset_id = codes target_id ++ (codes ":" ++ codes asset_id)

unfoldable pub save_waf_observation : WafObservation → SightingMemory → SightingMemory
unfolding waf_key
save_waf_observation obs m = record m {
  waf_observations = store m.waf_observations (waf_key obs.target_id obs.asset_id) obs;
}

unfoldable pub get_waf_observation :
    (target_id asset_id : String) → SightingMemory → Result StorageError WafObservation
unfolding waf_key
get_waf_observation target_id asset_id m =
    looked_up (look m.waf_observations (waf_key target_id asset_id)) ok
