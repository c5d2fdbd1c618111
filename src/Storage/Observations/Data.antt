-- ===== src/Storage/Observations/Data.antt =====
-- The records of the asset intelligence in storage (models.go), their filters, and the collections of
-- MemoryStorage that hold them. The two state maps of a change are left out.
use nexus_hunter_ai.Prelude.{ℕ, String, Bool, Option, List, []}
use nexus_hunter_ai.Prelude.Maps.{Map}
use nexus_hunter_ai.Prelude.Texts.{Text}
use nexus_hunter_ai.Prelude.TextMaps.{TextMap}

pub record TechnologyObservation : Type 0 where
  pub id : String
  pub asset_id : String
  pub target_id : String
  pub service_id : String
  pub technology_name : Text
  pub category : Text
  pub version : Option Text
  pub confidence : String
  pub detection_source : String
  pub evidence : Text
  pub first_seen : ℕ
  pub last_seen : ℕ

pub record ServiceObservation : Type 0 where
  pub id : String
  pub asset_id : String
  pub target_id : String
  pub service_identity : String
  pub scheme : Text
  pub port : ℕ
  pub status_code : ℕ
  pub page_title : Text
  pub web_server : Text
  pub content_type : Text
  pub content_length : ℕ
  pub response_time_ms : ℕ
  pub tls_version : String
  pub headers : TextMap Text
  pub first_seen : ℕ
  pub last_seen : ℕ

pub record SecurityObservation : Type 0 where
  pub id : String
  pub asset_id : String
  pub target_id : String
  pub service_id : String
  pub property_name : String
  pub is_present : Bool
  pub details : Text
  pub raw_value : Text
  pub observed_at : ℕ

pub record AssetTag : Type 0 where
  pub id : String
  pub asset_id : String
  pub target_id : String
  pub tag : Text
  pub is_inferred : Bool
  pub created_at : ℕ
  pub created_by : String

pub record AssetChange : Type 0 where
  pub id : String
  pub target_id : String
  pub asset_id : String
  pub change_type : String
  pub entity_type : Text
  pub entity_id : String
  pub detected_at : ℕ

-- the fields of the filters that the storage reads
pub record TechnologyFilter : Type 0 where
  pub target_id : String
  pub asset_id : String
  pub category : Text
  pub confidence : String
  pub name : Text
  pub limit : ℕ
  pub offset : ℕ

pub record ServiceFilter : Type 0 where
  pub target_id : String
  pub asset_id : String
  pub scheme : Text
  pub port : ℕ
  pub status_code : ℕ
  pub limit : ℕ
  pub offset : ℕ

pub record ChangeFilter : Type 0 where
  pub target_id : String
  pub asset_id : String
  pub change_type : String
  pub entity_type : Text
  pub limit : ℕ
  pub offset : ℕ

pub record ObservationMemory : Type 0 where
  pub tech_obs : Map (List TechnologyObservation)
  pub service_obs : Map (List ServiceObservation)
  pub sec_obs : Map (List SecurityObservation)
  pub tags : Map (List AssetTag)
  pub changes : Map (List AssetChange)

abbrev pub new_observation_memory : ObservationMemory
new_observation_memory = record {
  tech_obs = [];
  service_obs = [];
  sec_obs = [];
  tags = [];
  changes = [];
}
