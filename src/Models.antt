-- ===== src/Models.antt =====
-- backend/internal/models: the records that several components share.
use nexus_hunter_ai.Prelude.{ℕ, String, Bool, Option, List}
use nexus_hunter_ai.Prelude.Texts.{Text}

-- models.TargetStatus
abbrev pub target_active : String
target_active = "ACTIVE"

pub record AdvancedScopeRule : Type 0 where
  pub enabled : Bool
  pub host : Text
  pub port : Text
  pub protocol : Text
  pub file : Text

pub record AdvancedScopeConfig : Type 0 where
  pub advanced_mode : Bool
  pub include : List AdvancedScopeRule
  pub exclude : List AdvancedScopeRule

-- The fields that the modelled components read; a text is a list of bytes.
pub record Target : Type 0 where
  pub id : String
  pub name : Text
  pub root_domain : Text
  pub primary_root_domain : Text
  pub allowed_domains : List Text
  pub allowed_url_patterns : List Text
  pub excluded_patterns : List Text
  pub scope_config : Option AdvancedScopeConfig
  pub scope_import_id : String
  pub canonical_scope_sha256 : Text
  pub canonical_scope_hash : Text
  pub authorization_snapshot_sha256 : Text
  pub confirmed_by : Text
  pub confirmation_timestamp : Option ℕ
  pub created_at : ℕ
  pub updated_at : ℕ
  pub status : String
