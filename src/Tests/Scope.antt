-- ===== src/Tests/Scope.antt =====
-- The scope validator on a concrete target and a platform that reads one URL.
use nexus_hunter_ai.Prelude.{
  ◌≡◌, ◌≢◌, ◌↔◌, refl, true, false, Option, none, some, List, [], ◌∷◌, ok, inl, map, filter,
  if◌then◌else◌,
}
use nexus_hunter_ai.Prelude.Texts.{Text, codes, text_eq, to_lower, trim_space}
use nexus_hunter_ai.Models.{Target, AdvancedScopeConfig}
use nexus_hunter_ai.Scope.Platform.{Platform, Url}
use nexus_hunter_ai.Scope.Hosts.{matches_pattern}
use nexus_hunter_ai.Scope.Evaluate.{Request, domain_allows, read_request, evaluate}
use nexus_hunter_ai.Scope.Import.{AssetItem, Decoder, asset_rule, parse_scope_json}
use nexus_hunter_ai.Scope.Eligibility.{eligible, ineligible, imported_assets}
use nexus_hunter_ai.Scope.Authorized.{Authorized, evaluate_iff, excluded-refused}
use nexus_hunter_ai.Scope.Domains.{Under, wildcard-allows}

abbrev pub shop_url : Text
shop_url = codes "https://shop.example.com/cart"

abbrev pub one_url : Text → Option Url
one_url s =
    if text_eq s shop_url
    then some (record {
      scheme = codes "https";
      hostname = codes "shop.example.com";
      port = [];
      path = codes "/cart";
    })
    else none

abbrev pub small_platform : Platform
small_platform = record { parse_url = one_url; is_ip = λ h. false; compile = λ p. none }

abbrev pub example_target : List Text → Target
example_target excluded = record {
  id = "tgt-1";
  name = codes "Example";
  root_domain = codes "example.com";
  allowed_domains = codes "*.example.com" ∷ [];
  primary_root_domain = [];
  scope_import_id = "";
  canonical_scope_sha256 = [];
  canonical_scope_hash = [];
  authorization_snapshot_sha256 = [];
  confirmed_by = [];
  confirmation_timestamp = none;
  created_at = 0;
  updated_at = 0;
  allowed_url_patterns = [];
  excluded_patterns = excluded;
  scope_config = none;
  status = "ACTIVE";
}

evaluate_iff_example :
    ((d : Text) × (evaluate small_platform (some (example_target [])) [] shop_url ≡ ok d))
    ↔ Authorized small_platform (example_target []) [] shop_url
evaluate_iff_example = evaluate_iff small_platform (example_target []) [] shop_url

abbrev shop_request : Request
shop_request = record {
  host = codes "shop.example.com";
  url = some (record {
    scheme = codes "https";
    hostname = codes "shop.example.com";
    port = [];
    path = codes "/cart";
  });
  protocol = codes "https";
  port = codes "443";
  path = codes "/cart";
}

shop_read : read_request small_platform [] shop_url ≡ ok shop_request
unfolding read_request text_eq to_lower trim_space
shop_read = refl

excluded-refused_example :
    evaluate small_platform (some (example_target (codes "Shop.example.com" ∷ []))) [] shop_url
    ≢ ok (codes "*.example.com")
unfolding matches_pattern to_lower trim_space text_eq
excluded-refused_example =
    excluded-refused small_platform (example_target (codes "Shop.example.com" ∷ [])) [] shop_url
      (codes "Shop.example.com") shop_read (inl refl) refl refl

wildcard-allows_example :
    (domain_allows small_platform (codes "notexample.com") (codes "*.example.com") ≡ true)
    ↔ Under (codes "notexample.com") (codes "example.com")
wildcard-allows_example =
    wildcard-allows small_platform (codes "notexample.com") (codes "example.com")

abbrev shop_asset : AssetItem
shop_asset = record {
  asset_identifier = codes "*.example.com";
  eligible_for_bounty = true;
  instruction = [];
}

abbrev blog_asset : AssetItem
blog_asset = record {
  asset_identifier = codes "blog.example.com";
  eligible_for_bounty = false;
  instruction = [];
}

abbrev asset_decoder : Decoder
asset_decoder = record {
  burp = λ s. none;
  direct = λ s. none;
  assets = λ s. some (shop_asset ∷ blog_asset ∷ []);
}

imported_assets_example :
    (cfg : AdvancedScopeConfig) × (parse_scope_json asset_decoder (codes "{}") ≡ ok cfg)
    × (cfg.include ≡ map asset_rule (filter eligible (shop_asset ∷ blog_asset ∷ [])))
    × (cfg.exclude ≡ map asset_rule (filter ineligible (shop_asset ∷ blog_asset ∷ [])))
    × (cfg.advanced_mode ≡ true)
imported_assets_example =
    imported_assets asset_decoder (codes "{}") shop_asset (blog_asset ∷ []) refl refl refl refl
