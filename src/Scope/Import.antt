-- ===== src/Scope/Import.antt =====
-- scope.go: ParseBugBountyScopeJSON. What json.Unmarshal makes of the data is a parameter.
use nexus_hunter_ai.Prelude.{
  Bool, true, false, not, ◌&&◌, ◌||◌, Option, none, some, List, [], ◌∷◌, ◌++◌, nat_eq, any,
  if◌then◌else◌, Result, ok, err,
}
use nexus_hunter_ai.Prelude.Texts.{
  Text, codes, has_prefix, trim_prefix, contains, trim_space, is_empty,
}
use nexus_hunter_ai.Models.{AdvancedScopeRule, AdvancedScopeConfig}

pub record AssetItem : Type 0 where
  pub asset_identifier : Text
  pub eligible_for_bounty : Bool
  pub instruction : Text

-- each format, where json.Unmarshal returns no error
pub record Decoder : Type 0 where
  pub burp : Text → Option AdvancedScopeConfig
  pub direct : Text → Option AdvancedScopeConfig
  pub assets : Text → Option (List AssetItem)

pub data ImportError : Type 0 where
  empty_data unrecognized_format : ImportError

-- regexp.QuoteMeta
unfoldable pub quote_meta : Text → Text
quote_meta [] = []
quote_meta (c ∷ s) =
    if any (nat_eq c) (codes "\\.+*?()|[]{}^$") then 92 ∷ c ∷ quote_meta s else c ∷ quote_meta s

-- the host regex of an asset
unfoldable pub regex_host : Text → Text
unfolding quote_meta
regex_host host_pat =
    if has_prefix host_pat (codes "*.")
    then codes "^.*\\." ++ (quote_meta (trim_prefix host_pat (codes "*.")) ++ codes "$")
    else if not (contains host_pat (codes "^")) && not (contains host_pat (codes "$"))
    then codes "^" ++ (quote_meta host_pat ++ codes "$")
    else host_pat

unfoldable pub asset_rule : AssetItem → AdvancedScopeRule
unfolding regex_host
asset_rule item = record {
  enabled = true;
  host = regex_host (trim_space item.asset_identifier);
  port = [];
  protocol = codes "any";
  file = [];
}

-- the loop over the assets; append at the end of the one list or the other
unfoldable pub collect_assets : List AssetItem → AdvancedScopeConfig → AdvancedScopeConfig
unfolding asset_rule
collect_assets [] cfg = cfg
collect_assets (item ∷ items) cfg = collect_assets items (
    if is_empty (trim_space item.asset_identifier)
    then cfg
    else if item.eligible_for_bounty
    then record cfg { include = cfg.include ++ asset_rule item ∷ [] }
    else record cfg { exclude = cfg.exclude ++ asset_rule item ∷ [] })

abbrev pub has_rules : Option AdvancedScopeConfig → Bool
has_rules none = false
has_rules (some c) = not (no_rules c.include) || not (no_rules c.exclude)
  where
    no_rules : List AdvancedScopeRule → Bool
    no_rules [] = true
    no_rules (x ∷ xs) = false

abbrev pub from_assets : Option (List AssetItem) → Result ImportError AdvancedScopeConfig
from_assets none = err unrecognized_format
from_assets (some []) = err unrecognized_format
from_assets (some (item ∷ items)) =
    ok (collect_assets (item ∷ items) (record { advanced_mode = true; include = []; exclude = [] }))

abbrev pub or_else :
    Option AdvancedScopeConfig
    → Result ImportError AdvancedScopeConfig
    → Result ImportError AdvancedScopeConfig
or_else none r = r
or_else (some c) r = if has_rules (some c) then ok c else r

unfoldable pub parse_scope_json : Decoder → Text → Result ImportError AdvancedScopeConfig
unfolding collect_assets
parse_scope_json dec source =
    if is_empty source
    then err empty_data
    else or_else (dec.burp source) (or_else (dec.direct source) (from_assets (dec.assets source)))
