-- ===== src/Scope/Eligibility.antt =====
-- How an imported list of assets becomes include and exclude rules.
use nexus_hunter_ai.Prelude.{
  Bool, true, false, not, ◌&&◌, List, [], ◌∷◌, ◌++◌, map, filter, ◌≡◌, refl, sym, ap, ◌∙◌,
  Bool-cases, inl, inr, Option, none, some, Result, ok,
}
use nexus_hunter_ai.Prelude.Texts.{Text, trim_space, is_empty}
use nexus_hunter_ai.Models.{AdvancedScopeConfig}
use nexus_hunter_ai.Scope.Import.{
  AssetItem, Decoder, ImportError, asset_rule, collect_assets, has_rules, or_else, from_assets,
  parse_scope_json,
}

-- an asset that names something, and that is eligible, or is not
abbrev pub eligible : AssetItem → Bool
eligible item = not (is_empty (trim_space item.asset_identifier)) && item.eligible_for_bounty

abbrev pub ineligible : AssetItem → Bool
ineligible item = not (is_empty (trim_space item.asset_identifier)) && not item.eligible_for_bounty

append_one {ℓ} :
    {A : Type ℓ} (xs : List A) (x : A) (ys : List A) → (xs ++ x ∷ []) ++ ys ≡ xs ++ x ∷ ys
append_one [] x ys = refl
append_one (z ∷ xs) x ys = ap (◌∷◌ z) (append_one xs x ys)

append_none {ℓ} : {A : Type ℓ} (xs : List A) → xs ++ [] ≡ xs
append_none [] = refl
append_none (z ∷ xs) = ap (◌∷◌ z) (append_none xs)

collect_assets-rules :
    (items : List AssetItem) (cfg : AdvancedScopeConfig)
    → ((collect_assets items cfg).include ≡ cfg.include ++ map asset_rule (filter eligible items))
      × ((collect_assets items cfg).exclude
          ≡ cfg.exclude ++ map asset_rule (filter ineligible items))
      × ((collect_assets items cfg).advanced_mode ≡ cfg.advanced_mode)
unfolding collect_assets asset_rule
collect_assets-rules [] cfg = (sym (append_none cfg.include), sym (append_none cfg.exclude), refl)
collect_assets-rules (item ∷ items) cfg =
    elim (Bool-cases (is_empty (trim_space item.asset_identifier))) [
      | inl e ↦ rw (collect_assets, e) (collect_assets-rules items cfg)
      | inr e ↦ elim (Bool-cases item.eligible_for_bounty) [
        | inl k ↦
            let r =
              collect_assets-rules items
                (record cfg { include = cfg.include ++ asset_rule item ∷ [] }) in
            rw (collect_assets, e, k) (r.0 ∙ append_one cfg.include (asset_rule item) _, r.1, r.2)
        | inr k ↦
            let r =
              collect_assets-rules items
                (record cfg { exclude = cfg.exclude ++ asset_rule item ∷ [] }) in
            rw (collect_assets, e, k) (r.0, r.1 ∙ append_one cfg.exclude (asset_rule item) _, r.2)
      ]
    ]

or_else-skip :
    (o : Option AdvancedScopeConfig) (r : Result ImportError AdvancedScopeConfig)
    → has_rules o ≡ false
    → or_else o r ≡ r
or_else-skip none r h = refl
or_else-skip (some c) r h = rw h refl

third_format :
    (dec : Decoder) (source : Text) (items : List AssetItem)
    → is_empty source ≡ false
    → has_rules (dec.burp source) ≡ false
    → has_rules (dec.direct source) ≡ false
    → dec.assets source ≡ some items
    → parse_scope_json dec source ≡ from_assets (some items)
unfolding parse_scope_json
third_format dec source items filled no_burp no_direct listed =
    rw (parse_scope_json, filled)
      (or_else-skip (dec.burp source) _ no_burp
        ∙ or_else-skip (dec.direct source) _ no_direct
        ∙ ap from_assets listed)

-- A scope file of the third format, a list of assets, is imported in the advanced mode, with one include
-- rule for each named asset that is eligible for a bounty and one exclude rule for each other named
-- asset, in the list's order, and with no other rule.
pub imported_assets :
    (dec : Decoder) (source : Text) (item : AssetItem) (items : List AssetItem)
    → is_empty source ≡ false
    → has_rules (dec.burp source) ≡ false
    → has_rules (dec.direct source) ≡ false
    → dec.assets source ≡ some (item ∷ items)
    → (cfg : AdvancedScopeConfig) × (parse_scope_json dec source ≡ ok cfg)
      × (cfg.include ≡ map asset_rule (filter eligible (item ∷ items)))
      × (cfg.exclude ≡ map asset_rule (filter ineligible (item ∷ items)))
      × (cfg.advanced_mode ≡ true)
unfolding parse_scope_json
imported_assets dec source item items filled no_burp no_direct listed =
    let cfg =
      collect_assets (item ∷ items) (record { advanced_mode = true; include = []; exclude = [] }) in
    let r =
      collect_assets-rules (item ∷ items)
        (record { advanced_mode = true; include = []; exclude = [] }) in
    (cfg, third_format dec source (item ∷ items) filled no_burp no_direct listed, r.0, r.1, r.2)
