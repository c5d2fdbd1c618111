-- ===== src/Storage/Observations.antt =====
-- memory.go: technologies, services and security properties of assets, their tags and changes. What
-- ListTechnologyObservations and the other filtered lists return is one page with the total.
pub mod Data
pub mod Pages
pub mod Tags
use nexus_hunter_ai.Prelude.{
  ℕ, ◌+◌, ◌-◌, String, ◌==◌, Bool, true, false, not, ◌&&◌, ◌||◌, Option, none, some, List, [], ◌∷◌,
  ◌++◌, any, filter, first, from_index, length, leb, ltb, nat_eq, Result, ok, err, if◌then◌else◌,
}
use nexus_hunter_ai.Prelude.Maps.{Map, find, put}
use nexus_hunter_ai.Prelude.Sorts.{sort_by}
use nexus_hunter_ai.Prelude.Texts.{Text, contains, is_empty, text_eq, to_lower}
use nexus_hunter_ai.Storage.Data.{StorageError, not_found}
use nexus_hunter_ai.Storage.Upserts.{listed}
use nexus_hunter_ai.Storage.Reasoning.{is_asked}
use nexus_hunter_ai.Storage.Reasoning.Data.{or_now}
use nexus_hunter_ai.Storage.Observations.Data.{
  AssetChange, AssetTag, ChangeFilter, ObservationMemory, SecurityObservation, ServiceFilter,
  ServiceObservation, TechnologyFilter, TechnologyObservation,
}

-- the loop of the saving methods: the first record that is the same is updated by the given one, else
-- the stamped one is appended
unfoldable pub update_or_append {ℓ} :
    {A : Type ℓ} → (same : A → Bool) (update : A → A) (stamped : A) → List A → List A
update_or_append same update stamped [] = stamped ∷ []
update_or_append same update stamped (x ∷ xs) =
    let rest = update_or_append same update stamped xs in if same x then update x ∷ xs else x ∷ rest

-- strings.EqualFold
unfoldable pub equal_fold : Text → Text → Bool
equal_fold s t = text_eq (to_lower s) (to_lower t)

abbrev same_version : Option Text → Option Text → Bool
same_version none none = true
same_version (some v) (some w) = text_eq v w
same_version _ _ = false

unfoldable pub same_technology : TechnologyObservation → TechnologyObservation → Bool
same_technology obs existing =
    existing.asset_id == obs.asset_id
    && text_eq existing.technology_name obs.technology_name
    && same_version existing.version obs.version

unfoldable pub seen_technology :
    TechnologyObservation → TechnologyObservation → TechnologyObservation
seen_technology obs existing = record existing {
  last_seen = obs.last_seen;
  confidence = if obs.confidence == "HIGH" then "HIGH" else existing.confidence;
  evidence = obs.evidence;
}

-- SaveTechnologyObservation
unfoldable pub save_technology_observation :
    (now : ℕ) → TechnologyObservation → ObservationMemory → ObservationMemory
unfolding update_or_append same_technology seen_technology
save_technology_observation now obs m = record m {
  tech_obs = put m.tech_obs obs.target_id (
      update_or_append (same_technology obs) (seen_technology obs)
        (record obs {
          first_seen = or_now obs.first_seen now;
          last_seen = or_now obs.last_seen now;
        })
        (listed (find m.tech_obs obs.target_id)));
}

-- the page of a list, with the total: a limit of 0 or above 200 means 50
unfoldable pub page {ℓ} : {A : Type ℓ} → (limit offset : ℕ) → List A → List A × ℕ
page limit offset matched =
    let total = length matched in
    let used = if nat_eq limit 0 || ltb 200 limit then 50 else limit in
    let end = if ltb total (offset + used) then total else offset + used in
    if leb total offset
    then ([], total)
    else (first (end - offset) (from_index offset matched), total)

unfoldable pub matches_technology : TechnologyFilter → TechnologyObservation → Bool
unfolding equal_fold
matches_technology f item =
    is_asked f.asset_id item.asset_id
    && (is_empty f.category || equal_fold item.category f.category)
    && is_asked f.confidence item.confidence
    && (is_empty f.name || contains (to_lower item.technology_name) (to_lower f.name))

-- ListTechnologyObservations; a limit or an offset below 0 is passed as 0
unfoldable pub list_technology_observations :
    TechnologyFilter → ObservationMemory → List TechnologyObservation × ℕ
unfolding page matches_technology
list_technology_observations f m =
    page f.limit f.offset (filter (matches_technology f) (listed (find m.tech_obs f.target_id)))

unfoldable pub seen_service : ServiceObservation → ServiceObservation → ServiceObservation
seen_service obs existing = record existing {
  status_code = obs.status_code;
  page_title = obs.page_title;
  web_server = obs.web_server;
  content_type = obs.content_type;
  content_length = obs.content_length;
  response_time_ms = obs.response_time_ms;
  tls_version = obs.tls_version;
  headers = obs.headers;
  last_seen = obs.last_seen;
}

-- SaveServiceObservation
unfoldable pub save_service_observation :
    (now : ℕ) → ServiceObservation → ObservationMemory → ObservationMemory
unfolding update_or_append seen_service
save_service_observation now obs m = record m {
  service_obs = put m.service_obs obs.target_id (
      update_or_append
        (λ existing.
          existing.asset_id == obs.asset_id && existing.service_identity == obs.service_identity)
        (seen_service obs)
        (record obs {
          first_seen = or_now obs.first_seen now;
          last_seen = or_now obs.last_seen now;
        })
        (listed (find m.service_obs obs.target_id)));
}

unfoldable pub matches_service : ServiceFilter → ServiceObservation → Bool
unfolding equal_fold
matches_service f item =
    is_asked f.asset_id item.asset_id
    && (is_empty f.scheme || equal_fold item.scheme f.scheme)
    && (nat_eq f.port 0 || nat_eq item.port f.port)
    && (nat_eq f.status_code 0 || nat_eq item.status_code f.status_code)

-- ListServiceObservations
unfoldable pub list_service_observations :
    ServiceFilter → ObservationMemory → List ServiceObservation × ℕ
unfolding page matches_service
list_service_observations f m =
    page f.limit f.offset (filter (matches_service f) (listed (find m.service_obs f.target_id)))

-- SaveSecurityObservation
unfoldable pub save_security_observation :
    (now : ℕ) → SecurityObservation → ObservationMemory → ObservationMemory
unfolding update_or_append
save_security_observation now obs m = record m {
  sec_obs = put m.sec_obs obs.asset_id (
      update_or_append (λ existing. existing.property_name == obs.property_name)
        (λ existing. record existing {
          is_present = obs.is_present;
          details = obs.details;
          raw_value = obs.raw_value;
          observed_at = obs.observed_at;
        })
        (record obs { observed_at = or_now obs.observed_at now })
        (listed (find m.sec_obs obs.asset_id)));
}

-- the loop over all slices of a map
unfoldable pub collect_where {ℓ} : {A : Type ℓ} → (A → Bool) → Map (List A) → List A
collect_where wanted [] = []
collect_where wanted (e ∷ m) = filter wanted e.1 ++ collect_where wanted m

-- ListSecurityObservations
unfoldable pub list_security_observations :
    (target_id asset_id : String) → ObservationMemory → List SecurityObservation
unfolding collect_where
list_security_observations target_id asset_id m =
    if not (asset_id == "")
    then listed (find m.sec_obs asset_id)
    else collect_where (λ item. item.target_id == target_id) m.sec_obs

-- AddAssetTag
unfoldable pub add_asset_tag : (now : ℕ) → AssetTag → ObservationMemory → ObservationMemory
unfolding equal_fold
add_asset_tag now tag m =
    let tags = listed (find m.tags tag.asset_id) in
    if any (λ existing. equal_fold existing.tag tag.tag) tags then m else record m {
      tags =
          put m.tags tag.asset_id
            (tags ++ record tag { created_at = or_now tag.created_at now } ∷ []);
    }

-- RemoveAssetTag
unfoldable pub remove_asset_tag :
    (asset_id : String) (tag : Text) → ObservationMemory → Result StorageError ObservationMemory
unfolding equal_fold
remove_asset_tag asset_id tag m =
    let tags = listed (find m.tags asset_id) in
    if not (any (λ existing. equal_fold existing.tag tag) tags)
    then err not_found
    else ok (record m {
      tags = put m.tags asset_id (filter (λ existing. not (equal_fold existing.tag tag)) tags);
    })

unfoldable pub list_asset_tags : (asset_id : String) → ObservationMemory → List AssetTag
list_asset_tags asset_id m = listed (find m.tags asset_id)

unfoldable pub list_tags_for_target : (target_id : String) → ObservationMemory → List AssetTag
unfolding collect_where
list_tags_for_target target_id m = collect_where (λ t. t.target_id == target_id) m.tags

-- RecordAssetChange
unfoldable pub record_asset_change : (now : ℕ) → AssetChange → ObservationMemory → ObservationMemory
record_asset_change now change m = record m {
  changes = put m.changes change.target_id (
      listed (find m.changes change.target_id)
      ++ record change { detected_at = or_now change.detected_at now } ∷ []);
}

unfoldable pub matches_change : ChangeFilter → AssetChange → Bool
unfolding equal_fold
matches_change f item =
    is_asked f.asset_id item.asset_id
    && is_asked f.change_type item.change_type
    && (is_empty f.entity_type || equal_fold item.entity_type f.entity_type)

-- ListAssetChanges: the most recent first
unfoldable pub list_asset_changes : ChangeFilter → ObservationMemory → List AssetChange × ℕ
unfolding page matches_change sort_by
list_asset_changes f m = page f.limit f.offset (
    sort_by (λ a b. ltb b.detected_at a.detected_at)
      (filter (matches_change f) (listed (find m.changes f.target_id))))
