-- ===== src/Storage/Recon.antt =====
-- memory.go: DNS records, HTTP services, URLs and runs of the reconnaissance.
pub mod Records
use nexus_hunter_ai.Prelude.{
  String, ◌==◌, Bool, true, false, ◌&&◌, Option, none, some, List, [], ◌∷◌, ◌++◌, Result, ok, err,
  if◌then◌else◌,
}
use nexus_hunter_ai.Prelude.Maps.{Map, find, put}
use nexus_hunter_ai.Storage.Data.{
  Asset, DnsRecord, HttpService, MemoryStorage, ReconRun, StorageError, UrlRecord, looked_up,
}
use nexus_hunter_ai.Storage.Upserts.{listed, upsert}

unfoldable pub same_dns : DnsRecord → DnsRecord → Bool
same_dns existing r = existing.record_type == r.record_type && existing.value == r.value

unfoldable pub seen_dns : DnsRecord → DnsRecord → DnsRecord
seen_dns existing r = record existing { last_seen = r.last_seen }

-- SaveDNSRecord
unfoldable pub save_dns_record : DnsRecord → MemoryStorage → MemoryStorage
unfolding upsert same_dns seen_dns
save_dns_record r m = record m {
  dns_records =
      put m.dns_records r.asset_id
        (upsert same_dns seen_dns r (listed (find m.dns_records r.asset_id)));
}

unfoldable pub list_dns_records : (asset_id : String) → MemoryStorage → List DnsRecord
list_dns_records asset_id m = listed (find m.dns_records asset_id)

unfoldable pub same_service : HttpService → HttpService → Bool
same_service existing svc = existing.url == svc.url

unfoldable pub seen_service : HttpService → HttpService → HttpService
seen_service existing svc = record existing {
  status_code = svc.status_code;
  content_type = svc.content_type;
  response_time = svc.response_time;
  final_url = svc.final_url;
  server_header = svc.server_header;
  tls_version = svc.tls_version;
  last_seen = svc.last_seen;
}

-- SaveHTTPService
unfoldable pub save_http_service : HttpService → MemoryStorage → MemoryStorage
unfolding upsert same_service seen_service
save_http_service svc m = record m {
  http_services =
      put m.http_services svc.asset_id
        (upsert same_service seen_service svc (listed (find m.http_services svc.asset_id)));
}

-- is the asset, where a target is asked for, one of the target's
unfoldable pub is_of_target : (target_id : String) → Option Asset → Bool
is_of_target target_id none = target_id == ""
is_of_target target_id (some a) = if target_id == "" then true else a.target_id == target_id

-- the loops of ListHTTPServices and ListURLs over a map of slices
unfoldable pub collect {ℓ} : {A : Type ℓ} → (target_id : String) → Map Asset → Map (List A) → List A
unfolding is_of_target
collect target_id assets [] = []
collect target_id assets (e ∷ rest) =
    let others = collect target_id assets rest in
    if is_of_target target_id (find assets e.0) then e.1 ++ others else others

unfoldable pub list_http_services : (target_id : String) → MemoryStorage → List HttpService
unfolding collect
list_http_services target_id m = collect target_id m.assets m.http_services

unfoldable pub same_url : UrlRecord → UrlRecord → Bool
same_url existing u = existing.url == u.url

unfoldable pub seen_url : UrlRecord → UrlRecord → UrlRecord
seen_url existing u = record existing { last_seen = u.last_seen }

-- SaveURL
unfoldable pub save_url : UrlRecord → MemoryStorage → MemoryStorage
unfolding upsert same_url seen_url
save_url u m = record m {
  urls = put m.urls u.asset_id (upsert same_url seen_url u (listed (find m.urls u.asset_id)));
}

unfoldable pub list_urls : (target_id : String) → MemoryStorage → List UrlRecord
unfolding collect
list_urls target_id m = collect target_id m.assets m.urls

unfoldable pub save_recon_run : ReconRun → MemoryStorage → MemoryStorage
save_recon_run run m = record m { recon_runs = put m.recon_runs run.job_id run }

unfoldable pub get_recon_run_by_job_id : String → MemoryStorage → Result StorageError ReconRun
get_recon_run_by_job_id job_id m = looked_up (find m.recon_runs job_id) ok

unfoldable pub update_recon_run : ReconRun → MemoryStorage → Result StorageError MemoryStorage
update_recon_run run m =
    looked_up (find m.recon_runs run.job_id)
      λ old. ok (record m { recon_runs = put m.recon_runs run.job_id run })
