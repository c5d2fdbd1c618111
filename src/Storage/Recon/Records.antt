-- ===== src/Storage/Recon/Records.antt =====
-- memory.go: the records of an asset differ in their keys.
use nexus_hunter_ai.Prelude.{
  String, ◌==◌, eq_iff, Bool, List, ◌≡◌, refl, inl, inr, Bool-cases, arith,
}
use nexus_hunter_ai.Prelude.Maps.{Map, find, put, find-put}
use nexus_hunter_ai.Storage.Data.{DnsRecord, HttpService, MemoryStorage, UrlRecord}
use nexus_hunter_ai.Storage.Upserts.{Apart, IsKeyed, listed, upsert, upsert-Apart}
use nexus_hunter_ai.Storage.Recon.{
  same_dns, same_service, same_url, save_dns_record, save_http_service, save_url, seen_dns,
  seen_service, seen_url,
}

-- the slice under each key holds no two records that are the same
abbrev pub SlicesApart :
    {A : Type 0} (same : A → A → Bool) (merge : A → A → A) → Map (List A) → Type 0
SlicesApart same merge m = (id : String) → Apart same merge (listed (find m id))

abbrev pub RecordsApart : MemoryStorage → Type 0
RecordsApart m =
    SlicesApart same_dns seen_dns m.dns_records
    × SlicesApart same_service seen_service m.http_services
    × SlicesApart same_url seen_url m.urls

eq_sym : (a b : String) → (a == b) ≡ (b == a)
eq_sym a b = ground (arith, eq_iff a b, eq_iff b a)

dns_keyed : IsKeyed same_dns seen_dns
unfolding same_dns seen_dns
dns_keyed = record {
  symmetric = λ a b. cc (eq_sym a.record_type b.record_type, eq_sym a.value b.value);
  keeps = λ x r z. refl;
}

service_keyed : IsKeyed same_service seen_service
unfolding same_service seen_service
service_keyed = record { symmetric = λ a b. eq_sym a.url b.url; keeps = λ x r z. refl }

url_keyed : IsKeyed same_url seen_url
unfolding same_url seen_url
url_keyed = record { symmetric = λ a b. eq_sym a.url b.url; keeps = λ x r z. refl }

put-SlicesApart :
    {A : Type 0} (same : A → A → Bool) (merge : A → A → A)
    → IsKeyed same merge
    → (key : String) (r : A) (m : Map (List A)) → SlicesApart same merge m
    → SlicesApart same merge (put m key (upsert same merge r (listed (find m key))))
put-SlicesApart same merge keyed key r m h id = elim (Bool-cases (key == id)) [
  | inl b ↦ rw (find-put, b) (upsert-Apart same merge keyed r (listed (find m key)) (h key))
  | inr n ↦ rw (find-put, n) (h id)
]

-- SaveDNSRecord, SaveHTTPService and SaveURL keep the records of every asset apart: no two DNS
-- records have the same type and value, and no two services or URLs the same address.
pub save-RecordsApart :
    (r : DnsRecord) (svc : HttpService) (u : UrlRecord) (m : MemoryStorage)
    → RecordsApart m
    → RecordsApart (save_dns_record r m)
      × RecordsApart (save_http_service svc m)
      × RecordsApart (save_url u m)
unfolding save_dns_record save_http_service save_url
save-RecordsApart r svc u m h = (
  (put-SlicesApart same_dns seen_dns dns_keyed r.asset_id r m.dns_records h.0, h.1, h.2),
  (
    h.0,
    put-SlicesApart same_service seen_service service_keyed svc.asset_id svc m.http_services h.1,
    h.2,
  ),
  (h.0, h.1, put-SlicesApart same_url seen_url url_keyed u.asset_id u m.urls h.2),
)
