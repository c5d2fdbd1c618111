-- ===== src/Recon/Dedupe.antt =====
-- dedupe.go: the Deduplicator. Each method holds the lock, so it is one step; a set is a list of its keys.
pub mod FirstSeen
use nexus_hunter_ai.Prelude.{ℕ, Bool, true, false, List, [], ◌∷◌, ◌++◌, any, length, if◌then◌else◌}
use nexus_hunter_ai.Prelude.Texts.{Text, codes, text_eq}

pub record Deduplicator : Type 0 where
  pub hostnames : List Text
  pub ips : List Text
  pub urls : List Text
  pub dns_records : List Text
  pub http_services : List Text

-- NewDeduplicator
abbrev pub new_deduplicator : Deduplicator
new_deduplicator = record {
  hostnames = [];
  ips = [];
  urls = [];
  dns_records = [];
  http_services = [];
}

-- the body that the five checks share: whether the key is new, and the set with it
unfoldable pub check_and_add : Text → List Text → Bool × List Text
check_and_add key seen = if any (text_eq key) seen then (false, seen) else (true, key ∷ seen)

unfoldable pub check_and_add_host : Text → Deduplicator → Bool × Deduplicator
unfolding check_and_add
check_and_add_host host d =
    let (new, set) = check_and_add host d.hostnames in (new, record d { hostnames = set })

unfoldable pub check_and_add_ip : Text → Deduplicator → Bool × Deduplicator
unfolding check_and_add
check_and_add_ip ip d = let (new, set) = check_and_add ip d.ips in (new, record d { ips = set })

unfoldable pub check_and_add_url : Text → Deduplicator → Bool × Deduplicator
unfolding check_and_add
check_and_add_url url d =
    let (new, set) = check_and_add url d.urls in (new, record d { urls = set })

-- host + ":" + recordType + ":" + value
unfoldable pub dns_key : (host record_type value : Text) → Text
dns_key host record_type value = host ++ (codes ":" ++ (record_type ++ (codes ":" ++ value)))

unfoldable pub check_and_add_dns :
    (host record_type value : Text) → Deduplicator → Bool × Deduplicator
unfolding check_and_add dns_key
check_and_add_dns host record_type value d =
    let (new, set) = check_and_add (dns_key host record_type value) d.dns_records in
    (new, record d { dns_records = set })

unfoldable pub check_and_add_http_service : Text → Deduplicator → Bool × Deduplicator
unfolding check_and_add
check_and_add_http_service url d =
    let (new, set) = check_and_add url d.http_services in (new, record d { http_services = set })

-- Count
unfoldable pub count : Deduplicator → ℕ × ℕ × ℕ × ℕ
count d = (length d.hostnames, length d.urls, length d.dns_records, length d.http_services)
