-- ===== src/Storage/Data.antt =====
-- The collections of MemoryStorage that are modelled, and the records they hold (models.go,
-- scope_intelligence.go). Each method holds the lock from its start to its end, so it is one step on
-- this state; a step that returns an error gives no new state. A time is a number of nanoseconds, 0 for the
-- zero time.
use nexus_hunter_ai.Prelude.{ℕ, String, Option, none, some, List, [], Result, ok, err, ◌≡◌, refl}
use nexus_hunter_ai.Prelude.Maps.{Map}
use nexus_hunter_ai.Prelude.Texts.{Text}
use nexus_hunter_ai.Prelude.TextMaps.{TextMap}
use nexus_hunter_ai.Models.{Target}
use nexus_hunter_ai.Jobs.Data.{ScanJob, Event}

pub record Asset : Type 0 where
  pub id : String
  pub target_id : String
  pub hostname : String
  pub asset_type : String
  pub status : String
  pub first_seen : ℕ
  pub last_seen : ℕ

pub record DnsRecord : Type 0 where
  pub id : String
  pub asset_id : String
  pub record_type : String
  pub value : String
  pub first_seen : ℕ
  pub last_seen : ℕ

pub record HttpService : Type 0 where
  pub id : String
  pub asset_id : String
  pub url : String
  pub status_code : ℕ
  pub content_type : String
  pub response_time : ℕ
  pub final_url : String
  pub server_header : String
  pub tls_version : String
  pub first_seen : ℕ
  pub last_seen : ℕ

pub record UrlRecord : Type 0 where
  pub id : String
  pub asset_id : String
  pub url : String
  pub source : String
  pub depth : ℕ
  pub first_seen : ℕ
  pub last_seen : ℕ

pub record ReconRun : Type 0 where
  pub id : String
  pub job_id : String
  pub target_id : String
  pub status : String
  pub hosts_discovered : ℕ
  pub hosts_resolved : ℕ
  pub http_probed : ℕ
  pub urls_discovered : ℕ
  pub urls_crawled : ℕ
  pub errors : ℕ
  pub skipped_out_of_scope : ℕ
  pub started_at : ℕ
  pub completed_at : Option ℕ

pub record RootDomainCandidate : Type 0 where
  pub id : String
  pub normalized_domain : Text
  pub source_file : Text
  pub confidence : String
  pub status : String

-- the fields of models.CanonicalScope that the storage reads or writes
pub record CanonicalScopeRoots : Type 0 where
  pub confirmed_primary_root_domain : Text
  pub discovered_root_candidates : List Text
  pub root_domains : List Text

-- the counts and the normalizations of a review, which the storage only copies, are left out
pub record ScopeImportReview : Type 0 where
  pub id : String
  pub file_name : Text
  pub status : String
  pub root_domains : List RootDomainCandidate
  pub selected_root_domain : Text
  pub canonical_scope : Option CanonicalScopeRoots
  pub canonical_scope_sha256 : Text
  pub authorization_snapshot_sha256 : Text
  pub selection_reason : Text
  pub target_id : String
  pub confirmed_by : Text
  pub created_at : ℕ
  pub confirmed_at : Option ℕ

pub record MemoryStorage : Type 0 where
  pub targets : Map Target
  pub jobs : Map ScanJob
  pub events : List Event
  pub assets : Map Asset
  pub assets_by_host : TextMap String
  pub dns_records : Map (List DnsRecord)
  pub http_services : Map (List HttpService)
  pub urls : Map (List UrlRecord)
  pub recon_runs : Map ReconRun
  pub scope_imports : Map ScopeImportReview

-- NewMemoryStorage
abbrev pub new_memory_storage : MemoryStorage
new_memory_storage = record {
  targets = [];
  jobs = [];
  events = [];
  assets = [];
  assets_by_host = [];
  dns_records = [];
  http_services = [];
  urls = [];
  recon_runs = [];
  scope_imports = [];
}

pub data StorageError : Type 0 where
  not_found conflict invalid_state job_state_conflict import_rejected : StorageError
  root_domain_required confirmed_by_required not_a_candidate target_nil : StorageError

-- a lookup that fails with ErrNotFound
abbrev pub looked_up {ℓ κ} :
    {A : Type ℓ} {B : Type κ} → Option A → (A → Result StorageError B) → Result StorageError B
looked_up none next = err not_found
looked_up (some a) next = next a

pub looked_up-ok {ℓ κ} :
    {A : Type ℓ} {B : Type κ} (o : Option A) {next : A → Result StorageError B} {b : B}
    → looked_up o next ≡ ok b
    → (a : A) × (o ≡ some a) × (next a ≡ ok b)
looked_up-ok none h = absurd (cc h)
looked_up-ok (some a) h = (a, refl, h)
