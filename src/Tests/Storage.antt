-- ===== src/Tests/Storage.antt =====
-- The storage in memory on concrete records.
use nexus_hunter_ai.Prelude.{String, ◌≡◌, refl, none, some, List, [], ◌∷◌, Result, ok, err}
use nexus_hunter_ai.Prelude.Maps.{find, put}
use nexus_hunter_ai.Prelude.Texts.{codes, text_eq, trim_space}
use nexus_hunter_ai.Prelude.TextMaps.{look}
use nexus_hunter_ai.Models.{Target}
use nexus_hunter_ai.Jobs.Values.{no_fields, field, text}
use nexus_hunter_ai.Jobs.Data.{ScanJob, Event, job_started, running, queued}
use nexus_hunter_ai.Jobs.Repository.{transition_job}
use nexus_hunter_ai.Storage.Data.{
  Asset, DnsRecord, HttpService, MemoryStorage, ScopeImportReview, StorageError, UrlRecord,
  invalid_state, new_memory_storage,
}
use nexus_hunter_ai.Storage.Imports.{
  Snapshots, confirm_import_review_provenance, confirm_scope_and_create_target,
}
use nexus_hunter_ai.Storage.Imports.Confirmed.{
  IsAttributed, IsConfirmable, confirm_scope-IsAttributed, confirm_scope-once,
}
use nexus_hunter_ai.Storage.Events.{record_event_locked}
use nexus_hunter_ai.Storage.Events.Log.{
  IsSound, record_event_locked-IsSound, record_event_locked-again,
}
use nexus_hunter_ai.Storage.Jobs.{transition_job_with_audit_event}
use nexus_hunter_ai.Storage.Jobs.Atomic.{jobs_of, transition-transition_job}
use nexus_hunter_ai.Storage.Recon.{save_dns_record, save_http_service, save_url}
use nexus_hunter_ai.Storage.Recon.Records.{RecordsApart, save-RecordsApart}
use nexus_hunter_ai.Storage.Assets.{save_asset, update_asset_status}
use nexus_hunter_ai.Storage.Assets.Index.{IsIndexed, IsIndexedOk, save_asset-IsIndexed}
use nexus_hunter_ai.Tests.Scope.{example_target}

abbrev plain_snapshots : Snapshots
plain_snapshots = record { sha256_hex = λ t. t; format_rfc3339 = λ n. codes "now" }

abbrev pending : ScopeImportReview
pending = record {
  id = "imp-1";
  file_name = codes "scope.json";
  status = "PENDING_CONFIRMATION";
  root_domains =
      (record {
        id = "c-1";
        normalized_domain = codes "x.io";
        source_file = codes "scope.json";
        confidence = "HIGH";
        status = "DISCOVERED";
      })
      ∷ [];
  selected_root_domain = [];
  canonical_scope = none;
  canonical_scope_sha256 = codes "ab";
  authorization_snapshot_sha256 = [];
  selection_reason = [];
  target_id = "";
  confirmed_by = [];
  created_at = 1;
  confirmed_at = none;
}

abbrev imported : MemoryStorage
unfolding put
imported = record new_memory_storage { scope_imports = ("imp-1", pending) ∷ [] }

abbrev Confirmation : Type 0
Confirmation = Target × ScopeImportReview × MemoryStorage

abbrev confirmation : Result StorageError Confirmation
unfolding confirm_scope_and_create_target trim_space text_eq find put
confirmation =
    confirm_scope_and_create_target plain_snapshots 9 "imp-1" (codes "x.io")
      (some (example_target [])) (codes "op") [] imported

abbrev result_or : Confirmation → Result StorageError Confirmation → Confirmation
result_or r (ok s) = s
result_or r (err e) = r

abbrev outcome : Confirmation
unfolding confirm_scope_and_create_target trim_space text_eq find put
outcome = result_or (example_target [], pending, imported) confirmation

confirm_scope-IsAttributed_example :
    (rev : ScopeImportReview) × (find imported.scope_imports "imp-1" ≡ some rev)
    × IsConfirmable (codes "x.io") (codes "op") rev
    × (find imported.targets outcome.0.id ≡ none)
    × (find outcome.2.scope_imports "imp-1" ≡ some outcome.1)
    × IsAttributed outcome.2 outcome.1 outcome.0
unfolding confirm_scope_and_create_target trim_space text_eq find put
confirm_scope-IsAttributed_example =
    confirm_scope-IsAttributed plain_snapshots 9 "imp-1" (codes "x.io") (codes "op") []
      (some (example_target [])) imported outcome.2 outcome.0 outcome.1 refl

confirm_scope-once_example :
    (confirm_scope_and_create_target plain_snapshots 10 "imp-1"
        (codes "y.io")
        none
        (codes "eve")
        []
        outcome.2
      ≡ err invalid_state)
    × (confirm_import_review_provenance 10 "imp-1" (codes "y.io") "t-2" (codes "eve") outcome.2
        ≡ err invalid_state)
unfolding confirm_scope_and_create_target trim_space text_eq find put
confirm_scope-once_example =
    confirm_scope-once plain_snapshots 9 "imp-1" (codes "x.io") (codes "op") []
      (some (example_target [])) none imported outcome.2 outcome.0 outcome.1 10 (codes "y.io")
      (codes "eve") [] "t-2" refl refl

abbrev pub started_event : (id : String) → Event
started_event id = record {
  event_id = id;
  event_type = job_started;
  job_id = "j-1";
  target_id = "t-1";
  timestamp = 0;
  correlation_id = "";
  previous_state = queued;
  new_state = running;
  payload = field "Api_Key" (text "k") (field "job_type" (text "RECON") no_fields);
  created_at = 0;
}

abbrev one_event : List Event
unfolding record_event_locked
one_event = record_event_locked 5 "evt-5" (started_event "e-1") []

record_event_locked-IsSound_example :
    IsSound (record_event_locked 6 "evt-6" (started_event "") one_event)
unfolding record_event_locked
record_event_locked-IsSound_example =
    record_event_locked-IsSound 6 "evt-6" (started_event "") one_event (λ _. refl)
      (record_event_locked-IsSound 5 "evt-5" (started_event "e-1") [] (λ _. refl) (tt, tt))

record_event_locked-again_example :
    record_event_locked 6 "evt-6"
      (started_event "e-1")
      (record_event_locked 5 "evt-5" (started_event "e-1") [])
    ≡ record_event_locked 5 "evt-5" (started_event "e-1") []
record_event_locked-again_example =
    record_event_locked-again 5 6 "evt-5" "evt-6" (started_event "e-1") (started_event "e-1") []
      refl refl

abbrev stored_job : (status : String) → ScanJob
stored_job status = record {
  id = "j-1";
  target_id = "t-1";
  type = "RECON";
  status = status;
  created_at = 1;
  started_at = none;
  completed_at = none;
  error = "";
  metadata = none;
}

abbrev one_job : MemoryStorage
one_job = record new_memory_storage { jobs = ("j-1", stored_job queued) ∷ [] }

transition-transition_job_example :
    jobs_of (
      transition_job_with_audit_event 5 "evt-5"
        (stored_job running)
        (running ∷ [])
        (some (started_event "e-1"))
        one_job)
    ≡ transition_job (stored_job running) (running ∷ []) one_job.jobs
transition-transition_job_example =
    transition-transition_job 5 "evt-5" (stored_job running) (running ∷ [])
      (some (started_event "e-1")) one_job

abbrev storage_or : Result StorageError MemoryStorage → MemoryStorage
storage_or (ok m) = m
storage_or (err e) = one_job

abbrev transitioned : MemoryStorage
unfolding transition_job_with_audit_event find put
transitioned = storage_or (
    transition_job_with_audit_event 5 "evt-5" (stored_job running) (queued ∷ [])
      (some (started_event "e-1")) one_job)

abbrev host_asset : (id : String) → Asset
host_asset id = record {
  id = id;
  target_id = "t-1";
  hostname = "a.x.io";
  asset_type = "SUBDOMAIN";
  status = "DISCOVERED";
  first_seen = 1;
  last_seen = 4;
}

save_asset-IsIndexed_example :
    IsIndexed (save_asset (host_asset "a-1") new_memory_storage)
    × IsIndexedOk (update_asset_status "a-1" "LIVE" new_memory_storage)
unfolding find look
save_asset-IsIndexed_example =
    save_asset-IsIndexed (host_asset "a-1") "a-1" "LIVE" new_memory_storage (λ a e. absurd (cc e))
      (λ key id e. absurd (cc e))

abbrev address : DnsRecord
address = record {
  id = "d-1";
  asset_id = "a-1";
  record_type = "A";
  value = "10.0.0.1";
  first_seen = 1;
  last_seen = 2;
}

abbrev service : HttpService
service = record {
  id = "s-1";
  asset_id = "a-1";
  url = "https://a.x.io";
  status_code = 200;
  content_type = "text/html";
  response_time = 12;
  final_url = "";
  server_header = "";
  tls_version = "";
  first_seen = 1;
  last_seen = 2;
}

abbrev page : UrlRecord
page = record {
  id = "u-1";
  asset_id = "a-1";
  url = "https://a.x.io/";
  source = "SEED";
  depth = 0;
  first_seen = 1;
  last_seen = 2;
}

save-RecordsApart_example :
    RecordsApart (save_dns_record address new_memory_storage)
    × RecordsApart (save_http_service service new_memory_storage)
    × RecordsApart (save_url page new_memory_storage)
unfolding find
save-RecordsApart_example =
    save-RecordsApart address service page new_memory_storage ((λ id. tt), (λ id. tt), (λ id. tt))
