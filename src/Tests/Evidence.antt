-- ===== src/Tests/Evidence.antt =====
-- The evidence engine on two concrete answers, over the store in memory.
use nexus_hunter_ai.Prelude.{
  ℕ, String, ◌≡◌, refl, Bool, true, false, Option, none, some, [], ◌∷◌, ◌++◌, Has, Result, ok, err,
  ap, sym, ◌∙◌, inl, inr,
}
use nexus_hunter_ai.Prelude.Texts.{
  Text, codes, contains, text_eq, text_eq_iff, to_lower, trim_space,
}
use nexus_hunter_ai.Prelude.Maps.{find, put}
use nexus_hunter_ai.Prelude.TextMaps.{TextMap, look, store}
use nexus_hunter_ai.Jobs.Repository.{bytes_less}
use nexus_hunter_ai.Jobs.Values.{Fields, no_fields, field, text, object}
use nexus_hunter_ai.Evidence.Data.{Evidence, EvidenceDiff, EvidenceProvenance, ScopeDecisionRecord}
use nexus_hunter_ai.Evidence.Redactor.{Redactor, is_sensitive_header, is_sensitive_query}
use nexus_hunter_ai.Evidence.Canonical.{Digest, Ranging, build_canonical_map, header_name}
use nexus_hunter_ai.Evidence.Canonical.Ranges.{Agree, AgreeAll, build_canonical_map_same}
use nexus_hunter_ai.Evidence.Json.{sanitize_json_map}
use nexus_hunter_ai.Evidence.Json.Clean.{IsCleanMap, sanitize_json_map-IsCleanMap}
use nexus_hunter_ai.Evidence.Headers.{compare_headers, is_skipped, normalized}
use nexus_hunter_ai.Evidence.Headers.Laws.{
  compare_headers_lem, report_added, report_modified, unless_skipped,
}
use nexus_hunter_ai.Evidence.Diff.{compute_diff}
use nexus_hunter_ai.Evidence.Relevance.{relevant_lem}
use nexus_hunter_ai.Evidence.Sanitize.{redacted_header}
use nexus_hunter_ai.Evidence.Engine.{
  EngineError, EvidenceIntegrityResult, record_evidence, compare_evidence,
  verify_evidence_integrity,
}
use nexus_hunter_ai.Evidence.Engine.Integrity.{
  edit-verify, record_evidence-verify, untampered_result,
}
use nexus_hunter_ai.Evidence.Engine.Comparison.{compare_evidence-Same}
use nexus_hunter_ai.Evidence.Engine.Contradiction.{contradiction_of, evaluate_contradiction}
use nexus_hunter_ai.Evidence.Engine.Contradiction.Verdicts.{Weighs, evaluate_contradiction-Weighs}
use nexus_hunter_ai.Evidence.Engine.Interest.{
  IsWeighed, synthesize_asset_interest, synthesize_asset_interest-IsWeighed,
}
use nexus_hunter_ai.Evidence.Store.{SecurityContradiction, SecurityExpectation}
use nexus_hunter_ai.Storage.Evidence.{
  EvidenceMemory, get_evidence, record_timeline_event, save_evidence, memory_evidence_store,
  new_evidence_memory,
}
use nexus_hunter_ai.Storage.Evidence.Lawful.{memory_evidence_store-IsLawful}

-- patterns that find nothing, and no JSON
abbrev plain_redactor : Redactor
plain_redactor = record {
  has_jwt = λ t. false;
  has_bearer = λ t. false;
  has_api_key = λ t. false;
  mask_jwt = λ t. t;
  mask_bearer = λ t. t;
  mask_api_key = λ t. t;
  query_keys = λ t. none;
  redact_query = λ t ks. t;
  unmarshal = λ t. none;
  marshal = λ m. none;
}

abbrev header_values : Option (TextMap Text) → Text
header_values none = []
header_values (some []) = []
header_values (some (e ∷ h)) = e.1 ++ header_values (some h)

-- the summary and the values of the relevant headers stand for the marshalled map, and for its hash
abbrev summary_digest : Digest
summary_digest = record {
  marshal = λ m. some (m.summary ++ header_values m.relevant_headers);
  sha256_hex = λ t. t;
}

abbrev as_stored : Ranging
as_stored = record {
  range = λ site i h. h;
  range_sound = λ site i h e k. k;
  range_complete = λ site i h e k. k;
}

-- the first header is met last
abbrev rotate : TextMap Text → TextMap Text
rotate [] = []
rotate (e ∷ h) = h ++ e ∷ []

snoc-Has : (h : TextMap Text) (x e : Text × Text) → Has e (h ++ x ∷ []) → Has e (x ∷ h)
snoc-Has [] x e k = k
snoc-Has (y ∷ h) x e (inl same) = inr (inl same)
snoc-Has (y ∷ h) x e (inr k) = elim (snoc-Has h x e k) [ inl same ↦ inl same | inr m ↦ inr (inr m) ]

Has-snoc : (h : TextMap Text) (x e : Text × Text) → Has e (x ∷ h) → Has e (h ++ x ∷ [])
Has-snoc [] x e k = k
Has-snoc (y ∷ h) x e (inl same) = inr (Has-snoc h x e (inl same))
Has-snoc (y ∷ h) x e (inr (inl same)) = inl same
Has-snoc (y ∷ h) x e (inr (inr k)) = inr (Has-snoc h x e (inr k))

rotate_sound : (h : TextMap Text) (e : Text × Text) → Has e (rotate h) → Has e h
rotate_sound [] e k = k
rotate_sound (x ∷ h) e k = snoc-Has h x e k

rotate_complete : (h : TextMap Text) (e : Text × Text) → Has e h → Has e (rotate h)
rotate_complete [] e k = k
rotate_complete (x ∷ h) e k = Has-snoc h x e k

abbrev rotated : Ranging
rotated = record {
  range = λ site i h. rotate h;
  range_sound = λ site i h e k. rotate_sound h e k;
  range_complete = λ site i h e k. rotate_complete h e k;
}

abbrev probe_origin : EvidenceProvenance
probe_origin = record {
  source = "HTTP_PROBE";
  operation_id = "op-1";
  target_id = "t-1";
  asset_id = "a-1";
  captured_at = 3;
  initiator = "recon";
}

abbrev probe_scope : ScopeDecisionRecord
probe_scope = record {
  is_in_scope = true;
  target_id = "t-1";
  evaluated_host = codes "x.io";
  evaluated_url = [];
  rule_matched = [];
  reason = [];
  evaluated_at = 3;
}

abbrev probe : (id : String) → (status_code : ℕ) → Evidence
probe id status_code = record {
  id = id;
  target_id = "t-1";
  asset_id = "a-1";
  observation_id = "";
  candidate_id = "";
  source = "HTTP_PROBE";
  evidence_type = "HTTP";
  summary = codes "ok";
  captured_at = none;
  status_code = status_code;
  request = none;
  response = none;
  relevant_headers = (codes "Cookie", codes "a=b") ∷ (codes "Api-Key", codes "k") ∷ [];
  redirect_chain = [];
  dns_context = none;
  scope_decision = probe_scope;
  redaction_status = none;
  canonical_representation = [];
  sha256 = [];
  integrity_hash = [];
  provenance = probe_origin;
}

abbrev secret_body : Fields
secret_body =
    field "token" (text "abc") (field "user" (object (field "name" (text "x") no_fields)) no_fields)

sanitize_json_map-IsCleanMap_example :
    IsCleanMap plain_redactor (sanitize_json_map plain_redactor [] secret_body).0
sanitize_json_map-IsCleanMap_example = sanitize_json_map-IsCleanMap plain_redactor [] secret_body

relevant_lem_example :
    (compute_diff "d-1" 9 (probe "ev-1" 403) (probe "ev-2" 200) true).is_security_relevant ≡ true
unfolding compute_diff
relevant_lem_example = relevant_lem "d-1" 9 (probe "ev-1" 403) (probe "ev-2" 200) true

abbrev first_run : Option EvidenceMemory × Result EngineError Evidence
unfolding record_evidence
first_run =
    record_evidence memory_evidence_store plain_redactor summary_digest as_stored "ev-9" "tl-1" 5
      (some new_evidence_memory) (probe "" 403)

abbrev evidence_or : Evidence → Result EngineError Evidence → Evidence
evidence_or ev (ok out) = out
evidence_or ev (err e) = ev

abbrev recorded_probe : Evidence
unfolding record_evidence
recorded_probe = evidence_or (probe "" 0) first_run.1

-- two headers of different names agree
two-Agree :
    (x y : Text × Text) → text_eq (header_name x) (header_name y) ≡ false → Agree (x ∷ y ∷ [])
two-Agree x y apart a b (inl p) (inl q) n = ap (λ e. trim_space e.1) (p ∙ sym q)
two-Agree x y apart a b (inl p) (inr (inl q)) n =
    let same : header_name x ≡ header_name y = ap header_name (sym p) ∙ n ∙ ap header_name q in
    absurd (cc (apart, (text_eq_iff (header_name x) (header_name y)).1 same))
two-Agree x y apart a b (inr (inl p)) (inl q) n =
    let same : header_name x ≡ header_name y = ap header_name (sym q) ∙ sym n ∙ ap header_name p in
    absurd (cc (apart, (text_eq_iff (header_name x) (header_name y)).1 same))
two-Agree x y apart a b (inr (inl p)) (inr (inl q)) n = ap (λ e. trim_space e.1) (p ∙ sym q)
two-Agree x y apart a b (inl p) (inr (inr k)) n = absurd k
two-Agree x y apart a b (inr (inl p)) (inr (inr k)) n = absurd k
two-Agree x y apart a b (inr (inr k)) m n = absurd k

probe-AgreeAll : AgreeAll recorded_probe
unfolding record_evidence redacted_header is_sensitive_header is_sensitive_query text_eq to_lower
    trim_space contains
probe-AgreeAll =
    (tt, tt, two-Agree (codes "Cookie", codes "a=b") (codes "Api-Key", codes "[REDACTED]") refl)

build_canonical_map_same_example :
    build_canonical_map as_stored recorded_probe ≡ build_canonical_map rotated recorded_probe
unfolding record_evidence
build_canonical_map_same_example =
    build_canonical_map_same as_stored rotated recorded_probe probe-AgreeAll

record_evidence-verify_example :
    verify_evidence_integrity memory_evidence_store summary_digest rotated 9 first_run.0
      recorded_probe.id
    ≡ ok (untampered_result 9 recorded_probe)
unfolding record_evidence
record_evidence-verify_example =
    record_evidence-verify memory_evidence_store summary_digest as_stored
      memory_evidence_store-IsLawful plain_redactor rotated "ev-9" "tl-1" 5 9 new_evidence_memory
      first_run.0 (probe "" 403) recorded_probe probe-AgreeAll refl

-- two headers of one name with two values
abbrev clashing : Evidence
clashing = record (probe "" 403) {
  relevant_headers = (codes "X-A", codes "1") ∷ (codes "x-a", codes "2") ∷ [];
}

abbrev clash_run : Option EvidenceMemory × Result EngineError Evidence
unfolding record_evidence
clash_run =
    record_evidence memory_evidence_store plain_redactor summary_digest as_stored "ev-9" "tl-1" 5
      (some new_evidence_memory) clashing

abbrev tampering : Result EngineError EvidenceIntegrityResult → Bool
tampering (ok r) = r.is_tampered
tampering (err e) = false

-- fresh evidence is reported as tampered when the loops run in another order
clash_tampered :
    tampering
      (verify_evidence_integrity memory_evidence_store summary_digest rotated 9 clash_run.0 "ev-9")
    ≡ true
unfolding record_evidence verify_evidence_integrity get_evidence find record_timeline_event
    save_evidence put trim_space text_eq redacted_header is_sensitive_header to_lower bytes_less
    store
clash_tampered = refl

-- the same evidence with another time and another candidate
abbrev edited_probe : Evidence
unfolding record_evidence
edited_probe = record recorded_probe {
  captured_at = some 77;
  candidate_id = "c-2";
  redaction_status = none;
  canonical_representation = [];
}

abbrev memory_or : Option EvidenceMemory → EvidenceMemory
memory_or none = new_evidence_memory
memory_or (some m) = m

abbrev first_memory : EvidenceMemory
unfolding record_evidence
first_memory = memory_or first_run.0

edit-verify_example :
    verify_evidence_integrity memory_evidence_store summary_digest rotated 9
      (some (save_evidence first_memory edited_probe))
      recorded_probe.id
    ≡ ok (untampered_result 9 recorded_probe)
unfolding record_evidence
edit-verify_example =
    edit-verify memory_evidence_store summary_digest as_stored memory_evidence_store-IsLawful
      plain_redactor rotated "ev-9" "tl-1" 5 9 new_evidence_memory first_memory
      (save_evidence first_memory edited_probe) (probe "" 403) recorded_probe (some 77) "c-2" none
      [] probe-AgreeAll refl refl

-- two stored answers of one target
abbrev two_probes : EvidenceMemory
unfolding save_evidence
two_probes = save_evidence (save_evidence new_evidence_memory (probe "ev-1" 403)) (probe "ev-2" 200)

abbrev compared : Option EvidenceMemory × Result EngineError EvidenceDiff
unfolding compare_evidence
compared =
    compare_evidence memory_evidence_store "d-1" "tl-2" 9 "ev-1" "ev-2" true (some two_probes)

compare_evidence-Same_example :
    (a : Evidence) × (b : Evidence) × (memory_evidence_store.get_evidence two_probes "ev-1"
      ≡ some a)
    × (memory_evidence_store.get_evidence two_probes "ev-2" ≡ some b)
    × (a.target_id ≡ b.target_id)
    × (compute_diff "d-1" 9 (probe "ev-1" 403) (probe "ev-2" 200) true
        ≡ compute_diff "d-1" 9 a b true)
unfolding compare_evidence save_evidence get_evidence find put
compare_evidence-Same_example =
    compare_evidence-Same memory_evidence_store "d-1" "tl-2" 9 "ev-1" "ev-2" true two_probes
      compared.0 (compute_diff "d-1" 9 (probe "ev-1" 403) (probe "ev-2" 200) true) refl

abbrev auth_expected : SecurityExpectation
auth_expected = record {
  id = "exp-1";
  target_id = "t-1";
  asset_id = "a-1";
  endpoint = codes "/admin";
  control_name = codes "AUTH_REQUIRED";
  source = "OPERATOR";
  expected_state = "PRESENT";
  description = [];
  created_at = 1;
}

abbrev unseen : SecurityContradiction
unfolding contradiction_of
unseen =
    contradiction_of "con-1" 9 "t-1" "a-1" (codes "/admin") auth_expected "NOT_OBSERVED"
      ("ev-1" ∷ [])

evaluate_contradiction-Weighs_example :
    Weighs "PRESENT" "NOT_OBSERVED" unseen.status unseen.severity
unfolding evaluate_contradiction trim_space
evaluate_contradiction-Weighs_example =
    evaluate_contradiction-Weighs memory_evidence_store "con-1" "tl-1" 9 "t-1" "a-1"
      (codes "/admin") auth_expected "NOT_OBSERVED" ("ev-1" ∷ []) none none unseen refl

synthesize_asset_interest-IsWeighed_example :
    IsWeighed
      (synthesize_asset_interest memory_evidence_store 9 (some two_probes) "t-1" "a-1" "x.io")
synthesize_asset_interest-IsWeighed_example =
    synthesize_asset_interest-IsWeighed memory_evidence_store 9 (some two_probes) "t-1" "a-1" "x.io"

abbrev old_headers : TextMap Text
old_headers = (codes "Server", codes "a") ∷ (codes "Date", codes "1") ∷ []

abbrev new_headers : TextMap Text
new_headers = (codes "server", codes "b") ∷ (codes "Date", codes "2") ∷ []

compare_headers_lem_example :
    (look (compare_headers old_headers new_headers true).added (codes "server")
      ≡ unless_skipped (is_skipped true (codes "server")) (
          report_added
            (look (normalized old_headers) (codes "server"))
            (look (normalized new_headers) (codes "server"))))
    × (look (compare_headers old_headers new_headers true).removed (codes "server")
        ≡ unless_skipped (is_skipped true (codes "server")) (
            report_added
              (look (normalized new_headers) (codes "server"))
              (look (normalized old_headers) (codes "server"))))
    × (look (compare_headers old_headers new_headers true).modified (codes "server")
        ≡ unless_skipped (is_skipped true (codes "server")) (
            report_modified
              (look (normalized old_headers) (codes "server"))
              (look (normalized new_headers) (codes "server"))))
compare_headers_lem_example = compare_headers_lem old_headers new_headers true (codes "server")
