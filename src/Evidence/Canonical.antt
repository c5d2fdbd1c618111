-- ===== src/Evidence/Canonical.antt =====
-- canonical.go: the canonical form of evidence, and its hash.
pub mod Ranges
use nexus_hunter_ai.Prelude.{
  ℕ, suc, String, Bool, Option, none, some, List, [], ◌∷◌, if◌then◌else◌, leb, map, Has,
}
use nexus_hunter_ai.Prelude.Texts.{Text, text_eq, to_lower, trim_space}
use nexus_hunter_ai.Prelude.TextMaps.{TextMap, store}
use nexus_hunter_ai.Prelude.Sorts.{sort_by}
use nexus_hunter_ai.Jobs.Repository.{bytes_less}
use nexus_hunter_ai.Evidence.Data.{Evidence, HttpRequestContext, HttpResponseContext, DnsContext}

-- the map that buildCanonicalMap returns, with its entries as fields; an entry that is set under a
-- condition is an Option
pub record CanonicalRequest : Type 0 where
  pub method : Text
  pub url : Text
  pub headers : TextMap Text
  pub body_summary : Text
  pub body_length : ℕ
  pub is_authenticated : Bool
  pub auth_context_role : String

pub record CanonicalResponse : Type 0 where
  pub status_code : ℕ
  pub headers : TextMap Text
  pub body_snippet : Text
  pub body_length : ℕ
  pub body_hash : String
  pub content_type : Text

pub record CanonicalDns : Type 0 where
  pub hostname : Text
  pub ip_addresses : List Text
  pub cnames : List Text

pub record CanonicalScope : Type 0 where
  pub is_in_scope : Bool
  pub evaluated_host : Text
  pub rule_matched : Text

pub record CanonicalProvenance : Type 0 where
  pub source : String
  pub operation_id : String
  pub target_id : String
  pub asset_id : String
  pub initiator : String

pub record CanonicalMap : Type 0 where
  pub target_id : String
  pub asset_id : String
  pub observation_id : String
  pub source : String
  pub evidence_type : String
  pub summary : Text
  pub status_code : ℕ
  pub request : Option CanonicalRequest
  pub response : Option CanonicalResponse
  pub relevant_headers : Option (TextMap Text)
  pub redirect_chain : Option (List Text)
  pub dns_context : Option CanonicalDns
  pub scope_decision : CanonicalScope
  pub provenance : CanonicalProvenance

-- strings.ToUpper(s)
unfoldable pub to_upper : Text → Text
to_upper = map (λ c. if leb b'a' c then (if leb c b'z' then upper c else c) else c)
  where
    upper : ℕ → ℕ
    upper c = Prim.Native.Nat.◌-◌ c 32

-- The orders in which loops over a map of headers run. Go chooses one anew for every loop; each entry is
-- met, and nothing else. A loop is named by the call of normalizeHeaders that it is in, and a number.
pub record Ranging : Type 0 where
  pub range : (site round : ℕ) → TextMap Text → TextMap Text
  pub range_sound :
      (site round : ℕ) (h : TextMap Text) (e : Text × Text) → Has e (range site round h) → Has e h
  pub range_complete :
      (site round : ℕ) (h : TextMap Text) (e : Text × Text) → Has e h → Has e (range site round h)

abbrev pub header_name : Text × Text → Text
header_name e = to_lower (trim_space e.0)

-- the inner loop: the trimmed value of the first header that is met under the name
unfoldable pub pick : (name : Text) → TextMap Text → Option Text
pick name [] = none
pick name (e ∷ h) = if text_eq (header_name e) name then some (trim_space e.1) else pick name h

abbrev pub store_picked : TextMap Text → (name : Text) → Option Text → TextMap Text
store_picked norm name none = norm
store_picked norm name (some v) = store norm name v

-- the loop over the sorted names; `ranged i` are the headers in the order of its i-th round
unfoldable pub pick_each : (ranged : ℕ → TextMap Text) → ℕ → List Text → TextMap Text → TextMap Text
unfolding pick
pick_each ranged i [] norm = norm
pick_each ranged i (name ∷ names) norm =
    pick_each ranged (suc i) names (store_picked norm name (pick name (ranged i)))

-- normalizeHeaders; the names are sorted, so the order in which they are collected does not show
unfoldable pub normalize_headers : Ranging → (site : ℕ) → TextMap Text → TextMap Text
unfolding pick_each sort_by
normalize_headers rg site h =
    pick_each (λ i. rg.range site i h) 0 (sort_by bytes_less (map header_name h)) []

abbrev when_any {ℓ κ} : {A : Type ℓ} {B : Type κ} → List A → B → Option B
when_any [] b = none
when_any (x ∷ xs) b = some b

abbrev pub canonical_request : Ranging → Option HttpRequestContext → Option CanonicalRequest
canonical_request rg none = none
canonical_request rg (some r) = some (record {
  method = to_upper (trim_space r.method);
  url = trim_space r.url;
  headers = normalize_headers rg 0 r.headers;
  body_summary = trim_space r.body_summary;
  body_length = r.body_length;
  is_authenticated = r.is_authenticated;
  auth_context_role = r.auth_context_role;
})

abbrev pub canonical_response : Ranging → Option HttpResponseContext → Option CanonicalResponse
canonical_response rg none = none
canonical_response rg (some r) = some (record {
  status_code = r.status_code;
  headers = normalize_headers rg 1 r.headers;
  body_snippet = trim_space r.body_snippet;
  body_length = r.body_length;
  body_hash = r.body_hash;
  content_type = to_lower (trim_space r.content_type);
})

abbrev canonical_dns : Option DnsContext → Option CanonicalDns
canonical_dns none = none
canonical_dns (some d) = some (record {
  hostname = to_lower (trim_space d.hostname);
  ip_addresses = sort_by bytes_less d.ip_addresses;
  cnames = sort_by bytes_less d.cnames;
})

-- buildCanonicalMap
unfoldable pub build_canonical_map : Ranging → Evidence → CanonicalMap
unfolding normalize_headers to_upper
build_canonical_map rg ev = record {
  target_id = ev.target_id;
  asset_id = ev.asset_id;
  observation_id = ev.observation_id;
  source = ev.source;
  evidence_type = ev.evidence_type;
  summary = trim_space ev.summary;
  status_code = ev.status_code;
  request = canonical_request rg ev.request;
  response = canonical_response rg ev.response;
  relevant_headers = when_any ev.relevant_headers (normalize_headers rg 2 ev.relevant_headers);
  redirect_chain = when_any ev.redirect_chain ev.redirect_chain;
  dns_context = canonical_dns ev.dns_context;
  scope_decision = record {
    is_in_scope = ev.scope_decision.is_in_scope;
    evaluated_host = to_lower (trim_space ev.scope_decision.evaluated_host);
    rule_matched = ev.scope_decision.rule_matched;
  };
  provenance = record {
    source = ev.provenance.source;
    operation_id = ev.provenance.operation_id;
    target_id = ev.provenance.target_id;
    asset_id = ev.provenance.asset_id;
    initiator = ev.provenance.initiator;
  };
}

-- json.Marshal of the map, none where it fails, and the hexadecimal SHA-256 of a text
pub record Digest : Type 0 where
  pub marshal : CanonicalMap → Option Text
  pub sha256_hex : Text → Text

-- CanonicalizeAndHash of evidence that is not nil: the evidence with its two fields set, and the hash
unfoldable pub canonicalize_and_hash : Digest → Ranging → Evidence → Option (Evidence × Text)
unfolding build_canonical_map
canonicalize_and_hash dg rg ev = elim (dg.marshal (build_canonical_map rg ev)) [
  | none ↦ none
  | some canonical ↦
      let hash = dg.sha256_hex canonical in
      some (record ev { canonical_representation = canonical; sha256 = hash }, hash)
]
