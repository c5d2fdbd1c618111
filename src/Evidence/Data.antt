-- ===== src/Evidence/Data.antt =====
-- models/evidence.go: the records of the evidence engine. Identifiers and states that are only compared
-- are native strings, what is trimmed or searched is a Text. The fields TLSMetadata,
-- ValidationContext, Metadata and Notes, which no modelled function reads, are left out.
use nexus_hunter_ai.Prelude.{ℕ, String, Bool, Option, List}
use nexus_hunter_ai.Prelude.Int.{ℤ}
use nexus_hunter_ai.Prelude.Texts.{Text}
use nexus_hunter_ai.Prelude.TextMaps.{TextMap}

pub record EvidenceProvenance : Type 0 where
  pub source : String
  pub operation_id : String
  pub target_id : String
  pub asset_id : String
  pub captured_at : ℕ
  pub initiator : String

pub record ScopeDecisionRecord : Type 0 where
  pub is_in_scope : Bool
  pub target_id : String
  pub evaluated_host : Text
  pub evaluated_url : Text
  pub rule_matched : Text
  pub reason : Text
  pub evaluated_at : ℕ

pub record RedactionStatusRecord : Type 0 where
  pub is_redacted : Bool
  pub redacted_fields : List Text
  pub sanitized_at : ℕ

pub record HttpRequestContext : Type 0 where
  pub method : Text
  pub url : Text
  pub headers : TextMap Text
  pub body_summary : Text
  pub body_length : ℕ
  pub is_authenticated : Bool
  pub auth_context_role : String

pub record HttpResponseContext : Type 0 where
  pub status_code : ℕ
  pub headers : TextMap Text
  pub body_snippet : Text
  pub body_length : ℕ
  pub body_hash : String
  pub content_type : Text
  pub response_time_ms : ℕ

pub record DnsContext : Type 0 where
  pub hostname : Text
  pub ip_addresses : List Text
  pub cnames : List Text
  pub ttl : ℕ

pub record Evidence : Type 0 where
  pub id : String
  pub target_id : String
  pub asset_id : String
  pub observation_id : String
  pub candidate_id : String
  pub source : String
  pub evidence_type : String
  pub summary : Text
  pub captured_at : Option ℕ
  pub status_code : ℕ
  pub request : Option HttpRequestContext
  pub response : Option HttpResponseContext
  pub relevant_headers : TextMap Text
  pub redirect_chain : List Text
  pub dns_context : Option DnsContext
  pub scope_decision : ScopeDecisionRecord
  pub redaction_status : Option RedactionStatusRecord
  pub canonical_representation : Text
  pub sha256 : Text
  pub integrity_hash : Text
  pub provenance : EvidenceProvenance

pub record Level1RawDiff : Type 0 where
  pub status_from : ℕ
  pub status_to : ℕ
  pub status_changed : Bool
  pub body_length_delta : ℤ
  pub body_hash_a : String
  pub body_hash_b : String
  pub body_hash_changed : Bool
  pub added_headers : TextMap Text
  pub removed_headers : TextMap Text
  pub modified_headers : TextMap Text
  pub response_time_delta : ℤ

-- the sentences of the field Meaning, with the numbers that they quote
pub data Meaning : Type 0 where
  restricted_to_accessible accessible_to_restricted status_shifted : ℕ → ℕ → Meaning
  body_mutated : ℤ → Meaning
  equivalent : Meaning

pub record Level2SemanticDiff : Type 0 where
  pub category : String
  pub meaning : Meaning
  pub auth_behavior_changed : Bool
  pub content_type_changed : Bool
  pub redirect_changed : Bool
  pub error_payload_detected : Bool

-- the sentences of the field RelevanceExplanation
pub data Relevance : Type 0 where
  no_deviation server_error redirect_mutated : Relevance
  differential_access : Text → ℕ → Text → ℕ → Relevance

pub record Level3SecurityDiff : Type 0 where
  pub context_a : String
  pub context_b : String
  pub relevance_explanation : Relevance
  pub requires_followup : Bool
  pub suggested_questions : List String

pub record EvidenceDiff : Type 0 where
  pub id : String
  pub target_id : String
  pub asset_id : String
  pub evidence_a_id : String
  pub evidence_b_id : String
  pub raw_diff : Level1RawDiff
  pub semantic_diff : Level2SemanticDiff
  pub security_diff : Level3SecurityDiff
  pub is_noise_filtered : Bool
  pub is_security_relevant : Bool
  pub computed_at : ℕ
