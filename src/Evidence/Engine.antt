-- ===== src/Evidence/Engine.antt =====
-- engine.go: the Engine over a store that may be absent. An operation gives the store as it leaves it,
-- also when it fails midway, with its result. New identifiers and the current time are arguments;
-- logging is left out.
pub mod Integrity
pub mod Contradiction
pub mod Comparison
pub mod Interest
use nexus_hunter_ai.Prelude.{
  ℕ, String, ◌==◌, Bool, true, false, not, ◌&&◌, ◌||◌, Option, none, some, List, Result, ok, err,
  if◌then◌else◌, ◌≡◌, refl,
}
use nexus_hunter_ai.Prelude.Texts.{Text, text_eq, is_empty}
use nexus_hunter_ai.Evidence.Data.{Evidence, EvidenceDiff, EvidenceProvenance}
use nexus_hunter_ai.Evidence.Redactor.{Redactor}
use nexus_hunter_ai.Evidence.Sanitize.{sanitize}
use nexus_hunter_ai.Evidence.Canonical.{Digest, Ranging, canonicalize_and_hash}
use nexus_hunter_ai.Evidence.Diff.{compute_diff}
use nexus_hunter_ai.Evidence.Store.{
  EvidenceStore, EvidenceTimelineEvent, TimelineSummary, plain, meaning_of,
}

-- what an operation returns as an error
pub data EngineError : Type 0 where
  storage_not_configured canonicalize_failed save_evidence_failed timeline_failed : EngineError
  evidence_a_missing evidence_b_missing target_mismatch_prohibited save_diff_failed : EngineError
  expectation_nil fields_required evidence_refs_required save_contradiction_failed : EngineError
  evidence_not_found : EngineError

pub record EvidenceIntegrityResult : Type 0 where
  pub evidence_id : String
  pub original_sha256 : Text
  pub computed_sha256 : Text
  pub is_tampered : Bool
  pub verified_at : ℕ
  pub canonical_matches : Bool

abbrev or_now : Option ℕ → ℕ → Option ℕ
or_now none now = some now
or_now (some t) now = some t

abbrev time_of : Option ℕ → ℕ
time_of none = 0
time_of (some t) = t

-- the identifier and the time of capture, where they are missing
unfoldable pub with_identity : (new_id : String) (now : ℕ) → Evidence → Evidence
with_identity new_id now raw = record raw {
  id = if raw.id == "" then new_id else raw.id;
  captured_at = or_now raw.captured_at now;
}

abbrev collected_event : String → Evidence → EvidenceTimelineEvent
collected_event id ev = record {
  id = id;
  target_id = ev.target_id;
  asset_id = ev.asset_id;
  event_type = "EVIDENCE_COLLECTED";
  summary = plain ev.summary;
  epistemic_status = "OBSERVED";
  timestamp = time_of ev.captured_at;
  provenance = ev.provenance;
  reference_id = ev.id;
}

-- the provenance of what the engine derives itself
abbrev pub derived_by :
    (initiator operation_id target_id asset_id : String) (at : ℕ) → EvidenceProvenance
derived_by initiator operation_id target_id asset_id at = record {
  source = "DIFFERENTIAL_ENGINE";
  operation_id = operation_id;
  target_id = target_id;
  asset_id = asset_id;
  captured_at = at;
  initiator = initiator;
}

abbrev computed_event : String → EvidenceDiff → EvidenceTimelineEvent
computed_event id diff = record {
  id = id;
  target_id = diff.target_id;
  asset_id = diff.asset_id;
  event_type = "DIFF_COMPUTED";
  summary = meaning_of diff.semantic_diff.meaning;
  epistemic_status = "DERIVED";
  timestamp = diff.computed_at;
  provenance =
      derived_by "differential_engine" diff.id diff.target_id diff.asset_id diff.computed_at;
  reference_id = diff.id;
}

-- the comparison of the stored hash with the computed one
abbrev pub integrity_of : (now : ℕ) → Evidence → (computed : Text) → EvidenceIntegrityResult
integrity_of now ev computed =
    let tampered = not (is_empty ev.sha256) && not (text_eq ev.sha256 computed) in
    record {
      evidence_id = ev.id;
      original_sha256 = ev.sha256;
      computed_sha256 = computed;
      is_tampered = tampered;
      verified_at = now;
      canonical_matches = not tampered;
    }

module _ (S : EvidenceStore) where
  -- the new store with a result, or the old one with an error
  abbrev pub saved {ℓ} :
      {A : Type ℓ}
      → S.State
      → Option S.State
      → EngineError
      → (S.State → Option S.State × Result EngineError A)
      → Option S.State × Result EngineError A
  saved s none error next = (some s, err error)
  saved s (some s') error next = next s'

  -- An operation that ends well went through each write on its way.
  pub saved-ok {ℓ} :
      {A : Type ℓ} (s : S.State) (written : Option S.State) (error : EngineError)
      (next : S.State → Option S.State × Result EngineError A) {end : Option S.State} {a : A}
      → saved s written error next ≡ (end, ok a)
      → (s' : S.State) × (written ≡ some s') × (next s' ≡ (end, ok a))
  saved-ok s none error next h = absurd (cc h)
  saved-ok s (some s') error next h = (s', refl, h)

  -- persistence of hashed evidence, with its event on the timeline
  unfoldable pub persist_evidence :
      (timeline_id : String)
      → Option S.State
      → Evidence
      → Option S.State × Result EngineError Evidence
  persist_evidence timeline_id none ev = (none, ok ev)
  persist_evidence timeline_id (some s) ev =
      saved s (S.save_evidence s ev) save_evidence_failed (λ s₁.
        saved s₁ (S.record_timeline_event s₁ (collected_event timeline_id ev)) timeline_failed
          (λ s₂. (some s₂, ok ev)))

  -- RecordEvidence of evidence that is not nil
  unfoldable pub record_evidence :
      Redactor
      → Digest
      → Ranging
      → (new_id timeline_id : String) (now : ℕ) → Option S.State
      → Evidence
      → Option S.State × Result EngineError Evidence
  unfolding with_identity sanitize canonicalize_and_hash persist_evidence
  record_evidence rx dg rg new_id timeline_id now store raw =
      elim (canonicalize_and_hash dg rg (sanitize rx now (with_identity new_id now raw))) [
        | none ↦ (store, err canonicalize_failed)
        | some hashed ↦
            persist_evidence timeline_id store
              (record hashed.0 { integrity_hash = hashed.1; sha256 = hashed.1 })
      ]

  abbrev pub persist_diff :
      String → S.State → EvidenceDiff → Option S.State × Result EngineError EvidenceDiff
  persist_diff timeline_id s diff = saved s (S.save_evidence_diff s diff) save_diff_failed (λ s₁.
      saved s₁ (S.record_timeline_event s₁ (computed_event timeline_id diff)) timeline_failed
        (λ s₂. (some s₂, ok diff)))

  -- the two items that were looked up, compared
  unfoldable pub compare_found :
      (new_id timeline_id : String) (now : ℕ) (filter_noise : Bool)
      → S.State
      → (a b : Option Evidence) → Option S.State × Result EngineError EvidenceDiff
  unfolding compute_diff
  compare_found new_id timeline_id now filter_noise s none b = (some s, err evidence_a_missing)
  compare_found new_id timeline_id now filter_noise s (some a) none =
      (some s, err evidence_b_missing)
  compare_found new_id timeline_id now filter_noise s (some a) (some b) =
      if a.target_id == b.target_id
      then persist_diff timeline_id s (compute_diff new_id now a b filter_noise)
      else (some s, err target_mismatch_prohibited)

  -- CompareEvidence
  unfoldable pub compare_evidence :
      (new_id timeline_id : String) (now : ℕ) (a_id b_id : String) (filter_noise : Bool)
      → Option S.State
      → Option S.State × Result EngineError EvidenceDiff
  unfolding compare_found
  compare_evidence new_id timeline_id now a_id b_id filter_noise none =
      (none, err storage_not_configured)
  compare_evidence new_id timeline_id now a_id b_id filter_noise (some s) =
      compare_found new_id timeline_id now filter_noise s (S.get_evidence s a_id)
        (S.get_evidence s b_id)

  -- VerifyEvidenceIntegrity
  unfoldable pub verify_evidence_integrity :
      Digest
      → Ranging
      → (now : ℕ) → Option S.State
      → String
      → Result EngineError EvidenceIntegrityResult
  unfolding canonicalize_and_hash
  verify_evidence_integrity dg rg now none id = err storage_not_configured
  verify_evidence_integrity dg rg now (some s) id = elim (S.get_evidence s id) [
    | none ↦ err evidence_not_found
    | some ev ↦ elim (canonicalize_and_hash dg rg ev) [
      | none ↦ err canonicalize_failed
      | some hashed ↦ ok (integrity_of now ev hashed.1)
    ]
  ]
