-- ===== src/Evidence/Engine/Integrity.antt =====
-- engine.go: what RecordEvidence stores and VerifyEvidenceIntegrity finds.
use nexus_hunter_ai.Prelude.{
  ℕ, String, true, false, Option, none, some, Result, ok, err, ◌≡◌, sym, ◌∙◌, refl, subst, inl, inr,
  Option-cases, Bool-cases, ap,
}
use nexus_hunter_ai.Prelude.Texts.{Text, is_empty, text_eq_refl}
use nexus_hunter_ai.Evidence.Data.{Evidence, RedactionStatusRecord}
use nexus_hunter_ai.Evidence.Redactor.{Redactor}
use nexus_hunter_ai.Evidence.Sanitize.{sanitize}
use nexus_hunter_ai.Evidence.Canonical.{Digest, Ranging, canonicalize_and_hash, build_canonical_map}
use nexus_hunter_ai.Evidence.Canonical.Ranges.{AgreeAll, build_canonical_map_same}
use nexus_hunter_ai.Evidence.Store.{EvidenceStore, IsLawful}
use nexus_hunter_ai.Evidence.Engine.{
  EngineError, canonicalize_failed, with_identity, EvidenceIntegrityResult, integrity_of,
  persist_evidence, record_evidence, saved-ok, verify_evidence_integrity,
}

-- evidence with the hash of its own canonical form in the two fields of the hash
abbrev IsHashed : Digest → Ranging → Evidence → Type 0
IsHashed dg rg ev =
    (canonical : Text) × (dg.marshal (build_canonical_map rg ev) ≡ some canonical)
    × (ev.sha256 ≡ dg.sha256_hex canonical)

-- the report on evidence whose stored hash is the computed one
abbrev pub untampered_result : (at : ℕ) → Evidence → EvidenceIntegrityResult
untampered_result at ev = record {
  evidence_id = ev.id;
  original_sha256 = ev.sha256;
  computed_sha256 = ev.sha256;
  is_tampered = false;
  verified_at = at;
  canonical_matches = true;
}

same_hash : (at : ℕ) (ev : Evidence) → integrity_of at ev ev.sha256 ≡ untampered_result at ev
same_hash at ev = elim (Bool-cases (is_empty ev.sha256)) [
  | inl e ↦ rw e refl
  | inr e ↦ rw (e, text_eq_refl ev.sha256) refl
]

module _ (S : EvidenceStore) (dg : Digest) (rg : Ranging) where
  hashed_verifies :
      (rg' : Ranging) (s : S.State) (id : String) (ev : Evidence) (now : ℕ)
      → S.get_evidence s id ≡ some ev
      → AgreeAll ev
      → IsHashed dg rg ev
      → verify_evidence_integrity S dg rg' now (some s) id ≡ ok (untampered_result now ev)
  unfolding verify_evidence_integrity canonicalize_and_hash
  hashed_verifies rg' s id ev now found agree (canonical, marshaled, hash) =
      let again : dg.marshal (build_canonical_map rg' ev) ≡ some canonical =
        ap dg.marshal (build_canonical_map_same rg' rg ev agree) ∙ marshaled in
      rw (verify_evidence_integrity, found, canonicalize_and_hash, again, ← hash)
        (ap ok (same_hash now ev))

  -- what persist_evidence does with hashed evidence, where it succeeds
  persisted :
      IsLawful S
      → (tid : String) (s : S.State) (ev out : Evidence) (store : Option S.State)
      → persist_evidence S tid (some s) ev ≡ (store, ok out)
      → (s' : S.State) × (store ≡ some s') × (S.get_evidence s' out.id ≡ some out) × (out ≡ ev)
  unfolding persist_evidence
  persisted law tid s ev out store h =
      let (s₁, w₁, h₁) = saved-ok S s (S.save_evidence s ev) _ _ h in
      let (s₂, w₂, h₂) = saved-ok S s₁ (S.record_timeline_event s₁ _) _ _ h₁ in
      (s₂, cc h₂, cc (h₂, law.get-save s s₁ ev w₁, law.get-timeline s₁ s₂ _ ev.id w₂), cc h₂)

  -- the canonical form and its hash, then the store
  unfoldable hash_and_persist :
      String → S.State → Evidence → Option Text → Option S.State × Result EngineError Evidence
  hash_and_persist tid s ev none = (some s, err canonicalize_failed)
  hash_and_persist tid s ev (some c) = persist_evidence S tid (some s) (record ev {
    canonical_representation = c;
    integrity_hash = dg.sha256_hex c;
    sha256 = dg.sha256_hex c;
  })

  stored-IsHashed :
      IsLawful S
      → (tid : String) (s : S.State) (ev out : Evidence) (store : Option S.State) (m : Option Text)
      → dg.marshal (build_canonical_map rg ev) ≡ m
      → hash_and_persist tid s ev m ≡ (store, ok out)
      → (s' : S.State) × (store ≡ some s')
        × (S.get_evidence s' out.id ≡ some out)
        × IsHashed dg rg out
  unfolding build_canonical_map hash_and_persist
  stored-IsHashed law tid s ev out store none e h = absurd (cc h)
  stored-IsHashed law tid s ev out store (some c) e h =
      let (s', at, found, same) = persisted law tid s _ out store h in
      (s', at, found, subst (IsHashed dg rg) (sym same) (c, e, refl))

  record_evidence_lem :
      (rx : Redactor) (new_id tid : String) (now : ℕ) (s : S.State) (raw : Evidence)
      → (let ev = sanitize rx now (with_identity new_id now raw) in
          record_evidence S rx dg rg new_id tid now (some s) raw
          ≡ hash_and_persist tid s ev (dg.marshal (build_canonical_map rg ev)))
  unfolding record_evidence canonicalize_and_hash hash_and_persist
  record_evidence_lem rx new_id tid now s raw =
      elim (Option-cases
        (dg.marshal (build_canonical_map rg (sanitize rx now (with_identity new_id now raw))))) [
          | inl e ↦ rw (record_evidence, canonicalize_and_hash, e) refl
          | inr (c, e) ↦ rw (record_evidence, canonicalize_and_hash, e) refl
        ]

  recorded :
      IsLawful S
      → (rx : Redactor) (new_id tid : String) (now : ℕ) (s : S.State) (store : Option S.State)
        (raw out : Evidence)
      → record_evidence S rx dg rg new_id tid now (some s) raw ≡ (store, ok out)
      → (s' : S.State) × (store ≡ some s')
        × (S.get_evidence s' out.id ≡ some out)
        × IsHashed dg rg out
  recorded law rx new_id tid now s store raw out h =
      let ev = sanitize rx now (with_identity new_id now raw) in
      stored-IsHashed law tid s ev out store (dg.marshal (build_canonical_map rg ev)) refl
        (sym (record_evidence_lem rx new_id tid now s raw) ∙ h)

  -- Over a store that meets its laws, evidence that RecordEvidence stored, at whichever moment and with
  -- whichever identifiers, is found untampered by VerifyEvidenceIntegrity under the identifier that
  -- RecordEvidence returned, and the hash that is reported is the one in the returned record. The loops
  -- over headers may run in other orders then. The condition is that in the returned evidence headers
  -- whose names differ in case and outer spaces only have the same trimmed value.
  pub record_evidence-verify :
      IsLawful S
      → (rx : Redactor) (rg' : Ranging) (new_id timeline_id : String) (now later : ℕ) (s : S.State)
        (store : Option S.State) (raw out : Evidence)
      → AgreeAll out
      → record_evidence S rx dg rg new_id timeline_id now (some s) raw ≡ (store, ok out)
      → verify_evidence_integrity S dg rg' later store out.id ≡ ok (untampered_result later out)
  unfolding record_evidence canonicalize_and_hash
  record_evidence-verify law rx rg' new_id timeline_id now later s store raw out agree h =
      let (s', at, found, hashed) = recorded law rx new_id timeline_id now s store raw out h in
      rw at (hashed_verifies rg' s' out.id out later found agree hashed)

  -- Over a store that meets its laws: the hash does not cover the time of capture, the candidate, the
  -- redaction status and the stored canonical text, so when a later write changes them in evidence that
  -- RecordEvidence stored, VerifyEvidenceIntegrity still reports it as untampered, in whichever orders
  -- its loops run. The condition is that in the returned evidence headers whose names differ in case and
  -- outer spaces only have the same trimmed value.
  pub edit-verify :
      IsLawful S
      → (rx : Redactor) (rg' : Ranging) (new_id timeline_id : String) (now later : ℕ)
        (s s' s'' : S.State) (raw out : Evidence) (time : Option ℕ) (candidate : String)
        (status : Option RedactionStatusRecord) (text : Text)
      → AgreeAll out
      → record_evidence S rx dg rg new_id timeline_id now (some s) raw ≡ (some s', ok out)
      → S.save_evidence s' (record out {
        captured_at = time;
        candidate_id = candidate;
        redaction_status = status;
        canonical_representation = text;
      })
        ≡ some s''
      → verify_evidence_integrity S dg rg' later (some s'') out.id
        ≡ ok (untampered_result later out)
  unfolding build_canonical_map
  edit-verify law rx rg' new_id timeline_id now later s s' s'' raw out time candidate status text
        agree h w =
      let (t, at, found, hashed) = recorded law rx new_id timeline_id now s (some s') raw out h in
      hashed_verifies rg' s'' out.id _ later (law.get-save s' s'' _ w) agree hashed
