-- ===== src/Evidence/Engine/Comparison.antt =====
-- engine.go: which evidence CompareEvidence compares.
use nexus_hunter_ai.Prelude.{
  ℕ, String, ◌==◌, eq_iff, Bool, Option, none, some, ok, ◌≡◌, refl, inl, inr, if-cases,
}
use nexus_hunter_ai.Evidence.Data.{Evidence, EvidenceDiff}
use nexus_hunter_ai.Evidence.Diff.{compute_diff}
use nexus_hunter_ai.Evidence.Store.{EvidenceStore}
use nexus_hunter_ai.Evidence.Engine.{compare_found, compare_evidence, persist_diff, saved-ok}

module _ (S : EvidenceStore) where
  persisted :
      (tid : String) (s : S.State) (made diff : EvidenceDiff) (store : Option S.State)
      → persist_diff S tid s made ≡ (store, ok diff)
      → diff ≡ made
  persisted tid s made diff store h =
      let (s₁, w₁, h₁) = saved-ok S s (S.save_evidence_diff s made) _ _ h in
      let (s₂, w₂, h₂) = saved-ok S s₁ (S.record_timeline_event s₁ _) _ _ h₁ in cc h₂

  found_same :
      (new_id tid : String) (now : ℕ) (noise : Bool) (s : S.State) (x y : Option Evidence)
      (store : Option S.State) (diff : EvidenceDiff)
      → compare_found S new_id tid now noise s x y ≡ (store, ok diff)
      → (a : Evidence) × (b : Evidence) × (x ≡ some a)
        × (y ≡ some b)
        × (a.target_id ≡ b.target_id)
        × (diff ≡ compute_diff new_id now a b noise)
  unfolding compare_found
  found_same new_id tid now noise s none y store diff h = absurd (cc h)
  found_same new_id tid now noise s (some a) none store diff h = absurd (cc h)
  found_same new_id tid now noise s (some a) (some b) store diff h =
      elim (if-cases (a.target_id == b.target_id) h) [
        | inl (same, h₁) ↦ (
          a,
          b,
          refl,
          refl,
          (eq_iff a.target_id b.target_id).0 same,
          persisted tid s (compute_diff new_id now a b noise) diff store h₁,
        )
        | inr (other, h₁) ↦ absurd (cc h₁)
      ]

  -- A comparison that CompareEvidence returns is the one that ComputeDiff makes of the two stored
  -- items, and these belong to the same target: no comparison crosses targets.
  pub compare_evidence-Same :
      (new_id timeline_id : String) (now : ℕ) (a_id b_id : String) (filter_noise : Bool)
      (s : S.State) (store : Option S.State) (diff : EvidenceDiff)
      → compare_evidence S new_id timeline_id now a_id b_id filter_noise (some s) ≡ (store, ok diff)
      → (a : Evidence) × (b : Evidence) × (S.get_evidence s a_id ≡ some a)
        × (S.get_evidence s b_id ≡ some b)
        × (a.target_id ≡ b.target_id)
        × (diff ≡ compute_diff new_id now a b filter_noise)
  unfolding compare_evidence
  compare_evidence-Same new_id timeline_id now a_id b_id filter_noise s store diff h =
      found_same new_id timeline_id now filter_noise s _ _ store diff h
