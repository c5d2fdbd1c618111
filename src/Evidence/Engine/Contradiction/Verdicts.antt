-- ===== src/Evidence/Engine/Contradiction/Verdicts.antt =====
-- engine.go: which contradictions EvaluateContradiction confirms.
use nexus_hunter_ai.Prelude.{
  ℕ, String, ◌==◌, eq_iff, Bool, true, false, ◌&&◌, ◌||◌, Option, none, some, List, ok, ◌≡◌, inl,
  inr, refl, arith, Bool-cases, if-cases,
}
use nexus_hunter_ai.Prelude.Texts.{Text, codes}
use nexus_hunter_ai.Evidence.Store.{EvidenceStore, SecurityContradiction, SecurityExpectation}
use nexus_hunter_ai.Evidence.Engine.{saved-ok}
use nexus_hunter_ai.Evidence.Engine.Contradiction.{
  present, absent, not_observed, confirmed_deviation, verdict_of, contradiction_of,
  persist_contradiction, no_refs, is_blank, evaluate_contradiction,
}

-- one of the two states is PRESENT and the other ABSENT
abbrev pub is_opposed : (expected observed : String) → Bool
is_opposed e o = (e == present && o == absent) || (e == absent && o == present)

-- what a verdict says of two states
abbrev pub Weighs : (expected observed : String) → (status severity : String) → Type 0
Weighs e o status severity =
    ((status == confirmed_deviation) ≡ is_opposed e o) × ((severity == "HIGH") ≡ is_opposed e o)

unseen_not_opposed :
    (e o : String) → (e == present && o == not_observed) ≡ true → is_opposed e o ≡ false
unseen_not_opposed e o h =
    rw ((eq_iff e present).0 (ground arith), (eq_iff o not_observed).0 (ground arith)) refl

verdict-Weighs :
    (expected : SecurityExpectation) (observed : String)
    → Weighs expected.expected_state observed
        (verdict_of expected observed).status
        (verdict_of expected observed).severity
unfolding verdict_of
verdict-Weighs expected observed =
    elim (Bool-cases (expected.expected_state == present && observed == absent)) [
      | inl b ↦ rw (verdict_of, b) (refl, refl)
      | inr n ↦ elim (Bool-cases (expected.expected_state == present && observed == not_observed)) [
        | inl b ↦
            rw (unseen_not_opposed expected.expected_state observed b, verdict_of, n, b)
              (refl, refl)
        | inr n₂ ↦ elim (Bool-cases (expected.expected_state == absent && observed == present)) [
          | inl b ↦ rw (verdict_of, n, n₂, b) (refl, refl)
          | inr n₃ ↦ rw (verdict_of, n, n₂, n₃) (refl, refl)
        ]
      ]
    ]

contradiction_of-Weighs :
    (id : String) (at : ℕ) (target_id asset_id : String) (endpoint : Text)
    (expected : SecurityExpectation) (observed : String) (refs : List String)
    → (let con = contradiction_of id at target_id asset_id endpoint expected observed refs in
        Weighs expected.expected_state observed con.status con.severity)
unfolding contradiction_of
contradiction_of-Weighs id at target_id asset_id endpoint expected observed refs =
    verdict-Weighs expected observed

module _ (S : EvidenceStore) where
  persisted :
      (timeline_id : String) (store store' : Option S.State) (con : SecurityContradiction)
      {r : Option SecurityContradiction}
      → persist_contradiction S timeline_id store con ≡ (store', ok r)
      → r ≡ some con
  persisted timeline_id none store' con h = cc h
  persisted timeline_id (some s) store' con h =
      let (s₁, w₁, h₁) = saved-ok S s (S.save_security_contradiction s con) _ _ h in
      let (s₂, w₂, h₂) = saved-ok S s₁ (S.record_timeline_event s₁ _) _ _ h₁ in cc h₂

  -- A contradiction that EvaluateContradiction returns is a confirmed deviation exactly if one of the
  -- expected and the observed state is PRESENT and the other ABSENT, and exactly then its severity is
  -- HIGH: a control that was merely NOT_OBSERVED never counts as absent.
  pub evaluate_contradiction-Weighs :
      (new_id timeline_id : String) (now : ℕ) (target_id asset_id : String) (endpoint : Text)
      (expected : SecurityExpectation) (observed : String) (refs : List String)
      (store store' : Option S.State) (con : SecurityContradiction)
      → evaluate_contradiction S new_id timeline_id now target_id asset_id endpoint
          (some expected)
          observed
          refs
          store
        ≡ (store', ok (some con))
      → Weighs expected.expected_state observed con.status con.severity
  unfolding evaluate_contradiction
  evaluate_contradiction-Weighs new_id timeline_id now target_id asset_id endpoint expected observed
        refs store store' con h =
      elim (if-cases (is_blank (codes target_id) || is_blank (codes asset_id) || is_blank endpoint)
        h) [
          | inl e ↦ absurd (cc (e.1))
          | inr (_, h₁) ↦ elim (if-cases (no_refs refs) h₁) [
            | inl e ↦ absurd (cc (e.1))
            | inr (_, h₂) ↦ elim (if-cases (expected.expected_state == observed) h₂) [
              | inl e ↦ absurd (cc (e.1))
              | inr (_, h₃) ↦
                  let made =
                    contradiction_of new_id now target_id asset_id endpoint expected observed
                      refs in
                  let same : con ≡ made = cc (persisted timeline_id store store' made h₃) in
                  rw same (
                    contradiction_of-Weighs new_id now target_id asset_id endpoint expected observed
                      refs)
            ]
          ]
        ]
