-- ===== src/Evidence/Engine/Contradiction.antt =====
-- engine.go: EvaluateContradiction.
pub mod Verdicts
use nexus_hunter_ai.Prelude.{
  ℕ, String, ◌==◌, eq_iff, Bool, true, false, ◌&&◌, ◌||◌, Option, none, some, List, [], ◌∷◌, ◌++◌,
  Result, ok, err, ◌≡◌, inl, inr, refl, if◌then◌else◌, arith, Bool-cases, if-cases,
}
use nexus_hunter_ai.Prelude.Texts.{Text, codes, is_empty, trim_space}
use nexus_hunter_ai.Evidence.Store.{
  EvidenceStore, EvidenceTimelineEvent, SecurityContradiction, SecurityExpectation, plain,
}
use nexus_hunter_ai.Evidence.Engine.{
  EngineError, derived_by, expectation_nil, fields_required, evidence_refs_required,
  save_contradiction_failed, timeline_failed, saved, saved-ok,
}

-- models.EpistemicObservationState
abbrev pub present : String
present = "PRESENT"

abbrev pub absent : String
absent = "ABSENT"

abbrev pub not_observed : String
not_observed = "NOT_OBSERVED"

-- models.ContradictionStatus
abbrev pub confirmed_deviation : String
confirmed_deviation = "CONFIRMED_DEVIATION"

-- what the chain of conditions sets
pub record Verdict : Type 0 where
  pub con_type : String
  pub status : String
  pub severity : String
  pub explanation : Text
  pub followup : List Text

abbrev quoted : Text → Text
quoted t = codes "'" ++ (t ++ codes "'")

-- the deterministic evaluation of two states that differ
unfoldable pub verdict_of : SecurityExpectation → (observed : String) → Verdict
verdict_of expected observed =
    if expected.expected_state == present && observed == absent
    then record {
      con_type = "SECURITY_CONTROL_CONTRADICTION";
      status = confirmed_deviation;
      severity = "HIGH";
      explanation =
          codes "Security control "
          ++ (quoted expected.control_name
              ++ (codes " is expected (Source: "
                  ++ (codes expected.source
                      ++ codes ") but was confirmed ABSENT in observed response.")));
      followup =
          codes "Verify if an alternative authentication or boundary control applies."
          ∷ codes "Confirm if endpoint is deprecated or inadvertently exposed."
          ∷ [];
    }
    else if expected.expected_state == present && observed == not_observed
    then record {
      con_type = "SECURITY_CONTROL_CONTRADICTION";
      status = "UNVERIFIED";
      severity = "MEDIUM";
      explanation =
          codes "Security control "
          ++ (quoted expected.control_name
              ++ codes
                  " was NOT OBSERVED in current evidence. Note: 'Not observed' does not establish absence; safe verification probe required.");
      followup =
          (codes
              "Perform controlled, authorized observation specifically verifying the presence of "
            ++ expected.control_name)
          ∷ codes "Check whether the control is enforced at an outer proxy or downstream gateway."
          ∷ [];
    }
    else if expected.expected_state == absent && observed == present
    then record {
      con_type = "TRUST_BOUNDARY_CONTRADICTION";
      status = confirmed_deviation;
      severity = "HIGH";
      explanation =
          codes "Control/Feature "
          ++ (quoted expected.control_name
              ++ codes " expected to be absent/restricted, but was observed PRESENT.");
      followup = codes "Examine if internal functionality is leaking past the trust boundary." ∷ [];
    }
    else record {
      con_type = "BEHAVIORAL_CONTRADICTION";
      status = "INVESTIGATING";
      severity = "LOW";
      explanation =
          codes "Expected state "
          ++ (quoted (codes expected.expected_state)
              ++ (codes " contradicts observed state "
                  ++ (quoted (codes observed)
                      ++ (codes " for " ++ (quoted expected.control_name ++ codes ".")))));
      followup = codes "Inspect telemetry and peer endpoint baseline." ∷ [];
    }

-- the record of a contradiction; `at` is the current time
unfoldable pub contradiction_of :
    (id : String) (at : ℕ) (target_id asset_id : String) (endpoint : Text)
    → SecurityExpectation
    → (observed : String) (refs : List String) → SecurityContradiction
unfolding verdict_of
contradiction_of id at target_id asset_id endpoint expected observed refs =
    let verdict = verdict_of expected observed in
    record {
      id = id;
      target_id = target_id;
      asset_id = asset_id;
      endpoint = endpoint;
      contradiction_type = verdict.con_type;
      status = verdict.status;
      severity = verdict.severity;
      title = codes "Contradiction: " ++ (expected.control_name ++ (codes " on " ++ endpoint));
      description = expected.description;
      expectation_id = expected.id;
      observed_state = observed;
      evidence_refs = refs;
      explanation = verdict.explanation;
      suggested_followup = verdict.followup;
      created_at = at;
      updated_at = at;
    }

abbrev flagged_event : String → SecurityContradiction → EvidenceTimelineEvent
flagged_event id con = record {
  id = id;
  target_id = con.target_id;
  asset_id = con.asset_id;
  event_type = "CONTRADICTION_FLAGGED";
  summary = plain con.title;
  epistemic_status = "INFERRED";
  timestamp = con.created_at;
  provenance = derived_by "contradiction_engine" con.id con.target_id con.asset_id con.created_at;
  reference_id = con.id;
}

abbrev pub no_refs : List String → Bool
no_refs [] = true
no_refs (r ∷ rs) = false

abbrev pub is_blank : Text → Bool
is_blank t = is_empty (trim_space t)

module _ (S : EvidenceStore) where
  abbrev pub persist_contradiction :
      String
      → Option S.State
      → SecurityContradiction
      → Option S.State × Result EngineError (Option SecurityContradiction)
  persist_contradiction timeline_id none con = (none, ok (some con))
  persist_contradiction timeline_id (some s) con =
      saved S s (S.save_security_contradiction s con) save_contradiction_failed (λ s₁.
        saved S s₁ (S.record_timeline_event s₁ (flagged_event timeline_id con)) timeline_failed
          (λ s₂. (some s₂, ok (some con))))

  -- EvaluateContradiction; the result is none where the states agree
  unfoldable pub evaluate_contradiction :
      (new_id timeline_id : String) (now : ℕ) (target_id asset_id : String) (endpoint : Text)
      → Option SecurityExpectation
      → (observed : String) (refs : List String) → Option S.State
      → Option S.State × Result EngineError (Option SecurityContradiction)
  unfolding contradiction_of
  evaluate_contradiction new_id timeline_id now target_id asset_id endpoint none observed refs
        store =
      (store, err expectation_nil)
  evaluate_contradiction new_id timeline_id now target_id asset_id endpoint (some expected) observed
        refs store =
      if is_blank (codes target_id) || is_blank (codes asset_id) || is_blank endpoint
      then (store, err fields_required)
      else if no_refs refs
      then (store, err evidence_refs_required)
      else if expected.expected_state == observed
      then (store, ok none)
      else persist_contradiction timeline_id store
          (contradiction_of new_id now target_id asset_id endpoint expected observed refs)
