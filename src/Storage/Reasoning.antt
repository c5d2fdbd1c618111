-- ===== src/Storage/Reasoning.antt =====
-- memory.go: the reasoning repository; here its signals, hypotheses and groups.
pub mod Data
pub mod Investigations
pub mod Guards
use nexus_hunter_ai.Prelude.{
  ℕ, String, ◌==◌, Bool, true, false, not, ◌&&◌, ◌||◌, Option, none, some, List, [], ◌∷◌, ◌++◌, map,
  filter, ltb, Result, ok, err, if◌then◌else◌,
}
use nexus_hunter_ai.Prelude.Maps.{Map, find, put, values}
use nexus_hunter_ai.Prelude.Sorts.{sort_by}
use nexus_hunter_ai.Storage.Data.{StorageError, looked_up, not_found, invalid_state}
use nexus_hunter_ai.Storage.Upserts.{listed}
use nexus_hunter_ai.Storage.Reasoning.Data.{
  EvidenceRequirement, FalsificationCondition, Hypothesis, HypothesisGroup, ReasoningMemory,
  ReasoningSignal, or_now,
}

-- `if wanted != "" && given != wanted { continue }`
abbrev pub is_asked : (wanted given : String) → Bool
is_asked wanted given = wanted == "" || given == wanted

unfoldable pub save_reasoning_signal :
    (now : ℕ) → ReasoningSignal → ReasoningMemory → ReasoningMemory
save_reasoning_signal now sig m = record m {
  signals =
      put m.signals sig.id
        (record sig { created_at = or_now sig.created_at now; updated_at = now });
}

unfoldable pub get_reasoning_signal : String → ReasoningMemory → Result StorageError ReasoningSignal
get_reasoning_signal id m = looked_up (find m.signals id) ok

unfoldable pub list_reasoning_signals :
    (target_id asset_id : String) → ReasoningMemory → List ReasoningSignal
unfolding sort_by
list_reasoning_signals target_id asset_id m =
    sort_by (λ a b. ltb b.created_at a.created_at)
      (filter (λ s. is_asked target_id s.target_id && is_asked asset_id s.asset_id)
        (values m.signals))

unfoldable pub update_signal_status :
    (now : ℕ) (id status : String) → ReasoningMemory → Result StorageError ReasoningMemory
update_signal_status now id status m = looked_up (find m.signals id) λ sig.
    ok (record m { signals = put m.signals id (record sig { status = status; updated_at = now }) })

unfoldable pub copy_falsifications :
    (hypothesis_id : String) → ReasoningMemory → List FalsificationCondition
copy_falsifications id m = listed (find m.falsifications id)

unfoldable pub copy_requirements :
    (hypothesis_id : String) → ReasoningMemory → List EvidenceRequirement
copy_requirements id m = listed (find m.requirements id)

-- a hypothesis with the conditions and requirements stored under its identifier
unfoldable pub with_parts : (id : String) → ReasoningMemory → Hypothesis → Hypothesis
unfolding copy_falsifications copy_requirements
with_parts id m hyp = record hyp {
  falsification_conditions = copy_falsifications id m;
  missing_evidence = copy_requirements id m;
}

-- the loop that appends to the slice under an identifier; a map is left alone where there is nothing
-- to append
unfoldable pub append_all {ℓ} : {A : Type ℓ} → Map (List A) → String → List A → Map (List A)
append_all m id [] = m
append_all m id (x ∷ xs) = put m id (listed (find m id) ++ x ∷ xs)

-- SaveHypothesis
unfoldable pub save_hypothesis : (now : ℕ) → Hypothesis → ReasoningMemory → ReasoningMemory
unfolding append_all
save_hypothesis now hyp m = record m {
  hypotheses =
      put m.hypotheses hyp.id
        (record hyp { created_at = or_now hyp.created_at now; updated_at = now });
  falsifications = append_all m.falsifications hyp.id hyp.falsification_conditions;
  requirements = append_all m.requirements hyp.id hyp.missing_evidence;
}

-- GetHypothesis
unfoldable pub get_hypothesis : String → ReasoningMemory → Result StorageError Hypothesis
unfolding with_parts
get_hypothesis id m = looked_up (find m.hypotheses id) λ hyp. ok (with_parts id m hyp)

unfoldable pub list_hypotheses : (target_id : String) → ReasoningMemory → List Hypothesis
unfolding with_parts sort_by
list_hypotheses target_id m =
    sort_by (λ a b. ltb b.investigation_priority a.investigation_priority)
      (map (λ hyp. with_parts hyp.id m hyp)
        (filter (λ hyp. is_asked target_id hyp.target_id) (values m.hypotheses)))

unfoldable pub list_hypotheses_by_group : (group_id : String) → ReasoningMemory → List Hypothesis
unfolding with_parts
list_hypotheses_by_group group_id m =
    map (λ hyp. with_parts hyp.id m hyp)
      (filter (λ hyp. hyp.group_id == group_id) (values m.hypotheses))

unfoldable pub update_hypothesis_status :
    (now : ℕ) (id status : String) → ReasoningMemory → Result StorageError ReasoningMemory
update_hypothesis_status now id status m = looked_up (find m.hypotheses id) λ hyp. ok (record m {
  hypotheses = put m.hypotheses id (record hyp { status = status; updated_at = now });
})

-- UpdateHypothesisStatusWithGuard
unfoldable pub update_hypothesis_status_with_guard :
    (now : ℕ) (id expected new : String) → ReasoningMemory → Result StorageError ReasoningMemory
update_hypothesis_status_with_guard now id expected new m = looked_up (find m.hypotheses id) λ hyp.
    if not (hyp.status == expected)
    then err invalid_state
    else ok (record m {
      hypotheses = put m.hypotheses id (record hyp { status = new; updated_at = now });
    })

unfoldable pub save_hypothesis_group :
    (now : ℕ) → HypothesisGroup → ReasoningMemory → ReasoningMemory
save_hypothesis_group now group m = record m {
  groups =
      put m.groups group.id
        (record group { created_at = or_now group.created_at now; updated_at = now });
}

-- a group with the stored hypotheses of the group appended to its own
unfoldable pub populated : ReasoningMemory → HypothesisGroup → HypothesisGroup
unfolding list_hypotheses_by_group
populated m group = record group {
  hypotheses = group.hypotheses ++ list_hypotheses_by_group group.id m;
}

unfoldable pub get_hypothesis_group : String → ReasoningMemory → Result StorageError HypothesisGroup
unfolding populated
get_hypothesis_group id m = looked_up (find m.groups id) λ group. ok (populated m group)

unfoldable pub list_hypothesis_groups :
    (target_id : String) → ReasoningMemory → List HypothesisGroup
unfolding populated sort_by
list_hypothesis_groups target_id m =
    sort_by (λ a b. ltb b.created_at a.created_at)
      (map (populated m) (filter (λ g. is_asked target_id g.target_id) (values m.groups)))

unfoldable pub save_falsification_condition :
    FalsificationCondition → ReasoningMemory → ReasoningMemory
unfolding append_all
save_falsification_condition cond m = record m {
  falsifications = append_all m.falsifications cond.hypothesis_id (cond ∷ []);
}

unfoldable pub list_falsification_conditions :
    (hypothesis_id : String) → ReasoningMemory → List FalsificationCondition
list_falsification_conditions hypothesis_id m = listed (find m.falsifications hypothesis_id)

unfoldable pub save_evidence_requirement :
    (now : ℕ) → EvidenceRequirement → ReasoningMemory → ReasoningMemory
unfolding append_all
save_evidence_requirement now req m = record m {
  requirements =
      append_all m.requirements req.hypothesis_id
        (record req { created_at = or_now req.created_at now } ∷ []);
}

unfoldable pub list_evidence_requirements :
    (hypothesis_id : String) → ReasoningMemory → List EvidenceRequirement
list_evidence_requirements hypothesis_id m = listed (find m.requirements hypothesis_id)

-- the inner loop of UpdateEvidenceRequirementStatus: none where no requirement has the identifier
unfoldable pub mark_requirement :
    (id status ref : String) → List EvidenceRequirement → Option (List EvidenceRequirement)
mark_requirement id status ref [] = none
mark_requirement id status ref (req ∷ reqs) =
    if req.id == id
    then some (
        record req {
          status = status;
          satisfied_by_ref = if ref == "" then req.satisfied_by_ref else ref;
        }
        ∷ reqs)
    else elim (mark_requirement id status ref reqs) [ none ↦ none | some rest ↦ some (req ∷ rest) ]

-- its outer loop, over the map
unfoldable pub mark_in_map :
    (id status ref : String)
    → Map (List EvidenceRequirement)
    → Option (Map (List EvidenceRequirement))
unfolding mark_requirement
mark_in_map id status ref [] = none
mark_in_map id status ref (e ∷ m) = elim (mark_requirement id status ref e.1) [
  | some marked ↦ some ((e.0, marked) ∷ m)
  | none ↦ elim (mark_in_map id status ref m) [ none ↦ none | some rest ↦ some (e ∷ rest) ]
]

-- UpdateEvidenceRequirementStatus
unfoldable pub update_evidence_requirement_status :
    (id status ref : String) → ReasoningMemory → Result StorageError ReasoningMemory
unfolding mark_in_map
update_evidence_requirement_status id status ref m =
    looked_up (mark_in_map id status ref m.requirements)
      λ marked. ok (record m { requirements = marked })
