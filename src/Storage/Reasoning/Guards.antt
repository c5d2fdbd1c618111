-- ===== src/Storage/Reasoning/Guards.antt =====
-- memory.go: what two writers of one hypothesis see.
use nexus_hunter_ai.Prelude.{
  ℕ, String, ◌==◌, eq_refl, false, not, some, List, [], ◌∷◌, ◌++◌, ok, err, ◌≡◌, refl, sym, ap, ◌∙◌,
  append-nil, inl, inr, if-cases,
}
use nexus_hunter_ai.Prelude.Maps.{Map, find, put, find-put}
use nexus_hunter_ai.Storage.Data.{looked_up-ok, invalid_state}
use nexus_hunter_ai.Storage.Upserts.{listed}
use nexus_hunter_ai.Storage.Reasoning.Data.{Hypothesis, ReasoningMemory, or_now}
use nexus_hunter_ai.Storage.Reasoning.{
  append_all, copy_falsifications, copy_requirements, get_hypothesis, save_hypothesis,
  update_hypothesis_status_with_guard, with_parts,
}

refused :
    (later : ℕ) (id expected other : String) (m : ReasoningMemory) (hyp : Hypothesis)
    → find m.hypotheses id ≡ some hyp
    → (hyp.status == expected) ≡ false
    → update_hypothesis_status_with_guard later id expected other m ≡ err invalid_state
unfolding update_hypothesis_status_with_guard
refused later id expected other m hyp there apart =
    rw (update_hypothesis_status_with_guard, there, apart) refl

-- Of two writers that expect the same status of a hypothesis and set another one, the second is
-- refused with ErrInvalidState, whatever status it wants to set and whenever it comes.
pub guarded_once :
    (now later : ℕ) (id expected new other : String) (m m' : ReasoningMemory)
    → (new == expected) ≡ false
    → update_hypothesis_status_with_guard now id expected new m ≡ ok m'
    → update_hypothesis_status_with_guard later id expected other m' ≡ err invalid_state
unfolding update_hypothesis_status_with_guard
guarded_once now later id expected new other m m' moved h =
    let (hyp, there, h₁) = looked_up-ok (find m.hypotheses id) h in
    elim (if-cases (not (hyp.status == expected)) h₁) [
      | inl e ↦ absurd (cc (e.1))
      | inr (met, made) ↦
          let moved_hyp : Hypothesis = record hyp { status = new; updated_at = now } in
          let written : ReasoningMemory = record m { hypotheses = put m.hypotheses id moved_hyp } in
          let same : written ≡ m' = cc made in
          rw (← same) (
            refused later id expected other written moved_hyp (rw (find-put, eq_refl id) refl)
              moved)
    ]

listed-append_all {ℓ} :
    {A : Type ℓ} (m : Map (List A)) (id : String) (xs : List A)
    → listed (find (append_all m id xs) id) ≡ listed (find m id) ++ xs
unfolding append_all
listed-append_all m id [] = sym (append-nil (listed (find m id)))
listed-append_all m id (x ∷ xs) = rw (find-put, eq_refl id) refl

-- SaveHypothesis appends the conditions and requirements of a hypothesis to those stored: when a
-- hypothesis that GetHypothesis returned is saved again, the next GetHypothesis returns each of them
-- twice.
pub resaved_doubles :
    (now : ℕ) (hyp : Hypothesis) (m : ReasoningMemory)
    → get_hypothesis hyp.id m ≡ ok hyp
    → (again : Hypothesis) × (get_hypothesis hyp.id (save_hypothesis now hyp m) ≡ ok again)
      × (again.falsification_conditions
          ≡ hyp.falsification_conditions ++ hyp.falsification_conditions)
      × (again.missing_evidence ≡ hyp.missing_evidence ++ hyp.missing_evidence)
unfolding get_hypothesis save_hypothesis with_parts copy_falsifications copy_requirements
resaved_doubles now hyp m h =
    let (old, there, same) = looked_up-ok (find m.hypotheses hyp.id) h in
    let whole : with_parts hyp.id m old ≡ hyp = cc same in
    let falsified : listed (find m.falsifications hyp.id) ≡ hyp.falsification_conditions =
      ap (λ (x : Hypothesis). x.falsification_conditions) whole in
    let required : listed (find m.requirements hyp.id) ≡ hyp.missing_evidence =
      ap (λ (x : Hypothesis). x.missing_evidence) whole in
    (
      with_parts hyp.id (save_hypothesis now hyp m)
          (record hyp { created_at = or_now hyp.created_at now; updated_at = now }),
      rw (get_hypothesis, find-put, eq_refl hyp.id) refl,
      listed-append_all m.falsifications hyp.id hyp.falsification_conditions
          ∙ ap (λ xs. xs ++ hyp.falsification_conditions) falsified,
      listed-append_all m.requirements hyp.id hyp.missing_evidence
          ∙ ap (λ xs. xs ++ hyp.missing_evidence) required,
    )
