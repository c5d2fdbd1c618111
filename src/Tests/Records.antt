-- ===== src/Tests/Records.antt =====
-- The reasoning repository, the pages of observations and the deduplicator on concrete records.
use nexus_hunter_ai.Prelude.{ℕ, ◌≡◌, refl, arith, none, List, [], ◌∷◌, ◌++◌, length, ok, err}
use nexus_hunter_ai.Prelude.Maps.{find, put}
use nexus_hunter_ai.Prelude.Texts.{Text, codes}
use nexus_hunter_ai.EventBus.{get_events, new_memory_event_bus}
use nexus_hunter_ai.EventBus.History.{
  Publication, get_events-last_of, last_of, publish_all, published,
}
use nexus_hunter_ai.Tests.Storage.{started_event}
use nexus_hunter_ai.Evidence.Dedupe.{deduplicate_strings}
use nexus_hunter_ai.Recon.Dedupe.{count, new_deduplicator}
use nexus_hunter_ai.Recon.Dedupe.FirstSeen.{let_through, let_through-first}
use nexus_hunter_ai.Storage.Data.{invalid_state}
use nexus_hunter_ai.Storage.Observations.Pages.{read_pages, read_pages-all}
use nexus_hunter_ai.Storage.Reasoning.{
  get_hypothesis, save_hypothesis, update_hypothesis_status_with_guard, with_parts,
}
use nexus_hunter_ai.Storage.Reasoning.Data.{
  FalsificationCondition, Hypothesis, ReasoningMemory, new_reasoning_memory,
}
use nexus_hunter_ai.Storage.Reasoning.Guards.{guarded_once, resaved_doubles}

abbrev falsified_by : FalsificationCondition
falsified_by = record {
  id = "f-1";
  hypothesis_id = "h-1";
  condition_description = codes "403 for all roles";
  required_evidence = [];
  validation_method = [];
  result = "PENDING";
  evidence_refs = [];
  evaluated_at = none;
}

abbrev open_hypothesis : Hypothesis
open_hypothesis = record {
  id = "h-1";
  group_id = "g-1";
  target_id = "t-1";
  asset_id = "a-1";
  endpoint = [];
  title = codes "Open API";
  description = [];
  category = "AUTH_POLICY_DIFF";
  epistemic_status = "HYPOTHESIZED";
  status = "PROPOSED";
  reasoning_method = "";
  supporting_signals = [];
  supporting_evidence = [];
  contradicting_evidence = [];
  alternative_hypotheses = [];
  missing_evidence = [];
  falsification_conditions = falsified_by ∷ [];
  recommended_investigations = [];
  evidence_strength = 1;
  investigation_priority = 50;
  created_at = 3;
  updated_at = 3;
}

abbrev one_hypothesis : ReasoningMemory
one_hypothesis = record new_reasoning_memory {
  hypotheses = ("h-1", open_hypothesis) ∷ [];
  falsifications = ("h-1", falsified_by ∷ []) ∷ [];
}

abbrev investigating : ReasoningMemory
investigating = record one_hypothesis {
  hypotheses = ("h-1", record open_hypothesis { status = "INVESTIGATING"; updated_at = 5 }) ∷ [];
}

guarded_once_example :
    update_hypothesis_status_with_guard 6 "h-1" "PROPOSED" "REJECTED" investigating
    ≡ err invalid_state
unfolding update_hypothesis_status_with_guard find put
guarded_once_example =
    guarded_once 5 6 "h-1" "PROPOSED" "INVESTIGATING" "REJECTED" one_hypothesis investigating refl
      refl

resaved_doubles_example :
    (again : Hypothesis) × (get_hypothesis "h-1" (save_hypothesis 9 open_hypothesis one_hypothesis)
      ≡ ok again)
    × (again.falsification_conditions ≡ (falsified_by ∷ []) ++ falsified_by ∷ [])
    × (again.missing_evidence ≡ [])
unfolding get_hypothesis with_parts find
resaved_doubles_example = resaved_doubles 9 open_hypothesis one_hypothesis refl

abbrev three_numbers : List ℕ
three_numbers = 1 ∷ 2 ∷ 3 ∷ []

read_pages-all_example : read_pages 2 2 0 three_numbers ≡ three_numbers
read_pages-all_example = read_pages-all 2 2 three_numbers (omega arith) (omega arith) (omega arith)

abbrev seen_hosts : List Text
seen_hosts = codes "a.x.io" ∷ codes "b.x.io" ∷ codes "a.x.io" ∷ []

let_through-first_example :
    ((let_through seen_hosts new_deduplicator).0 ≡ deduplicate_strings seen_hosts)
    × ((count (let_through seen_hosts new_deduplicator).1).0
        ≡ length (deduplicate_strings seen_hosts))
let_through-first_example = let_through-first seen_hosts

abbrev three_events : List Publication
three_events =
    record { now = 7; generated = "evt-a"; event = started_event "" }
    ∷ record { now = 8; generated = "evt-b"; event = started_event "e-2" }
    ∷ record { now = 9; generated = "evt-c"; event = started_event "" }
    ∷ []

-- the first of the three is gone
get_events-last_of_example :
    get_events (publish_all three_events (new_memory_event_bus 2))
    ≡ last_of 2 (published three_events)
get_events-last_of_example = get_events-last_of 2 three_events
