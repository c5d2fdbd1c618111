-- ===== src/Storage/Evidence/Lawful.antt =====
-- memory.go: the evidence repository does what the engine relies on.
use nexus_hunter_ai.Prelude.{String, eq_refl, ok, ◌≡◌, refl}
use nexus_hunter_ai.Prelude.Maps.{find-put}
use nexus_hunter_ai.Evidence.Data.{Evidence}
use nexus_hunter_ai.Evidence.Store.{EvidenceTimelineEvent, IsLawful}
use nexus_hunter_ai.Storage.Evidence.{
  EvidenceMemory, get_evidence, memory_evidence_store, record_timeline_event, save_evidence,
}

saved_is_found :
    (m : EvidenceMemory) (ev : Evidence) → get_evidence (save_evidence m ev) ev.id ≡ ok ev
unfolding get_evidence save_evidence
saved_is_found m ev = rw (get_evidence, find-put, eq_refl ev.id) refl

timeline_apart :
    (m : EvidenceMemory) (event : EvidenceTimelineEvent) (id : String)
    → get_evidence (record_timeline_event m event) id ≡ get_evidence m id
unfolding get_evidence record_timeline_event
timeline_apart m event id = refl

-- MemoryStorage meets what the evidence engine assumes of its storage: saved evidence is found as it
-- was saved, and recording an event on the timeline changes no evidence.
pub memory_evidence_store-IsLawful : IsLawful memory_evidence_store
memory_evidence_store-IsLawful = record {
  get-save = λ m m' ev e.
      let same : save_evidence m ev ≡ m' = cc e in rw (← same, saved_is_found m ev) refl;
  get-timeline = λ m m' event id e.
      let same : record_timeline_event m event ≡ m' = cc e in
      rw (← same, timeline_apart m event id) refl;
}
