-- ===== src/Storage/Evidence/Timeline.antt =====
-- memory.go: what ListTimelineEvents lists.
use nexus_hunter_ai.Prelude.{
  ℕ, ◌+◌, ◌-◌, ◌<◌, String, Bool, List, [], ◌∷◌, filter, first, leb, nat_eq, if◌then◌else◌, ◌≡◌,
  refl, ap, ◌∙◌, inl, inr, Bool-cases, arith,
}
use mathlib.Core.List.{reverse}
use nexus_hunter_ai.Evidence.Store.{EvidenceTimelineEvent}
use nexus_hunter_ai.Storage.Evidence.{EvidenceMemory, is_wanted, list_timeline_events, newest}

first_none {ℓ} : {A : Type ℓ} (xs : List A) → first 0 xs ≡ []
first_none [] = refl
first_none (x ∷ xs) = refl

newest_lem :
    (limit count : ℕ) (wanted : EvidenceTimelineEvent → Bool) (items : List EvidenceTimelineEvent)
    → count < limit
    → newest limit count wanted items ≡ first (limit - count) (filter wanted items)
unfolding newest
newest_lem limit count wanted [] h = refl
newest_lem limit count wanted (item ∷ items) h = elim (Bool-cases (wanted item)) [
  | inr n ↦ rw n (newest_lem limit count wanted items h)
  | inl w ↦ elim (Bool-cases (leb limit (count + 1))) [
    | inl last ↦ rw w (ground (arith, first_none (filter wanted items)))
    | inr more ↦
        let rest = newest_lem limit (count + 1) wanted items (ground arith) in
        let left : limit - (count + 1) ≡ limit - count - 1 = ground arith in
        rw w (ground (arith, rest, left, ap (λ n. first n (filter wanted items)) left))
  ]
]

-- ListTimelineEvents lists the wanted events from the newest to the oldest and stops at the limit, or
-- at 50 where no limit is given: these are the first ones, as many as that, of all wanted events.
pub list_timeline_events-first :
    (m : EvidenceMemory) (target_id asset_id : String) (limit : ℕ)
    → list_timeline_events m target_id asset_id limit
      ≡ first
          (if nat_eq limit 0 then 50 else limit)
          (filter (is_wanted target_id asset_id) (reverse m.timeline_events))
unfolding list_timeline_events
list_timeline_events-first m target_id asset_id limit =
    let used = if nat_eq limit 0 then 50 else limit in
    let all : used - 0 ≡ used = omega arith in
    newest_lem used 0 (is_wanted target_id asset_id) (reverse m.timeline_events) (ground arith)
    ∙ ap (λ n. first n (filter (is_wanted target_id asset_id) (reverse m.timeline_events))) all
