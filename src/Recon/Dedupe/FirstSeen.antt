-- ===== src/Recon/Dedupe/FirstSeen.antt =====
-- dedupe.go: what a sequence of checks lets through.
use nexus_hunter_ai.Prelude.{
  ◌+◌, List, [], ◌∷◌, any, length, if◌then◌else◌, ◌≡◌, refl, ap, inl, inr, Bool-cases, arith,
}
use nexus_hunter_ai.Prelude.Texts.{Text, text_eq}
use nexus_hunter_ai.Evidence.Dedupe.{deduplicate_from, deduplicate_strings}
use nexus_hunter_ai.Recon.Dedupe.{
  Deduplicator, check_and_add, check_and_add_host, count, new_deduplicator,
}

-- the hosts of a sequence that CheckAndAddHost lets through, and the deduplicator after it
unfoldable pub let_through : List Text → Deduplicator → List Text × Deduplicator
unfolding check_and_add_host
let_through [] d = ([], d)
let_through (host ∷ hosts) d =
    let (new, d₁) = check_and_add_host host d in
    let (rest, d₂) = let_through hosts d₁ in (if new then host ∷ rest else rest, d₂)

through_from :
    (hosts : List Text) (d : Deduplicator)
    → ((let_through hosts d).0 ≡ deduplicate_from d.hostnames hosts)
      × (length (let_through hosts d).1.hostnames
          ≡ length (let_through hosts d).0 + length d.hostnames)
unfolding let_through check_and_add_host check_and_add deduplicate_from
through_from [] d = (refl, omega arith)
through_from (host ∷ hosts) d = elim (Bool-cases (any (text_eq host) d.hostnames)) [
  | inl seen ↦ rw (check_and_add_host, check_and_add, deduplicate_from, seen) (through_from hosts d)
  | inr new ↦
      let ih = through_from hosts (record d { hostnames = host ∷ d.hostnames }) in
      rw (check_and_add_host, check_and_add, deduplicate_from, new)
        (ap (λ xs. host ∷ xs) ih.0, omega (arith, ih.1))
]

-- Of a sequence of hosts, a fresh deduplicator lets through exactly each host's first occurrence, in
-- order: what the removal of duplicates in the evidence package gives; and Count then reports as many
-- hosts as were let through.
pub let_through-first :
    (hosts : List Text)
    → ((let_through hosts new_deduplicator).0 ≡ deduplicate_strings hosts)
      × ((count (let_through hosts new_deduplicator).1).0 ≡ length (deduplicate_strings hosts))
unfolding deduplicate_strings count
let_through-first hosts =
    let (same, many) = through_from hosts new_deduplicator in
    (same, omega (arith, many, ap (length {A = Text}) same))
