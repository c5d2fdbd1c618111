-- ===== src/EventBus/History.antt =====
-- events.go: what the bus remembers of the events that were published.
use nexus_hunter_ai.Prelude.{
  ℕ, ◌-◌, ◌≤◌, ◌<◌, zero, suc, String, List, [], ◌∷◌, ◌++◌, length, length-append, from_index, leb,
  nat_eq, if◌then◌else◌, ◌≡◌, refl, sym, ap, ◌∙◌, inl, inr, Bool-cases, append-nil, arith,
}
use nexus_hunter_ai.Jobs.Data.{Event}
use nexus_hunter_ai.EventBus.{
  MemoryEventBus, append_history, completed_event, get_events, new_memory_event_bus, publish,
}

-- an event to publish, with what the clock and GenerateID give
pub record Publication : Type 0 where
  pub now : ℕ
  pub generated : String
  pub event : Event

-- several calls of Publish, one after another
unfoldable pub publish_all : List Publication → MemoryEventBus → MemoryEventBus
unfolding publish
publish_all [] b = b
publish_all (p ∷ ps) b = publish_all ps (publish p.now p.generated p.event b)

abbrev pub published : List Publication → List Event
published [] = []
published (p ∷ ps) = completed_event p.now p.generated p.event ∷ published ps

-- the last members, as many as a number says
abbrev pub last_of : ℕ → List Event → List Event
last_of n xs = from_index (length xs - n) xs

from_index-zero : (xs : List Event) → from_index 0 xs ≡ xs
from_index-zero [] = refl
from_index-zero (x ∷ xs) = refl

from_index-suc :
    (k : ℕ) (x : Event) (xs : List Event) → from_index (suc k) (x ∷ xs) ≡ from_index k xs
from_index-suc k x xs = elim (Bool-cases (nat_eq (suc k) 0)) [
  | inl t ↦ absurd (ground arith)
  | inr f ↦ rw f (ap (λ i. from_index i xs) {x = suc k - 1} {y = k} (omega arith))
]

from_index-from_index_one :
    (k : ℕ) (xs : List Event) → from_index 1 (from_index k xs) ≡ from_index (suc k) xs
from_index-from_index_one k [] = refl
from_index-from_index_one zero (x ∷ xs) = refl
from_index-from_index_one (suc k) (x ∷ xs) =
    rw (from_index-suc k x xs, from_index-suc (suc k) x xs) (from_index-from_index_one k xs)

from_index-append :
    (k : ℕ) (xs ys : List Event) → k ≤ length xs → from_index k (xs ++ ys) ≡ from_index k xs ++ ys
from_index-append zero xs ys h =
    from_index-zero (xs ++ ys) ∙ ap (λ zs. zs ++ ys) (sym (from_index-zero xs))
from_index-append (suc k) [] ys h = absurd (omega arith)
from_index-append (suc k) (x ∷ xs) ys h =
    rw (from_index-suc k x xs, from_index-suc k x (xs ++ ys))
      (from_index-append k xs ys (omega (arith, h)))

length-from_index : (k : ℕ) (xs : List Event) → length (from_index k xs) ≡ length xs - k
length-from_index k [] = omega arith
length-from_index zero (x ∷ xs) = omega arith
length-from_index (suc k) (x ∷ xs) =
    ap length (from_index-suc k x xs) ∙ length-from_index k xs ∙ omega arith

-- one more event, after the last ones of all before it
append_history_lem :
    (n : ℕ) (xs : List Event) (x : Event)
    → 0 < n
    → append_history n (last_of n xs) x ≡ last_of n (xs ++ x ∷ [])
unfolding append_history
append_history_lem n xs x h =
    let len = length-from_index (length xs - n) xs in
    let more = length-append xs (x ∷ []) in
    elim (Bool-cases (leb n (length (from_index (length xs - n) xs)))) [
      | inl full ↦ rw full (
          ap (λ zs. zs ++ x ∷ []) (from_index-from_index_one (length xs - n) xs)
          ∙ sym (from_index-append (suc (length xs - n)) xs (x ∷ []) (ground arith))
          ∙ ap (λ i. from_index i (xs ++ x ∷ [])) (ground arith))
      | inr room ↦ rw room (
          sym (from_index-append (length xs - n) xs (x ∷ []) (omega arith))
          ∙ ap (λ i. from_index i (xs ++ x ∷ [])) (ground arith))
    ]

append-snoc : (xs : List Event) (x : Event) (ys : List Event) → (xs ++ x ∷ []) ++ ys ≡ xs ++ x ∷ ys
append-snoc [] x ys = refl
append-snoc (z ∷ xs) x ys = cc (append-snoc xs x ys)

-- the bus remembers the last ones of all the events
publish_all-history :
    (ps : List Publication) (b : MemoryEventBus) (before : List Event)
    → 0 < b.max_history
    → b.history ≡ last_of b.max_history before
    → get_events (publish_all ps b) ≡ last_of b.max_history (before ++ published ps)
unfolding publish_all publish get_events
publish_all-history [] b before h e = e ∙ ap (last_of b.max_history) (sym (append-nil before))
publish_all-history (p ∷ ps) b before h e =
    let sent = completed_event p.now p.generated p.event in
    publish_all-history ps (publish p.now p.generated p.event b) (before ++ sent ∷ []) h (
      ap (λ zs. append_history b.max_history zs sent) e
      ∙ append_history_lem b.max_history before sent h)
    ∙ ap (last_of b.max_history) (append-snoc before sent (published ps))

-- After any calls of Publish on a new bus, GetEvents returns the last of the published events in their
-- order, each with its identifier and time filled in, as many as the maximum of the bus says.
pub get_events-last_of :
    (max : ℕ) (ps : List Publication)
    → get_events (publish_all ps (new_memory_event_bus max))
      ≡ last_of (if nat_eq max 0 then 500 else max) (published ps)
unfolding new_memory_event_bus
get_events-last_of max ps = publish_all-history ps (new_memory_event_bus max) [] (ground arith) refl
