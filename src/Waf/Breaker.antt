-- ===== src/Waf/Breaker.antt =====
-- What opens the throttler's circuit breaker and what closes it.
use nexus_hunter_ai.Prelude.{
  ℕ, zero, suc, ◌+◌, true, false, leb, ◌≡◌, refl, arith, List, [], ◌∷◌, length, ◌≤◌, ◌<◌,
  Bool-cases, inl, inr,
}
use nexus_hunter_ai.Waf.Throttler.{
  Rates, AdaptiveThrottler, record429, record_block, record_success, can_execute, get_status,
}
use nexus_hunter_ai.Waf.Bounds.{Observation, limited, blocked, succeeded, watch, watch_all}

module _ (rs : Rates) where
  open-watch :
      (t : AdaptiveThrottler rs) (o : Observation rs)
      → t.circuit_breaker_open ≡ true
      → t.consecutive_success + 1 < 10
      → ((watch rs t o).circuit_breaker_open ≡ true)
        × ((watch rs t o).consecutive_success ≤ t.consecutive_success + 1)
  unfolding watch record429 record_block record_success
  open-watch t (limited now secs) h k = elim (Bool-cases (leb 3 (t.consecutive429s + 1))) [
    | inl e ↦ rw e (refl, omega arith)
    | inr e ↦ rw e (h, omega arith)
  ]
  open-watch t blocked h k = elim (Bool-cases (leb 2 (t.consecutive_blocks + 1))) [
    | inl e ↦ rw e (refl, omega arith)
    | inr e ↦ rw e (h, omega arith)
  ]
  open-watch t succeeded h k = elim (Bool-cases (leb 10 (t.consecutive_success + 1))) [
    | inl e ↦ ground arith
    | inr e ↦ rw e (h, omega arith)
  ]

  stays_open :
      (t : AdaptiveThrottler rs) (os : List (Observation rs))
      → t.circuit_breaker_open ≡ true
      → t.consecutive_success + length os < 10
      → (watch_all rs t os).circuit_breaker_open ≡ true
  unfolding watch_all
  stays_open t [] h k = h
  stays_open t (o ∷ os) h k =
      let next = open-watch t o h (omega (arith, k)) in
      stays_open (watch rs t o) os next.0 (omega (arith, k, next.1))

  -- three responses 429, one after the other
  abbrev pub thrice_limited : (a b c : ℕ × ℕ) → AdaptiveThrottler rs → AdaptiveThrottler rs
  thrice_limited a b c t = record429 rs c.0 c.1 (record429 rs b.0 b.1 (record429 rs a.0 a.1 t))

  count429 :
      (now secs : ℕ) (t : AdaptiveThrottler rs)
      → ((record429 rs now secs t).consecutive429s ≡ t.consecutive429s + 1)
        × ((record429 rs now secs t).consecutive_success ≡ 0)
  unfolding record429
  count429 now secs t = elim (Bool-cases (leb 3 (t.consecutive429s + 1))) [
    | inl e ↦ rw e (refl, refl)
    | inr e ↦ rw e (refl, refl)
  ]

  third_opens :
      (now secs : ℕ) (t : AdaptiveThrottler rs)
      → 2 ≤ t.consecutive429s
      → (record429 rs now secs t).circuit_breaker_open ≡ true
  unfolding record429
  third_opens now secs t h = elim (Bool-cases (leb 3 (t.consecutive429s + 1))) [
    | inl e ↦ rw e refl
    | inr e ↦ ground arith
  ]

  thrice-opens :
      (a b c : ℕ × ℕ) (t : AdaptiveThrottler rs)
      → (thrice_limited a b c t).circuit_breaker_open ≡ true
  thrice-opens a b c t =
      third_opens c.0 c.1 (record429 rs b.0 b.1 (record429 rs a.0 a.1 t))
        (omega (arith, (count429 a.0 a.1 t).0, (count429 b.0 b.1 (record429 rs a.0 a.1 t)).0))

  -- After three 429 responses in a row no request may be executed, at any time, until at least ten more
  -- responses are observed, whatever they are.
  pub tripped-refuses :
      (a b c : ℕ × ℕ) (t : AdaptiveThrottler rs) (os : List (Observation rs)) (now : ℕ)
      → length os < 10
      → (can_execute rs now (watch_all rs (thrice_limited a b c t) os)).0 ≡ false
  unfolding can_execute
  tripped-refuses a b c t os now h =
      rw
        (stays_open (thrice_limited a b c t) os (thrice-opens a b c t)
          (omega (arith, h, (count429 c.0 c.1 (record429 rs b.0 b.1 (record429 rs a.0 a.1 t))).1)))
        refl

  abbrev pub successes : ℕ → AdaptiveThrottler rs → AdaptiveThrottler rs
  successes zero t = t
  successes (suc n) t = record_success rs (successes n t)

  success-count :
      (n : ℕ) (t : AdaptiveThrottler rs)
      → ((successes n t).consecutive_success ≡ t.consecutive_success + n)
        × ((successes n t).retry_until ≡ t.retry_until)
  unfolding record_success
  success-count zero t = (omega arith, refl)
  success-count (suc n) t = elim (Bool-cases (leb 10 ((successes n t).consecutive_success + 1))) [
    | inl e ↦ rw e (omega (arith, (success-count n t).0), (success-count n t).1)
    | inr e ↦ rw e (omega (arith, (success-count n t).0), (success-count n t).1)
  ]

  tenth_closes :
      (t : AdaptiveThrottler rs) (now : ℕ)
      → 9 ≤ t.consecutive_success
      → t.retry_until ≤ now
      → (can_execute rs now (record_success rs t) ≡ (true, ""))
        × ((get_status rs (record_success rs t)).0 ≡ "NORMAL")
  unfolding can_execute get_status record_success
  tenth_closes t now h k = elim (Bool-cases (leb 10 (t.consecutive_success + 1))) [
    | inl e ↦ rw e (ground arith, refl)
    | inr e ↦ ground arith
  ]

  -- Ten successful responses in a row close the circuit breaker and put the state back to NORMAL, and a
  -- request may then be executed from the time on that a Retry-After named.
  pub ten_successes-recover :
      (t : AdaptiveThrottler rs) (now : ℕ)
      → t.retry_until ≤ now
      → (can_execute rs now (successes 10 t) ≡ (true, ""))
        × ((get_status rs (successes 10 t)).0 ≡ "NORMAL")
  ten_successes-recover t now h =
      tenth_closes (successes 9 t) now (omega (arith, (success-count 9 t).0))
        (omega (arith, h, (success-count 9 t).1))
