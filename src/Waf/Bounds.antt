-- ===== src/Waf/Bounds.antt =====
-- The bounds that the throttler's rate keeps, and what its circuit breaker needs to open and to close.
use nexus_hunter_ai.Prelude.{
  ℕ, ◌+◌, true, false, String, if◌then◌else◌, leb, ◌≡◌, refl, List, [], ◌∷◌, Bool-cases, inl, inr,
  arith,
}
use nexus_hunter_ai.Waf.Throttler.{
  Rates, AdaptiveThrottler, new_adaptive_throttler, record429, record_block, record_success,
}

module _ (rs : Rates) where
  -- one observation of a response
  pub data Observation : Type 0 where
    limited : (now retry_after : ℕ) → Observation
    blocked succeeded : Observation

  unfoldable pub watch : AdaptiveThrottler rs → Observation → AdaptiveThrottler rs
  watch t (limited now retry_after) = record429 rs now retry_after t
  watch t blocked = record_block rs t
  watch t succeeded = record_success rs t

  unfoldable pub watch_all : AdaptiveThrottler rs → List Observation → AdaptiveThrottler rs
  unfolding watch
  watch_all t [] = t
  watch_all t (o ∷ os) = watch_all (watch t o) os

  -- the rate is between the bounds of the throttler
  pub record InBounds (t : AdaptiveThrottler rs) : Type 0 where
    pub slow : rs.less t.current_rps t.min_rps ≡ false
    pub fast : rs.less t.max_rps t.current_rps ≡ false
    pub lower : t.min_rps ≡ rs.halves 1
    pub upper : t.max_rps ≡ rs.halves 40

  low_high : (t : AdaptiveThrottler rs) → InBounds t → rs.less t.max_rps t.min_rps ≡ false
  low_high t h = rs.not-less_trans t.min_rps t.current_rps t.max_rps h.slow h.fast

  not_negative :
      (t : AdaptiveThrottler rs) → InBounds t → rs.less t.current_rps (rs.halves 0) ≡ false
  not_negative t h =
      rs.not-less_trans (rs.halves 0) (rs.halves 1) t.current_rps
        (rs.less_halves 1 0 (omega arith) (omega arith)) (rw (← h.lower) h.slow)

  halved_fast :
      (t : AdaptiveThrottler rs) → InBounds t → rs.less t.max_rps (rs.half t.current_rps) ≡ false
  halved_fast t h =
      rs.not-less_trans (rs.half t.current_rps) t.current_rps t.max_rps
        (rs.half_down t.current_rps (not_negative t h)) h.fast

  up_slow :
      (t : AdaptiveThrottler rs)
      → InBounds t
      → rs.less (rs.plus_one t.current_rps) t.min_rps ≡ false
  up_slow t h =
      rs.not-less_trans t.min_rps t.current_rps (rs.plus_one t.current_rps) h.slow
        (rs.plus_one_up t.current_rps)

  record429-InBounds :
      (now secs : ℕ) (t : AdaptiveThrottler rs) → InBounds t → InBounds (record429 rs now secs t)
  unfolding record429
  record429-InBounds now secs t h = elim (Bool-cases (leb 3 (t.consecutive429s + 1))) [
    | inl e ↦ rw e (record { slow = slow; fast = fast; lower = h.lower; upper = h.upper })
    | inr e ↦ rw e (record { slow = slow; fast = fast; lower = h.lower; upper = h.upper })
  ]
    where
      halved : rs.Rate
      halved = rs.half t.current_rps

      slow : rs.less (if rs.less halved t.min_rps then t.min_rps else halved) t.min_rps ≡ false
      slow = elim (Bool-cases (rs.less halved t.min_rps)) [
        | inl k ↦ rw k (rs.less_irrefl t.min_rps)
        | inr k ↦ rw k k
      ]

      fast : rs.less t.max_rps (if rs.less halved t.min_rps then t.min_rps else halved) ≡ false
      fast = elim (Bool-cases (rs.less halved t.min_rps)) [
        | inl k ↦ rw k (low_high t h)
        | inr k ↦ rw k (halved_fast t h)
      ]

  record_block-InBounds : (t : AdaptiveThrottler rs) → InBounds t → InBounds (record_block rs t)
  unfolding record_block
  record_block-InBounds t h = elim (Bool-cases (leb 2 (t.consecutive_blocks + 1))) [
    | inl e ↦ rw e (record {
      slow = rs.less_irrefl t.min_rps;
      fast = low_high t h;
      lower = h.lower;
      upper = h.upper;
    })
    | inr e ↦ rw e (record {
      slow = rs.less_irrefl t.min_rps;
      fast = low_high t h;
      lower = h.lower;
      upper = h.upper;
    })
  ]

  record_success-InBounds : (t : AdaptiveThrottler rs) → InBounds t → InBounds (record_success rs t)
  unfolding record_success
  record_success-InBounds t h = elim (Bool-cases (leb 10 (t.consecutive_success + 1))) [
    | inr e ↦ rw e (record { slow = h.slow; fast = h.fast; lower = h.lower; upper = h.upper })
    | inl e ↦ elim (Bool-cases (rs.less t.current_rps t.max_rps)) [
      | inr k ↦
          rw (e, k) (record { slow = h.slow; fast = h.fast; lower = h.lower; upper = h.upper })
      | inl k ↦ elim (Bool-cases (rs.less t.max_rps (rs.plus_one t.current_rps))) [
        | inl m ↦
            rw (e, k, m)
              (record {
                slow = slow m;
                fast = rs.less_irrefl t.max_rps;
                lower = h.lower;
                upper = h.upper;
              })
        | inr m ↦
            rw (e, k, m) (record { slow = up_slow t h; fast = m; lower = h.lower; upper = h.upper })
      ]
    ]
  ]
    where
      slow :
          rs.less t.max_rps (rs.plus_one t.current_rps) ≡ true → rs.less t.max_rps t.min_rps ≡ false
      slow m = low_high t h

  watch_all-InBounds :
      (os : List Observation) (t : AdaptiveThrottler rs) → InBounds t → InBounds (watch_all t os)
  unfolding watch_all
  watch_all-InBounds [] t h = h
  watch_all-InBounds (limited now secs ∷ os) t h =
      watch_all-InBounds os (record429 rs now secs t) (record429-InBounds now secs t h)
  watch_all-InBounds (blocked ∷ os) t h =
      watch_all-InBounds os (record_block rs t) (record_block-InBounds t h)
  watch_all-InBounds (succeeded ∷ os) t h =
      watch_all-InBounds os (record_success rs t) (record_success-InBounds t h)

  -- Whatever responses a new throttler observes, its rate stays between its lower and its upper bound,
  -- and the bounds stay 0.5 and 20.0.
  pub watched-InBounds :
      (asset_id : String) (os : List Observation)
      → InBounds (watch_all (new_adaptive_throttler rs asset_id) os)
  unfolding new_adaptive_throttler
  watched-InBounds asset_id os =
      watch_all-InBounds os (new_adaptive_throttler rs asset_id) (record {
        slow = cc (rs.less_halves 20 1 (omega arith) (omega arith));
        fast = cc (rs.less_halves 40 20 (omega arith) (omega arith));
        lower = refl;
        upper = refl;
      })
