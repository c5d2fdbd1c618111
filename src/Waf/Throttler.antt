-- ===== src/Waf/Throttler.antt =====
-- throttler.go: AdaptiveThrottler. Times are numbers of nanoseconds.
use nexus_hunter_ai.Prelude.{
  ℕ, ◌+◌, ◌-◌, ◌*◌, ◌%◌, ◌^◌, ◌<◌, Bool, true, false, String, if◌then◌else◌, ltb, leb, ◌≡◌,
}

-- The float64 numbers other than NaN, as an interface: their order, halving, the step up by 1.0 and the
-- multiples of 0.5, which are exact below 2 ^ 53. Halving a rate that is not negative does not raise it.
pub record Rates : Type 1 where
  pub Rate : Type 0
  pub less : Rate → Rate → Bool
  pub half : Rate → Rate
  pub plus_one : Rate → Rate
  -- k * 0.5
  pub halves : (k : ℕ) → Rate
  pub less_irrefl : (x : Rate) → less x x ≡ false
  pub not-less_trans : (x y z : Rate) → less y x ≡ false → less z y ≡ false → less z x ≡ false
  pub half_down : (x : Rate) → less x (halves 0) ≡ false → less x (half x) ≡ false
  pub plus_one_up : (x : Rate) → less (plus_one x) x ≡ false
  pub less_halves : (a b : ℕ) → a < 2 ^ 53 → b < 2 ^ 53 → less (halves a) (halves b) ≡ ltb a b

abbrev pub second : ℕ
second = 1_000_000_000

-- now.Add(time.Duration(secs) * time.Second): the product is an int64, so it wraps around. A moment
-- before the origin of time counts as the origin.
unfoldable pub add_seconds : (now secs : ℕ) → ℕ
add_seconds now secs =
    let d = (secs * second) % (2 ^ 64) in if ltb d (2 ^ 63) then now + d else now - (2 ^ 64 - d)

module _ (rs : Rates) where
  pub record AdaptiveThrottler : Type 0 where
    pub asset_id : String
    pub current_rps : rs.Rate
    pub min_rps : rs.Rate
    pub max_rps : rs.Rate
    pub state : String
    pub consecutive429s : ℕ
    pub consecutive_blocks : ℕ
    pub consecutive_success : ℕ
    pub retry_until : ℕ
    pub circuit_breaker_open : Bool
    pub last_reason : String

  -- NewAdaptiveThrottler
  unfoldable pub new_adaptive_throttler : String → AdaptiveThrottler
  new_adaptive_throttler asset_id = record {
    asset_id = asset_id;
    current_rps = rs.halves 20;
    min_rps = rs.halves 1;
    max_rps = rs.halves 40;
    state = "NORMAL";
    consecutive429s = 0;
    consecutive_blocks = 0;
    consecutive_success = 0;
    retry_until = 0;
    circuit_breaker_open = false;
    last_reason = "";
  }

  -- Record429; a Retry-After of the server that is not positive counts as 0
  unfoldable pub record429 : (now retry_after_secs : ℕ) → AdaptiveThrottler → AdaptiveThrottler
  unfolding add_seconds
  record429 now retry_after_secs t =
      let n = t.consecutive429s + 1 in
      let halved = rs.half t.current_rps in
      let slowed = record t {
        consecutive429s = n;
        consecutive_success = 0;
        current_rps = if rs.less halved t.min_rps then t.min_rps else halved;
        retry_until =
            if ltb 0 retry_after_secs
            then add_seconds now retry_after_secs
            else add_seconds now (n * 2);
      } in
      if leb 3 n
      then record slowed {
        state = "REPEATED_429";
        circuit_breaker_open = true;
        last_reason = "repeated 429 Too Many Requests observed; circuit breaker tripped";
      }
      else record slowed {
        state = "RATE_LIMITED";
        last_reason = "HTTP 429 observed; reducing rate";
      }

  -- RecordBlock
  unfoldable pub record_block : AdaptiveThrottler → AdaptiveThrottler
  record_block t =
      let n = t.consecutive_blocks + 1 in
      let slowed = record t {
        consecutive_blocks = n;
        consecutive_success = 0;
        current_rps = t.min_rps;
      } in
      if leb 2 n
      then record slowed {
        state = "SUSTAINED_BLOCK";
        circuit_breaker_open = true;
        last_reason =
            "sustained WAF challenge/block detected; halting scans against asset to prevent IP bans";
      }
      else record slowed {
        state = "WAF_THROTTLED";
        last_reason = "WAF block observed; throttling requests";
      }

  abbrev step_up : AdaptiveThrottler → rs.Rate
  step_up t =
      if rs.less t.current_rps t.max_rps
      then (if rs.less t.max_rps (rs.plus_one t.current_rps)
          then t.max_rps
          else rs.plus_one t.current_rps)
      else t.current_rps

  -- RecordSuccess
  unfoldable pub record_success : AdaptiveThrottler → AdaptiveThrottler
  record_success t =
      let n = t.consecutive_success + 1 in
      if leb 10 n
      then record t {
        consecutive_success = n;
        consecutive429s = 0;
        consecutive_blocks = 0;
        circuit_breaker_open = false;
        state = "NORMAL";
        current_rps = step_up t;
      }
      else record t { consecutive_success = n }

  -- CanExecute
  unfoldable pub can_execute : ℕ → AdaptiveThrottler → Bool × String
  can_execute now t =
      if t.circuit_breaker_open
      then (false, t.last_reason)
      else if ltb now t.retry_until
      then (false, "Retry-After backoff period is currently active")
      else (true, "")

  -- GetStatus
  unfoldable pub get_status : AdaptiveThrottler → String × rs.Rate × Bool
  get_status t = (t.state, t.current_rps, t.circuit_breaker_open)
