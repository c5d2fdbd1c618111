-- ===== src/Tests/Waf.antt =====
-- The throttler at rates counted in halves.
use nexus_hunter_ai.Prelude.{
  ℕ, ◌+◌, ◌/◌, ◌≡◌, refl, true, false, List, [], ◌∷◌, ltb, arith, ◌==◌, ◌↔◌, if◌then◌else◌,
}
use nexus_hunter_ai.Waf.Throttler.{
  Rates, AdaptiveThrottler, new_adaptive_throttler, can_execute, get_status,
}
use nexus_hunter_ai.Waf.Bounds.{
  Observation, limited, blocked, succeeded, watch_all, InBounds, watched-InBounds,
}
use nexus_hunter_ai.Prelude.Texts.{codes}
use nexus_hunter_ai.Waf.Detector.{Response, known_signatures, classify}
use nexus_hunter_ai.Waf.Confidence.{Convincing, classify_high_iff}
use nexus_hunter_ai.Waf.Breaker.{thrice_limited, successes, tripped-refuses, ten_successes-recover}

abbrev halves : Rates
halves = record {
  Rate = ℕ;
  less = ltb;
  half = λ x. x / 2;
  plus_one = λ x. x + 2;
  halves = λ k. k;
  less_irrefl = λ x. ground arith;
  not-less_trans = λ x y z h k. ground arith;
  half_down = λ x h. ground arith;
  plus_one_up = λ x. ground arith;
  less_halves = λ a b _ _. refl;
}

abbrev fresh : AdaptiveThrottler halves
fresh = new_adaptive_throttler halves "asset-1"

abbrev mixed : List (Observation halves)
mixed = limited 100 0 ∷ blocked ∷ succeeded ∷ limited 200 30 ∷ []

watched-InBounds_example : InBounds halves (watch_all halves fresh mixed)
watched-InBounds_example = watched-InBounds halves "asset-1" mixed

tripped-refuses_example :
    (can_execute halves 9_000_000_000_000
      (watch_all halves (thrice_limited halves (1, 0) (2, 0) (3, 5) fresh) mixed)).0
    ≡ false
tripped-refuses_example =
    tripped-refuses halves (1, 0) (2, 0) (3, 5) fresh mixed 9_000_000_000_000 (omega arith)

ten_successes-recover_example :
    (can_execute halves 7 (successes halves 10 fresh) ≡ (true, ""))
    × ((get_status halves (successes halves 10 fresh)).0 ≡ "NORMAL")
unfolding new_adaptive_throttler
ten_successes-recover_example = ten_successes-recover halves fresh 7 (omega arith)

-- one header of a provider, and nothing else
abbrev one_header : Response
one_header = record {
  status_code = 403;
  header = λ key. if key == "cf-ray" then codes "8f0" else [];
}

classify_high_iff_example :
    ((classify one_header [] known_signatures ("None Detected", "LOW")).1 ≡ "HIGH")
    ↔ Convincing one_header [] known_signatures
classify_high_iff_example = classify_high_iff one_header [] known_signatures
