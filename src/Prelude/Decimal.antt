-- ===== src/Prelude/Decimal.antt =====
-- Numbers printed in base ten.
use Prim.Native.Nat.{ℕ, zero, suc, ◌+◌, ◌/◌, ◌%◌}
use mathlib.Core.List.{[], ◌∷◌}
use nexus_hunter_ai.Prelude.Tests.{ltb, if◌then◌else◌}
use nexus_hunter_ai.Prelude.Texts.{Text}

-- %d; twenty digits of fuel are enough below 10 ^ 20
unfoldable pub decimal_from : ℕ → ℕ → Text → Text
decimal_from zero n acc = acc
decimal_from (suc fuel) n acc =
    let rest = decimal_from fuel (n / 10) ((n % 10 + b'0') ∷ acc) in
    if ltb n 10 then (n + b'0') ∷ acc else rest

abbrev pub decimal : ℕ → Text
decimal n = decimal_from 20 n []
