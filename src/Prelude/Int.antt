-- ===== src/Prelude/Int.antt =====
-- Signed numbers, and the difference of two counts.
use Prim.Native.Nat.{ℕ, ◌-◌}
use mathlib.Core.Path.{◌≡◌}
use native.Mathlib.Omega.{arith}
use nexus_hunter_ai.Prelude.Tests.{leb, if◌then◌else◌}

-- `negsuc n` is -(n + 1).
pub data ℤ : Type 0 where
  pos : ℕ → ℤ
  negsuc : ℕ → ℤ

-- a - b
abbrev pub sub_ℕ : ℕ → ℕ → ℤ
sub_ℕ a b = if leb b a then pos (a - b) else negsuc (b - a - 1)

pub sub_ℕ-self : (a : ℕ) → sub_ℕ a a ≡ pos 0
sub_ℕ-self a = ground arith
