-- ===== src/Prelude/Maps.antt =====
-- Go maps with string keys. The order of the entries stands for the order of an iteration.
use Prim.Native.String.{String}
use mathlib.Core.Path.{◌≡◌, refl}
use mathlib.Core.Option.{Option, none, some}
use mathlib.Core.List.{List, [], ◌∷◌, map}
use native.Mathlib.Omega.{arith}
use text.Mathlib.Text.{◌==◌}
use text.Mathlib.TextEquality.{eq_iff}
use nexus_hunter_ai.Prelude.Tests.{if◌then◌else◌}

abbrev pub Map {ℓ} : Type ℓ → Type ℓ
Map V = List (String × V)

module _ {ℓ} {V : Type ℓ} where
  -- v, ok := m[key]
  unfoldable pub find : Map V → String → Option V
  find [] key = none
  find (e ∷ m) key = if e.0 == key then some e.1 else find m key

  -- m[key] = v
  unfoldable pub put : Map V → String → V → Map V
  put [] key v = (key, v) ∷ []
  put (e ∷ m) key v = if e.0 == key then (key, v) ∷ m else e ∷ put m key v

  -- delete(m, key)
  unfoldable pub delete : Map V → String → Map V
  delete [] key = []
  delete (e ∷ m) key = if e.0 == key then delete m key else e ∷ delete m key

  abbrev pub values : Map V → List V
  values = map (λ e. e.1)

  pub find-put :
      (m : Map V) (key other : String) (v : V)
      → find (put m key v) other ≡ (if key == other then some v else find m other)
  unfolding find put
  find-put [] key other v = refl
  find-put (e ∷ m) key other v =
      ground (arith, eq_iff e.0 key, eq_iff e.0 other, eq_iff key other, find-put m key other v)

  pub find-delete :
      (m : Map V) (key other : String)
      → find (delete m key) other ≡ (if key == other then none else find m other)
  unfolding find delete
  find-delete [] key other = ground arith
  find-delete (e ∷ m) key other =
      ground (arith, eq_iff e.0 key, eq_iff e.0 other, eq_iff key other, find-delete m key other)

pub ruleset map_laws = (find-put, find-delete)
