-- ===== src/Prelude/TextMaps.antt =====
-- Go maps whose keys are texts that the code walks. The order of the entries stands for the order of
-- an iteration.
use mathlib.Core.Path.{◌≡◌, refl}
use mathlib.Core.Option.{Option, none, some}
use mathlib.Core.List.{List, [], ◌∷◌}
use native.Mathlib.Omega.{arith}
use nexus_hunter_ai.Prelude.Tests.{if◌then◌else◌}
use nexus_hunter_ai.Prelude.Texts.{Text, text_eq, text_eq_iff}

abbrev pub TextMap {ℓ} : Type ℓ → Type ℓ
TextMap V = List (Text × V)

module _ {ℓ} {V : Type ℓ} where
  -- v, ok := m[key]
  unfoldable pub look : TextMap V → Text → Option V
  look [] key = none
  look (e ∷ m) key = if text_eq e.0 key then some e.1 else look m key

  -- m[key] = v
  unfoldable pub store : TextMap V → Text → V → TextMap V
  store [] key v = (key, v) ∷ []
  store (e ∷ m) key v = if text_eq e.0 key then (key, v) ∷ m else e ∷ store m key v

  -- no key stands twice, as in every Go map
  abbrev pub Unique : TextMap V → Type ℓ
  Unique [] = Unit
  Unique (e ∷ m) = (look m e.0 ≡ none) × Unique m

  pub look-store :
      (m : TextMap V) (key other : Text) (v : V)
      → look (store m key v) other ≡ (if text_eq key other then some v else look m other)
  unfolding look store
  look-store [] key other v = refl
  look-store (e ∷ m) key other v = ground (
    arith,
    text_eq_iff e.0 key,
    text_eq_iff e.0 other,
    text_eq_iff key other,
    look-store m key other v,
  )

  pub store-Unique : (m : TextMap V) (key : Text) (v : V) → Unique m → Unique (store m key v)
  unfolding look store
  store-Unique [] key v h = (refl, tt)
  store-Unique (e ∷ m) key v h = ground (
    arith,
    text_eq_iff e.0 key,
    text_eq_iff key e.0,
    look-store m key e.0 v,
    store-Unique m key v h.1,
  )
