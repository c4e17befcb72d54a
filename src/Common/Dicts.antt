-- ===== src/Common/Dicts.antt =====
-- Python's `dict`: an association list in insertion order.
use mathlib.Core.Path.{◌≡◌, refl}
use mathlib.Core.Option.{Option, none, some}
use mathlib.Core.List.{List, [], ◌∷◌}
use native.Mathlib.Omega.{arith}
use glassrail.Common.Tests.{Eq, ◌==◌, if◌then◌else◌}

abbrev pub Dict : Type 0 → Type 0 → Type 0
Dict K V = List (K × V)

module _ {ℓ κ} {K : Type ℓ} {V : Type κ} ⦃e : Eq K⦄ where
  -- `d.get(k)`
  unfoldable pub lookup : K → List (K × V) → Option V
  lookup key [] = none
  lookup key ((here, value) ∷ rest) = if here == key then some value else lookup key rest

  -- `d[k] = v`: a present key keeps its place
  unfoldable pub insert : K → V → List (K × V) → List (K × V)
  insert key new [] = (key, new) ∷ []
  insert key new ((here, value) ∷ rest) =
      if here == key then (here, new) ∷ rest else (here, value) ∷ insert key new rest

  pub lookup-insert :
      (set get : K) (new : V) (d : List (K × V))
      → lookup get (insert set new d) ≡ (if set == get then some new else lookup get d)
  unfolding lookup insert
  lookup-insert set get new [] = refl
  lookup-insert set get new ((here, value) ∷ rest) = ground (
    arith,
    lookup-insert set get new rest,
    e.beq_iff here set,
    e.beq_iff here get,
    e.beq_iff set get,
  )
