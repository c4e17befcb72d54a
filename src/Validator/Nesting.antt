-- ===== src/Validator/Nesting.antt =====
-- How deep decisions nest: `_nesting_depth` and `_check_decision_nesting`.
pub mod Depth
pub mod Fuel
use glassrail.Common.{
  Dict, List, Option, String, [], err, for_each, if◌then◌else◌, int_eq, int_leb, length, max, none,
  not, ok, pos, raise_if, some, suc, zero, ℕ, ℤ, ◌+◌, ◌==◌, ◌>>=◌, ◌>>◌, ◌∷◌,
}
use glassrail.Core.{Node}
use glassrail.Config.{Settings}
use glassrail.Validator.Errors.{Checked, nesting_too_deep, out_of_fuel}
use glassrail.Validator.Topo.{branch_items}

-- `{n.id: n for n in plan.nodes}.get(i)`: of two nodes with one id the later counts.
unfoldable pub node_at : List Node → ℤ → Option Node
node_at [] i = none
node_at (n ∷ ns) i = elim (node_at ns i) [
  | some m ↦ some m
  | none ↦ if n.id == i then some n else none
]

-- The branches that the loop body goes through: none for an id that is missing or no decision.
unfoldable pub items_at : List Node → ℤ → Dict String (List ℤ)
unfolding node_at
items_at ns i = elim (node_at ns i) [ none ↦ [] | some n ↦ branch_items n ]

-- The loop over the branches; `depth` is the call for one branch.
unfoldable pub over_branches : (List ℤ → Option ℕ) → Dict String (List ℤ) → ℕ → Option ℕ
over_branches depth [] m = some m
over_branches depth ((b, ts) ∷ bs) m = elim (depth ts) [
  | none ↦ none
  | some d ↦ over_branches depth bs (max m d)
]

-- The loop over the ids.
unfoldable pub over_ids : (List ℤ → Option ℕ) → List Node → List ℤ → ℕ → Option ℕ
unfolding over_branches items_at
over_ids depth ns [] m = some m
over_ids depth ns (i ∷ is) m = elim (over_branches depth (items_at ns i) m) [
  | none ↦ none
  | some m' ↦ over_ids depth ns is m'
]

-- `none` means that the fuel ran out.
unfoldable pub nesting_depth : ℕ → List Node → List ℤ → ℕ → Option ℕ
unfolding over_ids
nesting_depth zero ns is current = none
nesting_depth (suc fuel) ns is current =
    over_ids (λ ts. nesting_depth fuel ns ts (current + 1)) ns is current

-- The fuel of a whole check; the order of the plan shows that it is enough.
abbrev pub nesting_fuel : List Node → ℕ
nesting_fuel ns = length ns + 1

-- The test of one branch's depth.
unfoldable pub check_depth : Settings → Node → Option ℕ → Checked Unit
check_depth s n none = err out_of_fuel
check_depth s n (some depth) =
    raise_if (not (int_leb (pos depth) s.max_decision_nesting_depth)) (nesting_too_deep n.id depth)

-- The loop over the branches of one decision.
unfoldable pub check_branches : Settings → List Node → Node → Dict String (List ℤ) → Checked Unit
check_branches s ns n [] = ok tt
check_branches s ns n ((b, ts) ∷ bs) = do
  check_depth s n (nesting_depth (nesting_fuel ns) ns ts 1)
  check_branches s ns n bs

unfoldable pub check_decision_nesting : Settings → List Node → Checked Unit
check_decision_nesting s ns = for_each (λ n. check_branches s ns n (branch_items n)) ns
