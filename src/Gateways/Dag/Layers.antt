-- ===== src/Gateways/Dag/Layers.antt =====
-- src/glassrail/gateways/tui/dag.py: the layer of each node, the longest path to it from a root.
pub mod Total
pub mod Links
pub mod Filling
pub mod Levels
pub mod Longest
pub mod Acyclic
use glassrail.Common.{
  Dict, List, Option, [], add, elem, false, if◌then◌else◌, insert, int_leb, length, lookup, map,
  max, none, some, sort, suc, true, zero, ℕ, ℤ, ◌++◌, ◌==◌, ◌∷◌, int_eq,
}
use glassrail.Gateways.Dag.{DagNode}

-- `{n.id for n in nodes}`
unfoldable pub id_set : List DagNode → List ℤ
unfolding add
id_set [] = []
id_set (n ∷ ns) = add n.id (id_set ns)

-- `dict[int, set[int]]`
abbrev pub Parents : Type 0
Parents = Dict ℤ (List ℤ)

-- `parents[key]`: every id that the code asks for is a key.
unfoldable pub parents_of : Parents → ℤ → List ℤ
unfolding lookup
parents_of parents key = elim (lookup key parents) [ none ↦ [] | some ps ↦ ps ]

-- `{n.id: set() for n in nodes}`
unfoldable pub no_parents : List DagNode → Parents
unfolding insert
no_parents [] = []
no_parents (n ∷ ns) = insert n.id [] (no_parents ns)

-- `parents[child].add(parent)`
unfoldable pub add_parent : (child parent : ℤ) → Parents → Parents
unfolding insert add parents_of
add_parent child parent parents = insert child (add parent (parents_of parents child)) parents

-- `for dep in node.context_needed: if dep in ids: …`
unfoldable pub add_deps : (ids : List ℤ) (child : ℤ) → List ℤ → Parents → Parents
unfolding add_parent elem
add_deps ids child [] parents = parents
add_deps ids child (dep ∷ deps) parents =
    add_deps ids child deps (if elem dep ids then add_parent child dep parents else parents)

-- `for target in node.branch_targets: if target in ids: …`
unfoldable pub add_targets : (ids : List ℤ) (parent : ℤ) → List ℤ → Parents → Parents
unfolding add_parent elem
add_targets ids parent [] parents = parents
add_targets ids parent (target ∷ targets) parents =
    add_targets ids parent targets
      (if elem target ids then add_parent target parent parents else parents)

unfoldable pub add_edges : (ids : List ℤ) → List DagNode → Parents → Parents
unfolding add_deps add_targets
add_edges ids [] parents = parents
add_edges ids (n ∷ ns) parents =
    add_edges ids ns
      (add_targets ids n.id n.branch_targets (add_deps ids n.id n.context_needed parents))

unfoldable pub all_parents : List DagNode → Parents
unfolding add_edges no_parents id_set
all_parents ns = add_edges (id_set ns) ns (no_parents ns)

-- `1 + max(depths, default=-1)`
unfoldable pub below : List ℕ → ℕ
below [] = 0
below (d ∷ ds) = max (suc d) (below ds)

-- `depth` and `visiting`
pub record Search : Type 0 where
  pub depth : Dict ℤ ℕ
  pub visiting : List ℤ

-- `visiting.discard(nid)`
unfoldable pub discard : ℤ → List ℤ → List ℤ
discard nid [] = []
discard nid (v ∷ vs) = let rest = discard nid vs in if v == nid then rest else v ∷ rest

-- A call on each id in turn, on the shared `depth` and `visiting`.
unfoldable pub each :
    (ℤ → Search → Option (ℕ × Search)) → List ℤ → Search → Option (List ℕ × Search)
each call [] s = some ([], s)
each call (p ∷ ps) s = elim (call p s) [
  | none ↦ none
  | some (d, s') ↦ elim (each call ps s') [ none ↦ none | some (ds, s'') ↦ some (d ∷ ds, s'') ]
]

unfoldable pub enter : ℤ → Search → Search
unfolding add
enter nid s = record s { visiting = add nid s.visiting }

-- What follows the calls on the parents: `depth[nid] = …`, `visiting.discard(nid)`.
unfoldable pub leave : ℤ → Option (List ℕ × Search) → Option (ℕ × Search)
unfolding insert below discard
leave nid none = none
leave nid (some (ds, s)) =
    some (
      below ds,
      record { depth = insert nid (below ds) s.depth; visiting = discard nid s.visiting },
    )

module _ (parents : Parents) where
  -- `resolve`, with `none` when the fuel is used up
  unfoldable pub resolve : (fuel : ℕ) → ℤ → Search → Option (ℕ × Search)
  unfolding lookup elem parents_of each enter leave
  resolve zero nid s = none
  resolve (suc fuel) nid s = elim (lookup nid s.depth) [
    | some d ↦ some (d, s)
    | none ↦ elim (elem nid s.visiting) [
      | true ↦ some (0, s)
      | false ↦ leave nid (each (resolve fuel) (parents_of parents nid) (enter nid s))
    ]
  ]

-- `layers[i].append(nid)`
unfoldable pub append_at : ℕ → ℤ → List (List ℤ) → List (List ℤ)
append_at i nid [] = []
append_at zero nid (layer ∷ layers) = (layer ++ nid ∷ []) ∷ layers
append_at (suc i) nid (layer ∷ layers) = layer ∷ append_at i nid layers

-- `for nid in sorted(depth): layers[depth[nid]].append(nid)`, for the ids in that order
unfoldable pub fill : Dict ℤ ℕ → List ℤ → List (List ℤ) → List (List ℤ)
unfolding append_at lookup
fill depth [] layers = layers
fill depth (nid ∷ nids) layers =
    fill depth nids (elim (lookup nid depth) [ none ↦ layers | some d ↦ append_at d nid layers ])

-- `max(depth.values(), default=0)`
unfoldable pub deepest : Dict ℤ ℕ → ℕ
deepest [] = 0
deepest ((nid, d) ∷ depth) = max d (deepest depth)

unfoldable pub empty_layers : ℕ → List (List ℤ)
empty_layers zero = []
empty_layers (suc n) = [] ∷ empty_layers n

unfoldable pub layered : Dict ℤ ℕ → List (List ℤ)
unfolding fill sort deepest empty_layers
layered depth =
    fill depth (sort int_leb (map (λ e. e.0) depth)) (empty_layers (suc (deepest depth)))

-- `_layers`, with fuel for a call within a call for each of the nodes, and one more
unfoldable pub layers : List DagNode → Option (List (List ℤ))
unfolding each resolve all_parents layered
layers [] = some []
layers (n ∷ ns) =
    elim (each (resolve (all_parents (n ∷ ns)) (suc (length (n ∷ ns)))) (map (λ m. m.id) (n ∷ ns))
      (record { depth = []; visiting = [] })) [
        | none ↦ none
        | some (ds, s) ↦ some (layered s.depth)
      ]
