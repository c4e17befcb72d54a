-- ===== src/Executor/Scheduler/Deps.antt =====
-- `_dependency_map` holds exactly the edges that `topo_sort` sorts by.
use glassrail.Common.{
  Dict, In, In-iff, List, Option-cases, String, [], add, arith, count, count-add_iff, inl, inr,
  insert, int_beq_iff, is_some, lookup, lookup-insert, none, refl, true, ℤ, ◌↔◌, ◌∙◌, ◌∷◌, ◌≡◌, ◌≤◌,
  ◌⊎◌, int_eq,
}
use glassrail.Core.{Node}
use glassrail.Validator.Topo.{ids, branch_items}
use glassrail.Validator.Topo.Edges.{InBranches, DependsOn}
use glassrail.Executor.Plans.{
  DepMap, deps_at, content_map, add_control, add_controls, add_branches, control_map,
  dependency_map,
}

abbrev pub Reads : List Node → (d i : ℤ) → Type 0
Reads [] d i = ⊥
Reads (n ∷ ns) d i = (n.id ≡ i) × In d n.context_needed ⊎ Reads ns d i

abbrev pub Decides : List Node → (d i : ℤ) → Type 0
Decides [] d i = ⊥
Decides (n ∷ ns) d i = (n.id ≡ d) × InBranches i (branch_items n) ⊎ Decides ns d i

module _ (d i : ℤ) where
  content_map_other :
      (ns : List Node) (m : DepMap)
      → count i (ids ns) ≡ 0
      → lookup i (content_map ns m) ≡ lookup i m
  unfolding content_map count
  content_map_other [] m h = refl
  content_map_other (n ∷ ns) m h = ground (
    arith,
    content_map_other ns (insert n.id n.context_needed m),
    lookup-insert n.id i n.context_needed m,
    int_beq_iff n.id i,
    int_beq_iff i n.id,
  )

  Reads-known : (ns : List Node) → Reads ns d i → 1 ≤ count i (ids ns)
  unfolding count
  Reads-known [] r = absurd r
  Reads-known (n ∷ ns) (inl (e, m)) = ground (arith, int_beq_iff i n.id)
  Reads-known (n ∷ ns) (inr r) = omega (arith, Reads-known ns r)

  content_map_iff :
      (ns : List Node) (m : DepMap)
      → count i (ids ns) ≤ 1
      → (1 ≤ count i (ids ns) → lookup i m ≡ none)
      → (1 ≤ count d (deps_at (content_map ns m) i)) ↔ ((1 ≤ count d (deps_at m i)) ⊎ Reads ns d i)
  unfolding content_map count
  content_map_iff [] m u f = ground arith
  content_map_iff (n ∷ ns) m u f = ground (
    arith,
    content_map_other ns (insert n.id n.context_needed m),
    content_map_iff ns (insert n.id n.context_needed m),
    lookup-insert n.id i n.context_needed m,
    int_beq_iff n.id i,
    int_beq_iff i n.id,
    In-iff d n.context_needed,
    Reads-known ns,
  )

  content_map_key :
      (ns : List Node) (m : DepMap)
      → 1 ≤ count i (ids ns)
      → is_some (lookup i (content_map ns m)) ≡ true
  unfolding content_map count
  content_map_key [] m h = elim h [ ]
  content_map_key (n ∷ ns) m h = ground (
    arith,
    content_map_key ns (insert n.id n.context_needed m),
    content_map_other ns (insert n.id n.context_needed m),
    lookup-insert n.id i n.context_needed m,
    int_beq_iff n.id i,
    int_beq_iff i n.id,
  )

  add_control_iff :
      (node t : ℤ) (m : DepMap)
      → is_some (lookup i m) ≡ true
      → (1 ≤ count d (deps_at (add_control node t m) i))
        ↔ ((1 ≤ count d (deps_at m i)) ⊎ (node ≡ d) × (i ≡ t))
  unfolding add_control count
  add_control_iff node t m k = elim (Option-cases (lookup t m)) [
    | inl e ↦ ground (arith, int_beq_iff i t)
    | inr (ds, e) ↦
        ground (arith, count-add_iff d node ds, lookup-insert t i (add node ds) m, int_beq_iff t i)
  ]

  add_control_key :
      (node t : ℤ) (m : DepMap) → is_some (lookup i (add_control node t m)) ≡ is_some (lookup i m)
  unfolding add_control
  add_control_key node t m = elim (Option-cases (lookup t m)) [
    | inl e ↦ ground arith
    | inr (ds, e) ↦ ground (arith, lookup-insert t i (add node ds) m, int_beq_iff t i)
  ]

  add_controls_iff :
      (node : ℤ) (ts : List ℤ) (m : DepMap)
      → is_some (lookup i m) ≡ true
      → (1 ≤ count d (deps_at (add_controls node ts m) i))
        ↔ ((1 ≤ count d (deps_at m i)) ⊎ (node ≡ d) × In i ts)
  unfolding add_controls
  add_controls_iff node [] m k = ground arith
  add_controls_iff node (t ∷ ts) m k = ground (
    arith,
    add_controls_iff node ts (add_control node t m),
    add_control_iff node t m,
    add_control_key node t m,
  )

  add_controls_key :
      (node : ℤ) (ts : List ℤ) (m : DepMap)
      → is_some (lookup i (add_controls node ts m)) ≡ is_some (lookup i m)
  unfolding add_controls
  add_controls_key node [] m = refl
  add_controls_key node (t ∷ ts) m =
      add_controls_key node ts (add_control node t m) ∙ add_control_key node t m

  add_branches_iff :
      (node : ℤ) (bs : Dict String (List ℤ)) (m : DepMap)
      → is_some (lookup i m) ≡ true
      → (1 ≤ count d (deps_at (add_branches node bs m) i))
        ↔ ((1 ≤ count d (deps_at m i)) ⊎ (node ≡ d) × InBranches i bs)
  unfolding add_branches
  add_branches_iff node [] m k = ground arith
  add_branches_iff node ((b, ts) ∷ bs) m k = ground (
    arith,
    add_branches_iff node bs (add_controls node ts m),
    add_controls_iff node ts m,
    add_controls_key node ts m,
  )

  add_branches_key :
      (node : ℤ) (bs : Dict String (List ℤ)) (m : DepMap)
      → is_some (lookup i (add_branches node bs m)) ≡ is_some (lookup i m)
  unfolding add_branches
  add_branches_key node [] m = refl
  add_branches_key node ((b, ts) ∷ bs) m =
      add_branches_key node bs (add_controls node ts m) ∙ add_controls_key node ts m

  control_map_iff :
      (ns : List Node) (m : DepMap)
      → is_some (lookup i m) ≡ true
      → (1 ≤ count d (deps_at (control_map ns m) i))
        ↔ ((1 ≤ count d (deps_at m i)) ⊎ Decides ns d i)
  unfolding control_map
  control_map_iff [] m k = ground arith
  control_map_iff (n ∷ ns) m k = ground (
    arith,
    control_map_iff ns (add_branches n.id (branch_items n) m),
    add_branches_iff n.id (branch_items n) m,
    add_branches_key n.id (branch_items n) m,
  )

  pub DependsOn-iff : (ns : List Node) → DependsOn ns d i ↔ (Reads ns d i ⊎ Decides ns d i)
  DependsOn-iff [] = ground arith
  DependsOn-iff (n ∷ ns) = ground (arith, DependsOn-iff ns)

-- The scheduler waits for `d` before it starts `i` exactly when the validator sorted `d` before
-- `i` for a reason: `i` reads the output of `d`, or `d` is a decision over `i`.
pub dependency_map_iff :
    (ns : List Node) (d i : ℤ)
    → count i (ids ns) ≡ 1
    → (1 ≤ count d (deps_at (dependency_map ns) i)) ↔ DependsOn ns d i
unfolding dependency_map lookup count
dependency_map_iff ns d i h = ground (
  arith,
  DependsOn-iff d i ns,
  content_map_iff d i ns [] (omega arith) (λ _. refl),
  content_map_key d i ns [] (omega arith),
  control_map_iff d i ns (content_map ns []),
)
