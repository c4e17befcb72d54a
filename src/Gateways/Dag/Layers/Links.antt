-- ===== src/Gateways/Dag/Layers/Links.antt =====
-- The table of parents holds what the nodes link: a dependency links it to its node, and a decision
-- its node to each target.
use glassrail.Common.{
  Bool-cases, List, [], add, ap, arith, count, count-add_iff, elem, elem_iff_count, if◌then◌else◌,
  inl, inr, insert, lookup, lookup-insert, map, sym, ℤ, ◌==◌, ◌↔◌, ◌∷◌, ◌≡◌, ◌≤◌, ◌⊎◌, int_eq,
}
use glassrail.Gateways.Dag.{DagNode}
use glassrail.Gateways.Dag.Layers.{
  Parents, parents_of, no_parents, add_parent, add_deps, add_targets, add_edges, all_parents,
  id_set,
}

-- One of the nodes links `p` to `c`, both of which are in `ids`.
abbrev pub Links : (ids : List ℤ) → List DagNode → (p c : ℤ) → Type 0
Links ids [] p c = ⊥
Links ids (n ∷ ns) p c =
    ((c ≡ n.id) × (1 ≤ count p n.context_needed) × (1 ≤ count p ids))
    ⊎ (((p ≡ n.id) × (1 ≤ count c n.branch_targets) × (1 ≤ count c ids)) ⊎ Links ids ns p c)

-- `p` is a parent of `c` in the table.
abbrev pub Has : Parents → (p c : ℤ) → Type 0
Has parents p c = 1 ≤ count p (parents_of parents c)

parents_of-insert :
    (c x : ℤ) (new : List ℤ) (parents : Parents)
    → parents_of (insert c new parents) x ≡ (if c == x then new else parents_of parents x)
unfolding parents_of
parents_of-insert c x new parents = ground (arith, lookup-insert c x new parents)

add_parent_iff :
    (c q p x : ℤ) (parents : Parents)
    → Has (add_parent c q parents) p x ↔ (((x ≡ c) × (p ≡ q)) ⊎ Has parents p x)
unfolding add_parent
add_parent_iff c q p x parents = elim (Bool-cases (c == x)) [
  | inl e ↦
      let same : c ≡ x = (int_eq.beq_iff c x).0 e in
      let grown : parents_of (add_parent c q parents) x ≡ add q (parents_of parents x) = ground (
        arith,
        e,
        parents_of-insert c x (add q (parents_of parents c)) parents,
        ap (λ k. add q (parents_of parents k)) same,
      ) in
      ground (arith, sym same, ap (count p) grown, count-add_iff p q (parents_of parents x))
  | inr e ↦ ground (
    arith,
    e,
    ap (count p) (parents_of-insert c x (add q (parents_of parents c)) parents),
    int_eq.beq_iff c x,
    λ (same : x ≡ c). (int_eq.beq_iff c x).1 (sym same),
  )
]

add_deps_iff :
    (ids : List ℤ) (c p x : ℤ) (deps : List ℤ) (parents : Parents)
    → Has (add_deps ids c deps parents) p x
      ↔ (((x ≡ c) × (1 ≤ count p deps) × (1 ≤ count p ids)) ⊎ Has parents p x)
unfolding add_deps count
add_deps_iff ids c p x [] parents = ground arith
add_deps_iff ids c p x (dep ∷ deps) parents = elim (Bool-cases (elem dep ids)) [
  | inl e ↦ ground (
    arith,
    e,
    add_deps_iff ids c p x deps (add_parent c dep parents),
    add_parent_iff c dep p x parents,
    int_eq.beq_iff p dep,
    elem_iff_count p ids,
    λ (same : p ≡ dep). ap (λ k. elem k ids) same,
  )
  | inr e ↦ ground (
    arith,
    e,
    add_deps_iff ids c p x deps parents,
    int_eq.beq_iff p dep,
    elem_iff_count p ids,
    λ (same : p ≡ dep). ap (λ k. elem k ids) same,
  )
]

add_targets_iff :
    (ids : List ℤ) (q p x : ℤ) (targets : List ℤ) (parents : Parents)
    → Has (add_targets ids q targets parents) p x
      ↔ (((p ≡ q) × (1 ≤ count x targets) × (1 ≤ count x ids)) ⊎ Has parents p x)
unfolding add_targets count
add_targets_iff ids q p x [] parents = ground arith
add_targets_iff ids q p x (t ∷ targets) parents = elim (Bool-cases (elem t ids)) [
  | inl e ↦ ground (
    arith,
    e,
    add_targets_iff ids q p x targets (add_parent t q parents),
    add_parent_iff t q p x parents,
    int_eq.beq_iff x t,
    elem_iff_count x ids,
    λ (same : x ≡ t). ap (λ k. elem k ids) same,
  )
  | inr e ↦ ground (
    arith,
    e,
    add_targets_iff ids q p x targets parents,
    int_eq.beq_iff x t,
    elem_iff_count x ids,
    λ (same : x ≡ t). ap (λ k. elem k ids) same,
  )
]

add_edges_iff :
    (ids : List ℤ) (p c : ℤ) (ns : List DagNode) (parents : Parents)
    → Has (add_edges ids ns parents) p c ↔ (Links ids ns p c ⊎ Has parents p c)
unfolding add_edges
add_edges_iff ids p c [] parents = ground arith
add_edges_iff ids p c (n ∷ ns) parents =
    let grown = add_deps ids n.id n.context_needed parents in
    ground (
      arith,
      add_edges_iff ids p c ns (add_targets ids n.id n.branch_targets grown),
      add_targets_iff ids n.id p c n.branch_targets grown,
      add_deps_iff ids n.id p c n.context_needed parents,
    )

no_parents_none : (ns : List DagNode) (p c : ℤ) → Has (no_parents ns) p c → ⊥
unfolding no_parents parents_of lookup count
no_parents_none [] p c h = elim h [ ]
no_parents_none (n ∷ ns) p c h =
    ground
      (arith, no_parents_none ns p c, ap (count p) (parents_of-insert n.id c [] (no_parents ns)))

pub count-id_set :
    (x : ℤ) (ns : List DagNode) → (1 ≤ count x (id_set ns)) ↔ (1 ≤ count x (map (λ n. n.id) ns))
unfolding id_set count
count-id_set x [] = ground arith
count-id_set x (n ∷ ns) =
    ground (arith, count-id_set x ns, count-add_iff x n.id (id_set ns), int_eq.beq_iff x n.id)

pub all_parents_iff :
    (ns : List DagNode) (p c : ℤ) → Has (all_parents ns) p c ↔ Links (id_set ns) ns p c
unfolding all_parents
all_parents_iff ns p c =
    ground (arith, add_edges_iff (id_set ns) p c ns (no_parents ns), no_parents_none ns p c)

-- Both ends of a link are ids, where those of the nodes are.
Links-known :
    (ids : List ℤ) (ns : List DagNode) (p c : ℤ)
    → ((x : ℤ) → 1 ≤ count x (map (λ n. n.id) ns) → 1 ≤ count x ids)
    → Links ids ns p c
    → (1 ≤ count p ids) × (1 ≤ count c ids)
unfolding count
Links-known ids [] p c known h = absurd h
Links-known ids (n ∷ ns) p c known (inl (e, m, k)) =
    (k, known c (ground (arith, int_eq.beq_iff c n.id)))
Links-known ids (n ∷ ns) p c known (inr (inl (e, m, k))) =
    (known p (ground (arith, int_eq.beq_iff p n.id)), k)
Links-known ids (n ∷ ns) p c known (inr (inr h)) =
    Links-known ids ns p c (λ x m. known x (omega arith)) h

-- Both ends of a link of a plan are ids of its nodes.
pub Has-known :
    (ns : List DagNode) (p c : ℤ)
    → Has (all_parents ns) p c
    → (1 ≤ count p (map (λ n. n.id) ns)) × (1 ≤ count c (map (λ n. n.id) ns))
Has-known ns p c h = ground (
  arith,
  Links-known (id_set ns) ns p c (λ x. (count-id_set x ns).1) ((all_parents_iff ns p c).0 h),
  count-id_set p ns,
  count-id_set c ns,
)
