-- ===== src/Validator/Topo/Edges.antt =====
-- What `collect_edges` collects, and when it raises.
use glassrail.Common.{
  >>=-eq-ok, Dict, In, List, String, [], add, arith, count, count-add_iff, elem_iff_count, inl, inr,
  ok, refl, ℤ, ◌↔◌, ◌∷◌, ◌≡◌, ◌≤◌, ◌⊎◌, int_eq,
}
use glassrail.Core.{Node}
use glassrail.Validator.Topo.{
  Edge, edge_eq, branch_items, dependency_edges, target_edges, branch_edges, node_edges,
  collect_edges,
}

-- `t` is a target of one of the branches.
abbrev pub InBranches : ℤ → Dict String (List ℤ) → Type 0
InBranches t [] = ⊥
InBranches t ((b, ts) ∷ bs) = In t ts ⊎ InBranches t bs

-- One node makes `t` wait for `s`: `t` reads the output of `s`, or `s` is a decision over `t`.
abbrev pub NodeEdge : Node → ℤ → ℤ → Type 0
NodeEdge n s t = (n.id ≡ t) × In s n.context_needed ⊎ (n.id ≡ s) × InBranches t (branch_items n)

abbrev pub DependsOn : List Node → ℤ → ℤ → Type 0
DependsOn [] s t = ⊥
DependsOn (n ∷ ns) s t = NodeEdge n s t ⊎ DependsOn ns s t

module _ (all_ids : List ℤ) (node : ℤ) (s t : ℤ) where
  dependency_edges_iff :
      (deps : List ℤ) (edges es : List Edge)
      → dependency_edges all_ids node deps edges ≡ ok es
      → (1 ≤ count (s, t) es) ↔ ((1 ≤ count (s, t) edges) ⊎ (node ≡ t) × In s deps)
  unfolding dependency_edges
  dependency_edges_iff [] edges es h = ground arith
  dependency_edges_iff (dep ∷ deps) edges es h = ground (
    arith,
    elem_iff_count dep all_ids,
    count-add_iff (s, t) (dep, node) edges,
    dependency_edges_iff deps (add (dep, node) edges) es,
  )

  target_edges_iff :
      (b : String) (ts : List ℤ) (edges es : List Edge)
      → target_edges all_ids node b ts edges ≡ ok es
      → (1 ≤ count (s, t) es) ↔ ((1 ≤ count (s, t) edges) ⊎ (node ≡ s) × In t ts)
  unfolding target_edges
  target_edges_iff b [] edges es h = ground arith
  target_edges_iff b (u ∷ ts) edges es h = ground (
    arith,
    elem_iff_count u all_ids,
    count-add_iff (s, t) (node, u) edges,
    target_edges_iff b ts (add (node, u) edges) es,
  )

  branch_edges_iff :
      (bs : Dict String (List ℤ)) (edges es : List Edge)
      → branch_edges all_ids node bs edges ≡ ok es
      → (1 ≤ count (s, t) es) ↔ ((1 ≤ count (s, t) edges) ⊎ (node ≡ s) × InBranches t bs)
  unfolding branch_edges
  branch_edges_iff [] edges es h = ground arith
  branch_edges_iff ((b, ts) ∷ bs) edges es h =
      let (mid, first, rest) =
        >>=-eq-ok (target_edges all_ids node b ts edges) (branch_edges all_ids node bs) h in
      ground (arith, target_edges_iff b ts edges mid, branch_edges_iff bs mid es)

-- The edges collected are those of the nodes, and those collected before.
pub collect_edges_iff :
    (all_ids : List ℤ) (s t : ℤ) (ns : List Node) (edges es : List Edge)
    → collect_edges all_ids ns edges ≡ ok es
    → (1 ≤ count (s, t) es) ↔ ((1 ≤ count (s, t) edges) ⊎ DependsOn ns s t)
unfolding collect_edges
collect_edges_iff all_ids s t [] edges es h = ground arith
collect_edges_iff all_ids s t (n ∷ ns) edges es h =
    let (mid, found, last) = >>=-eq-ok (node_edges all_ids n edges) (collect_edges all_ids ns) h in
    let (deps, first, second) =
      >>=-eq-ok (dependency_edges all_ids n.id n.context_needed edges)
        (branch_edges all_ids n.id (branch_items n)) found in
    ground (
      arith,
      dependency_edges_iff all_ids n.id s t n.context_needed edges deps,
      branch_edges_iff all_ids n.id s t (branch_items n) deps mid,
      collect_edges_iff all_ids s t ns mid es,
    )

-- The ids that a node refers to are ids of the plan.
abbrev pub RefersTo : Node → ℤ → Type 0
RefersTo n i = In i n.context_needed ⊎ InBranches i (branch_items n)

abbrev pub AllRefer : (all_ids : List ℤ) → List Node → Type 0
AllRefer all_ids [] = Unit
AllRefer all_ids (n ∷ ns) = ((i : ℤ) → RefersTo n i → 1 ≤ count i all_ids) × AllRefer all_ids ns

module _ (all_ids : List ℤ) (node : ℤ) where
  dependency_edges_known :
      (i : ℤ) (deps : List ℤ) (edges es : List Edge)
      → dependency_edges all_ids node deps edges ≡ ok es
      → In i deps
      → 1 ≤ count i all_ids
  unfolding dependency_edges
  dependency_edges_known i [] edges es h m = absurd m
  dependency_edges_known i (dep ∷ deps) edges es h m =
      ground (
        arith,
        elem_iff_count dep all_ids,
        dependency_edges_known i deps (add (dep, node) edges) es,
      )

  target_edges_known :
      (i : ℤ) (b : String) (ts : List ℤ) (edges es : List Edge)
      → target_edges all_ids node b ts edges ≡ ok es
      → In i ts
      → 1 ≤ count i all_ids
  unfolding target_edges
  target_edges_known i b [] edges es h m = absurd m
  target_edges_known i b (u ∷ ts) edges es h m =
      ground (arith, elem_iff_count u all_ids, target_edges_known i b ts (add (node, u) edges) es)

  branch_edges_known :
      (i : ℤ) (bs : Dict String (List ℤ)) (edges es : List Edge)
      → branch_edges all_ids node bs edges ≡ ok es
      → InBranches i bs
      → 1 ≤ count i all_ids
  unfolding branch_edges
  branch_edges_known i [] edges es h m = absurd m
  branch_edges_known i ((b, ts) ∷ bs) edges es h m =
      let (mid, first, rest) =
        >>=-eq-ok (target_edges all_ids node b ts edges) (branch_edges all_ids node bs) h in
      ground (arith, target_edges_known i b ts edges mid, branch_edges_known i bs mid es)

  dependency_edges_total :
      (deps : List ℤ) (edges : List Edge)
      → ((i : ℤ) → In i deps → 1 ≤ count i all_ids)
      → (es : List Edge) × (dependency_edges all_ids node deps edges ≡ ok es)
  unfolding dependency_edges
  dependency_edges_total [] edges h = (edges, refl)
  dependency_edges_total (dep ∷ deps) edges h =
      let (es, e) = dependency_edges_total deps (add (dep, node) edges) (λ i m. h i (inr m)) in
      (es, ground (arith, elem_iff_count dep all_ids, h dep (inl refl)))

  target_edges_total :
      (b : String) (ts : List ℤ) (edges : List Edge)
      → ((i : ℤ) → In i ts → 1 ≤ count i all_ids)
      → (es : List Edge) × (target_edges all_ids node b ts edges ≡ ok es)
  unfolding target_edges
  target_edges_total b [] edges h = (edges, refl)
  target_edges_total b (u ∷ ts) edges h =
      let (es, e) = target_edges_total b ts (add (node, u) edges) (λ i m. h i (inr m)) in
      (es, ground (arith, elem_iff_count u all_ids, h u (inl refl)))

  branch_edges_total :
      (bs : Dict String (List ℤ)) (edges : List Edge)
      → ((i : ℤ) → InBranches i bs → 1 ≤ count i all_ids)
      → (es : List Edge) × (branch_edges all_ids node bs edges ≡ ok es)
  unfolding branch_edges
  branch_edges_total [] edges h = (edges, refl)
  branch_edges_total ((b, ts) ∷ bs) edges h =
      let (mid, e) = target_edges_total b ts edges (λ i m. h i (inl m)) in
      let (es, e') = branch_edges_total bs mid (λ i m. h i (inr m)) in (es, rw e e')

pub collect_edges_known :
    (all_ids : List ℤ) (ns : List Node) (edges es : List Edge)
    → collect_edges all_ids ns edges ≡ ok es
    → AllRefer all_ids ns
unfolding collect_edges
collect_edges_known all_ids [] edges es h = tt
collect_edges_known all_ids (n ∷ ns) edges es h =
    let (mid, found, last) = >>=-eq-ok (node_edges all_ids n edges) (collect_edges all_ids ns) h in
    let (deps, first, second) =
      >>=-eq-ok (dependency_edges all_ids n.id n.context_needed edges)
        (branch_edges all_ids n.id (branch_items n)) found in
    (
      λ i. elim [
        | inl m ↦ dependency_edges_known all_ids n.id i n.context_needed edges deps first m
        | inr m ↦ branch_edges_known all_ids n.id i (branch_items n) deps mid second m
      ],
      collect_edges_known all_ids ns mid es last,
    )

-- It raises only for a reference to an id that is not there.
pub collect_edges_total :
    (all_ids : List ℤ) (ns : List Node) (edges : List Edge)
    → AllRefer all_ids ns
    → (es : List Edge) × (collect_edges all_ids ns edges ≡ ok es)
unfolding collect_edges
collect_edges_total all_ids [] edges h = (edges, refl)
collect_edges_total all_ids (n ∷ ns) edges h =
    let (deps, e) =
      dependency_edges_total all_ids n.id n.context_needed edges (λ i m. h.0 i (inl m)) in
    let (mid, e') = branch_edges_total all_ids n.id (branch_items n) deps (λ i m. h.0 i (inr m)) in
    let (es, e'') = collect_edges_total all_ids ns mid h.1 in (es, rw e (rw e' e''))
