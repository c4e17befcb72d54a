-- ===== src/Gateways/Dag/Layout/Linked.antt =====
-- The edges that are drawn are links of the plan.
use glassrail.Common.{
  Bool-cases, Dict, In, List, [], any, ap, arith, beq_refl, count, elem, elem_iff_count, inl, inr,
  insert, insert_sorted, refl, sort, subst, ℤ, ◌==◌, ◌∷◌, ◌≤◌, int_eq,
}
use glassrail.Gateways.Dag.{DagNode}
use glassrail.Gateways.Dag.Layers.{id_set}
use glassrail.Gateways.Dag.Layers.Links.{Links}
use glassrail.Gateways.Dag.Layout.{
  Edge, add_edge, edge_beq, by_id, dep_edges, target_edges, node_edges, edge_leb, edges,
}

-- All edges are links.
abbrev pub Linked : List DagNode → List Edge → Type 0
Linked ns [] = Unit {0}
Linked ns ((p, c) ∷ es) = Links (id_set ns) ns p c × Linked ns es

Linked-add_edge :
    (ns : List DagNode) (p c : ℤ) (es : List Edge)
    → Links (id_set ns) ns p c
    → Linked ns es
    → Linked ns (add_edge (p, c) es)
unfolding add_edge
Linked-add_edge ns p c es link all_linked = elim (Bool-cases (any (edge_beq (p, c)) es)) [
  | inl e ↦ rw e all_linked
  | inr e ↦ rw e (link, all_linked)
]

Links-In_dep :
    (ids : List ℤ) (ns : List DagNode) (n : DagNode) (p : ℤ)
    → In n ns
    → 1 ≤ count p n.context_needed
    → 1 ≤ count p ids
    → Links ids ns p n.id
Links-In_dep ids [] n p h m k = absurd h
Links-In_dep ids (x ∷ ns) n p (inl e) m k =
    inl (ap (λ y. y.id) e, subst (λ y. 1 ≤ count p y.context_needed) e m, k)
Links-In_dep ids (x ∷ ns) n p (inr h) m k = inr (inr (Links-In_dep ids ns n p h m k))

Links-In_target :
    (ids : List ℤ) (ns : List DagNode) (n : DagNode) (c : ℤ)
    → In n ns
    → 1 ≤ count c n.branch_targets
    → 1 ≤ count c ids
    → Links ids ns n.id c
Links-In_target ids [] n c h m k = absurd h
Links-In_target ids (x ∷ ns) n c (inl e) m k =
    inr (inl (ap (λ y. y.id) e, subst (λ y. 1 ≤ count c y.branch_targets) e m, k))
Links-In_target ids (x ∷ ns) n c (inr h) m k = inr (inr (Links-In_target ids ns n c h m k))

module _ (ns : List DagNode) where
  dep_edges-Linked :
      (c : ℤ) (deps : List ℤ) (es : List Edge)
      → ((p : ℤ) → 1 ≤ count p deps → 1 ≤ count p (id_set ns) → Links (id_set ns) ns p c)
      → Linked ns es
      → Linked ns (dep_edges (id_set ns) c deps es)
  unfolding dep_edges count
  dep_edges-Linked c [] es links all_linked = all_linked
  dep_edges-Linked c (p ∷ deps) es links all_linked = elim (Bool-cases (elem p (id_set ns))) [
    | inl e ↦ rw e (
        dep_edges-Linked c deps (add_edge (p, c) es) (λ q m. links q (omega arith))
          (Linked-add_edge ns p c es
            (links p (ground (arith, beq_refl p)) ((elem_iff_count p (id_set ns)).0 e)) all_linked))
    | inr e ↦ rw e (dep_edges-Linked c deps es (λ q m. links q (omega arith)) all_linked)
  ]

  target_edges-Linked :
      (p : ℤ) (targets : List ℤ) (es : List Edge)
      → ((c : ℤ) → 1 ≤ count c targets → 1 ≤ count c (id_set ns) → Links (id_set ns) ns p c)
      → Linked ns es
      → Linked ns (target_edges (id_set ns) p targets es)
  unfolding target_edges count
  target_edges-Linked p [] es links all_linked = all_linked
  target_edges-Linked p (c ∷ targets) es links all_linked = elim (Bool-cases (elem c (id_set ns))) [
    | inl e ↦ rw e (
        target_edges-Linked p targets (add_edge (p, c) es) (λ q m. links q (omega arith))
          (Linked-add_edge ns p c es
            (links c (ground (arith, beq_refl c)) ((elem_iff_count c (id_set ns)).0 e)) all_linked))
    | inr e ↦ rw e (target_edges-Linked p targets es (λ q m. links q (omega arith)) all_linked)
  ]

  -- The nodes of a dictionary are those of the plan.
  abbrev Known : Dict ℤ DagNode → Type 0
  Known [] = Unit {0}
  Known ((k, n) ∷ d) = In n ns × Known d

  Known-insert :
      (k : ℤ) (n : DagNode) (d : Dict ℤ DagNode) → In n ns → Known d → Known (insert k n d)
  unfolding insert
  Known-insert k n [] h known = (h, tt)
  Known-insert k n ((i, m) ∷ d) h (here, known) = elim (Bool-cases (i == k)) [
    | inl e ↦ rw e (h, known)
    | inr e ↦ rw e (here, Known-insert k n d h known)
  ]

  Known-by_id :
      (ms : List DagNode) (d : Dict ℤ DagNode)
      → ((m : DagNode) → In m ms → In m ns)
      → Known d
      → Known (by_id ms d)
  unfolding by_id
  Known-by_id [] d inside known = known
  Known-by_id (m ∷ ms) d inside known =
      Known-by_id ms (insert m.id m d) (λ x h. inside x (inr h))
        (Known-insert m.id m d (inside m (inl refl)) known)

  node_edges-Linked :
      (d : Dict ℤ DagNode) (es : List Edge)
      → Known d
      → Linked ns es
      → Linked ns (node_edges (id_set ns) d es)
  unfolding node_edges
  node_edges-Linked [] es known all_linked = all_linked
  node_edges-Linked ((k, n) ∷ d) es (here, known) all_linked =
      node_edges-Linked d
        (target_edges (id_set ns) n.id n.branch_targets
          (dep_edges (id_set ns) n.id n.context_needed es))
        known
        (target_edges-Linked n.id n.branch_targets (dep_edges (id_set ns) n.id n.context_needed es)
          (λ c m k. Links-In_target (id_set ns) ns n c here m k)
          (dep_edges-Linked n.id n.context_needed es
            (λ p m k. Links-In_dep (id_set ns) ns n p here m k) all_linked))

  insert_sorted-Linked :
      (p c : ℤ) (es : List Edge)
      → Links (id_set ns) ns p c
      → Linked ns es
      → Linked ns (insert_sorted edge_leb (p, c) es)
  unfolding insert_sorted
  insert_sorted-Linked p c [] link all_linked = (link, tt)
  insert_sorted-Linked p c ((q, d) ∷ es) link (here, rest) =
      elim (Bool-cases (edge_leb (p, c) (q, d))) [
        | inl e ↦ rw e (link, (here, rest))
        | inr e ↦ rw e (here, insert_sorted-Linked p c es link rest)
      ]

  sort-Linked : (es : List Edge) → Linked ns es → Linked ns (sort edge_leb es)
  unfolding sort
  sort-Linked [] h = tt
  sort-Linked ((p, c) ∷ es) (link, rest) =
      insert_sorted-Linked p c (sort edge_leb es) link (sort-Linked es rest)

  pub edges-Linked : Linked ns (edges ns)
  unfolding edges
  edges-Linked =
      sort-Linked (node_edges (id_set ns) (by_id ns []) [])
        (node_edges-Linked (by_id ns []) [] (Known-by_id ns [] (λ m h. h) tt) tt)
