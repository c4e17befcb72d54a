-- ===== src/Validator/Topo/Ends.antt =====
-- The sort does not end in the error by which the model shows that fuel ran out.
use glassrail.Common.{
  >>=-ne-err, Dict, List, String, [], add, arith, err, length, ℤ, ◌∷◌, ◌≡◌, int_eq,
}
use glassrail.Core.{Node}
use glassrail.Validator.Errors.{Checked, out_of_fuel}
use glassrail.Validator.Topo.{
  Edge, edge_eq, ids, id_set, branch_items, dependency_edges, target_edges, branch_edges,
  node_edges, collect_edges, kahn, finish, topo_sort,
}

-- The call ends otherwise than by running out of fuel.
abbrev pub Ends : {A : Type 0} → Checked A → Type 0
Ends m = m ≡ err out_of_fuel → ⊥

module _ (all_ids : List ℤ) (node : ℤ) where
  dependency_edges-Ends :
      (deps : List ℤ) (es : List Edge) → Ends (dependency_edges all_ids node deps es)
  unfolding dependency_edges
  dependency_edges-Ends [] es e = cc
  dependency_edges-Ends (d ∷ deps) es e =
      ground (arith, e, dependency_edges-Ends deps (add (d, node) es))

  target_edges-Ends :
      (b : String) (ts : List ℤ) (es : List Edge) → Ends (target_edges all_ids node b ts es)
  unfolding target_edges
  target_edges-Ends b [] es e = cc
  target_edges-Ends b (t ∷ ts) es e = ground (arith, e, target_edges-Ends b ts (add (node, t) es))

  branch_edges-Ends :
      (bs : Dict String (List ℤ)) (es : List Edge) → Ends (branch_edges all_ids node bs es)
  unfolding branch_edges
  branch_edges-Ends [] es e = cc
  branch_edges-Ends ((b, ts) ∷ bs) es e =
      >>=-ne-err out_of_fuel (target_edges all_ids node b ts es) (branch_edges all_ids node bs)
        (target_edges-Ends b ts es) (λ mid _. branch_edges-Ends bs mid) e

collect_edges-Ends :
    (all_ids : List ℤ) (ns : List Node) (es : List Edge) → Ends (collect_edges all_ids ns es)
unfolding collect_edges
collect_edges-Ends all_ids [] es e = cc
collect_edges-Ends all_ids (n ∷ ns) es e =
    >>=-ne-err out_of_fuel (node_edges all_ids n es) (collect_edges all_ids ns)
      (>>=-ne-err out_of_fuel (dependency_edges all_ids n.id n.context_needed es)
        (branch_edges all_ids n.id (branch_items n))
        (dependency_edges-Ends all_ids n.id n.context_needed es)
        (λ mid _. branch_edges-Ends all_ids n.id (branch_items n) mid))
      (λ mid _. collect_edges-Ends all_ids ns mid) e

pub topo_sort-Ends : (ns : List Node) → Ends (topo_sort ns)
unfolding topo_sort
topo_sort-Ends ns e =
    >>=-ne-err out_of_fuel (collect_edges (id_set (ids ns)) ns [])
      (λ es. finish (length ns) (kahn (id_set (ids ns)) es).sorted_ids)
      (collect_edges-Ends (id_set (ids ns)) ns []) (λ es _ f. ground (arith, f)) e
