-- ===== src/Validator/Topo/Success.antt =====
-- When `topo_sort` succeeds.
use glassrail.Common.{
  In, List, [], ap, arith, count, count_of_In, length, length-le_of_count, length-map, ok, suc,
  zero, ℕ, ℤ, ◌+◌, ◌<◌, ◌∷◌, ◌≡◌, ◌≤◌, int_eq,
}
use glassrail.Core.{Node}
use glassrail.Validator.Topo.{Edge, edge_eq, Kahn, ids, id_set, collect_edges, kahn, topo_sort}
use glassrail.Validator.Topo.Counts.{pend_of_done}
use glassrail.Validator.Topo.Steps.{IsSound}
use glassrail.Validator.Topo.Drain.{count-id_set, count-id_set-le, kahn-IsSound}
use glassrail.Validator.Topo.Edges.{DependsOn, AllRefer, collect_edges_iff, collect_edges_total}
use glassrail.Validator.Topo.Order.{DependsOn-known, count-ids_self}

-- The ids of the plan are distinct, every reference is to one of them, and the numbers `rank` show
-- that no id waits for itself.
pub record IsAcyclic (ns : List Node) (rank : ℤ → ℕ) : Type 0 where
  pub distinct : (i : ℤ) → count i (ids ns) ≤ 1
  pub refer : AllRefer (ids ns) ns
  pub falls : (s t : ℤ) → DependsOn ns s t → rank s < rank t

AllRefer-id_set : (is : List ℤ) (ns : List Node) → AllRefer is ns → AllRefer (id_set is) ns
AllRefer-id_set is [] h = tt
AllRefer-id_set is (n ∷ ns) h = (λ i m. (count-id_set i is).1 (h.0 i m), AllRefer-id_set is ns h.1)

module _ (ns : List Node) (rank : ℤ → ℕ) (ok_plan : IsAcyclic ns rank) (es : List Edge)
    (collected : collect_edges (id_set (ids ns)) ns [] ≡ ok es) where
  abbrev all_ids : List ℤ
  all_ids = id_set (ids ns)

  abbrev last : Kahn
  last = kahn (id_set (ids ns)) es

  edge-DependsOn : (s t : ℤ) → In (s, t) es → DependsOn ns s t
  unfolding count
  edge-DependsOn s t m =
      ground (arith, collect_edges_iff all_ids s t ns [] es collected, count_of_In (s, t) es m)

  edge_known : (s t : ℤ) → In (s, t) es → (1 ≤ count s all_ids) × (1 ≤ count t all_ids)
  edge_known s t m =
      DependsOn-known all_ids s t ns (count-ids_self ns) (AllRefer-id_set (ids ns) ns ok_plan.refer)
        (edge-DependsOn s t m)

  last_run : IsSound es all_ids [] last × (last.queue ≡ [])
  last_run =
      kahn-IsSound es all_ids (λ s t m. (edge_known s t m).1) (λ x. count-id_set-le x (ids ns))

  sorted_below :
      (bound : ℕ) (x : ℤ) → rank x < bound → 1 ≤ count x all_ids → 1 ≤ count x last.sorted_ids
  unfolding count
  sorted_below zero x low h = elim low [ ]
  sorted_below (suc bound) x low h = ground (
    arith,
    last_run.0.complete x h,
    last_run.0.degrees x,
    ap (count x) last_run.1,
    pend_of_done es last.sorted_ids x (λ s m.
        sorted_below bound s (omega (arith, ok_plan.falls s x (edge-DependsOn s x m)))
          (edge_known s x m).0),
  )

  sorted_all : (length last.sorted_ids) ≡ length ns
  sorted_all = omega (
    arith,
    length-map ns (λ n. n.id),
    length-le_of_count last.sorted_ids (ids ns)
        (λ x. ground (arith, last_run.0.once x, last_run.0.known x, count-id_set x (ids ns))),
    length-le_of_count (ids ns) last.sorted_ids (λ x. ground (
      arith,
      ok_plan.distinct x,
      count-id_set x (ids ns),
      sorted_below (rank x + 1) x (omega arith),
    )),
  )

-- `topo_sort` accepts every plan whose ids are distinct, whose references exist and whose
-- dependencies have no cycle.
pub topo_sort_complete :
    (ns : List Node) (rank : ℤ → ℕ) → IsAcyclic ns rank → (out : List ℤ) × (topo_sort ns ≡ ok out)
unfolding topo_sort
topo_sort_complete ns rank h =
    let (es, e) =
      collect_edges_total (id_set (ids ns)) ns [] (AllRefer-id_set (ids ns) ns h.refer) in
    ((kahn (id_set (ids ns)) es).sorted_ids, rw e (ground (arith, sorted_all ns rank h es e)))
