-- ===== src/Validator/Topo/Order.antt =====
-- What a successful `topo_sort` returns.
use glassrail.Common.{
  >>=-eq-ok, In, In-of_count, List, [], arith, count, count-eq_of_length, count_of_In, inl, inr,
  int_beq_iff, length, length-map, ok, ℤ, ◌++◌, ◌↔◌, ◌∷◌, ◌≡◌, ◌≤◌, int_eq,
}
use glassrail.Core.{Node}
use glassrail.Validator.Topo.{Edge, edge_eq, ids, id_set, collect_edges, kahn, finish, topo_sort}
use glassrail.Validator.Topo.Counts.{done_of_pend}
use glassrail.Validator.Topo.Steps.{IsSound, IsOrdered}
use glassrail.Validator.Topo.Drain.{count-id_set, count-id_set-le, kahn-IsSound}
use glassrail.Validator.Topo.Edges.{DependsOn, AllRefer, collect_edges_iff, collect_edges_known}

pub DependsOn-known :
    (all_ids : List ℤ) (s t : ℤ) (ns : List Node)
    → ((x : ℤ) → 1 ≤ count x (ids ns) → 1 ≤ count x all_ids)
    → AllRefer all_ids ns
    → DependsOn ns s t
    → (1 ≤ count s all_ids) × (1 ≤ count t all_ids)
unfolding count
DependsOn-known all_ids s t [] inside h d = absurd d
DependsOn-known all_ids s t (n ∷ ns) inside h (inl (inl (e, m))) =
    (h.0 s (inl m), ground (arith, inside t, int_beq_iff t n.id))
DependsOn-known all_ids s t (n ∷ ns) inside h (inl (inr (e, m))) =
    (ground (arith, inside s, int_beq_iff s n.id), h.0 t (inr m))
DependsOn-known all_ids s t (n ∷ ns) inside h (inr d) =
    DependsOn-known all_ids s t ns (λ x p. inside x (omega arith)) h.1 d

-- Every id stands in the list after the ids that it waits for, which are in `before` at the start.
abbrev pub IsTopological : List Node → (before is : List ℤ) → Type 0
IsTopological ns before [] = Unit
IsTopological ns before (i ∷ is) =
    ((s : ℤ) → DependsOn ns s i → 1 ≤ count s before) × IsTopological ns (before ++ i ∷ []) is

IsTopological-of_IsOrdered :
    (ns : List Node) (es : List Edge)
    → ((s t : ℤ) → DependsOn ns s t → 1 ≤ count (s, t) es)
    → (before is : List ℤ) → IsOrdered es before is
    → IsTopological ns before is
IsTopological-of_IsOrdered ns es h before [] o = tt
IsTopological-of_IsOrdered ns es h before (i ∷ is) o = (
  λ s d. done_of_pend es before s i o.0 (In-of_count (s, i) es (h s i d)),
  IsTopological-of_IsOrdered ns es h (before ++ i ∷ []) is o.1,
)

-- The parts of a successful run.
pub record Sorted (ns : List Node) (out : List ℤ) : Type 0 where
  pub edges : List Edge
  pub collected : collect_edges (id_set (ids ns)) ns [] ≡ ok edges
  pub sorted_all : length out ≡ length ns
  pub out_eq : out ≡ (kahn (id_set (ids ns)) edges).sorted_ids

pub topo_sort-Sorted : (ns : List Node) (out : List ℤ) → topo_sort ns ≡ ok out → Sorted ns out
unfolding topo_sort
topo_sort-Sorted ns out h =
    let (es, collected, rest) =
      >>=-eq-ok (collect_edges (id_set (ids ns)) ns [])
        (λ es. finish (length ns) (kahn (id_set (ids ns)) es).sorted_ids) h in
    record { edges = es; collected = collected; sorted_all = ground arith; out_eq = ground arith }

-- Every node's id is an id of the plan.
pub count-ids_self : (ns : List Node) (x : ℤ) → 1 ≤ count x (ids ns) → 1 ≤ count x (id_set (ids ns))
count-ids_self ns x h = (count-id_set x (ids ns)).1 h

module _ (ns : List Node) (out : List ℤ) (h : topo_sort ns ≡ ok out) where
  Sorted-run : Sorted ns out
  Sorted-run = topo_sort-Sorted ns out h

  abbrev edges_of : List Edge
  edges_of = (topo_sort-Sorted ns out h).edges

  collected_iff : (s t : ℤ) → (1 ≤ count (s, t) edges_of) ↔ DependsOn ns s t
  unfolding count
  collected_iff s t = ground (
    arith,
    collect_edges_iff (id_set (ids ns)) s t ns [] edges_of (topo_sort-Sorted ns out h).collected,
  )

  targets_known : (s t : ℤ) → In (s, t) edges_of → 1 ≤ count t (id_set (ids ns))
  targets_known s t m =
      (DependsOn-known (id_set (ids ns)) s t ns (count-ids_self ns)
        (collect_edges_known (id_set (ids ns)) ns [] edges_of (topo_sort-Sorted ns out h).collected)
        ((collected_iff s t).0 (count_of_In (s, t) edges_of m))).1

  sound : IsSound edges_of (id_set (ids ns)) [] (kahn (id_set (ids ns)) edges_of)
  sound =
      (kahn-IsSound edges_of (id_set (ids ns)) targets_known (λ x. count-id_set-le x (ids ns))).0

  IsOrdered-out : IsOrdered edges_of [] out
  IsOrdered-out = rw (topo_sort-Sorted ns out h).out_eq sound.ordered

-- A plan that `topo_sort` accepts has each of its ids once, the result holds exactly these ids, and
-- it lists every id after all ids that it reads from or that decide over it.
pub topo_sort_sound :
    (ns : List Node) (out : List ℤ)
    → topo_sort ns ≡ ok out
    → ((i : ℤ) → count i out ≡ count i (ids ns))
      × ((i : ℤ) → count i (ids ns) ≤ 1)
      × IsTopological ns [] out
topo_sort_sound ns out h = (same, λ i. omega (arith, same i, at_most_once i), topological)
  where
    r : Sorted ns out
    r = topo_sort-Sorted ns out h

    within : (i : ℤ) → count i out ≤ count i (ids ns)
    within i =
        rw r.out_eq (
          ground
            (arith, (sound ns out h).once i, (sound ns out h).known i, count-id_set i (ids ns)))

    at_most_once : (i : ℤ) → count i out ≤ 1
    at_most_once i = rw r.out_eq (ground (arith, (sound ns out h).once i))

    same : (i : ℤ) → count i out ≡ count i (ids ns)
    same =
        count-eq_of_length out (ids ns) within
          (omega (arith, r.sorted_all, length-map ns (λ n. n.id)))

    topological : IsTopological ns [] out
    topological =
        IsTopological-of_IsOrdered ns r.edges (λ s t d. (collected_iff ns out h s t).1 d) [] out
          (IsOrdered-out ns out h)
