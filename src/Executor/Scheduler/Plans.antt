-- ===== src/Executor/Scheduler/Plans.antt =====
-- A plan whose ids `topo_sort` has sorted is one that the scheduler can run.
use glassrail.Common.{
  Dict, In, In-iff, List, Option-cases, String, [], ap, arith, count, count-append, count-sort,
  count_of_In, inl, inr, int_leb, ok, refl, some, subst, true, truthy, ℤ, ◌++◌, ◌↔◌, ◌∷◌, ◌≡◌, ◌≢◌,
  ◌≤◌, int_eq, string_eq,
}
use glassrail.Core.{Node, NodeResult}
use glassrail.Config.{Settings}
use glassrail.Validator.Topo.{ids, id_set, branch_items, topo_sort}
use glassrail.Validator.Topo.Drain.{count-id_set}
use glassrail.Validator.Topo.Edges.{InBranches, DependsOn, collect_edges_known}
use glassrail.Validator.Topo.Order.{
  IsTopological, Sorted, topo_sort-Sorted, topo_sort_sound, DependsOn-known, count-ids_self,
}
use glassrail.Validator.Nesting.{node_at}
use glassrail.Executor.Plans.{deps_at, dependency_map}
use glassrail.Executor.Recording.{excluded, skipped_targets}
use glassrail.Executor.Scheduler.{Job, job_of}
use glassrail.Executor.Scheduler.Deps.{DependsOn-iff, dependency_map_iff}
use glassrail.Executor.Scheduler.Records.{node_at_known, node_at-Decides, excluded_by}
use glassrail.Executor.Scheduler.Invariant.{DepsFirst, IsGood}

excluded-InBranches :
    (taken : String) (t : ℤ) (bs : Dict String (List ℤ))
    → 1 ≤ count t (excluded taken bs)
    → InBranches t bs
unfolding excluded count
excluded-InBranches taken t [] h = elim h [ ]
excluded-InBranches taken t ((b, ts) ∷ bs) h =
    ground
      (arith, excluded-InBranches taken t bs, count-append t ts (excluded taken bs), In-iff t ts)

count-excluded :
    (taken b : String) (t : ℤ) (ts : List ℤ) (bs : Dict String (List ℤ))
    → In (b, ts) bs
    → b ≢ taken
    → In t ts
    → 1 ≤ count t (excluded taken bs)
unfolding excluded count
count-excluded taken b t ts [] m other i = absurd m
count-excluded taken b t ts ((b', ts') ∷ bs) m other i = elim m [
  | inl e ↦
      let name : b ≡ b' = ap (λ x. x.0) e in
      let targets : ts ≡ ts' = ap (λ x. x.1) e in
      let here : 1 ≤ count t ts' = subst (λ x. 1 ≤ count t x) targets (count_of_In t ts i) in
      ground (arith, other, string_eq.beq_iff b' taken, count-append t ts' (excluded taken bs))
  | inr later ↦
      ground (
        arith,
        count-excluded taken b t ts bs later other i,
        count-append t ts' (excluded taken bs),
      )
]

-- A target of a branch that a decision did not take is excluded.
pub count-skipped_targets :
    (n : Node) (r : NodeResult) (taken b : String) (t : ℤ) (ts : List ℤ)
    → r.branch_taken ≡ some taken
    → truthy (some taken) ≡ true
    → In (b, ts) (branch_items n)
    → b ≢ taken
    → In t ts
    → 1 ≤ count t (skipped_targets n r)
unfolding skipped_targets
count-skipped_targets n r taken b t ts e some_name m other i = ground (
  arith,
  count-excluded taken b t ts (branch_items n) m other i,
  count-sort int_leb t (excluded taken (branch_items n)),
)

excluded_by-InBranches :
    (n : Node) (r : NodeResult) (t : ℤ)
    → 1 ≤ count t (excluded_by n r)
    → InBranches t (branch_items n)
unfolding skipped_targets count
excluded_by-InBranches n r t h = elim (Option-cases r.branch_taken) [
  | inl e ↦ absurd (ground arith)
  | inr (b, e) ↦ ground (
    arith,
    excluded-InBranches b t (branch_items n),
    count-sort int_leb t (excluded b (branch_items n)),
  )
]

module _ (s : Settings) (ns : List Node) (order : List ℤ) (h : topo_sort ns ≡ ok order) where
  abbrev job : Job
  job = job_of s ns order

  same_count : (i : ℤ) → count i order ≡ count i (ids ns)
  same_count = (topo_sort_sound ns order h).0

  at_most_once : (i : ℤ) → count i (ids ns) ≤ 1
  at_most_once = (topo_sort_sound ns order h).1

  -- For an id of the plan, the dependency map holds what the id depends on.
  pub deps_iff :
      (d i : ℤ)
      → 1 ≤ count i (ids ns)
      → (1 ≤ count d (deps_at (dependency_map ns) i)) ↔ DependsOn ns d i
  deps_iff d i m = dependency_map_iff ns d i (omega (arith, at_most_once i, m))

  DepsFirst-of_IsTopological :
      (before is : List ℤ)
      → ((i : ℤ) → In i is → 1 ≤ count i (ids ns))
      → IsTopological ns before is
      → DepsFirst job before is
  unfolding job_of
  DepsFirst-of_IsTopological before [] known t = tt
  DepsFirst-of_IsTopological before (i ∷ is) known t = (
    λ d m. t.0 d ((deps_iff d i (known i (inl refl))).0 m),
    DepsFirst-of_IsTopological (before ++ i ∷ []) is (λ x m. known x (inr m)) t.1,
  )

  depends_known : (d i : ℤ) → DependsOn ns d i → 1 ≤ count i (ids ns)
  depends_known d i m =
      let r : Sorted ns order = topo_sort-Sorted ns order h in
      (count-id_set i (ids ns)).0
        (DependsOn-known (id_set (ids ns)) d i ns (count-ids_self ns)
          (collect_edges_known (id_set (ids ns)) ns [] r.edges r.collected) m).1

  decides_depends :
      (n : Node) (t : ℤ)
      → node_at ns n.id ≡ some n
      → InBranches t (branch_items n)
      → DependsOn ns n.id t
  decides_depends n t at m = (DependsOn-iff n.id t ns).1 (inr (node_at-Decides ns n.id t n at m))

  pub job_of-IsGood : IsGood job
  unfolding job_of
  job_of-IsGood = record {
    distinct = λ i. omega (arith, same_count i, at_most_once i);
    known = λ i m. node_at_known ns i (omega (arith, same_count i));
    deps_first =
        DepsFirst-of_IsTopological [] order
          (λ i m. omega (arith, same_count i, count_of_In i order m))
          (topo_sort_sound ns order h).2;
    gated = λ n r t at m.
        let d : DependsOn ns n.id t = decides_depends n t at (excluded_by-InBranches n r t m) in
        (deps_iff n.id t (depends_known n.id t d)).1 d;
  }
