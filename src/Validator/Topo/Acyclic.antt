-- ===== src/Validator/Topo/Acyclic.antt =====
-- `topo_sort` accepts exactly the plans whose ids are distinct and known and whose dependencies
-- have no cycle. That there is none is said by a rank that grows along every dependency.
use mathlib.Core.List.{append_assoc}
use glassrail.Common.{
  Bool-cases, List, [], arith, beq_refl, count, count-append, if◌then◌else◌, inl, inr, int_beq_iff,
  length, ok, subst, sym, ℕ, ℤ, ◌++◌, ◌+◌, ◌<◌, ◌==◌, ◌↔◌, ◌∷◌, ◌≡◌, ◌≤◌, int_eq,
}
use glassrail.Core.{Node}
use glassrail.Validator.Topo.{ids, id_set, topo_sort}
use glassrail.Validator.Topo.Edges.{DependsOn, AllRefer, collect_edges_known}
use glassrail.Validator.Topo.Drain.{count-id_set}
use glassrail.Validator.Topo.Order.{
  IsTopological, Sorted, topo_sort-Sorted, topo_sort_sound, DependsOn-known, count-ids_self,
}
use glassrail.Validator.Topo.Success.{IsAcyclic, topo_sort_complete}

-- The number of ids before the first `i`.
unfoldable pub position : ℤ → List ℤ → ℕ
position i [] = 0
position i (x ∷ xs) = let rest = position i xs in if x == i then 0 else rest + 1

position-lt :
    (i : ℤ) (before rest : List ℤ)
    → 1 ≤ count i before
    → position i (before ++ rest) < length before
unfolding position count
position-lt i [] rest h = absurd (omega arith)
position-lt i (x ∷ before) rest h =
    ground (arith, position-lt i before rest, int_beq_iff x i, int_beq_iff i x)

position-append :
    (i : ℤ) (before rest : List ℤ)
    → count i before ≡ 0
    → position i (before ++ rest) ≡ length before + position i rest
unfolding position count
position-append i [] rest h = omega arith
position-append i (x ∷ before) rest h =
    ground (arith, position-append i before rest, int_beq_iff x i, int_beq_iff i x)

pub position-le : (i : ℤ) (xs : List ℤ) → position i xs ≤ length xs
unfolding position
position-le i [] = omega arith
position-le i (x ∷ xs) = ground (arith, position-le i xs)

position_head : (i : ℤ) (xs : List ℤ) → position i (i ∷ xs) ≡ 0
unfolding position
position_head i xs = ground (arith, beq_refl i)

position_falls :
    (ns : List Node) (before is : List ℤ)
    → IsTopological ns before is
    → ((i : ℤ) → count i (before ++ is) ≤ 1)
    → (s t : ℤ) → DependsOn ns s t
    → 1 ≤ count t is
    → position s (before ++ is) < position t (before ++ is)
unfolding count
position_falls ns before [] top once s t d m = absurd (omega arith)
position_falls ns before (i ∷ is) top once s t d m = elim (Bool-cases (t == i)) [
  | inl e ↦
      let same : t ≡ i = (int_beq_iff t i).0 e in
      let s_in : 1 ≤ count s before = top.0 s (subst (λ x. DependsOn ns s x) same d) in
      let absent : count t before ≡ 0 = ground (arith, once t, count-append t before (i ∷ is)) in
      ground (arith, position-lt s before (i ∷ is) s_in, position-append t before (i ∷ is) absent)
  | inr e ↦
      subst (λ xs. position s xs < position t xs) (append_assoc before (i ∷ []) is)
        (position_falls ns (before ++ i ∷ []) is top.1
          (λ x. subst (λ xs. count x xs ≤ 1) (sym (append_assoc before (i ∷ []) is)) (once x)) s t d
          (ground arith))
]

AllRefer-ids : (is : List ℤ) (ns : List Node) → AllRefer (id_set is) ns → AllRefer is ns
AllRefer-ids is [] h = tt
AllRefer-ids is (n ∷ ns) h = (λ i m. (count-id_set i is).0 (h.0 i m), AllRefer-ids is ns h.1)

module _ (ns : List Node) (out : List ℤ) (h : topo_sort ns ≡ ok out) where
  refer_known : AllRefer (id_set (ids ns)) ns
  refer_known =
      let r : Sorted ns out = topo_sort-Sorted ns out h in
      collect_edges_known (id_set (ids ns)) ns [] r.edges r.collected

  -- The two ends of a dependency are ids of the plan.
  pub DependsOn-ids : (s t : ℤ) → DependsOn ns s t → (1 ≤ count s (ids ns)) × (1 ≤ count t (ids ns))
  DependsOn-ids s t d =
      let known = DependsOn-known (id_set (ids ns)) s t ns (count-ids_self ns) refer_known d in
      ((count-id_set s (ids ns)).0 known.0, (count-id_set t (ids ns)).0 known.1)

  -- A plan that `topo_sort` accepts is acyclic, by the place of each id in the result.
  pub topo_sort-IsAcyclic : IsAcyclic ns (λ i. position i out)
  topo_sort-IsAcyclic = record {
    distinct = (topo_sort_sound ns out h).1;
    refer = AllRefer-ids (ids ns) ns refer_known;
    falls = λ s t d.
        position_falls ns [] out (topo_sort_sound ns out h).2
          (λ i. omega (arith, (topo_sort_sound ns out h).0 i, (topo_sort_sound ns out h).1 i)) s t d
          (omega (arith, (topo_sort_sound ns out h).0 t, (DependsOn-ids s t d).1));
  }

-- `topo_sort` accepts a plan exactly if its ids are distinct, all references are to ids of the plan,
-- and its dependencies have no cycle.
pub topo_sort_iff :
    (ns : List Node)
    → ((out : List ℤ) × (topo_sort ns ≡ ok out)) ↔ ((rank : ℤ → ℕ) × IsAcyclic ns rank)
topo_sort_iff ns = (
  λ (out, h). (λ i. position i out, topo_sort-IsAcyclic ns out h),
  λ (rank, acyclic). topo_sort_complete ns rank acyclic,
)
