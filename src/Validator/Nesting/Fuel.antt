-- ===== src/Validator/Nesting/Fuel.antt =====
-- The fuel of `nesting_depth` is enough for every plan that `topo_sort` accepts.
use glassrail.Common.{
  Dict, In, List, Option, Option-cases, String, [], ap, arith, inl, inr, int_beq_iff, length, max,
  none, ok, refl, some, subst, suc, zero, ℕ, ℤ, ◌+◌, ◌<◌, ◌∷◌, ◌≡◌, ◌≤◌,
}
use glassrail.Core.{Node}
use glassrail.Validator.Topo.{branch_items, topo_sort}
use glassrail.Validator.Topo.Edges.{InBranches, DependsOn}
use glassrail.Validator.Topo.Order.{topo_sort-Sorted}
use glassrail.Validator.Topo.Acyclic.{position, position-le, topo_sort-IsAcyclic}
use glassrail.Validator.Nesting.{
  node_at, items_at, over_branches, over_ids, nesting_depth, nesting_fuel,
}

node_at-DependsOn :
    (ns : List Node) (i t : ℤ) (n : Node)
    → node_at ns i ≡ some n
    → InBranches t (branch_items n)
    → DependsOn ns i t
unfolding node_at
node_at-DependsOn [] i t n h m = cc
node_at-DependsOn (x ∷ ns) i t n h m = elim (Option-cases (node_at ns i)) [
  | inl e ↦
      let same : n ≡ x = ground arith in
      inl (
        inr (ground (arith, int_beq_iff x.id i), subst (λ y. InBranches t (branch_items y)) same m))
  | inr (y, e) ↦ inr (node_at-DependsOn ns i t n (ground arith) m)
]

In-InBranches :
    (b : String) (ts : List ℤ) (t : ℤ) (bs : Dict String (List ℤ))
    → In (b, ts) bs
    → In t ts
    → InBranches t bs
In-InBranches b ts t [] m i = absurd m
In-InBranches b ts t ((c, us) ∷ bs) (inl e) i = inl (subst (λ x. In t x) (ap (λ x. x.1) e) i)
In-InBranches b ts t ((c, us) ∷ bs) (inr m) i = inr (In-InBranches b ts t bs m i)

items_at-DependsOn :
    (ns : List Node) (i : ℤ) (b : String) (ts : List ℤ) (t : ℤ)
    → In (b, ts) (items_at ns i)
    → In t ts
    → DependsOn ns i t
unfolding items_at
items_at-DependsOn ns i b ts t m k = on (node_at ns i) refl m
  where
    on :
        (o : Option Node)
        → node_at ns i ≡ o
        → In (b, ts) (elim o as (λ x. Dict String (List ℤ)) [ none ↦ [] | some n ↦ branch_items n ])
        → DependsOn ns i t
    on none e j = absurd j
    on (some n) e j = node_at-DependsOn ns i t n e (In-InBranches b ts t (branch_items n) j k)

module _ (depth : List ℤ → Option ℕ) where
  over_branches_total :
      (bs : Dict String (List ℤ)) (m : ℕ)
      → ((b : String) (ts : List ℤ) → In (b, ts) bs → (d : ℕ) × (depth ts ≡ some d))
      → (top : ℕ) × (over_branches depth bs m ≡ some top)
  unfolding over_branches
  over_branches_total [] m h = (m, refl)
  over_branches_total ((b, ts) ∷ bs) m h =
      let (d, e) = h b ts (inl refl) in
      let (top, f) = over_branches_total bs (max m d) (λ c us i. h c us (inr i)) in
      (top, ground (arith, e, f))

  over_ids_total :
      (ns : List Node) (is : List ℤ) (m : ℕ)
      → ((i : ℤ) (b : String) (ts : List ℤ)
          → In i is
          → In (b, ts) (items_at ns i)
          → (d : ℕ) × (depth ts ≡ some d))
      → (top : ℕ) × (over_ids depth ns is m ≡ some top)
  unfolding over_ids
  over_ids_total ns [] m h = (m, refl)
  over_ids_total ns (i ∷ is) m h =
      let (mid, e) = over_branches_total (items_at ns i) m (λ b ts j. h i b ts (inl refl) j) in
      let (top, f) = over_ids_total ns is mid (λ j b ts k l. h j b ts (inr k) l) in
      (top, ground (arith, e, f))

module _ (ns : List Node) (order : List ℤ) (sorted : topo_sort ns ≡ ok order) where
  rank : ℤ → ℕ
  rank i = position i order

  falls :
      (i : ℤ) (b : String) (ts : List ℤ) (t : ℤ)
      → In (b, ts) (items_at ns i)
      → In t ts
      → rank i < rank t
  unfolding rank
  falls i b ts t m k =
      (topo_sort-IsAcyclic ns order sorted).falls i t (items_at-DependsOn ns i b ts t m k)

  nesting_depth_total :
      (fuel : ℕ) (is : List ℤ) (current : ℕ)
      → 1 ≤ fuel
      → ((i : ℤ) → In i is → length order + 2 ≤ rank i + fuel)
      → (d : ℕ) × (nesting_depth fuel ns is current ≡ some d)
  unfolding nesting_depth
  nesting_depth_total zero is current some_fuel enough = absurd (omega arith)
  nesting_depth_total (suc fuel) is current some_fuel enough =
      over_ids_total (λ ts. nesting_depth fuel ns ts (current + 1)) ns is current
        (λ i b ts m k.
          nesting_depth_total fuel ts (current + 1)
            (unfold rank in omega (arith, enough i m, position-le i order))
            (λ t j. omega (arith, enough i m, falls i b ts t k j)))

  -- For a decision of the plan that `topo_sort` accepts, the depth of each of its branches is found.
  pub nesting_depth_found :
      (i : ℤ) (b : String) (ts : List ℤ)
      → In (b, ts) (items_at ns i)
      → (d : ℕ) × (nesting_depth (nesting_fuel ns) ns ts 1 ≡ some d)
  nesting_depth_found i b ts m =
      nesting_depth_total (nesting_fuel ns) ts 1 (omega arith)
        (λ t k. omega (arith, falls i b ts t m k, (topo_sort-Sorted ns order sorted).sorted_all))
