-- ===== src/Executor/Scheduler/Records.antt =====
-- What the operations on the execution state leave in `results` and `completed_nodes`.
use glassrail.Common.{
  List, Option, Option-cases, [], arith, count, elem, if◌then◌else◌, inl, inr, int_beq_iff, is_some,
  lookup, lookup-insert, none, refl, some, subst, true, ℤ, ◌&&◌, ◌++◌, ◌==◌, ◌∙◌, ◌∷◌, ◌≡◌, ◌≤◌,
  int_eq,
}
use glassrail.Core.{Node, NodeType, NodeResult, ExecutionState, is_type}
use glassrail.Config.{Settings}
use glassrail.Validator.Topo.{ids, branch_items}
use glassrail.Validator.Topo.Edges.{InBranches}
use glassrail.Validator.Nesting.{node_at}
use glassrail.Executor.Recording.{
  settle, skipped_result, record_skipped, skipped_targets, exclude, record_excluded, log_branch,
  store_result, record_node,
}
use glassrail.Executor.Scheduler.Deps.{Decides}

pub node_at-id : (ns : List Node) (i : ℤ) (n : Node) → node_at ns i ≡ some n → n.id ≡ i
unfolding node_at
node_at-id [] i n h = cc
node_at-id (m ∷ ns) i n h = elim (Option-cases (node_at ns i)) [
  | inl e ↦ ground (arith, int_beq_iff m.id i)
  | inr (x, e) ↦ node_at-id ns i n (ground arith)
]

pub node_at_known : (ns : List Node) (i : ℤ) → 1 ≤ count i (ids ns) → is_some (node_at ns i) ≡ true
unfolding node_at count
node_at_known [] i h = elim h [ ]
node_at_known (m ∷ ns) i h =
    ground (arith, node_at_known ns i, int_beq_iff m.id i, int_beq_iff i m.id)

pub node_at-Decides :
    (ns : List Node) (i t : ℤ) (n : Node)
    → node_at ns i ≡ some n
    → InBranches t (branch_items n)
    → Decides ns i t
unfolding node_at
node_at-Decides [] i t n h m = cc
node_at-Decides (x ∷ ns) i t n h m = elim (Option-cases (node_at ns i)) [
  | inl e ↦
      let same : n ≡ x = ground arith in
      inl (ground (arith, int_beq_iff x.id i), subst (λ y. InBranches t (branch_items y)) same m)
  | inr (y, e) ↦ inr (node_at-Decides ns i t n (ground arith) m)
]

pub lookup-record_skipped :
    (i k : ℤ) (st : ExecutionState)
    → lookup k (record_skipped i st).results
      ≡ (if i == k then some (skipped_result k) else lookup k st.results)
unfolding record_skipped
lookup-record_skipped i k st =
    ground (arith, lookup-insert i k (skipped_result i) st.results, int_beq_iff i k)

-- The result of `k` after the nodes of excluded branches are recorded.
abbrev pub or_skipped : List Node → List ℤ → ℤ → Option NodeResult → Option NodeResult
or_skipped ns is k (some r) = some r
or_skipped ns is k none =
    if elem k is && is_some (node_at ns k) then some (skipped_result k) else none

module _ (ns : List Node) (k : ℤ) where
  lookup-exclude :
      (i : ℤ) (st : ExecutionState)
      → lookup k (exclude ns i st).results ≡ or_skipped ns (i ∷ []) k (lookup k st.results)
  unfolding exclude elem
  lookup-exclude i st =
      ground (arith, lookup-record_skipped i k st, int_beq_iff i k, int_beq_iff k i)

  pub lookup-record_excluded :
      (is : List ℤ) (st : ExecutionState)
      → lookup k (record_excluded ns is st).results ≡ or_skipped ns is k (lookup k st.results)
  unfolding record_excluded elem
  lookup-record_excluded [] st = ground arith
  lookup-record_excluded (i ∷ is) st =
      ground (arith, lookup-record_excluded is (exclude ns i st), lookup-exclude i st)

completed_nodes-exclude :
    (ns : List Node) (i : ℤ) (st : ExecutionState)
    → (exclude ns i st).completed_nodes ≡ st.completed_nodes
unfolding exclude record_skipped
completed_nodes-exclude ns i st = ground arith

completed_nodes-record_excluded :
    (ns : List Node) (is : List ℤ) (st : ExecutionState)
    → (record_excluded ns is st).completed_nodes ≡ st.completed_nodes
unfolding record_excluded
completed_nodes-record_excluded ns [] st = refl
completed_nodes-record_excluded ns (i ∷ is) st =
    completed_nodes-record_excluded ns is (exclude ns i st) ∙ completed_nodes-exclude ns i st

-- The targets that the completion of a node excludes.
abbrev pub excluded_by : Node → NodeResult → List ℤ
excluded_by n r = if is_type n.type NodeType.decision then skipped_targets n r else []

module _ (s : Settings) (ns : List Node) (n : Node) (r : NodeResult) (st : ExecutionState) where
  pub lookup-record_node :
      (k : ℤ)
      → lookup k (record_node s ns n r st).results
        ≡ or_skipped ns
            (excluded_by n r)
            k
            (if n.id == k then some (settle s n r) else lookup k st.results)
  unfolding record_node store_result log_branch elem
  lookup-record_node k = ground (
    arith,
    lookup-record_excluded ns k (skipped_targets n r)
        (log_branch n (settle s n r) (store_result n.id (settle s n r) st)),
    lookup-insert n.id k (settle s n r) st.results,
  )

  pub completed_nodes-record_node :
      (record_node s ns n r st).completed_nodes ≡ st.completed_nodes ++ n.id ∷ []
  unfolding record_node store_result log_branch
  completed_nodes-record_node = ground (
    arith,
    completed_nodes-record_excluded ns (skipped_targets n r)
        (log_branch n (settle s n r) (store_result n.id (settle s n r) st)),
  )
