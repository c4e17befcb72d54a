-- ===== src/Executor/Scheduler/Completion.antt =====
-- The completion of a running node keeps the invariant of `_run`.
use mathlib.Core.Path.{ap₂}
use glassrail.Common.{
  Bool-cases, arith, beq_refl, count, count-snoc, elem_iff_count, if◌then◌else◌, inl, inr,
  int_beq_iff, is_some, lookup, refl, some, subst, sym, true, ℤ, ◌+◌, ◌==◌, ◌∙◌, ◌≡◌, ◌≤◌, int_eq,
}
use glassrail.Core.{Node, NodeResult, ExecutionState}
use glassrail.Config.{Settings}
use glassrail.Validator.Nesting.{node_at}
use glassrail.Executor.Plans.{has_result, deps_at}
use glassrail.Executor.Recording.{settle, skipped_targets, record_node}
use glassrail.Executor.Scheduler.{Job, Config, complete, wake}
use glassrail.Executor.Scheduler.Records.{
  or_skipped, excluded_by, lookup-record_node, completed_nodes-record_node,
}
use glassrail.Executor.Scheduler.Invariant.{count-drop, Ready, IsGood, IsSound}

excluded_by-settle :
    (s : Settings) (n : Node) (r : NodeResult) → excluded_by n (settle s n r) ≡ excluded_by n r
unfolding settle skipped_targets
excluded_by-settle s n r = refl

module _ (j : Job) (g : IsGood j) (c : Config) (v : IsSound j c) (n : Node) (r : NodeResult)
    (at : node_at j.nodes n.id ≡ some n) (runs : 1 ≤ count n.id c.running) where
  abbrev after : ExecutionState
  after = record_node j.settings j.nodes n r c.state

  look :
      (k : ℤ)
      → lookup k after.results
        ≡ or_skipped j.nodes
            (excluded_by n r)
            k
            (if n.id == k then some (settle j.settings n r) else lookup k c.state.results)
  look = lookup-record_node j.settings j.nodes n r c.state

  has_after : (k : ℤ) → has_result k c.state.results ≡ true → has_result k after.results ≡ true
  has_after k h = ground (arith, look k)

  has_self : has_result n.id after.results ≡ true
  has_self = ground (arith, look n.id, beq_refl n.id)

  Ready-after : (k : ℤ) → Ready j c.state.results k → Ready j after.results k
  Ready-after k h d m = has_after d (h d m)

  completed_after :
      (k : ℤ)
      → count k after.completed_nodes
        ≡ count k c.state.completed_nodes + (if k == n.id then 1 else 0)
  completed_after k =
      rw (completed_nodes-record_node j.settings j.nodes n r c.state)
        (count-snoc k n.id c.state.completed_nodes)

  not_run : count n.id c.state.completed_nodes ≡ 0
  not_run = ground (arith, v.running_fresh n.id runs, v.executed n.id)

  -- What waits for `n` is neither ready nor executed.
  not-Ready : (t : ℤ) → 1 ≤ count n.id (deps_at j.deps t) → Ready j c.state.results t → ⊥
  not-Ready t m h = ground (arith, h n.id m, v.running_fresh n.id runs)

  excluded_waits : (t : ℤ) → 1 ≤ count t (excluded_by n r) → Ready j c.state.results t → ⊥
  excluded_waits t m = not-Ready t (g.gated n r t at m)

  not_executed_after : (t : ℤ) → (Ready j c.state.results t → ⊥) → count t after.completed_nodes ≡ 0
  not_executed_after t h = ground (
    arith,
    completed_after t,
    int_beq_iff t n.id,
    λ (p : 1 ≤ count t c.state.completed_nodes). h (v.executed_ready t p),
    λ (p : t ≡ n.id).
        h (subst (λ x. Ready j c.state.results x) (sym p) (v.running_ready n.id runs)),
  )

  own_gates :
      (t : ℤ)
      → 1 ≤ count t (excluded_by n r)
      → is_some (node_at j.nodes t) ≡ true
      → (has_result t after.results ≡ true) × (count t after.completed_nodes ≡ 0)
  own_gates t m z = (
    ground (arith, look t, elem_iff_count t (excluded_by n r)),
    not_executed_after t (excluded_waits t m),
  )

  keeps_gates :
      (n' : Node) (r' : NodeResult) (t : ℤ)
      → node_at j.nodes n'.id ≡ some n'
      → lookup n'.id after.results ≡ some r'
      → 1 ≤ count n'.id after.completed_nodes
      → 1 ≤ count t (excluded_by n' r')
      → is_some (node_at j.nodes t) ≡ true
      → (has_result t after.results ≡ true) × (count t after.completed_nodes ≡ 0)
  keeps_gates n' r' t a l x y z = elim (Bool-cases (n.id == n'.id)) [
    | inl e ↦ own_gates t (subst (λ w. 1 ≤ count t w) (same e) y) z
    | inr e ↦
        let ran : 1 ≤ count n'.id c.state.completed_nodes =
          ground (arith, completed_after n'.id, int_beq_iff n'.id n.id, int_beq_iff n.id n'.id) in
        let old : lookup n'.id c.state.results ≡ some r' =
          ground (arith, look n'.id, v.executed n'.id ran) in
        let (has, never) = v.gates n' r' t a old ran y z in
        (
          has_after t has,
          ground (arith, completed_after t, int_beq_iff t n.id, v.running_fresh n.id runs),
        )
  ]
    where
      same : (n.id == n'.id) ≡ true → excluded_by n' r' ≡ excluded_by n r
      same e =
          let one : n' ≡ n = ground (arith, int_beq_iff n.id n'.id) in
          let taken : r' ≡ settle j.settings n r = ground (arith, look n'.id) in
          ap₂ excluded_by one taken ∙ excluded_by-settle j.settings n r

  pub complete-IsSound : IsSound j (complete j n r c)
  unfolding complete
  complete-IsSound = record {
    cover = λ k o h. ground (
      arith,
      v.cover k o,
      has_after k,
      has_self,
      count-drop n.id k c.running,
      int_beq_iff n.id k,
    );
    planned = λ k. ground (arith, v.planned k, count-drop n.id k c.running);
    running_fresh = λ k h. ground (
      arith,
      look k,
      v.running_fresh k,
      count-drop n.id k c.running,
      elem_iff_count k (excluded_by n r),
      λ (m : 1 ≤ count k (excluded_by n r)) (u : 1 ≤ count k c.running).
          excluded_waits k m (v.running_ready k u),
    );
    running_ready =
        λ k h. Ready-after k (v.running_ready k (ground (arith, count-drop n.id k c.running)));
    done_recorded = λ k h. ground (
      arith,
      v.done_recorded k,
      has_after k,
      has_self,
      count-snoc k n.id c.done,
      int_beq_iff k n.id,
    );
    executed = λ k h.
        ground (arith, v.executed k, has_after k, has_self, completed_after k, int_beq_iff k n.id);
    executed_once =
        λ k. ground (arith, v.executed_once k, completed_after k, not_run, int_beq_iff k n.id);
    executed_ready = λ k h d m. ground (
      arith,
      completed_after k,
      int_beq_iff k n.id,
      λ (p : 1 ≤ count k c.state.completed_nodes). Ready-after k (v.executed_ready k p) d m,
      λ (p : k ≡ n.id).
          Ready-after n.id (v.running_ready n.id runs) d
            (subst (λ x. 1 ≤ count d (deps_at j.deps x)) p m),
    );
    not_executed =
        λ k h x. ground (arith, look k, v.not_executed k, completed_after k, int_beq_iff k n.id);
    gates = keeps_gates;
  }

pub wake-IsSound : (j : Job) (c : Config) → IsSound j c → IsSound j (wake j c)
unfolding wake count
wake-IsSound j c v = record {
  cover = v.cover;
  planned = v.planned;
  running_fresh = v.running_fresh;
  running_ready = v.running_ready;
  done_recorded = λ k h. absurd (omega arith);
  executed = v.executed;
  executed_once = v.executed_once;
  executed_ready = v.executed_ready;
  not_executed = v.not_executed;
  gates = v.gates;
}
