-- ===== src/Executor/Scheduler/Invariant.antt =====
-- The invariant of `_run`, and the steps that keep it.
use glassrail.Common.{
  List, [], arith, count, count-snoc, false, if◌then◌else◌, insert, int_beq_iff, is_some, length,
  lookup, some, subst, true, ℤ, ◌++◌, ◌+◌, ◌==◌, ◌∷◌, ◌≡◌, ◌≤◌, int_eq,
}
use glassrail.Core.{Node, NodeResult}
use glassrail.Validator.Nesting.{node_at}
use glassrail.Executor.Plans.{Results, has_result, deps_at}
use glassrail.Executor.Recording.{skipped_result, record_skipped}
use glassrail.Executor.Scheduler.{Job, Config, drop}
use glassrail.Executor.Scheduler.Records.{excluded_by, lookup-record_skipped}

pub count-drop : (i k : ℤ) (xs : List ℤ) → count k (drop i xs) ≡ (if i == k then 0 else count k xs)
unfolding drop count
count-drop i k [] = ground arith
count-drop i k (x ∷ xs) =
    ground (arith, count-drop i k xs, int_beq_iff x i, int_beq_iff i k, int_beq_iff k x)

pub length-drop-le : (i : ℤ) (xs : List ℤ) → length (drop i xs) ≤ length xs
unfolding drop
length-drop-le i [] = omega arith
length-drop-le i (x ∷ xs) = ground (arith, length-drop-le i xs)

pub length-drop-lt : (i : ℤ) (xs : List ℤ) → 1 ≤ count i xs → length (drop i xs) + 1 ≤ length xs
unfolding drop count
length-drop-lt i [] h = elim h [ ]
length-drop-lt i (x ∷ xs) h =
    ground (arith, length-drop-lt i xs, length-drop-le i xs, int_beq_iff x i, int_beq_iff i x)

-- All that `i` waits for has a result.
abbrev pub Ready : Job → Results → ℤ → Type 0
Ready j rs i = (d : ℤ) → 1 ≤ count d (deps_at j.deps i) → has_result d rs ≡ true

-- Every id stands after all that it waits for, which is in `before` at the start.
abbrev pub DepsFirst : Job → (before is : List ℤ) → Type 0
DepsFirst j before [] = Unit
DepsFirst j before (i ∷ is) =
    ((d : ℤ) → 1 ≤ count d (deps_at j.deps i) → 1 ≤ count d before)
    × DepsFirst j (before ++ i ∷ []) is

-- What the scheduler relies on, which the validator establishes.
pub record IsGood (j : Job) : Type 0 where
  pub distinct : (i : ℤ) → count i j.order ≤ 1
  pub known : (i : ℤ) → 1 ≤ count i j.order → is_some (node_at j.nodes i) ≡ true
  pub deps_first : DepsFirst j [] j.order
  -- a decision is a dependency of each target of its branches
  pub gated :
      (n : Node) (r : NodeResult) (t : ℤ)
      → node_at j.nodes n.id ≡ some n
      → 1 ≤ count t (excluded_by n r)
      → 1 ≤ count n.id (deps_at j.deps t)

pub record IsSound (j : Job) (c : Config) : Type 0 where
  -- every node is pending, or running, or has a result
  pub cover :
      (i : ℤ)
      → 1 ≤ count i j.order
      → has_result i c.state.results ≡ false
      → 1 ≤ count i c.pending + count i c.running
  pub planned : (i : ℤ) → count i c.pending + count i c.running ≤ count i j.order
  pub running_fresh : (i : ℤ) → 1 ≤ count i c.running → has_result i c.state.results ≡ false
  pub running_ready : (i : ℤ) → 1 ≤ count i c.running → Ready j c.state.results i
  pub done_recorded : (i : ℤ) → 1 ≤ count i c.done → has_result i c.state.results ≡ true
  -- every node that was executed has a result, was executed once, and was ready
  pub executed : (i : ℤ) → 1 ≤ count i c.state.completed_nodes → has_result i c.state.results ≡ true
  pub executed_once : (i : ℤ) → count i c.state.completed_nodes ≤ 1
  pub executed_ready : (i : ℤ) → 1 ≤ count i c.state.completed_nodes → Ready j c.state.results i
  -- every other result says that the node was skipped
  pub not_executed :
      (i : ℤ)
      → count i c.state.completed_nodes ≡ 0
      → has_result i c.state.results ≡ true
      → lookup i c.state.results ≡ some (skipped_result i)
  -- a target that a decision excluded was not executed
  pub gates :
      (n : Node) (r : NodeResult) (t : ℤ)
      → node_at j.nodes n.id ≡ some n
      → lookup n.id c.state.results ≡ some r
      → 1 ≤ count n.id c.state.completed_nodes
      → 1 ≤ count t (excluded_by n r)
      → is_some (node_at j.nodes t) ≡ true
      → (has_result t c.state.results ≡ true) × (count t c.state.completed_nodes ≡ 0)

module _ (j : Job) (g : IsGood j) (c : Config) (v : IsSound j c) where
  -- A pending id that is skipped.
  pub skip-IsSound :
      (i : ℤ)
      → has_result i c.state.results ≡ false
      → 1 ≤ count i c.pending
      → IsSound j (record c { pending = drop i c.pending; state = record_skipped i c.state })
  unfolding record_skipped
  skip-IsSound i fresh p = record {
    cover = λ k o h. ground (arith, v.cover k o, look k, count-drop i k c.pending);
    planned = λ k. ground (arith, v.planned k, count-drop i k c.pending);
    running_fresh = λ k h.
        ground (arith, v.running_fresh k h, look k, v.planned k, g.distinct k, int_beq_iff i k);
    running_ready = λ k h d m. ground (arith, v.running_ready k h d m, look d);
    done_recorded = λ k h. ground (arith, v.done_recorded k h, look k);
    executed = λ k h. ground (arith, v.executed k h, look k);
    executed_once = v.executed_once;
    executed_ready = λ k h d m. ground (arith, v.executed_ready k h d m, look d);
    not_executed = λ k h r. ground (arith, v.not_executed k h, look k);
    gates = λ n r t a b x y z. ground (
      arith,
      λ (old : lookup n.id c.state.results ≡ some r). v.gates n r t a old x y z,
      v.executed n.id x,
      look n.id,
      look t,
      int_beq_iff i n.id,
    );
  }
    where
      look :
          (k : ℤ)
          → lookup k (insert i (skipped_result i) c.state.results)
            ≡ (if i == k then some (skipped_result k) else lookup k c.state.results)
      look k = unfold record_skipped in lookup-record_skipped i k c.state

  -- A pending id that has a result already.
  pub seen-IsSound :
      (i : ℤ)
      → has_result i c.state.results ≡ true
      → IsSound j (record c { pending = drop i c.pending })
  seen-IsSound i has = record {
    cover = λ k o h. ground (arith, v.cover k o h, count-drop i k c.pending, int_beq_iff i k);
    planned = λ k. ground (arith, v.planned k, count-drop i k c.pending);
    running_fresh = v.running_fresh;
    running_ready = v.running_ready;
    done_recorded = v.done_recorded;
    executed = v.executed;
    executed_once = v.executed_once;
    executed_ready = v.executed_ready;
    not_executed = v.not_executed;
    gates = v.gates;
  }

  -- A pending id that is started.
  pub start-IsSound :
      (i : ℤ)
      → has_result i c.state.results ≡ false
      → 1 ≤ count i c.pending
      → Ready j c.state.results i
      → IsSound j (record c { pending = drop i c.pending; running = c.running ++ i ∷ [] })
  start-IsSound i fresh p ready = record {
    cover = λ k o h.
        ground
          (arith, v.cover k o h, count-drop i k c.pending, run k, int_beq_iff i k, int_beq_iff k i);
    planned = λ k. ground (
      arith,
      v.planned k,
      g.distinct k,
      count-drop i k c.pending,
      run k,
      int_beq_iff i k,
      int_beq_iff k i,
    );
    running_fresh = λ k h. ground (arith, v.running_fresh k, run k, int_beq_iff k i);
    running_ready = λ k h d m. ground (
      arith,
      run k,
      int_beq_iff k i,
      λ (old : 1 ≤ count k c.running). v.running_ready k old d m,
      λ (now : k ≡ i). ready d (subst (λ x. 1 ≤ count d (deps_at j.deps x)) now m),
    );
    done_recorded = v.done_recorded;
    executed = v.executed;
    executed_once = v.executed_once;
    executed_ready = v.executed_ready;
    not_executed = v.not_executed;
    gates = v.gates;
  }
    where
      run : (k : ℤ) → count k (c.running ++ i ∷ []) ≡ count k c.running + (if k == i then 1 else 0)
      run k = count-snoc k i c.running
