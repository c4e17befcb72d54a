-- ===== src/Executor/Scheduler/Safety.antt =====
-- What holds whenever the executor runs a plan that `topo_sort` has accepted, from a new state or
-- from the state of an earlier run that stopped anywhere, and whatever the nodes return.
use glassrail.Common.{
  Bool-cases, In, List, List-cases, Option-cases, String, [], ap, arith, beq_refl, count, false,
  inl, inr, length, lookup, nat_beq, ok, refl, some, subst, sym, true, truthy, ℤ, ◌*◌, ◌+◌, ◌≡◌,
  ◌≢◌, ◌≤◌, ◌⊎◌, int_eq,
}
use glassrail.Core.{Json, NodeType, is_type_iff, Node, NodeResult, ExecutionState, TaskStatus}
use glassrail.Config.{Settings}
use glassrail.Validator.Topo.{ids, branch_items, topo_sort}
use glassrail.Validator.Topo.Edges.{DependsOn}
use glassrail.Validator.Topo.Order.{topo_sort_sound, topo_sort-Sorted}
use glassrail.Validator.Nesting.{node_at}
use glassrail.Executor.Plans.{has_result, deps_at, dependency_map}
use glassrail.Executor.Recording.{skipped_result}
use glassrail.Executor.Scheduler.{
  Phase, Job, Config, max_concurrent, in_flight, turn, complete, wake, Step, Reach, steps, History,
  begin, job_of,
}
use glassrail.Executor.Scheduler.Records.{node_at-id, node_at_known, excluded_by}
use glassrail.Executor.Scheduler.Invariant.{IsGood, IsSound}
use glassrail.Executor.Scheduler.Rounds.{measure}
use glassrail.Executor.Scheduler.Runs.{IsFine, IsLive, Step-Turns}
use glassrail.Executor.Scheduler.Plans.{deps_iff, job_of-IsGood, count-skipped_targets}

module _ (j : Job) (g : IsGood j) where
  begin-IsLive : (st : ExecutionState) → IsLive j (begin j.order st)
  unfolding begin
  begin-IsLive st = record {
    fine = tt;
    bounded = omega arith;
    at_wait = λ h. absurd (ground arith);
    at_end = λ h. absurd (ground arith);
  }

  fresh-IsSound :
      (st : ExecutionState)
      → st.results ≡ []
      → st.completed_nodes ≡ []
      → IsSound j (begin j.order st)
  unfolding begin count lookup
  fresh-IsSound st no_results no_nodes = record {
    cover = λ i o h. omega arith;
    planned = λ i. omega arith;
    running_fresh = λ i h. absurd (omega arith);
    running_ready = λ i h. absurd (omega arith);
    done_recorded = λ i h. absurd (omega arith);
    executed = λ i h. absurd (none_of i h);
    executed_once = λ i. rw no_nodes (omega arith);
    executed_ready = λ i h. absurd (none_of i h);
    not_executed = λ i h x. absurd (ground (arith, no_results, x));
    gates = λ n r t a b x y z. absurd (none_of n.id x);
  }
    where
      none_of : (i : ℤ) → 1 ≤ count i st.completed_nodes → ⊥
      none_of i h = ground (arith, ap (count i) no_nodes)

  resumed-IsSound : (c : Config) → IsSound j c → IsSound j (begin j.order c.state)
  unfolding begin count
  resumed-IsSound c v = record {
    cover = λ i o h. omega arith;
    planned = λ i. omega arith;
    running_fresh = λ i h. absurd (omega arith);
    running_ready = λ i h. absurd (omega arith);
    done_recorded = λ i h. absurd (omega arith);
    executed = v.executed;
    executed_once = v.executed_once;
    executed_ready = v.executed_ready;
    not_executed = v.not_executed;
    gates = v.gates;
  }

  pub History-IsSound :
      (text_of : Json → String) (c : Config) → History j text_of c → IsSound j c × IsLive j c
  History-IsSound text_of _ (History.fresh st no_results no_nodes) =
      (fresh-IsSound st no_results no_nodes, begin-IsLive st)
  History-IsSound text_of c (History.steps_on {c = b} h s) =
      let (v, l) = History-IsSound text_of b h in
      let (v', less, l') = Step-Turns j g text_of b c v l s in (v', l')
  History-IsSound text_of _ (History.resumes {c = b} h) =
      let (v, l) = History-IsSound text_of b h in (resumed-IsSound b v, begin-IsLive b.state)

module _ (s : Settings) (ns : List Node) (order : List ℤ) (sorted : topo_sort ns ≡ ok order)
    (text_of : Json → String) (c : Config) (h : History (job_of s ns order) text_of c) where
  abbrev job : Job
  job = job_of s ns order

  good : IsGood job
  good = job_of-IsGood s ns order sorted

  sound : IsSound job c
  sound = (History-IsSound job good text_of c h).0

  live : IsLive job c
  live = (History-IsSound job good text_of c h).1

  in_order : (i : ℤ) → count i order ≡ count i (ids ns)
  in_order = (topo_sort_sound ns order sorted).0

  -- When a plan's ids were sorted by `topo_sort`, then at any moment of any run or resumed run the
  -- scheduler is not in the error of having no ready nodes, nor in that of an unknown id, and it
  -- never has more nodes in flight than the setting allows.
  pub run_never_stuck :
      (c.phase ≢ Phase.stuck) × (c.phase ≢ Phase.no_node) × (in_flight job c ≤ max_concurrent job)
  run_never_stuck =
      (λ e. subst (λ p. IsFine p) e live.fine, λ e. subst (λ p. IsFine p) e live.fine, live.bounded)

  -- When a plan's ids were sorted by `topo_sort`, then at any moment of any run or resumed run each
  -- node of the plan that is running or was executed had a result for everything that it depends
  -- on; no node was executed twice; a running node has no result; an executed one has a result.
  pub runs_after_dependencies :
      (i : ℤ)
      → 1 ≤ count i (ids ns)
      → (count i c.state.completed_nodes ≤ 1)
        × (1 ≤ count i c.running → has_result i c.state.results ≡ false)
        × (1 ≤ count i c.state.completed_nodes → has_result i c.state.results ≡ true)
        × (1 ≤ count i c.running + count i c.state.completed_nodes
            → (d : ℤ) → DependsOn ns d i
            → has_result d c.state.results ≡ true)
  unfolding job_of dependency_map
  runs_after_dependencies i known = (
    sound.executed_once i,
    sound.running_fresh i,
    sound.executed i,
    λ some_run d dep. ready_at some_run d ((deps_iff s ns order sorted d i known).1 dep),
  )
    where
      ready_at :
          1 ≤ count i c.running + count i c.state.completed_nodes
          → (d : ℤ) → 1 ≤ count d (deps_at (dependency_map ns) i)
          → has_result d c.state.results ≡ true
      ready_at some_run d m = ground (
        arith,
        λ (p : 1 ≤ count i c.running). sound.running_ready i p d m,
        λ (p : 1 ≤ count i c.state.completed_nodes). sound.executed_ready i p d m,
      )

  -- When a plan's ids were sorted by `topo_sort`, then at any moment of any run or resumed run: if a
  -- decision of the plan was executed, and its result names the branch `taken`, then every node of
  -- the plan that stands in one of the decision's other branches has the result of a skipped node,
  -- and it neither was executed nor is running.
  pub excluded_never_executed :
      (n : Node) (r : NodeResult) (taken b : String) (t : ℤ) (ts : List ℤ)
      → node_at ns n.id ≡ some n
      → n.type ≡ NodeType.decision
      → 1 ≤ count n.id c.state.completed_nodes
      → lookup n.id c.state.results ≡ some r
      → r.branch_taken ≡ some taken
      → truthy (some taken) ≡ true
      → In (b, ts) (branch_items n)
      → b ≢ taken
      → In t ts
      → 1 ≤ count t (ids ns)
      → (lookup t c.state.results ≡ some (skipped_result t))
        × (count t c.state.completed_nodes ≡ 0)
        × (count t c.running ≡ 0)
  excluded_never_executed n r taken b t ts at dec ran res chose named m other i known =
      let (has, never) = gated (
        ground (
          arith,
          is_type_iff n.type NodeType.decision,
          count-skipped_targets n r taken b t ts chose named m other i,
        )) in
      (sound.not_executed t never has, never, ground (arith, has, sound.running_fresh t))
    where
      gated :
          1 ≤ count t (excluded_by n r)
          → (has_result t c.state.results ≡ true) × (count t c.state.completed_nodes ≡ 0)
      gated m = unfold job_of in sound.gates n r t at res ran m (node_at_known ns t known)

  -- When a plan's ids were sorted by `topo_sort` and a run of it has ended regularly, the task is
  -- completed, and every node of the plan has a result: it was executed, exactly once, or its result
  -- is that of a skipped node.
  pub finished_complete :
      c.phase ≡ Phase.finished
      → (c.state.status ≡ TaskStatus.completed)
        × ((i : ℤ)
            → 1 ≤ count i (ids ns)
            → (has_result i c.state.results ≡ true)
              × ((count i c.state.completed_nodes ≡ 1)
                  ⊎ (lookup i c.state.results ≡ some (skipped_result i))))
  unfolding count
  finished_complete e =
      let (no_pending, no_running, done_status) = live.at_end e in
      (
        done_status,
        λ i known.
            let has : has_result i c.state.results ≡ true =
              ground
                (arith, sound_cover i known, ap (count i) no_pending, ap (count i) no_running) in
            (has, executed_or_skipped i has),
      )
    where
      sound_cover :
          (i : ℤ)
          → 1 ≤ count i (ids ns)
          → has_result i c.state.results ≡ false
          → 1 ≤ count i c.pending + count i c.running
      sound_cover i known = unfold job_of in sound.cover i (omega (arith, in_order i))

      executed_or_skipped :
          (i : ℤ)
          → has_result i c.state.results ≡ true
          → (count i c.state.completed_nodes ≡ 1)
            ⊎ (lookup i c.state.results ≡ some (skipped_result i))
      executed_or_skipped i has = elim (Bool-cases (nat_beq (count i c.state.completed_nodes) 0)) [
        | inl z ↦ inr (sound.not_executed i (ground arith) has)
        | inr z ↦ inl (ground (arith, sound.executed_once i))
      ]

  -- When a plan's ids were sorted by `topo_sort`, then at any moment of any run or resumed run at
  -- which the loop has not ended, it can go on. At its head it takes a turn. In the wait, an ended task
  -- can be taken out or a node is running, and every id that is running is the id of a node of the
  -- plan whose task can end with any outcome.
  pub run_progress :
      (c.phase ≡ Phase.head) ⊎ (c.phase ≡ Phase.waiting)
      → ((c.phase ≡ Phase.head) × Step job text_of c (turn job text_of c))
        ⊎ ((c.phase ≡ Phase.waiting)
            × ((Step job text_of c (wake job c)) ⊎ ((i : ℤ) × (1 ≤ count i c.running)))
            × ((i : ℤ)
                → 1 ≤ count i c.running
                → (n : Node) × (node_at ns i ≡ some n)
                  × ((r : NodeResult) → Step job text_of c (complete job n r c))))
  unfolding job_of count
  run_progress (inl e) = inl (e, Step.turns e refl)
  run_progress (inr e) = inr (e, waits, ends)
    where
      waits : (Step job text_of c (wake job c)) ⊎ ((i : ℤ) × (1 ≤ count i c.running))
      waits = elim (List-cases c.done) [
        | inr (x, xs, some_done) ↦ inl (Step.wakes e (ground arith) refl)
        | inl none_done ↦ elim (List-cases c.running) [
          | inl none_running ↦ absurd (ground (arith, live.at_wait e))
          | inr (i, xs, some_running) ↦
              inr (i, ground (arith, ap (count i) some_running, beq_refl i))
        ]
      ]

      ends :
          (i : ℤ)
          → 1 ≤ count i c.running
          → (n : Node) × (node_at ns i ≡ some n)
            × ((r : NodeResult) → Step job text_of c (complete job n r c))
      ends i m = elim (Option-cases (node_at ns i)) [
        | inl gone ↦ absurd (ground (arith, sound.planned i, in_order i, node_at_known ns i))
        | inr (n, at) ↦
            let same : n.id ≡ i = node_at-id ns i n at in
            (
              n,
              at,
              λ r.
                  Step.completes n r e (subst (λ x. node_at ns x ≡ some n) (sym same) at)
                    (subst (λ x. 1 ≤ count x c.running) (sym same) m) refl,
            )
      ]

  steps-measure :
      (d : Config) (r : Reach job text_of c d)
      → (IsSound job d) × (IsLive job d) × (steps job r + measure d ≤ measure c)
  unfolding steps
  steps-measure _ Reach.here = (sound, live, omega arith)
  steps-measure d (Reach.then_step {d = b} r st) =
      let (v, l, less) = steps-measure b r in
      let (v', falls, l') = Step-Turns job good text_of b d v l st in (v', l', omega arith)

-- When a plan's ids were sorted by `topo_sort`, every run of it ends, whatever the nodes return: a
-- run from a state without results takes at most four steps for each node and two more.
pub run_terminates :
    (s : Settings) (ns : List Node) (order : List ℤ) (text_of : Json → String) (st : ExecutionState)
    → topo_sort ns ≡ ok order
    → st.results ≡ []
    → st.completed_nodes ≡ []
    → (d : Config) (r : Reach (job_of s ns order) text_of (begin order st) d)
    → steps (job_of s ns order) r ≤ 4 * length ns + 2
unfolding begin job_of
run_terminates s ns order text_of st sorted no_results no_nodes d r =
    let (v, l, less) =
      steps-measure s ns order sorted text_of (begin order st)
        (History.fresh st no_results no_nodes) d r in
    omega (arith, less, sorted_length)
  where
    sorted_length : length order ≡ length ns
    sorted_length = (topo_sort-Sorted ns order sorted).sorted_all
