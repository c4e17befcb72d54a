-- ===== src/Samples/Runs.antt =====
-- A run of the small plan, in which the decision takes the branch "yes".
use glassrail.Common.{
  String, [], add, all, arith, count, elem, false, filter, inl, inr, insert, int_leb, length,
  lookup, none, pos, refl, some, sort, true, ℤ, ◌*◌, ◌+◌, ◌∷◌, ◌≡◌, ◌≢◌, ◌≤◌, ◌⊎◌, int_eq,
  string_eq,
}
use glassrail.Core.{Node, TaskStatus, is_type, Json, NodeResult}
use glassrail.Validator.Topo.{ids}
use glassrail.Validator.Topo.Edges.{DependsOn}
use glassrail.Validator.Nesting.{node_at}
use glassrail.Executor.Plans.{has_result, is_ready, dependency_map, only_uses_skipped_content}
use glassrail.Executor.Recording.{record_node, settle, skipped_result}
use glassrail.Executor.Scheduler.{
  Phase, Job, Config, max_concurrent, in_flight, round, sweep, after_sweep, drop, conclude, turn,
  complete, wake, Step, Reach, steps, History, begin, job_of,
}
use glassrail.Executor.Scheduler.Safety.{
  run_never_stuck, runs_after_dependencies, excluded_never_executed, finished_complete,
  run_progress, run_terminates,
}
use glassrail.Samples.{
  settings, plan_nodes, plan_order, decision_node, think_node, new_task, outcome,
}
use glassrail.Samples.Plans.{plan_sorts}

text_of : Json → String
text_of v = "done"

abbrev job : Job
job = job_of settings plan_nodes plan_order

abbrev start : Config
start = begin plan_order new_task

-- The decision is started, and the loop waits for it.
abbrev asked : Config
asked = turn job text_of (turn job text_of start)

abbrev decided : Config
decided = complete job decision_node (outcome (pos 1) (some "yes")) asked

abbrev branched : Config
branched = turn job text_of (turn job text_of (wake job decided))

abbrev ended : Config
ended =
    turn job text_of (wake job (complete job (think_node (pos 2)) (outcome (pos 2) none) branched))

asked-History : History job text_of asked
unfolding turn begin job_of after_sweep sweep round elem node_at lookup is_ready all dependency_map
    is_type insert only_uses_skipped_content filter drop add text_of count complete wake record_node
    sort conclude int_leb
asked-History =
    History.steps_on (History.steps_on (History.fresh new_task refl refl) (Step.turns refl refl))
      (Step.turns refl refl)

decided-History : History job text_of decided
unfolding turn begin job_of after_sweep sweep round elem node_at lookup is_ready all dependency_map
    is_type insert only_uses_skipped_content filter drop add text_of count complete wake record_node
    sort conclude int_leb
decided-History =
    History.steps_on asked-History
      (Step.completes decision_node (outcome (pos 1) (some "yes")) refl refl (omega arith) refl)

branched-History : History job text_of branched
unfolding turn begin job_of after_sweep sweep round elem node_at lookup is_ready all dependency_map
    is_type insert only_uses_skipped_content filter drop add text_of count complete wake record_node
    sort conclude int_leb
branched-History =
    History.steps_on
      (History.steps_on (History.steps_on decided-History (Step.wakes refl (omega arith) refl))
        (Step.turns refl refl))
      (Step.turns refl refl)

ended-History : History job text_of ended
unfolding turn begin job_of after_sweep sweep round elem node_at lookup is_ready all dependency_map
    is_type insert only_uses_skipped_content filter drop add text_of count complete wake record_node
    sort conclude int_leb
ended-History =
    History.steps_on
      (History.steps_on
        (History.steps_on branched-History
          (Step.completes (think_node (pos 2)) (outcome (pos 2) none) refl refl (omega arith) refl))
        (Step.wakes refl (omega arith) refl))
      (Step.turns refl refl)

run_never_stuck_example :
    (branched.phase ≢ Phase.stuck)
    × (branched.phase ≢ Phase.no_node)
    × (in_flight job branched ≤ max_concurrent job)
run_never_stuck_example =
    run_never_stuck settings plan_nodes plan_order plan_sorts text_of branched branched-History

runs_after_dependencies_example :
    (count (pos 2) branched.state.completed_nodes ≤ 1)
    × (1 ≤ count (pos 2) branched.running → has_result (pos 2) branched.state.results ≡ false)
    × (1 ≤ count (pos 2) branched.state.completed_nodes
        → has_result (pos 2) branched.state.results ≡ true)
    × (1 ≤ count (pos 2) branched.running + count (pos 2) branched.state.completed_nodes
        → (d : ℤ) → DependsOn plan_nodes d (pos 2)
        → has_result d branched.state.results ≡ true)
unfolding count
runs_after_dependencies_example =
    runs_after_dependencies settings plan_nodes plan_order plan_sorts text_of branched
      branched-History (pos 2) (omega arith)

decision_result : NodeResult
decision_result = settle settings decision_node (outcome (pos 1) (some "yes"))

decided_known : lookup (pos 1) branched.state.results ≡ some decision_result
unfolding turn begin job_of after_sweep sweep round elem node_at lookup is_ready all dependency_map
    is_type insert only_uses_skipped_content filter drop add text_of count complete wake record_node
    sort conclude int_leb decision_result settle
decided_known = refl

decided_ran : 1 ≤ count (pos 1) branched.state.completed_nodes
unfolding turn begin job_of after_sweep sweep round elem node_at lookup is_ready all dependency_map
    is_type insert only_uses_skipped_content filter drop add text_of count complete wake record_node
    sort conclude int_leb
decided_ran = omega arith

no_name : String
no_name = "no"

no_is_other : no_name ≢ "yes"
unfolding no_name
no_is_other e = ground (arith, string_eq.beq_iff no_name "yes")

three_known : 1 ≤ count (pos 3) (ids plan_nodes)
unfolding count
three_known = omega arith

ended_phase : ended.phase ≡ Phase.finished
unfolding turn begin job_of after_sweep sweep round elem node_at lookup is_ready all dependency_map
    is_type insert only_uses_skipped_content filter drop add text_of count complete wake record_node
    sort conclude int_leb
ended_phase = refl

asked_phase : asked.phase ≡ Phase.waiting
unfolding turn begin job_of after_sweep sweep round elem node_at lookup is_ready all dependency_map
    is_type insert only_uses_skipped_content filter drop add text_of count complete wake record_node
    sort conclude int_leb
asked_phase = refl

excluded_never_executed_example :
    (lookup (pos 3) branched.state.results ≡ some (skipped_result (pos 3)))
    × (count (pos 3) branched.state.completed_nodes ≡ 0)
    × (count (pos 3) branched.running ≡ 0)
unfolding node_at is_type settle decision_result no_name
excluded_never_executed_example =
    excluded_never_executed settings plan_nodes plan_order plan_sorts text_of branched
      branched-History decision_node decision_result "yes" no_name (pos 3) (pos 3 ∷ []) refl refl
      decided_ran decided_known refl refl (inr (inl refl)) no_is_other (inl refl) three_known

finished_complete_example :
    (ended.state.status ≡ TaskStatus.completed)
    × ((i : ℤ)
        → 1 ≤ count i (ids plan_nodes)
        → (has_result i ended.state.results ≡ true)
          × ((count i ended.state.completed_nodes ≡ 1)
              ⊎ (lookup i ended.state.results ≡ some (skipped_result i))))
finished_complete_example =
    finished_complete settings plan_nodes plan_order plan_sorts text_of ended ended-History
      ended_phase

run_progress_example :
    ((asked.phase ≡ Phase.head) × Step job text_of asked (turn job text_of asked))
    ⊎ ((asked.phase ≡ Phase.waiting)
        × ((Step job text_of asked (wake job asked)) ⊎ ((i : ℤ) × (1 ≤ count i asked.running)))
        × ((i : ℤ)
            → 1 ≤ count i asked.running
            → (n : Node) × (node_at plan_nodes i ≡ some n)
              × ((r : NodeResult) → Step job text_of asked (complete job n r asked))))
run_progress_example =
    run_progress settings plan_nodes plan_order plan_sorts text_of asked asked-History
      (inr asked_phase)

asked_reached : Reach job text_of start asked
unfolding turn begin job_of after_sweep sweep round elem node_at lookup is_ready all dependency_map
    is_type insert only_uses_skipped_content filter drop add text_of count complete wake record_node
    sort conclude int_leb
asked_reached =
    Reach.then_step (Reach.then_step Reach.here (Step.turns refl refl)) (Step.turns refl refl)

run_terminates_example : steps job asked_reached ≤ 4 * length plan_nodes + 2
run_terminates_example =
    run_terminates settings plan_nodes plan_order text_of new_task plan_sorts refl refl asked
      asked_reached
