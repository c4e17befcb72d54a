-- ===== src/Samples/Driver.antt =====
-- An executor that runs the plan of a task: it turns the loop of the scheduler, in the wait ends the
-- first running node, and gives up after some steps.
use glassrail.Common.{
  List-cases, Option, Option-cases, String, [], ap, arith, beq_refl, count, err, inl, inr, none, ok,
  refl, some, subst, suc, sym, zero, ℕ, ℤ, ◌≡◌, ◌≤◌, int_eq,
}
use glassrail.Core.{ExecutionState, Plan, Json, nodes, sorted_node_ids}
use glassrail.Validator.Nesting.{node_at}
use glassrail.Executor.Scheduler.Records.{node_at-id}
use glassrail.Executor.Scheduler.{
  Phase, Config, Job, turn, complete, wake, Step, Reach, begin, job_of,
}
use glassrail.Executor.Orchestrator.World.{failure, Execution}
use glassrail.Executor.Orchestrator.Execution.{completion, Executed}
use glassrail.Samples.{settings, outcome}

abbrev pub written_output : Json → String
written_output v = "done"

module _ (j : Job) where
  abbrev Driven : Config → Type 0
  Driven c = (d : Config) × Reach j written_output c d

  -- The next configuration, if the loop has not ended.
  advance : (c : Config) → Option ((d : Config) × Step j written_output c d)
  unfolding count
  advance c = by_phase c.phase refl
    where
      ends :
          (i : ℤ)
          → c.phase ≡ Phase.waiting
          → 1 ≤ count i c.running
          → Option ((d : Config) × Step j written_output c d)
      ends i e m = elim (Option-cases (node_at j.nodes i)) [
        | inl gone ↦ none
        | inr (n, at) ↦
            let same : n.id ≡ i = node_at-id j.nodes i n at in
            some (
              complete j n (outcome i none) c,
              Step.completes n (outcome i none) e
                  (subst (λ x. node_at j.nodes x ≡ some n) (sym same) at)
                  (subst (λ x. 1 ≤ count x c.running) (sym same) m) refl,
            )
      ]

      by_phase : (ph : Phase) → c.phase ≡ ph → Option ((d : Config) × Step j written_output c d)
      by_phase Phase.head e = some (turn j written_output c, Step.turns e refl)
      by_phase Phase.waiting e = elim (List-cases c.done) [
        | inr (x, xs, f) ↦ some (wake j c, Step.wakes e (ground arith) refl)
        | inl none_done ↦ elim (List-cases c.running) [
          | inl none_running ↦ none
          | inr (i, xs, f) ↦ ends i e (ground (arith, ap (count i) f, beq_refl i))
        ]
      ]
      by_phase Phase.finished e = none
      by_phase Phase.stuck e = none
      by_phase Phase.no_node e = none
      by_phase Phase.crashed e = none

  drive : ℕ → (c : Config) → Driven c → Driven c
  unfolding advance
  drive zero c driven = driven
  drive (suc fuel) c (d, reached) = elim (advance d) [
    | none ↦ (d, reached)
    | some (e, step) ↦ drive fuel c (e, Reach.then_step reached step)
  ]

-- How the run ends, by its last phase.
ended : Phase → ExecutionState → Execution
unfolding completion
ended Phase.finished st = record { state = st; events = completion st; outcome = ok tt }
ended _ st = record { state = st; events = []; outcome = err (failure "the loop has not ended") }

abbrev run_of :
    (p : Plan) (st : ExecutionState)
    → Driven (job_of settings (nodes p) (sorted_node_ids p)) (begin (sorted_node_ids p) st)
run_of p st =
    drive (job_of settings (nodes p) (sorted_node_ids p)) 40 (begin (sorted_node_ids p) st)
      (begin (sorted_node_ids p) st, Reach.here)

drive_from : Option Plan → ExecutionState → Execution
drive_from none st = record {
  state = st;
  events = [];
  outcome = err (failure "Cannot execute: state has no plan");
}
drive_from (some p) st = ended (run_of p st).0.phase (run_of p st).0.state

pub drive_plan : ExecutionState → Execution
drive_plan st = drive_from st.plan st

ended-Executed :
    (p : Plan) (st : ExecutionState) (c : Config) (ph : Phase)
    → st.plan ≡ some p
    → Reach
        (job_of settings (nodes p) (sorted_node_ids p))
        written_output
        (begin (sorted_node_ids p) st)
        c
    → c.phase ≡ ph
    → Executed settings written_output st (ended ph c.state)
unfolding ended
ended-Executed p st c Phase.finished has reached e = Executed.returns p c has reached e
ended-Executed p st c Phase.head has reached e =
    Executed.raises p c (failure "the loop has not ended") has reached
ended-Executed p st c Phase.waiting has reached e =
    Executed.raises p c (failure "the loop has not ended") has reached
ended-Executed p st c Phase.stuck has reached e =
    Executed.raises p c (failure "the loop has not ended") has reached
ended-Executed p st c Phase.no_node has reached e =
    Executed.raises p c (failure "the loop has not ended") has reached
ended-Executed p st c Phase.crashed has reached e =
    Executed.raises p c (failure "the loop has not ended") has reached

drive_from-Executed :
    (o : Option Plan) (st : ExecutionState)
    → st.plan ≡ o
    → Executed settings written_output st (drive_from o st)
unfolding drive_from
drive_from-Executed none st e = Executed.no_plan e
drive_from-Executed (some p) st e =
    ended-Executed p st (run_of p st).0 (run_of p st).0.phase e (run_of p st).1 refl

pub drive_plan-Executed :
    (st : ExecutionState) → Executed settings written_output st (drive_plan st)
unfolding drive_plan
drive_plan-Executed st = drive_from-Executed st.plan st refl
