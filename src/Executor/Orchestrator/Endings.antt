-- ===== src/Executor/Orchestrator/Endings.antt =====
-- How `run`, `resume` and `revise` end.
use glassrail.Common.{
  Option, String, [], arith, elem, false, insert, length, lookup, lookup-insert, none, ok, refl,
  reverse, some, true, ℕ, ◌==◌, ◌∙◌, ◌≡◌, string_eq,
}
use glassrail.Core.{ExecutionState, TaskStatus, Plan, Json, nodes, sorted_node_ids}
use glassrail.Executor.Scheduler.{job_of}
use glassrail.Executor.Scheduler.Finish.{Reach-IsFinal}
use glassrail.Executor.Orchestrator.Execution.{completion, Executed, ExecutorLaw}
use glassrail.Config.{Settings}
use glassrail.State.{status_eq, status_beq, load_task}
use glassrail.State.Claims.{wins, loses}
use glassrail.Executor.Orchestrator.World.{
  planning_started, plan_ready, plan_failed, plan_rejected, awaiting_confirmation, task_completed,
  World, Run, Execution, Services, emit, save, or_text,
}
use glassrail.Executor.Orchestrator.Planning.{plan_with_retry}
use glassrail.Executor.Orchestrator.Kept.{Ending, save-others}
use glassrail.Executor.Orchestrator.Attempts.{plan_with_retry_lem}
use glassrail.Executor.Orchestrator.Handlers.{
  first_filepath, emit_plan_terminal, ran, execute, present_or_execute, after_planning, run, resume,
  is_revisable, revise, resumable, resume_claimed,
}
use glassrail.Executor.Orchestrator.Handled.{
  tells, Handled, Concluded, conclude-Concluded, if-Handled, terminal-Handled,
}

ran-Handled :
    (s : Settings) (text_of : Json → String) (id : String) (w : World) (st : ExecutionState)
    (v : World) (x : Execution)
    → Executed s text_of st x
    → st.task_id ≡ id
    → ((key : String) → (id == key) ≡ false → lookup key v.tasks ≡ lookup key w.tasks)
    → Handled id w (ran x v)
unfolding tells completion
ran-Handled s text_of id w st v _ (Executed.no_plan e) same others = record {
  task_id = same;
  others = others;
  told = λ fine. cc;
}
ran-Handled s text_of id w st v _ (Executed.raises p c e has reached) same others =
    let final =
      Reach-IsFinal (job_of s (nodes p) (sorted_node_ids p)) text_of (sorted_node_ids p) st c
        reached in
    record { task_id = final.task_id ∙ same; others = others; told = λ fine. cc }
ran-Handled s text_of id w st v _ (Executed.returns p c has reached ended) same others =
    let final =
      Reach-IsFinal (job_of s (nodes p) (sorted_node_ids p)) text_of (sorted_node_ids p) st c
        reached in
    record {
      task_id = final.task_id ∙ same;
      others = others;
      told = λ fine. record {
        earlier = v.events;
        last = task_completed c.state.task_id c.state.final_output;
        events = refl;
        told = rw (final.completed ended) refl;
      };
    }

module _ (s : Settings) (services : Services) (text_of : Json → String)
    (law : ExecutorLaw s text_of services) where
  execute-Handled :
      (id : String) (w : World) (st : ExecutionState) (v : World)
      → st.task_id ≡ id
      → ((key : String) → (id == key) ≡ false → lookup key v.tasks ≡ lookup key w.tasks)
      → Handled id w (execute s services st v)
  unfolding execute
  execute-Handled id w st v same others =
      ran-Handled s text_of id w st v (services.execute st) (law st) same others

  present_or_execute-Handled :
      (id : String) (w : World) (st : ExecutionState) (v : World) (p : Plan)
      → st.task_id ≡ id
      → ((key : String) → (id == key) ≡ false → lookup key v.tasks ≡ lookup key w.tasks)
      → Handled id w (present_or_execute s services (record st { plan = some p }) v)
  unfolding present_or_execute tells
  present_or_execute-Handled id w st v p same others =
      if-Handled id w s.confirm_plans
        (record {
          state = st';
          world = emit (awaiting_confirmation st.task_id count) (save st' ready);
          outcome = ok tt;
        })
        (execute s services (record st { plan = some p }) ready)
        (record {
          task_id = same;
          others = λ key other. save-others st' ready key (rw same other) ∙ others key other;
          told = λ fine. record {
            earlier = ready.events;
            last = awaiting_confirmation st.task_id count;
            events = refl;
            told = refl;
          };
        })
        (execute-Handled id w (record st { plan = some p }) ready same others)
    where
      count : ℕ
      count = length (nodes p)

      ready : World
      ready = emit (plan_ready st.task_id count p) v

      st' : ExecutionState
      st' = record st { plan = some p; status = TaskStatus.awaiting_confirmation }

  after_planning-Handled :
      (id : String) (w : World) (r : Run (Option Plan))
      → r.state.task_id ≡ id
      → ((key : String) → (id == key) ≡ false → lookup key r.world.tasks ≡ lookup key w.tasks)
      → Ending services r
      → Handled id w (after_planning s services r)
  unfolding after_planning emit_plan_terminal tells
  after_planning-Handled id w r same others (Ending.planned st v p a earlier r₀ given e f g) =
      present_or_execute-Handled id w st v p same others
  after_planning-Handled id w r same others (Ending.refused st v a earlier e f g h) =
      terminal-Handled id w st v (plan_rejected st.task_id (or_text st.error "rejected")) same
        others (unfold emit_plan_terminal status_beq in rw g refl) (rw g refl)
  after_planning-Handled id w r same others (Ending.exhausted st v f g) =
      terminal-Handled id w st v
        (plan_failed st.task_id (or_text st.error "planning failed") st.planning_attempts
          (first_filepath (reverse st.planning_attempts)))
        same others (unfold emit_plan_terminal status_beq in rw f refl) (rw f refl)
  after_planning-Handled id w r same others (Ending.broken st v e f) = record {
    task_id = same;
    others = others;
    told = λ fine. cc;
  }

  -- `run` of a task of the store, with any planner and with an executor whose calls are runs of the
  -- scheduler that may raise anywhere: afterwards the store holds the state that the task ended with,
  -- the last event tells of that state's status, so that it is failed, rejected, cancelled, completed
  -- or awaiting confirmation, and the other tasks of the store are as before.
  pub run-Concluded :
      (id : String) (w : World) (st : ExecutionState)
      → load_task id w.tasks ≡ some st
      → st.task_id ≡ id
      → Concluded id w (run s services id w).0
  unfolding run
  run-Concluded id w st found same =
      let begun = emit (planning_started id) w in
      let (kept, ending) = plan_with_retry_lem s services none st begun in
      let planned = plan_with_retry s services none st begun in
      let r = after_planning s services planned in
      rw (run, found)
        (conclude-Concluded (λ t. t.planning_attempts) id w r.state r.world r.outcome
          (after_planning-Handled id w planned (kept.task_id ∙ same)
            (λ key other. kept.others key (rw same other)) ending))

  -- `revise` of a task of the store that waits for confirmation or is paused ends as `run` does, with
  -- any planner and an executor whose calls are runs of the scheduler that may raise anywhere: the
  -- final state is stored and told by the last event, and the other tasks are as before.
  pub revise-Concluded :
      (id feedback : String) (w : World) (st : ExecutionState)
      → load_task id w.tasks ≡ some st
      → st.task_id ≡ id
      → is_revisable st ≡ true
      → Concluded id w (revise s services id feedback w).0
  unfolding revise
  revise-Concluded id feedback w st found same revisable =
      let begun = emit (planning_started id) w in
      let (kept, ending) = plan_with_retry_lem s services (some feedback) st begun in
      let planned = plan_with_retry s services (some feedback) st begun in
      let r = after_planning s services planned in
      rw (revise, found, revisable)
        (conclude-Concluded (λ t. []) id w r.state r.world r.outcome
          (after_planning-Handled id w planned (kept.task_id ∙ same)
            (λ key other. kept.others key (rw same other)) ending))

  -- `resume` of a task of the store that waits for confirmation, is paused or is resuming ends as
  -- `run` does, with an executor whose calls are runs of the scheduler that may raise anywhere: the
  -- final state is stored and told by the last event, and the other tasks are as before.
  pub resume-Concluded :
      (id : String) (w : World) (st : ExecutionState)
      → load_task id w.tasks ≡ some st
      → st.task_id ≡ id
      → elem st.status resumable ≡ true
      → Concluded id w (resume s services id w).0
  unfolding resume resume_claimed
  resume-Concluded id w st found same claimable =
      let claimed : ExecutionState = record st { status = TaskStatus.executing } in
      let v : World = record w { tasks = insert id claimed w.tasks } in
      let r = execute s services claimed v in
      rw (wins id resumable TaskStatus.executing w.tasks st found claimable) (
        conclude-Concluded (λ t. t.planning_attempts) id w r.state r.world r.outcome
          (execute-Handled id w claimed v same
            (λ key other. rw (lookup-insert id key claimed w.tasks, other) refl)))

module _ (s : Settings) (services : Services) where
  -- `resume` and `revise` of a task that neither waits for confirmation nor is paused or resuming
  -- change nothing in the store, emit no event and do not raise.
  pub not_taken :
      (id feedback : String) (w : World) (st : ExecutionState)
      → load_task id w.tasks ≡ some st
      → elem st.status resumable ≡ false
      → (resume s services id w ≡ (w, ok tt)) × (revise s services id feedback w ≡ (w, ok tt))
  unfolding resume resume_claimed revise
  not_taken id feedback w st found out = (
    rw (loses id resumable TaskStatus.executing w.tasks st found out) refl,
    rw (revise, found, not_revisable) refl,
  )
    where
      not_revisable : is_revisable st ≡ false
      not_revisable = unfold is_revisable elem status_beq in ground (arith, out)
