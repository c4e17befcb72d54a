-- ===== src/Executor/Orchestrator/Handled.antt =====
-- What a handler's `try` block leaves, and what its `except` and `finally` clauses make of it.
use glassrail.Common.{
  Bool, List, Result, String, [], ap, count, err, false, if◌then◌else◌, insert, lookup,
  lookup-insert, ok, refl, some, subst, true, ◌++◌, ◌==◌, ◌∙◌, ◌∷◌, ◌≡◌, string_eq,
}
use glassrail.Core.{ExecutionState, TaskStatus, PlanningAttempt}
use glassrail.State.{status_eq, save_task}
use glassrail.Executor.Orchestrator.World.{
  Event, task_cancelled, plan_failed, plan_rejected, awaiting_confirmation, task_failed,
  task_completed, Raised, invalid, failure, cancel, World, Run, emit, save,
}
use glassrail.Executor.Orchestrator.Kept.{save-others}
use glassrail.Executor.Orchestrator.Handlers.{
  emit_plan_terminal, mark_cancelled, mark_failed, conclude,
}

-- The event that tells of a task's end or pause in a status.
unfoldable pub tells : Event → TaskStatus → Bool
tells (plan_failed id error attempts path) TaskStatus.failed = true
tells (task_failed id error attempts) TaskStatus.failed = true
tells (plan_rejected id reason) TaskStatus.rejected = true
tells (task_cancelled id) TaskStatus.cancelled = true
tells (awaiting_confirmation id count) TaskStatus.awaiting_confirmation = true
tells (task_completed id output) TaskStatus.completed = true
tells _ _ = false

-- The last event tells of the status.
pub record IsTold (st : ExecutionState) (w : World) : Type 0 where
  pub earlier : List Event
  pub last : Event
  pub events : w.events ≡ earlier ++ last ∷ []
  pub told : tells last st.status ≡ true

-- A handler's `try` block on the task `id`, begun in the world `w`.
pub record Handled (id : String) (w : World) (r : Run Unit) : Type 0 where
  pub task_id : r.state.task_id ≡ id
  pub others : (key : String) → (id == key) ≡ false → lookup key r.world.tasks ≡ lookup key w.tasks
  pub told : r.outcome ≡ ok tt → IsTold r.state r.world

-- The whole handler: the state that it ends with is in the store and told by the last event, and
-- the other tasks of the store are as before.
pub record Concluded (id : String) (before after : World) : Type 0 where
  pub final : ExecutionState
  pub stored : lookup id after.tasks ≡ some final
  pub told : IsTold final after
  pub others :
      (key : String) → (id == key) ≡ false → lookup key after.tasks ≡ lookup key before.tasks

pub saved-Concluded :
    (id : String) (w : World) (st : ExecutionState) (v : World)
    → st.task_id ≡ id
    → ((key : String) → (id == key) ≡ false → lookup key v.tasks ≡ lookup key w.tasks)
    → IsTold st v
    → Concluded id w (save st v)
unfolding save_task
saved-Concluded id w st v same others told = record {
  final = st;
  stored =
      subst (λ k. lookup k (insert st.task_id st v.tasks) ≡ some st) same
        (rw
          (
            lookup-insert st.task_id st.task_id st v.tasks,
            (string_eq.beq_iff st.task_id st.task_id).1 refl,
          )
          refl);
  told = record {
    earlier = told.earlier;
    last = told.last;
    events = told.events;
    told = told.told;
  };
  others = λ key other. save-others st v key (rw same other) ∙ others key other;
}

failed-Concluded :
    (attempts : ExecutionState → List PlanningAttempt) (id : String) (w : World)
    (st : ExecutionState) (v : World) (text : String) {o : Result Raised (Unit {0})}
    → Handled id w (record { state = st; world = v; outcome = o })
    → Concluded id w (
        save
          (mark_failed text st)
          (emit (task_failed st.task_id text (attempts (mark_failed text st))) v))
unfolding tells
failed-Concluded attempts id w st v text h =
    saved-Concluded id w (mark_failed text st)
      (emit (task_failed st.task_id text (attempts (mark_failed text st))) v) h.task_id h.others
      (record {
        earlier = v.events;
        last = task_failed st.task_id text (attempts (mark_failed text st));
        events = refl;
        told = refl;
      })

pub conclude-Concluded :
    (attempts : ExecutionState → List PlanningAttempt) (id : String) (w : World)
    (st : ExecutionState) (v : World) (o : Result Raised (Unit {0}))
    → Handled id w (record { state = st; world = v; outcome = o })
    → Concluded id w (conclude attempts (record { state = st; world = v; outcome = o })).world
unfolding conclude mark_cancelled tells
conclude-Concluded attempts id w st v (ok u) h =
    saved-Concluded id w st v h.task_id h.others (h.told refl)
conclude-Concluded attempts id w st v (err cancel) h =
    saved-Concluded id w (mark_cancelled st) (emit (task_cancelled st.task_id) v) h.task_id h.others
      (record { earlier = v.events; last = task_cancelled st.task_id; events = refl; told = refl })
conclude-Concluded attempts id w st v (err (invalid text)) h =
    failed-Concluded attempts id w st v text h
conclude-Concluded attempts id w st v (err (failure text)) h =
    failed-Concluded attempts id w st v text h

pub if-Handled :
    (id : String) (w : World) (b : Bool) (x y : Run (Unit {0}))
    → Handled id w x
    → Handled id w y
    → Handled id w (if b then x else y)
if-Handled id w true x y hx hy = hx
if-Handled id w false x y hx hy = hy

-- Planning has ended without a plan, and the event `e` tells of it.
pub terminal-Handled :
    (id : String) (w : World) (st : ExecutionState) (v : World) (e : Event)
    → st.task_id ≡ id
    → ((key : String) → (id == key) ≡ false → lookup key v.tasks ≡ lookup key w.tasks)
    → emit_plan_terminal st v ≡ emit e v
    → tells e st.status ≡ true
    → Handled id w
        (record { state = st; world = save st (emit_plan_terminal st v); outcome = ok tt })
terminal-Handled id w st v e same others emitted told = record {
  task_id = same;
  others = λ key other.
      save-others st (emit_plan_terminal st v) key (rw same other)
      ∙ ap (λ u. lookup key u.tasks) emitted
      ∙ others key other;
  told = λ fine. record {
    earlier = v.events;
    last = e;
    events = ap (λ u. u.events) emitted;
    told = told;
  };
}
