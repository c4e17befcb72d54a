-- ===== src/State/Claims.antt =====
-- A transition as a claim: of the callers that try to take a task, one wins.
use glassrail.Common.{
  In, List, String, [], ap, arith, beq_refl, elem, false, filter, if◌then◌else◌, insert, is_some,
  lookup-insert, none, refl, some, suc, true, zero, ℕ, ◌+◌, ◌↔◌, ◌∷◌, ◌≡◌, string_eq,
}
use glassrail.Core.{ExecutionState, TaskStatus}
use glassrail.State.{Tasks, load_task, transition_task_status, list_tasks, status_eq}

-- The number of callers that win when `n` of them try the same transition, one after another.
unfoldable pub winners : ℕ → String → List TaskStatus → TaskStatus → Tasks → ℕ
winners zero id froms to ts = 0
winners (suc n) id froms to ts =
    let attempt = transition_task_status id froms to ts in
    (if is_some attempt.0 then 1 else 0) + winners n id froms to attempt.1

module _ (id : String) (froms : List TaskStatus) (to : TaskStatus) (ts : Tasks)
    (st : ExecutionState) (h : load_task id ts ≡ some st) where
  pub loses : elem st.status froms ≡ false → transition_task_status id froms to ts ≡ (none, ts)
  unfolding transition_task_status load_task
  loses out = ground (arith, h)

  pub wins :
      elem st.status froms ≡ true
      → transition_task_status id froms to ts
        ≡ (some (record st { status = to }), insert id (record st { status = to }) ts)
  unfolding transition_task_status load_task
  wins there = ground (arith, h)

-- When a task has none of the statuses that a transition starts from, every caller loses.
all_lose :
    (n : ℕ) (id : String) (froms : List TaskStatus) (to : TaskStatus) (ts : Tasks)
    (st : ExecutionState)
    → load_task id ts ≡ some st
    → elem st.status froms ≡ false
    → winners n id froms to ts ≡ 0
unfolding winners
all_lose zero id froms to ts st h out = refl
all_lose (suc n) id froms to ts st h out =
    rw (loses id froms to ts st h out) (omega (arith, all_lose n id froms to ts st h out))

-- When `n + 1` callers try to move a task from a status that it has to one that the transition does
-- not start from, exactly one of them wins.
pub one_winner :
    (n : ℕ) (id : String) (froms : List TaskStatus) (to : TaskStatus) (ts : Tasks)
    (st : ExecutionState)
    → load_task id ts ≡ some st
    → elem st.status froms ≡ true
    → elem to froms ≡ false
    → winners (suc n) id froms to ts ≡ 1
unfolding winners load_task
one_winner n id froms to ts st h there out =
    let taken : ExecutionState = record st { status = to } in
    rw (wins id froms to ts st h there) (
      omega (
        arith,
        all_lose n id froms to (insert id taken ts) taken
            (ground (arith, lookup-insert id id taken ts, beq_refl id)) out,
      ))

-- Every task that a list of tasks by status holds is stored, and it has that status; and every
-- stored task that has the status is listed.
pub list_tasks_iff :
    (wanted : TaskStatus) (ts : Tasks) (st : ExecutionState)
    → In st (list_tasks (some wanted) ts) ↔ (In st (list_tasks none ts) × (st.status ≡ wanted))
unfolding list_tasks filter
list_tasks_iff wanted [] st = ground arith
list_tasks_iff wanted ((k, x) ∷ ts) st = ground (
  arith,
  list_tasks_iff wanted ts st,
  status_eq.beq_iff x.status wanted,
  λ (p : st ≡ x). ap (λ y. y.status) p,
)
