-- ===== src/State.antt =====
-- src/glassrail/state/memory.py: the store of tasks. The store copies every state on the way in and
-- on the way out, so a state is a value here; `touch` writes a time, which is not modelled.
pub mod Refinement
pub mod Claims
pub mod Sqlite
use glassrail.Common.{
  Bool, Dict, Eq, List, Option, String, [], arith, elem, false, filter, if◌then◌else◌, insert,
  is_some, lookup, map, none, not, some, true, ◌==◌, ◌↔◌, ◌∷◌, ◌≡◌, string_eq,
}
use glassrail.Core.{ExecutionState, TaskStatus}

-- `a is b` on task statuses
unfoldable pub status_beq : TaskStatus → TaskStatus → Bool
status_beq TaskStatus.planning TaskStatus.planning = true
status_beq TaskStatus.awaiting_confirmation TaskStatus.awaiting_confirmation = true
status_beq TaskStatus.resuming TaskStatus.resuming = true
status_beq TaskStatus.executing TaskStatus.executing = true
status_beq TaskStatus.completed TaskStatus.completed = true
status_beq TaskStatus.failed TaskStatus.failed = true
status_beq TaskStatus.paused TaskStatus.paused = true
status_beq TaskStatus.cancelled TaskStatus.cancelled = true
status_beq TaskStatus.rejected TaskStatus.rejected = true
status_beq _ _ = false

pub status_beq_iff : (a b : TaskStatus) → (status_beq a b ≡ true) ↔ (a ≡ b)
unfolding status_beq
status_beq_iff a b = ground arith

instance abbrev pub status_eq : Eq TaskStatus
status_eq = record { beq = status_beq; beq_iff = status_beq_iff }

-- `self._tasks`
abbrev pub Tasks : Type 0
Tasks = Dict String ExecutionState

unfoldable pub save_task : ExecutionState → Tasks → Tasks
save_task st ts = insert st.task_id st ts

unfoldable pub load_task : String → Tasks → Option ExecutionState
load_task id ts = lookup id ts

unfoldable pub transition_task_status :
    (id : String) (from_statuses : List TaskStatus) (to_status : TaskStatus)
    → Tasks
    → Option ExecutionState × Tasks
transition_task_status id from_statuses to_status ts = elim (lookup id ts) [
  | none ↦ (none, ts)
  | some stored ↦
      if not (elem stored.status from_statuses)
      then (none, ts)
      else let updated = record stored { status = to_status } in
        (some updated, insert id updated ts)
]

unfoldable pub list_tasks : Option TaskStatus → Tasks → List ExecutionState
list_tasks status ts =
    let states = map (λ e. e.1) ts in
    elim status [ none ↦ states | some wanted ↦ filter (λ st. st.status == wanted) states ]

-- `pop`: the entry of a key, of which a `dict` has one at most
unfoldable pub remove : String → Tasks → Tasks
remove id [] = []
remove id ((k, st) ∷ ts) = let rest = remove id ts in if k == id then rest else (k, st) ∷ rest

unfoldable pub delete_task : String → Tasks → Bool × Tasks
unfolding remove
delete_task id ts = (is_some (lookup id ts), remove id ts)
