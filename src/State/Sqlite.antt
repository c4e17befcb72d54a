-- ===== src/State/Sqlite.antt =====
-- src/glassrail/state/sqlite.py: the store of tasks in a table of SQLite. The database is a parameter:
-- its statements, and what the documentation of SQLite says of them. An error of pydantic is `err`;
-- `touch` writes a time, which is not modelled.
mod Statuses
pub mod Finite
pub mod Refines
pub mod Races
use glassrail.Common.{
  Bool, List, Option, Result, String, [], elem, err, false, if◌then◌else◌, is_some, ltb, map, none,
  ok, some, string_eq, ℕ, ◌&&◌, ◌==◌, ◌>>=◌, ◌>>◌, ◌∷◌, ◌≡◌,
}
use glassrail.Core.{ExecutionState, TaskStatus}
use glassrail.State.{status_eq}

-- `status.value`
unfoldable pub status_value : TaskStatus → String
status_value TaskStatus.planning = "planning"
status_value TaskStatus.awaiting_confirmation = "awaiting_confirmation"
status_value TaskStatus.resuming = "resuming"
status_value TaskStatus.executing = "executing"
status_value TaskStatus.completed = "completed"
status_value TaskStatus.failed = "failed"
status_value TaskStatus.paused = "paused"
status_value TaskStatus.cancelled = "cancelled"
status_value TaskStatus.rejected = "rejected"

-- The columns of a row beside its primary key, `task_id`. `J` is the type of the JSON texts.
pub record Row (J : Type 0) : Type 0 where
  pub status : String
  pub json : J

-- The statements that the store executes, on a database of type `D`.
pub record Statements (J D : Type 0) : Type 0 where
  pub insert_or_replace : (task_id : String) → Row J → D → D
  pub select_data : (task_id : String) → D → Option J
  -- `UPDATE … WHERE task_id = ? AND status IN (…)`, with the number of rows that it changes
  pub update : Row J → (task_id : String) → (statuses : List String) → D → ℕ × D
  pub select_all : D → List J
  pub select_by_status : String → D → List J
  pub delete : (task_id : String) → D → ℕ × D

-- `model_dump_json` and `model_validate_json`
pub record Codec (J : Type 0) : Type 0 where
  pub dump : ExecutionState → J
  pub parse : J → Result String ExecutionState

-- `UPDATE` meets the row of the task, if its status is one of those asked for.
abbrev pub hit : {J : Type 0} → Option (Row J) → List String → Bool
hit none statuses = false
hit (some r) statuses = elem r.status statuses

-- `row[0]` of the first column that `SELECT data` has, if there is a row.
abbrev pub json_of : {J : Type 0} → Option (Row J) → Option J
json_of none = none
json_of (some r) = some r.json

-- What SQLite documents of the statements, with the rows that a database holds by their keys.
pub record Laws (J D : Type 0) (sql : Statements J D) (row : String → D → Option (Row J))
    : Type 0 where
  pub replaced :
      (id k : String) (r : Row J) (d : D)
      → row k (sql.insert_or_replace id r d) ≡ (if id == k then some r else row k d)
  pub selected : (id : String) (d : D) → sql.select_data id d ≡ json_of (row id d)
  pub updated :
      (r : Row J) (id k : String) (statuses : List String) (d : D)
      → row k (sql.update r id statuses d).1
        ≡ (if id == k && hit (row id d) statuses then some r else row k d)
  pub update_count :
      (r : Row J) (id : String) (statuses : List String) (d : D)
      → (sql.update r id statuses d).0 ≡ (if hit (row id d) statuses then 1 else 0)
  pub deleted :
      (id k : String) (d : D) → row k (sql.delete id d).1 ≡ (if id == k then none else row k d)
  pub delete_count :
      (id : String) (d : D) → (sql.delete id d).0 ≡ (if is_some (row id d) then 1 else 0)

-- The part of `transition_task_status` before its `UPDATE`: the state to write, or none.
unfoldable pub read_for_transition :
    (from_statuses : List TaskStatus) (to_status : TaskStatus)
    → Result String (Option ExecutionState)
    → Result String (Option ExecutionState)
read_for_transition from_statuses to_status (err e) = err e
read_for_transition from_statuses to_status (ok none) = ok none
read_for_transition from_statuses to_status (ok (some st)) =
    ok (if elem st.status from_statuses then some (record st { status = to_status }) else none)

module _ (J : Type 0) (codec : Codec J) where
  -- The row of a state.
  unfoldable pub row_of : ExecutionState → Row J
  unfolding status_value
  row_of st = record { status = status_value st.status; json = codec.dump st }

  unfoldable pub parse_row : Option J → Result String (Option ExecutionState)
  parse_row none = ok none
  parse_row (some json) = do st ← codec.parse json; ok (some st)

  unfoldable pub parse_all : List J → Result String (List ExecutionState)
  parse_all [] = ok []
  parse_all (json ∷ more) = do st ← codec.parse json; sts ← parse_all more; ok (st ∷ sts)

module _ (J D : Type 0) (sql : Statements J D) (codec : Codec J) where
  unfoldable pub save_task : ExecutionState → D → D
  unfolding row_of
  save_task st d = sql.insert_or_replace st.task_id (row_of J codec st) d

  unfoldable pub load_task : String → D → Result String (Option ExecutionState)
  unfolding parse_row
  load_task id d = parse_row J codec (sql.select_data id d)

  -- The `UPDATE`, and the answer by the number of rows that it changed.
  unfoldable pub write_transition :
      (id : String) (from_statuses : List TaskStatus)
      → ExecutionState
      → D
      → Option ExecutionState × D
  unfolding row_of
  write_transition id from_statuses st d =
      let (changed_rows, d') =
        sql.update (row_of J codec st) id (map status_value from_statuses) d in
      (if ltb 0 changed_rows then some st else none, d')

  -- The statement after the read, if there is something to write.
  unfoldable pub finish_transition :
      (id : String) (from_statuses : List TaskStatus)
      → Result String (Option ExecutionState)
      → D
      → Result String (Option ExecutionState) × D
  unfolding write_transition
  finish_transition id from_statuses (err e) d = (err e, d)
  finish_transition id from_statuses (ok none) d = (ok none, d)
  finish_transition id from_statuses (ok (some st)) d =
      let (answer, d') = write_transition id from_statuses st d in (ok answer, d')

  -- `transition_task_status` when nothing else writes in between
  unfoldable pub transition_task_status :
      (id : String) (from_statuses : List TaskStatus) (to_status : TaskStatus)
      → D
      → Result String (Option ExecutionState) × D
  unfolding read_for_transition finish_transition load_task
  transition_task_status id [] to_status d = (ok none, d)
  transition_task_status id (s ∷ more) to_status d =
      finish_transition id (s ∷ more) (read_for_transition (s ∷ more) to_status (load_task id d)) d

  unfoldable pub list_tasks : Option TaskStatus → D → Result String (List ExecutionState)
  unfolding parse_all
  list_tasks none d = parse_all J codec (sql.select_all d)
  list_tasks (some s) d = parse_all J codec (sql.select_by_status (status_value s) d)

unfoldable pub delete_task : {J D : Type 0} → Statements J D → String → D → Bool × D
delete_task sql id d = let (changed_rows, d') = sql.delete id d in (ltb 0 changed_rows, d')
