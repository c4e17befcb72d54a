-- ===== src/State/Sqlite/Races.antt =====
-- Callers of the store in SQLite whose reads and writes interleave: each has read the task before
-- any of them writes.
use glassrail.Common.{
  List, Option, Result, String, [], ap, arith, elem, false, if◌then◌else◌, map, none, ok, refl,
  some, suc, true, zero, ℕ, ◌∷◌, ◌≡◌, string_eq,
}
use mathlib.Core.Path.{ap₂}
use glassrail.State.Sqlite.Statuses.{elem-status_value}
use glassrail.Core.{ExecutionState, TaskStatus}
use glassrail.State.{status_eq}
use glassrail.State.Sqlite
use glassrail.State.Sqlite.{Row, Statements, Codec, Laws, hit, row_of, status_value}
use glassrail.State.Sqlite.Refines.{write_transition-answer, write_transition-row}

module _ (J D : Type 0) (sql : Statements J D) (codec : Codec J) where
  -- `n` callers that have read the same write one after the other.
  unfoldable pub finish_each :
      (n : ℕ) (id : String) (froms : List TaskStatus)
      → Result String (Option ExecutionState)
      → D
      → List (Result String (Option ExecutionState))
  finish_each zero id froms seen d = []
  finish_each (suc n) id froms seen d =
      let (answer, d') = Sqlite.finish_transition J D sql codec id froms seen d in
      answer ∷ finish_each n id froms seen d'

  -- `n` callers of `transition_task_status`, each of which has read before any writes.
  unfoldable pub race :
      (n : ℕ) (id : String) (froms : List TaskStatus) (to : TaskStatus)
      → D
      → List (Result String (Option ExecutionState))
  unfolding finish_each
  race n id froms to d =
      finish_each n id froms
        (Sqlite.read_for_transition froms to (Sqlite.load_task J D sql codec id d)) d

-- `None` for each of `n` callers
abbrev pub lost : ℕ → List (Result String (Option ExecutionState))
lost zero = []
lost (suc n) = ok none ∷ lost n

hit-row_of :
    (J : Type 0) (codec : Codec J) (st : ExecutionState) (froms : List TaskStatus)
    → hit (some (row_of J codec st)) (map status_value froms) ≡ elem st.status froms
unfolding row_of
hit-row_of J codec st froms = elem-status_value st.status froms

module _ (J D : Type 0) (sql : Statements J D) (codec : Codec J) (row : String → D → Option (Row J))
    (laws : Laws J D sql row) (id : String) (froms : List TaskStatus) where
  finish_transition-write :
      (new : ExecutionState) (d : D)
      → (Sqlite.finish_transition J D sql codec id froms (ok (some new)) d).0
        ≡ ok (if hit (row id d) (map status_value froms) then some new else none)
  unfolding Sqlite.finish_transition
  finish_transition-write new d =
      ap ok (write_transition-answer J D sql codec row laws id froms new d)

  -- The status of the row, as the test of a later `UPDATE` sees it.
  finish_transition-hit :
      (new : ExecutionState) (d : D)
      → elem new.status froms ≡ false
      → hit
          (row id (Sqlite.finish_transition J D sql codec id froms (ok (some new)) d).1)
          (map status_value froms)
        ≡ false
  unfolding Sqlite.finish_transition
  finish_transition-hit new d left = ground (
    arith,
    left,
    hit-row_of J codec new froms,
    string_eq.beq_iff id id,
    ap (λ r. hit r (map status_value froms))
        (write_transition-row J D sql codec row laws id id froms new d),
  )

  finish_each-lost :
      (n : ℕ) (new : ExecutionState) (d : D)
      → elem new.status froms ≡ false
      → hit (row id d) (map status_value froms) ≡ false
      → finish_each J D sql codec n id froms (ok (some new)) d ≡ lost n
  unfolding finish_each
  finish_each-lost zero new d left missed = refl
  finish_each-lost (suc n) new d left missed =
      ap₂ (λ r rs. r ∷ rs) (ground (arith, missed, finish_transition-write new d))
        (finish_each-lost n new
          (Sqlite.finish_transition J D sql codec id froms (ok (some new)) d).1 left
          (finish_transition-hit new d left))

  read_for_transition_lem :
      (to : TaskStatus) (st : ExecutionState) (d : D)
      → row id d ≡ some (row_of J codec st)
      → codec.parse (codec.dump st) ≡ ok st
      → elem st.status froms ≡ true
      → Sqlite.read_for_transition froms to (Sqlite.load_task J D sql codec id d)
        ≡ ok (some (record st { status = to }))
  unfolding Sqlite.load_task Sqlite.read_for_transition Sqlite.parse_row row_of
  read_for_transition_lem to st d held parses met = rw (laws.selected id d, held, parses, met) refl

  -- Callers of the store in SQLite whose calls interleave, so that each has read the task before
  -- any of them writes: if the row of the task is that of a state with one of the statuses that
  -- they ask for, its JSON is read back as the state, and the status that they write is none of
  -- those, then the first to write is answered with the state and its new status, and every other
  -- caller is answered `None`.
  pub race_lem :
      (n : ℕ) (to : TaskStatus) (st : ExecutionState) (d : D)
      → row id d ≡ some (row_of J codec st)
      → codec.parse (codec.dump st) ≡ ok st
      → elem st.status froms ≡ true
      → elem to froms ≡ false
      → race J D sql codec (suc n) id froms to d ≡ ok (some (record st { status = to })) ∷ lost n
  unfolding race finish_each
  race_lem n to st d held parses met left =
      let new : ExecutionState = record st { status = to } in
      rw (read_for_transition_lem to st d held parses met) (
        ap₂ (λ r rs. r ∷ rs)
          (ground (
            arith,
            met,
            finish_transition-write new d,
            ap (λ r. hit r (map status_value froms)) held,
            hit-row_of J codec st froms,
          ))
          (finish_each-lost n new
            (Sqlite.finish_transition J D sql codec id froms (ok (some new)) d).1 left
            (finish_transition-hit new d left)))
