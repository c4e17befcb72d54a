-- ===== src/State/Sqlite/Refines.antt =====
-- The store in SQLite against the contract that the store in memory implements.
use glassrail.Common.{
  Bool-cases, List, Option, Option-cases, Result, String, [], ap, arith, elem, if◌then◌else◌, inl,
  inr, is_some, map, none, ok, refl, some, string_eq, sym, true, ◌&&◌, ◌==◌, ◌>>=◌, ◌∙◌, ◌∷◌, ◌≡◌,
}
use mathlib.Core.Path.{ap₂}
use glassrail.State.Sqlite.Statuses.{elem-status_value}
use glassrail.State.Sqlite.Finite.{state_finite}
use glassrail.Core.{ExecutionState, TaskStatus}
use glassrail.State.Refinement.{Command, Reply, Contents, changed, answer, contents_after, answers}
use glassrail.State.{status_eq}
use glassrail.State.Sqlite
use glassrail.State.Sqlite.{Row, Statements, Codec, Laws, hit, json_of, row_of, status_value}

-- The row of what the contract holds under a key.
abbrev pub stored : {J : Type 0} → Codec J → Option ExecutionState → Option (Row J)
stored codec none = none
stored {J = J} codec (some st) = some (row_of J codec st)

-- What the contract's transition makes of what the map holds.
abbrev pub moved : List TaskStatus → TaskStatus → Option ExecutionState → Option ExecutionState
moved froms to none = none
moved froms to (some st) = if elem st.status froms then some (record st { status = to }) else none

-- All states of the map are without NaN and infinities.
abbrev pub AllFinite : Contents → Type 0
AllFinite m = (k : String) (st : ExecutionState) → m k ≡ some st → state_finite st ≡ true

-- A call saves no state with NaN or infinities.
abbrev pub SavesFinite : Command → Type 0
SavesFinite (Command.save st) = state_finite st ≡ true
SavesFinite (Command.load id) = Unit
SavesFinite (Command.transition id froms to) = Unit
SavesFinite (Command.delete id) = Unit

abbrev pub AllSavesFinite : List Command → Type 0
AllSavesFinite [] = Unit
AllSavesFinite (c ∷ cs) = SavesFinite c × AllSavesFinite cs

some-finite :
    (a b : ExecutionState) → some a ≡ some b → state_finite a ≡ true → state_finite b ≡ true
some-finite a b e fin = ap (λ o. elim o [ none ↦ true | some st ↦ state_finite st ]) (sym e) ∙ fin

changed-AllFinite :
    (c : Command) (m : Contents) → AllFinite m → SavesFinite c → AllFinite (changed c m)
unfolding state_finite
changed-AllFinite (Command.save st') m fin saves k st e = elim (Bool-cases (st'.task_id == k)) [
  | inl f ↦ some-finite st' st (sym (rw f refl) ∙ e) saves
  | inr f ↦ fin k st (sym (rw f refl) ∙ e)
]
changed-AllFinite (Command.load id) m fin saves k st e = fin k st e
changed-AllFinite (Command.transition id froms to) m fin saves k st e = elim (Option-cases (m k)) [
  | inl f ↦ absurd (ground (arith, e, f))
  | inr (st', f) ↦ elim (Bool-cases (id == k && elem st'.status froms)) [
    | inl g ↦ some-finite (record st' { status = to }) st (ground (arith, e, f, g)) (fin k st' f)
    | inr g ↦ some-finite st' st (ground (arith, e, f, g)) (fin k st' f)
  ]
]
changed-AllFinite (Command.delete id) m fin saves k st e = elim (Bool-cases (id == k)) [
  | inl f ↦ absurd (ground (arith, e, f))
  | inr f ↦ fin k st (ground (arith, e, f))
]

module _ (J D : Type 0) (sql : Statements J D) (codec : Codec J) where
  unfoldable pub exec_in : Command → D → Result String Reply × D
  unfolding Sqlite.save_task Sqlite.load_task Sqlite.transition_task_status Sqlite.delete_task
  exec_in (Command.save st) d = (ok Reply.saved, Sqlite.save_task J D sql codec st d)
  exec_in (Command.load id) d =
      (do st ← Sqlite.load_task J D sql codec id d; ok (Reply.loaded st), d)
  exec_in (Command.transition id froms to) d =
      let (r, d') = Sqlite.transition_task_status J D sql codec id froms to d in
      (do st ← r; ok (Reply.loaded st), d')
  exec_in (Command.delete id) d =
      let (b, d') = Sqlite.delete_task sql id d in (ok (Reply.deleted b), d')

  unfoldable pub run_in : List Command → D → List (Result String Reply) × D
  run_in [] d = ([], d)
  run_in (c ∷ cs) d = let (r, d') = exec_in c d in let (rs, d'') = run_in cs d' in (r ∷ rs, d'')

module _ (J D : Type 0) (sql : Statements J D) (codec : Codec J) (row : String → D → Option (Row J))
    (laws : Laws J D sql row) where
  pub write_transition-answer :
      (id : String) (froms : List TaskStatus) (new : ExecutionState) (d : D)
      → (Sqlite.write_transition J D sql codec id froms new d).0
        ≡ (if hit (row id d) (map status_value froms) then some new else none)
  unfolding Sqlite.write_transition
  write_transition-answer id froms new d =
      ground (arith, laws.update_count (row_of J codec new) id (map status_value froms) d)

  pub write_transition-row :
      (id k : String) (froms : List TaskStatus) (new : ExecutionState) (d : D)
      → row k (Sqlite.write_transition J D sql codec id froms new d).1 ≡ (
          if id == k && hit (row id d) (map status_value froms)
          then some (row_of J codec new)
          else row k d)
  unfolding Sqlite.write_transition
  write_transition-row id k froms new d =
      laws.updated (row_of J codec new) id k (map status_value froms) d

module _ (J D : Type 0) (sql : Statements J D) (codec : Codec J) (row : String → D → Option (Row J))
    (laws : Laws J D sql row)
    (parses : (st : ExecutionState)
      → state_finite st ≡ true
      → codec.parse (codec.dump st) ≡ ok st) where
  -- The database holds what a map from ids to states says.
  abbrev pub Holds : D → Contents → Type 0
  Holds d m = (k : String) → row k d ≡ stored codec (m k)

  pub parse_row-stored :
      (o : Option ExecutionState)
      → ((st : ExecutionState) → o ≡ some st → state_finite st ≡ true)
      → Sqlite.parse_row J codec (json_of (stored codec o)) ≡ ok o
  unfolding Sqlite.parse_row row_of
  parse_row-stored none fin = refl
  parse_row-stored (some st) fin = rw (parses st (fin st refl))

  load_task-Holds :
      (id : String) (d : D) (m : Contents)
      → Holds d m
      → AllFinite m
      → Sqlite.load_task J D sql codec id d ≡ ok (m id)
  unfolding Sqlite.load_task
  load_task-Holds id d m holds fin =
      rw (laws.selected id d, holds id, parse_row-stored (m id) (fin id))

  hit-stored :
      (st : ExecutionState) (froms : List TaskStatus)
      → hit (some (row_of J codec st)) (map status_value froms) ≡ elem st.status froms
  unfolding row_of
  hit-stored st froms = elem-status_value st.status froms

  -- The row that the statement meets, where the map holds a state.
  hit-Holds :
      (id : String) (froms : List TaskStatus) (st : ExecutionState) (d : D) (m : Contents)
      → Holds d m
      → m id ≡ some st
      → hit (row id d) (map status_value froms) ≡ elem st.status froms
  hit-Holds id froms st d m holds e = rw (holds id, e, hit-stored st froms)

  changed-transition :
      (id : String) (froms : List TaskStatus) (to : TaskStatus) (m : Contents)
      → (o : Option ExecutionState) → m id ≡ o
      → (k : String)
      → changed (Command.transition id froms to) m k
        ≡ (if id == k && is_some (moved froms to o) then moved froms to o else m k)
  changed-transition id froms to m none e k = elim (Option-cases (m k)) [
    | inl n ↦ ground (arith, n)
    | inr (st, n) ↦ ground (arith, n, e, string_eq.beq_iff id k)
  ]
  changed-transition id froms to m (some st) e k = elim (Option-cases (m k)) [
    | inl n ↦ ground (arith, n, e, string_eq.beq_iff id k)
    | inr (st', n) ↦ ground (arith, n, e, string_eq.beq_iff id k)
  ]

  answer-transition :
      (id : String) (froms : List TaskStatus) (to : TaskStatus) (m : Contents)
      → answer (Command.transition id froms to) m ≡ Reply.loaded (moved froms to (m id))
  answer-transition id froms to m = elim (Option-cases (m id)) [
    | inl e ↦ ground (arith, e)
    | inr (st, e) ↦ ground (arith, e)
  ]

  read_for_transition-moved :
      (froms : List TaskStatus) (to : TaskStatus) (o : Option ExecutionState)
      → Sqlite.read_for_transition froms to (ok o) ≡ ok (moved froms to o)
  unfolding Sqlite.read_for_transition
  read_for_transition-moved froms to none = refl
  read_for_transition-moved froms to (some st) = refl

  hit-moved :
      (id : String) (froms : List TaskStatus) (to : TaskStatus) (new : ExecutionState) (d : D)
      (m : Contents)
      → Holds d m
      → (o : Option ExecutionState) → m id ≡ o
      → moved froms to o ≡ some new
      → hit (row id d) (map status_value froms) ≡ true
  hit-moved id froms to new d m holds none e moves = ground (arith, moves)
  hit-moved id froms to new d m holds (some st) e moves =
      ground (arith, moves, hit-Holds id froms st d m holds e)

  finish_transition-stores :
      (id : String) (froms : List TaskStatus) (to : TaskStatus) (d : D) (m : Contents)
      → Holds d m
      → (w : Option ExecutionState) → moved froms to (m id) ≡ w
      → ((Sqlite.finish_transition J D sql codec id froms (ok w) d).0 ≡ ok w)
        × Holds
            (Sqlite.finish_transition J D sql codec id froms (ok w) d).1
            (changed (Command.transition id froms to) m)
  unfolding Sqlite.finish_transition
  finish_transition-stores id froms to d m holds none moves =
      (refl, λ k. ground (arith, holds k, moves, changed-transition id froms to m (m id) refl k))
  finish_transition-stores id froms to d m holds (some new) moves =
      let met = hit-moved id froms to new d m holds (m id) refl moves in
      (
        ground (arith, met, write_transition-answer J D sql codec row laws id froms new d),
        λ k. ground (
          arith,
          met,
          moves,
          holds k,
          write_transition-row J D sql codec row laws id k froms new d,
          changed-transition id froms to m (m id) refl k,
        ),
      )

  moved-nil : (to : TaskStatus) (o : Option ExecutionState) → moved [] to o ≡ none
  unfolding elem
  moved-nil to none = refl
  moved-nil to (some st) = refl

  exec_in-stores :
      (c : Command) (d : D) (m : Contents)
      → Holds d m
      → AllFinite m
      → ((exec_in J D sql codec c d).0 ≡ ok (answer c m))
        × Holds (exec_in J D sql codec c d).1 (changed c m)
  unfolding exec_in Sqlite.save_task Sqlite.delete_task Sqlite.transition_task_status
  exec_in-stores (Command.save st) d m holds fin =
      (refl, λ k. ground (arith, holds k, laws.replaced st.task_id k (row_of J codec st) d))
  exec_in-stores (Command.load id) d m holds fin = (rw (load_task-Holds id d m holds fin), holds)
  exec_in-stores (Command.transition id [] to) d m holds fin = (
    rw (answer-transition id [] to m, moved-nil to (m id)),
    λ k. ground (arith, holds k, moved-nil to (m id), changed-transition id [] to m (m id) refl k),
  )
  exec_in-stores (Command.transition id (s ∷ more) to) d m holds fin =
      let (replied, kept) =
        finish_transition-stores id (s ∷ more) to d m holds (moved (s ∷ more) to (m id)) refl in
      rw (load_task-Holds id d m holds fin, read_for_transition-moved (s ∷ more) to (m id))
        (rw (replied, answer-transition id (s ∷ more) to m), kept)
  exec_in-stores (Command.delete id) d m holds fin = (
    ground (arith, holds id, laws.delete_count id d),
    λ k. ground (arith, holds k, laws.deleted id k d),
  )

  -- The store in SQLite implements the same contract: if its rows are the states of a map from ids
  -- to states, no state there or saved by a call has a NaN or an infinity, and reading the JSON of a
  -- state without those returns the state, then after any list of calls, each run to its end before
  -- the next, every call has answered without an error what the contract answers, and the rows are
  -- those of the map that the contract ends with.
  pub run_in-refines :
      (cs : List Command) (d : D) (m : Contents)
      → ((k : String) → row k d ≡ stored codec (m k))
      → AllFinite m
      → AllSavesFinite cs
      → ((run_in J D sql codec cs d).0 ≡ map ok (answers cs m))
        × ((k : String)
            → row k (run_in J D sql codec cs d).1 ≡ stored codec (contents_after cs m k))
  unfolding run_in
  run_in-refines [] d m holds fin saves = (refl, holds)
  run_in-refines (c ∷ cs) d m holds fin (one, more) =
      let (replied, kept) = exec_in-stores c d m holds fin in
      let (replies, rest) =
        run_in-refines cs (exec_in J D sql codec c d).1 (changed c m) kept
          (changed-AllFinite c m fin one) more in
      (ap₂ (λ r rs. r ∷ rs) replied replies, rest)
