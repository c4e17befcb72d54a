-- ===== src/Samples/Tables.antt =====
-- The store in SQLite on a table that is a list of rows.
use glassrail.Common.{
  Dict, List, String, [], all, arith, elem, err, filter, if◌then◌else◌, insert, is_some, lookup,
  lookup-insert, map, none, ok, refl, some, ◌==◌, ◌∷◌, ◌≡◌, string_eq,
}
use glassrail.Core.{ExecutionState, TaskStatus}
use glassrail.State.{status_eq}
use glassrail.State.Refinement.{Command, Contents, answers, contents_after}
use glassrail.State.Sqlite.{Row, Statements, Codec, Laws, hit, json_of, row_of}
use glassrail.State.Sqlite.Refines.{stored, run_in, run_in-refines}
use glassrail.State.Sqlite.Finite.{state_finite}
use glassrail.State.Sqlite.Races.{race, lost, race_lem}
use glassrail.Samples.{new_task}

-- The state stands for its JSON, which is read back if all its numbers are finite.
abbrev J : Type 0
J = ExecutionState

abbrev json : Codec J
json = record {
  dump = λ st. st;
  parse = λ st. if state_finite st then ok st else err "the input should be a valid number";
}

abbrev Table : Type 0
Table = Dict String (Row J)

drop_row : String → Table → Table
drop_row id [] = []
drop_row id ((k, r) ∷ t) = let rest = drop_row id t in if k == id then rest else (k, r) ∷ rest

lookup-drop_row :
    (id k : String) (t : Table) → lookup k (drop_row id t) ≡ (if id == k then none else lookup k t)
unfolding drop_row lookup
lookup-drop_row id k [] = ground arith
lookup-drop_row id k ((i, r) ∷ t) = ground (
  arith,
  lookup-drop_row id k t,
  string_eq.beq_iff i id,
  string_eq.beq_iff i k,
  string_eq.beq_iff id k,
)

abbrev sql : Statements J Table
sql = record {
  insert_or_replace = insert;
  select_data = λ id t. json_of (lookup id t);
  update = λ r id statuses t. (
    if hit (lookup id t) statuses then 1 else 0,
    if hit (lookup id t) statuses then insert id r t else t,
  );
  select_all = λ t. map (λ e. e.1.json) t;
  select_by_status = λ s t. map (λ e. e.1.json) (filter (λ e. e.1.status == s) t);
  delete = λ id t. (if is_some (lookup id t) then 1 else 0, drop_row id t);
}

sql-Laws : Laws J Table sql lookup
sql-Laws = record {
  replaced = λ id k r t. lookup-insert id k r t;
  selected = λ id t. refl;
  updated = λ r id k statuses t. ground (arith, lookup-insert id k r t);
  update_count = λ r id statuses t. refl;
  deleted = lookup-drop_row;
  delete_count = λ id t. refl;
}

abbrev waiting : ExecutionState
waiting = record new_task { status = TaskStatus.awaiting_confirmation }

abbrev asked : List TaskStatus
asked = TaskStatus.awaiting_confirmation ∷ []

abbrev calls : List Command
calls =
    Command.save waiting
    ∷ Command.transition "t" asked TaskStatus.resuming
    ∷ Command.load "t"
    ∷ Command.delete "t"
    ∷ []

abbrev nothing : Contents
nothing k = none

run_in-refines_example :
    ((run_in J Table sql json calls []).0 ≡ map ok (answers calls nothing))
    × ((k : String)
        → lookup k (run_in J Table sql json calls []).1
          ≡ stored json (contents_after calls nothing k))
unfolding lookup state_finite all
run_in-refines_example =
    run_in-refines J Table sql json lookup sql-Laws (λ st fin. rw fin refl) calls [] nothing
      (λ k. refl) (λ k st e. ground (arith, e)) (refl, (tt, (tt, (tt, tt))))

race_lem_example :
    race J Table sql json 3 "t" asked TaskStatus.resuming (("t", row_of J json waiting) ∷ [])
    ≡ ok (some (record waiting { status = TaskStatus.resuming })) ∷ lost 2
unfolding lookup elem glassrail.State.status_beq state_finite all
race_lem_example =
    race_lem J Table sql json lookup sql-Laws "t" asked 2 TaskStatus.resuming waiting
      (("t", row_of J json waiting) ∷ []) refl refl refl refl
