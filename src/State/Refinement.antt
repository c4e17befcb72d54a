-- ===== src/State/Refinement.antt =====
-- The store against its contract: a partial function from task ids to states.
use glassrail.Common.{
  Bool, List, Option, Option-cases, String, [], ap, arith, elem, if◌then◌else◌, inl, inr, is_some,
  lookup, lookup-insert, none, refl, some, ◌&&◌, ◌==◌, ◌∷◌, ◌≡◌, string_eq,
}
use mathlib.Core.Path.{ap₂}
use glassrail.Core.{ExecutionState, TaskStatus}
use glassrail.State.{
  Tasks, save_task, load_task, transition_task_status, remove, delete_task, status_eq,
}

-- The calls of the store, and what they answer.
pub data Command : Type 0 where
  save : ExecutionState → Command
  load : String → Command
  transition : String → List TaskStatus → TaskStatus → Command
  delete : String → Command

pub data Reply : Type 0 where
  saved : Reply
  loaded : Option ExecutionState → Reply
  deleted : Bool → Reply

unfoldable pub exec : Command → Tasks → Reply × Tasks
unfolding save_task load_task transition_task_status delete_task
exec (save st) ts = (saved, save_task st ts)
exec (load id) ts = (loaded (load_task id ts), ts)
exec (transition id froms to) ts =
    let (r, ts') = transition_task_status id froms to ts in (loaded r, ts')
exec (delete id) ts = let (b, ts') = delete_task id ts in (deleted b, ts')

unfoldable pub run : List Command → Tasks → List Reply × Tasks
run [] ts = ([], ts)
run (c ∷ cs) ts = let (r, ts') = exec c ts in let (rs, ts'') = run cs ts' in (r ∷ rs, ts'')

-- The contract: what a call does to the map, and what it answers.
abbrev pub Contents : Type 0
Contents = String → Option ExecutionState

abbrev pub changed : Command → Contents → Contents
changed (save st) m k = if st.task_id == k then some st else m k
changed (load id) m k = m k
changed (transition id froms to) m k = elim (m k) [
  | none ↦ none
  | some st ↦ if id == k && elem st.status froms then some (record st { status = to }) else some st
]
changed (delete id) m k = if id == k then none else m k

abbrev pub answer : Command → Contents → Reply
answer (save st) m = saved
answer (load id) m = loaded (m id)
answer (transition id froms to) m = elim (m id) [
  | none ↦ loaded none
  | some st ↦
      if elem st.status froms then loaded (some (record st { status = to })) else loaded none
]
answer (delete id) m = deleted (is_some (m id))

pub lookup-remove :
    (id k : String) (ts : Tasks) → lookup k (remove id ts) ≡ (if id == k then none else lookup k ts)
unfolding remove lookup
lookup-remove id k [] = ground arith
lookup-remove id k ((i, st) ∷ ts) = ground (
  arith,
  lookup-remove id k ts,
  string_eq.beq_iff i id,
  string_eq.beq_iff i k,
  string_eq.beq_iff id k,
)

module _ (ts : Tasks) (m : Contents) (same : (k : String) → lookup k ts ≡ m k) where
  exec-changed : (c : Command) (k : String) → lookup k (exec c ts).1 ≡ changed c m k
  unfolding exec
  exec-changed (save st) k = ground (arith, lookup-insert st.task_id k st ts, same k)
  exec-changed (load id) k = same k
  exec-changed (transition id froms to) k = elim (Option-cases (lookup id ts)) [
    | inl e ↦ ground (arith, same k, same id, string_eq.beq_iff id k)
    | inr (st, e) ↦ ground (
      arith,
      same k,
      same id,
      string_eq.beq_iff id k,
      lookup-insert id k (record st { status = to }) ts,
    )
  ]
  exec-changed (delete id) k = ground (arith, lookup-remove id k ts, same k)

  exec-answer : (c : Command) → (exec c ts).0 ≡ answer c m
  unfolding exec
  exec-answer (save st) = refl
  exec-answer (load id) = ap loaded (same id)
  exec-answer (transition id froms to) = elim (Option-cases (lookup id ts)) [
    | inl e ↦ ground (arith, same id)
    | inr (st, e) ↦ ground (arith, same id)
  ]
  exec-answer (delete id) = ground (arith, same id)

-- The contract for a list of calls.
abbrev pub contents_after : List Command → Contents → Contents
contents_after [] m = m
contents_after (c ∷ cs) m = contents_after cs (changed c m)

abbrev pub answers : List Command → Contents → List Reply
answers [] m = []
answers (c ∷ cs) m = answer c m ∷ answers cs (changed c m)

-- The store implements its contract: if it holds what a map from ids to states says, then after any
-- list of calls it has answered what the contract answers, and it holds what the contract says.
pub run-refines :
    (cs : List Command) (ts : Tasks) (m : Contents)
    → ((k : String) → load_task k ts ≡ m k)
    → ((run cs ts).0 ≡ answers cs m)
      × ((k : String) → load_task k (run cs ts).1 ≡ contents_after cs m k)
unfolding run load_task
run-refines [] ts m same = (refl, same)
run-refines (c ∷ cs) ts m same =
    let (replies, kept) = run-refines cs (exec c ts).1 (changed c m) (exec-changed ts m same c) in
    (ap₂ (λ r rs. r ∷ rs) (exec-answer ts m same c) replies, kept)
