-- ===== src/State/Sqlite/Statuses.antt =====
-- The texts of the statuses, as a row of the table holds them.
use glassrail.Common.{
  List, Option, String, [], ap, arith, elem, if◌then◌else◌, map, none, refl, some, ◌==◌, ◌∷◌, ◌≡◌,
  string_eq,
}
use glassrail.Core.{TaskStatus}
use glassrail.State.{status_eq}
use glassrail.State.Sqlite.{status_value}

-- The status that a text names.
abbrev status_named : String → Option TaskStatus
status_named t =
    if t == "planning"
    then some TaskStatus.planning
    else if t == "awaiting_confirmation"
    then some TaskStatus.awaiting_confirmation
    else if t == "resuming"
    then some TaskStatus.resuming
    else if t == "executing"
    then some TaskStatus.executing
    else if t == "completed"
    then some TaskStatus.completed
    else if t == "failed"
    then some TaskStatus.failed
    else if t == "paused"
    then some TaskStatus.paused
    else if t == "cancelled"
    then some TaskStatus.cancelled
    else if t == "rejected"
    then some TaskStatus.rejected
    else none

status_named-value : (a : TaskStatus) → status_named (status_value a) ≡ some a
unfolding status_value
status_named-value TaskStatus.planning = refl
status_named-value TaskStatus.awaiting_confirmation = refl
status_named-value TaskStatus.resuming = refl
status_named-value TaskStatus.executing = refl
status_named-value TaskStatus.completed = refl
status_named-value TaskStatus.failed = refl
status_named-value TaskStatus.paused = refl
status_named-value TaskStatus.cancelled = refl
status_named-value TaskStatus.rejected = refl

pub status_value_injective : (a b : TaskStatus) → status_value a ≡ status_value b → a ≡ b
status_value_injective a b e =
    ground (arith, ap status_named e, status_named-value a, status_named-value b)

-- The test of the statement reads the same as the test on the statuses.
pub elem-status_value :
    (a : TaskStatus) (froms : List TaskStatus)
    → elem (status_value a) (map status_value froms) ≡ elem a froms
unfolding elem
elem-status_value a [] = refl
elem-status_value a (s ∷ more) = ground (
  arith,
  elem-status_value a more,
  status_value_injective a s,
  status_eq.beq_iff a s,
  string_eq.beq_iff (status_value a) (status_value s),
)
