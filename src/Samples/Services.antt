-- ===== src/Samples/Services.antt =====
-- The store, the bus and the router at small inputs.
use glassrail.Common.{
  List, String, [], arith, count, elem, false, filter, lookup, none, pos, refl, some, true, ℕ, ℤ,
  ◌∷◌, ◌≡◌, ◌≤◌, ◌⊎◌, nat_eq,
}
use glassrail.Core.{ExecutionState, TaskStatus}
use glassrail.State.{Tasks, load_task, status_beq, status_eq}
use glassrail.State.Refinement.{Command, Contents, run, answers, contents_after, run-refines}
use glassrail.State.Claims.{winners, one_winner}
use glassrail.Events.{EventBus, accepts}
use glassrail.Events.Delivery.{drop_first, deliver_all, overflow, deliver_all_lem}
use glassrail.Providers.{Stream, Provider, RouterError, is_eligible, failed, complete}
use glassrail.Providers.Routing.{IsAsked, Outcome, complete_lem}
use glassrail.Samples.{new_task}

abbrev awaiting : ExecutionState
awaiting = record new_task { status = TaskStatus.awaiting_confirmation }

abbrev calls : List Command
calls =
    Command.save awaiting
    ∷ Command.transition "t" (TaskStatus.awaiting_confirmation ∷ []) TaskStatus.resuming
    ∷ Command.load "t"
    ∷ Command.delete "t"
    ∷ []

abbrev nothing : Contents
nothing k = none

run-refines_example :
    ((run calls []).0 ≡ answers calls nothing)
    × ((k : String) → load_task k (run calls []).1 ≡ contents_after calls nothing k)
unfolding load_task lookup
run-refines_example = run-refines calls [] nothing (λ k. refl)

abbrev stored : Tasks
stored = ("t", awaiting) ∷ []

one_winner_example :
    winners 3 "t" (TaskStatus.awaiting_confirmation ∷ []) TaskStatus.resuming stored ≡ 1
unfolding load_task lookup elem status_beq
one_winner_example =
    one_winner 2 "t" (TaskStatus.awaiting_confirmation ∷ []) TaskStatus.resuming stored awaiting
      refl refl refl

-- An event: its task, and a number.
abbrev Sample : Type 0
Sample = String × ℕ

task_of : Sample → String
task_of (t, n) = t

abbrev events : List Sample
events = ("t", 1) ∷ ("u", 2) ∷ ("t", 3) ∷ ("t", 4) ∷ []

abbrev mine : List Sample
mine = filter (accepts task_of (some "t")) events

deliver_all_lem_example :
    ((deliver_all task_of 2 events (record { queue = []; task_id = some "t"; dropped = 0 })).queue
      ≡ drop_first (overflow task_of 2 mine) mine)
    × ((deliver_all task_of 2 events
          (record { queue = []; task_id = some "t"; dropped = 0 })).dropped
        ≡ overflow task_of 2 mine)
deliver_all_lem_example = deliver_all_lem task_of 2 events (some "t")

abbrev bus : EventBus Sample
bus = record {
  registry = 0 ∷ [];
  subscriptions =
      (0, record { queue = []; task_id = none; dropped = 0 })
      ∷ (1, record { queue = []; task_id = none; dropped = 0 })
      ∷ [];
  max_queue = 2;
}

bus_once : (x : ℕ) → count x bus.registry ≤ 1
unfolding count
bus_once x = ground arith

abbrev down : Provider String
down = record {
  name = "local";
  tier = pos 0;
  is_healthy = some false;
  complete = λ json_mode max_tokens. Stream.unavailable;
}

abbrev remote : Provider String
remote = record {
  name = "remote";
  tier = pos 2;
  is_healthy = none;
  complete = λ json_mode max_tokens. Stream.chunks "a" ("b" ∷ []) false;
}

abbrev providers : List (Provider String)
providers = down ∷ remote ∷ []

complete_lem_example :
    (filter (is_eligible (pos 0) none) providers ≡ [])
      × (complete (some (pos 100)) providers (pos 0) none true (pos 256)
          ≡ failed RouterError.no_providers)
    ⊎ ((asked : ℤ) × IsAsked (some (pos 100)) (pos 256) asked
        × Outcome true asked
            (filter (is_eligible (pos 0) none) providers)
            (complete (some (pos 100)) providers (pos 0) none true (pos 256)))
complete_lem_example = complete_lem (some (pos 100)) providers (pos 0) none true (pos 256)
