-- ===== src/Executor/Scheduler.antt =====
-- `Executor._run`: the loop that starts ready nodes and waits for running ones, as a step relation.
-- The loop gives up control only in `asyncio.wait`, so the nodes in flight finish only there; in
-- which order they do, and with which outcome, is the environment's choice. The semaphore, the
-- events and the spans are not modelled.
pub mod Deps
pub mod Records
pub mod Invariant
pub mod Completion
pub mod Rounds
pub mod Runs
pub mod Plans
pub mod Safety
pub mod Finish
use glassrail.Common.{
  Bool, List, String, [], count, elem, false, if◌then◌else◌, leb, length, ltb, max, nat_beq, negsuc,
  none, not, pos, some, true, ℕ, ℤ, ◌&&◌, ◌++◌, ◌+◌, ◌==◌, ◌∷◌, ◌≡◌, ◌≤◌, int_eq,
}
use glassrail.Core.{Node, NodeResult, ExecutionState, TaskStatus, Json}
use glassrail.Config.{Settings}
use glassrail.Validator.Nesting.{node_at}
use glassrail.Executor.Plans.{
  has_result, DepMap, is_ready, dependency_map, only_uses_skipped_content, final_output_result,
}
use glassrail.Executor.Recording.{record_skipped, record_node}

pub data Phase : Type 0 where
  -- at the head of `while pending or in_flight`
  head : Phase
  -- in `asyncio.wait`
  waiting : Phase
  -- `state.status = COMPLETED`
  finished : Phase
  -- `RuntimeError`: no ready nodes remain
  stuck : Phase
  -- `KeyError`: an id of `sorted_node_ids` is no node
  no_node : Phase
  -- a node's task raised, and `await task` raises it again
  crashed : Phase

-- `in_flight` is `running ++ done`: the tasks that still run, and those that have ended and are not
-- yet taken out.
pub record Config : Type 0 where
  pub phase : Phase
  pub pending : List ℤ
  pub running : List ℤ
  pub done : List ℤ
  pub state : ExecutionState

pub record Sweep : Type 0 where
  pub config : Config
  pub dispatched : Bool

-- How one round of the `for` loop ends.
pub data Round : Type 0 where
  next : Sweep → Round
  -- `break`
  full : Sweep → Round
  bad_id : Sweep → Round

abbrev pub and_then : Round → (Sweep → Round) → Round
and_then (next s) rest = rest s
and_then (full s) rest = full s
and_then (bad_id s) rest = bad_id s

-- The parts of a run that do not change.
pub record Job : Type 0 where
  pub settings : Settings
  pub nodes : List Node
  pub order : List ℤ
  pub deps : DepMap

-- `pending.remove(i)`
unfoldable pub drop : ℤ → List ℤ → List ℤ
drop i [] = []
drop i (x ∷ xs) = let rest = drop i xs in if x == i then rest else x ∷ rest

module _ (j : Job) where
  -- `max(1, self._settings.max_concurrent_nodes)`
  unfoldable pub max_concurrent : ℕ
  max_concurrent = elim j.settings.max_concurrent_nodes [ pos n ↦ max 1 n | negsuc n ↦ 1 ]

  abbrev pub in_flight : Config → ℕ
  in_flight c = length c.running + length c.done

  -- A node that is pending, without a result, and ready.
  unfoldable pub dispatch : Node → ℤ → Config → Bool → Round
  unfolding max_concurrent
  dispatch n i c dispatched =
      if only_uses_skipped_content false j.nodes c.state.results n
      then next (record {
        config = record c { pending = drop i c.pending; state = record_skipped i c.state };
        dispatched = true;
      })
      else if leb max_concurrent (in_flight c)
      then full (record { config = c; dispatched = dispatched })
      else next (record {
        config = record c { pending = drop i c.pending; running = c.running ++ i ∷ [] };
        dispatched = true;
      })

  -- The body of `for node_id in plan.sorted_node_ids`.
  unfoldable pub round : ℤ → Sweep → Round
  unfolding dispatch
  round i s =
      let c = s.config in
      if not (elem i c.pending) then next s else elim (node_at j.nodes i) [
        | none ↦ bad_id s
        | some n ↦
            if has_result i c.state.results
            then next (record {
              config = record c { pending = drop i c.pending };
              dispatched = s.dispatched;
            })
            else if not (is_ready j.deps c.state.results i)
            then next s
            else dispatch n i c s.dispatched
      ]

  unfoldable pub sweep : List ℤ → Sweep → Round
  sweep [] s = full s
  sweep (i ∷ is) s = and_then (round i s) (sweep is)

  -- `state.final_output = ...; state.status = COMPLETED`; `text_of` is Python's `str`
  unfoldable pub conclude : (Json → String) → Config → Config
  conclude text_of c = record c {
    phase = Phase.finished;
    state = record c.state {
      final_output = elim (final_output_result j.nodes j.order c.state.results) [
        | none ↦ none
        | some r ↦ some (text_of r.output)
      ];
      status = TaskStatus.completed;
    };
  }

  abbrev pub is_nil {ℓ} : {A : Type ℓ} → List A → Bool
  is_nil [] = true
  is_nil (x ∷ xs) = false

  -- The body of the `while` loop after the `for` loop, up to `asyncio.wait`.
  unfoldable pub after_sweep : Round → Config
  unfolding max_concurrent
  after_sweep (bad_id s) = record s.config { phase = Phase.no_node }
  after_sweep (next s) = s.config
  after_sweep (full s) =
      let c = s.config in
      if nat_beq (in_flight c) 0
      then if not (is_nil c.pending) && not s.dispatched
        then record c { phase = Phase.stuck }
        else c
      else if s.dispatched && ltb (in_flight c) max_concurrent
      then c
      else record c { phase = Phase.waiting }

  -- One round of the `while` loop, or its end.
  unfoldable pub turn : (Json → String) → Config → Config
  turn text_of c =
      if is_nil c.pending && nat_beq (in_flight c) 0
      then conclude text_of c
      else after_sweep (sweep j.order (record { config = c; dispatched = false }))

  -- The task of `i` ends with outcome `r` of `_dispatch_node`.
  unfoldable pub complete : Node → NodeResult → Config → Config
  complete n r c = record c {
    running = drop n.id c.running;
    done = c.done ++ n.id ∷ [];
    state = record_node j.settings j.nodes n r c.state;
  }

  -- `asyncio.wait` returns, and the loop takes the ended tasks out.
  unfoldable pub wake : Config → Config
  wake c = record c { phase = Phase.head; done = [] }

  pub data Step (text_of : Json → String) (c c' : Config) : Type 0 where
    turns : c.phase ≡ Phase.head → c' ≡ turn text_of c → Step text_of c c'
    completes :
        (n : Node) (r : NodeResult)
        → c.phase ≡ Phase.waiting
        → node_at j.nodes n.id ≡ some n
        → 1 ≤ count n.id c.running
        → c' ≡ complete n r c
        → Step text_of c c'
    wakes : c.phase ≡ Phase.waiting → 1 ≤ length c.done → c' ≡ wake c → Step text_of c c'
    crashes :
        c.phase ≡ Phase.waiting
        → 1 ≤ length c.running
        → c' ≡ record c { phase = Phase.crashed }
        → Step text_of c c'

  pub data Reach (text_of : Json → String) (c : Config) : Config → Type 0 where
    here : Reach text_of c c
    then_step : {d e : Config} → Reach text_of c d → Step text_of d e → Reach text_of c e

  unfoldable pub steps : {text_of : Json → String} {c d : Config} → Reach text_of c d → ℕ
  steps here = 0
  steps (then_step r s) = steps r + 1

-- The job and the first configuration of a call of `_run`.
unfoldable pub job_of : Settings → List Node → List ℤ → Job
job_of s ns order = record { settings = s; nodes = ns; order = order; deps = dependency_map ns }

unfoldable pub begin : List ℤ → ExecutionState → Config
begin order st = record {
  phase = Phase.head;
  pending = order;
  running = [];
  done = [];
  state = record st { status = TaskStatus.executing };
}

-- A task's configurations: a run from a state without results, and runs that resume with the state
-- of an earlier run that stopped anywhere.
pub data History (j : Job) (text_of : Json → String) : Config → Type 0 where
  fresh :
      (st : ExecutionState)
      → st.results ≡ []
      → st.completed_nodes ≡ []
      → History j text_of (begin j.order st)
  steps_on : {c d : Config} → History j text_of c → Step j text_of c d → History j text_of d
  resumes : {c : Config} → History j text_of c → History j text_of (begin j.order c.state)
