-- ===== src/Events.antt =====
-- src/glassrail/events/bus.py: the event bus. Events are of any type that has a task id; an
-- `asyncio.Queue` is a list, oldest first, and full when its size has reached a positive bound. The
-- warnings of `_log_drop` are not modelled.
pub mod Delivery
use glassrail.Common.{
  Bool, List, Option, String, [], add, erase, if◌then◌else◌, insert, leb, length, lookup, ltb, none,
  not, some, true, ℕ, ◌&&◌, ◌++◌, ◌+◌, ◌==◌, ◌∷◌, string_eq, nat_eq,
}

pub record Subscription {ℓ} (E : Type ℓ) : Type ℓ where
  pub queue : List E
  pub task_id : Option String
  pub dropped : ℕ

-- A bus: its subscriptions by handle, and the handles that are registered.
pub record EventBus {ℓ} (E : Type ℓ) : Type ℓ where
  pub registry : List ℕ
  pub subscriptions : List (ℕ × Subscription E)
  pub max_queue : ℕ

abbrev pub rest {κ} : {A : Type κ} → List A → List A
rest [] = []
rest (x ∷ xs) = xs

-- `queue.full()`
unfoldable pub is_full {κ} : {A : Type κ} → ℕ → List A → Bool
is_full max_queue q = ltb 0 max_queue && leb max_queue (length q)

module _ {ℓ} {E : Type ℓ} (task_of : E → String) where
  -- `self._task_id is None or event.task_id == self._task_id`
  unfoldable pub accepts : Option String → E → Bool
  accepts none e = true
  accepts (some id) e = task_of e == id

  unfoldable pub deliver : ℕ → E → Subscription E → Subscription E
  unfolding accepts is_full
  deliver max_queue e s =
      if not (accepts s.task_id e)
      then s
      else if is_full max_queue s.queue
      then record s { queue = rest s.queue ++ e ∷ []; dropped = s.dropped + 1 }
      else record s { queue = s.queue ++ e ∷ [] }

  unfoldable pub deliver_at : ℕ → E → ℕ → List (ℕ × Subscription E) → List (ℕ × Subscription E)
  deliver_at max_queue e i subs = elim (lookup i subs) [
    | none ↦ subs
    | some s ↦ insert i (deliver max_queue e s) subs
  ]

  -- `for subscription in list(self._registry): subscription.deliver(event)`
  unfoldable pub deliver_to : ℕ → E → List ℕ → List (ℕ × Subscription E) → List (ℕ × Subscription E)
  deliver_to max_queue e [] subs = subs
  deliver_to max_queue e (i ∷ is) subs = deliver_to max_queue e is (deliver_at max_queue e i subs)

  unfoldable pub publish : E → EventBus E → EventBus E
  unfolding deliver_to
  publish e b = record b { subscriptions = deliver_to b.max_queue e b.registry b.subscriptions }

module _ {ℓ} {E : Type ℓ} where
  -- `subscribe`: a new subscription, which is not registered yet
  unfoldable pub subscribe : Option String → ℕ → EventBus E → EventBus E
  subscribe task_id i b = record b {
    subscriptions =
        insert i (record { queue = []; task_id = task_id; dropped = 0 }) b.subscriptions;
  }

  -- `__aenter__` and `__aexit__`
  unfoldable pub enter : ℕ → EventBus E → EventBus E
  enter i b = record b { registry = add i b.registry }

  unfoldable pub exit : ℕ → EventBus E → EventBus E
  exit i b = record b { registry = erase i b.registry }

  -- `__anext__`, when an event is there; without one it waits
  unfoldable pub take_event : Subscription E → Option (E × Subscription E)
  take_event s = elim s.queue [ [] ↦ none | e ∷ es ↦ some (e, record s { queue = es }) ]
