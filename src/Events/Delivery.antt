-- ===== src/Events/Delivery.antt =====
-- What a subscriber finds in its queue, and that subscribers do not see one another.
use mathlib.Core.List.{append_assoc, append-nil}
use glassrail.Common.{
  Bool-cases, List, Option, Option-cases, String, [], add, ap, arith, beq_refl, count,
  count-add_self, count-erase, count-snoc, elem, elem_iff_count, erase, false, filter,
  if◌then◌else◌, inl, inr, length, length-append, lookup, lookup-insert, ltb, none, refl, some,
  subst, suc, sym, true, zero, ℕ, ◌++◌, ◌+◌, ◌-◌, ◌==◌, ◌∙◌, ◌∷◌, ◌≡◌, ◌≤◌, nat_eq,
}
use glassrail.Events.{
  Subscription, EventBus, accepts, is_full, deliver, deliver_at, deliver_to, publish, enter, exit,
  rest,
}

-- the list without its first `n` values
unfoldable pub drop_first {ℓ} : {A : Type ℓ} → ℕ → List A → List A
drop_first zero xs = xs
drop_first (suc n) [] = []
drop_first (suc n) (x ∷ xs) = drop_first n xs

length-drop_first {ℓ} :
    {A : Type ℓ} (n : ℕ) (xs : List A) → length (drop_first n xs) ≡ length xs - n
unfolding drop_first
length-drop_first zero xs = omega arith
length-drop_first (suc n) [] = omega arith
length-drop_first (suc n) (x ∷ xs) = omega (arith, length-drop_first n xs)

drop_first-append {ℓ} :
    {A : Type ℓ} (n : ℕ) (xs ys : List A)
    → n ≤ length xs
    → drop_first n xs ++ ys ≡ drop_first n (xs ++ ys)
unfolding drop_first
drop_first-append zero xs ys h = refl
drop_first-append (suc n) [] ys h = absurd (omega arith)
drop_first-append (suc n) (x ∷ xs) ys h = drop_first-append n xs ys (omega arith)

drop_first-suc {ℓ} :
    {A : Type ℓ} (n : ℕ) (xs : List A) → rest (drop_first n xs) ≡ drop_first (suc n) xs
unfolding drop_first
drop_first-suc zero [] = refl
drop_first-suc zero (x ∷ xs) = refl
drop_first-suc (suc n) [] = refl
drop_first-suc (suc n) (x ∷ xs) = drop_first-suc n xs

module _ {ℓ} {E : Type ℓ} (task_of : E → String) (max_queue : ℕ) where
  unfoldable pub deliver_all : List E → Subscription E → Subscription E
  deliver_all [] s = s
  deliver_all (e ∷ es) s = deliver_all es (deliver task_of max_queue e s)

  -- The number of the oldest events that a queue of the bound has no room for.
  abbrev pub overflow : List E → ℕ
  overflow es = if ltb 0 max_queue then length es - max_queue else 0

  -- A subscription that has received the events `es`, and from which none was taken.
  abbrev pub Holds : List E → Subscription E → Type ℓ
  Holds es s = (s.queue ≡ drop_first (overflow es) es) × (s.dropped ≡ overflow es)

  Holds-deliver :
      (e : E) (es : List E) (s : Subscription E)
      → accepts task_of s.task_id e ≡ true
      → Holds es s
      → Holds (es ++ e ∷ []) (deliver task_of max_queue e s)
  unfolding deliver is_full
  Holds-deliver e es s acc (q, d) = elim (Bool-cases (is_full max_queue s.queue)) [
    | inl full ↦
        rw (acc, full)
          (
            ap (λ xs. rest xs ++ e ∷ []) q
                ∙ ap (λ xs. xs ++ e ∷ []) (drop_first-suc (overflow es) es)
                ∙ drop_first-append (suc (overflow es)) es (e ∷ []) (ground (arith, size q))
                ∙ ap (λ k. drop_first k (es ++ e ∷ [])) (ground (arith, size q, grown)),
            ground (arith, size q, grown),
          )
    | inr space ↦
        rw (acc, space)
          (
            ap (λ xs. xs ++ e ∷ []) q
                ∙ drop_first-append (overflow es) es (e ∷ []) (ground arith)
                ∙ ap (λ k. drop_first k (es ++ e ∷ [])) (ground (arith, size q, grown)),
            ground (arith, size q, grown),
          )
  ]
    where
      size : s.queue ≡ drop_first (overflow es) es → length s.queue ≡ length es - overflow es
      size h = ap length h ∙ length-drop_first (overflow es) es

      grown : length (es ++ e ∷ []) ≡ length es + 1
      grown = length-append es (e ∷ [])

  task_id-deliver :
      (e : E) (s : Subscription E) → (deliver task_of max_queue e s).task_id ≡ s.task_id
  unfolding deliver
  task_id-deliver e s = ground arith

  Holds-deliver_all :
      (es seen : List E) (s : Subscription E)
      → Holds seen s
      → Holds (seen ++ filter (accepts task_of s.task_id) es) (deliver_all es s)
  unfolding deliver_all filter
  Holds-deliver_all [] seen s h = subst (λ xs. Holds xs s) (sym (append-nil seen)) h
  Holds-deliver_all (e ∷ es) seen s h = elim (Bool-cases (accepts task_of s.task_id e)) [
    | inl yes_e ↦ rw yes_e (
        subst (λ xs. Holds xs (deliver_all es (deliver task_of max_queue e s)))
          (append_assoc seen (e ∷ []) (filter (accepts task_of s.task_id) es))
          (subst
            (λ t.
              Holds ((seen ++ e ∷ []) ++ filter (accepts task_of t) es)
                (deliver_all es (deliver task_of max_queue e s)))
            (task_id-deliver e s)
            (Holds-deliver_all es (seen ++ e ∷ []) (deliver task_of max_queue e s)
              (Holds-deliver e seen s yes_e h))))
    | inr no_e ↦ rw no_e (
        subst (λ x. Holds (seen ++ filter (accepts task_of s.task_id) es) (deliver_all es x))
          (sym (ignored e s no_e)) (Holds-deliver_all es seen s h))
  ]
    where
      ignored :
          (e : E) (s : Subscription E)
          → accepts task_of s.task_id e ≡ false
          → deliver task_of max_queue e s ≡ s
      ignored e s h = unfold deliver in rw h refl

  -- A new subscription that gets the events `es` one after another holds the newest events of its
  -- task, in their order, as many as its queue has room for, and it has counted all others of its
  -- task as dropped. A bound of 0 is no bound.
  pub deliver_all_lem :
      (es : List E) (task_id : Option String)
      → let s : Subscription E =
          deliver_all es (record { queue = []; task_id = task_id; dropped = 0 }) in
        let mine = filter (accepts task_of task_id) es in
        (s.queue ≡ drop_first (overflow mine) mine) × (s.dropped ≡ overflow mine)
  unfolding drop_first
  deliver_all_lem es task_id =
      Holds-deliver_all es [] (record { queue = []; task_id = task_id; dropped = 0 })
        (ground arith, ground arith)

  -- What a subscription is after an event, if it is registered.
  abbrev pub delivered : E → Option (Subscription E) → Option (Subscription E)
  delivered e none = none
  delivered e (some s) = some (deliver task_of max_queue e s)

  lookup-deliver_at :
      (e : E) (i k : ℕ) (subs : List (ℕ × Subscription E))
      → lookup i (deliver_at task_of max_queue e k subs)
        ≡ (if i == k then delivered e (lookup i subs) else lookup i subs)
  unfolding deliver_at
  lookup-deliver_at e i k subs = elim (Option-cases (lookup k subs)) [
    | inl h ↦ ground (arith, nat_eq.beq_iff i k)
    | inr (s, h) ↦
        ground (arith, nat_eq.beq_iff i k, lookup-insert k i (deliver task_of max_queue e s) subs)
  ]

  lookup-deliver_to :
      (e : E) (i : ℕ) (is : List ℕ) (subs : List (ℕ × Subscription E))
      → count i is ≤ 1
      → lookup i (deliver_to task_of max_queue e is subs)
        ≡ (if elem i is then delivered e (lookup i subs) else lookup i subs)
  unfolding deliver_to elem count
  lookup-deliver_to e i [] subs once = refl
  lookup-deliver_to e i (k ∷ is) subs once = ground (
    arith,
    lookup-deliver_to e i is (deliver_at task_of max_queue e k subs),
    lookup-deliver_at e i k subs,
    elem_iff_count i is,
  )

  -- On a bus whose registry holds each subscription once, `publish` delivers an event to every
  -- registered subscription exactly once, and it leaves all others as they were.
  pub publish_lem :
      (e : E) (b : EventBus E) (i : ℕ)
      → b.max_queue ≡ max_queue
      → count i b.registry ≤ 1
      → lookup i (publish task_of e b).subscriptions ≡ (
          if elem i b.registry
          then delivered e (lookup i b.subscriptions)
          else lookup i b.subscriptions)
  unfolding publish
  publish_lem e b i same once = rw same (lookup-deliver_to e i b.registry b.subscriptions once)

-- The registry holds each subscription once: entering keeps that, and so does leaving, after which
-- the subscription is not registered.
pub registry_lem {ℓ} :
    {E : Type ℓ} (b : EventBus E) (i k : ℕ)
    → ((x : ℕ) → count x b.registry ≤ 1)
    → (count k (enter i b).registry ≤ 1)
      × (elem i (enter i b).registry ≡ true)
      × (count k (exit i b).registry ≤ 1)
      × (elem i (exit i b).registry ≡ false)
unfolding enter exit add
registry_lem b i k once = (
  ground
      (arith, once k, count-snoc k i b.registry, elem_iff_count i b.registry, nat_eq.beq_iff k i),
  ground (arith, count-add_self i b.registry, elem_iff_count i (add i b.registry)),
  ground (arith, once k, count-erase i k b.registry),
  ground (
    arith,
    once i,
    count-erase i i b.registry,
    beq_refl i,
    elem_iff_count i (erase i b.registry),
  ),
)
