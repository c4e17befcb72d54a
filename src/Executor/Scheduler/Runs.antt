-- ===== src/Executor/Scheduler/Runs.antt =====
-- Every run of `_run`: its invariant, its end, and what it cannot run into.
use glassrail.Common.{
  Bool-cases, In, In-of_count, List, List-cases, String, [], ap, arith, beq_refl, count, count-snoc,
  count_of_In, false, inl, inr, int_beq_iff, length, length-append, ltb, max, nat_beq, negsuc, not,
  pos, refl, subst, sym, true, ℤ, ◌&&◌, ◌++◌, ◌+◌, ◌<◌, ◌∙◌, ◌∷◌, ◌≡◌, ◌≤◌, int_eq,
}
use glassrail.Core.{Json, TaskStatus}
use glassrail.Executor.Plans.{has_result}
use glassrail.Executor.Scheduler.{
  is_nil, Phase, Job, Config, Sweep, Round, max_concurrent, in_flight, conclude, after_sweep, turn,
  complete, wake, Step,
}
use glassrail.Executor.Scheduler.Invariant.{DepsFirst, IsGood, IsSound, length-drop-lt}
use glassrail.Executor.Scheduler.Completion.{complete-IsSound, wake-IsSound}
use glassrail.Executor.Scheduler.Rounds.{measure, Waits, Ends, sweep-Ends}

-- The phases that the loop can be in.
abbrev pub IsFine : Phase → Type 0
IsFine Phase.stuck = ⊥
IsFine Phase.no_node = ⊥
IsFine _ = Unit

-- What holds at each phase.
pub record IsLive (j : Job) (c : Config) : Type 0 where
  pub fine : IsFine c.phase
  pub bounded : in_flight j c ≤ max_concurrent j
  pub at_wait : c.phase ≡ Phase.waiting → 1 ≤ in_flight j c
  pub at_end :
      c.phase ≡ Phase.finished
      → (c.pending ≡ []) × (c.running ≡ []) × (c.state.status ≡ TaskStatus.completed)

module _ (j : Job) (g : IsGood j) where
  max_concurrent_lem : 1 ≤ max_concurrent j
  unfolding max_concurrent
  max_concurrent_lem =
      elim j.settings.max_concurrent_nodes as (λ z. 1 ≤ elim z [ pos n ↦ max 1 n | negsuc n ↦ 1 ]) [
        | pos n ↦ omega arith
        | negsuc n ↦ omega arith
      ]

  set_phase-IsSound : (c : Config) (p : Phase) → IsSound j c → IsSound j (record c { phase = p })
  set_phase-IsSound c p v = record {
    cover = v.cover;
    planned = v.planned;
    running_fresh = v.running_fresh;
    running_ready = v.running_ready;
    done_recorded = v.done_recorded;
    executed = v.executed;
    executed_once = v.executed_once;
    executed_ready = v.executed_ready;
    not_executed = v.not_executed;
    gates = v.gates;
  }

  conclude-IsSound :
      (text_of : Json → String) (c : Config) → IsSound j c → IsSound j (conclude j text_of c)
  unfolding conclude
  conclude-IsSound text_of c v = record {
    cover = v.cover;
    planned = v.planned;
    running_fresh = v.running_fresh;
    running_ready = v.running_ready;
    done_recorded = v.done_recorded;
    executed = v.executed;
    executed_once = v.executed_once;
    executed_ready = v.executed_ready;
    not_executed = v.not_executed;
    gates = v.gates;
  }

  -- With nothing running and every pending id waiting, the ids have results one after another.
  all_have_results :
      (s : Sweep)
      → IsSound j s.config
      → s.config.running ≡ []
      → s.dispatched ≡ false
      → (before is : List ℤ) → DepsFirst j before is
      → ((i : ℤ) → In i is → 1 ≤ count i j.order)
      → ((i : ℤ) → In i is → Waits j s i)
      → ((i : ℤ) → 1 ≤ count i before → has_result i s.config.state.results ≡ true)
      → (i : ℤ) → In i is
      → count i s.config.pending ≡ 0
  unfolding count
  all_have_results s v idle quiet before [] o known waits h i m = absurd m
  all_have_results s v idle quiet before (k ∷ is) o known waits h i m = elim m [
    | inl same ↦ rw same not_pending
    | inr later ↦
        all_have_results s v idle quiet (before ++ k ∷ []) is o.1 (λ x w. known x (inr w))
          (λ x w. waits x (inr w))
          (λ x w. ground (arith, h x, count-snoc x k before, int_beq_iff x k, recorded)) i later
  ]
    where
      not_pending : count k s.config.pending ≡ 0
      not_pending = ground (
        arith,
        λ (p : 1 ≤ count k s.config.pending). waits k (inl refl) quiet p (λ d w. h d (o.0 d w)),
      )

      recorded : has_result k s.config.state.results ≡ true
      recorded = ground (arith, not_pending, v.cover k (known k (inl refl)), ap (count k) idle)

  -- A sweep that leaves nothing in flight leaves nothing pending, or it dispatched something.
  never_stuck :
      (s s' : Sweep)
      → Ends j g j.order s s'
      → in_flight j s'.config ≡ 0
      → s'.dispatched ≡ false
      → s'.config.pending ≡ []
  unfolding count
  never_stuck s s' (a, last) none_left quiet = elim (List-cases s'.config.pending) [
    | inl e ↦ e
    | inr (i, rest, e) ↦
        let one : 1 ≤ count i s'.config.pending = ground (arith, beq_refl i) in
        let member : In i j.order = In-of_count i j.order (omega (arith, one, a.sound.planned i)) in
        elim last [
          | inl full ↦ absurd (omega (arith, max_concurrent_lem))
          | inr waits ↦ absurd (
              omega (
                arith,
                one,
                all_have_results s' a.sound idle quiet [] j.order g.deps_first
                    (λ x w. count_of_In x j.order w) waits (λ x w. elim w [ ]) i member,
              ))
        ]
  ]
    where
      idle : s'.config.running ≡ []
      idle = elim (List-cases s'.config.running) [
        | inl e ↦ e
        | inr (x, xs, e) ↦ absurd (ground arith)
      ]

  -- What a turn of the `while` loop does.
  abbrev pub Turns : Config → Config → Type 0
  Turns c c' = IsSound j c' × (measure c' < measure c) × IsLive j c'

  after_sweep-Turns :
      (c : Config) (s : Sweep)
      → c.phase ≡ Phase.head
      → in_flight j c ≤ max_concurrent j
      → 1 ≤ length c.pending + in_flight j c
      → Ends j g j.order (record { config = c; dispatched = false }) s
      → Turns c (after_sweep j (Round.full s))
  unfolding after_sweep
  after_sweep-Turns c s at_head room busy (a, last) =
      elim (Bool-cases (nat_beq (in_flight j s.config) 0)) [
        | inl e ↦ rw e (elim (Bool-cases (not (is_nil j s.config.pending) && not s.dispatched)) [
          | inl d ↦ absurd (ground (arith, idle, d))
          | inr d ↦ rw d (a.sound, falls (ground (arith, idle)), live)
        ])
        | inr e ↦
            rw e
              (elim (Bool-cases (s.dispatched && ltb (in_flight j s.config) (max_concurrent j))) [
                | inl f ↦ rw f (a.sound, falls (λ h. ground arith), live)
                | inr f ↦ rw f (
                  set_phase-IsSound s.config Phase.waiting a.sound,
                  ground (arith, a.falls, now_head),
                  record {
                    fine = tt;
                    bounded = a.bounded room;
                    at_wait = λ h. ground arith;
                    at_end = λ h. absurd (ground arith);
                  },
                )
              ])
      ]
    where
      now_head : s.config.phase ≡ Phase.head
      now_head = a.same_phase ∙ at_head

      live : IsLive j s.config
      live = record {
        fine = subst (λ p. IsFine p) (sym now_head) tt;
        bounded = a.bounded room;
        at_wait = λ h. absurd (ground (arith, now_head));
        at_end = λ h. absurd (ground (arith, now_head));
      }

      idle : in_flight j s.config ≡ 0 → s.dispatched ≡ false → s.config.pending ≡ []
      idle = never_stuck (record { config = c; dispatched = false }) s (a, last)

      falls : (s.dispatched ≡ false → measure s.config < measure c) → measure s.config < measure c
      falls h = ground (arith, a.falls)

  turn-Turns :
      (text_of : Json → String) (c : Config)
      → IsSound j c
      → in_flight j c ≤ max_concurrent j
      → c.phase ≡ Phase.head
      → Turns c (turn j text_of c)
  unfolding turn
  turn-Turns text_of c v room at_head =
      elim (Bool-cases (is_nil j c.pending && nat_beq (in_flight j c) 0)) [
        | inl e ↦ rw e (conclude-IsSound text_of c v, finish_falls, finish_live e)
        | inr e ↦
            let (s, run, ends) =
              sweep-Ends j g j.order (record { config = c; dispatched = false }) v in
            rw (e, run) (after_sweep-Turns c s at_head room (busy e) ends)
      ]
    where
      finish_falls : measure (conclude j text_of c) < measure c
      finish_falls = unfold conclude in ground arith

      ended :
          (is_nil j c.pending && nat_beq (in_flight j c) 0) ≡ true
          → (c.pending ≡ []) × (c.running ≡ [])
      ended e = elim (List-cases c.pending) [
        | inr (x, xs, n) ↦ absurd (ground arith)
        | inl n ↦ elim (List-cases c.running) [
          | inr (x, xs, m) ↦ absurd (ground arith)
          | inl m ↦ (n, m)
        ]
      ]

      finish_live :
          (is_nil j c.pending && nat_beq (in_flight j c) 0) ≡ true → IsLive j (conclude j text_of c)
      finish_live e =
          unfold conclude in
          record {
            fine = tt;
            bounded = room;
            at_wait = λ h. absurd (ground arith);
            at_end = λ h. ((ended e).0, (ended e).1, refl);
          }

      busy :
          (is_nil j c.pending && nat_beq (in_flight j c) 0) ≡ false
          → 1 ≤ length c.pending + in_flight j c
      busy e = elim (List-cases c.pending) [ inl n ↦ ground arith | inr (x, xs, n) ↦ ground arith ]

  -- Every step keeps the invariants and comes closer to the end of the run.
  pub Step-Turns :
      (text_of : Json → String) (c d : Config)
      → IsSound j c
      → IsLive j c
      → Step j text_of c d
      → Turns c d
  unfolding complete wake
  Step-Turns text_of c d v l (Step.turns at_head e) =
      rw e (turn-Turns text_of c v l.bounded at_head)
  Step-Turns text_of c d v l (Step.completes n r waits at runs e) =
      rw e (complete-IsSound j g c v n r at runs, completed.0, completed.1)
    where
      completed : (measure (complete j n r c) < measure c) × IsLive j (complete j n r c)
      completed = (
        omega (arith, length-drop-lt n.id c.running runs, length-append c.done (n.id ∷ [])),
        record {
          fine = subst (λ p. IsFine p) (sym waits) tt;
          bounded = omega (
            arith,
            l.bounded,
            length-drop-lt n.id c.running runs,
            length-append c.done (n.id ∷ []),
          );
          at_wait = λ h. omega (arith, length-append c.done (n.id ∷ []));
          at_end = λ h. absurd (ground arith);
        },
      )
  Step-Turns text_of c d v l (Step.wakes waits some_done e) =
      rw e (wake-IsSound j c v, woken.0, woken.1)
    where
      woken : (measure (wake j c) < measure c) × IsLive j (wake j c)
      woken = (
        ground arith,
        record {
          fine = tt;
          bounded = omega (arith, l.bounded);
          at_wait = λ h. absurd (ground arith);
          at_end = λ h. absurd (ground arith);
        },
      )
  Step-Turns text_of c d v l (Step.crashes waits some_running e) = rw e (
    set_phase-IsSound c Phase.crashed v,
    ground arith,
    record {
      fine = tt;
      bounded = l.bounded;
      at_wait = λ h. absurd (ground arith);
      at_end = λ h. absurd (ground arith);
    },
  )
