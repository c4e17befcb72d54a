-- ===== src/Executor/Scheduler/Rounds.antt =====
-- One pass of the `for` loop of `_run`: what it keeps, how it makes progress, and why it starts
-- something whenever nothing is in flight.
use glassrail.Common.{
  Bool, Bool-cases, In, List, Option-cases, [], all_iff, ap, arith, beq_refl, count, elem,
  elem_iff_count, false, if◌then◌else◌, inl, inr, leb, length, length-append, refl, subst, true, ℕ,
  ℤ, ◌*◌, ◌++◌, ◌+◌, ◌<◌, ◌↔◌, ◌∙◌, ◌∷◌, ◌≡◌, ◌≤◌, ◌⊎◌, int_eq,
}
use glassrail.Core.{Node}
use glassrail.Validator.Nesting.{node_at}
use glassrail.Executor.Plans.{Results, has_result, is_ready, deps_at, only_uses_skipped_content}
use glassrail.Executor.Recording.{record_skipped}
use glassrail.Executor.Scheduler.{
  Phase, Job, Config, Sweep, Round, and_then, drop, max_concurrent, in_flight, dispatch, round,
  sweep,
}
use glassrail.Executor.Scheduler.Invariant.{
  count-drop, length-drop-le, length-drop-lt, Ready, IsGood, IsSound, skip-IsSound, seen-IsSound,
  start-IsSound,
}

abbrev pub phase_weight : Phase → ℕ
phase_weight Phase.head = 2
phase_weight Phase.waiting = 1
phase_weight _ = 0

-- What every step makes smaller.
abbrev pub measure : Config → ℕ
measure c = 4 * length c.pending + 3 * length c.running + 2 * length c.done + phase_weight c.phase

abbrev pub one_if : Bool → ℕ
one_if b = if b then 1 else 0

-- How the loop gets from `s` to `s'`.
pub record Advances (j : Job) (s s' : Sweep) : Type 0 where
  pub sound : IsSound j s'.config
  pub same_phase : s'.config.phase ≡ s.config.phase
  pub falls : measure s'.config + one_if s'.dispatched ≤ measure s.config + one_if s.dispatched
  pub bounded : in_flight j s.config ≤ max_concurrent j → in_flight j s'.config ≤ max_concurrent j
  pub stays_dispatched : s'.dispatched ≡ false → s.dispatched ≡ false
  pub narrows : (k : ℤ) → count k s'.config.pending ≤ count k s.config.pending
  pub quiet : s'.dispatched ≡ false → s'.config.state.results ≡ s.config.state.results

Advances-trans : (j : Job) (a b c : Sweep) → Advances j a b → Advances j b c → Advances j a c
Advances-trans j a b c x y = record {
  sound = y.sound;
  same_phase = y.same_phase ∙ x.same_phase;
  falls = omega (arith, x.falls, y.falls);
  bounded = λ h. y.bounded (x.bounded h);
  stays_dispatched = λ h. x.stays_dispatched (y.stays_dispatched h);
  narrows = λ k. omega (arith, x.narrows k, y.narrows k);
  quiet = λ h. y.quiet h ∙ x.quiet (y.stays_dispatched h);
}

Advances-refl : (j : Job) (s : Sweep) → IsSound j s.config → Advances j s s
Advances-refl j s v = record {
  sound = v;
  same_phase = refl;
  falls = omega arith;
  bounded = λ h. h;
  stays_dispatched = λ h. h;
  narrows = λ k. omega arith;
  quiet = λ h. refl;
}

-- Nothing was dispatched, and `i` still waits for something.
abbrev pub Waits : Job → Sweep → ℤ → Type 0
Waits j s i =
    s.dispatched ≡ false → 1 ≤ count i s.config.pending → Ready j s.config.state.results i → ⊥

Waits-Advances : (j : Job) (s s' : Sweep) (i : ℤ) → Advances j s s' → Waits j s i → Waits j s' i
Waits-Advances j s s' i a w h p ready =
    w (a.stays_dispatched h) (omega (arith, a.narrows i))
      (subst (λ rs. Ready j rs i) (a.quiet h) ready)

-- The end of a round is `next` with `P`, or `full` with `Q`.
abbrev OnRound : (P Q : Sweep → Type 0) → Round → Type 0
OnRound P Q (Round.next s) = P s
OnRound P Q (Round.full s) = Q s
OnRound P Q (Round.bad_id s) = ⊥

abbrev Moves : Job → Sweep → ℤ → Sweep → Type 0
Moves j s i s' = Advances j s s' × Waits j s' i

abbrev IsFull : Job → Sweep → Sweep → Type 0
IsFull j s s' = Advances j s s' × (max_concurrent j ≤ in_flight j s'.config)

Ready-iff : (j : Job) (rs : Results) (i : ℤ) → (is_ready j.deps rs i ≡ true) ↔ Ready j rs i
unfolding is_ready
Ready-iff j rs i = all_iff (λ d. has_result d rs) (deps_at j.deps i)

module _ (j : Job) (g : IsGood j) (i : ℤ) (s : Sweep) (v : IsSound j s.config)
    (p : 1 ≤ count i s.config.pending) where
  abbrev c : Config
  c = s.config

  seen-Moves :
      has_result i c.state.results ≡ true
      → Moves j s i
          (record { config = record c { pending = drop i c.pending }; dispatched = s.dispatched })
  seen-Moves has = (
    record {
      sound = seen-IsSound j g c v i has;
      same_phase = refl;
      falls = omega (arith, length-drop-le i c.pending);
      bounded = λ h. h;
      stays_dispatched = λ h. h;
      narrows = λ k. ground (arith, count-drop i k c.pending);
      quiet = λ h. refl;
    },
    λ h m. ground (arith, count-drop i i c.pending, beq_refl i),
  )

  skip-Moves :
      has_result i c.state.results ≡ false
      → Moves j s i (record {
        config = record c { pending = drop i c.pending; state = record_skipped i c.state };
        dispatched = true;
      })
  skip-Moves fresh = (
    record {
      sound = skip-IsSound j g c v i fresh p;
      same_phase = refl;
      falls = omega (arith, length-drop-lt i c.pending p);
      bounded = λ h. h;
      stays_dispatched = λ h. absurd (ground arith);
      narrows = λ k. ground (arith, count-drop i k c.pending);
      quiet = λ h. absurd (ground arith);
    },
    λ h. absurd (ground arith),
  )

  start-Moves :
      has_result i c.state.results ≡ false
      → Ready j c.state.results i
      → in_flight j c < max_concurrent j
      → Moves j s i (record {
        config = record c { pending = drop i c.pending; running = c.running ++ i ∷ [] };
        dispatched = true;
      })
  start-Moves fresh ready room = (
    record {
      sound = start-IsSound j g c v i fresh p ready;
      same_phase = refl;
      falls = omega (arith, length-drop-lt i c.pending p, length-append c.running (i ∷ []));
      bounded = λ h. omega (arith, room, length-append c.running (i ∷ []));
      stays_dispatched = λ h. absurd (ground arith);
      narrows = λ k. ground (arith, count-drop i k c.pending);
      quiet = λ h. absurd (ground arith);
    },
    λ h. absurd (ground arith),
  )

  dispatch-OnRound :
      (n : Node)
      → has_result i c.state.results ≡ false
      → Ready j c.state.results i
      → OnRound (Moves j s i) (IsFull j s) (dispatch j n i c s.dispatched)
  unfolding dispatch
  dispatch-OnRound n fresh ready =
      elim (Bool-cases (only_uses_skipped_content false j.nodes c.state.results n)) [
        | inl e ↦ rw e (skip-Moves fresh)
        | inr e ↦ rw e (elim (Bool-cases (leb (max_concurrent j) (in_flight j c))) [
          | inl f ↦ rw f (Advances-refl j s v, ground arith)
          | inr f ↦ rw f (start-Moves fresh ready (ground arith))
        ])
      ]

module _ (j : Job) (g : IsGood j) where
  round-OnRound :
      (i : ℤ) (s : Sweep) → IsSound j s.config → OnRound (Moves j s i) (IsFull j s) (round j i s)
  unfolding round
  round-OnRound i s v = elim (Bool-cases (elem i s.config.pending)) [
    | inr e ↦ rw e (Advances-refl j s v, λ h m. ground (arith, elem_iff_count i s.config.pending))
    | inl e ↦
        let p : 1 ≤ count i s.config.pending = (elem_iff_count i s.config.pending).0 e in
        rw e (elim (Option-cases (node_at j.nodes i)) [
          | inl gone ↦ absurd (ground (arith, g.known i, v.planned i))
          | inr (n, at) ↦ rw at (elim (Bool-cases (has_result i s.config.state.results)) [
            | inl has ↦ rw has (seen-Moves j g i s v p has)
            | inr fresh ↦ rw fresh (elim (Bool-cases (is_ready j.deps s.config.state.results i)) [
              | inl r ↦ rw r (
                  dispatch-OnRound j g i s v p n fresh ((Ready-iff j s.config.state.results i).0 r))
              | inr r ↦ rw r (
                Advances-refl j s v,
                λ h m ready. ground (arith, (Ready-iff j s.config.state.results i).1 ready),
              )
            ])
          ])
        ])
  ]

  -- The end of the loop over `is`.
  abbrev pub Ends : List ℤ → Sweep → Sweep → Type 0
  Ends is s s' =
      Advances j s s'
      × ((max_concurrent j ≤ in_flight j s'.config) ⊎ ((i : ℤ) → In i is → Waits j s' i))

  sweep-next :
      (i : ℤ) (is : List ℤ) (s s₁ : Sweep)
      → round j i s ≡ Round.next s₁
      → sweep j (i ∷ is) s ≡ sweep j is s₁
  unfolding sweep
  sweep-next i is s s₁ e = ap (λ r. and_then r (sweep j is)) e

  sweep-full :
      (i : ℤ) (is : List ℤ) (s s₁ : Sweep)
      → round j i s ≡ Round.full s₁
      → sweep j (i ∷ is) s ≡ Round.full s₁
  unfolding sweep
  sweep-full i is s s₁ e = ap (λ r. and_then r (sweep j is)) e

  pub sweep-Ends :
      (is : List ℤ) (s : Sweep)
      → IsSound j s.config
      → (s' : Sweep) × (sweep j is s ≡ Round.full s') × Ends is s s'
  unfolding sweep
  sweep-Ends [] s v = (s, refl, (Advances-refl j s v, inr (λ i m. absurd m)))
  sweep-Ends (i ∷ is) s v =
      after_round (round j i s) refl (round-OnRound i s v) (λ s₁ u. sweep-Ends is s₁ u)
    where
      after_round :
          (r : Round)
          → round j i s ≡ r
          → OnRound (Moves j s i) (IsFull j s) r
          → ((s₁ : Sweep)
              → IsSound j s₁.config
              → (s' : Sweep) × (sweep j is s₁ ≡ Round.full s') × Ends is s₁ s')
          → (s' : Sweep) × (sweep j (i ∷ is) s ≡ Round.full s') × Ends (i ∷ is) s s'
      after_round (Round.next s₁) e (a, w) rest =
          let (s', run, (a', last)) = rest s₁ a.sound in
          (
            s',
            sweep-next i is s s₁ e ∙ run,
            (
              Advances-trans j s s₁ s' a a',
              elim last [
                | inl f ↦ inl f
                | inr k ↦ inr (λ x. elim [
                  | inl same ↦ rw same (Waits-Advances j s₁ s' i a' w)
                  | inr m ↦ k x m
                ])
              ],
            ),
          )
      after_round (Round.full s₁) e (a, f) rest = (s₁, sweep-full i is s s₁ e, (a, inl f))
      after_round (Round.bad_id s₁) e h rest = absurd h
