-- ===== src/Executor/Scheduler/Finish.antt =====
-- What a run of the scheduler leaves of the task, wherever it stops, and at its regular end.
use glassrail.Common.{
  Bool-cases, List, Option-cases, String, [], arith, elem, false, inl, inr, is_some, leb, ltb,
  nat_beq, none, not, refl, some, subst, sym, ℤ, ◌&&◌, ◌∙◌, ◌∷◌, ◌≡◌, ◌≢◌, int_eq,
}
use glassrail.Core.{Node, NodeResult, NodeType, ExecutionState, TaskStatus, Json, is_type}
use glassrail.Config.{Settings}
use glassrail.Validator.Nesting.{node_at}
use glassrail.Executor.Plans.{has_result, is_ready, only_uses_skipped_content, final_output_result}
use glassrail.Executor.Recording.{
  record_skipped, exclude, record_excluded, skipped_targets, log_branch, store_result, settle,
  record_node,
}
use glassrail.Executor.Scheduler.{
  Phase, Config, Sweep, Round, and_then, Job, max_concurrent, in_flight, dispatch, round, sweep,
  conclude, after_sweep, turn, complete, wake, Step, Reach, begin, is_nil,
}

exclude-task_id :
    (ns : List Node) (i : ℤ) (st : ExecutionState) → (exclude ns i st).task_id ≡ st.task_id
unfolding exclude record_skipped
exclude-task_id ns i st =
    elim (Bool-cases (is_some (node_at ns i) && not (has_result i st.results))) [
      | inl e ↦ rw e refl
      | inr e ↦ rw e refl
    ]

record_excluded-task_id :
    (ns : List Node) (is : List ℤ) (st : ExecutionState)
    → (record_excluded ns is st).task_id ≡ st.task_id
unfolding record_excluded
record_excluded-task_id ns [] st = refl
record_excluded-task_id ns (i ∷ is) st =
    record_excluded-task_id ns is (exclude ns i st) ∙ exclude-task_id ns i st

record_node-task_id :
    (s : Settings) (ns : List Node) (n : Node) (r : NodeResult) (st : ExecutionState)
    → (record_node s ns n r st).task_id ≡ st.task_id
unfolding record_node log_branch store_result
record_node-task_id s ns n r st = elim (Bool-cases (is_type n.type NodeType.decision)) [
  | inl e ↦ rw e (
      record_excluded-task_id ns (skipped_targets n r)
        (log_branch n (settle s n r) (store_result n.id (settle s n r) st)))
  | inr e ↦ rw e refl
]

-- The configuration that a round leaves.
abbrev left : Round → Config
left (Round.next s) = s.config
left (Round.full s) = s.config
left (Round.bad_id s) = s.config

-- The `for` loop changes neither the phase nor the task's id.
abbrev Same : Config → Config → Type 0
Same c d = (d.phase ≡ c.phase) × (d.state.task_id ≡ c.state.task_id)

module _ (j : Job) where
  round-Same : (i : ℤ) (s : Sweep) → Same s.config (left (round j i s))
  unfolding round dispatch record_skipped
  round-Same i s = elim (Bool-cases (elem i s.config.pending)) [
    | inr e ↦ rw (round, e) (refl, refl)
    | inl e ↦ elim (Option-cases (node_at j.nodes i)) [
      | inl f ↦ rw (round, e, f) (refl, refl)
      | inr (n, f) ↦ elim (Bool-cases (has_result i s.config.state.results)) [
        | inl g ↦ rw (round, e, f, g) (refl, refl)
        | inr g ↦ elim (Bool-cases (is_ready j.deps s.config.state.results i)) [
          | inr h ↦ rw (round, e, f, g, h) (refl, refl)
          | inl h ↦ rw (round, e, f, g, h) (by_dispatch n)
        ]
      ]
    ]
  ]
    where
      by_dispatch : (n : Node) → Same s.config (left (dispatch j n i s.config s.dispatched))
      by_dispatch n =
          elim (Bool-cases (only_uses_skipped_content false j.nodes s.config.state.results n)) [
            | inl e ↦ rw (dispatch, e) (refl, refl)
            | inr e ↦ elim (Bool-cases (leb (max_concurrent j) (in_flight j s.config))) [
              | inl f ↦ rw (dispatch, e, f) (refl, refl)
              | inr f ↦ rw (dispatch, e, f) (refl, refl)
            ]
          ]

  and_then-Same :
      (c : Config) (r : Round) (rest : Sweep → Round)
      → Same c (left r)
      → ((t : Sweep) → Same t.config (left (rest t)))
      → Same c (left (and_then r rest))
  and_then-Same c (Round.next t) rest (p, q) later = ((later t).0 ∙ p, (later t).1 ∙ q)
  and_then-Same c (Round.full t) rest same later = same
  and_then-Same c (Round.bad_id t) rest same later = same

  sweep-Same : (is : List ℤ) (s : Sweep) → Same s.config (left (sweep j is s))
  unfolding sweep
  sweep-Same [] s = (refl, refl)
  sweep-Same (i ∷ is) s =
      and_then-Same s.config (round j i s) (sweep j is) (round-Same i s) (sweep-Same is)

  -- The loop has ended only with a completed task and the final output of its results.
  pub record IsFinal (text_of : Json → String) (id : String) (c : Config) : Type 0 where
    pub task_id : c.state.task_id ≡ id
    pub completed : c.phase ≡ Phase.finished → c.state.status ≡ TaskStatus.completed
    pub output :
        c.phase ≡ Phase.finished
        → c.state.final_output ≡ elim (final_output_result j.nodes j.order c.state.results) [
          | none ↦ none
          | some r ↦ some (text_of r.output)
        ]

  going-IsFinal :
      (text_of : Json → String) (id : String) (c : Config)
      → c.state.task_id ≡ id
      → c.phase ≢ Phase.finished
      → IsFinal text_of id c
  going-IsFinal text_of id c same going = record {
    task_id = same;
    completed = λ e. absurd (going e);
    output = λ e. absurd (going e);
  }

  after_sweep-IsFinal :
      (text_of : Json → String) (id : String) (c : Config) (r : Round)
      → Same c (left r)
      → c.state.task_id ≡ id
      → c.phase ≡ Phase.head
      → IsFinal text_of id (after_sweep j r)
  unfolding after_sweep
  after_sweep-IsFinal text_of id c (Round.bad_id s) (p, q) same at_head =
      going-IsFinal text_of id (record s.config { phase = Phase.no_node }) (q ∙ same)
        (λ e. ground (arith, e))
  after_sweep-IsFinal text_of id c (Round.next s) (p, q) same at_head =
      going-IsFinal text_of id s.config (q ∙ same) (λ e. ground (arith, p, at_head, e))
  after_sweep-IsFinal text_of id c (Round.full s) (p, q) same at_head =
      elim (Bool-cases (nat_beq (in_flight j s.config) 0)) [
        | inl e ↦ elim (Bool-cases (not (is_nil j s.config.pending) && not s.dispatched)) [
          | inl f ↦
              rw (after_sweep, e, f)
                (going-IsFinal text_of id (record s.config { phase = Phase.stuck }) (q ∙ same)
                  (λ h. ground (arith, h)))
          | inr f ↦ rw (after_sweep, e, f) kept
        ]
        | inr e ↦
            elim (Bool-cases (s.dispatched && ltb (in_flight j s.config) (max_concurrent j))) [
              | inl f ↦ rw (after_sweep, e, f) kept
              | inr f ↦
                  rw (after_sweep, e, f)
                    (going-IsFinal text_of id (record s.config { phase = Phase.waiting }) (q ∙ same)
                      (λ h. ground (arith, h)))
            ]
      ]
    where
      kept : IsFinal text_of id s.config
      kept = going-IsFinal text_of id s.config (q ∙ same) (λ h. ground (arith, p, at_head, h))

  turn-IsFinal :
      (text_of : Json → String) (id : String) (c : Config)
      → c.state.task_id ≡ id
      → c.phase ≡ Phase.head
      → IsFinal text_of id (turn j text_of c)
  unfolding turn conclude
  turn-IsFinal text_of id c same at_head =
      elim (Bool-cases (is_nil j c.pending && nat_beq (in_flight j c) 0)) [
        | inl e ↦
            rw (turn, e) (record { task_id = same; completed = λ f. refl; output = λ f. refl })
        | inr e ↦
            rw (turn, e)
              (after_sweep-IsFinal text_of id c
                (sweep j j.order (record { config = c; dispatched = false }))
                (sweep-Same j.order (record { config = c; dispatched = false })) same at_head)
      ]

  Step-IsFinal :
      (text_of : Json → String) (id : String) (c d : Config)
      → IsFinal text_of id c
      → Step j text_of c d
      → IsFinal text_of id d
  unfolding complete wake
  Step-IsFinal text_of id c d final (Step.turns e f) =
      subst (IsFinal text_of id) (sym f) (turn-IsFinal text_of id c final.task_id e)
  Step-IsFinal text_of id c d final (Step.completes n r e at m f) =
      subst (IsFinal text_of id) (sym f) (
        going-IsFinal text_of id (complete j n r c)
          (record_node-task_id j.settings j.nodes n r c.state ∙ final.task_id)
          (λ h. ground (arith, e, h)))
  Step-IsFinal text_of id c d final (Step.wakes e m f) =
      subst (IsFinal text_of id) (sym f)
        (going-IsFinal text_of id (wake j c) final.task_id (λ h. ground (arith, h)))
  Step-IsFinal text_of id c d final (Step.crashes e m f) = subst (IsFinal text_of id) (sym f) (
      going-IsFinal text_of id (record c { phase = Phase.crashed }) final.task_id
        (λ h. ground (arith, h)))

  pub Reach-IsFinal :
      (text_of : Json → String) (order : List ℤ) (st : ExecutionState) (d : Config)
      → Reach j text_of (begin order st) d
      → IsFinal text_of st.task_id d
  unfolding begin
  Reach-IsFinal text_of order st _ Reach.here =
      going-IsFinal text_of st.task_id (begin order st) refl (λ h. ground (arith, h))
  Reach-IsFinal text_of order st d (Reach.then_step {d = b} r step) =
      Step-IsFinal text_of st.task_id b d (Reach-IsFinal text_of order st b r) step
