-- ===== src/Executor/Dispatch/Loops.antt =====
-- The loops of retries return a result of their node.
use glassrail.Common.{Option-cases, inl, inr, refl, suc, zero, ℕ, ℤ, ◌+◌, ◌≡◌}
use glassrail.Core.{Node, NodeResult}
use glassrail.Config.{Settings}
use glassrail.Executor.Retries.{
  Attempt, Reply, attempts, rounds, finish, decide, give_up, end_round, chosen_branch, retry_tier,
  unless_returned, unless_settled,
}

-- An attempt that returns, returns a result of the node `i`.
abbrev pub OfNode : ℤ → Attempt → Type 0
OfNode i (Attempt.returns r) = r.node_id ≡ i
OfNode i (Attempt.empty_output t) = Unit {0}
OfNode i (Attempt.unavailable m) = Unit {0}

finish-node_id :
    (i : ℤ) (a : Attempt) (attempt : ℕ) (tier : ℤ) (tokens : ℕ)
    → OfNode i a
    → (finish i a attempt tier tokens).node_id ≡ i
unfolding finish
finish-node_id i (Attempt.returns r) attempt tier tokens own = own
finish-node_id i (Attempt.empty_output t) attempt tier tokens own = refl
finish-node_id i (Attempt.unavailable m) attempt tier tokens own = refl

unless_returned-node_id :
    (i : ℤ) (a : Attempt) (ended : NodeResult) (continue : ℕ → NodeResult)
    → ended.node_id ≡ i
    → ((t : ℕ) → (continue t).node_id ≡ i)
    → (unless_returned a ended continue).node_id ≡ i
unless_returned-node_id i (Attempt.returns r) ended continue h k = h
unless_returned-node_id i (Attempt.empty_output t) ended continue h k = k t
unless_returned-node_id i (Attempt.unavailable m) ended continue h k = k 0

pub attempts-node_id :
    (s : Settings) (highest : ℤ) (call : ℕ → ℤ → Attempt) (i : ℤ)
    → ((attempt : ℕ) (tier : ℤ) → OfNode i (call attempt tier))
    → (left attempt : ℕ) (tier : ℤ) (tokens : ℕ)
    → (attempts s highest call i left attempt tier tokens).node_id ≡ i
unfolding attempts
attempts-node_id s highest call i own zero attempt tier tokens =
    finish-node_id i (call attempt tier) attempt tier tokens (own attempt tier)
attempts-node_id s highest call i own (suc left) attempt tier tokens =
    unless_returned-node_id i (call attempt tier) (finish i (call attempt tier) attempt tier tokens)
      (λ t. attempts s highest call i left (attempt + 1) (retry_tier s highest tier) (tokens + t))
      (finish-node_id i (call attempt tier) attempt tier tokens (own attempt tier))
      (λ t.
        attempts-node_id s highest call i own left (attempt + 1) (retry_tier s highest tier)
          (tokens + t))

end_round-node_id :
    (n : Node) (r : Reply) (attempt : ℕ) (tier : ℤ) (tokens : ℕ)
    → (end_round n r attempt tier tokens).node_id ≡ n.id
unfolding end_round give_up decide
end_round-node_id n (Reply.answer t b c) attempt tier tokens =
    elim (Option-cases (chosen_branch n b)) [
      | inl e ↦ rw (end_round, decide, e) refl
      | inr (branch, e) ↦ rw (end_round, decide, e) refl
    ]
end_round-node_id n (Reply.malformed t) attempt tier tokens = refl
end_round-node_id n (Reply.empty_output t) attempt tier tokens = refl
end_round-node_id n Reply.unavailable attempt tier tokens = refl
end_round-node_id n Reply.broken attempt tier tokens = refl

unless_settled-node_id :
    (i : ℤ) (r : Reply) (ended : NodeResult) (continue : ℕ → NodeResult)
    → ended.node_id ≡ i
    → ((t : ℕ) → (continue t).node_id ≡ i)
    → (unless_settled r ended continue).node_id ≡ i
unless_settled-node_id i (Reply.answer t b c) ended continue h k = h
unless_settled-node_id i (Reply.malformed t) ended continue h k = h
unless_settled-node_id i (Reply.empty_output t) ended continue h k = k t
unless_settled-node_id i Reply.unavailable ended continue h k = k 0
unless_settled-node_id i Reply.broken ended continue h k = h

pub rounds-node_id :
    (s : Settings) (highest : ℤ) (ask : ℕ → ℤ → Reply) (n : Node) (left attempt : ℕ) (tier : ℤ)
    (tokens : ℕ)
    → (rounds s highest ask n left attempt tier tokens).node_id ≡ n.id
unfolding rounds
rounds-node_id s highest ask n zero attempt tier tokens =
    end_round-node_id n (ask attempt tier) attempt tier tokens
rounds-node_id s highest ask n (suc left) attempt tier tokens =
    unless_settled-node_id n.id (ask attempt tier)
      (end_round n (ask attempt tier) attempt tier tokens)
      (λ t. rounds s highest ask n left (attempt + 1) (retry_tier s highest tier) (tokens + t))
      (end_round-node_id n (ask attempt tier) attempt tier tokens)
      (λ t.
        rounds-node_id s highest ask n left (attempt + 1) (retry_tier s highest tier) (tokens + t))
