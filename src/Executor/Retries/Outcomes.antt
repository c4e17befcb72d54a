-- ===== src/Executor/Retries/Outcomes.antt =====
-- Which attempt a node of one model call ends with, and what it reports.
use glassrail.Common.{
  Bool, ap, arith, false, inl, inr, refl, some, suc, sym, true, zero, ℕ, ℤ, ◌+◌, ◌≡◌, ◌≤◌, ◌⊎◌,
}
use glassrail.Core.{NodeResult, NodeStatus}
use glassrail.Config.{Settings}
use glassrail.Executor.Retries.{
  Attempt, max_llm_node_retries, retry_tier, finish, unless_returned, attempts, execute_llm_node,
}

abbrev pub is_retryable : Attempt → Bool
is_retryable (Attempt.returns r) = false
is_retryable _ = true

abbrev pub tokens_of : Attempt → ℕ
tokens_of (Attempt.returns r) = r.tokens_used
tokens_of (Attempt.empty_output t) = t
tokens_of (Attempt.unavailable m) = 0

abbrev pub status_of : Attempt → NodeStatus
status_of (Attempt.returns r) = r.status
status_of _ = NodeStatus.failed

module _ (s : Settings) (highest : ℤ) (once : ℕ → ℤ → Attempt) where
  -- The `k`-th attempt from `attempt` on, each at the retry tier of the one before, and its tier.
  abbrev pub attempt_at : (k attempt : ℕ) → ℤ → Attempt
  attempt_at zero attempt tier = once attempt tier
  attempt_at (suc k) attempt tier = attempt_at k (attempt + 1) (retry_tier s highest tier)

  abbrev pub tier_at : ℕ → ℤ → ℤ
  tier_at zero tier = tier
  tier_at (suc k) tier = tier_at k (retry_tier s highest tier)

  -- The tokens of the attempts up to the `k`-th.
  abbrev pub spent : (k attempt : ℕ) → ℤ → ℕ
  spent zero attempt tier = tokens_of (once attempt tier)
  spent (suc k) attempt tier =
      tokens_of (once attempt tier) + spent k (attempt + 1) (retry_tier s highest tier)

  -- The attempts before the `k`-th could be retried.
  abbrev pub AllRetried : (k attempt : ℕ) → ℤ → Type 0
  AllRetried zero attempt tier = Unit
  AllRetried (suc k) attempt tier =
      (is_retryable (once attempt tier) ≡ true)
      × AllRetried k (attempt + 1) (retry_tier s highest tier)

  -- `r` is what the attempts from `attempt` on come to, when `left` retries are left.
  pub record EndsWith (left attempt : ℕ) (tier : ℤ) (tokens : ℕ) (r : NodeResult) : Type 0 where
    pub last : ℕ
    pub within : last ≤ left
    pub retried : AllRetried last attempt tier
    pub stops : (is_retryable (attempt_at last attempt tier) ≡ false) ⊎ (last ≡ left)
    pub retries_eq : r.retries ≡ attempt + last
    pub tier_eq : r.tier_used ≡ some (tier_at last tier)
    pub tokens_eq : r.tokens_used ≡ tokens + spent last attempt tier
    pub status_eq : r.status ≡ status_of (attempt_at last attempt tier)

  finish-EndsWith :
      (i : ℤ) (left attempt : ℕ) (tier : ℤ) (tokens : ℕ)
      → (is_retryable (once attempt tier) ≡ false) ⊎ (left ≡ 0)
      → EndsWith left attempt tier tokens (finish i (once attempt tier) attempt tier tokens)
  finish-EndsWith i left attempt tier tokens h = record {
    last = 0;
    within = omega arith;
    retried = tt;
    stops = elim h [ inl f ↦ inl f | inr f ↦ inr (sym f) ];
    retries_eq = (fields (once attempt tier)).0;
    tier_eq = (fields (once attempt tier)).1;
    tokens_eq = (fields (once attempt tier)).2;
    status_eq = (fields (once attempt tier)).3;
  }
    where
      fields :
          (a : Attempt)
          → ((finish i a attempt tier tokens).retries ≡ attempt + 0)
            × ((finish i a attempt tier tokens).tier_used ≡ some tier)
            × ((finish i a attempt tier tokens).tokens_used ≡ tokens + tokens_of a)
            × ((finish i a attempt tier tokens).status ≡ status_of a)
      fields (Attempt.returns r) = unfold finish in (omega arith, refl, omega arith, refl)
      fields (Attempt.empty_output t) = unfold finish in (omega arith, refl, refl, refl)
      fields (Attempt.unavailable m) = unfold finish in (omega arith, refl, omega arith, refl)

  -- One more attempt in front.
  later :
      (left attempt : ℕ) (tier : ℤ) (tokens : ℕ) (r : NodeResult)
      → is_retryable (once attempt tier) ≡ true
      → EndsWith left
          (attempt + 1)
          (retry_tier s highest tier)
          (tokens + tokens_of (once attempt tier))
          r
      → EndsWith (suc left) attempt tier tokens r
  later left attempt tier tokens r again x = record {
    last = suc x.last;
    within = omega (arith, x.within);
    retried = (again, x.retried);
    stops = elim x.stops [ inl f ↦ inl f | inr f ↦ inr (ap suc f) ];
    retries_eq = omega (arith, x.retries_eq);
    tier_eq = x.tier_eq;
    tokens_eq = omega (arith, x.tokens_eq);
    status_eq = x.status_eq;
  }

  attempts-EndsWith :
      (i : ℤ) (left attempt : ℕ) (tier : ℤ) (tokens : ℕ)
      → EndsWith left attempt tier tokens (attempts s highest once i left attempt tier tokens)
  unfolding attempts
  attempts-EndsWith i zero attempt tier tokens =
      finish-EndsWith i zero attempt tier tokens (inr refl)
  attempts-EndsWith i (suc left) attempt tier tokens =
      on (once attempt tier) refl
        (λ t. attempts-EndsWith i left (attempt + 1) (retry_tier s highest tier) (tokens + t))
    where
      rest : ℕ → NodeResult
      rest t = attempts s highest once i left (attempt + 1) (retry_tier s highest tier) (tokens + t)

      on :
          (a : Attempt)
          → once attempt tier ≡ a
          → ((t : ℕ)
              → EndsWith left (attempt + 1) (retry_tier s highest tier) (tokens + t) (rest t))
          → EndsWith
              (suc left)
              attempt
              tier
              tokens
              (unless_returned a (finish i (once attempt tier) attempt tier tokens) rest)
      on (Attempt.returns r) e ends =
          finish-EndsWith i (suc left) attempt tier tokens (inl (rw e refl))
      on (Attempt.empty_output t) e ends =
          later left attempt tier tokens (rest t) (rw e refl) (rw e (ends t))
      on (Attempt.unavailable m) e ends =
          later left attempt tier tokens (rest 0) (rw e refl) (rw e (ends 0))

  -- A node of one model call is tried at most once more than the setting says. It ends with the
  -- first attempt that does not ask for a retry, or with the last one, and it reports that
  -- attempt's status, number and tier, and the tokens of all attempts together.
  pub execute_llm_node_lem :
      (i tier : ℤ)
      → EndsWith (max_llm_node_retries s) 0 tier 0 (execute_llm_node s highest once i tier)
  unfolding execute_llm_node
  execute_llm_node_lem i tier = attempts-EndsWith i (max_llm_node_retries s) 0 tier 0
