-- ===== src/Executor/Retries.antt =====
-- The retries of model calls: `_execute_llm_node` and `_execute_decision`. What one call of a model
-- brings, in an attempt and at a tier, is the environment's choice, and so is what `float` makes of
-- a confidence; the prompts and the log are not modelled.
pub mod Outcomes
pub mod Decisions
use glassrail.Common.{
  Dict, List, Option, String, [], false, if◌then◌else◌, int_leb, is_some, lookup, negsuc, none, not,
  pos, some, suc, truthy, zero, ℕ, ℤ, ◌+◌, ◌∷◌, string_eq,
}
use glassrail.Core.{
  Node, NodeResult, NodeStatus, Json, Float, zero_float, one_float, float_05, float_max, float_min,
}
use glassrail.Config.{Settings}
use glassrail.Executor.Recording.{int_max}

abbrev pub int_min : ℤ → ℤ → ℤ
int_min a b = if int_leb a b then a else b

-- `_clamp_confidence`
unfoldable pub clamp_confidence : (value default : Float) → Float
clamp_confidence Float.nan default = default
clamp_confidence Float.inf default = default
clamp_confidence Float.neg_inf default = default
clamp_confidence (Float.finite m e) default =
    float_max zero_float (float_min one_float (Float.finite m e))

-- `_max_llm_node_retries`: `max(0, n)`
unfoldable pub max_llm_node_retries : Settings → ℕ
max_llm_node_retries s = elim s.resilience.max_llm_node_retries [ pos n ↦ n | negsuc n ↦ 0 ]

-- `previous_tier + 1`
unfoldable pub next_int : ℤ → ℤ
next_int (pos n) = pos (n + 1)
next_int (negsuc zero) = pos 0
next_int (negsuc (suc n)) = negsuc n

-- `_highest_configured_tier`: the tiers of the router's providers, of which there is one at least
unfoldable pub highest_configured_tier : ℤ → List ℤ → ℤ
highest_configured_tier t [] = t
highest_configured_tier t (u ∷ ts) = highest_configured_tier (int_max t u) ts

-- `_retry_tier`
unfoldable pub retry_tier : Settings → (highest : ℤ) → (previous_tier : ℤ) → ℤ
unfolding next_int
retry_tier s highest previous_tier =
    if not s.resilience.escalate_tier_on_retry
    then previous_tier
    else int_min (next_int previous_tier) highest

-- What `_execute_llm_node_once` brings.
pub data Attempt : Type 0 where
  -- a result, whose status may be FAILED
  returns : NodeResult → Attempt
  -- _EmptyLLMOutputError
  empty_output : (tokens_used : ℕ) → Attempt
  -- ProviderUnavailableError
  unavailable : (message : String) → Attempt

abbrev pub failed_result : ℤ → (tokens retries : ℕ) → ℤ → String → NodeResult
failed_result i tokens retries tier message = record {
  node_id = i;
  status = NodeStatus.failed;
  output = Json.null;
  branch_taken = none;
  args_used = none;
  confidence = one_float;
  flagged = false;
  tokens_used = tokens;
  retries = retries;
  error = some message;
  tier_used = some tier;
}

-- The result of the node when the loop ends with an attempt.
unfoldable pub finish : ℤ → Attempt → (attempt : ℕ) → (tier : ℤ) → (tokens : ℕ) → NodeResult
finish i (Attempt.returns r) attempt tier tokens = record r {
  tokens_used = r.tokens_used + tokens;
  retries = attempt;
  tier_used = some tier;
}
finish i (Attempt.empty_output t) attempt tier tokens =
    failed_result i (tokens + t) attempt tier "empty model output"
finish i (Attempt.unavailable m) attempt tier tokens = failed_result i tokens attempt tier m

-- `continue` with the tokens of the attempt, unless the attempt has returned
abbrev pub unless_returned : Attempt → NodeResult → (ℕ → NodeResult) → NodeResult
unless_returned (Attempt.returns r) ended continue = ended
unless_returned (Attempt.empty_output t) ended continue = continue t
unless_returned (Attempt.unavailable m) ended continue = continue 0

module _ (s : Settings) (highest : ℤ) (once : ℕ → ℤ → Attempt) (i : ℤ) where
  -- The `for` loop, when `left` retries are left.
  unfoldable pub attempts : (left attempt : ℕ) → (tier : ℤ) → (tokens : ℕ) → NodeResult
  attempts zero attempt tier tokens = finish i (once attempt tier) attempt tier tokens
  attempts (suc left) attempt tier tokens =
      unless_returned (once attempt tier) (finish i (once attempt tier) attempt tier tokens)
        (λ t. attempts left (attempt + 1) (retry_tier s highest tier) (tokens + t))

  -- `_execute_llm_node`
  unfoldable pub execute_llm_node : ℤ → NodeResult
  execute_llm_node tier = attempts (max_llm_node_retries s) 0 tier 0

-- `data.get("branch", ...)`: absent, null, a text, another value that can be a key, or one that cannot
pub data BranchValue : Type 0 where
  absent : BranchValue
  null : BranchValue
  text : String → BranchValue
  other_key : BranchValue
  unhashable : BranchValue

-- What one round of the loop of `_execute_decision` gets from the model.
pub data Reply : Type 0 where
  -- the branch and the confidence, if it is there
  answer : (tokens : ℕ) → BranchValue → Option Float → Reply
  -- what the model said cannot be read
  malformed : (tokens : ℕ) → Reply
  empty_output : (tokens : ℕ) → Reply
  unavailable : Reply
  -- any other exception of the call
  broken : Reply

-- `node.branches` as a condition, and its names
abbrev pub branch_dict : Node → Dict String (List ℤ)
branch_dict n = elim n.branches [ none ↦ [] | some b ↦ b ]

-- `next(iter(node.branches)) if node.branches else "yes"`
abbrev pub first_branch : Dict String (List ℤ) → String
first_branch [] = "yes"
first_branch ((b, ts) ∷ bs) = b

-- `node.default_branch or ...`
unfoldable pub fallback_branch : Node → String
fallback_branch n = elim n.default_branch [
  | none ↦ first_branch (branch_dict n)
  | some d ↦ if truthy (some d) then d else first_branch (branch_dict n)
]

-- `node.default_branch or "yes"`
abbrev pub default_or_yes : Node → String
default_or_yes n = elim n.default_branch [
  | none ↦ "yes"
  | some d ↦ if truthy (some d) then d else "yes"
]

abbrev pub known_or_fallback : Node → String → String
known_or_fallback n b = elim (branch_dict n) [
  | [] ↦ b
  | x ∷ xs ↦ if is_some (lookup b (x ∷ xs)) then b else fallback_branch n
]

-- The branch that an answer takes, which is none for a null without branches to choose from; the outer
-- none is an exception.
unfoldable pub chosen_branch : Node → BranchValue → Option (Option String)
unfolding fallback_branch
chosen_branch n absent = some (some (known_or_fallback n (default_or_yes n)))
chosen_branch n null = some (elim (branch_dict n) [ [] ↦ none | x ∷ xs ↦ some (fallback_branch n) ])
chosen_branch n (text b) = some (some (known_or_fallback n b))
chosen_branch n other_key = elim (branch_dict n) [
  | [] ↦ none
  | x ∷ xs ↦ some (some (fallback_branch n))
]
chosen_branch n unhashable = none

abbrev pub decision_result : Node → Option String → Float → (tokens retries : ℕ) → ℤ → NodeResult
decision_result n branch confidence tokens retries tier = record {
  node_id = n.id;
  status = NodeStatus.completed;
  output = Json.null;
  branch_taken = branch;
  args_used = none;
  confidence = confidence;
  flagged = false;
  tokens_used = tokens;
  retries = retries;
  error = none;
  tier_used = some tier;
}

abbrev pub value_or : Float → Option Float → Float
value_or d none = d
value_or d (some v) = v

-- After the loop: the default branch.
unfoldable pub give_up : Node → (attempt : ℕ) → ℤ → ℕ → NodeResult
give_up n attempt tier tokens =
    decision_result n (some (fallback_branch n)) zero_float tokens attempt tier

-- A reply that is an answer.
unfoldable pub decide : Node → (attempt : ℕ) → ℤ → ℕ → BranchValue → Option Float → NodeResult
decide n attempt tier tokens b c = elim (chosen_branch n b) [
  | none ↦ give_up n attempt tier tokens
  | some branch ↦
      decision_result n branch (clamp_confidence (value_or float_05 c) float_05) tokens attempt tier
]

-- The result of the node when the loop ends with a reply.
unfoldable pub end_round : Node → Reply → (attempt : ℕ) → ℤ → ℕ → NodeResult
end_round n (Reply.answer t b c) attempt tier tokens = decide n attempt tier (tokens + t) b c
end_round n (Reply.malformed t) attempt tier tokens = give_up n attempt tier (tokens + t)
end_round n (Reply.empty_output t) attempt tier tokens = give_up n attempt tier (tokens + t)
end_round n Reply.unavailable attempt tier tokens = give_up n attempt tier tokens
end_round n Reply.broken attempt tier tokens = give_up n attempt tier tokens

-- `continue` with the tokens of the reply, if it asks for a retry
abbrev pub unless_settled : Reply → NodeResult → (ℕ → NodeResult) → NodeResult
unless_settled (Reply.answer t b c) ended continue = ended
unless_settled (Reply.malformed t) ended continue = ended
unless_settled (Reply.empty_output t) ended continue = continue t
unless_settled Reply.unavailable ended continue = continue 0
unless_settled Reply.broken ended continue = ended

module _ (s : Settings) (highest : ℤ) (ask : ℕ → ℤ → Reply) (n : Node) where
  -- The `for` loop, when `left` retries are left.
  unfoldable pub rounds : (left attempt : ℕ) → (tier : ℤ) → (tokens : ℕ) → NodeResult
  rounds zero attempt tier tokens = end_round n (ask attempt tier) attempt tier tokens
  rounds (suc left) attempt tier tokens =
      unless_settled (ask attempt tier) (end_round n (ask attempt tier) attempt tier tokens)
        (λ t. rounds left (attempt + 1) (retry_tier s highest tier) (tokens + t))

  -- `_execute_decision`
  unfoldable pub execute_decision : ℤ → NodeResult
  execute_decision tier = rounds (max_llm_node_retries s) 0 tier 0
