-- ===== src/Executor/Retries/Decisions.antt =====
-- A decision always decides, for one of its branches, whatever the model says.
use glassrail.Common.{
  Bool-cases, Dict, List, List-cases, Option, Option-cases, String, [], arith, beq_refl, false, inl,
  inr, is_some, lookup, none, ok, pos, refl, some, subst, suc, true, truthy, zero, ℕ, ℤ, ◌+◌, ◌∷◌,
  ◌≡◌, ◌≤◌, string_eq,
}
use glassrail.Core.{
  Node, NodeResult, NodeStatus, Float, zero_float, one_float, float_05, float_leb, float_ltb,
  float_max, float_min, float_leb_total,
}
use glassrail.Config.{Settings}
use glassrail.Validator.Contracts.{check_decision_contract}
use glassrail.Executor.Retries.{
  clamp_confidence, max_llm_node_retries, retry_tier, Reply, BranchValue, branch_dict, first_branch,
  fallback_branch, default_or_yes, known_or_fallback, chosen_branch, decision_result, value_or,
  give_up, decide, end_round, unless_settled, rounds, execute_decision,
}

abbrev pub IsUnit : Float → Type 0
IsUnit c = (float_leb zero_float c ≡ true) × (float_leb c one_float ≡ true)

leb_of_ltb :
    (m n : ℤ) (e f : ℕ)
    → float_ltb (Float.finite m e) (Float.finite n f) ≡ true
    → float_leb (Float.finite m e) (Float.finite n f) ≡ true
unfolding float_ltb
leb_of_ltb m n e f h = ground (arith, float_leb_total n m f e)

floor-IsUnit :
    (m : ℤ) (e : ℕ)
    → float_leb (Float.finite m e) one_float ≡ true
    → IsUnit (float_max zero_float (Float.finite m e))
unfolding float_max
floor-IsUnit m e h = elim (Bool-cases (float_ltb zero_float (Float.finite m e))) [
  | inl p ↦ rw p (leb_of_ltb (pos 0) m 0 e p, h)
  | inr p ↦ rw p (unfold float_leb in refl, unfold float_leb in refl)
]

clamped-IsUnit :
    (m : ℤ) (e : ℕ) → IsUnit (float_max zero_float (float_min one_float (Float.finite m e)))
unfolding float_min
clamped-IsUnit m e = elim (Bool-cases (float_ltb (Float.finite m e) one_float)) [
  | inl p ↦ rw p (floor-IsUnit m e (leb_of_ltb m (pos 1) e 0 p))
  | inr p ↦ rw p (floor-IsUnit (pos 1) 0 (unfold float_leb in refl))
]

-- Whatever number the model gives, the confidence of a node is between 0 and 1, if the default is.
pub clamp_confidence_lem :
    (value default : Float) → IsUnit default → IsUnit (clamp_confidence value default)
unfolding clamp_confidence
clamp_confidence_lem Float.nan default h = h
clamp_confidence_lem Float.inf default h = h
clamp_confidence_lem Float.neg_inf default h = h
clamp_confidence_lem (Float.finite m e) default h = clamped-IsUnit m e

contract_default :
    (n : Node) (bs : Dict String (List ℤ)) (d : String)
    → check_decision_contract n ≡ ok tt
    → n.branches ≡ some bs
    → n.default_branch ≡ some d
    → is_some (lookup d bs) ≡ true
unfolding check_decision_contract
contract_default n bs d h e f = ground arith

first_branch_known :
    (bs : Dict String (List ℤ)) (d : String)
    → is_some (lookup d bs) ≡ true
    → is_some (lookup (first_branch bs) bs) ≡ true
unfolding lookup
first_branch_known [] d h = absurd (ground arith)
first_branch_known ((b, ts) ∷ bs) d h = ground (arith, beq_refl b)

-- The fallback of a decision that keeps its contract is one of its branches.
fallback_known :
    (n : Node)
    → check_decision_contract n ≡ ok tt
    → is_some (lookup (fallback_branch n) (branch_dict n)) ≡ true
unfolding fallback_branch
fallback_known n h = elim (Option-cases n.branches) [
  | inl e ↦ absurd (unfold check_decision_contract in ground arith)
  | inr (bs, e) ↦ elim (Option-cases n.default_branch) [
    | inl f ↦ absurd (unfold check_decision_contract in ground arith)
    | inr (d, f) ↦
        let known : is_some (lookup d bs) ≡ true = contract_default n bs d h e f in
        rw (e, f)
          (elim (Bool-cases (truthy (some d))) [
            | inl t ↦ ground (arith, known)
            | inr t ↦ ground (arith, first_branch_known bs d known)
          ])
  ]
]

module _ (n : Node) (contract : check_decision_contract n ≡ ok tt) where
  -- `b` is a branch of the decision.
  abbrev pub IsBranch : String → Type 0
  IsBranch b = is_some (lookup b (branch_dict n)) ≡ true

  known_or_fallback_lem : (b : String) → IsBranch (known_or_fallback n b)
  known_or_fallback_lem b = elim (List-cases (branch_dict n)) [
    | inl e ↦ absurd (unfold lookup in ground (arith, e, fallback_known n contract))
    | inr (x, xs, e) ↦ elim (Bool-cases (is_some (lookup b (branch_dict n)))) [
      | inl k ↦ subst IsBranch (own x xs e k) k
      | inr k ↦ subst IsBranch (other x xs e k) (fallback_known n contract)
    ]
  ]
    where
      own :
          (x : String × List ℤ) (xs : Dict String (List ℤ))
          → branch_dict n ≡ x ∷ xs
          → is_some (lookup b (branch_dict n)) ≡ true
          → b ≡ known_or_fallback n b
      own x xs e k =
          let k' : is_some (lookup b (x ∷ xs)) ≡ true =
            subst (λ bs. is_some (lookup b bs) ≡ true) e k in
          ground (arith, e, k')

      other :
          (x : String × List ℤ) (xs : Dict String (List ℤ))
          → branch_dict n ≡ x ∷ xs
          → is_some (lookup b (branch_dict n)) ≡ false
          → fallback_branch n ≡ known_or_fallback n b
      other x xs e k =
          let k' : is_some (lookup b (x ∷ xs)) ≡ false =
            subst (λ bs. is_some (lookup b bs) ≡ false) e k in
          ground (arith, e, k')

  -- An answer that is not an exception takes a branch.
  Takes : Option String → Type 0
  Takes o = (b : String) × (o ≡ some b) × IsBranch b

  chosen_branch_lem : (v : BranchValue) (o : Option String) → chosen_branch n v ≡ some o → Takes o
  unfolding chosen_branch Takes
  chosen_branch_lem BranchValue.absent o e = (
    known_or_fallback n (default_or_yes n),
    ground (arith, e),
    known_or_fallback_lem (default_or_yes n),
  )
  chosen_branch_lem BranchValue.null o e = elim (List-cases (branch_dict n)) [
    | inl f ↦ absurd (unfold lookup in ground (arith, f, fallback_known n contract))
    | inr (x, xs, f) ↦ (fallback_branch n, ground (arith, e, f), fallback_known n contract)
  ]
  chosen_branch_lem (BranchValue.text t) o e =
      (known_or_fallback n t, ground (arith, e), known_or_fallback_lem t)
  chosen_branch_lem BranchValue.other_key o e = elim (List-cases (branch_dict n)) [
    | inl f ↦ absurd (ground (arith, e, f))
    | inr (x, xs, f) ↦ (fallback_branch n, ground (arith, e, f), fallback_known n contract)
  ]
  chosen_branch_lem BranchValue.unhashable o e = absurd (ground (arith, e))

  -- `r` decides for a branch, after `limit` retries at most.
  pub record IsDecided (limit : ℕ) (r : NodeResult) : Type 0 where
    pub completed : r.status ≡ NodeStatus.completed
    pub branch : String
    pub taken : r.branch_taken ≡ some branch
    pub known : IsBranch branch
    pub unit : IsUnit r.confidence
    pub limited : r.retries ≤ limit

  IsDecided-give_up :
      (attempt tokens : ℕ) (tier : ℤ) → IsDecided attempt (give_up n attempt tier tokens)
  unfolding give_up
  IsDecided-give_up attempt tokens tier = record {
    completed = refl;
    branch = fallback_branch n;
    taken = refl;
    known = fallback_known n contract;
    unit = (unfold float_leb in refl, unfold float_leb in refl);
    limited = omega arith;
  }

  IsDecided-decide :
      (attempt tokens : ℕ) (tier : ℤ) (v : BranchValue) (c : Option Float)
      → IsDecided attempt (decide n attempt tier tokens v c)
  unfolding Takes
  IsDecided-decide attempt tokens tier v c = elim (Option-cases (chosen_branch n v)) [
    | inl e ↦ subst (IsDecided attempt) (gives_up e) (IsDecided-give_up attempt tokens tier)
    | inr (o, e) ↦ subst (IsDecided attempt) (takes o e) (record {
      completed = refl;
      branch = (chosen_branch_lem v o e).0;
      taken = (chosen_branch_lem v o e).1;
      known = (chosen_branch_lem v o e).2;
      unit =
          clamp_confidence_lem (value_or float_05 c) float_05
            (unfold float_leb in refl, unfold float_leb in refl);
      limited = omega arith;
    })
  ]
    where
      gives_up :
          chosen_branch n v ≡ none
          → give_up n attempt tier tokens ≡ decide n attempt tier tokens v c
      gives_up e = unfold decide in ground (arith, e)

      takes :
          (b : Option String)
          → chosen_branch n v ≡ some b
          → decision_result n b
              (clamp_confidence (value_or float_05 c) float_05)
              tokens
              attempt
              tier
            ≡ decide n attempt tier tokens v c
      takes b e = unfold decide in ground (arith, e)

  IsDecided-end_round :
      (r : Reply) (attempt tokens : ℕ) (tier : ℤ)
      → IsDecided attempt (end_round n r attempt tier tokens)
  unfolding end_round
  IsDecided-end_round (Reply.answer t b c) attempt tokens tier =
      IsDecided-decide attempt (tokens + t) tier b c
  IsDecided-end_round (Reply.malformed t) attempt tokens tier =
      IsDecided-give_up attempt (tokens + t) tier
  IsDecided-end_round (Reply.empty_output t) attempt tokens tier =
      IsDecided-give_up attempt (tokens + t) tier
  IsDecided-end_round Reply.unavailable attempt tokens tier = IsDecided-give_up attempt tokens tier
  IsDecided-end_round Reply.broken attempt tokens tier = IsDecided-give_up attempt tokens tier

  IsDecided-le : (a b : ℕ) (r : NodeResult) → a ≤ b → IsDecided a r → IsDecided b r
  IsDecided-le a b r h d = record {
    completed = d.completed;
    branch = d.branch;
    taken = d.taken;
    known = d.known;
    unit = d.unit;
    limited = omega (arith, d.limited);
  }

  IsDecided-unless_settled :
      (limit : ℕ) (r : Reply) (ended : NodeResult) (continue : ℕ → NodeResult)
      → IsDecided limit ended
      → ((t : ℕ) → IsDecided limit (continue t))
      → IsDecided limit (unless_settled r ended continue)
  IsDecided-unless_settled limit (Reply.answer t b c) ended continue e k = e
  IsDecided-unless_settled limit (Reply.malformed t) ended continue e k = e
  IsDecided-unless_settled limit (Reply.empty_output t) ended continue e k = k t
  IsDecided-unless_settled limit Reply.unavailable ended continue e k = k 0
  IsDecided-unless_settled limit Reply.broken ended continue e k = e

  module _ (s : Settings) (highest : ℤ) (ask : ℕ → ℤ → Reply) where
    rounds-IsDecided :
        (left attempt : ℕ) (tier : ℤ) (tokens : ℕ)
        → IsDecided (attempt + left) (rounds s highest ask n left attempt tier tokens)
    unfolding rounds
    rounds-IsDecided zero attempt tier tokens =
        IsDecided-le attempt (attempt + 0) (end_round n (ask attempt tier) attempt tier tokens)
          (omega arith) (IsDecided-end_round (ask attempt tier) attempt tokens tier)
    rounds-IsDecided (suc left) attempt tier tokens =
        IsDecided-unless_settled (attempt + suc left) (ask attempt tier)
          (end_round n (ask attempt tier) attempt tier tokens)
          (λ t. rounds s highest ask n left (attempt + 1) (retry_tier s highest tier) (tokens + t))
          (IsDecided-le attempt (attempt + suc left)
            (end_round n (ask attempt tier) attempt tier tokens) (omega arith)
            (IsDecided-end_round (ask attempt tier) attempt tokens tier))
          (λ t.
            IsDecided-le (attempt + 1 + left) (attempt + suc left)
              (rounds s highest ask n left (attempt + 1) (retry_tier s highest tier) (tokens + t))
              (omega arith)
              (rounds-IsDecided left (attempt + 1) (retry_tier s highest tier) (tokens + t)))

    -- A decision that the validator accepts always decides, whatever the model says and whether it
    -- can be reached: its node completes, for one of its own branches, with a confidence between 0
    -- and 1, and after no more retries than the setting allows.
    pub execute_decision-IsDecided :
        (tier : ℤ) → IsDecided (max_llm_node_retries s) (execute_decision s highest ask n tier)
    unfolding execute_decision
    execute_decision-IsDecided tier =
        IsDecided-le (0 + max_llm_node_retries s) (max_llm_node_retries s)
          (rounds s highest ask n (max_llm_node_retries s) 0 tier 0) (omega arith)
          (rounds-IsDecided (max_llm_node_retries s) 0 tier 0)
