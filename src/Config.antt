-- ===== src/Config.antt =====
-- src/glassrail/config/settings.py: the settings that the modelled parts read.
use glassrail.Common.{
  Bool, Dict, List, Option, String, [], any, if◌then◌else◌, int_leb, lookup, none, not, pos, some,
  ℤ, ◌||◌, ◌∷◌, int_eq, string_eq,
}
use glassrail.Core.{Float}

pub data ToolApprovalPolicy : Type 0 where
  allow ask deny : ToolApprovalPolicy

pub data ToolApprovalMode : Type 0 where
  interactive auto : ToolApprovalMode

pub record ToolApprovalSettings : Type 0 where
  pub default : ToolApprovalPolicy
  pub mode : ToolApprovalMode
  pub overrides : Dict String ToolApprovalPolicy

unfoldable pub policy_for : ToolApprovalSettings → String → ToolApprovalPolicy
policy_for s tool_name = elim (lookup tool_name s.overrides) [ none ↦ s.default | some p ↦ p ]

pub record ResilienceConfig : Type 0 where
  pub max_llm_node_retries : ℤ
  pub escalate_tier_on_retry : Bool

pub record RoutingConfig : Type 0 where
  pub decision : ℤ
  pub tool : ℤ
  pub synthesis : ℤ
  pub think : ℤ
  pub summary : ℤ
  pub result : ℤ
  pub reasoning_required : ℤ

-- value < 0 or value > 3
out_of_range : ℤ → Bool
out_of_range v = not (int_leb (pos 0) v) || not (int_leb v (pos 3))

-- `_check_tier_range`: `none` is the `ValueError`, `some tt` the accepted configuration.
unfoldable pub check_tier_range : RoutingConfig → Option (Unit {0})
unfolding out_of_range
check_tier_range r =
    if any out_of_range (
      r.decision ∷ r.tool ∷ r.synthesis ∷ r.think ∷ r.summary ∷ r.result ∷ r.reasoning_required
      ∷ [])
    then none
    else some tt

pub record TierConfig : Type 0 where
  pub base_url : String
  pub model : String
  pub api_key : String

pub record NodeBudgets : Type 0 where
  pub planner : ℤ
  pub decision : ℤ
  pub think : ℤ
  pub summary : ℤ
  pub synthesis : ℤ
  pub result : ℤ
  pub extract_args : ℤ
  pub shape_check : ℤ

pub record NodePrompts : Type 0 where
  pub decision : String
  pub think : String
  pub synthesis : String
  pub result : String
  pub summary : String
  pub summary_concise : String
  pub summary_verbose : String
  pub extract_args : String
  pub shape_check : String

pub record Settings : Type 0 where
  pub tier0 : TierConfig
  pub tier1 : TierConfig
  pub tier2 : TierConfig
  pub tier3 : TierConfig
  pub max_plan_nodes : ℤ
  pub max_decision_nesting_depth : ℤ
  pub max_replan_attempts : ℤ
  pub max_concurrent_nodes : ℤ
  pub resilience : ResilienceConfig
  pub routing : RoutingConfig
  pub planner_stall_char_multiplier : ℤ
  pub planner_min_tier : ℤ
  pub confidence_threshold : Float
  pub max_subplan_nodes : ℤ
  pub max_subplans_per_plan : ℤ
  pub max_generation_tokens : ℤ
  pub budgets : NodeBudgets
  pub prompts : NodePrompts
  pub confirm_plans : Bool
  pub tool_approval : ToolApprovalSettings

unfoldable pub tiers : Settings → List TierConfig
tiers s = s.tier0 ∷ s.tier1 ∷ s.tier2 ∷ s.tier3 ∷ []
