-- ===== src/Samples.antt =====
-- A small plan and the values round it, for the examples in the child modules.
mod Tables
mod Drawn
mod Nested
pub mod Plans
pub mod Runs
pub mod Services
pub mod Nodes
pub mod Planning
pub mod Driver
pub mod Tasks
pub mod Contexts
use glassrail.Common.{List, Option, String, [], false, none, pos, some, true, ℤ, ◌∷◌}
use glassrail.Core.{
  Header, Node, NodeType, NodeResult, NodeStatus, ExecutionState, TaskStatus, Json, Float,
  one_float, float_07,
}
use glassrail.Config.{
  Settings, TierConfig, NodeBudgets, NodePrompts, ResilienceConfig, RoutingConfig,
  ToolApprovalSettings, ToolApprovalPolicy, ToolApprovalMode,
}

abbrev pub tier : TierConfig
tier = record { base_url = "http://localhost:8080"; model = "local"; api_key = "" }

abbrev pub settings : Settings
settings = record {
  tier0 = tier;
  tier1 = tier;
  tier2 = tier;
  tier3 = tier;
  max_plan_nodes = pos 15;
  max_decision_nesting_depth = pos 3;
  max_replan_attempts = pos 2;
  max_concurrent_nodes = pos 2;
  resilience = record { max_llm_node_retries = pos 2; escalate_tier_on_retry = true };
  routing = record {
    decision = pos 1;
    tool = pos 0;
    synthesis = pos 2;
    think = pos 2;
    summary = pos 1;
    result = pos 2;
    reasoning_required = pos 3;
  };
  planner_stall_char_multiplier = pos 8;
  planner_min_tier = pos 2;
  confidence_threshold = float_07;
  max_subplan_nodes = pos 10;
  max_subplans_per_plan = pos 3;
  max_generation_tokens = pos 4096;
  budgets = record {
    planner = pos 4096;
    decision = pos 256;
    think = pos 1024;
    summary = pos 1024;
    synthesis = pos 2048;
    result = pos 2048;
    extract_args = pos 512;
    shape_check = pos 128;
  };
  prompts = record {
    decision = "decide";
    think = "think";
    synthesis = "synthesise";
    result = "answer";
    summary = "summarise";
    summary_concise = "be brief";
    summary_verbose = "be thorough";
    extract_args = "extract";
    shape_check = "check";
  };
  confirm_plans = false;
  tool_approval = record {
    default = ToolApprovalPolicy.allow;
    mode = ToolApprovalMode.auto;
    overrides = [];
  };
}

abbrev pub header : ℤ → NodeType → List ℤ → Header
header i t needed = record {
  id = i;
  type = t;
  description = "a step";
  tool = none;
  args_template = none;
  context_needed = needed;
  condition = none;
  branches = none;
  default_branch = none;
  reasoning_required = false;
  forced_tier = none;
  format = none;
}

-- A decision, 1, that takes the thinking step 2 or the thinking step 3.
abbrev pub decision_node : Node
decision_node = record {
  header = record (header (pos 1) NodeType.decision []) {
    condition = some "is it so?";
    branches = some (("yes", pos 2 ∷ []) ∷ ("no", pos 3 ∷ []) ∷ []);
    default_branch = some "yes";
  };
  subplan = none;
}

abbrev pub think_node : ℤ → Node
think_node i = record { header = header i NodeType.think []; subplan = none }

abbrev pub plan_nodes : List Node
plan_nodes = decision_node ∷ think_node (pos 2) ∷ think_node (pos 3) ∷ []

abbrev pub plan_order : List ℤ
plan_order = pos 1 ∷ pos 2 ∷ pos 3 ∷ []

abbrev pub new_task : ExecutionState
new_task = record {
  task_id = "t";
  user_request = "do it";
  plan = none;
  results = [];
  completed_nodes = [];
  skipped_nodes = [];
  branch_log = [];
  planning_attempts = [];
  status = TaskStatus.planning;
  replan_count = 0;
  final_output = none;
  error = none;
}

abbrev pub outcome : ℤ → Option String → NodeResult
outcome i branch = record {
  node_id = i;
  status = NodeStatus.completed;
  output = Json.str "done";
  branch_taken = branch;
  args_used = none;
  confidence = one_float;
  flagged = false;
  tokens_used = 10;
  retries = 0;
  error = none;
  tier_used = none;
}
