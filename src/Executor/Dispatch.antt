-- ===== src/Executor/Dispatch.antt =====
-- src/glassrail/executor/executor.py: what runs a node, by its type (`_dispatch_node`).
mod Loops
pub mod Ids
use glassrail.Common.{Bool, Chars, List, Option, Result, String, none, some, ℕ, ℤ}
use glassrail.Core.{Node, NodeType, NodeResult, NodeStatus, ExecutionState, Json, one_float}
use glassrail.Config.{Settings}
use glassrail.Harness.{ToolHarness}
use glassrail.Executor.Approval.{ToolApprovalBroker}
use glassrail.Executor.Tools.{Surroundings, Called, execute_tool}
use glassrail.Executor.Retries.{Attempt, Reply, execute_llm_node, execute_decision}
use glassrail.Executor.Context.{Shown}
use glassrail.Executor.Subplans.{nested_result, execute_subplan}
use glassrail.Executor.Once.{
  LlmNodeSpec, llm_node_spec, Chunk, StreamEnd, Reading, execute_llm_node_once,
}

-- The executor's parts, and what the environment of a node decides.
pub record Environment : Type 0 where
  pub settings : Settings
  pub harness : ToolHarness
  pub broker : Option ToolApprovalBroker
  pub has_bus : Bool
  -- the highest tier of the router's providers
  pub highest : ℤ
  pub surroundings : Surroundings
  pub reading : Reading
  pub shown : Shown
  -- what a model streams, by attempt and tier
  pub streamed : ℕ → ℤ → List Chunk × StreamEnd
  pub replied : ℕ → ℤ → Reply
  -- `_run` of a nested plan
  pub run : ExecutionState → (path_prefix : Chars) → Result String ExecutionState

module _ (env : Environment) where
  -- `_execute_llm_node_once` in an attempt, at a tier
  unfoldable pub once : Node → LlmNodeSpec → ℕ → ℤ → Attempt
  unfolding execute_llm_node_once
  once n spec attempt tier =
      let (chunks, ending) = env.streamed attempt tier in
      (execute_llm_node_once env.reading env.has_bus n spec chunks ending).0

  abbrev pub unknown_type : ℤ → (type_text : String) → NodeResult
  unknown_type i type_text = nested_result i NodeStatus.failed Json.null one_float (some type_text)

  -- `spec = _LLM_NODE_SPECS.get(node.type)` and what follows
  unfoldable pub dispatch_llm :
      (type_text : String) → Node → (tier : ℤ) → Option LlmNodeSpec → NodeResult
  unfolding once execute_llm_node
  dispatch_llm type_text n tier none = unknown_type n.id type_text
  dispatch_llm type_text n tier (some spec) =
      execute_llm_node env.settings env.highest (once n spec) n.id tier

  -- `_dispatch_node`, on the type of the node; `type_text` is the wording for an unknown type
  unfoldable pub dispatch_by :
      NodeType
      → (type_text : String) → Node
      → ExecutionState
      → (tier : ℤ) → (path_prefix : Chars) → NodeResult
  unfolding execute_tool execute_decision execute_subplan dispatch_llm llm_node_spec
  dispatch_by NodeType.tool type_text n st tier path_prefix =
      (execute_tool env.settings env.harness env.broker env.surroundings n).0
  dispatch_by NodeType.decision type_text n st tier path_prefix =
      execute_decision env.settings env.highest env.replied n tier
  dispatch_by NodeType.subplan type_text n st tier path_prefix =
      execute_subplan env.shown env.reading.of_codes env.run n st path_prefix
  dispatch_by t type_text n st tier path_prefix = dispatch_llm type_text n tier (llm_node_spec t)

  unfoldable pub dispatch_node :
      (type_text : String) → Node → ExecutionState → (tier : ℤ) → (path_prefix : Chars) → NodeResult
  unfolding dispatch_by
  dispatch_node type_text n st tier path_prefix = dispatch_by n.type type_text n st tier path_prefix
