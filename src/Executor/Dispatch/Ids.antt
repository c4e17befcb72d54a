-- ===== src/Executor/Dispatch/Ids.antt =====
-- Whatever runs a node, the result is one of that node.
use glassrail.Common.{
  Bool, Bool-cases, Chars, List, Option, Option-cases, Result, String, err, false, if◌then◌else◌,
  inl, inr, none, not, ok, refl, some, true, ℕ, ℤ, ◌&&◌, ◌≡◌,
}
use glassrail.Executor.Dispatch.Loops.{OfNode, attempts-node_id, rounds-node_id}
use glassrail.Core.{Plan, is_empty_output, Node, NodeType, ExecutionState, Json, Members}
use glassrail.Config.{Settings}
use glassrail.Harness.{ToolHarness, HarnessError, execute}
use glassrail.Executor.Approval.{ToolApprovalBroker, approve_tool_call}
use glassrail.Executor.Tools.{
  Surroundings, execute_tool, call_tool, after_call, check_output, call_args,
}
use glassrail.Executor.Retries.{Attempt, execute_llm_node, execute_decision, max_llm_node_retries}
use glassrail.Planner.Payload.{get}
use glassrail.Executor.Context.{Shown}
use glassrail.Executor.Subplans.{nested_outcome, execute_subplan}
use glassrail.Executor.Once.{
  LlmNodeSpec, llm_node_spec, StreamEnd, Reading, execute_llm_node_once, after_stream, of_data,
  of_fields, read_data, raw_confidence, is_streaming,
}
use glassrail.Executor.Dispatch.{Environment, once, dispatch_llm, dispatch_by, dispatch_node}

of_fields-node_id :
    (env : Reading) (i : ℤ) (spec : LlmNodeSpec) (raw : Chars) (tokens : ℕ) (fields : Members)
    → (of_fields env i spec raw tokens fields).node_id ≡ i
unfolding of_fields
of_fields-node_id env i spec raw tokens fields =
    elim (Option-cases (raw_confidence env spec.default_confidence (get "confidence" fields))) [
      | inl e ↦ rw (of_fields, e) refl
      | inr (v, e) ↦ rw (of_fields, e) refl
    ]

of_data-node_id :
    (env : Reading) (i : ℤ) (spec : LlmNodeSpec) (raw : Chars) (tokens : ℕ) (o : Option Json)
    → (of_data env i spec raw tokens o).node_id ≡ i
unfolding of_data
of_data-node_id env i spec raw tokens none = refl
of_data-node_id env i spec raw tokens (some (Json.obj fields)) =
    of_fields-node_id env i spec raw tokens fields
of_data-node_id env i spec raw tokens (some Json.null) = refl
of_data-node_id env i spec raw tokens (some (Json.bool b)) = refl
of_data-node_id env i spec raw tokens (some (Json.int z)) = refl
of_data-node_id env i spec raw tokens (some (Json.float f)) = refl
of_data-node_id env i spec raw tokens (some (Json.str s)) = refl
of_data-node_id env i spec raw tokens (some (Json.arr vs)) = refl

after_stream-OfNode :
    (env : Reading) (i : ℤ) (spec : LlmNodeSpec) (ending : StreamEnd) (raw : Chars) (tokens : ℕ)
    → OfNode i (after_stream env i spec ending raw tokens)
unfolding after_stream
after_stream-OfNode env i spec (StreamEnd.unavailable m) raw tokens = tt
after_stream-OfNode env i spec (StreamEnd.broken m) raw tokens = refl
after_stream-OfNode env i spec StreamEnd.finished raw tokens =
    elim (Bool-cases (env.is_blank raw)) [
      | inl e ↦ rw e tt
      | inr e ↦ rw e (of_data-node_id env i spec raw tokens (read_data env spec.output_key raw))
    ]

OfNode-if :
    (i : ℤ) (b : Bool) (x y : Attempt × List Chars)
    → OfNode i x.0
    → OfNode i y.0
    → OfNode i (if b then x else y).0
OfNode-if i true x y h k = h
OfNode-if i false x y h k = k

once-OfNode :
    (env : Environment) (n : Node) (spec : LlmNodeSpec) (attempt : ℕ) (tier : ℤ)
    → OfNode n.id (once env n spec attempt tier)
unfolding once execute_llm_node_once
once-OfNode env n spec attempt tier =
    OfNode-if n.id (is_streaming n.type && env.has_bus) _ _
      (after_stream-OfNode env.reading n.id spec (env.streamed attempt tier).1 _ _)
      (after_stream-OfNode env.reading n.id spec (env.streamed attempt tier).1 _ _)

check_output-node_id :
    (w : Surroundings) (n : Node) (args : Members) (output : Json)
    → (check_output w n args output).node_id ≡ n.id
unfolding check_output
check_output-node_id w n args output = elim (Bool-cases (is_empty_output output)) [
  | inl e ↦ rw (check_output, e) refl
  | inr e ↦ elim (Option-cases (w.shape_issue output)) [
    | inl f ↦ rw (check_output, e, f) refl
    | inr (issue, f) ↦ rw (check_output, e, f) refl
  ]
]

after_call-node_id :
    (w : Surroundings) (n : Node) (args : Members) (outcome : Result HarnessError Json)
    → (after_call w n args outcome).node_id ≡ n.id
unfolding after_call
after_call-node_id w n args (err e) = refl
after_call-node_id w n args (ok output) = check_output-node_id w n args output

execute_tool-node_id :
    (s : Settings) (h : ToolHarness) (broker : Option ToolApprovalBroker) (w : Surroundings)
    (n : Node)
    → (execute_tool s h broker w n).0.node_id ≡ n.id
unfolding execute_tool call_tool
execute_tool-node_id s h broker w n = elim (Option-cases n.tool) [
  | inl e ↦ rw (execute_tool, e) refl
  | inr (tool, e) ↦ elim (Bool-cases (not (approve_tool_call s h broker w.answer tool))) [
    | inl f ↦ rw (execute_tool, e, f) refl
    | inr f ↦
        rw (execute_tool, e, f)
          (after_call-node_id w n (call_args w n) (execute h tool (call_args w n)))
  ]
]

nested_outcome-node_id :
    (i : ℤ) (p : Plan) (o : Result String ExecutionState) → (nested_outcome i p o).node_id ≡ i
unfolding nested_outcome
nested_outcome-node_id i p (err m) = refl
nested_outcome-node_id i p (ok completed) = elim (Option-cases completed.final_output) [
  | inl e ↦ rw (nested_outcome, e) refl
  | inr (t, e) ↦ rw (nested_outcome, e) refl
]

execute_subplan-node_id :
    (shown : Shown) (of_codes : Chars → String)
    (run : ExecutionState → Chars → Result String ExecutionState) (n : Node) (st : ExecutionState)
    (path_prefix : Chars)
    → (execute_subplan shown of_codes run n st path_prefix).node_id ≡ n.id
unfolding execute_subplan
execute_subplan-node_id shown of_codes run n st path_prefix = elim (Option-cases n.subplan) [
  | inl e ↦ rw (execute_subplan, e) refl
  | inr (p, e) ↦ rw (execute_subplan, e) (nested_outcome-node_id n.id p _)
]

dispatch_llm-node_id :
    (env : Environment) (type_text : String) (n : Node) (tier : ℤ) (o : Option LlmNodeSpec)
    → (dispatch_llm env type_text n tier o).node_id ≡ n.id
unfolding dispatch_llm execute_llm_node
dispatch_llm-node_id env type_text n tier none = refl
dispatch_llm-node_id env type_text n tier (some spec) =
    attempts-node_id env.settings env.highest (once env n spec) n.id (once-OfNode env n spec)
      (max_llm_node_retries env.settings) 0 tier 0

dispatch_by-node_id :
    (env : Environment) (t : NodeType) (type_text : String) (n : Node) (st : ExecutionState)
    (tier : ℤ) (path_prefix : Chars)
    → (dispatch_by env t type_text n st tier path_prefix).node_id ≡ n.id
unfolding dispatch_by execute_decision
dispatch_by-node_id env NodeType.tool type_text n st tier path_prefix =
    execute_tool-node_id env.settings env.harness env.broker env.surroundings n
dispatch_by-node_id env NodeType.decision type_text n st tier path_prefix =
    rounds-node_id env.settings env.highest env.replied n (max_llm_node_retries env.settings) 0 tier
      0
dispatch_by-node_id env NodeType.subplan type_text n st tier path_prefix =
    execute_subplan-node_id env.shown env.reading.of_codes env.run n st path_prefix
dispatch_by-node_id env NodeType.synthesis type_text n st tier path_prefix =
    dispatch_llm-node_id env type_text n tier (llm_node_spec NodeType.synthesis)
dispatch_by-node_id env NodeType.think type_text n st tier path_prefix =
    dispatch_llm-node_id env type_text n tier (llm_node_spec NodeType.think)
dispatch_by-node_id env NodeType.summary type_text n st tier path_prefix =
    dispatch_llm-node_id env type_text n tier (llm_node_spec NodeType.summary)
dispatch_by-node_id env NodeType.result type_text n st tier path_prefix =
    dispatch_llm-node_id env type_text n tier (llm_node_spec NodeType.result)

-- Whatever a node's type is, and whatever the models, tools, the user and a nested run do, the result
-- of running it is one of that node: its id is the node's.
pub dispatch_node-node_id :
    (env : Environment) (type_text : String) (n : Node) (st : ExecutionState) (tier : ℤ)
    (path_prefix : Chars)
    → (dispatch_node env type_text n st tier path_prefix).node_id ≡ n.id
unfolding dispatch_node
dispatch_node-node_id env type_text n st tier path_prefix =
    dispatch_by-node_id env n.type type_text n st tier path_prefix
