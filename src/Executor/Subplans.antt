-- ===== src/Executor/Subplans.antt =====
-- src/glassrail/executor/executor.py: the node that holds a plan (`_execute_subplan`), and the paths of
-- nested nodes. `run` stands for the call of `_run` on the nested plan: the state that it returns, or
-- the text of its exception. `of_codes` makes a text of its characters.
pub mod Answers
pub mod Isolation
pub mod Paths
use Prim.Native.String.{◌++◌ as text_append}
use glassrail.Common.{
  Chars, List, Option, Result, String, [], codes, elem, err, false, filter, none, not, ok, some, ℤ,
  ◌&&◌, ◌++◌, ◌==◌, ◌∷◌, int_eq,
}
use glassrail.Core.{
  Node, NodeResult, NodeStatus, Plan, ExecutionState, TaskStatus, Json, Float, one_float, nodes,
  sorted_node_ids,
}
use glassrail.Executor.Plans.{final_output_result}
use glassrail.Executor.Context.{Shown, assemble_context}

-- `_direct_dependents`
unfoldable pub dependents_in : Node → List Node → List Node
unfolding filter elem
dependents_in n ns = filter (λ m. elem n.id m.context_needed && not (m.id == n.id)) ns

unfoldable pub direct_dependents : Node → ExecutionState → List Node
unfolding dependents_in
direct_dependents n st = elim st.plan [ none ↦ [] | some p ↦ dependents_in n (nodes p) ]

-- `_node_path`, with `none` for a node of the outermost plan, whose prefix is empty
unfoldable pub node_path : (show : ℤ → Chars) (path_prefix : Chars) → ℤ → Option Chars
node_path show [] node_id = none
node_path show (c ∷ path_prefix) node_id = some ((c ∷ path_prefix) ++ (codes "/" ++ show node_id))

-- `_child_path`
unfoldable pub child_path : (show : ℤ → Chars) (path_prefix : Chars) → ℤ → Chars
child_path show [] node_id = show node_id
child_path show (c ∷ path_prefix) node_id = (c ∷ path_prefix) ++ (codes "/" ++ show node_id)

abbrev pub nested_result : ℤ → NodeStatus → Json → Float → Option String → NodeResult
nested_result i status output confidence error = record {
  node_id = i;
  status = status;
  output = output;
  branch_taken = none;
  args_used = none;
  confidence = confidence;
  flagged = false;
  tokens_used = 0;
  retries = 0;
  error = error;
  tier_used = none;
}

abbrev pub confidence_of : Option NodeResult → Float
confidence_of none = one_float
confidence_of (some r) = r.confidence

-- What the outcome of the nested run makes the node's result.
unfoldable pub nested_outcome : ℤ → Plan → Result String ExecutionState → NodeResult
unfolding final_output_result
nested_outcome i p (err message) =
    nested_result i NodeStatus.failed Json.null one_float (some message)
nested_outcome i p (ok completed) = elim completed.final_output [
  | none ↦
      nested_result i NodeStatus.empty Json.null one_float (some "Subplan produced no final output")
  | some output ↦
      nested_result i NodeStatus.completed (Json.str output)
        (confidence_of (final_output_result (nodes p) (sorted_node_ids p) completed.results)) none
]

module _ (shown : Shown) (of_codes : Chars → String) where
  unfoldable pub sub_request : Node → ExecutionState → Chars → String
  sub_request n st [] =
      text_append "Subplan task: "
        (text_append n.description (text_append "\n\nParent task:\n" st.user_request))
  sub_request n st (c ∷ ctx) =
      text_append
        (text_append "Subplan task: "
          (text_append n.description (text_append "\n\nParent task:\n" st.user_request)))
        (text_append "\n\nContext from parent plan:\n" (of_codes (c ∷ ctx)))

  -- The state that the nested plan starts with.
  unfoldable pub sub_state : Node → Plan → ExecutionState → ExecutionState
  unfolding sub_request direct_dependents assemble_context
  sub_state n p st = record {
    task_id = text_append st.task_id (text_append "-sub" (of_codes (shown.show n.id)));
    user_request =
        sub_request n st (assemble_context shown n st.results (direct_dependents n st) 4000);
    plan = some p;
    results = [];
    completed_nodes = [];
    skipped_nodes = [];
    branch_log = [];
    planning_attempts = [];
    status = TaskStatus.planning;
    replan_count = 0;
    final_output = none;
    error = none;
  }

  unfoldable pub execute_subplan :
      (run : ExecutionState → (path_prefix : Chars) → Result String ExecutionState)
      → Node
      → ExecutionState
      → (path_prefix : Chars) → NodeResult
  unfolding nested_outcome sub_state child_path
  execute_subplan run n st path_prefix = elim n.subplan [
    | none ↦
        nested_result n.id NodeStatus.failed Json.null one_float
          (some "SUBPLAN node has no nested plan")
    | some p ↦
        nested_outcome n.id p (run (sub_state n p st) (child_path shown.show path_prefix n.id))
  ]
