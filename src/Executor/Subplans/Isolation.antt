-- ===== src/Executor/Subplans/Isolation.antt =====
-- What a nested plan is given, and what comes back of it.
use glassrail.Common.{
  Chars, Dict, List, Option-cases, Result, String, ap, elem, inl, inr, lookup, none, ok, refl, some,
  true, ℤ, ◌≡◌, int_eq,
}
use glassrail.Core.{
  Node, NodeResult, NodeStatus, Plan, ExecutionState, Json, one_float, nodes, sorted_node_ids,
}
use glassrail.Executor.Plans.{Results, final_output_result}
use glassrail.Config.{Settings}
use glassrail.Executor.Scheduler.{Phase, Config, Reach, begin, job_of}
use glassrail.Executor.Scheduler.Finish.{Reach-IsFinal}
use glassrail.Executor.Subplans.Answers.{Silent, Supplies, final_output_result_lem}
use glassrail.Executor.Context.{Shown}
use glassrail.Executor.Context.Fresh.{assemble_context_fresh}
use glassrail.Executor.Subplans.{
  direct_dependents, child_path, nested_result, nested_outcome, sub_request, sub_state,
  execute_subplan,
}

module _ (shown : Shown) (of_codes : Chars → String) where
  sub_state_fresh :
      (n : Node) (p : Plan) (st : ExecutionState) (results : Dict ℤ NodeResult)
      → ((i : ℤ) → elem i n.context_needed ≡ true → lookup i st.results ≡ lookup i results)
      → sub_state shown of_codes n p st
        ≡ sub_state shown of_codes n p (record st { results = results })
  unfolding sub_state direct_dependents
  sub_state_fresh n p st results same =
      ap
        (λ ctx. record (sub_state shown of_codes n p st) {
          user_request = sub_request shown of_codes n st ctx;
        })
        (assemble_context_fresh shown 4000 st.results results n (direct_dependents n st) same)

  -- A nested plan is isolated from the results of the outer one: if two states differ in their
  -- results only, and agree on the results of the nodes that the holding node needs, then the node
  -- ends with the same result, whatever the nested run does.
  pub execute_subplan_isolated :
      (run : ExecutionState → Chars → Result String ExecutionState) (n : Node) (st : ExecutionState)
      (results : Dict ℤ NodeResult) (path_prefix : Chars)
      → ((i : ℤ) → elem i n.context_needed ≡ true → lookup i st.results ≡ lookup i results)
      → execute_subplan shown of_codes run n st path_prefix
        ≡ execute_subplan shown of_codes run n (record st { results = results }) path_prefix
  unfolding execute_subplan
  execute_subplan_isolated run n st results path_prefix same = elim (Option-cases n.subplan) [
    | inl e ↦ rw (execute_subplan, e) refl
    | inr (p, e) ↦
        rw (execute_subplan, e)
          (ap (λ s. nested_outcome n.id p (run s (child_path shown.show path_prefix n.id)))
            (sub_state_fresh n p st results same))
  ]

-- How the holding node answers for the results of its nested plan: with the result that supplies the
-- final output, or as EMPTY if there is none.
pub data Answers (ns : List Node) (order : List ℤ) (rs : Results) (text_of : Json → String) (i : ℤ)
    : NodeResult → Type 0 where
  silent :
      Silent ns rs order
      → Answers ns order rs text_of i (
          nested_result i NodeStatus.empty Json.null one_float
            (some "Subplan produced no final output"))
  answers :
      (r : NodeResult)
      → Supplies ns rs order r
      → Answers ns order rs text_of i
          (nested_result i NodeStatus.completed (Json.str (text_of r.output)) r.confidence none)

nested_outcome-Answers :
    (text_of : Json → String) (i : ℤ) (p : Plan) (st : ExecutionState)
    → st.final_output ≡ elim (final_output_result (nodes p) (sorted_node_ids p) st.results) [
      | none ↦ none
      | some r ↦ some (text_of r.output)
    ]
    → Answers (nodes p) (sorted_node_ids p) st.results text_of i (nested_outcome i p (ok st))
unfolding nested_outcome
nested_outcome-Answers text_of i p st e =
    elim (final_output_result_lem (nodes p) st.results (sorted_node_ids p)) [
      | inl (f, silent_lem) ↦ rw (nested_outcome, e, f) (Answers.silent silent_lem)
      | inr (r, f, supplies) ↦ rw (nested_outcome, e, f, f) (Answers.answers r supplies)
    ]

-- What a nested plan answers bubbles up: if the nested run is a run of the scheduler on the node's plan
-- that ends regularly, then by the results that it ends with the node is COMPLETED with the text of
-- the output and the confidence of the last RESULT node in the plan's order that has completed and
-- does not live off skipped nodes only, without such a node of the last such SYNTHESIS node, and
-- without one of the last such SUMMARY node; and it is EMPTY if there is none of the three.
pub execute_subplan-conclude :
    (shown : Shown) (of_codes : Chars → String)
    (run : ExecutionState → Chars → Result String ExecutionState) (s : Settings)
    (text_of : Json → String) (n : Node) (p : Plan) (st : ExecutionState) (path_prefix : Chars)
    (c : Config)
    → n.subplan ≡ some p
    → Reach
        (job_of s (nodes p) (sorted_node_ids p))
        text_of
        (begin (sorted_node_ids p) (sub_state shown of_codes n p st))
        c
    → c.phase ≡ Phase.finished
    → run (sub_state shown of_codes n p st) (child_path shown.show path_prefix n.id) ≡ ok c.state
    → Answers
        (nodes p)
        (sorted_node_ids p)
        c.state.results
        text_of
        n.id
        (execute_subplan shown of_codes run n st path_prefix)
unfolding execute_subplan job_of
execute_subplan-conclude shown of_codes run s text_of n p st path_prefix c holds reached ended
      ends =
    let final =
      Reach-IsFinal (job_of s (nodes p) (sorted_node_ids p)) text_of (sorted_node_ids p)
        (sub_state shown of_codes n p st) c reached in
    rw (execute_subplan, holds, ends)
      (nested_outcome-Answers text_of n.id p c.state (final.output ended))
