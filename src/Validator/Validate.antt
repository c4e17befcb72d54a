-- ===== src/Validator/Validate.antt =====
-- `PlanValidator.validate` and `_check_subplans`: the checks in the order of the source. On success
-- the plan comes back with the sorted ids of it and of every nested plan filled in.
use glassrail.Common.{
  Bool, List, err, false, filter, if◌then◌else◌, int_leb, length, not, ok, pos, raise_if, true, ℤ,
  ◌>>=◌, ◌>>◌,
}
use glassrail.Core.{Node, NodeType, Plan, plan, Nodes, Subplan, Header, node_list, is_type}
use glassrail.Config.{Settings}
use glassrail.Harness.{ToolHarness}
use glassrail.Validator.Errors.{Checked, no_nested_plan, too_many_subplans}
use glassrail.Validator.Topo.{topo_sort}
use glassrail.Validator.Contracts.{
  check_node_limit, check_node_contracts, check_tool_names, check_forced_tiers,
}
use glassrail.Validator.Nesting.{check_decision_nesting}

module _ (s : Settings) (h : ToolHarness) where
  -- The checks that look at one level of the plan; the result is `sorted_ids`.
  unfoldable pub check_level : (is_subplan : Bool) → List Node → Checked (List ℤ)
  check_level is_subplan ns = do
    check_node_limit s ns is_subplan
    check_node_contracts ns
    check_tool_names h ns
    check_forced_tiers s ns
    sorted_ids ← topo_sort ns
    check_decision_nesting s ns
    ok sorted_ids

  -- The cap at the head of `_check_subplans`.
  unfoldable pub check_subplan_cap : List Node → Checked Unit
  check_subplan_cap ns =
      let n = length (filter (λ n. is_type n.type NodeType.subplan) ns) in
      raise_if (not (int_leb (pos n) s.max_subplans_per_plan)) (too_many_subplans n)

  unfoldable mutual
    unfolding check_level check_subplan_cap

    pub validate_plan : (is_subplan : Bool) → Plan → Checked Plan
    validate_plan is_subplan (plan ns ids) = do
      sorted_ids ← check_level is_subplan (node_list ns)
      check_subplan_cap (node_list ns)
      ns' ← validate_nodes ns
      ok (plan ns' sorted_ids)

    pub validate_nodes : Nodes → Checked Nodes
    validate_nodes Nodes.nil = ok Nodes.nil
    validate_nodes (Nodes.cons hd sub ns) = do
      sub' ← validate_subplan hd sub
      ns' ← validate_nodes ns
      ok (Nodes.cons hd sub' ns')

    pub validate_subplan : Header → Subplan → Checked Subplan
    validate_subplan hd Subplan.absent =
        if is_type hd.type NodeType.subplan then err (no_nested_plan hd.id) else ok Subplan.absent
    validate_subplan hd (Subplan.nested p) =
        if is_type hd.type NodeType.subplan
        then (do p' ← validate_plan true p; ok (Subplan.nested p'))
        else ok (Subplan.nested p)

  -- `PlanValidator.validate`
  unfoldable pub validate : Plan → Checked Plan
  unfolding validate_plan
  validate = validate_plan false
