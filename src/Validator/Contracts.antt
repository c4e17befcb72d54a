-- ===== src/Validator/Contracts.antt =====
-- The checks of one node, and of the lists of tools and tiers.
use glassrail.Common.{
  Bool, Dict, List, Option, String, [], all, elem, err, false, filter, for_each, if◌then◌else◌,
  int_eq, int_leb, is_none, is_some, length, lookup, map, none, not, ok, pos, raise_if, some,
  string_eq, truthy, ℤ, ◌&&◌, ◌-◌, ◌==◌, ◌>>◌, ◌||◌, ◌∷◌,
}
use glassrail.Core.{Node, NodeType, is_type}
use glassrail.Config.{Settings, tiers}
use glassrail.Harness.{ToolHarness, unknown_names}
use glassrail.Validator.Errors.{
  Checked, too_many_nodes, no_tool, extra_tool, decision_fields, no_nested_plan, extra_nested_plan,
  no_condition, no_branches, branch_names, default_not_a_branch, unknown_tools, tier_out_of_range,
}

-- `_check_node_limit`
unfoldable pub check_node_limit : Settings → List Node → (is_subplan : Bool) → Checked Unit
check_node_limit s ns is_subplan =
    let limit = if is_subplan then s.max_subplan_nodes else s.max_plan_nodes in
    raise_if (not (int_leb (pos (length ns)) limit)) (too_many_nodes (length ns) limit)

-- `set(node.branches) != {"yes", "no"}`
yes_and_no : Dict String (List ℤ) → Bool
yes_and_no b =
    let names = map (λ e. e.0) b in
    elem "yes" names && elem "no" names && all (λ n. n == "yes" || n == "no") names

-- `node.default_branch not in node.branches`
abbrev has_branch : Option String → Dict String (List ℤ) → Bool
has_branch none b = false
has_branch (some d) b = is_some (lookup d b)

-- `_check_decision_contract`
unfoldable pub check_decision_contract : Node → Checked Unit
unfolding yes_and_no
check_decision_contract n = do
  raise_if (not (truthy n.condition)) (no_condition n.id)
  elim n.branches [
    | none ↦ err (no_branches n.id)
    | some b ↦ do
      raise_if (not (yes_and_no b)) (branch_names n.id)
      raise_if (not (has_branch n.default_branch b)) (default_not_a_branch n.id)
  ]

-- The three parts of the body of the loop of `_check_node_contracts`.
unfoldable pub check_tool_field : Node → Checked Unit
check_tool_field n =
    if is_type n.type NodeType.tool
    then raise_if (not (truthy n.tool)) (no_tool n.id)
    else raise_if (truthy n.tool) (extra_tool n.id)

unfoldable pub check_decision_fields : Node → Checked Unit
unfolding check_decision_contract
check_decision_fields n =
    if is_type n.type NodeType.decision
    then check_decision_contract n
    else raise_if (is_some n.condition || is_some n.branches || truthy n.default_branch)
        (decision_fields n.id)

unfoldable pub check_subplan_field : Node → Checked Unit
check_subplan_field n =
    if is_type n.type NodeType.subplan
    then raise_if (is_none n.subplan) (no_nested_plan n.id)
    else raise_if (is_some n.subplan) (extra_nested_plan n.id)

unfoldable pub check_node_contract : Node → Checked Unit
unfolding check_tool_field check_decision_fields check_subplan_field
check_node_contract n = do check_tool_field n; check_decision_fields n; check_subplan_field n

unfoldable pub check_node_contracts : List Node → Checked Unit
unfolding check_node_contract
check_node_contracts = for_each check_node_contract

-- `[n.tool for n in plan.nodes if n.type is NodeType.TOOL]`
unfoldable pub tool_names : List Node → List (Option String)
tool_names ns = map (λ n. n.tool) (filter (λ n. is_type n.type NodeType.tool) ns)

-- `_check_tool_names`
unfoldable pub check_tool_names : ToolHarness → List Node → Checked Unit
unfolding tool_names
check_tool_names h ns = elim (unknown_names h (tool_names ns)) [
  | [] ↦ ok tt
  | n ∷ rest ↦ err (unknown_tools (n ∷ rest))
]

-- The body of the loop of `_check_forced_tiers`; the highest tier is `len(tiers) - 1`.
unfoldable pub check_forced_tier : Settings → Node → Checked Unit
unfolding tiers
check_forced_tier s n = elim n.forced_tier [
  | none ↦ ok tt
  | some t ↦
      raise_if (not (int_leb (pos 0) t) || not (int_leb t (pos (length (tiers s) - 1))))
        (tier_out_of_range n.id t)
]

unfoldable pub check_forced_tiers : Settings → List Node → Checked Unit
unfolding check_forced_tier
check_forced_tiers s = for_each (check_forced_tier s)
