-- ===== src/Executor/Recording.antt =====
-- How the outcome of a node enters the execution state: the end of `_execute_and_record_node`,
-- `_record_branch_decision` and `_record_skipped_node`. The events and spans are not modelled.
use glassrail.Common.{
  Dict, List, String, [], add, false, if◌then◌else◌, insert, int_leb, is_some, none, not, pos, some,
  sort, truthy, ℤ, ◌&&◌, ◌++◌, ◌==◌, ◌||◌, ◌∷◌, int_eq, string_eq,
}
use glassrail.Core.{
  Node, NodeType, NodeResult, NodeStatus, ExecutionState, Json, one_float, float_ltb, is_type,
}
use glassrail.Config.{Settings, RoutingConfig}
use glassrail.Validator.Topo.{branch_items}
use glassrail.Validator.Nesting.{node_at}
use glassrail.Executor.Plans.{has_result, is_status}

-- `_select_tier`: the base tier of a node type, by the routing table
routed : RoutingConfig → NodeType → ℤ
routed r NodeType.decision = r.decision
routed r NodeType.tool = r.tool
routed r NodeType.synthesis = r.synthesis
routed r NodeType.think = r.think
routed r NodeType.summary = r.summary
routed r NodeType.result = r.result
routed r NodeType.subplan = pos 0

abbrev pub int_max : ℤ → ℤ → ℤ
int_max a b = if int_leb b a then a else b

unfoldable pub select_tier : Settings → Node → ℤ
unfolding routed
select_tier s n = elim n.forced_tier [
  | some t ↦ t
  | none ↦
      let base = routed s.routing n.type in
      if n.reasoning_required then int_max base s.routing.reasoning_required else base
]

-- The result after the defaults and the confidence threshold: `tier_used`, `flagged`.
unfoldable pub settle : Settings → Node → NodeResult → NodeResult
unfolding select_tier
settle s n r = record r {
  tier_used = elim r.tier_used [ none ↦ some (select_tier s n) | some t ↦ some t ];
  flagged =
      r.flagged
      || is_status r.status NodeStatus.completed && float_ltb r.confidence s.confidence_threshold;
}

-- `NodeResult(node_id=node_id, status=NodeStatus.SKIPPED)`
abbrev pub skipped_result : ℤ → NodeResult
skipped_result i = record {
  node_id = i;
  status = NodeStatus.skipped;
  output = Json.null;
  branch_taken = none;
  args_used = none;
  confidence = one_float;
  flagged = false;
  tokens_used = 0;
  retries = 0;
  error = none;
  tier_used = none;
}

-- `_record_skipped_node`
unfoldable pub record_skipped : ℤ → ExecutionState → ExecutionState
record_skipped i st = record st {
  results = insert i (skipped_result i) st.results;
  skipped_nodes = add i st.skipped_nodes;
}

-- The targets of the branches that were not taken.
unfoldable pub excluded : String → Dict String (List ℤ) → List ℤ
excluded taken [] = []
excluded taken ((b, ts) ∷ bs) =
    let rest = excluded taken bs in if b == taken then rest else ts ++ rest

-- The set that `_record_branch_decision` returns, in the order of `sorted(skipped)`.
unfoldable pub skipped_targets : Node → NodeResult → List ℤ
unfolding excluded
skipped_targets n r = elim r.branch_taken [
  | none ↦ []
  | some b ↦ if truthy (some b) then sort int_leb (excluded b (branch_items n)) else []
]

-- The body of the last loop of `_execute_and_record_node`.
unfoldable pub exclude : List Node → ℤ → ExecutionState → ExecutionState
unfolding record_skipped
exclude ns i st =
    if is_some (node_at ns i) && not (has_result i st.results) then record_skipped i st else st

unfoldable pub record_excluded : List Node → List ℤ → ExecutionState → ExecutionState
unfolding exclude
record_excluded ns [] st = st
record_excluded ns (i ∷ is) st = record_excluded ns is (exclude ns i st)

-- `_record_branch_decision`: the entry of the branch log
unfoldable pub log_branch : Node → NodeResult → ExecutionState → ExecutionState
log_branch n r st = record st {
  branch_log =
      st.branch_log
      ++ (record {
        node_id = n.id;
        condition = n.condition;
        branch_taken = r.branch_taken;
        confidence = r.confidence;
      })
        ∷ [];
}

-- `state.results[node_id] = result` and `state.completed_nodes.append(node_id)`
unfoldable pub store_result : ℤ → NodeResult → ExecutionState → ExecutionState
store_result i r st = record st {
  results = insert i r st.results;
  completed_nodes = st.completed_nodes ++ i ∷ [];
}

-- `_execute_and_record_node` from the return of `_dispatch_node`, with outcome `r`, to its end.
unfoldable pub record_node :
    Settings → List Node → Node → NodeResult → ExecutionState → ExecutionState
unfolding settle store_result log_branch record_excluded skipped_targets
record_node s ns n r st =
    let st' = store_result n.id (settle s n r) st in
    if is_type n.type NodeType.decision
    then record_excluded ns (skipped_targets n r) (log_branch n (settle s n r) st')
    else st'
