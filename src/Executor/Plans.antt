-- ===== src/Executor/Plans.antt =====
-- What the executor reads off a plan: dependencies, content inputs and the final output
-- (the static helpers at the end of src/glassrail/executor/executor.py).
use glassrail.Common.{
  Bool, Dict, List, Option, String, [], add, all, false, filter, if◌then◌else◌, insert, is_some,
  lookup, none, not, reverse, some, true, ℤ, ◌&&◌, ◌==◌, ◌∷◌, int_eq,
}
use glassrail.Core.{Node, NodeType, NodeResult, NodeStatus, is_type}
use glassrail.Validator.Topo.{branch_items}
use glassrail.Validator.Nesting.{node_at}

abbrev pub Results : Type 0
Results = Dict ℤ NodeResult

abbrev pub has_result : ℤ → Results → Bool
has_result i rs = is_some (lookup i rs)

-- `a is b` on node statuses
unfoldable pub is_status : NodeStatus → NodeStatus → Bool
is_status NodeStatus.pending NodeStatus.pending = true
is_status NodeStatus.completed NodeStatus.completed = true
is_status NodeStatus.skipped NodeStatus.skipped = true
is_status NodeStatus.failed NodeStatus.failed = true
is_status NodeStatus.empty NodeStatus.empty = true
is_status _ _ = false

abbrev pub DepMap : Type 0
DepMap = Dict ℤ (List ℤ)

-- `{node.id: set(node.context_needed) for node in plan.nodes}`
unfoldable pub content_map : List Node → DepMap → DepMap
content_map [] m = m
content_map (n ∷ ns) m = content_map ns (insert n.id n.context_needed m)

-- `deps[target_id].add(node.id)` if the target is there
unfoldable pub add_control : ℤ → ℤ → DepMap → DepMap
add_control node target m = elim (lookup target m) [
  | none ↦ m
  | some ds ↦ insert target (add node ds) m
]

unfoldable pub add_controls : ℤ → List ℤ → DepMap → DepMap
unfolding add_control
add_controls node [] m = m
add_controls node (t ∷ ts) m = add_controls node ts (add_control node t m)

unfoldable pub add_branches : ℤ → Dict String (List ℤ) → DepMap → DepMap
unfolding add_controls
add_branches node [] m = m
add_branches node ((b, ts) ∷ bs) m = add_branches node bs (add_controls node ts m)

unfoldable pub control_map : List Node → DepMap → DepMap
unfolding add_branches
control_map [] m = m
control_map (n ∷ ns) m = control_map ns (add_branches n.id (branch_items n) m)

-- `_dependency_map`
unfoldable pub dependency_map : List Node → DepMap
unfolding content_map control_map
dependency_map ns = control_map ns (content_map ns [])

-- `deps[i]`, for an id of the plan
abbrev pub deps_at : DepMap → ℤ → List ℤ
deps_at m i = elim (lookup i m) [ none ↦ [] | some ds ↦ ds ]

-- `deps[node_id].issubset(state.results)`
unfoldable pub is_ready : DepMap → Results → ℤ → Bool
is_ready m rs i = all (λ d. has_result d rs) (deps_at m i)

-- `node_map.get(dep, node).type is not NodeType.DECISION`
abbrev is_content : List Node → Node → ℤ → Bool
is_content ns n dep = elim (node_at ns dep) [
  | none ↦ not (is_type n.type NodeType.decision)
  | some m ↦ not (is_type m.type NodeType.decision)
]

-- `_content_dependencies`
unfoldable pub content_dependencies : List Node → Node → List ℤ
unfolding node_at
content_dependencies ns n = filter (is_content ns n) n.context_needed

-- One input of the loop of `_only_uses_skipped_content`.
abbrev counts_as_skipped : Bool → Results → ℤ → Bool
counts_as_skipped missing rs dep = elim (lookup dep rs) [
  | none ↦ missing
  | some r ↦ is_status r.status NodeStatus.skipped
]

abbrev is_nil {ℓ} : {A : Type ℓ} → List A → Bool
is_nil [] = true
is_nil (x ∷ xs) = false

-- `_only_uses_skipped_content`
unfoldable pub only_uses_skipped_content : (missing : Bool) → List Node → Results → Node → Bool
unfolding content_dependencies is_status
only_uses_skipped_content missing ns rs n =
    not (is_nil (content_dependencies ns n))
    && all (counts_as_skipped missing rs) (content_dependencies ns n)

-- `next((n for n in plan.nodes if n.id == node_id), None)`
unfoldable pub first_node : List Node → ℤ → Option Node
first_node [] i = none
first_node (n ∷ ns) i = let later = first_node ns i in if n.id == i then some n else later

-- One candidate of the loops of `_final_output_result`.
unfoldable pub candidate : List Node → Results → NodeType → ℤ → Option NodeResult
unfolding first_node only_uses_skipped_content
candidate ns rs target i = elim (first_node ns i) [
  | none ↦ none
  | some n ↦
      if is_type n.type target && not (only_uses_skipped_content true ns rs n)
      then elim (lookup i rs) [
        | none ↦ none
        | some r ↦ if is_status r.status NodeStatus.completed then some r else none
      ]
      else none
]

-- The loop over `reversed(plan.sorted_node_ids)`, given the list in reverse.
unfoldable pub first_candidate : List Node → Results → NodeType → List ℤ → Option NodeResult
unfolding candidate
first_candidate ns rs target [] = none
first_candidate ns rs target (i ∷ is) =
    let rest = first_candidate ns rs target is in
    elim (candidate ns rs target i) [ some r ↦ some r | none ↦ rest ]

-- `_final_output_result`
unfoldable pub final_output_result : List Node → List ℤ → Results → Option NodeResult
unfolding first_candidate
final_output_result ns order rs =
    let is = reverse order in
    elim (first_candidate ns rs NodeType.result is) [
      | some r ↦ some r
      | none ↦ elim (first_candidate ns rs NodeType.synthesis is) [
        | some r ↦ some r
        | none ↦ first_candidate ns rs NodeType.summary is
      ]
    ]
