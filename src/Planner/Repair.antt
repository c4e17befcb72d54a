-- ===== src/Planner/Repair.antt =====
-- `_ensure_terminal_result` and `_single_terminal_synthesis`: a plan that the planner forgot to end
-- with a result node. A `TypeError` of Python is `none`.
mod Fresh
pub mod Sinks
pub mod Terminal
use glassrail.Common.{
  Bool, List, Option, [], any, elem, if◌then◌else◌, int_leb, int_suc, none, not, pos, some, ℤ, ◌&&◌,
  ◌++◌, ◌==◌, ◌∷◌, string_eq, int_eq,
}
use glassrail.Core.{Json, Items, Members}
use glassrail.Planner.Payload.{get, as_int, is_text, item_list, iterated}

-- `[v for v in values if isinstance(v, int)]`
unfoldable pub ints : List Json → List ℤ
unfolding as_int
ints [] = []
ints (v ∷ vs) = let later = ints vs in elim (as_int (some v)) [ none ↦ later | some z ↦ z ∷ later ]

-- The ids in the branches: of an object's values, those that are lists count.
unfoldable pub member_ints : Members → List ℤ
unfolding ints
member_ints Members.end = []
member_ints (Members.member key (Json.arr vs) rest) = ints (item_list vs) ++ member_ints rest
member_ints (Members.member key value rest) = member_ints rest

unfoldable pub branch_ints : Option Json → List ℤ
branch_ints (some (Json.obj branches)) = member_ints branches
branch_ints _ = []

-- The set `referenced`.
unfoldable pub referenced : List Members → Option (List ℤ)
unfolding iterated ints branch_ints member_ints
referenced [] = some []
referenced (node ∷ nodes) =
    let later = referenced nodes in
    elim (iterated (get "context_needed" node)) [
      | none ↦ none
      | some deps ↦ elim later [
        | none ↦ none
        | some refs ↦ some (ints deps ++ branch_ints (get "branches" node) ++ refs)
      ]
    ]

-- The synthesis nodes that no node refers to.
unfoldable pub sinks : List ℤ → List Members → List ℤ
unfolding as_int is_text
sinks refs [] = []
sinks refs (node ∷ nodes) =
    let later = sinks refs nodes in
    elim (as_int (get "id" node)) [
      | none ↦ later
      | some id ↦
          if is_text (get "type" node) "synthesis" && not (elem id refs) then id ∷ later else later
    ]

-- `sinks[0]` if there is one sink
abbrev pub only : List ℤ → Option ℤ
only (id ∷ []) = some id
only _ = none

unfoldable pub single_terminal_synthesis : List Members → Option (Option ℤ)
unfolding referenced sinks
single_terminal_synthesis nodes = elim (referenced nodes) [
  | none ↦ none
  | some refs ↦ some (only (sinks refs nodes))
]

-- `[node for node in node_list if isinstance(node, dict)]`
unfoldable pub typed_nodes : List Json → List Members
typed_nodes [] = []
typed_nodes (Json.obj node ∷ values) = node ∷ typed_nodes values
typed_nodes (value ∷ values) = typed_nodes values

unfoldable pub node_ids : List Members → List ℤ
unfolding as_int
node_ids [] = []
node_ids (node ∷ nodes) =
    let later = node_ids nodes in
    elim (as_int (get "id" node)) [ none ↦ later | some id ↦ id ∷ later ]

-- `max(ids) + 1`, or 1 without ids
unfoldable pub max_id : ℤ → List ℤ → ℤ
max_id top [] = top
max_id top (id ∷ ids) = max_id (if int_leb id top then top else id) ids

unfoldable pub next_id : List ℤ → ℤ
unfolding max_id
next_id [] = pos 1
next_id (id ∷ ids) = int_suc (max_id id ids)

-- The node that is appended.
unfoldable pub result_node : (id sink : ℤ) → Members
result_node id sink = Members.member "id" (Json.int id) (
    Members.member "type" (Json.str "result") (
      Members.member "description"
        (Json.str "Return the synthesized answer as the final user-facing response")
        (Members.member "context_needed" (Json.arr (Items.cons (Json.int sink) Items.nil))
          Members.end)))

abbrev pub has_result : List Members → Bool
has_result nodes = any (λ node. is_text (get "type" node) "result") nodes

-- What is done to one list of nodes, after the plans nested in it.
unfoldable pub append_result : List Json → Option (List Json)
unfolding single_terminal_synthesis typed_nodes node_ids next_id result_node
append_result values =
    let nodes = typed_nodes values in
    if has_result nodes then some values else elim (single_terminal_synthesis nodes) [
      | none ↦ none
      | some none ↦ some values
      | some (some sink) ↦
          some (values ++ Json.obj (result_node (next_id (node_ids nodes)) sink) ∷ [])
    ]

abbrev items_of : List Json → Items
items_of [] = Items.nil
items_of (v ∷ vs) = Items.cons v (items_of vs)

-- `_ensure_terminal_result`: through the nested plans first, then the list of nodes
unfoldable mutual
  unfolding append_result item_list

  pub ensure_terminal_result : Members → Option Members
  ensure_terminal_result Members.end = some Members.end
  ensure_terminal_result (Members.member key value rest) =
      let ended = ensure_nodes value in
      let later = ensure_terminal_result rest in
      if key == "nodes"
      then elim ended [ none ↦ none | some v ↦ some (Members.member key v rest) ]
      else elim later [ none ↦ none | some r ↦ some (Members.member key value r) ]

  -- The value of `nodes`.
  pub ensure_nodes : Json → Option Json
  ensure_nodes (Json.arr nodes) = elim (ensure_each nodes) [
    | none ↦ none
    | some nodes' ↦ elim (append_result (item_list nodes')) [
      | none ↦ none
      | some values ↦ some (Json.arr (items_of values))
    ]
  ]
  ensure_nodes value = some value

  pub ensure_each : Items → Option Items
  ensure_each Items.nil = some Items.nil
  ensure_each (Items.cons node nodes) =
      let nodes' = ensure_each nodes in
      elim (ensure_node node) [
        | none ↦ none
        | some node' ↦ elim nodes' [ none ↦ none | some rest ↦ some (Items.cons node' rest) ]
      ]

  pub ensure_node : Json → Option Json
  ensure_node (Json.obj node) = elim (ensure_subplan node) [
    | none ↦ none
    | some node' ↦ some (Json.obj node')
  ]
  ensure_node value = some value

  -- The value of `subplan`, if it is an object.
  pub ensure_subplan : Members → Option Members
  ensure_subplan Members.end = some Members.end
  ensure_subplan (Members.member key value rest) =
      let ended = ensure_nested value in
      let later = ensure_subplan rest in
      if key == "subplan"
      then elim ended [ none ↦ none | some v ↦ some (Members.member key v rest) ]
      else elim later [ none ↦ none | some r ↦ some (Members.member key value r) ]

  pub ensure_nested : Json → Option Json
  ensure_nested (Json.obj p) = elim (ensure_terminal_result p) [
    | none ↦ none
    | some p' ↦ some (Json.obj p')
  ]
  ensure_nested value = some value
