-- ===== src/Gateways/Dag.antt =====
-- src/glassrail/gateways/tui/dag.py: the nodes that a plan's JSON names, and what is drawn of them.
pub mod Layers
pub mod Layout
use glassrail.Common.{List, Option, String, [], length, none, some, ℕ, ℤ, ◌++◌, ◌∷◌}
use glassrail.Core.{Json, Items, Members}
use glassrail.Planner.Payload.{get, item_list}

-- `_DagNode`
pub record DagNode : Type 0 where
  pub id : ℤ
  pub node_type : String
  pub description : String
  pub tool : Option String
  pub context_needed : List ℤ
  pub condition : Option String
  pub branch_targets : List ℤ
  pub subplan_size : Option ℕ

unfoldable pub opt_str : Option Json → Option String
opt_str (some (Json.str s)) = some s
opt_str _ = none

-- `isinstance(v, int) and not isinstance(v, bool)`
unfoldable pub strict_int : Option Json → Option ℤ
strict_int (some (Json.int z)) = some z
strict_int _ = none

-- The integers of a tuple.
unfoldable pub ints : List Json → List ℤ
unfolding strict_int
ints [] = []
ints (v ∷ vs) = let rest = ints vs in elim (strict_int (some v)) [ none ↦ rest | some z ↦ z ∷ rest ]

unfoldable pub int_tuple : Option Json → List ℤ
unfolding ints item_list
int_tuple (some (Json.arr vs)) = ints (item_list vs)
int_tuple _ = []

-- `for branch in value.values(): targets.extend(_int_tuple(branch))`
unfoldable pub targets_of : Members → List ℤ
unfolding int_tuple
targets_of Members.end = []
targets_of (Members.member key branch rest) = int_tuple (some branch) ++ targets_of rest

unfoldable pub branch_targets_of : Option Json → List ℤ
unfolding targets_of
branch_targets_of (some (Json.obj value)) = targets_of value
branch_targets_of _ = []

unfoldable pub list_size : Option Json → Option ℕ
unfolding item_list
list_size (some (Json.arr vs)) = some (length (item_list vs))
list_size _ = none

unfoldable pub subplan_size_of : Option Json → Option ℕ
unfolding list_size get
subplan_size_of (some (Json.obj value)) = list_size (get "nodes" value)
subplan_size_of _ = none

-- Python's `str` of a value is a parameter.
module _ (str : Json → String) where
  -- `str(item.get(key, ""))`
  unfoldable pub text_at : String → Members → String
  unfolding get
  text_at key item = elim (get key item) [ none ↦ "" | some v ↦ str v ]

  unfoldable pub node_of : ℤ → Members → DagNode
  unfolding text_at get opt_str int_tuple branch_targets_of subplan_size_of
  node_of nid item = record {
    id = nid;
    node_type = text_at "type" item;
    description = text_at "description" item;
    tool = opt_str (get "tool" item);
    context_needed = int_tuple (get "context_needed" item);
    condition = opt_str (get "condition" item);
    branch_targets = branch_targets_of (get "branches" item);
    subplan_size = subplan_size_of (get "subplan" item);
  }

  -- The node of an item, if it is a dictionary with an integer id.
  unfoldable pub parse_item : Json → Option DagNode
  unfolding node_of strict_int get
  parse_item (Json.obj item) = elim (strict_int (get "id" item)) [
    | none ↦ none
    | some nid ↦ some (node_of nid item)
  ]
  parse_item _ = none

  unfoldable pub parse_items : List Json → List DagNode
  unfolding parse_item
  parse_items [] = []
  parse_items (v ∷ vs) =
      let rest = parse_items vs in elim (parse_item v) [ none ↦ rest | some n ↦ n ∷ rest ]

  unfoldable pub parse_raw : Option Json → List DagNode
  unfolding parse_items item_list
  parse_raw (some (Json.arr vs)) = parse_items (item_list vs)
  parse_raw _ = []

  unfoldable pub parse_nodes : Members → List DagNode
  unfolding parse_raw get
  parse_nodes plan = parse_raw (get "nodes" plan)
