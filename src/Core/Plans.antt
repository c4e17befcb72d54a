-- ===== src/Core/Plans.antt =====
-- src/glassrail/core/plan.py
use glassrail.Common.{
  ℤ, String, Bool, Option, none, some, List, [], ◌∷◌, Dict, ◌≡◌, ◌↔◌, true, false, arith,
}
use glassrail.Core.Values.{Members}

pub data NodeType : Type 0 where
  tool decision synthesis think summary result subplan : NodeType

pub data SummaryFormat : Type 0 where
  concise medium verbose : SummaryFormat

pub data ToolRisk : Type 0 where
  read network write execute : ToolRisk

-- The fields of a node but for its nested plan.
pub record Header : Type 0 where
  pub id : ℤ
  pub type : NodeType
  pub description : String
  pub tool : Option String
  pub args_template : Option Members
  pub context_needed : List ℤ
  pub condition : Option String
  pub branches : Option (Dict String (List ℤ))
  pub default_branch : Option String
  pub reasoning_required : Bool
  pub forced_tier : Option ℤ
  pub format : Option SummaryFormat

-- A plan holds nodes, and a node may hold a plan.
mutual
  pub data Plan : Type 0 where
    plan : Nodes → (sorted_node_ids : List ℤ) → Plan

  pub data Nodes : Type 0 where
    nil : Nodes
    cons : Header → Subplan → Nodes → Nodes

  pub data Subplan : Type 0 where
    absent : Subplan
    nested : Plan → Subplan

pub record Node : Type 0 where
  pub header : Header
  pub open header use *
  pub subplan : Option Plan

unfoldable pub subplan_of : Subplan → Option Plan
subplan_of absent = none
subplan_of (nested p) = some p

unfoldable pub node_list : Nodes → List Node
unfolding subplan_of
node_list nil = []
node_list (cons h s ns) = record { header = h; subplan = subplan_of s } ∷ node_list ns

unfoldable pub nodes : Plan → List Node
unfolding node_list
nodes (plan ns ids) = node_list ns

unfoldable pub sorted_node_ids : Plan → List ℤ
sorted_node_ids (plan ns ids) = ids

-- `a is b` on node types
unfoldable pub is_type : NodeType → NodeType → Bool
is_type tool tool = true
is_type decision decision = true
is_type synthesis synthesis = true
is_type think think = true
is_type summary summary = true
is_type result result = true
is_type subplan subplan = true
is_type _ _ = false

pub is_type_iff : (a b : NodeType) → (is_type a b ≡ true) ↔ (a ≡ b)
unfolding is_type
is_type_iff a b = ground arith
