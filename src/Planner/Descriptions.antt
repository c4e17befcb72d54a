-- ===== src/Planner/Descriptions.antt =====
-- `_repair_node_descriptions` and `_fallback_node_description`: nodes without a description.
use Prim.Native.String.{◌++◌ as text_append}
use glassrail.Common.{
  Bool, Option, String, false, if◌then◌else◌, none, not, pos, some, true, zero, ◌==◌, string_eq,
}
use glassrail.Core.{Json, Items, Members, Float}
use glassrail.Planner.Payload.{get, put, as_int}

-- Python's `str.strip`, `str` of a JSON value and of an integer that a node has for its id
pub record Texts : Type 0 where
  pub strip : String → String
  pub str_of : Json → String

-- `bool(v)`
unfoldable pub is_true : Option Json → Bool
is_true none = false
is_true (some Json.null) = false
is_true (some (Json.bool b)) = b
is_true (some (Json.int (pos zero))) = false
is_true (some (Json.float (Float.finite (pos zero) e))) = false
is_true (some (Json.str s)) = not (s == "")
is_true (some (Json.arr Items.nil)) = false
is_true (some (Json.obj Members.end)) = false
is_true _ = true

module _ (texts : Texts) where
  -- The text of a value, stripped, if it is a text and not blank.
  unfoldable pub stripped : Option Json → Option String
  stripped (some (Json.str s)) = if texts.strip s == "" then none else some (texts.strip s)
  stripped _ = none

  -- `f" {node_id}"`, or nothing
  unfoldable pub suffix : Option Json → String
  unfolding as_int
  suffix id = elim id [
    | none ↦ ""
    | some v ↦ elim (as_int (some v)) [ none ↦ "" | some z ↦ text_append " " (texts.str_of v) ]
  ]

  -- `fallback_by_type`, with the default for other types
  unfoldable pub fallback_by_type : (node_type suffix : String) → String
  fallback_by_type node_type end_text =
      text_append
        (if node_type == "subplan"
          then "Execute subplan"
          else if node_type == "summary"
          then "Summarize upstream context"
          else if node_type == "synthesis"
          then "Synthesize upstream context"
          else if node_type == "think"
          then "Reason through node"
          else if node_type == "result"
          then "Produce the final answer"
          else "Execute node")
        end_text

  -- `str(node.get("type") or "node")`
  unfoldable pub type_text : Option Json → String
  unfolding is_true
  type_text none = "node"
  type_text (some v) = if is_true (some v) then texts.str_of v else "node"

  unfoldable pub fallback_node_description : Members → String
  unfolding stripped suffix fallback_by_type type_text
  fallback_node_description node =
      let node_type = type_text (get "type" node) in
      let end_text = suffix (get "id" node) in
      if node_type == "decision"
      then elim (stripped (get "condition" node)) [
        | some condition ↦ text_append "Decide whether: " condition
        | none ↦ texts.strip "Choose the correct yes/no branch"
      ]
      else if node_type == "tool"
      then elim (stripped (get "tool" node)) [
        | some tool ↦ text_append "Run the " (text_append tool " tool")
        | none ↦ texts.strip (text_append "Execute node" end_text)
      ]
      else texts.strip (fallback_by_type node_type end_text)

  unfoldable pub describe : Members → Members
  unfolding fallback_node_description
  describe node = elim (stripped (get "description" node)) [
    | none ↦ put "description" (Json.str (fallback_node_description node)) node
    | some d ↦ node
  ]

  -- `_repair_plan_descriptions`: the nodes, and through their nested plans
  unfoldable mutual
    unfolding describe

    pub repair_plan_descriptions : Members → Members
    repair_plan_descriptions Members.end = Members.end
    repair_plan_descriptions (Members.member key value rest) =
        let repaired = repair_nodes value in
        let later = repair_plan_descriptions rest in
        if key == "nodes" then Members.member key repaired rest else Members.member key value later

    pub repair_nodes : Json → Json
    repair_nodes (Json.arr nodes) = Json.arr (repair_each nodes)
    repair_nodes value = value

    pub repair_each : Items → Items
    repair_each Items.nil = Items.nil
    repair_each (Items.cons (Json.obj node) nodes) =
        Items.cons (Json.obj (describe (repair_subplan node))) (repair_each nodes)
    repair_each (Items.cons value nodes) = Items.cons value (repair_each nodes)

    pub repair_subplan : Members → Members
    repair_subplan Members.end = Members.end
    repair_subplan (Members.member key value rest) =
        let repaired = repair_nested value in
        let later = repair_subplan rest in
        if key == "subplan"
        then Members.member key repaired rest
        else Members.member key value later

    pub repair_nested : Json → Json
    repair_nested (Json.obj p) = Json.obj (repair_plan_descriptions p)
    repair_nested value = value
