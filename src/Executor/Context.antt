-- ===== src/Executor/Context.antt =====
-- src/glassrail/executor/context.py: the text that a node gets to see of the nodes before it. Texts are
-- lists of code points; `max_chars` is no negative number.
pub mod Fresh
use glassrail.Common.{
  Chars, List, Option, [], codes, if◌then◌else◌, keep_last, leb, length, lookup, map, none, some,
  take, ℕ, ℤ, ◌++◌, ◌/◌, ◌∷◌, int_eq,
}
use glassrail.Core.{Node, NodeType, NodeResult, NodeStatus, Json}
use glassrail.Executor.Plans.{Results, is_status}

-- `str` of an integer and of a node type, and `json.dumps`
pub record Shown : Type 0 where
  pub show : ℤ → Chars
  pub type_name : NodeType → Chars
  pub dumps : Json → Chars

abbrev pub truncation_mark : Chars
truncation_mark = codes "\n... [truncated] ...\n"

-- `_truncate_middle`
unfoldable pub truncate_middle : Chars → (max_chars : ℕ) → Chars
truncate_middle text max_chars =
    let half = max_chars / 2 in
    if leb (length text) max_chars
    then text
    else take half text ++ (truncation_mark ++ keep_last half text)

-- `sep.join(parts)`
unfoldable pub join : Chars → List Chars → Chars
join sep [] = []
join sep (part ∷ []) = part
join sep (part ∷ parts) = part ++ sep ++ join sep parts

module _ (shown : Shown) where
  -- `result.output` if it is a text, and otherwise its JSON
  unfoldable pub raw_text : Json → Chars
  raw_text (Json.str s) = codes s
  raw_text value = shown.dumps value

  -- `f"[Node {dep_id} output{text}"`
  unfoldable pub labelled : ℤ → Chars → Chars
  labelled dep_id text = codes "[Node " ++ shown.show dep_id ++ codes " output" ++ text

  -- What the loop adds for one node that is needed, by its result.
  unfoldable pub part_of : (max_chars : ℕ) → ℤ → Option NodeResult → Chars
  unfolding labelled raw_text truncate_middle
  part_of max_chars dep_id none = labelled dep_id (codes ": not available (node was skipped)]")
  part_of max_chars dep_id (some r) =
      if is_status r.status NodeStatus.skipped
      then labelled dep_id (codes ": not available (node was skipped)]")
      else if is_status r.status NodeStatus.empty
      then labelled dep_id (codes ": empty — tool returned no results]")
      else if is_status r.status NodeStatus.failed
      then labelled dep_id (
          codes ": FAILED — "
          ++ elim r.error [ none ↦ codes "None" | some text ↦ codes text ]
          ++ codes "]")
      else labelled dep_id (codes "]:\n" ++ truncate_middle (raw_text r.output) max_chars)

  unfoldable pub parts_of : (max_chars : ℕ) → Results → List ℤ → List Chars
  unfolding part_of
  parts_of max_chars results [] = []
  parts_of max_chars results (dep_id ∷ dep_ids) =
      part_of max_chars dep_id (lookup dep_id results) ∷ parts_of max_chars results dep_ids

  -- The part about the nodes that will read the output, if there are any.
  unfoldable pub consumers : List Node → List Chars
  unfolding join
  consumers [] = []
  consumers (d ∷ ds) =
      (codes "Your output will be consumed by:\n"
        ++ join (codes "\n") (
            map
              (λ n.
                codes "  - Node "
                ++ shown.show n.id
                ++ codes " ("
                ++ shown.type_name n.type
                ++ codes "): "
                ++ codes n.description)
              (d ∷ ds)))
      ∷ []

  -- `assemble_context`; no dependent nodes are an empty list
  unfoldable pub assemble_context :
      Node → Results → (dependent_nodes : List Node) → (max_chars_per_dep : ℕ) → Chars
  unfolding parts_of consumers join
  assemble_context n results dependent_nodes max_chars_per_dep =
      join (codes "\n\n")
        (parts_of max_chars_per_dep results n.context_needed ++ consumers dependent_nodes)
