-- ===== src/Executor/Tools/Gates.antt =====
-- The two calls of a model that surround a tool (`_extract_args` and `_check_output_shape`), on what
-- the model streams. An exception of any kind is caught in both.
use glassrail.Common.{
  Bool, Chars, List, Option, String, [], false, if◌then◌else◌, none, not, ok, pos, refl, some, true,
  zero, ◌==◌, ◌∷◌, ◌≡◌, int_eq, string_eq,
}
use glassrail.Core.{Json, Items, Members, Float, Node, NodeStatus, is_empty_output, one_float}
use glassrail.Config.{Settings}
use glassrail.Harness.{ToolHarness, execute}
use glassrail.Planner.Payload.{get}
use glassrail.Executor.Approval.{ToolApprovalBroker, approve_tool_call}
use glassrail.Executor.Tools.{
  Surroundings, tool_result, call_args, check_output, after_call, call_tool, execute_tool,
}
use glassrail.Executor.Once.{Chunk, StreamEnd, collect}

-- `bool(value)`
unfoldable pub is_true : Json → Bool
is_true Json.null = false
is_true (Json.bool b) = b
is_true (Json.int z) = not (z == pos 0)
is_true (Json.float (Float.finite (pos zero) e)) = false
is_true (Json.float f) = true
is_true (Json.str s) = not (s == "")
is_true (Json.arr Items.nil) = false
is_true (Json.arr (Items.cons v vs)) = true
is_true (Json.obj Members.end) = false
is_true (Json.obj (Members.member k v vs)) = true

-- The text that a stream brings, with none for an exception.
unfoldable pub collected : List Chunk → StreamEnd → Option Chars
unfolding collect
collected chunks StreamEnd.finished = some (collect [] 0 chunks).0
collected chunks (StreamEnd.unavailable m) = none
collected chunks (StreamEnd.broken m) = none

-- `json.loads(strip_model_output(raw))` is a parameter, with none for an exception.
module _ (loads : Chars → Option Json) where
  unfoldable pub read_reply : Option Chars → Option Json
  read_reply none = none
  read_reply (some raw) = loads raw

  abbrev pub dict_or_empty : Option Json → Members
  dict_or_empty (some (Json.obj fields)) = fields
  dict_or_empty _ = Members.end

  -- `_extract_args`
  unfoldable pub extract_args : List Chunk → StreamEnd → Members
  unfolding read_reply collected
  extract_args chunks ending = dict_or_empty (read_reply (collected chunks ending))

  abbrev pub matches : Option Json → Bool
  matches none = true
  matches (some v) = is_true v

  abbrev pub issue_of : Option Json → Option String
  issue_of (some (Json.str issue)) = some issue
  issue_of _ = none

  -- The answer of the gate: `ok` and `issue`.
  unfoldable pub shape_answer : Option Json → Bool × Option String
  unfolding get is_true
  shape_answer (some (Json.obj fields)) =
      (matches (get "matches_expectation" fields), issue_of (get "issue" fields))
  shape_answer _ = (true, none)

  -- `_check_output_shape`
  unfoldable pub check_output_shape : List Chunk → StreamEnd → Bool × Option String
  unfolding shape_answer read_reply collected
  check_output_shape chunks ending = shape_answer (read_reply (collected chunks ending))

  -- The environment of a tool node whose two calls of a model bring these streams.
  unfoldable pub with_models :
      Surroundings → (extraction gate : List Chunk × StreamEnd) → Surroundings
  unfolding extract_args check_output_shape
  with_models w extraction gate = record w {
    extracted_args = extract_args extraction.0 extraction.1;
    shape_issue = λ output.
        if (check_output_shape gate.0 gate.1).0
        then none
        else some (check_output_shape gate.0 gate.1).1;
  }

  -- A reply that cannot be read as an object of JSON.
  abbrev pub NoObject : Option Json → Type 0
  NoObject o = (fields : Members) → o ≡ some (Json.obj fields) → ⊥

  shape_answer_open : (o : Option Json) → NoObject o → shape_answer o ≡ (true, none)
  unfolding shape_answer
  shape_answer_open none h = refl
  shape_answer_open (some Json.null) h = refl
  shape_answer_open (some (Json.bool b)) h = refl
  shape_answer_open (some (Json.int z)) h = refl
  shape_answer_open (some (Json.float f)) h = refl
  shape_answer_open (some (Json.str s)) h = refl
  shape_answer_open (some (Json.arr vs)) h = refl
  shape_answer_open (some (Json.obj fields)) h = absurd (h fields refl)

  with_models-open :
      (w : Surroundings) (output : Json) (extraction gate : List Chunk × StreamEnd)
      → NoObject (read_reply (collected gate.0 gate.1))
      → (with_models w extraction gate).shape_issue output ≡ none
  unfolding with_models check_output_shape
  with_models-open w output extraction gate broken =
      rw (shape_answer_open (read_reply (collected gate.0 gate.1)) broken) refl

  with_models-answer :
      (w : Surroundings) (extraction gate : List Chunk × StreamEnd)
      → (with_models w extraction gate).answer ≡ w.answer
  unfolding with_models
  with_models-answer w extraction gate = refl

  -- A gate that fails does not block the tool: where a tool node's call is approved and the tool
  -- returns an output that is not empty, while the check of the output ends in an exception, or its
  -- answer is no object of JSON, the node is COMPLETED with that output, unflagged and at full
  -- confidence.
  pub execute_tool-open :
      (s : Settings) (h : ToolHarness) (broker : Option ToolApprovalBroker) (w : Surroundings)
      (n : Node) (tool : String) (output : Json) (extraction gate : List Chunk × StreamEnd)
      → n.tool ≡ some tool
      → approve_tool_call s h broker w.answer tool ≡ true
      → execute h tool (call_args (with_models w extraction gate) n) ≡ ok output
      → is_empty_output output ≡ false
      → NoObject (read_reply (collected gate.0 gate.1))
      → execute_tool s h broker (with_models w extraction gate) n ≡ (
        tool_result n NodeStatus.completed output
            (some (call_args (with_models w extraction gate) n))
            one_float
            false
            none,
        (tool, call_args (with_models w extraction gate) n) ∷ [],
      )
  unfolding execute_tool call_tool after_call check_output
  execute_tool-open s h broker w n tool output extraction gate named approved runs full broken =
      rw
        (
          execute_tool,
          named,
          with_models-answer w extraction gate,
          approved,
          runs,
          check_output,
          full,
          with_models-open w output extraction gate broken,
        )
        refl
