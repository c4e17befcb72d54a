-- ===== src/Samples/Nested.antt =====
-- A node with a nested plan, and the calls of models and tools for a node.
use glassrail.Common.{
  Chars, List, Result, String, [], add, all, ap, arith, codes, concat, count, drop, elem, err,
  false, filter, find, if◌then◌else◌, insert, int_leb, length, lookup, negsuc, none, ok, pos, refl,
  some, sort, starts_with, suc, true, zero, ℕ, ℤ, ◌∷◌, ◌≡◌, nat_eq,
}
use glassrail.Core.{
  is_type, is_empty_output, one_float, Plan, Nodes, Subplan, Node, NodeType, NodeStatus,
  ExecutionState, Json, nodes, sorted_node_ids, float_07,
}
use glassrail.Validator.Nesting.{node_at}
use glassrail.Executor.Plans.{is_ready, dependency_map, only_uses_skipped_content}
use glassrail.Executor.Recording.{record_node}
use glassrail.Executor.Scheduler.{
  Phase, Job, Config, round, sweep, after_sweep, drop as drop_pending, conclude, turn, complete,
  wake, Step, Reach, begin, job_of,
}
use glassrail.Executor.Retries.{Attempt}
use glassrail.Executor.Streamer.{
  new_streamer, feed, feed_all, read, feed_char, scan_for_marker, unescape,
}
use glassrail.Executor.Subplans.{sub_state, execute_subplan, nested_result}
use glassrail.Executor.Subplans.Isolation.{
  Answers, execute_subplan_isolated, execute_subplan-conclude,
}
use glassrail.Executor.Subplans.Paths.{ShowLaw, node_path_injective}
use glassrail.Executor.Once.{
  Reading, Chunk, StreamEnd, llm_node_spec, LlmNodeSpec, is_streaming, after_stream,
  execute_llm_node_once,
}
use glassrail.Executor.Once.Streams.{texts, execute_llm_node_once-stream, salvage_lem}
use glassrail.Samples.{settings, header, new_task, outcome}
use glassrail.Harness.{ToolHarness, execute, risk_for}
use glassrail.Executor.Approval.{approve_tool_call, effective_tool_policy, is_always_allowed}
use glassrail.Executor.Tools.{Surroundings, execute_tool, tool_result, call_args}
use glassrail.Executor.Tools.Gates.{with_models, NoObject, read_reply, collected, execute_tool-open}
use glassrail.Samples.Contexts.{shown, few, more, few_more}
use glassrail.Samples.Nodes.{careful, channel, surroundings, write_node}

abbrev inner : Plan
inner =
    Plan.plan (Nodes.cons (header (pos 1) NodeType.result []) Subplan.absent Nodes.nil) (pos 1 ∷ [])

abbrev outer : Node
outer = record { header = header (pos 2) NodeType.subplan (pos 1 ∷ []); subplan = some inner }

abbrev as_text : Chars → String
as_text cs = "text"

abbrev busy : ExecutionState
busy = record new_task { results = few }

abbrev never : ExecutionState → Chars → Result String ExecutionState
never st path_prefix = err "no"

execute_subplan_isolated_example :
    execute_subplan shown as_text never outer busy []
    ≡ execute_subplan shown as_text never outer (record busy { results = more }) []
execute_subplan_isolated_example =
    execute_subplan_isolated shown as_text never outer busy more [] few_more

abbrev output_text : Json → String
output_text v = "answer"

abbrev inner_job : Job
inner_job = job_of settings (nodes inner) (sorted_node_ids inner)

abbrev inner_node : Node
inner_node = record { header = header (pos 1) NodeType.result []; subplan = none }

-- The run of the nested plan: its node is started and ends.
abbrev inner_start : Config
inner_start = begin (sorted_node_ids inner) (sub_state shown as_text outer inner busy)

abbrev inner_asked : Config
inner_asked = turn inner_job output_text (turn inner_job output_text inner_start)

abbrev inner_ended : Config
inner_ended =
    turn inner_job output_text
      (wake inner_job (complete inner_job inner_node (outcome (pos 1) none) inner_asked))

inner_reached : Reach inner_job output_text inner_start inner_ended
unfolding turn begin job_of after_sweep sweep round elem node_at lookup is_ready all dependency_map
    is_type insert only_uses_skipped_content filter drop_pending add count complete wake record_node
    sort conclude int_leb sub_state sorted_node_ids nodes
inner_reached =
    Reach.then_step
      (Reach.then_step
        (Reach.then_step
          (Reach.then_step (Reach.then_step Reach.here (Step.turns refl refl))
            (Step.turns refl refl))
          (Step.completes inner_node (outcome (pos 1) none) refl refl (omega arith) refl))
        (Step.wakes refl (omega arith) refl))
      (Step.turns refl refl)

inner_finished : inner_ended.phase ≡ Phase.finished
unfolding turn begin job_of after_sweep sweep round elem node_at lookup is_ready all dependency_map
    is_type insert only_uses_skipped_content filter drop_pending add count complete wake record_node
    sort conclude int_leb sub_state sorted_node_ids nodes
inner_finished = refl

abbrev concludes : ExecutionState → Chars → Result String ExecutionState
concludes st path_prefix = ok inner_ended.state

execute_subplan-conclude_example :
    Answers
      (nodes inner)
      (sorted_node_ids inner)
      inner_ended.state.results
      output_text
      (pos 2)
      (execute_subplan shown as_text concludes outer busy [])
execute_subplan-conclude_example =
    execute_subplan-conclude shown as_text concludes settings output_text outer inner busy []
      inner_ended refl inner_reached inner_finished refl

-- A sign and strokes.
abbrev strokes : ℕ → Chars
strokes zero = []
strokes (suc n) = b'1' ∷ strokes n

abbrev in_strokes : ℤ → Chars
in_strokes (pos n) = b'+' ∷ strokes n
in_strokes (negsuc n) = b'-' ∷ strokes n

strokes_clean : (n : ℕ) → elem b'/' (strokes n) ≡ false
unfolding elem
strokes_clean zero = refl
strokes_clean (suc n) = strokes_clean n

length-strokes : (n : ℕ) → length (strokes n) ≡ n
length-strokes zero = refl
length-strokes (suc n) = ap suc (length-strokes n)

strokes_injective : (m n : ℕ) → length (strokes m) ≡ length (strokes n) → m ≡ n
strokes_injective m n e = omega (arith, e, length-strokes m, length-strokes n)

in_strokes_starts : (i : ℤ) → (c : ℕ) × (cs : Chars) × (in_strokes i ≡ c ∷ cs)
in_strokes_starts (pos n) = (b'+', strokes n, refl)
in_strokes_starts (negsuc n) = (b'-', strokes n, refl)

in_strokes_clean : (i : ℤ) → elem b'/' (in_strokes i) ≡ false
unfolding elem
in_strokes_clean (pos n) = strokes_clean n
in_strokes_clean (negsuc n) = strokes_clean n

in_strokes_injective : (i j : ℤ) → in_strokes i ≡ in_strokes j → i ≡ j
in_strokes_injective (pos m) (pos n) e = ap pos (strokes_injective m n (omega (arith, ap length e)))
in_strokes_injective (pos m) (negsuc n) e = absurd (ground (arith, e))
in_strokes_injective (negsuc m) (pos n) e = absurd (ground (arith, e))
in_strokes_injective (negsuc m) (negsuc n) e =
    ap negsuc (strokes_injective m n (omega (arith, ap length e)))

in_strokes-ShowLaw : ShowLaw in_strokes
in_strokes-ShowLaw = record {
  starts = in_strokes_starts;
  no_slash = in_strokes_clean;
  injective = in_strokes_injective;
}

node_path_injective_example : (pos 3 ∷ pos 4 ∷ [] ≡ pos 3 ∷ pos 4 ∷ []) × (pos 5 ≡ pos 5)
node_path_injective_example =
    node_path_injective in_strokes in_strokes-ShowLaw (pos 3) (pos 3) (pos 4 ∷ []) (pos 4 ∷ [])
      (pos 5) (pos 5) refl

abbrev reading : Reading
reading = record {
  is_blank = λ raw. elim raw [ [] ↦ true | c ∷ cs ↦ false ];
  loads = λ raw. none;
  to_float = λ v. none;
  of_codes = as_text;
  chr_of_hex = λ digits. none;
  decode_error = "not JSON";
  no_dict_error = "not a dictionary";
  float_error = "not a float";
}

abbrev thinker : Node
thinker = record { header = header (pos 7) NodeType.think []; subplan = none }

abbrev think_spec : LlmNodeSpec
think_spec = record {
  context_label = "Context from prior nodes:";
  output_key = "reasoning";
  default_confidence = float_07;
}

abbrev pieces : List Chunk
pieces =
    record { text = codes "{\"reasoning\": \"fi"; tokens_used = none }
    ∷ record { text = codes "ne"; tokens_used = some 4 }
    ∷ []

execute_llm_node_once-stream_example :
    ((execute_llm_node_once reading true thinker think_spec pieces StreamEnd.finished).0
      ≡ (execute_llm_node_once reading false thinker think_spec pieces StreamEnd.finished).0)
    × (concat (execute_llm_node_once reading true thinker think_spec pieces StreamEnd.finished).1
        ≡ (if is_streaming NodeType.think
            then (feed_all reading.chr_of_hex (new_streamer (codes "reasoning")) (texts pieces)).1
            else []))
execute_llm_node_once-stream_example =
    execute_llm_node_once-stream reading thinker think_spec pieces StreamEnd.finished

abbrev cut_off : Chars
cut_off = codes "{\"reasoning\": \"fine"

salvage_lem_example :
    after_stream reading (pos 7) think_spec StreamEnd.finished cut_off 4
    ≡ Attempt.returns
        (record (nested_result (pos 7) NodeStatus.completed (Json.str "text") float_07 none) {
          tokens_used = 4;
        })
unfolding llm_node_spec feed new_streamer read feed_char scan_for_marker find starts_with drop
    unescape
salvage_lem_example =
    salvage_lem reading thinker think_spec cut_off (codes "fine")
      (feed reading.chr_of_hex (new_streamer (codes "reasoning")) cut_off).0 4 refl refl refl refl

-- A tool that answers, and a gate whose model is not there.
abbrev answering : ToolHarness
answering = record {
  funcs = ("write_file", λ args. ok (Json.str "done")) ∷ [];
  schemas = [];
  risks = [];
}

abbrev no_gate : List Chunk × StreamEnd
no_gate = ([], StreamEnd.unavailable "no provider")

abbrev gated : Surroundings
gated = with_models (λ raw. none) surroundings (pieces, StreamEnd.finished) no_gate

no_object :
    NoObject
      (λ raw. none)
      (read_reply (λ raw. none) (collected [] (StreamEnd.unavailable "no provider")))
unfolding read_reply collected
no_object fields e = ground (arith, e)

answering_approved : approve_tool_call careful answering (some channel) true "write_file" ≡ true
unfolding approve_tool_call effective_tool_policy is_always_allowed risk_for lookup elem
answering_approved = refl

execute_tool-open_example : execute_tool careful answering (some channel) gated write_node ≡ (
  tool_result write_node NodeStatus.completed
      (Json.str "done")
      (some (call_args gated write_node))
      one_float
      false
      none,
  ("write_file", call_args gated write_node) ∷ [],
)
unfolding execute lookup is_empty_output
execute_tool-open_example =
    execute_tool-open (λ raw. none) careful answering (some channel) surroundings write_node
      "write_file" (Json.str "done") (pieces, StreamEnd.finished) no_gate refl answering_approved
      refl refl no_object
