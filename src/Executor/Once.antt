-- ===== src/Executor/Once.antt =====
-- src/glassrail/executor/executor.py: one call of a model for a node (`_execute_llm_node_once`), with
-- `_stream_llm_node`, and `collect` of src/glassrail/providers/base.py. What the provider streams, the
-- reading of JSON and of a float, and the wording of exceptions are the environment's.
pub mod Streams
use glassrail.Common.{
  Bool, Chars, List, Option, String, [], codes, false, if◌then◌else◌, none, not, some, true, ℕ, ℤ,
  ◌&&◌, ◌++◌, ◌||◌, ◌∷◌,
}
use glassrail.Core.{
  Node, NodeType, NodeResult, NodeStatus, ExecutionState, Json, Members, Float, one_float, float_07,
  float_09, is_type,
}
use glassrail.Planner.Payload.{get, put}
use glassrail.Executor.Context.{Shown, assemble_context}
use glassrail.Executor.Streamer.{JsonFieldStreamer, new_streamer, feed}
use glassrail.Executor.Retries.{Attempt, clamp_confidence}
use glassrail.Executor.Subplans.{direct_dependents, nested_result}

-- `_LLMNodeSpec`
pub record LlmNodeSpec : Type 0 where
  pub context_label : String
  pub output_key : String
  pub default_confidence : Float

-- `_LLM_NODE_SPECS.get`
unfoldable pub llm_node_spec : NodeType → Option LlmNodeSpec
llm_node_spec NodeType.synthesis = some (record {
  context_label = "Context from prior nodes:";
  output_key = "output";
  default_confidence = float_09;
})
llm_node_spec NodeType.think = some (record {
  context_label = "Context from prior nodes:";
  output_key = "reasoning";
  default_confidence = float_07;
})
llm_node_spec NodeType.summary = some (record {
  context_label = "Context to summarise:";
  output_key = "summary";
  default_confidence = float_09;
})
llm_node_spec NodeType.result = some (record {
  context_label = "Context from prior nodes:";
  output_key = "output";
  default_confidence = float_09;
})
llm_node_spec _ = none

-- `node.type in _STREAMING_NODE_TYPES`
unfoldable pub is_streaming : NodeType → Bool
is_streaming NodeType.think = true
is_streaming NodeType.synthesis = true
is_streaming NodeType.summary = true
is_streaming _ = false

-- The content of the user's message.
unfoldable pub user_content : Shown → LlmNodeSpec → Node → ExecutionState → Chars
unfolding assemble_context direct_dependents is_type
user_content shown spec n st =
    (if is_type n.type NodeType.result
      then codes "Original user request: " ++ (codes st.user_request ++ codes "\n\n")
      else [])
    ++ (codes "Task: "
        ++ (codes n.description
            ++ (codes "\n\n"
                ++ (codes spec.context_label
                    ++ (codes "\n"
                        ++ assemble_context shown n st.results (direct_dependents n st) 4000)))))

-- A piece of a provider's stream.
pub record Chunk : Type 0 where
  pub text : Chars
  pub tokens_used : Option ℕ

-- How a stream ends: by itself, or with an exception.
pub data StreamEnd : Type 0 where
  finished : StreamEnd
  -- ProviderUnavailableError
  unavailable : (message : String) → StreamEnd
  broken : (message : String) → StreamEnd

abbrev pub tokens_after : ℕ → Option ℕ → ℕ
tokens_after tokens none = tokens
tokens_after tokens (some t) = t

-- `collect`, with what is joined so far
unfoldable pub collect : (parts : Chars) (tokens : ℕ) → List Chunk → Chars × ℕ
collect parts tokens [] = (parts, tokens)
collect parts tokens (c ∷ cs) = collect (parts ++ c.text) (tokens_after tokens c.tokens_used) cs

-- What the environment of a call decides.
pub record Reading : Type 0 where
  -- `not raw.strip()`
  pub is_blank : Chars → Bool
  -- `json.loads(strip_model_output(raw))`, with none for a JSONDecodeError
  pub loads : Chars → Option Json
  -- `float(value)`, with none for an exception
  pub to_float : Json → Option Float
  pub of_codes : Chars → String
  pub chr_of_hex : Chars → Option ℕ
  -- `str` of the three exceptions
  pub decode_error : String
  pub no_dict_error : String
  pub float_error : String

module _ (env : Reading) where
  -- The loop of `_stream_llm_node`, with the texts of the events so far.
  unfoldable pub stream_llm_node :
      JsonFieldStreamer
      → (parts : Chars) (tokens : ℕ) (published : List Chars) → List Chunk
      → (Chars × ℕ) × List Chars
  unfolding feed
  stream_llm_node st parts tokens published [] = ((parts, tokens), published)
  stream_llm_node st parts tokens published (c ∷ cs) =
      let (st', new_text) = feed env.chr_of_hex st c.text in
      stream_llm_node st' (parts ++ c.text) (tokens_after tokens c.tokens_used)
        (elim new_text [ [] ↦ published | x ∷ xs ↦ published ++ (x ∷ xs) ∷ [] ]) cs

  abbrev pub is_nil : Chars → Bool
  is_nil [] = true
  is_nil (c ∷ cs) = false

  -- The field as the streamer takes it from the whole text, if that is usable.
  unfoldable pub salvage : (output_key : String) → (raw : Chars) → Option Json
  unfolding feed new_streamer
  salvage output_key raw =
      let (streamer, salvaged) = feed env.chr_of_hex (new_streamer (codes output_key)) raw in
      if streamer.done || not (is_nil salvaged)
      then some
          (Json.obj (Members.member output_key (Json.str (env.of_codes salvaged)) Members.end))
      else none

  -- `data`, with none for the JSONDecodeError that is raised again
  unfoldable pub read_data : (output_key : String) → (raw : Chars) → Option Json
  unfolding salvage
  read_data output_key raw = elim (env.loads raw) [
    | some v ↦ some v
    | none ↦ salvage output_key raw
  ]

  abbrev pub failed_once : ℤ → String → NodeResult
  failed_once i message = nested_result i NodeStatus.failed Json.null one_float (some message)

  -- `raw_output if raw_output is not None else raw`
  abbrev pub output_or_raw : Chars → Option Json → Json
  output_or_raw raw none = Json.str (env.of_codes raw)
  output_or_raw raw (some Json.null) = Json.str (env.of_codes raw)
  output_or_raw raw (some v) = v

  -- `float(data.get("confidence", default))`
  abbrev pub raw_confidence : Float → Option Json → Option Float
  raw_confidence default none = some default
  raw_confidence default (some v) = env.to_float v

  -- The result from the fields of the answer.
  unfoldable pub of_fields : ℤ → LlmNodeSpec → (raw : Chars) (tokens : ℕ) → Members → NodeResult
  unfolding get clamp_confidence
  of_fields i spec raw tokens fields =
      elim (raw_confidence spec.default_confidence (get "confidence" fields)) [
        | none ↦ failed_once i env.float_error
        | some value ↦
            record (nested_result i NodeStatus.completed
              (output_or_raw raw (get spec.output_key fields))
              (clamp_confidence value spec.default_confidence) none) { tokens_used = tokens }
      ]

  unfoldable pub of_data : ℤ → LlmNodeSpec → (raw : Chars) (tokens : ℕ) → Option Json → NodeResult
  unfolding of_fields
  of_data i spec raw tokens none = failed_once i env.decode_error
  of_data i spec raw tokens (some (Json.obj fields)) = of_fields i spec raw tokens fields
  of_data i spec raw tokens (some v) = failed_once i env.no_dict_error

  -- After the stream: what `raw` and `tokens` lead to.
  unfoldable pub after_stream : ℤ → LlmNodeSpec → StreamEnd → (raw : Chars) (tokens : ℕ) → Attempt
  unfolding of_data read_data
  after_stream i spec (StreamEnd.unavailable message) raw tokens = Attempt.unavailable message
  after_stream i spec (StreamEnd.broken message) raw tokens =
      Attempt.returns (failed_once i message)
  after_stream i spec StreamEnd.finished raw tokens =
      if env.is_blank raw
      then Attempt.empty_output tokens
      else Attempt.returns (of_data i spec raw tokens (read_data spec.output_key raw))

  -- `_execute_llm_node_once`, on what the model streams: the attempt, and the texts of the events
  unfoldable pub execute_llm_node_once :
      (has_bus : Bool) → Node → LlmNodeSpec → List Chunk → StreamEnd → Attempt × List Chars
  unfolding stream_llm_node collect after_stream is_streaming new_streamer
  execute_llm_node_once has_bus n spec chunks ending =
      if is_streaming n.type && has_bus
      then (let ((raw, tokens), published) =
            stream_llm_node (new_streamer (codes spec.output_key)) [] 0 [] chunks in
          (after_stream n.id spec ending raw tokens, published))
      else (let (raw, tokens) = collect [] 0 chunks in
          (after_stream n.id spec ending raw tokens, []))
