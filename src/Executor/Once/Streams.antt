-- ===== src/Executor/Once/Streams.antt =====
-- One call of a model: with a bus and without one, and where its answer is not JSON.
use glassrail.Common.{
  Bool-cases, Chars, List, List-cases, String, [], ap, append-nil, append_assoc, arith, codes,
  concat, false, if◌then◌else◌, inl, inr, int_leb, map, none, not, refl, some, subst, sym, true, ℕ,
  ℤ, ◌++◌, ◌==◌, ◌||◌, ◌∙◌, ◌∷◌, ◌≡◌, string_eq,
}
use mathlib.Core.Option.{some_inj}
use glassrail.Core.{
  float_max, float_min, float_ltb, float_leb, scale, Node, NodeType, NodeStatus, Json, Members,
}
use glassrail.Planner.Payload.{get}
use glassrail.Executor.Streamer.{JsonFieldStreamer, new_streamer, feed, feed_all}
use glassrail.Executor.Retries.{Attempt, clamp_confidence}
use glassrail.Executor.Subplans.{nested_result}
use glassrail.Executor.Once.{
  LlmNodeSpec, llm_node_spec, is_streaming, Chunk, StreamEnd, tokens_after, collect, Reading,
  stream_llm_node, is_nil, failed_once, salvage, read_data, of_fields, of_data, after_stream,
  execute_llm_node_once,
}

-- The texts of chunks.
abbrev pub texts : List Chunk → List Chars
texts cs = map (λ c. c.text) cs

concat-snoc : (xss : List Chars) (xs : Chars) → concat (xss ++ xs ∷ []) ≡ concat xss ++ xs
unfolding concat
concat-snoc [] xs = append-nil xs
concat-snoc (ys ∷ xss) xs =
    ap (λ t. ys ++ t) (concat-snoc xss xs) ∙ sym (append_assoc ys (concat xss) xs)

-- What an event adds to what is published.
abbrev publish : List Chars → Chars → List Chars
publish published [] = published
publish published (x ∷ xs) = published ++ (x ∷ xs) ∷ []

concat-publish :
    (published : List Chars) (text : Chars)
    → concat (publish published text) ≡ concat published ++ text
concat-publish published [] = sym (append-nil (concat published))
concat-publish published (x ∷ xs) = concat-snoc published (x ∷ xs)

-- The confidence that a node type has by default is one that is kept, and its field is another.
abbrev Fine : LlmNodeSpec → Type 0
Fine spec =
    ((spec.output_key == "confidence") ≡ false)
    × (clamp_confidence spec.default_confidence spec.default_confidence ≡ spec.default_confidence)

spec_lem : (t : NodeType) (spec : LlmNodeSpec) → llm_node_spec t ≡ some spec → Fine spec
unfolding llm_node_spec clamp_confidence float_max float_min float_ltb float_leb scale int_leb
spec_lem NodeType.synthesis spec e = subst Fine (some_inj.0 e) (refl, refl)
spec_lem NodeType.think spec e = subst Fine (some_inj.0 e) (refl, refl)
spec_lem NodeType.summary spec e = subst Fine (some_inj.0 e) (refl, refl)
spec_lem NodeType.result spec e = subst Fine (some_inj.0 e) (refl, refl)
spec_lem NodeType.tool spec e = absurd (ground (arith, e))
spec_lem NodeType.decision spec e = absurd (ground (arith, e))
spec_lem NodeType.subplan spec e = absurd (ground (arith, e))

module _ (env : Reading) where
  stream_llm_node_cons :
      (st : JsonFieldStreamer) (parts : Chars) (tokens : ℕ) (published : List Chars) (c : Chunk)
      (cs : List Chunk)
      → stream_llm_node env st parts tokens published (c ∷ cs)
        ≡ stream_llm_node env
            (feed env.chr_of_hex st c.text).0
            (parts ++ c.text)
            (tokens_after tokens c.tokens_used)
            (publish published (feed env.chr_of_hex st c.text).1)
            cs
  unfolding stream_llm_node
  stream_llm_node_cons st parts tokens published c cs =
      elim (List-cases (feed env.chr_of_hex st c.text).1) [
        | inl e ↦ rw e refl
        | inr (x, xs, e) ↦ rw e refl
      ]

  stream_llm_node-collect :
      (st : JsonFieldStreamer) (parts : Chars) (tokens : ℕ) (published : List Chars)
      (cs : List Chunk)
      → (stream_llm_node env st parts tokens published cs).0 ≡ collect parts tokens cs
  unfolding collect stream_llm_node
  stream_llm_node-collect st parts tokens published [] = refl
  stream_llm_node-collect st parts tokens published (c ∷ cs) =
      ap (λ r. r.0) (stream_llm_node_cons st parts tokens published c cs)
      ∙ stream_llm_node-collect (feed env.chr_of_hex st c.text).0 (parts ++ c.text)
          (tokens_after tokens c.tokens_used) (publish published (feed env.chr_of_hex st c.text).1)
          cs

  stream_llm_node-published :
      (st : JsonFieldStreamer) (parts : Chars) (tokens : ℕ) (published : List Chars)
      (cs : List Chunk)
      → concat (stream_llm_node env st parts tokens published cs).1
        ≡ concat published ++ (feed_all env.chr_of_hex st (texts cs)).1
  unfolding feed_all stream_llm_node
  stream_llm_node-published st parts tokens published [] = sym (append-nil (concat published))
  stream_llm_node-published st parts tokens published (c ∷ cs) =
      let (st', new_text) = feed env.chr_of_hex st c.text in
      ap (λ r. concat r.1) (stream_llm_node_cons st parts tokens published c cs)
      ∙ stream_llm_node-published st' (parts ++ c.text) (tokens_after tokens c.tokens_used)
          (publish published new_text) cs
      ∙ ap (λ t. t ++ (feed_all env.chr_of_hex st' (texts cs)).1)
          (concat-publish published new_text)
      ∙ append_assoc (concat published) new_text (feed_all env.chr_of_hex st' (texts cs)).1

  -- Streaming changes nothing but the events: a call with a bus ends with the same attempt as one
  -- without it, whatever the model streams and however the stream ends; and the texts of the events of
  -- a think, synthesis or summary node, put together, are what the streamer of its output field emits
  -- for the chunks, while a node of another type has no such events.
  pub execute_llm_node_once-stream :
      (n : Node) (spec : LlmNodeSpec) (chunks : List Chunk) (ending : StreamEnd)
      → ((execute_llm_node_once env true n spec chunks ending).0
          ≡ (execute_llm_node_once env false n spec chunks ending).0)
        × (concat (execute_llm_node_once env true n spec chunks ending).1 ≡ (
            if is_streaming n.type
            then (feed_all env.chr_of_hex (new_streamer (codes spec.output_key)) (texts chunks)).1
            else []))
  unfolding execute_llm_node_once concat
  execute_llm_node_once-stream n spec chunks ending =
      let start = new_streamer (codes spec.output_key) in
      elim (Bool-cases (is_streaming n.type)) [
        | inl e ↦ rw e (
          (ap (λ r. after_stream env n.id spec ending r.0 r.1)
              (stream_llm_node-collect start [] 0 [] chunks)),
          stream_llm_node-published start [] 0 [] chunks,
        )
        | inr e ↦ rw e (refl, refl)
      ]

  salvaged_data :
      (key : String) (raw text : Chars) (st : JsonFieldStreamer)
      → env.loads raw ≡ none
      → feed env.chr_of_hex (new_streamer (codes key)) raw ≡ (st, text)
      → (st.done || not (is_nil env text)) ≡ true
      → read_data env key raw
        ≡ some (Json.obj (Members.member key (Json.str (env.of_codes text)) Members.end))
  unfolding read_data salvage
  salvaged_data key raw text st broken fed usable =
      rw (read_data, broken, salvage, fed, usable) refl

  unsalvaged_data :
      (key : String) (raw text : Chars) (st : JsonFieldStreamer)
      → env.loads raw ≡ none
      → feed env.chr_of_hex (new_streamer (codes key)) raw ≡ (st, text)
      → (st.done || not (is_nil env text)) ≡ false
      → read_data env key raw ≡ none
  unfolding read_data salvage
  unsalvaged_data key raw text st broken fed useless =
      rw (read_data, broken, salvage, fed, useless) refl

  of_data-salvaged :
      (i : ℤ) (spec : LlmNodeSpec) (raw text : Chars) (tokens : ℕ)
      → Fine spec
      → of_data env i spec raw tokens (
          some
            (Json.obj (Members.member spec.output_key (Json.str (env.of_codes text)) Members.end)))
        ≡ record (nested_result i NodeStatus.completed
            (Json.str (env.of_codes text))
            spec.default_confidence
            none) { tokens_used = tokens }
  unfolding of_data of_fields get
  of_data-salvaged i spec raw text tokens (other, clamped) =
      rw (of_fields, other, (string_eq.beq_iff spec.output_key spec.output_key).1 refl, clamped)
        refl

  -- An answer that is not JSON is saved where it can be: if a think, synthesis, summary or result
  -- node's answer is not blank and cannot be read, the node is COMPLETED with what the streamer finds
  -- of its output field in the whole answer, at the type's default confidence and with the tokens
  -- used, if the field is there and is closed or not empty; and else it is FAILED with the error of
  -- the reading.
  pub salvage_lem :
      (n : Node) (spec : LlmNodeSpec) (raw text : Chars) (st : JsonFieldStreamer) (tokens : ℕ)
      → llm_node_spec n.type ≡ some spec
      → env.is_blank raw ≡ false
      → env.loads raw ≡ none
      → feed env.chr_of_hex (new_streamer (codes spec.output_key)) raw ≡ (st, text)
      → after_stream env n.id spec StreamEnd.finished raw tokens
        ≡ Attempt.returns (
            if st.done || not (is_nil env text)
            then record (nested_result n.id NodeStatus.completed
                (Json.str (env.of_codes text))
                spec.default_confidence
                none) { tokens_used = tokens }
            else failed_once env n.id env.decode_error)
  unfolding after_stream of_data
  salvage_lem n spec raw text st tokens known here broken fed =
      elim (Bool-cases (st.done || not (is_nil env text))) [
        | inl e ↦
            rw
              (
                after_stream,
                here,
                salvaged_data spec.output_key raw text st broken fed e,
                e,
                of_data-salvaged n.id spec raw text tokens (spec_lem n.type spec known),
              )
              refl
        | inr e ↦
            rw (after_stream, here, unsalvaged_data spec.output_key raw text st broken fed e, e)
              refl
      ]
