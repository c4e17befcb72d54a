-- ===== src/Planner/Repair/Terminal.antt =====
-- What the repair of a plan without a result node does to a list of nodes.
use glassrail.Common.{
  Bool, Bool-cases, In, List, Option-cases, [], any, ap, arith, false, inl, inr, refl, some, subst,
  sym, true, ℤ, ◌++◌, ◌∙◌, ◌∷◌, ◌≡◌, ◌⊎◌,
}
use glassrail.Core.{Json, Items, Members}
use glassrail.Planner.Payload.{get, is_text, as_int}
use glassrail.Planner.Repair.{
  single_terminal_synthesis, typed_nodes, node_ids, next_id, result_node, has_result, append_result,
}
use glassrail.Planner.Repair.Fresh.{next_id-fresh, node_ids-elem}
use glassrail.Planner.Repair.Sinks.{IsSink, single_terminal_synthesis_lem}

-- `after` is `before` with a result node that depends on the one synthesis sink, and on nothing else.
pub record IsEnded (before after : List Json) : Type 0 where
  pub new_node : Members
  pub appended : after ≡ before ++ Json.obj new_node ∷ []
  pub no_result :
      (m : Members) → In m (typed_nodes before) → is_text (get "type" m) "result" ≡ false
  pub result : is_text (get "type" new_node) "result" ≡ true
  pub new_id : ℤ
  pub named : as_int (get "id" new_node) ≡ some new_id
  pub fresh : (m : Members) → In m (typed_nodes before) → ¬ (as_int (get "id" m) ≡ some new_id)
  pub sink : ℤ
  pub is_sink : IsSink (typed_nodes before) sink
  pub only_sink : (other : ℤ) → IsSink (typed_nodes before) other → other ≡ sink
  pub depends :
      get "context_needed" new_node ≡ some (Json.arr (Items.cons (Json.int sink) Items.nil))

has_result-none :
    (nodes : List Members) (m : Members)
    → has_result nodes ≡ false
    → In m nodes
    → is_text (get "type" m) "result" ≡ false
unfolding any
has_result-none [] m e h = absurd h
has_result-none (n ∷ nodes) m e (inl same) = rw same (ground (arith, e))
has_result-none (n ∷ nodes) m e (inr h) = has_result-none nodes m (ground (arith, e)) h

ended :
    (before : List Json) (sink : ℤ)
    → has_result (typed_nodes before) ≡ false
    → single_terminal_synthesis (typed_nodes before) ≡ some (some sink)
    → IsEnded before
        (before ++ Json.obj (result_node (next_id (node_ids (typed_nodes before))) sink) ∷ [])
unfolding result_node get is_text as_int
ended before sink f g =
    let nodes = typed_nodes before in
    let new_id = next_id (node_ids nodes) in
    let (is_sink, only_sink) = single_terminal_synthesis_lem nodes sink g in
    record {
      new_node = result_node new_id sink;
      appended = refl;
      no_result = λ m h. has_result-none nodes m f h;
      result = refl;
      new_id = new_id;
      named = refl;
      fresh =
          λ m h e. ground (arith, node_ids-elem nodes m new_id h e, next_id-fresh (node_ids nodes));
      sink = sink;
      is_sink = is_sink;
      only_sink = only_sink;
      depends = refl;
    }

-- A list of nodes that is repaired at all is left as it is; or it has no result node and exactly one
-- synthesis node that no node needs or has in its branches, and a result node is appended, with an id
-- that no node has, which depends on that synthesis node and on nothing else.
pub append_result_lem :
    (before after : List Json)
    → append_result before ≡ some after
    → (after ≡ before) ⊎ IsEnded before after
unfolding append_result
append_result_lem before after e =
    let nodes = typed_nodes before in
    elim (Bool-cases (has_result nodes)) [
      | inl f ↦ inl (ground (arith, e, f))
      | inr f ↦ elim (Option-cases (single_terminal_synthesis nodes)) [
        | inl g ↦ absurd (ground (arith, e, f, g))
        | inr (o, g) ↦ elim (Option-cases o) [
          | inl h ↦ inl (ground (arith, e, f, g, h))
          | inr (sink, h) ↦
              let same : before ++ Json.obj (result_node (next_id (node_ids nodes)) sink) ∷ []
                  ≡ after =
                ground (arith, e, f, g, h) in
              inr (subst (IsEnded before) same (ended before sink f (g ∙ ap some h)))
        ]
      ]
    ]

typed_nodes-append :
    (values : List Json) (node : Members)
    → typed_nodes (values ++ Json.obj node ∷ []) ≡ typed_nodes values ++ node ∷ []
unfolding typed_nodes
typed_nodes-append [] node = refl
typed_nodes-append (Json.obj m ∷ values) node = ap (λ ns. m ∷ ns) (typed_nodes-append values node)
typed_nodes-append (Json.null ∷ values) node = typed_nodes-append values node
typed_nodes-append (Json.bool b ∷ values) node = typed_nodes-append values node
typed_nodes-append (Json.int z ∷ values) node = typed_nodes-append values node
typed_nodes-append (Json.float f ∷ values) node = typed_nodes-append values node
typed_nodes-append (Json.str s ∷ values) node = typed_nodes-append values node
typed_nodes-append (Json.arr vs ∷ values) node = typed_nodes-append values node

any-append_one :
    (p : Members → Bool) (nodes : List Members) (node : Members)
    → p node ≡ true
    → any p (nodes ++ node ∷ []) ≡ true
unfolding any
any-append_one p [] node e = ground (arith, e)
any-append_one p (n ∷ nodes) node e = ground (arith, any-append_one p nodes node e)

-- Repairing a list of nodes twice is repairing it once.
pub append_result_idem :
    (before after : List Json)
    → append_result before ≡ some after
    → append_result after ≡ some after
append_result_idem before after e = elim (append_result_lem before after e) [
  | inl same ↦ subst (λ vs. append_result vs ≡ some vs) (sym same) (e ∙ ap some same)
  | inr repaired ↦
      let ends : has_result (typed_nodes after) ≡ true =
        ap (λ vs. has_result (typed_nodes vs)) repaired.appended
        ∙ ap has_result (typed_nodes-append before repaired.new_node)
        ∙ any-append_one (λ node. is_text (get "type" node) "result") (typed_nodes before)
            repaired.new_node repaired.result in
      unfold append_result in ground (arith, ends)
]
