-- ===== src/Executor/Subplans/Answers.antt =====
-- Which result a plan's final output is taken from.
use glassrail.Common.{
  Bool-cases, In, List, Option-cases, [], ap, arith, false, inl, inr, lookup, none, refl, reverse,
  some, subst, sym, true, ℤ, ◌++◌, ◌==◌, ◌↔◌, ◌∙◌, ◌∷◌, ◌≡◌, ◌⊎◌, int_eq,
}
use glassrail.Core.{Node, NodeType, NodeResult, NodeStatus, is_type_iff}
use glassrail.Executor.Plans.{
  Results, is_status, first_node, only_uses_skipped_content, candidate, first_candidate,
  final_output_result,
}

is_status_iff : (a b : NodeStatus) → (is_status a b ≡ true) ↔ (a ≡ b)
unfolding is_status
is_status_iff a b = ground arith

-- `n` is the first of the nodes with the id `i`.
pub record IsNodeOf (ns : List Node) (i : ℤ) (n : Node) : Type 0 where
  pub before : List Node
  pub after : List Node
  pub split : ns ≡ before ++ n ∷ after
  pub named : n.id ≡ i
  pub others : (m : Node) → In m before → ¬ (m.id ≡ i)

first_node-IsNodeOf :
    (ns : List Node) (i : ℤ) (n : Node) → first_node ns i ≡ some n → IsNodeOf ns i n
unfolding first_node
first_node-IsNodeOf [] i n e = absurd (ground (arith, e))
first_node-IsNodeOf (m ∷ ns) i n e = elim (Bool-cases (m.id == i)) [
  | inl f ↦
      let same : some m ≡ some n = ground (arith, e, f) in
      let is_m : m ≡ n = ap (λ o. elim o [ none ↦ m | some k ↦ k ]) same in
      record {
        before = [];
        after = ns;
        split = ap (λ k. k ∷ ns) is_m;
        named = ap (λ k. k.id) (sym is_m) ∙ (int_eq.beq_iff m.id i).0 f;
        others = λ k h. absurd h;
      }
  | inr f ↦
      let found = first_node-IsNodeOf ns i n (ground (arith, e, f)) in
      record {
        before = m ∷ found.before;
        after = found.after;
        split = ap (λ xs. m ∷ xs) found.split;
        named = found.named;
        others = passed found.before f found.others;
      }
]
  where
    passed :
        (before : List Node)
        → (m.id == i) ≡ false
        → ((k : Node) → In k before → ¬ (k.id ≡ i))
        → (k : Node) → In k (m ∷ before)
        → ¬ (k.id ≡ i)
    passed before f others k (inl same) h =
        ground (arith, f, (int_eq.beq_iff m.id i).1 (ap (λ x. x.id) (sym same) ∙ h))
    passed before f others k (inr later) h = others k later h

first_node-append :
    (before after : List Node) (i : ℤ) (n : Node)
    → n.id ≡ i
    → ((m : Node) → In m before → ¬ (m.id ≡ i))
    → first_node (before ++ n ∷ after) i ≡ some n
unfolding first_node
first_node-append [] after i n named others = rw (first_node, (int_eq.beq_iff n.id i).1 named) refl
first_node-append (m ∷ before) after i n named others = elim (Bool-cases (m.id == i)) [
  | inl f ↦ absurd (others m (inl refl) ((int_eq.beq_iff m.id i).0 f))
  | inr f ↦ rw (first_node, f) (first_node-append before after i n named (λ k h. others k (inr h)))
]

IsNodeOf-first_node :
    (ns : List Node) (i : ℤ) (n : Node) → IsNodeOf ns i n → first_node ns i ≡ some n
IsNodeOf-first_node ns i n found =
    ap (λ xs. first_node xs i) found.split
    ∙ first_node-append found.before found.after i n found.named found.others

module _ (ns : List Node) (rs : Results) where
  -- The id `i` is that of a node of type `target`, whose content does not come from skipped nodes
  -- only, and which has completed with the result `r`.
  pub record IsEligible (target : NodeType) (i : ℤ) (r : NodeResult) : Type 0 where
    pub node : Node
    pub first : IsNodeOf ns i node
    pub typed : node.type ≡ target
    pub fed : only_uses_skipped_content true ns rs node ≡ false
    pub stored : lookup i rs ≡ some r
    pub completed : r.status ≡ NodeStatus.completed

  candidate-IsEligible :
      (target : NodeType) (i : ℤ) (r : NodeResult)
      → candidate ns rs target i ≡ some r
      → IsEligible target i r
  unfolding candidate
  candidate-IsEligible target i r e = elim (Option-cases (first_node ns i)) [
    | inl f ↦ absurd (ground (arith, e, f))
    | inr (n, f) ↦ elim (Option-cases (lookup i rs)) [
      | inl g ↦ absurd (ground (arith, e, f, g))
      | inr (r', g) ↦ found n r' f g
    ]
  ]
    where
      found :
          (n : Node) (r' : NodeResult)
          → first_node ns i ≡ some n
          → lookup i rs ≡ some r'
          → IsEligible target i r
      found n r' f g =
          let same : some r' ≡ some r = ground (arith, e, f, g) in
          record {
            node = n;
            first = first_node-IsNodeOf ns i n f;
            typed = (is_type_iff n.type target).0 (ground (arith, e, f, g));
            fed = ground (arith, e, f, g);
            stored = g ∙ same;
            completed =
                ap (λ o. elim o [ none ↦ r.status | some k ↦ k.status ]) (sym same)
                ∙ (is_status_iff r'.status NodeStatus.completed).0 (ground (arith, e, f, g));
          }

  IsEligible-candidate :
      (target : NodeType) (i : ℤ) (r : NodeResult)
      → IsEligible target i r
      → candidate ns rs target i ≡ some r
  unfolding candidate
  IsEligible-candidate target i r h =
      rw
        (
          candidate,
          IsNodeOf-first_node ns i h.node h.first,
          (is_type_iff h.node.type target).1 h.typed,
          h.fed,
          h.stored,
          (is_status_iff r.status NodeStatus.completed).1 h.completed,
        )
        refl

  -- Nothing of a type is eligible among the ids.
  abbrev pub NoneOf : List ℤ → NodeType → Type 0
  NoneOf is target = (i : ℤ) (r : NodeResult) → In i is → ¬ IsEligible target i r

  -- `r` is the result of the first eligible id of `is`.
  pub record IsFirst (is : List ℤ) (target : NodeType) (r : NodeResult) : Type 0 where
    pub before : List ℤ
    pub id : ℤ
    pub after : List ℤ
    pub split : is ≡ before ++ id ∷ after
    pub eligible : IsEligible target id r
    pub none_before : NoneOf before target

  skipped-NoneOf :
      (target : NodeType) (i : ℤ) (is : List ℤ)
      → candidate ns rs target i ≡ none
      → NoneOf is target
      → NoneOf (i ∷ is) target
  skipped-NoneOf target i is e later k r (inl same) h =
      ground (arith, e, IsEligible-candidate target i r (subst (λ x. IsEligible target x r) same h))
  skipped-NoneOf target i is e later k r (inr m) h = later k r m h

  first_candidate-NoneOf :
      (target : NodeType) (is : List ℤ) → first_candidate ns rs target is ≡ none → NoneOf is target
  unfolding first_candidate
  first_candidate-NoneOf target [] e = λ k r m h. absurd m
  first_candidate-NoneOf target (i ∷ is) e = elim (Option-cases (candidate ns rs target i)) [
    | inr (r, f) ↦ absurd (ground (arith, e, f))
    | inl f ↦ skipped-NoneOf target i is f (first_candidate-NoneOf target is (ground (arith, e, f)))
  ]

  first_candidate-IsFirst :
      (target : NodeType) (is : List ℤ) (r : NodeResult)
      → first_candidate ns rs target is ≡ some r
      → IsFirst is target r
  unfolding first_candidate
  first_candidate-IsFirst target [] r e = absurd (ground (arith, e))
  first_candidate-IsFirst target (i ∷ is) r e = elim (Option-cases (candidate ns rs target i)) [
    | inr (r', f) ↦ record {
      before = [];
      id = i;
      after = is;
      split = refl;
      eligible = candidate-IsEligible target i r (ground (arith, e, f));
      none_before = λ k q m h. absurd m;
    }
    | inl f ↦
        let first = first_candidate-IsFirst target is r (ground (arith, e, f)) in
        record {
          before = i ∷ first.before;
          id = first.id;
          after = first.after;
          split = ap (λ xs. i ∷ xs) first.split;
          eligible = first.eligible;
          none_before = skipped-NoneOf target i first.before f first.none_before;
        }
  ]

  -- `r` gives the final output: it is the result of the last eligible RESULT node in the order of the
  -- plan; without one of the last SYNTHESIS node, and without one of the last SUMMARY node.
  abbrev pub Supplies : List ℤ → NodeResult → Type 0
  Supplies order r =
      IsFirst (reverse order) NodeType.result r
      ⊎ ((NoneOf (reverse order) NodeType.result) × (IsFirst (reverse order) NodeType.synthesis r))
      ⊎ ((NoneOf (reverse order) NodeType.result)
          × (NoneOf (reverse order) NodeType.synthesis)
          × (IsFirst (reverse order) NodeType.summary r))

  -- No node of these types is eligible.
  abbrev pub Silent : List ℤ → Type 0
  Silent order =
      (NoneOf (reverse order) NodeType.result)
      × (NoneOf (reverse order) NodeType.synthesis)
      × (NoneOf (reverse order) NodeType.summary)

  pub final_output_result_lem :
      (order : List ℤ)
      → ((final_output_result ns order rs ≡ none) × Silent order)
        ⊎ ((r : NodeResult) × (final_output_result ns order rs ≡ some r) × Supplies order r)
  unfolding final_output_result
  final_output_result_lem order =
      let is = reverse order in
      elim (Option-cases (first_candidate ns rs NodeType.result is)) [
        | inr (r, e) ↦ inr (
          r,
          rw (final_output_result, e) refl,
          inl (first_candidate-IsFirst NodeType.result is r e),
        )
        | inl e ↦ elim (Option-cases (first_candidate ns rs NodeType.synthesis is)) [
          | inr (r, f) ↦ inr (
            r,
            rw (final_output_result, e, f) refl,
            inr (
                inl (
                  first_candidate-NoneOf NodeType.result is e,
                  first_candidate-IsFirst NodeType.synthesis is r f,
                )),
          )
          | inl f ↦ elim (Option-cases (first_candidate ns rs NodeType.summary is)) [
            | inr (r, g) ↦ inr (
              r,
              rw (final_output_result, e, f, g) refl,
              inr (
                  inr (
                    first_candidate-NoneOf NodeType.result is e,
                    first_candidate-NoneOf NodeType.synthesis is f,
                    first_candidate-IsFirst NodeType.summary is r g,
                  )),
            )
            | inl g ↦ inl (
              rw (final_output_result, e, f, g) refl,
              (
                first_candidate-NoneOf NodeType.result is e,
                first_candidate-NoneOf NodeType.synthesis is f,
                first_candidate-NoneOf NodeType.summary is g,
              ),
            )
          ]
        ]
      ]
