-- ===== src/Gateways/Acp/Loading.antt =====
-- What `load` makes of a serialised plan.
use glassrail.Common.{
  Bool-cases, Dict, List, Option, Option-cases, String, [], ap, append-nil, append_assoc, arith,
  elem, if◌then◌else◌, inl, inr, insert, lookup, lookup-insert, none, refl, some, sym, true, ℤ,
  ◌++◌, ◌==◌, ◌∙◌, ◌∷◌, ◌≡◌, ◌⊎◌, int_eq,
}
use Prim.Native.String.{◌++◌ as text_append}
use glassrail.Gateways.Acp.{SerialNode, PlanTracker, table, load_ids, load_node, load_order, load}

-- The last node of an id.
abbrev pub last_node : ℤ → List SerialNode → Option SerialNode
last_node i [] = none
last_node i (n ∷ ns) = elim (last_node i ns) [
  | some m ↦ some m
  | none ↦ if n.id == i then some n else none
]

last_node-id : (i : ℤ) (ns : List SerialNode) (n : SerialNode) → last_node i ns ≡ some n → n.id ≡ i
last_node-id i [] n e = absurd (ground (arith, e))
last_node-id i (m ∷ ns) n e = elim (Option-cases (last_node i ns)) [
  | inr (k, f) ↦ last_node-id i ns n (f ∙ sym (rw f refl) ∙ e)
  | inl f ↦ elim (Bool-cases (m.id == i)) [
    | inl g ↦
        let same : some m ≡ some n = ground (arith, e, f, g) in
        ap (λ o. elim o [ none ↦ n.id | some k ↦ k.id ]) (sym same) ∙ (int_eq.beq_iff m.id i).0 g
    | inr g ↦ absurd (ground (arith, e, f, g))
  ]
]

lookup-table :
    (i : ℤ) (ns : List SerialNode) (d : Dict ℤ SerialNode)
    → lookup i (table ns d) ≡ elim (last_node i ns) [ some n ↦ some n | none ↦ lookup i d ]
lookup-table i [] d = refl
lookup-table i (n ∷ ns) d =
    ground (arith, lookup-table i ns (insert n.id n d), lookup-insert n.id i n d)

pub lookup-table_nil : (i : ℤ) (ns : List SerialNode) → lookup i (table ns []) ≡ last_node i ns
unfolding lookup
lookup-table_nil i ns = ground (arith, lookup-table i ns [])

module _ (strip : String → String) (ns : List SerialNode) where
  -- The description that is shown of a node.
  abbrev pub label : SerialNode → String
  label n = strip (text_append "[" (text_append n.kind (text_append "] " n.description)))

  -- The ids that are ids of nodes.
  abbrev pub known_ids : List ℤ → List ℤ
  known_ids [] = []
  known_ids (i ∷ is) =
      let rest = known_ids is in elim (last_node i ns) [ none ↦ rest | some n ↦ i ∷ rest ]

  desc-load_node :
      (i : ℤ) (n m : SerialNode) (t : PlanTracker)
      → (m.id ≡ i → m ≡ n)
      → (m.id ≡ i) ⊎ (lookup i t.desc ≡ some (label n))
      → lookup i (load_node strip m t).desc ≡ some (label n)
  unfolding load_node
  desc-load_node i n m t same h = elim (Bool-cases (m.id == i)) [
    | inl e ↦
        rw (lookup-insert m.id i (label m) t.desc, e)
          (ap (λ k. some (label k)) (same ((int_eq.beq_iff m.id i).0 e)))
    | inr e ↦
        rw (lookup-insert m.id i (label m) t.desc, e)
          (elim h [
            | inl f ↦ absurd (ground (arith, e, f, (int_eq.beq_iff m.id i).1 f))
            | inr f ↦ f
          ])
  ]

  -- What a node is described by, after its id is loaded.
  desc-load_order :
      (i : ℤ) (n : SerialNode)
      → last_node i ns ≡ some n
      → (is : List ℤ) (t : PlanTracker) → (elem i is ≡ true) ⊎ (lookup i t.desc ≡ some (label n))
      → lookup i (load_order strip (table ns []) is t).desc ≡ some (label n)
  unfolding load_order elem
  desc-load_order i n known [] t (inl h) = absurd (ground (arith, h))
  desc-load_order i n known [] t (inr h) = h
  desc-load_order i n known (j ∷ is) t h = elim (Option-cases (last_node j ns)) [
    | inl e ↦ rw (load_order, lookup-table_nil j ns, e) (desc-load_order i n known is t (skips e h))
    | inr (m, e) ↦
        rw (load_order, lookup-table_nil j ns, e)
          (desc-load_order i n known is (load_node strip m t) (loads m e h))
  ]
    where
      skips :
          last_node j ns ≡ none
          → (elem i (j ∷ is) ≡ true) ⊎ (lookup i t.desc ≡ some (label n))
          → (elem i is ≡ true) ⊎ (lookup i t.desc ≡ some (label n))
      skips e (inr f) = inr f
      skips e (inl f) = elim (Bool-cases (i == j)) [
        | inr g ↦ inl (ground (arith, f, g))
        | inl g ↦
            let gone : last_node i ns ≡ none =
              ap (λ k. last_node k ns) ((int_eq.beq_iff i j).0 g) ∙ e in
            absurd (ground (arith, gone, known))
      ]

      same : (m : SerialNode) → last_node j ns ≡ some m → m.id ≡ i → m ≡ n
      same m e f =
          let one : some m ≡ some n =
            sym e ∙ ap (λ k. last_node k ns) (sym (last_node-id j ns m e) ∙ f) ∙ known in
          ap (λ o. elim o [ none ↦ n | some k ↦ k ]) one

      loads :
          (m : SerialNode)
          → last_node j ns ≡ some m
          → (elem i (j ∷ is) ≡ true) ⊎ (lookup i t.desc ≡ some (label n))
          → (elem i is ≡ true) ⊎ (lookup i (load_node strip m t).desc ≡ some (label n))
      loads m e (inr f) = inr (desc-load_node i n m t (same m e) (inr f))
      loads m e (inl f) = elim (Bool-cases (i == j)) [
        | inr g ↦ inl (ground (arith, f, g))
        | inl g ↦ inr (
            desc-load_node i n m t (same m e)
              (inl (last_node-id j ns m e ∙ sym ((int_eq.beq_iff i j).0 g))))
      ]

  order-load_order :
      (is : List ℤ) (t : PlanTracker)
      → (load_order strip (table ns []) is t).order ≡ t.order ++ known_ids is
  unfolding load_order load_node
  order-load_order [] t = sym (append-nil t.order)
  order-load_order (i ∷ is) t = elim (Option-cases (last_node i ns)) [
    | inl e ↦
        rw (load_order, lookup-table_nil i ns, e)
          (order-load_order is t ∙ ap (λ ks. t.order ++ ks) (sym (unknown e)))
    | inr (n, e) ↦
        rw (load_order, lookup-table_nil i ns, e)
          (order-load_order is (load_node strip n t)
            ∙ append_assoc t.order (n.id ∷ []) (known_ids is)
            ∙ ap (λ ks. t.order ++ ks) (sym (known n e)))
  ]
    where
      unknown : last_node i ns ≡ none → known_ids (i ∷ is) ≡ known_ids is
      unknown e = rw (known_ids, e) refl

      known : (n : SerialNode) → last_node i ns ≡ some n → known_ids (i ∷ is) ≡ n.id ∷ known_ids is
      known n e = rw (known_ids, e) (ap (λ k. k ∷ known_ids is) (sym (last_node-id i ns n e)))

  -- Loading leaves no status, and nothing running.
  Idle-load_order :
      (d : Dict ℤ SerialNode) (is : List ℤ) (t : PlanTracker)
      → (t.statuses ≡ []) × (t.running ≡ [])
      → ((load_order strip d is t).statuses ≡ []) × ((load_order strip d is t).running ≡ [])
  unfolding load_order load_node
  Idle-load_order d [] t idle = idle
  Idle-load_order d (i ∷ is) t idle = elim (Option-cases (lookup i d)) [
    | inl e ↦ rw (load_order, e) (Idle-load_order d is t idle)
    | inr (n, e) ↦ rw (load_order, e) (Idle-load_order d is (load_node strip n t) idle)
  ]

  -- What `load` leaves of any tracker.
  pub record IsLoaded (is : List ℤ) (t : PlanTracker) : Type 0 where
    pub order : t.order ≡ known_ids is
    pub fresh : t.statuses ≡ []
    pub idle : t.running ≡ []
    pub described :
        (i : ℤ) (n : SerialNode)
        → last_node i ns ≡ some n
        → elem i is ≡ true
        → lookup i t.desc ≡ some (label n)

  pub load-IsLoaded :
      (is : List ℤ) (t : PlanTracker) → IsLoaded (load_ids ns is) (load strip ns is t)
  unfolding load
  load-IsLoaded is t =
      let t' = record t {
        desc = [];
        kinds = [];
        tools = [];
        args = [];
        order = [];
        statuses = [];
        running = [];
      } in
      record {
        order = order-load_order (load_ids ns is) t';
        fresh = (Idle-load_order (table ns []) (load_ids ns is) t' (refl, refl)).0;
        idle = (Idle-load_order (table ns []) (load_ids ns is) t' (refl, refl)).1;
        described = λ i n known m. desc-load_order i n known (load_ids ns is) t' (inl m);
      }
