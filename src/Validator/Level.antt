-- ===== src/Validator/Level.antt =====
-- What the checks of one level of a plan establish, and that they never run out of fuel.
use glassrail.Common.{
  >>=-eq-ok, Bool, Bool-cases, Dict, In, In-map, List, List-cases, Option, Option-cases, Result,
  String, [], ap, arith, false, filter, for_each, if◌then◌else◌, inl, inr, int_leb, is_some, length,
  lookup, negsuc, none, ok, pos, raise_if, refl, some, subst, sym, true, ℕ, ℤ, ◌+◌, ◌>>=◌, ◌>>◌,
  ◌∙◌, ◌∷◌, ◌≡◌, ◌≤◌, string_eq,
}
use glassrail.Core.{Node, NodeType, is_type, is_type_iff}
use glassrail.Config.{Settings, tiers}
use glassrail.Harness.{ToolHarness, unknown_names}
use glassrail.Validator.Errors.{Checked}
use glassrail.Validator.Topo.{ids, branch_items, topo_sort}
use glassrail.Validator.Contracts.{
  check_node_limit, check_decision_contract, check_tool_field, check_decision_fields,
  check_subplan_field, check_node_contract, check_node_contracts, tool_names, check_tool_names,
  check_forced_tier, check_forced_tiers,
}
use glassrail.Validator.Nesting.{
  check_depth, nesting_depth, nesting_fuel, check_branches, check_decision_nesting,
}
use glassrail.Validator.Nesting.Depth.{Chain, nesting_depth_lem}
use glassrail.Validator.Validate.{check_level}

pub for_each-eq-ok {ℓ} :
    {E : Type ℓ} {A : Type 0} (body : A → Result E Unit) (xs : List A)
    → for_each body xs ≡ ok tt
    → (x : A) → In x xs
    → body x ≡ ok tt
unfolding for_each
for_each-eq-ok body [] h x m = absurd m
for_each-eq-ok body (y ∷ ys) h x m =
    let (u, first, rest) = >>=-eq-ok (body y) (λ _. for_each body ys) h in
    elim m [
      | inl e ↦ subst (λ z. body z ≡ ok tt) (sym e) first
      | inr later ↦ for_each-eq-ok body ys rest x later
    ]

raise_if-eq-ok {ℓ} : {E : Type ℓ} (b : Bool) (e : E) → raise_if b e ≡ ok tt → b ≡ false
raise_if-eq-ok true e h = cc
raise_if-eq-ok false e h = refl

unknown_names_none :
    (h : ToolHarness) (names : List (Option String))
    → unknown_names h names ≡ []
    → (t : String) → In (some t) names
    → is_some (lookup t h.funcs) ≡ true
unfolding unknown_names
unknown_names_none h [] e t m = absurd m
unknown_names_none h (none ∷ names) e t (inl f) = absurd (ground arith)
unknown_names_none h (none ∷ names) e t (inr m) = unknown_names_none h names e t m
unknown_names_none h (some u ∷ names) e t (inl f) = ground (arith, f)
unknown_names_none h (some u ∷ names) e t (inr m) = unknown_names_none h names (ground arith) t m

In-filter :
    (p : Node → Bool) (n : Node) (ns : List Node) → In n ns → p n ≡ true → In n (filter p ns)
unfolding filter
In-filter p n [] m e = m
In-filter p n (x ∷ ns) m e = elim (Bool-cases (p x)) [
  | inl f ↦ rw f (elim m [ inl same ↦ inl same | inr later ↦ inr (In-filter p n ns later e) ])
  | inr f ↦ rw f (elim m [
    | inl same ↦ absurd (ground (arith, ap p same))
    | inr later ↦ In-filter p n ns later e
  ])
]

-- What the checks establish of the nodes of one level, whose sorted ids are `order`.
pub record IsAccepted (s : Settings) (h : ToolHarness) (limit : ℤ) (ns : List Node) (order : List ℤ)
    : Type 0 where
  pub sorted : topo_sort ns ≡ ok order
  pub few : int_leb (pos (length ns)) limit ≡ true
  -- a tool node names a registered tool
  pub tools :
      (n : Node)
      → In n ns
      → n.type ≡ NodeType.tool
      → (t : String) × (n.tool ≡ some t) × (is_some (lookup t h.funcs) ≡ true)
  pub decisions :
      (n : Node) → In n ns → n.type ≡ NodeType.decision → check_decision_contract n ≡ ok tt
  pub subplans : (n : Node) → In n ns → is_some n.subplan ≡ is_type n.type NodeType.subplan
  pub tiers :
      (n : Node) (t : ℤ)
      → In n ns
      → n.forced_tier ≡ some t
      → (int_leb (pos 0) t ≡ true) × (int_leb t (pos 3) ≡ true)
  -- no chain of nested decisions is longer than allowed
  pub shallow :
      (n : Node) (b : String) (ts : List ℤ) (k : ℕ)
      → In n ns
      → In (b, ts) (branch_items n)
      → Chain ns ts k
      → int_leb (pos (1 + k)) s.max_decision_nesting_depth ≡ true

contract_parts :
    (n : Node)
    → check_node_contract n ≡ ok tt
    → (check_tool_field n ≡ ok tt)
      × (check_decision_fields n ≡ ok tt)
      × (check_subplan_field n ≡ ok tt)
unfolding check_node_contract
contract_parts n h =
    let (u, a, rest) =
      >>=-eq-ok (check_tool_field n) (λ _. check_decision_fields n >> check_subplan_field n) h in
    let (v, b, c) = >>=-eq-ok (check_decision_fields n) (λ _. check_subplan_field n) rest in
    (a, b, c)

tool_named :
    (n : Node)
    → check_tool_field n ≡ ok tt
    → n.type ≡ NodeType.tool
    → (t : String) × (n.tool ≡ some t)
unfolding check_tool_field is_type
tool_named n h e = elim (Option-cases n.tool) [
  | inl f ↦ absurd (ground (arith, f, e))
  | inr (t, f) ↦ (t, f)
]

tools_lem :
    (h : ToolHarness) (ns : List Node) (n : Node)
    → check_node_contract n ≡ ok tt
    → check_tool_names h ns ≡ ok tt
    → In n ns
    → n.type ≡ NodeType.tool
    → (t : String) × (n.tool ≡ some t) × (is_some (lookup t h.funcs) ≡ true)
tools_lem h ns n contract names m e =
    let (t, f) = tool_named n (contract_parts n contract).0 e in
    (
      t,
      f,
      unknown_names_none h (tool_names ns) none_unknown t
          (subst (λ o. In o (tool_names ns)) f member),
    )
  where
    none_unknown : unknown_names h (tool_names ns) ≡ []
    none_unknown = elim (List-cases (unknown_names h (tool_names ns))) [
      | inl f ↦ f
      | inr (x, xs, f) ↦ absurd (unfold check_tool_names in ground (arith, names, f))
    ]

    member : In n.tool (tool_names ns)
    member =
        unfold tool_names in
        In-map (λ x. x.tool) n (filter (λ x. is_type x.type NodeType.tool) ns)
          (In-filter (λ x. is_type x.type NodeType.tool) n ns m
            ((is_type_iff n.type NodeType.tool).1 e))

decision_contract :
    (n : Node)
    → check_node_contract n ≡ ok tt
    → n.type ≡ NodeType.decision
    → check_decision_contract n ≡ ok tt
decision_contract n h e =
    unfold check_decision_fields in
    ground (arith, (contract_parts n h).1, is_type_iff n.type NodeType.decision)

subplan_field :
    (n : Node) → check_node_contract n ≡ ok tt → is_some n.subplan ≡ is_type n.type NodeType.subplan
subplan_field n h = unfold check_subplan_field in ground (arith, (contract_parts n h).2)

tiers_lem :
    (s : Settings) (n : Node) (t : ℤ)
    → check_forced_tier s n ≡ ok tt
    → n.forced_tier ≡ some t
    → (int_leb (pos 0) t ≡ true) × (int_leb t (pos 3) ≡ true)
unfolding check_forced_tier tiers
tiers_lem s n t h e = ground (arith, h, e)

int_leb_mono : (a b : ℕ) (z : ℤ) → a ≤ b → int_leb (pos b) z ≡ true → int_leb (pos a) z ≡ true
unfolding int_leb
int_leb_mono a b (pos n) le h = ground arith
int_leb_mono a b (negsuc n) le h = absurd (ground arith)

module _ (s : Settings) (ns : List Node) (n : Node) where
  abbrev depth_of : List ℤ → Option ℕ
  depth_of ts = nesting_depth (nesting_fuel ns) ns ts 1

  branch_depth :
      (bs : Dict String (List ℤ))
      → check_branches s ns n bs ≡ ok tt
      → (b : String) (ts : List ℤ) → In (b, ts) bs
      → (d : ℕ) × (depth_of ts ≡ some d) × (int_leb (pos d) s.max_decision_nesting_depth ≡ true)
  unfolding check_branches
  branch_depth [] h b ts m = absurd m
  branch_depth ((c, us) ∷ bs) h b ts m =
      let (u, first, rest) =
        >>=-eq-ok (check_depth s n (depth_of us)) (λ _. check_branches s ns n bs) h in
      elim m [
        | inl e ↦ subst (λ x. Found x) (sym (ap (λ x. x.1) e)) (found us first)
        | inr later ↦ branch_depth bs rest b ts later
      ]
    where
      Found : List ℤ → Type 0
      Found xs =
          (d : ℕ) × (depth_of xs ≡ some d) × (int_leb (pos d) s.max_decision_nesting_depth ≡ true)

      found : (xs : List ℤ) → check_depth s n (depth_of xs) ≡ ok tt → Found xs
      found xs e = elim (Option-cases (depth_of xs)) [
        | inl f ↦ absurd (unfold check_depth in ground (arith, e, f))
        | inr (d, f) ↦ (d, f, unfold check_depth in ground (arith, e, f))
      ]

  shallow_lem :
      check_decision_nesting s ns ≡ ok tt
      → In n ns
      → (b : String) (ts : List ℤ) (k : ℕ) → In (b, ts) (branch_items n)
      → Chain ns ts k
      → int_leb (pos (1 + k)) s.max_decision_nesting_depth ≡ true
  unfolding check_decision_nesting
  shallow_lem h m b ts k i chain =
      let each = for_each-eq-ok (λ x. check_branches s ns x (branch_items x)) ns h n m in
      let (d, e, le) = branch_depth (branch_items n) each b ts i in
      int_leb_mono (1 + k) d s.max_decision_nesting_depth
        ((nesting_depth_lem (nesting_fuel ns) ns ts 1 d e).0 k chain) le

-- The limit on the number of nodes.
abbrev pub limit_of : Settings → (is_subplan : Bool) → ℤ
limit_of s is_subplan = if is_subplan then s.max_subplan_nodes else s.max_plan_nodes

pub check_level-IsAccepted :
    (s : Settings) (h : ToolHarness) (is_subplan : Bool) (ns : List Node) (order : List ℤ)
    → check_level s h is_subplan ns ≡ ok order
    → IsAccepted s h (limit_of s is_subplan) ns order
unfolding check_level
check_level-IsAccepted s h is_subplan ns order e =
    let (_, few, e₁) = >>=-eq-ok (check_node_limit s ns is_subplan) (λ _. after_limit) e in
    let (_, contracts, e₂) = >>=-eq-ok (check_node_contracts ns) (λ _. after_contracts) e₁ in
    let (_, names, e₃) = >>=-eq-ok (check_tool_names h ns) (λ _. after_names) e₂ in
    let (_, tiers_ok, e₄) = >>=-eq-ok (check_forced_tiers s ns) (λ _. after_tiers) e₃ in
    let (ids, sorted, e₅) = >>=-eq-ok (topo_sort ns) after_sort e₄ in
    let (_, nesting, e₆) = >>=-eq-ok (check_decision_nesting s ns) (λ _. ok ids) e₅ in
    let contract =
      for_each-eq-ok check_node_contract ns (unfold check_node_contracts in contracts) in
    record {
      sorted = sorted ∙ e₆;
      few = unfold check_node_limit in ground (arith, few);
      tools = λ n m t. tools_lem h ns n (contract n m) names m t;
      decisions = λ n m t. decision_contract n (contract n m) t;
      subplans = λ n m. subplan_field n (contract n m);
      tiers = λ n t m f.
          tiers_lem s n t
            (for_each-eq-ok (check_forced_tier s) ns (unfold check_forced_tiers in tiers_ok) n m) f;
      shallow = λ n b ts k m i chain. shallow_lem s ns n nesting m b ts k i chain;
    }
  where
    after_sort : List ℤ → Checked (List ℤ)
    after_sort ids = check_decision_nesting s ns >> ok ids

    after_tiers : Checked (List ℤ)
    after_tiers = topo_sort ns >>= after_sort

    after_names : Checked (List ℤ)
    after_names = check_forced_tiers s ns >> after_tiers

    after_contracts : Checked (List ℤ)
    after_contracts = check_tool_names h ns >> after_names

    after_limit : Checked (List ℤ)
    after_limit = check_node_contracts ns >> after_contracts
