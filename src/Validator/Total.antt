-- ===== src/Validator/Total.antt =====
-- The fuel of the nesting check is enough: `validate` never ends because it ran out.
use glassrail.Common.{
  >>=-ne-err, Bool, Bool-cases, Dict, In, List, String, [], arith, beq_refl, count, err, false,
  for_each, inl, inr, int_eq, none, ok, refl, some, string_eq, subst, sym, true, ℤ, ◌>>=◌, ◌>>◌,
  ◌∷◌, ◌≡◌, ◌≤◌,
}
use glassrail.Core.{Node, NodeType, Plan, Nodes, Subplan, Header, node_list, is_type}
use glassrail.Config.{Settings}
use glassrail.Harness.{ToolHarness}
use glassrail.Validator.Errors.{Checked, out_of_fuel}
use glassrail.Validator.Topo.{ids, branch_items, topo_sort}
use glassrail.Validator.Topo.Ends.{Ends, topo_sort-Ends}
use glassrail.Validator.Topo.Order.{topo_sort_sound}
use glassrail.Validator.Contracts.{
  check_node_limit, check_decision_contract, check_tool_field, check_decision_fields,
  check_subplan_field, check_node_contract, check_node_contracts, check_tool_names,
  check_forced_tier, check_forced_tiers,
}
use glassrail.Validator.Nesting.{
  node_at, items_at, check_depth, check_branches, nesting_depth, nesting_fuel,
  check_decision_nesting,
}
use glassrail.Validator.Nesting.Fuel.{nesting_depth_found}
use glassrail.Validator.Validate.{
  check_level, check_subplan_cap, validate_plan, validate_nodes, validate_subplan, validate,
}

for_each-Ends :
    {A : Type 0} (body : A → Checked Unit) (xs : List A)
    → ((x : A) → In x xs → Ends (body x))
    → Ends (for_each body xs)
unfolding for_each
for_each-Ends body [] each e = cc
for_each-Ends body (x ∷ xs) each e =
    >>=-ne-err out_of_fuel (body x) (λ _. for_each body xs) (each x (inl refl))
      (λ _ _. for_each-Ends body xs (λ y m. each y (inr m))) e

check_node_contract-Ends : (n : Node) → Ends (check_node_contract n)
unfolding check_node_contract
check_node_contract-Ends n e =
    >>=-ne-err out_of_fuel (check_tool_field n)
      (λ _. check_decision_fields n >> check_subplan_field n)
      (λ f. unfold check_tool_field in ground (arith, f))
      (λ _ _.
        >>=-ne-err out_of_fuel (check_decision_fields n) (λ _. check_subplan_field n)
          (λ f. unfold check_decision_fields check_decision_contract in ground (arith, f))
          (λ _ _ f. unfold check_subplan_field in ground (arith, f)))
      e

check_forced_tier-Ends : (s : Settings) (n : Node) → Ends (check_forced_tier s n)
unfolding check_forced_tier
check_forced_tier-Ends s n e = ground (arith, e)

node_at-none : (ns : List Node) (i : ℤ) → count i (ids ns) ≡ 0 → node_at ns i ≡ none
unfolding node_at count
node_at-none [] i e = refl
node_at-none (n ∷ ns) i e = ground (arith, e, node_at-none ns i, int_eq.beq_iff n.id i)

node_at-In :
    (ns : List Node) (n : Node) → count n.id (ids ns) ≤ 1 → In n ns → node_at ns n.id ≡ some n
unfolding node_at count
node_at-In [] n once m = absurd m
node_at-In (x ∷ ns) n once (inl same) =
    let alone : count x.id (ids ns) ≡ 0 = ground (arith, once, same, int_eq.beq_iff n.id x.id) in
    subst (λ y. node_at (x ∷ ns) y.id ≡ some y) (sym same)
      (rw (node_at-none ns x.id alone, beq_refl x.id) refl)
node_at-In (x ∷ ns) n once (inr later) = rw (node_at-In ns n (omega (arith, once)) later) refl

module _ (s : Settings) (ns : List Node) (order : List ℤ) (sorted : topo_sort ns ≡ ok order) where
  check_branches-Ends :
      (n : Node) (bs : Dict String (List ℤ))
      → ((b : String) (ts : List ℤ) → In (b, ts) bs → In (b, ts) (items_at ns n.id))
      → Ends (check_branches s ns n bs)
  unfolding check_branches
  check_branches-Ends n [] items e = cc
  check_branches-Ends n ((b, ts) ∷ bs) items e =
      let (d, found) = nesting_depth_found ns order sorted n.id b ts (items b ts (inl refl)) in
      >>=-ne-err out_of_fuel (check_depth s n (nesting_depth (nesting_fuel ns) ns ts 1))
        (λ _. check_branches s ns n bs) (λ f. unfold check_depth in ground (arith, f, found))
        (λ _ _. check_branches-Ends n bs (λ c us m. items c us (inr m))) e

  check_decision_nesting-Ends : Ends (check_decision_nesting s ns)
  unfolding check_decision_nesting items_at is_type
  check_decision_nesting-Ends =
      for_each-Ends (λ n. check_branches s ns n (branch_items n)) ns
        (λ n m.
          check_branches-Ends n (branch_items n)
            (λ b ts i. subst (λ bs. In (b, ts) bs) (sym (own n m)) i))
    where
      own : (n : Node) → In n ns → items_at ns n.id ≡ branch_items n
      own n m = rw (items_at, node_at-In ns n ((topo_sort_sound ns order sorted).1 n.id) m) refl

check_level-Ends :
    (s : Settings) (h : ToolHarness) (is_subplan : Bool) (ns : List Node)
    → Ends (check_level s h is_subplan ns)
unfolding check_level
check_level-Ends s h is_subplan ns =
    >>=-ne-err out_of_fuel (check_node_limit s ns is_subplan) (λ _. after_limit)
      (λ f. unfold check_node_limit in ground (arith, f))
      (λ _ _.
        >>=-ne-err out_of_fuel (check_node_contracts ns) (λ _. after_contracts)
          (unfold check_node_contracts in
            for_each-Ends check_node_contract ns (λ n _. check_node_contract-Ends n))
          (λ _ _.
            >>=-ne-err out_of_fuel (check_tool_names h ns) (λ _. after_names)
              (λ f. unfold check_tool_names in ground (arith, f))
              (λ _ _.
                >>=-ne-err out_of_fuel (check_forced_tiers s ns) (λ _. after_tiers)
                  (unfold check_forced_tiers in
                    for_each-Ends (check_forced_tier s) ns (λ n _. check_forced_tier-Ends s n))
                  (λ _ _.
                    >>=-ne-err out_of_fuel (topo_sort ns) after_sort (topo_sort-Ends ns)
                      (λ order sorted.
                        >>=-ne-err out_of_fuel (check_decision_nesting s ns) (λ _. ok order)
                          (check_decision_nesting-Ends s ns order sorted) (λ _ _ f. cc))))))
  where
    after_sort : List ℤ → Checked (List ℤ)
    after_sort order = check_decision_nesting s ns >> ok order

    after_tiers : Checked (List ℤ)
    after_tiers = topo_sort ns >>= after_sort

    after_names : Checked (List ℤ)
    after_names = check_forced_tiers s ns >> after_tiers

    after_contracts : Checked (List ℤ)
    after_contracts = check_tool_names h ns >> after_names

    after_limit : Checked (List ℤ)
    after_limit = check_node_contracts ns >> after_contracts

module _ (s : Settings) (h : ToolHarness) where
  mutual
    unfolding validate_plan validate_nodes validate_subplan check_subplan_cap

    validate_plan-Ends : (is_subplan : Bool) (p : Plan) → Ends (validate_plan s h is_subplan p)
    validate_plan-Ends is_subplan (Plan.plan ns old) =
        let rest : List ℤ → Checked Plan =
          λ order. (do ns' ← validate_nodes s h ns; ok (Plan.plan ns' order)) in
        >>=-ne-err out_of_fuel (check_level s h is_subplan (node_list ns))
          (λ order. check_subplan_cap s h (node_list ns) >> rest order)
          (check_level-Ends s h is_subplan (node_list ns))
          (λ order _.
            >>=-ne-err out_of_fuel (check_subplan_cap s h (node_list ns)) (λ _. rest order)
              (λ f. ground (arith, f))
              (λ _ _.
                >>=-ne-err out_of_fuel (validate_nodes s h ns) (λ ns'. ok (Plan.plan ns' order))
                  (validate_nodes-Ends ns) (λ _ _ f. cc)))

    validate_nodes-Ends : (ns : Nodes) → Ends (validate_nodes s h ns)
    validate_nodes-Ends Nodes.nil = λ f. cc
    validate_nodes-Ends (Nodes.cons hd sub ns) =
        >>=-ne-err out_of_fuel (validate_subplan s h hd sub)
          (λ sub'. (do ms ← validate_nodes s h ns; ok (Nodes.cons hd sub' ms)))
          (validate_subplan-Ends hd sub)
          (λ sub' _.
            >>=-ne-err out_of_fuel (validate_nodes s h ns) (λ ms. ok (Nodes.cons hd sub' ms))
              (validate_nodes-Ends ns) (λ _ _ f. cc))

    validate_subplan-Ends : (hd : Header) (sub : Subplan) → Ends (validate_subplan s h hd sub)
    validate_subplan-Ends hd Subplan.absent = λ f. ground (arith, f)
    validate_subplan-Ends hd (Subplan.nested p) =
        let go =
          >>=-ne-err out_of_fuel (validate_plan s h true p) (λ p'. ok (Subplan.nested p'))
            (validate_plan-Ends true p) (λ _ _ f. cc) in
        elim (Bool-cases (is_type hd.type NodeType.subplan)) [
          | inl e ↦ rw e go
          | inr e ↦ λ f. ground (arith, e, f)
        ]

  -- `validate` never ends because the fuel of the nesting check ran out: it returns the plan or one of
  -- the validator's errors.
  pub validate_total : (p : Plan) → ¬ (validate s h p ≡ err out_of_fuel)
  unfolding validate
  validate_total p = validate_plan-Ends false p
