-- ===== src/Validator/Accepted.antt =====
-- What `validate` establishes of a plan and of all plans nested in it.
use glassrail.Common.{
  >>=-eq-ok, >>=_congr, Bool, Bool-cases, List, [], ap, arith, false, inl, inr, length, none, ok,
  ok_injective, refl, subst, suc, true, ℤ, ◌>>=◌, ◌>>◌, ◌∷◌, ◌≡◌, ◌⊎◌,
}
use glassrail.Core.{
  Node, NodeType, Plan, Nodes, Subplan, Header, node_list, nodes, sorted_node_ids, is_type,
}
use glassrail.Config.{Settings}
use glassrail.Harness.{ToolHarness}
use glassrail.Validator.Errors.{Checked}
use glassrail.Validator.Topo.{Edge, ids, id_set, node_edges, collect_edges, topo_sort}
use glassrail.Validator.Level.{IsAccepted, limit_of, check_level-IsAccepted}
use glassrail.Validator.Validate.{
  check_level, check_subplan_cap, validate_plan, validate_nodes, validate_subplan, validate,
}

-- The headers of a list of nodes, and the nodes without their nested plans.
abbrev headers : Nodes → List Header
headers Nodes.nil = []
headers (Nodes.cons hd sub ns) = hd ∷ headers ns

abbrev bare : List Header → List Node
bare [] = []
bare (hd ∷ hds) = record { header = hd; subplan = none } ∷ bare hds

-- `topo_sort` does not look at nested plans.
ids-bare : (ns : Nodes) → ids (node_list ns) ≡ ids (bare (headers ns))
unfolding node_list
ids-bare Nodes.nil = refl
ids-bare (Nodes.cons hd sub ns) = ap (λ is. hd.id ∷ is) (ids-bare ns)

length-bare : (ns : Nodes) → length (node_list ns) ≡ length (bare (headers ns))
unfolding node_list
length-bare Nodes.nil = refl
length-bare (Nodes.cons hd sub ns) = ap suc (length-bare ns)

collect_edges-bare :
    (all_ids : List ℤ) (ns : Nodes) (es : List Edge)
    → collect_edges all_ids (node_list ns) es ≡ collect_edges all_ids (bare (headers ns)) es
unfolding collect_edges node_list
collect_edges-bare all_ids Nodes.nil es = refl
collect_edges-bare all_ids (Nodes.cons hd sub ns) es =
    >>=_congr (node_edges all_ids (record { header = hd; subplan = none }) es)
      (λ mid. collect_edges-bare all_ids ns mid)

topo_sort-bare : (ns : Nodes) → topo_sort (node_list ns) ≡ topo_sort (bare (headers ns))
unfolding topo_sort
topo_sort-bare ns =
    rw (ids-bare ns, length-bare ns, collect_edges-bare (id_set (ids (bare (headers ns)))) ns [])
      refl

-- `p'` is the plan `p` as the validator leaves it: every level of it was accepted, and its sorted
-- ids, and those of each nested plan, are filled in. Nothing else differs.
mutual
  pub IsValidated : Settings → ToolHarness → (is_subplan : Bool) → (p p' : Plan) → Type 0
  IsValidated s h is_subplan (Plan.plan ns old) (Plan.plan ns' sorted') =
      IsAccepted s h (limit_of s is_subplan) (node_list ns) sorted'
      × (check_subplan_cap s h (node_list ns) ≡ ok tt)
      × AreValidated s h ns ns'

  pub AreValidated : Settings → ToolHarness → (ns ns' : Nodes) → Type 0
  AreValidated s h Nodes.nil Nodes.nil = Unit
  AreValidated s h (Nodes.cons hd sub ns) (Nodes.cons hd' sub' ns') =
      (hd ≡ hd') × IsValidatedSubplan s h hd sub sub' × AreValidated s h ns ns'
  AreValidated s h Nodes.nil (Nodes.cons hd' sub' ns') = ⊥
  AreValidated s h (Nodes.cons hd sub ns) Nodes.nil = ⊥

  pub IsValidatedSubplan : Settings → ToolHarness → Header → (sub sub' : Subplan) → Type 0
  IsValidatedSubplan s h hd Subplan.absent Subplan.absent = is_type hd.type NodeType.subplan ≡ false
  IsValidatedSubplan s h hd (Subplan.nested p) (Subplan.nested p') =
      (is_type hd.type NodeType.subplan ≡ true) × IsValidated s h true p p'
      ⊎ (is_type hd.type NodeType.subplan ≡ false) × (p ≡ p')
  IsValidatedSubplan s h hd Subplan.absent (Subplan.nested p') = ⊥
  IsValidatedSubplan s h hd (Subplan.nested p) Subplan.absent = ⊥

module _ (s : Settings) (h : ToolHarness) where
  mutual
    unfolding validate_plan validate_nodes validate_subplan IsValidated AreValidated
        IsValidatedSubplan

    validate_plan-IsValidated :
        (is_subplan : Bool) (p p' : Plan)
        → validate_plan s h is_subplan p ≡ ok p'
        → IsValidated s h is_subplan p p'
    validate_plan-IsValidated is_subplan (Plan.plan ns old) p' e =
        let rest : List ℤ → Checked Plan =
          λ sorted. (do ns' ← validate_nodes s h ns; ok (Plan.plan ns' sorted)) in
        let (sorted, level, e₁) =
          >>=-eq-ok (check_level s h is_subplan (node_list ns))
            (λ sorted. check_subplan_cap s h (node_list ns) >> rest sorted) e in
        let (_, cap, e₂) = >>=-eq-ok (check_subplan_cap s h (node_list ns)) (λ _. rest sorted) e₁ in
        let (ns', inner, e₃) =
          >>=-eq-ok (validate_nodes s h ns) (λ ns'. ok (Plan.plan ns' sorted)) e₂ in
        subst (IsValidated s h is_subplan (Plan.plan ns old)) (ok_injective e₃) (
          check_level-IsAccepted s h is_subplan (node_list ns) sorted level,
          cap,
          validate_nodes-AreValidated ns ns' inner,
        )

    validate_nodes-AreValidated :
        (ns ns' : Nodes) → validate_nodes s h ns ≡ ok ns' → AreValidated s h ns ns'
    validate_nodes-AreValidated Nodes.nil ns' e =
        subst (AreValidated s h Nodes.nil) (ok_injective e) tt
    validate_nodes-AreValidated (Nodes.cons hd sub ns) ns' e =
        let (sub', first, e₁) =
          >>=-eq-ok (validate_subplan s h hd sub)
            (λ sub'. (do ms ← validate_nodes s h ns; ok (Nodes.cons hd sub' ms))) e in
        let (ms, later, e₂) =
          >>=-eq-ok (validate_nodes s h ns) (λ ms. ok (Nodes.cons hd sub' ms)) e₁ in
        subst (AreValidated s h (Nodes.cons hd sub ns)) (ok_injective e₂) (
          refl,
          validate_subplan-IsValidated hd sub sub' first,
          validate_nodes-AreValidated ns ms later,
        )

    validate_subplan-IsValidated :
        (hd : Header) (sub sub' : Subplan)
        → validate_subplan s h hd sub ≡ ok sub'
        → IsValidatedSubplan s h hd sub sub'
    validate_subplan-IsValidated hd Subplan.absent sub' e =
        elim (Bool-cases (is_type hd.type NodeType.subplan)) [
          | inl f ↦ absurd (ground (arith, e, f))
          | inr f ↦
              subst (IsValidatedSubplan s h hd Subplan.absent) {x = Subplan.absent}
                (ground (arith, e, f)) f
        ]
    validate_subplan-IsValidated hd (Subplan.nested p) sub' e =
        elim (Bool-cases (is_type hd.type NodeType.subplan)) [
          | inl f ↦
              let (p', inner, e₁) =
                >>=-eq-ok (validate_plan s h true p) (λ p'. ok (Subplan.nested p'))
                  (ground (arith, e, f)) in
              subst (IsValidatedSubplan s h hd (Subplan.nested p)) (ok_injective e₁)
                (inl (f, validate_plan-IsValidated true p p' inner))
          | inr f ↦
              subst (IsValidatedSubplan s h hd (Subplan.nested p)) {x = Subplan.nested p}
                (ground (arith, e, f)) (inr (f, refl))
        ]

  headers-AreValidated : (ns ns' : Nodes) → AreValidated s h ns ns' → headers ns ≡ headers ns'
  unfolding AreValidated
  headers-AreValidated Nodes.nil Nodes.nil v = refl
  headers-AreValidated Nodes.nil (Nodes.cons hd' sub' ns') v = absurd v
  headers-AreValidated (Nodes.cons hd sub ns) Nodes.nil v = absurd v
  headers-AreValidated (Nodes.cons hd sub ns) (Nodes.cons hd' sub' ns') (same, _, v) =
      rw (same, headers-AreValidated ns ns' v) refl

  -- A plan that `validate` returns is the given plan, accepted at each level, nested plans included.
  pub validate_sound : (p p' : Plan) → validate s h p ≡ ok p' → IsValidated s h false p p'
  unfolding validate
  validate_sound p p' e = validate_plan-IsValidated false p p' e

  -- The sorted ids of a plan that `validate` returns are those that the sort gives for its nodes.
  pub validate_sorted :
      (p p' : Plan) → validate s h p ≡ ok p' → topo_sort (nodes p') ≡ ok (sorted_node_ids p')
  unfolding nodes sorted_node_ids IsValidated
  validate_sorted (Plan.plan ns old) (Plan.plan ns' sorted') e =
      let (level, _, v) = validate_sound (Plan.plan ns old) (Plan.plan ns' sorted') e in
      rw (topo_sort-bare ns', ← headers-AreValidated ns ns' v, ← topo_sort-bare ns) level.sorted
