-- ===== src/Samples/Contexts.antt =====
-- The context of a node and the truncation of a text.
use glassrail.Common.{
  [], arith, codes, elem, int_beq_iff, lookup, none, pos, true, ℤ, ◌∷◌, ◌≡◌, int_eq,
}
use glassrail.Core.{Node, NodeType}
use glassrail.Executor.Plans.{Results}
use glassrail.Executor.Context.{Shown}
use glassrail.Samples.{header, outcome}

abbrev pub shown : Shown
shown = record { show = λ z. codes "1"; type_name = λ t. codes "think"; dumps = λ v. codes "{}" }

abbrev pub reader : Node
reader = record { header = header (pos 2) NodeType.think (pos 1 ∷ []); subplan = none }

abbrev pub few : Results
few = (pos 1, outcome (pos 1) none) ∷ []

abbrev pub more : Results
more = (pos 1, outcome (pos 1) none) ∷ (pos 9, outcome (pos 9) none) ∷ []

pub few_more : (i : ℤ) → elem i reader.context_needed ≡ true → lookup i few ≡ lookup i more
unfolding elem lookup
few_more i m = ground (arith, int_beq_iff i (pos 1), int_beq_iff (pos 1) i)
