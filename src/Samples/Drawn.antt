-- ===== src/Samples/Drawn.antt =====
-- A small plan as the terminal draws it.
use glassrail.Common.{
  List, [], ap, arith, count, inl, inr, negsuc, none, pos, refl, some, ℕ, ℤ, ◌↔◌, ◌∷◌, ◌≡◌, ◌≤◌,
  int_eq,
}
use glassrail.Core.{NodeStatus}
use glassrail.Gateways.Acp.{SerialNode, PlanTracker, load, entries}
use glassrail.Gateways.Acp.Entries.{NodeEvent, track_all, plan_ids, shown_entries, entries-load}
use glassrail.Gateways.Dag.Layout.{total_width, layout_rows, edges, place_layers, split_edges}
use glassrail.Gateways.Dag.Layout.Rows.{AllFit, layout_rows-AllFit}
use glassrail.Gateways.Dag.Layout.Segments.{Kept}
use glassrail.Gateways.Dag.Layout.Composed.{AllNatural, edges-Kept}
use glassrail.Gateways.Dag.{DagNode}
use glassrail.Gateways.Dag.Layers.{layers}
use glassrail.Gateways.Dag.Layers.Filling.{layer_at}
use glassrail.Gateways.Dag.Layers.Longest.{Grows, Longest, node_ids, layers_total, layers-Longest}

abbrev drawn : ℤ → List ℤ → DagNode
drawn i needs = record {
  id = i;
  node_type = "think";
  description = "";
  tool = none;
  context_needed = needs;
  condition = none;
  branch_targets = [];
  subplan_size = none;
}

abbrev three : List DagNode
three = drawn (pos 1) [] ∷ drawn (pos 2) (pos 1 ∷ []) ∷ drawn (pos 3) (pos 1 ∷ pos 2 ∷ []) ∷ []

-- Two nodes that need each other.
abbrev circle : List DagNode
circle = drawn (pos 1) (pos 2 ∷ []) ∷ drawn (pos 2) (pos 1 ∷ []) ∷ []

layers_total_example : (ls : List (List ℤ)) × (layers circle ≡ some ls)
layers_total_example = layers_total circle

abbrev number : ℤ → ℕ
number (pos n) = n
number (negsuc n) = 0

grows : Grows three number
unfolding count
grows p c (inl (e, m, k)) = elim m [ ]
grows p c (inr (inl (e, m, k))) = elim m [ ]
grows p c (inr (inr (inl (e, m, k)))) =
    ground (arith, ap number e, int_eq.beq_iff p (pos 1), λ (s : p ≡ pos 1). ap number s)
grows p c (inr (inr (inr (inl (e, m, k))))) = elim m [ ]
grows p c (inr (inr (inr (inr (inl (e, m, k)))))) = ground (
  arith,
  ap number e,
  int_eq.beq_iff p (pos 1),
  int_eq.beq_iff p (pos 2),
  λ (s : p ≡ pos 1). ap number s,
  λ (s : p ≡ pos 2). ap number s,
)
grows p c (inr (inr (inr (inr (inr (inl (e, m, k))))))) = elim m [ ]
grows p c (inr (inr (inr (inr (inr (inr h)))))) = absurd h

layers-Longest_example :
    (ls : List (List ℤ)) × (layers three ≡ some ls)
    × ((i : ℕ) (n : ℤ)
        → (count n (layer_at i ls) ≤ 1)
          × ((1 ≤ count n (layer_at i ls)) ↔ ((1 ≤ count n (node_ids three)) × Longest three i n)))
layers-Longest_example = layers-Longest three number grows

layout_rows-AllFit_example :
    AllFit
      (total_width ((pos 1 ∷ []) ∷ (pos 2 ∷ negsuc 0 ∷ []) ∷ []))
      ((pos 1 ∷ []) ∷ (pos 2 ∷ negsuc 0 ∷ []) ∷ [])
      (layout_rows ((pos 1 ∷ []) ∷ (pos 2 ∷ negsuc 0 ∷ []) ∷ []))
layout_rows-AllFit_example = layout_rows-AllFit ((pos 1 ∷ []) ∷ (pos 2 ∷ negsuc 0 ∷ []) ∷ [])

three_natural : AllNatural (node_ids three)
unfolding count
three_natural (pos n) known = (n, refl)
three_natural (negsuc n) known = elim known [ ]

edges-Kept_example :
    (ls : List (List ℤ)) × (layers three ≡ some ls)
    × Kept (place_layers 0 ls []) (split_edges ls (edges three))
edges-Kept_example = edges-Kept three number grows three_natural

abbrev shown_plan : List NodeEvent
shown_plan =
    NodeEvent.finished (pos 1) NodeStatus.failed
    ∷ NodeEvent.started (pos 2)
    ∷ NodeEvent.started (pos 1)
    ∷ []

abbrev serial : ℤ → SerialNode
serial i = record {
  id = i;
  kind = "think";
  description = "look";
  tool = none;
  args_template = none;
}

-- A tracker that shows another plan.
abbrev used_tracker : PlanTracker
used_tracker = record {
  desc = (pos 7, "[think] old") ∷ [];
  kinds = (pos 7, "think") ∷ [];
  tools = (pos 7, none) ∷ [];
  args = [];
  order = pos 7 ∷ [];
  statuses = (pos 1, NodeStatus.failed) ∷ [];
  running = pos 2 ∷ [];
}

entries-load_example :
    entries
      (track_all shown_plan (load (λ s. s) (serial (pos 1) ∷ serial (pos 2) ∷ []) [] used_tracker))
    ≡ shown_entries
        (λ s. s)
        (serial (pos 1) ∷ serial (pos 2) ∷ [])
        shown_plan
        (plan_ids (serial (pos 1) ∷ serial (pos 2) ∷ []) [])
entries-load_example =
    entries-load (λ s. s) (serial (pos 1) ∷ serial (pos 2) ∷ []) [] used_tracker shown_plan
