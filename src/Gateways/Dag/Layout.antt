-- ===== src/Gateways/Dag/Layout.antt =====
-- src/glassrail/gateways/tui/dag.py: the edges that are drawn, and where every vertex stands on the
-- grid (`_edges` and `_compute_layout`). The dummies are numbered from -1 downwards.
pub mod Rows
pub mod Segments
pub mod Linked
pub mod Composed
use glassrail.Common.{
  Bool, Dict, List, [], any, elem, if◌then◌else◌, insert, int_beq, int_leb, lookup, map, max,
  negsuc, none, pos, some, sort, suc, zero, ℕ, ℤ, ◌&&◌, ◌*◌, ◌++◌, ◌+◌, ◌-◌, ◌/◌, ◌∷◌, int_eq,
}
use glassrail.Gateways.Dag.{DagNode}
use glassrail.Gateways.Dag.Layers.{id_set}

abbrev pub box_w : ℕ
box_w = 24

abbrev pub box_h : ℕ
box_h = 4

abbrev pub col_gap : ℕ
col_gap = 4

abbrev pub channel : ℕ
channel = 2

abbrev pub Edge : Type 0
Edge = ℤ × ℤ

abbrev pub edge_beq : Edge → Edge → Bool
edge_beq (a, b) (c, d) = int_beq a c && int_beq b d

-- `edges.add(…)`
unfoldable pub add_edge : Edge → List Edge → List Edge
add_edge e es = if any (edge_beq e) es then es else e ∷ es

-- `{n.id: n for n in nodes}`
unfoldable pub by_id : List DagNode → Dict ℤ DagNode → Dict ℤ DagNode
unfolding insert
by_id [] d = d
by_id (n ∷ ns) d = by_id ns (insert n.id n d)

unfoldable pub dep_edges : (ids : List ℤ) (child : ℤ) → List ℤ → List Edge → List Edge
unfolding add_edge elem
dep_edges ids child [] es = es
dep_edges ids child (dep ∷ deps) es =
    dep_edges ids child deps (if elem dep ids then add_edge (dep, child) es else es)

unfoldable pub target_edges : (ids : List ℤ) (parent : ℤ) → List ℤ → List Edge → List Edge
unfolding add_edge elem
target_edges ids parent [] es = es
target_edges ids parent (t ∷ ts) es =
    target_edges ids parent ts (if elem t ids then add_edge (parent, t) es else es)

unfoldable pub node_edges : (ids : List ℤ) → Dict ℤ DagNode → List Edge → List Edge
unfolding dep_edges target_edges
node_edges ids [] es = es
node_edges ids ((k, n) ∷ d) es =
    node_edges ids d
      (target_edges ids n.id n.branch_targets (dep_edges ids n.id n.context_needed es))

-- `a <= b` on pairs
abbrev pub edge_leb : Edge → Edge → Bool
edge_leb (a, b) (c, d) = if int_beq a c then int_leb b d else int_leb a c

-- `_edges`
unfoldable pub edges : List DagNode → List Edge
unfolding by_id node_edges sort id_set
edges ns = sort edge_leb (node_edges (id_set ns) (by_id ns []) [])

-- The local variables of the first part of `_compute_layout`; `dummies` is -1 less `next_dummy`.
pub record Split : Type 0 where
  pub items : List (List ℤ)
  pub vlayer : Dict ℤ ℕ
  pub segments : List Edge
  pub dummies : ℕ

-- `vlayer[key]`: every vertex of an edge is a key.
unfoldable pub layer_of : Dict ℤ ℕ → ℤ → ℕ
unfolding lookup
layer_of vlayer key = elim (lookup key vlayer) [ none ↦ 0 | some i ↦ i ]

-- `items[i].append(item)`
unfoldable pub append_item : ℕ → ℤ → List (List ℤ) → List (List ℤ)
append_item i item [] = []
append_item zero item (row ∷ rows) = (row ++ item ∷ []) ∷ rows
append_item (suc i) item (row ∷ rows) = row ∷ append_item i item rows

-- A dummy in layer `i`, and the segment from `prev` to it.
unfoldable pub add_dummy : (i : ℕ) (prev : ℤ) → Split → Split
unfolding append_item insert
add_dummy i prev s = record {
  items = append_item i (negsuc s.dummies) s.items;
  vlayer = insert (negsuc s.dummies) i s.vlayer;
  segments = s.segments ++ (prev, negsuc s.dummies) ∷ [];
  dummies = suc s.dummies;
}

-- `for layer_idx in range(lp + 1, lc)`, with the number of its turns, and the segment after it
unfoldable pub split_from : (turns i : ℕ) (prev child : ℤ) → Split → Split
unfolding add_dummy
split_from zero i prev child s = record s { segments = s.segments ++ (prev, child) ∷ [] }
split_from (suc turns) i prev child s =
    split_from turns (suc i) (negsuc s.dummies) child (add_dummy i prev s)

unfoldable pub split_edge : Edge → Split → Split
unfolding split_from layer_of
split_edge (parent, child) s =
    let lp = layer_of s.vlayer parent in
    split_from (layer_of s.vlayer child - suc lp) (suc lp) parent child s

unfoldable pub split_all : List Edge → Split → Split
unfolding split_edge
split_all [] s = s
split_all (e ∷ es) s = split_all es (split_edge e s)

-- `{nid: i for i, layer in enumerate(self._layers) for nid in layer}`
unfoldable pub place_layer : (i : ℕ) → List ℤ → Dict ℤ ℕ → Dict ℤ ℕ
unfolding insert
place_layer i [] d = d
place_layer i (nid ∷ nids) d = place_layer i nids (insert nid i d)

unfoldable pub place_layers : (i : ℕ) → List (List ℤ) → Dict ℤ ℕ → Dict ℤ ℕ
unfolding place_layer
place_layers i [] d = d
place_layers i (layer ∷ layers) d = place_layers (suc i) layers (place_layer i layer d)

unfoldable pub split_edges : (layers : List (List ℤ)) → List Edge → Split
unfolding split_all place_layers
split_edges layers es =
    split_all es
      (record { items = layers; vlayer = place_layers 0 layers []; segments = []; dummies = 0 })

-- `_BOX_W if item > 0 else 1`
unfoldable pub item_width : ℤ → ℕ
item_width (pos (suc n)) = box_w
item_width _ = 1

-- An item of a row: its left column and its centre.
pub record Placed : Type 0 where
  pub item : ℤ
  pub left : ℕ
  pub centre : ℕ

-- The items of a row from a column on, with the cursor after them.
unfoldable pub place_row : (cursor : ℕ) → List ℤ → List Placed × ℕ
unfolding item_width
place_row cursor [] = ([], cursor)
place_row cursor (item ∷ row) =
    let w = item_width item in
    let (placed, after) = place_row (cursor + w + col_gap) row in
    (record { item = item; left = cursor; centre = cursor + w / 2 } ∷ placed, after)

-- `max(cursor - _COL_GAP, 0)`
unfoldable pub row_width : List ℤ → ℕ
unfolding place_row
row_width row = (place_row 0 row).1 - col_gap

unfoldable pub total_width : List (List ℤ) → ℕ
unfolding row_width
total_width [] = 0
total_width (row ∷ rows) = max (row_width row) (total_width rows)

unfoldable pub shift : (offset : ℕ) → List Placed → List Placed
shift offset [] = []
shift offset (p ∷ ps) =
    record p { left = p.left + offset; centre = p.centre + offset } ∷ shift offset ps

-- A row, centred.
unfoldable pub centred : (width : ℕ) → List ℤ → List Placed
unfolding shift place_row row_width
centred width row = shift ((width - row_width row) / 2) (place_row 0 row).0

-- The rows of the layout, which the dictionaries `vx` and `vleft` hold by item.
unfoldable pub layout_rows : List (List ℤ) → List (List Placed)
unfolding centred total_width
layout_rows items = map (centred (total_width items)) items

-- `height`
unfoldable pub layout_height : (n_layers : ℕ) → ℕ
layout_height n_layers = n_layers * box_h + (n_layers - 1) * channel
