-- ===== src/Gateways/Dag/Layout/Composed.antt =====
-- The layers, the edges and the segments together.
use glassrail.Common.{
  Dict, List, [], ap, arith, count, elem, elem_iff_count, if◌then◌else◌, insert, lookup,
  lookup-insert, negsuc, pos, refl, some, subst, suc, sym, zero, ℕ, ℤ, ◌+◌, ◌↔◌, ◌∙◌, ◌∷◌, ◌≡◌, ◌≤◌,
  int_eq,
}
use mathlib.Core.Option.{some_inj}
use glassrail.Gateways.Dag.{DagNode}
use glassrail.Gateways.Dag.Layers.{id_set, layers}
use glassrail.Gateways.Dag.Layers.Links.{Links, Has-known, all_parents_iff}
use glassrail.Gateways.Dag.Layers.Filling.{layer_at}
use glassrail.Gateways.Dag.Layers.Longest.{
  Grows, Longest, node_ids, lev, Longest-level, layers-Longest, layers_later,
}
use glassrail.Gateways.Dag.Layout.{Edge, edges, layer_of, place_layer, place_layers, split_edges}
use glassrail.Gateways.Dag.Layout.Linked.{Linked, edges-Linked}
use glassrail.Gateways.Dag.Layout.Segments.{Descend, Kept, split_edges-Kept}

lookup-place_layer :
    (i : ℕ) (n : ℤ) (row : List ℤ) (d : Dict ℤ ℕ)
    → lookup n (place_layer i row d) ≡ (if elem n row then some i else lookup n d)
unfolding place_layer elem
lookup-place_layer i n [] d = refl
lookup-place_layer i n (x ∷ row) d = ground (
  arith,
  lookup-place_layer i n row (insert x i d),
  lookup-insert x n i d,
  int_eq.beq_iff x n,
  int_eq.beq_iff n x,
)

lookup-place_layers_absent :
    (i : ℕ) (n : ℤ) (ls : List (List ℤ)) (d : Dict ℤ ℕ)
    → ((j : ℕ) → 1 ≤ count n (layer_at j ls) → ⊥)
    → lookup n (place_layers i ls d) ≡ lookup n d
unfolding place_layers
lookup-place_layers_absent i n [] d absent = refl
lookup-place_layers_absent i n (l ∷ ls) d absent = ground (
  arith,
  lookup-place_layers_absent (suc i) n ls (place_layer i l d) (λ j h. absent (suc j) h),
  lookup-place_layer i n l d,
  absent 0,
  elem_iff_count n l,
)

-- An id that stands in layer `j` only is placed there.
lookup-place_layers :
    (i j : ℕ) (n : ℤ) (ls : List (List ℤ)) (d : Dict ℤ ℕ)
    → 1 ≤ count n (layer_at j ls)
    → ((k : ℕ) → 1 ≤ count n (layer_at k ls) → k ≡ j)
    → lookup n (place_layers i ls d) ≡ some (i + j)
unfolding place_layers count
lookup-place_layers i j n [] d here only = elim here [ ]
lookup-place_layers i zero n (l ∷ ls) d here only = ground (
  arith,
  lookup-place_layers_absent (suc i) n ls (place_layer i l d)
      (λ k h. ground (arith, only (suc k) h)),
  lookup-place_layer i n l d,
  elem_iff_count n l,
)
lookup-place_layers i (suc j) n (l ∷ ls) d here only =
    lookup-place_layers (suc i) j n ls (place_layer i l d) here
      (λ k h. omega (arith, only (suc k) h))
    ∙ ap some (omega arith)

-- No id is negative.
abbrev pub AllNatural : List ℤ → Type 0
AllNatural is = (x : ℤ) → 1 ≤ count x is → (n : ℕ) × (x ≡ pos n)

module _ (ns : List DagNode) (rank : ℤ → ℕ) (grows : Grows ns rank)
    (natural : AllNatural (node_ids ns)) (ls : List (List ℤ)) (found : layers ns ≡ some ls) where
  here_iff :
      (i : ℕ) (n : ℤ)
      → (1 ≤ count n (layer_at i ls)) ↔ ((1 ≤ count n (node_ids ns)) × Longest ns i n)
  here_iff i n =
      let (ls', e, at) = layers-Longest ns rank grows in
      subst (λ l. (1 ≤ count n (layer_at i l)) ↔ ((1 ≤ count n (node_ids ns)) × Longest ns i n))
        (some_inj.0 (sym e ∙ found)) (at i n).1

  -- Where an id is placed, it stands.
  layer_of-stands :
      (n : ℤ)
      → 1 ≤ count n (node_ids ns)
      → (1 ≤ count n (layer_at (lev ns rank grows n) ls))
        × (layer_of (place_layers 0 ls []) n ≡ lev ns rank grows n)
  unfolding layer_of
  layer_of-stands n known =
      let j = lev ns rank grows n in
      let (chain, most) = Longest-level ns rank grows n known in
      let here = (here_iff j n).1 (known, (chain, most)) in
      (
        here,
        ground (
          arith,
          lookup-place_layers 0 j n ls [] here (λ k h.
              let (known', (chain', most')) = (here_iff k n).0 h in
              omega (arith, most k chain', most' j chain)),
        ),
      )

  ends :
      (p c : ℤ)
      → Links (id_set ns) ns p c
      → (1 ≤ count p (node_ids ns)) × (1 ≤ count c (node_ids ns))
  ends p c link = Has-known ns p c ((all_parents_iff ns p c).1 link)

  not_negative : {A : Type 0} (k : ℕ) → 1 ≤ count (negsuc k) (node_ids ns) → A
  not_negative k known = let (n, e) = natural (negsuc k) known in absurd (ground (arith, e))

  Descend-Linked : (es : List Edge) → Linked ns es → Descend (place_layers 0 ls []) es
  Descend-Linked [] h = tt
  Descend-Linked ((pos p, pos c) ∷ es) (link, rest) =
      let (known_p, known_c) = ends (pos p) (pos c) link in
      let (here_p, at_p) = layer_of-stands (pos p) known_p in
      let (here_c, at_c) = layer_of-stands (pos c) known_c in
      (
        omega (
          arith,
          at_p,
          at_c,
          layers_later ns rank ls (lev ns rank grows (pos p)) (lev ns rank grows (pos c)) (pos p)
              (pos c) grows found link here_p here_c,
        ),
        Descend-Linked es rest,
      )
  Descend-Linked ((pos p, negsuc c) ∷ es) (link, rest) =
      not_negative c (ends (pos p) (negsuc c) link).1
  Descend-Linked ((negsuc p, c) ∷ es) (link, rest) = not_negative p (ends (negsuc p) c link).0

-- The diagram of a plan without cycles and without negative ids: if a rank grows along every link, the
-- search returns layers, and for the edges of the plan every segment that is drawn joins a layer to
-- the next one, while every node stays in its layer.
pub edges-Kept :
    (ns : List DagNode) (rank : ℤ → ℕ)
    → Grows ns rank
    → AllNatural (node_ids ns)
    → (ls : List (List ℤ)) × (layers ns ≡ some ls)
      × Kept (place_layers 0 ls []) (split_edges ls (edges ns))
edges-Kept ns rank grows natural =
    let (ls, found, at) = layers-Longest ns rank grows in
    (
      ls,
      found,
      split_edges-Kept ls (edges ns)
          (Descend-Linked ns rank grows natural ls found (edges ns) (edges-Linked ns)),
    )
