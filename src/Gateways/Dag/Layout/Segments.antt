-- ===== src/Gateways/Dag/Layout/Segments.antt =====
-- The segments of the diagram: each joins two adjacent layers.
use glassrail.Common.{
  Dict, List, [], arith, insert, lookup-insert, negsuc, pos, refl, suc, zero, ℕ, ℤ, ◌++◌, ◌+◌, ◌-◌,
  ◌<◌, ◌∙◌, ◌∷◌, ◌≡◌, int_eq,
}
use glassrail.Gateways.Dag.Layout.{
  Edge, Split, layer_of, add_dummy, split_from, split_edge, split_all, split_edges, place_layers,
}

-- A vertex that stands already: a positive id, or one of the dummies so far.
abbrev pub Stands : (dummies : ℕ) → ℤ → Type 0
Stands dummies (pos n) = Unit {0}
Stands dummies (negsuc k) = k < dummies

-- Every segment joins a layer to the next.
abbrev pub Adjacent : Dict ℤ ℕ → (dummies : ℕ) → List Edge → Type 0
Adjacent vlayer dummies [] = Unit {0}
Adjacent vlayer dummies ((a, b) ∷ es) =
    (layer_of vlayer b ≡ suc (layer_of vlayer a))
    × Stands dummies a
    × Stands dummies b
    × Adjacent vlayer dummies es

Adjacent-snoc :
    (vlayer : Dict ℤ ℕ) (dummies : ℕ) (es : List Edge) (a b : ℤ)
    → Adjacent vlayer dummies es
    → layer_of vlayer b ≡ suc (layer_of vlayer a)
    → Stands dummies a
    → Stands dummies b
    → Adjacent vlayer dummies (es ++ (a, b) ∷ [])
Adjacent-snoc vlayer dummies [] a b all_adjacent e sa sb = (e, sa, sb, tt)
Adjacent-snoc vlayer dummies ((c, d) ∷ es) a b (f, sc, sd, rest) e sa sb =
    (f, sc, sd, Adjacent-snoc vlayer dummies es a b rest e sa sb)

-- A new dummy.
layer_of-insert :
    (k : ℕ) (i : ℕ) (vlayer : Dict ℤ ℕ) (v : ℤ)
    → Stands k v
    → layer_of (insert (negsuc k) i vlayer) v ≡ layer_of vlayer v
unfolding layer_of
layer_of-insert k i vlayer (pos n) s = ground (arith, lookup-insert (negsuc k) (pos n) i vlayer)
layer_of-insert k i vlayer (negsuc j) s =
    ground (arith, s, lookup-insert (negsuc k) (negsuc j) i vlayer)

layer_of-insert_self :
    (k : ℕ) (i : ℕ) (vlayer : Dict ℤ ℕ) → layer_of (insert (negsuc k) i vlayer) (negsuc k) ≡ i
unfolding layer_of
layer_of-insert_self k i vlayer = ground (arith, lookup-insert (negsuc k) (negsuc k) i vlayer)

Stands-suc : (k : ℕ) (v : ℤ) → Stands k v → Stands (suc k) v
Stands-suc k (pos n) s = tt
Stands-suc k (negsuc j) s = omega (arith, s)

Adjacent-insert :
    (k i : ℕ) (vlayer : Dict ℤ ℕ) (es : List Edge)
    → Adjacent vlayer k es
    → Adjacent (insert (negsuc k) i vlayer) (suc k) es
Adjacent-insert k i vlayer [] h = tt
Adjacent-insert k i vlayer ((a, b) ∷ es) (e, sa, sb, rest) = (
  omega (arith, e, layer_of-insert k i vlayer a sa, layer_of-insert k i vlayer b sb),
  Stands-suc k a sa,
  Stands-suc k b sb,
  Adjacent-insert k i vlayer es rest,
)

-- What the loops keep: adjacent segments, and the layers of the nodes.
abbrev pub Kept : Dict ℤ ℕ → Split → Type 0
Kept start s =
    Adjacent s.vlayer s.dummies s.segments
    × ((n : ℕ) → layer_of s.vlayer (pos n) ≡ layer_of start (pos n))

split_from-Kept :
    (start : Dict ℤ ℕ) (turns i : ℕ) (prev : ℤ) (c : ℕ) (s : Split)
    → Kept start s
    → Stands s.dummies prev
    → i ≡ suc (layer_of s.vlayer prev)
    → layer_of start (pos c) ≡ i + turns
    → Kept start (split_from turns i prev (pos c) s)
unfolding split_from add_dummy
split_from-Kept start zero i prev c s (adjacent, same) stands after there = (
  Adjacent-snoc s.vlayer s.dummies s.segments prev (pos c) adjacent
      (omega (arith, same c, after, there)) stands tt,
  same,
)
split_from-Kept start (suc turns) i prev c s (adjacent, same) stands after there =
    split_from-Kept start turns (suc i) (negsuc s.dummies) c (add_dummy i prev s)
      (
        Adjacent-snoc (insert (negsuc s.dummies) i s.vlayer) (suc s.dummies) s.segments prev
            (negsuc s.dummies) (Adjacent-insert s.dummies i s.vlayer s.segments adjacent)
            (omega (
              arith,
              after,
              layer_of-insert_self s.dummies i s.vlayer,
              layer_of-insert s.dummies i s.vlayer prev stands,
            ))
            (Stands-suc s.dummies prev stands) (omega arith),
        λ n. layer_of-insert s.dummies i s.vlayer (pos n) tt ∙ same n,
      )
      (omega arith) (omega (arith, layer_of-insert_self s.dummies i s.vlayer))
      (omega (arith, there))

-- The edges join positive ids, and lead to later layers.
abbrev pub Descend : Dict ℤ ℕ → List Edge → Type 0
Descend vlayer [] = Unit {0}
Descend vlayer ((pos p, pos c) ∷ es) =
    (layer_of vlayer (pos p) < layer_of vlayer (pos c)) × Descend vlayer es
Descend vlayer ((pos p, negsuc c) ∷ es) = ⊥
Descend vlayer ((negsuc p, c) ∷ es) = ⊥

split_all-Kept :
    (start : Dict ℤ ℕ) (es : List Edge) (s : Split)
    → Descend start es
    → Kept start s
    → Kept start (split_all es s)
unfolding split_all split_edge
split_all-Kept start [] s down kept = kept
split_all-Kept start ((pos p, pos c) ∷ es) s (later, down) (adjacent, same) =
    split_all-Kept start es (split_edge (pos p, pos c) s) down (
      split_from-Kept start (layer_of s.vlayer (pos c) - suc (layer_of s.vlayer (pos p)))
        (suc (layer_of s.vlayer (pos p))) (pos p) c s (adjacent, same) tt refl
        (omega (arith, later, same p, same c)))
split_all-Kept start ((pos p, negsuc c) ∷ es) s down kept = absurd down
split_all-Kept start ((negsuc p, c) ∷ es) s down kept = absurd down

-- Every segment that is drawn joins a layer to the next one, dummies in between, so that it crosses
-- no box, and the nodes stay in their layers: for layers and edges where each edge joins positive ids
-- and leads to a later layer.
pub split_edges-Kept :
    (layers : List (List ℤ)) (es : List Edge)
    → Descend (place_layers 0 layers []) es
    → Kept (place_layers 0 layers []) (split_edges layers es)
unfolding split_edges
split_edges-Kept layers es down =
    split_all-Kept (place_layers 0 layers []) es
      (record { items = layers; vlayer = place_layers 0 layers []; segments = []; dummies = 0 })
      down (tt, λ n. refl)
