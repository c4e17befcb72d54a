-- ===== src/Gateways/Dag/Layers/Longest.antt =====
-- The layers of a plan: they exist for every plan, and without cycles a node's layer is the longest
-- path to it.
use glassrail.Common.{
  Dict, List, Option-cases, [], arith, count, inl, inr, length, length-map, lookup, map, refl, some,
  subst, suc, sym, ℕ, ℤ, ◌<◌, ◌↔◌, ◌∙◌, ◌∷◌, ◌≡◌, ◌≤◌, int_eq,
}
use mathlib.Core.Option.{some_inj}
use glassrail.Gateways.Dag.{DagNode}
use glassrail.Gateways.Dag.Layers.{Search, all_parents, each, resolve, layered, layers, id_set}
use glassrail.Gateways.Dag.Layers.Total.{each-Returns, resolve-Returns}
use glassrail.Gateways.Dag.Layers.Links.{Links, Has, Has-known, all_parents_iff}
use glassrail.Gateways.Dag.Layers.Filling.{layer_at, keys-lookup, count-layered}
use glassrail.Gateways.Dag.Layers.Acyclic.{Right, each-Finds, resolve-Finds}
use glassrail.Gateways.Dag.Layers.Levels.{Chain, level, level_lem, Chain-le, Chain-level}

-- The ids of the nodes.
abbrev pub node_ids : List DagNode → List ℤ
node_ids ns = map (λ n. n.id) ns

abbrev pub start : Search
start = record { depth = []; visiting = [] }

length-node_ids : (ns : List DagNode) → length (node_ids ns) ≡ length ns
length-node_ids ns = length-map ns (λ n. n.id)

none_inside : (ids : List ℤ) (a : ℤ) → count a [] ≤ count a ids
unfolding count
none_inside ids a = omega arith

layers_cons :
    (n : DagNode) (ns : List DagNode) (ds : List ℕ) (s : Search)
    → each (resolve (all_parents (n ∷ ns)) (suc (length (n ∷ ns)))) (node_ids (n ∷ ns)) start
      ≡ some (ds, s)
    → layers (n ∷ ns) ≡ some (layered s.depth)
unfolding layers
layers_cons n ns ds s e = rw (layers, e) refl

-- The search for the layers returns on every list of nodes, with repeated ids and cycles or
-- without: the fuel is enough.
pub layers_total : (ns : List DagNode) → (ls : List (List ℤ)) × (layers ns ≡ some ls)
unfolding layers
layers_total [] = ([], refl)
layers_total (n ∷ ns) =
    let all = n ∷ ns in
    let (ds, s, e, same) =
      each-Returns (resolve (all_parents all) (suc (length all))) [] (node_ids all)
        (λ p m.
          resolve-Returns (all_parents all) (node_ids all) (λ c q h. (Has-known all q c h).0)
            (suc (length all)) p [] (none_inside (node_ids all))
            (omega (arith, length-node_ids all)) m)
        start refl in
    (layered s.depth, layers_cons n ns ds s e)

-- The longest path of links of a plan that ends in `n` has `i` links.
abbrev pub Longest : List DagNode → ℕ → ℤ → Type 0
Longest ns i n =
    Chain (all_parents ns) (node_ids ns) i n
    × ((k : ℕ) → Chain (all_parents ns) (node_ids ns) k n → k ≤ i)

-- The links have no cycle: a rank grows along each.
abbrev pub Grows : List DagNode → (ℤ → ℕ) → Type 0
Grows ns rank = (p c : ℤ) → Links (id_set ns) ns p c → rank p < rank c

module _ (ns : List DagNode) (rank : ℤ → ℕ) (grows : Grows ns rank) where
  abbrev pub lev : ℤ → ℕ
  lev = level (all_parents ns) rank

  grows-Has : (p c : ℤ) → Has (all_parents ns) p c → rank p < rank c
  grows-Has p c h = grows p c ((all_parents_iff ns p c).0 h)

  pub Longest-level : (n : ℤ) → 1 ≤ count n (node_ids ns) → Longest ns (lev n) n
  Longest-level n known = (
    Chain-level (all_parents ns) rank grows-Has (node_ids ns) (λ p c h. (Has-known ns p c h).0)
        (lev n) n refl known,
    λ k chain. Chain-le (all_parents ns) rank grows-Has (node_ids ns) k n chain,
  )

  level_of_Longest : (i : ℕ) (n : ℤ) → 1 ≤ count n (node_ids ns) → Longest ns i n → lev n ≡ i
  level_of_Longest i n known (chain, most) =
      let (own, bound) = Longest-level n known in omega (arith, bound i chain, most (lev n) own)

  -- The search ends with the level of every id.
  depths :
      (s : Search) × (each (resolve (all_parents ns) (suc (length ns))) (node_ids ns) start
        ≡ some (map lev (node_ids ns), s))
      × Right (node_ids ns) lev s.depth
      × ((n : ℤ) → 1 ≤ count n (node_ids ns) → lookup n s.depth ≡ some (lev n))
  unfolding lookup count
  depths =
      let (s, e, same, right, all_got, keep) =
        each-Finds (node_ids ns) lev (resolve (all_parents ns) (suc (length ns))) [] (node_ids ns)
          (λ p m.
            resolve-Finds (all_parents ns) (node_ids ns) lev (λ c q h. (Has-known ns q c h).0)
              (level_lem (all_parents ns) rank grows-Has) (suc (length ns)) p []
              (none_inside (node_ids ns)) (omega (arith, length-node_ids ns)) m (λ v w. elim w [ ]))
          start refl ((λ n d h. absurd (ground (arith, h))), (λ n. omega arith)) in
      (s, e, right, all_got)

  placed :
      (depth : Dict ℤ ℕ) (i : ℕ) (n : ℤ)
      → Right (node_ids ns) lev depth
      → ((m : ℤ) → 1 ≤ count m (node_ids ns) → lookup m depth ≡ some (lev m))
      → (count n (layer_at i (layered depth)) ≤ 1)
        × ((1 ≤ count n (layer_at i (layered depth)))
            ↔ ((1 ≤ count n (node_ids ns)) × Longest ns i n))
  placed depth i n right found = (
    ground (arith, count-layered depth i n, right.1 n),
    (
      λ m. elim (Option-cases (lookup n depth)) [
        | inl e ↦ absurd (ground (arith, m, e, count-layered depth i n))
        | inr (d, e) ↦
            let (at_lev, known) = right.0 n d e in
            let here : d ≡ i = ground (arith, m, e, count-layered depth i n) in
            (known, subst (λ j. Longest ns j n) (sym at_lev ∙ here) (Longest-level n known))
      ],
      λ (known, longest). ground (
        arith,
        found n known,
        level_of_Longest i n known longest,
        count-layered depth i n,
        keys-lookup n depth,
      ),
    ),
  )

-- Without cycles, the layers hold each node once, in the layer whose number is the length of the
-- longest path of links to it: if a rank grows along every link, the search returns layers in which
-- no id stands twice, and an id stands in layer `i` exactly if it is that of a node and the longest
-- path that ends in it has `i` links.
pub layers-Longest :
    (ns : List DagNode) (rank : ℤ → ℕ)
    → Grows ns rank
    → (ls : List (List ℤ)) × (layers ns ≡ some ls)
      × ((i : ℕ) (n : ℤ)
          → (count n (layer_at i ls) ≤ 1)
            × ((1 ≤ count n (layer_at i ls)) ↔ ((1 ≤ count n (node_ids ns)) × Longest ns i n)))
unfolding layers count
layers-Longest [] rank grows = ([], refl, λ i n. (omega arith, (λ h. elim h [ ], λ h. h.0)))
layers-Longest (n ∷ ns) rank grows =
    let (s, e, right, found) = depths (n ∷ ns) rank grows in
    (
      layered s.depth,
      layers_cons n ns (map (lev (n ∷ ns) rank grows) (node_ids (n ∷ ns))) s e,
      λ i m. placed (n ∷ ns) rank grows s.depth i m right found,
    )

-- Without cycles, every edge that is drawn leads to a later layer.
pub layers_later :
    (ns : List DagNode) (rank : ℤ → ℕ) (ls : List (List ℤ)) (i j : ℕ) (p c : ℤ)
    → Grows ns rank
    → layers ns ≡ some ls
    → Links (id_set ns) ns p c
    → 1 ≤ count p (layer_at i ls)
    → 1 ≤ count c (layer_at j ls)
    → i < j
layers_later ns rank ls i j p c grows e linked at_p at_c =
    let (ls', e', at) = layers-Longest ns rank grows in
    let same : ls' ≡ ls = some_inj.0 (sym e' ∙ e) in
    let (known_p, (chain, most_p)) =
      (at i p).1.0 (subst (λ l. 1 ≤ count p (layer_at i l)) (sym same) at_p) in
    let (known_c, (own, most_c)) =
      (at j c).1.0 (subst (λ l. 1 ≤ count c (layer_at j l)) (sym same) at_c) in
    most_c (suc i) (Chain.link i p c ((all_parents_iff ns p c).1 linked) chain)
