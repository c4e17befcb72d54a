-- ===== src/Gateways/Dag/Layers/Levels.antt =====
-- The level of an id in a table of parents without cycles, and the chains of links that end in it.
use glassrail.Common.{
  Bool-cases, List, [], arith, beq_refl, count, inl, inr, leb, map, refl, suc, zero, ℕ, ℤ, ◌<◌, ◌∷◌,
  ◌≡◌, ◌≤◌, ◌⊎◌, int_eq,
}
use glassrail.Gateways.Dag.Layers.{Parents, parents_of, below}
use glassrail.Gateways.Dag.Layers.Links.{Has}
use glassrail.Gateways.Dag.Layers.Acyclic.{below_gt}

-- A chain of `k` links that ends in `n`.
pub data Chain (parents : Parents) (ids : List ℤ) : ℕ → ℤ → Type 0 where
  root : (n : ℤ) → 1 ≤ count n ids → Chain parents ids 0 n
  link : (k : ℕ) (p c : ℤ) → Has parents p c → Chain parents ids k p → Chain parents ids (suc k) c

below-map_congr :
    (f g : ℤ → ℕ) (ps : List ℤ)
    → ((p : ℤ) → 1 ≤ count p ps → f p ≡ g p)
    → below (map f ps) ≡ below (map g ps)
unfolding below count
below-map_congr f g [] h = refl
below-map_congr f g (p ∷ ps) h =
    ground
      (arith, h p (ground (arith, beq_refl p)), below-map_congr f g ps (λ q m. h q (omega arith)))

below-cases :
    (f : ℤ → ℕ) (ps : List ℤ)
    → (below (map f ps) ≡ 0) ⊎ ((p : ℤ) × (1 ≤ count p ps) × (below (map f ps) ≡ suc (f p)))
unfolding below count
below-cases f [] = inl refl
below-cases f (p ∷ ps) = elim (below-cases f ps) [
  | inl e ↦ inr (p, ground (arith, beq_refl p), omega (arith, e))
  | inr (q, m, e) ↦ elim (Bool-cases (leb (f p) (f q))) [
    | inl less ↦ inr (q, omega arith, ground arith)
    | inr more ↦ inr (p, ground (arith, beq_refl p), ground arith)
  ]
]

-- The level, searched to a depth of `k`.
abbrev level_to : Parents → ℕ → ℤ → ℕ
level_to parents zero n = 0
level_to parents (suc k) n = below (map (level_to parents k) (parents_of parents n))

abbrev pub level : Parents → (rank : ℤ → ℕ) → ℤ → ℕ
level parents rank n = level_to parents (suc (rank n)) n

module _ (parents : Parents) (rank : ℤ → ℕ)
    (grows : (p c : ℤ) → Has parents p c → rank p < rank c) where
  level_to-stable :
      (k j : ℕ) (n : ℤ) → rank n < k → rank n < j → level_to parents k n ≡ level_to parents j n
  level_to-stable zero j n h l = absurd (omega arith)
  level_to-stable (suc k) zero n h l = absurd (omega arith)
  level_to-stable (suc k) (suc j) n h l =
      below-map_congr (level_to parents k) (level_to parents j) (parents_of parents n)
        (λ p m. level_to-stable k j p (omega (arith, grows p n m)) (omega (arith, grows p n m)))

  pub level_lem :
      (n : ℤ) → below (map (level parents rank) (parents_of parents n)) ≡ level parents rank n
  level_lem n =
      below-map_congr (level parents rank) (level_to parents (rank n)) (parents_of parents n)
        (λ p m.
          level_to-stable (suc (rank p)) (rank n) p (omega arith) (omega (arith, grows p n m)))

  -- No chain is longer than the level.
  pub Chain-le : (ids : List ℤ) (k : ℕ) (n : ℤ) → Chain parents ids k n → k ≤ level parents rank n
  Chain-le ids i x (Chain.root n known) = omega arith
  Chain-le ids i x (Chain.link k p c has chain) = omega (
    arith,
    Chain-le ids k p chain,
    level_lem c,
    below_gt (level parents rank) p (parents_of parents c) has,
  )

  -- There is one of that length.
  pub Chain-level :
      (ids : List ℤ)
      → ((p c : ℤ) → Has parents p c → 1 ≤ count p ids)
      → (k : ℕ) (n : ℤ) → level parents rank n ≡ k
      → 1 ≤ count n ids
      → Chain parents ids k n
  Chain-level ids closed zero n e known = Chain.root n known
  Chain-level ids closed (suc k) n e known =
      elim (below-cases (level parents rank) (parents_of parents n)) [
        | inl z ↦ absurd (omega (arith, level_lem n))
        | inr (p, m, s) ↦
            Chain.link k p n m
              (Chain-level ids closed k p (omega (arith, level_lem n)) (closed p n m))
      ]
