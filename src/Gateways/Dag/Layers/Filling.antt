-- ===== src/Gateways/Dag/Layers/Filling.antt =====
-- The layers of a table of depths: each id in the layer of its depth, and nowhere else.
use glassrail.Common.{
  Bool, Dict, List, Option, Option-cases, [], ap, arith, count, count-snoc, count-sort, false,
  if◌then◌else◌, inl, inr, insert, int_leb, is_some, length, lookup, map, nat_beq, none, not, refl,
  some, sort, subst, suc, sym, true, zero, ℕ, ℤ, ◌&&◌, ◌+◌, ◌<◌, ◌==◌, ◌↔◌, ◌∙◌, ◌∷◌, ◌≡◌, ◌≤◌,
  int_eq,
}
use glassrail.Gateways.Dag.Layers.{append_at, fill, deepest, empty_layers, layered}

-- `layers[i]`
abbrev pub layer_at : ℕ → List (List ℤ) → List ℤ
layer_at i [] = []
layer_at zero (layer ∷ layers) = layer
layer_at (suc i) (layer ∷ layers) = layer_at i layers

abbrev pub keys : {V : Type 0} → Dict ℤ V → List ℤ
keys d = map (λ e. e.0) d

-- A depth is that of layer `j`.
abbrev pub is_at : ℕ → Option ℕ → Bool
is_at j none = false
is_at j (some d) = nat_beq d j

length-append_at : (i : ℕ) (x : ℤ) (ls : List (List ℤ)) → length (append_at i x ls) ≡ length ls
unfolding append_at
length-append_at i x [] = refl
length-append_at zero x (l ∷ ls) = refl
length-append_at (suc i) x (l ∷ ls) = ap suc (length-append_at i x ls)

count-append_at :
    (i j : ℕ) (x y : ℤ) (ls : List (List ℤ))
    → i < length ls
    → count y (layer_at j (append_at i x ls))
      ≡ count y (layer_at j ls) + (if nat_beq i j && y == x then 1 else 0)
unfolding append_at
count-append_at i j x y [] h = absurd (omega arith)
count-append_at zero zero x y (l ∷ ls) h = ground (arith, count-snoc y x l)
count-append_at zero (suc j) x y (l ∷ ls) h = ground arith
count-append_at (suc i) zero x y (l ∷ ls) h = ground arith
count-append_at (suc i) (suc j) x y (l ∷ ls) h = ground (arith, count-append_at i j x y ls)

-- Every depth is that of one of the layers.
abbrev Fits : Dict ℤ ℕ → List (List ℤ) → Type 0
Fits depth ls = (x : ℤ) (d : ℕ) → lookup x depth ≡ some d → d < length ls

count-fill :
    (depth : Dict ℤ ℕ) (xs : List ℤ) (ls : List (List ℤ)) (j : ℕ) (y : ℤ)
    → Fits depth ls
    → count y (layer_at j (fill depth xs ls))
      ≡ count y (layer_at j ls) + (if is_at j (lookup y depth) then count y xs else 0)
unfolding fill count
count-fill depth [] ls j y fits = ground arith
count-fill depth (x ∷ xs) ls j y fits = elim (Option-cases (lookup x depth)) [
  | inl e ↦ rw e (
      ground (
        arith,
        e,
        count-fill depth xs ls j y fits,
        int_eq.beq_iff y x,
        λ (same : y ≡ x). ap (λ k. lookup k depth) same,
      ))
  | inr (d, e) ↦ rw e (
      ground (
        arith,
        e,
        count-fill depth xs (append_at d x ls) j y
            (λ k c g. subst (λ n. c < n) (sym (length-append_at d x ls)) (fits k c g)),
        count-append_at d j x y ls (fits x d e),
        int_eq.beq_iff y x,
        λ (same : y ≡ x). ap (λ k. lookup k depth) same,
      ))
]

lookup-le-deepest : (depth : Dict ℤ ℕ) (x : ℤ) (d : ℕ) → lookup x depth ≡ some d → d ≤ deepest depth
unfolding lookup deepest
lookup-le-deepest [] x d h = absurd (ground arith)
lookup-le-deepest ((k, e) ∷ depth) x d h = ground (arith, lookup-le-deepest depth x d)

length-empty_layers : (n : ℕ) → length (empty_layers n) ≡ n
unfolding empty_layers
length-empty_layers zero = refl
length-empty_layers (suc n) = ap suc (length-empty_layers n)

layer_at-empty_layers : (n j : ℕ) → layer_at j (empty_layers n) ≡ []
unfolding empty_layers
layer_at-empty_layers zero j = refl
layer_at-empty_layers (suc n) zero = refl
layer_at-empty_layers (suc n) (suc j) = layer_at-empty_layers n j

-- An id stands in a layer as often as it is a key, if its depth is that layer, and else not at all.
pub count-layered :
    (depth : Dict ℤ ℕ) (j : ℕ) (y : ℤ)
    → count y (layer_at j (layered depth))
      ≡ (if is_at j (lookup y depth) then count y (keys depth) else 0)
unfolding layered count
count-layered depth j y =
    let n = suc (deepest depth) in
    ground (
      arith,
      count-fill depth (sort int_leb (keys depth)) (empty_layers n) j y (λ x d g.
          subst (λ m. d < m) (sym (length-empty_layers n))
            (omega (arith, lookup-le-deepest depth x d g))),
      ap (count y) (layer_at-empty_layers n j),
      count-sort int_leb y (keys depth),
    )

length-fill :
    (depth : Dict ℤ ℕ) (xs : List ℤ) (ls : List (List ℤ)) → length (fill depth xs ls) ≡ length ls
unfolding fill
length-fill depth [] ls = refl
length-fill depth (x ∷ xs) ls = elim (Option-cases (lookup x depth)) [
  | inl e ↦ rw e (length-fill depth xs ls)
  | inr (d, e) ↦ rw e (length-fill depth xs (append_at d x ls) ∙ length-append_at d x ls)
]

pub length-layered : (depth : Dict ℤ ℕ) → length (layered depth) ≡ suc (deepest depth)
unfolding layered
length-layered depth =
    length-fill depth (sort int_leb (keys depth)) (empty_layers (suc (deepest depth)))
    ∙ length-empty_layers (suc (deepest depth))

pub keys-lookup :
    (x : ℤ) (depth : Dict ℤ ℕ) → (is_some (lookup x depth) ≡ true) ↔ (1 ≤ count x (keys depth))
unfolding lookup count
keys-lookup x [] = ground arith
keys-lookup x ((k, d) ∷ depth) =
    ground (arith, keys-lookup x depth, int_eq.beq_iff k x, int_eq.beq_iff x k)

count-keys :
    (k x : ℤ) (new : ℕ) (depth : Dict ℤ ℕ)
    → count x (keys (insert k new depth))
      ≡ count x (keys depth) + (if x == k && not (is_some (lookup k depth)) then 1 else 0)
unfolding insert count lookup
count-keys k x new [] = ground arith
count-keys k x new ((i, d) ∷ depth) =
    ground
      (arith, count-keys k x new depth, int_eq.beq_iff i k, int_eq.beq_iff x k, int_eq.beq_iff x i)

-- A table keeps each key once.
pub count-keys-insert :
    (k x : ℤ) (new : ℕ) (depth : Dict ℤ ℕ)
    → count x (keys depth) ≤ 1
    → count x (keys (insert k new depth)) ≤ 1
count-keys-insert k x new depth h = ground (
  arith,
  count-keys k x new depth,
  keys-lookup x depth,
  int_eq.beq_iff x k,
  λ (same : x ≡ k). ap (λ y. lookup y depth) same,
)
