-- ===== src/Validator/Nesting/Depth.antt =====
-- `_nesting_depth` computes how deep decisions nest.
use glassrail.Common.{
  Bool-cases, Dict, In, List, Option, Option-cases, String, [], ap, arith, inl, inr, leb, max, refl,
  some, subst, suc, sym, zero, ℕ, ℤ, ◌+◌, ◌∙◌, ◌∷◌, ◌≡◌, ◌≤◌, ◌⊎◌,
}
use glassrail.Core.{Node}
use glassrail.Validator.Nesting.{items_at, over_branches, over_ids, nesting_depth}

-- From the ids `is` on, `k` decisions one inside the branch of the other.
pub data Chain (ns : List Node) : List ℤ → ℕ → Type 0 where
  none_inside : {is : List ℤ} → Chain ns is 0
  inside :
      {is : List ℤ} {k : ℕ} (i : ℤ) (b : String) (ts : List ℤ)
      → In i is
      → In (b, ts) (items_at ns i)
      → Chain ns ts k
      → Chain ns is (k + 1)

-- `top` is the greatest of `start` and the depths of the lists in `S`, all of which are there.
record IsMax (depth : List ℤ → Option ℕ) (S : List ℤ → Type 0) (start top : ℕ) : Type 0 where
  above : start ≤ top
  bounds : (ts : List ℤ) → S ts → (d : ℕ) × (depth ts ≡ some d) × (d ≤ top)
  reached : (top ≡ start) ⊎ ((ts : List ℤ) × S ts × (depth ts ≡ some top))

module _ (depth : List ℤ → Option ℕ) where
  abbrev OfBranches : Dict String (List ℤ) → List ℤ → Type 0
  OfBranches bs ts = (b : String) × In (b, ts) bs

  over_branches-IsMax :
      (bs : Dict String (List ℤ)) (m top : ℕ)
      → over_branches depth bs m ≡ some top
      → IsMax depth (OfBranches bs) m top
  unfolding over_branches
  over_branches-IsMax [] m top h = record {
    above = ground arith;
    bounds = λ ts (b, i). absurd i;
    reached = inl (ground arith);
  }
  over_branches-IsMax ((b, ts) ∷ bs) m top h = elim (Option-cases (depth ts)) [
    | inl e ↦ absurd (ground arith)
    | inr (d, e) ↦
        let r : IsMax depth (OfBranches bs) (max m d) top =
          over_branches-IsMax bs (max m d) top (ground (arith, h, e)) in
        record {
          above = omega (arith, r.above);
          bounds = λ us (c, i). elim i [
            | inl same ↦ (
              d,
              subst (λ x. depth x ≡ some d) (sym (ap (λ x. x.1) same)) e,
              omega (arith, r.above),
            )
            | inr later ↦ r.bounds us (c, later)
          ];
          reached = elim r.reached [
            | inr (us, (c, i), f) ↦ inr (us, (c, inr i), f)
            | inl f ↦ elim (Bool-cases (leb d m)) [
              | inl g ↦ inl (ground arith)
              | inr g ↦ inr (ts, (b, inl refl), e ∙ ap some (ground arith))
            ]
          ];
        }
  ]

  module _ (ns : List Node) where
    abbrev OfIds : List ℤ → List ℤ → Type 0
    OfIds is ts = (i : ℤ) × In i is × OfBranches (items_at ns i) ts

    over_ids-IsMax :
        (is : List ℤ) (m top : ℕ) → over_ids depth ns is m ≡ some top → IsMax depth (OfIds is) m top
    unfolding over_ids
    over_ids-IsMax [] m top h = record {
      above = ground arith;
      bounds = λ ts (i, member, b). absurd member;
      reached = inl (ground arith);
    }
    over_ids-IsMax (i ∷ is) m top h = elim (Option-cases (over_branches depth (items_at ns i) m)) [
      | inl e ↦ absurd (ground arith)
      | inr (mid, e) ↦
          let r : IsMax depth (OfIds is) mid top =
            over_ids-IsMax is mid top (ground (arith, h, e)) in
          let own : IsMax depth (OfBranches (items_at ns i)) m mid =
            over_branches-IsMax (items_at ns i) m mid e in
          record {
            above = omega (arith, r.above, own.above);
            bounds = λ ts (j, member, inside_j). elim member [
              | inl same ↦
                  let (d, f, le) =
                    own.bounds ts (subst (λ x. OfBranches (items_at ns x) ts) same inside_j) in
                  (d, f, omega (arith, le, r.above))
              | inr later ↦ r.bounds ts (j, later, inside_j)
            ];
            reached = elim r.reached [
              | inr (ts, (j, member, inside_j), f) ↦ inr (ts, (j, inr member, inside_j), f)
              | inl f ↦ elim own.reached [
                | inl g ↦ inl (f ∙ g)
                | inr (ts, inside_i, g) ↦ inr (ts, (i, inl refl, inside_i), g ∙ ap some (sym f))
              ]
            ];
          }
    ]

-- `depth` is the greatest length of a chain from `is` on, counted from `current`.
abbrev pub IsDepth : List Node → List ℤ → (current depth : ℕ) → Type 0
IsDepth ns is current depth =
    ((k : ℕ) → Chain ns is k → current + k ≤ depth)
    × ((k : ℕ) × Chain ns is k × (current + k ≡ depth))

module _ (ns : List Node) (is : List ℤ) (current depth : ℕ) (inner : List ℤ → Option ℕ)
    (r : IsMax inner (OfIds inner ns is) current depth)
    (rest : (ts : List ℤ) (d : ℕ) → inner ts ≡ some d → IsDepth ns ts (current + 1) d) where
  longest : (k : ℕ) → Chain ns is k → current + k ≤ depth
  longest k Chain.none_inside = omega (arith, r.above)
  longest k (Chain.inside {k = n} i b ts member branch chain) =
      let (d, e, le) = r.bounds ts (i, member, (b, branch)) in
      omega (arith, le, (rest ts d e).0 n chain)

  attained : (k : ℕ) × Chain ns is k × (current + k ≡ depth)
  attained = elim r.reached [
    | inl e ↦ (0, Chain.none_inside, omega (arith, e))
    | inr (ts, (i, member, (b, branch)), e) ↦
        let (k, chain, len) = (rest ts depth e).1 in
        (k + 1, Chain.inside i b ts member branch chain, omega (arith, len))
  ]

-- When `nesting_depth` gives a depth, it is that of the longest chain of decisions that stand one
-- inside a branch of the other: there is a chain of that length, and no longer one.
pub nesting_depth_lem :
    (fuel : ℕ) (ns : List Node) (is : List ℤ) (current depth : ℕ)
    → nesting_depth fuel ns is current ≡ some depth
    → IsDepth ns is current depth
unfolding nesting_depth
nesting_depth_lem zero ns is current depth h = absurd (ground arith)
nesting_depth_lem (suc fuel) ns is current depth h =
    let inner : List ℤ → Option ℕ = λ ts. nesting_depth fuel ns ts (current + 1) in
    let r = over_ids-IsMax inner ns is current depth h in
    let rest = λ (ts : List ℤ) (d : ℕ) (e : inner ts ≡ some d).
      nesting_depth_lem fuel ns ts (current + 1) d e in
    (longest ns is current depth inner r rest, attained ns is current depth inner r rest)
