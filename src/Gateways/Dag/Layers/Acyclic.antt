-- ===== src/Gateways/Dag/Layers/Acyclic.antt =====
-- The search on a plan without cycles: where `lev` is one more than the levels of the parents, each
-- call returns the level of its id, and keeps it in `depth`.
use glassrail.Common.{
  Bool-cases, Dict, List, Option, Option-cases, [], add, ap, arith, beq_refl, count, count-add,
  elem, elem_iff_count, false, inl, inr, insert, length, length-le_of_count, lookup, lookup-insert,
  map, none, refl, some, subst, suc, sym, zero, ℕ, ℤ, ◌+◌, ◌<◌, ◌==◌, ◌∙◌, ◌∷◌, ◌≡◌, ◌≤◌, int_eq,
}
use glassrail.Gateways.Dag.Layers.{
  Parents, Search, below, discard, each, enter, resolve, parents_of,
}
use glassrail.Gateways.Dag.Layers.Filling.{keys, count-keys-insert}
use glassrail.Gateways.Dag.Layers.Total.{
  discard-add, add-inside, length-add, each-cons, resolve_found, resolve_fresh,
}

pub below_gt : (f : ℤ → ℕ) (p : ℤ) (ps : List ℤ) → 1 ≤ count p ps → f p < below (map f ps)
unfolding below count
below_gt f p [] h = elim h [ ]
below_gt f p (q ∷ ps) h = ground (arith, below_gt f p ps, int_eq.beq_iff p q, ap f)

-- Entries of a dictionary stay.
abbrev pub Keeps : (before after : Dict ℤ ℕ) → Type 0
Keeps before after = (n : ℤ) (d : ℕ) → lookup n before ≡ some d → lookup n after ≡ some d

Keeps-insert :
    (nid : ℤ) (new : ℕ) (before after : Dict ℤ ℕ)
    → lookup nid before ≡ none
    → Keeps before after
    → Keeps before (insert nid new after)
Keeps-insert nid new before after absent keep n d g = ground (
  arith,
  lookup-insert nid n new after,
  keep n d g,
  int_eq.beq_iff nid n,
  λ (e : nid ≡ n). ap (λ m. lookup m before) e,
)

module _ (ids : List ℤ) (lev : ℤ → ℕ) where
  -- What `depth` holds: levels of ids of the plan.
  abbrev pub Right : Dict ℤ ℕ → Type 0
  Right depth =
      ((n : ℤ) (d : ℕ) → lookup n depth ≡ some d → (d ≡ lev n) × (1 ≤ count n ids))
      × ((n : ℤ) → count n (keys depth) ≤ 1)

  Right-insert :
      (nid : ℤ) (depth : Dict ℤ ℕ)
      → 1 ≤ count nid ids
      → Right depth
      → Right (insert nid (lev nid) depth)
  Right-insert nid depth known right = (
    λ n d found. elim (Bool-cases (nid == n)) [
      | inl here ↦
          let e : nid ≡ n = (int_eq.beq_iff nid n).0 here in
          (
            ground (arith, found, here, ap lev e, lookup-insert nid n (lev nid) depth),
            subst (λ x. 1 ≤ count x ids) e known,
          )
      | inr there ↦ right.0 n d (ground (arith, found, there, lookup-insert nid n (lev nid) depth))
    ],
    λ n. count-keys-insert nid n (lev nid) depth (right.1 n),
  )

  -- A call returns the level of `p`, and afterwards `depth` holds it.
  abbrev pub Finds : (ℤ → Search → Option (ℕ × Search)) → List ℤ → ℤ → Type 0
  Finds call vs p =
      (s : Search)
      → s.visiting ≡ vs
      → Right s.depth
      → (s' : Search) × (call p s ≡ some (lev p, s'))
        × (s'.visiting ≡ vs)
        × Right s'.depth
        × (lookup p s'.depth ≡ some (lev p))
        × Keeps s.depth s'.depth

  pub each-Finds :
      (call : ℤ → Search → Option (ℕ × Search)) (vs ps : List ℤ)
      → ((p : ℤ) → 1 ≤ count p ps → Finds call vs p)
      → (s : Search) → s.visiting ≡ vs
      → Right s.depth
      → (s' : Search) × (each call ps s ≡ some (map lev ps, s'))
        × (s'.visiting ≡ vs)
        × Right s'.depth
        × ((p : ℤ) → 1 ≤ count p ps → lookup p s'.depth ≡ some (lev p))
        × Keeps s.depth s'.depth
  unfolding each count
  each-Finds call vs [] h s same right = (s, refl, same, right, λ p m. elim m [ ], λ n d e. e)
  each-Finds call vs (p ∷ ps) h s same right =
      let (s1, first, same1, right1, got, keep1) = h p (ground (arith, beq_refl p)) s same right in
      let (s2, others, same2, right2, all_got, keep2) =
        each-Finds call vs ps (λ q m. h q (omega arith)) s1 same1 right1 in
      (
        s2,
        each-cons call p ps s s1 s2 (lev p) (map lev ps) first others,
        same2,
        right2,
        λ q m. elim (Bool-cases (q == p)) [
          | inl here ↦
              subst (λ x. lookup x s2.depth ≡ some (lev x)) (sym ((int_eq.beq_iff q p).0 here))
                (keep2 p (lev p) got)
          | inr there ↦ all_got q (ground arith)
        ],
        λ n d e. keep2 n d (keep1 n d e),
      )

module _ (parents : Parents) (ids : List ℤ) (lev : ℤ → ℕ)
    (closed : (c p : ℤ) → 1 ≤ count p (parents_of parents c) → 1 ≤ count p ids)
    (level : (n : ℤ) → below (map lev (parents_of parents n)) ≡ lev n) where
  parent-lt : (c p : ℤ) → 1 ≤ count p (parents_of parents c) → lev p < lev c
  parent-lt c p m = subst (λ l. lev p < l) (level c) (below_gt lev p (parents_of parents c) m)

  -- Entering `nid` keeps every id that is being visited above its parents.
  above-add :
      (nid p : ℤ) (vs : List ℤ)
      → ((v : ℤ) → 1 ≤ count v vs → lev nid < lev v)
      → 1 ≤ count p (parents_of parents nid)
      → (v : ℤ) → 1 ≤ count v (add nid vs)
      → lev p < lev v
  above-add nid p vs above m v w = elim (count-add v nid vs w) [
    | inl e ↦ omega (arith, ap lev e, parent-lt nid p m)
    | inr there ↦ omega (arith, above v there, parent-lt nid p m)
  ]

  pub resolve-Finds :
      (fuel : ℕ) (nid : ℤ) (vs : List ℤ)
      → ((a : ℤ) → count a vs ≤ count a ids)
      → length ids < fuel + length vs
      → 1 ≤ count nid ids
      → ((v : ℤ) → 1 ≤ count v vs → lev nid < lev v)
      → Finds ids lev (resolve parents fuel) vs nid
  unfolding resolve enter
  resolve-Finds zero nid vs inside room known above s same right =
      absurd (omega (arith, length-le_of_count vs ids inside))
  resolve-Finds (suc fuel) nid vs inside room known above s same right =
      elim (Option-cases (lookup nid s.depth)) [
        | inr (d, found) ↦
            let e : d ≡ lev nid = (right.0 nid d found).0 in
            (
              s,
              resolve_found parents fuel nid s d found ∙ ap (λ l. some (l, s)) e,
              same,
              right,
              found ∙ ap some e,
              λ n k g. g,
            )
        | inl new ↦
            let free : elem nid vs ≡ false = ground (arith, above nid, elem_iff_count nid vs) in
            let (s1, calls, same1, right1, got, keep) =
              each-Finds ids lev (resolve parents fuel) (add nid vs) (parents_of parents nid)
                (λ p m.
                  resolve-Finds fuel p (add nid vs) (add-inside nid vs ids free known inside)
                    (omega (arith, length-add nid vs free)) (closed nid p m)
                    (above-add nid p vs above m))
                (enter nid s) (ap (add nid) same) right in
            let done : Search = record {
              depth = insert nid (lev nid) s1.depth;
              visiting = discard nid s1.visiting;
            } in
            (
              done,
              resolve_fresh parents fuel nid s (map lev (parents_of parents nid)) s1 new
                    (ground (arith, free, ap (elem nid) same)) calls
                  ∙ ap
                      (λ l. some (
                        l,
                        record {
                          depth = insert nid l s1.depth;
                          visiting = discard nid s1.visiting;
                        },
                      ))
                      (level nid),
              ap (discard nid) same1 ∙ discard-add nid vs free,
              Right-insert ids lev nid s1.depth known right1,
              ground (arith, lookup-insert nid nid (lev nid) s1.depth, beq_refl nid),
              Keeps-insert nid (lev nid) s.depth s1.depth new keep,
            )
      ]
