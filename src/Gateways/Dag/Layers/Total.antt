-- ===== src/Gateways/Dag/Layers/Total.antt =====
-- The search for depths returns on every plan, with cycles or without.
use glassrail.Common.{
  Bool-cases, List, Option, Option-cases, [], add, ap, arith, beq_refl, count, count-snoc, elem,
  elem_iff_count, false, inl, inr, insert, length, length-append, length-le_of_count, lookup, none,
  refl, some, suc, true, zero, ℕ, ℤ, ◌++◌, ◌+◌, ◌<◌, ◌∙◌, ◌∷◌, ◌≡◌, ◌≤◌, int_eq,
}
use glassrail.Gateways.Dag.Layers.{
  Parents, Search, discard, below, each, enter, leave, resolve, parents_of,
}

discard_absent : (nid : ℤ) (vs : List ℤ) → elem nid vs ≡ false → discard nid vs ≡ vs
unfolding elem discard
discard_absent nid [] h = refl
discard_absent nid (v ∷ vs) h =
    ground (arith, discard_absent nid vs, int_eq.beq_iff nid v, int_eq.beq_iff v nid)

discard_last : (nid : ℤ) (vs : List ℤ) → elem nid vs ≡ false → discard nid (vs ++ nid ∷ []) ≡ vs
unfolding elem discard
discard_last nid [] h = ground (arith, int_eq.beq_iff nid nid)
discard_last nid (v ∷ vs) h =
    ground (arith, discard_last nid vs, int_eq.beq_iff nid v, int_eq.beq_iff v nid)

-- Leaving a node undoes entering it.
pub discard-add : (nid : ℤ) (vs : List ℤ) → elem nid vs ≡ false → discard nid (add nid vs) ≡ vs
unfolding add
discard-add nid vs h = rw h (discard_last nid vs h)

pub add-inside :
    (nid : ℤ) (vs ids : List ℤ)
    → elem nid vs ≡ false
    → 1 ≤ count nid ids
    → ((a : ℤ) → count a vs ≤ count a ids)
    → (a : ℤ) → count a (add nid vs) ≤ count a ids
unfolding add
add-inside nid vs ids free known inside a =
    ground (arith, inside a, count-snoc a nid vs, elem_iff_count nid vs, int_eq.beq_iff a nid)

pub length-add :
    (nid : ℤ) (vs : List ℤ) → elem nid vs ≡ false → length (add nid vs) ≡ suc (length vs)
unfolding add
length-add nid vs free = rw free (omega (arith, length-append vs (nid ∷ [])))

-- The steps of the search.
pub each-cons :
    (call : ℤ → Search → Option (ℕ × Search)) (p : ℤ) (ps : List ℤ) (s s1 s2 : Search) (d : ℕ)
    (ds : List ℕ)
    → call p s ≡ some (d, s1)
    → each call ps s1 ≡ some (ds, s2)
    → each call (p ∷ ps) s ≡ some (d ∷ ds, s2)
unfolding each
each-cons call p ps s s1 s2 d ds first others = rw (each, first, others) refl

pub resolve_found :
    (parents : Parents) (fuel : ℕ) (nid : ℤ) (s : Search) (d : ℕ)
    → lookup nid s.depth ≡ some d
    → resolve parents (suc fuel) nid s ≡ some (d, s)
unfolding resolve
resolve_found parents fuel nid s d found = rw (resolve, found) refl

pub resolve_visited :
    (parents : Parents) (fuel : ℕ) (nid : ℤ) (s : Search)
    → lookup nid s.depth ≡ none
    → elem nid s.visiting ≡ true
    → resolve parents (suc fuel) nid s ≡ some (0, s)
unfolding resolve
resolve_visited parents fuel nid s new visited = rw (resolve, new, visited) refl

pub resolve_fresh :
    (parents : Parents) (fuel : ℕ) (nid : ℤ) (s : Search) (ds : List ℕ) (s1 : Search)
    → lookup nid s.depth ≡ none
    → elem nid s.visiting ≡ false
    → each (resolve parents fuel) (parents_of parents nid) (enter nid s) ≡ some (ds, s1)
    → resolve parents (suc fuel) nid s
      ≡ some (
        below ds,
        record { depth = insert nid (below ds) s1.depth; visiting = discard nid s1.visiting },
      )
unfolding resolve leave
resolve_fresh parents fuel nid s ds s1 new fresh calls = rw (resolve, new, fresh, calls) refl

-- A call returns, with the ids in `vs` being visited before and after.
abbrev pub Returns : (ℤ → Search → Option (ℕ × Search)) → List ℤ → ℤ → Type 0
Returns call vs p =
    (s : Search)
    → s.visiting ≡ vs
    → (d : ℕ) × (s' : Search) × (call p s ≡ some (d, s')) × (s'.visiting ≡ vs)

pub each-Returns :
    (call : ℤ → Search → Option (ℕ × Search)) (vs : List ℤ) (ps : List ℤ)
    → ((p : ℤ) → 1 ≤ count p ps → Returns call vs p)
    → (s : Search) → s.visiting ≡ vs
    → (ds : List ℕ) × (s' : Search) × (each call ps s ≡ some (ds, s')) × (s'.visiting ≡ vs)
unfolding each count
each-Returns call vs [] h s same = ([], s, refl, same)
each-Returns call vs (p ∷ ps) h s same =
    let (d, s1, first, same1) = h p (ground (arith, beq_refl p)) s same in
    let (ds, s2, others, same2) = each-Returns call vs ps (λ q m. h q (omega arith)) s1 same1 in
    (d ∷ ds, s2, each-cons call p ps s s1 s2 d ds first others, same2)

module _ (parents : Parents) (ids : List ℤ)
    (closed : (c p : ℤ) → 1 ≤ count p (parents_of parents c) → 1 ≤ count p ids) where
  -- A call on an id returns, if the fuel is more than the number of ids that are not being visited.
  pub resolve-Returns :
      (fuel : ℕ) (nid : ℤ) (vs : List ℤ)
      → ((a : ℤ) → count a vs ≤ count a ids)
      → length ids < fuel + length vs
      → 1 ≤ count nid ids
      → Returns (resolve parents fuel) vs nid
  unfolding resolve enter
  resolve-Returns zero nid vs inside room known s same =
      absurd (omega (arith, length-le_of_count vs ids inside))
  resolve-Returns (suc fuel) nid vs inside room known s same =
      elim (Option-cases (lookup nid s.depth)) [
        | inr (d, found) ↦ (d, s, resolve_found parents fuel nid s d found, same)
        | inl new ↦ elim (Bool-cases (elem nid s.visiting)) [
          | inl visited ↦ (0, s, resolve_visited parents fuel nid s new visited, same)
          | inr fresh ↦
              let free : elem nid vs ≡ false = ground (arith, fresh, ap (elem nid) same) in
              let (ds, s1, calls, same1) =
                each-Returns (resolve parents fuel) (add nid vs) (parents_of parents nid)
                  (λ p m.
                    resolve-Returns fuel p (add nid vs) (add-inside nid vs ids free known inside)
                      (omega (arith, length-add nid vs free)) (closed nid p m))
                  (enter nid s) (ap (add nid) same) in
              (
                below ds,
                record {
                  depth = insert nid (below ds) s1.depth;
                  visiting = discard nid s1.visiting;
                },
                resolve_fresh parents fuel nid s ds s1 new fresh calls,
                ap (discard nid) same1 ∙ discard-add nid vs free,
              )
        ]
      ]
