-- ===== src/Planner/Repair/Sinks.antt =====
-- The synthesis nodes to which no node of a plan refers.
use glassrail.Common.{
  Bool-cases, In, List, Option-cases, [], ap, arith, elem, elem-append, false, inl, inr, none, not,
  refl, some, subst, sym, true, ℤ, ◌&&◌, ◌++◌, ◌||◌, ◌∙◌, ◌∷◌, ◌≡◌, int_eq,
}
use glassrail.Core.{Json, Members}
use glassrail.Planner.Payload.{get, is_text, as_int, iterated}
use glassrail.Planner.Repair.{ints, branch_ints, referenced, sinks, only, single_terminal_synthesis}

-- A synthesis node of the list to which no node of the list refers, be it in its `context_needed` or in
-- its branches.
pub record IsSink (nodes : List Members) (id : ℤ) : Type 0 where
  pub node : Members
  pub listed : In node nodes
  pub named : as_int (get "id" node) ≡ some id
  pub synthesis : is_text (get "type" node) "synthesis" ≡ true
  pub not_needed :
      (m : Members) (deps : List Json)
      → In m nodes
      → iterated (get "context_needed" m) ≡ some deps
      → elem id (ints deps) ≡ false
  pub no_target : (m : Members) → In m nodes → elem id (branch_ints (get "branches" m)) ≡ false

elem-some : (i : ℤ) (xs ys : List ℤ) → some xs ≡ some ys → elem i xs ≡ elem i ys
elem-some i xs ys e = ap (λ o. elem i (elim o [ none ↦ [] | some zs ↦ zs ])) e

-- What is not in the set `referenced`.
referenced-none :
    (nodes : List Members) (refs : List ℤ) (i : ℤ)
    → referenced nodes ≡ some refs
    → elem i refs ≡ false
    → (m : Members) → In m nodes
    → ((deps : List Json)
        → iterated (get "context_needed" m) ≡ some deps
        → elem i (ints deps) ≡ false)
      × (elem i (branch_ints (get "branches" m)) ≡ false)
unfolding referenced
referenced-none [] refs i e out m h = absurd h
referenced-none (n ∷ nodes) refs i e out m h =
    elim (Option-cases (iterated (get "context_needed" n))) [
      | inl f ↦ absurd (ground (arith, e, f))
      | inr (deps, f) ↦ elim (Option-cases (referenced nodes)) [
        | inl g ↦ absurd (ground (arith, e, f, g))
        | inr (later, g) ↦
            by_place deps later f g (λ out' k. referenced-none nodes later i g out' m k) h
      ]
    ]
  where
    parts :
        (deps : List Json) (later : List ℤ)
        → iterated (get "context_needed" n) ≡ some deps
        → referenced nodes ≡ some later
        → (elem i (ints deps) || elem i (branch_ints (get "branches" n)) || elem i later) ≡ false
    parts deps later f g =
        let all_refs = ints deps ++ branch_ints (get "branches" n) ++ later in
        let same : some all_refs ≡ some refs = ground (arith, e, f, g) in
        ground (
          arith,
          out,
          elem-some i all_refs refs same,
          elem-append i (ints deps ++ branch_ints (get "branches" n)) later,
          elem-append i (ints deps) (branch_ints (get "branches" n)),
        )

    by_place :
        (deps : List Json) (later : List ℤ)
        → iterated (get "context_needed" n) ≡ some deps
        → referenced nodes ≡ some later
        → (elem i later ≡ false
            → In m nodes
            → ((ds : List Json)
                → iterated (get "context_needed" m) ≡ some ds
                → elem i (ints ds) ≡ false)
              × (elem i (branch_ints (get "branches" m)) ≡ false))
        → In m (n ∷ nodes)
        → ((ds : List Json)
            → iterated (get "context_needed" m) ≡ some ds
            → elem i (ints ds) ≡ false)
          × (elem i (branch_ints (get "branches" m)) ≡ false)
    by_place deps later f g rest (inl same) = (
      λ ds d.
          let one : some ds ≡ some deps =
            sym d ∙ ap (λ x. iterated (get "context_needed" x)) same ∙ f in
          ground (arith, parts deps later f g, one),
      rw same (ground (arith, parts deps later f g)),
    )
    by_place deps later f g rest (inr h) = rest (ground (arith, parts deps later f g)) h

referenced-out :
    (nodes : List Members) (refs : List ℤ) (i : ℤ)
    → referenced nodes ≡ some refs
    → ((m : Members) (deps : List Json)
        → In m nodes
        → iterated (get "context_needed" m) ≡ some deps
        → elem i (ints deps) ≡ false)
    → ((m : Members) → In m nodes → elem i (branch_ints (get "branches" m)) ≡ false)
    → elem i refs ≡ false
unfolding referenced
referenced-out [] refs i e needed target = unfold elem in ground (arith, e)
referenced-out (n ∷ nodes) refs i e needed target =
    elim (Option-cases (iterated (get "context_needed" n))) [
      | inl f ↦ absurd (ground (arith, e, f))
      | inr (deps, f) ↦ elim (Option-cases (referenced nodes)) [
        | inl g ↦ absurd (ground (arith, e, f, g))
        | inr (later, g) ↦
            let all_refs = ints deps ++ branch_ints (get "branches" n) ++ later in
            let same : some all_refs ≡ some refs = ground (arith, e, f, g) in
            ground (
              arith,
              elem-some i all_refs refs same,
              needed n deps (inl refl) f,
              target n (inl refl),
              referenced-out nodes later i g (λ m ds h. needed m ds (inr h))
                  (λ m h. target m (inr h)),
              elem-append i (ints deps ++ branch_ints (get "branches" n)) later,
              elem-append i (ints deps) (branch_ints (get "branches" n)),
            )
      ]
    ]

-- A node that `sinks` finds.
record IsFound (refs : List ℤ) (nodes : List Members) (id : ℤ) : Type 0 where
  node : Members
  listed : In node nodes
  named : as_int (get "id" node) ≡ some id
  synthesis : is_text (get "type" node) "synthesis" ≡ true
  out : elem id refs ≡ false

IsFound-cons :
    (refs : List ℤ) (n : Members) (nodes : List Members) (id : ℤ)
    → IsFound refs nodes id
    → IsFound refs (n ∷ nodes) id
IsFound-cons refs n nodes id found = record {
  node = found.node;
  listed = inr found.listed;
  named = found.named;
  synthesis = found.synthesis;
  out = found.out;
}

sinks-IsFound :
    (refs : List ℤ) (nodes : List Members) (id : ℤ)
    → In id (sinks refs nodes)
    → IsFound refs nodes id
unfolding sinks
sinks-IsFound refs [] id h = absurd h
sinks-IsFound refs (n ∷ nodes) id h = elim (Option-cases (as_int (get "id" n))) [
  | inl e ↦
      IsFound-cons refs n nodes id
        (sinks-IsFound refs nodes id (subst (λ xs. In id xs) (rw (sinks, e) refl) h))
  | inr (j, e) ↦ elim (Bool-cases (is_text (get "type" n) "synthesis" && not (elem j refs))) [
    | inr f ↦
        IsFound-cons refs n nodes id
          (sinks-IsFound refs nodes id (subst (λ xs. In id xs) (rw (sinks, e, f) refl) h))
    | inl f ↦ elim (subst (λ xs. In id xs) (passes j e f) h) [
      | inl same ↦ record {
        node = n;
        listed = inl refl;
        named = e ∙ ap some (sym same);
        synthesis = ground (arith, f);
        out = subst (λ k. elem k refs ≡ false) (sym same) (ground (arith, f));
      }
      | inr later ↦ IsFound-cons refs n nodes id (sinks-IsFound refs nodes id later)
    ]
  ]
]
  where
    passes :
        (j : ℤ)
        → as_int (get "id" n) ≡ some j
        → (is_text (get "type" n) "synthesis" && not (elem j refs)) ≡ true
        → sinks refs (n ∷ nodes) ≡ j ∷ sinks refs nodes
    passes j e f = rw (sinks, e, f) refl

sinks-In :
    (refs : List ℤ) (nodes : List Members) (id : ℤ) (m : Members)
    → In m nodes
    → as_int (get "id" m) ≡ some id
    → is_text (get "type" m) "synthesis" ≡ true
    → elem id refs ≡ false
    → In id (sinks refs nodes)
unfolding sinks
sinks-In refs [] id m h e f out = absurd h
sinks-In refs (n ∷ nodes) id m (inl same) e f out =
    let named : as_int (get "id" n) ≡ some id = ap (λ x. as_int (get "id" x)) (sym same) ∙ e in
    let synthesis : is_text (get "type" n) "synthesis" ≡ true =
      ap (λ x. is_text (get "type" x) "synthesis") (sym same) ∙ f in
    rw (sinks, named, synthesis, out) (inl refl)
sinks-In refs (n ∷ nodes) id m (inr h) e f out = elim (Option-cases (as_int (get "id" n))) [
  | inl g ↦ rw (sinks, g) (sinks-In refs nodes id m h e f out)
  | inr (j, g) ↦ elim (Bool-cases (is_text (get "type" n) "synthesis" && not (elem j refs))) [
    | inl k ↦ rw (sinks, g, k) (inr (sinks-In refs nodes id m h e f out))
    | inr k ↦ rw (sinks, g, k) (sinks-In refs nodes id m h e f out)
  ]
]

only-one : (xs : List ℤ) (sink : ℤ) → only xs ≡ some sink → xs ≡ sink ∷ []
only-one [] sink e = absurd (ground (arith, e))
only-one (x ∷ []) sink e = ground (arith, e)
only-one (x ∷ y ∷ xs) sink e = absurd (ground (arith, e))

-- What the one synthesis sink is.
pub single_terminal_synthesis_lem :
    (nodes : List Members) (sink : ℤ)
    → single_terminal_synthesis nodes ≡ some (some sink)
    → IsSink nodes sink × ((other : ℤ) → IsSink nodes other → other ≡ sink)
unfolding single_terminal_synthesis
single_terminal_synthesis_lem nodes sink e = elim (Option-cases (referenced nodes)) [
  | inl f ↦ absurd (ground (arith, e, f))
  | inr (refs, f) ↦
      let one : sinks refs nodes ≡ sink ∷ [] =
        only-one (sinks refs nodes) sink (ground (arith, e, f)) in
      (is_sink refs f one, only_sink refs f one)
]
  where
    is_sink :
        (refs : List ℤ)
        → referenced nodes ≡ some refs
        → sinks refs nodes ≡ sink ∷ []
        → IsSink nodes sink
    is_sink refs f one =
        let found = sinks-IsFound refs nodes sink (subst (λ xs. In sink xs) (sym one) (inl refl)) in
        record {
          node = found.node;
          listed = found.listed;
          named = found.named;
          synthesis = found.synthesis;
          not_needed = λ m deps h d. (referenced-none nodes refs sink f found.out m h).0 deps d;
          no_target = λ m h. (referenced-none nodes refs sink f found.out m h).1;
        }

    only_sink :
        (refs : List ℤ)
        → referenced nodes ≡ some refs
        → sinks refs nodes ≡ sink ∷ []
        → (other : ℤ) → IsSink nodes other
        → other ≡ sink
    only_sink refs f one other s =
        let out = referenced-out nodes refs other f s.not_needed s.no_target in
        elim (subst (λ xs. In other xs) one
          (sinks-In refs nodes other s.node s.listed s.named s.synthesis out)) [
            | inl same ↦ same
            | inr none_left ↦ absurd none_left
          ]
