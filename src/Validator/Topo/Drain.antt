-- ===== src/Validator/Topo/Drain.antt =====
-- The whole run of Kahn's algorithm: it keeps the invariant and empties the queue.
use glassrail.Common.{
  Bool-cases, In, List, List-cases, [], ap, arith, count, count-append, count-filter, count-sort,
  elem_iff_count, filter, if◌then◌else◌, inl, inr, int_beq_iff, int_leb, length, length-append,
  length-le_of_count, nat_beq, sort, suc, zero, ℕ, ℤ, ◌&&◌, ◌++◌, ◌+◌, ◌==◌, ◌↔◌, ◌∙◌, ◌∷◌, ◌≡◌,
  ◌≤◌, int_eq,
}
use glassrail.Validator.Topo.{
  Edge, Kahn, degree, release, pop, drain, neighbours, start, kahn, in_degrees, zero_degrees,
  id_set,
}
use glassrail.Validator.Topo.Counts.{
  pend, count-neighbours_nil, count-neighbours_cons, degree-in_degrees, degree-zero_degrees,
}
use glassrail.Validator.Topo.Steps.{IsSound, pop-IsSound, release-IsSound, length-release-pop}

pub In-of_neighbours : (es : List Edge) (i x : ℤ) → 1 ≤ count x (neighbours es i) → In (i, x) es
In-of_neighbours [] i x h = absurd (omega (arith, count-neighbours_nil x i))
In-of_neighbours ((s, t) ∷ es) i x h = elim (Bool-cases (s == i && x == t)) [
  | inl e ↦ inl (ground (arith, int_beq_iff s i, int_beq_iff x t))
  | inr e ↦ inr (In-of_neighbours es i x (ground (arith, count-neighbours_cons x i s t es)))
]

pub count-id_set-le : (x : ℤ) (is : List ℤ) → count x (id_set is) ≤ 1
unfolding id_set count
count-id_set-le x [] = omega arith
count-id_set-le x (i ∷ is) =
    ground (arith, count-id_set-le x is, elem_iff_count i (id_set is), int_beq_iff x i)

pub count-id_set : (x : ℤ) (is : List ℤ) → (1 ≤ count x (id_set is)) ↔ (1 ≤ count x is)
unfolding id_set count
count-id_set x [] = ground arith
count-id_set x (i ∷ is) =
    ground (arith, count-id_set x is, elem_iff_count i (id_set is), int_beq_iff x i)

module _ (es : List Edge) (all_ids : List ℤ)
    (inside : (s t : ℤ) → In (s, t) es → 1 ≤ count t all_ids)
    (distinct : (x : ℤ) → count x all_ids ≤ 1) where
  start-IsSound : IsSound es all_ids [] (start all_ids es)
  unfolding start count
  start-IsSound = record {
    degrees = λ x. ground (arith, deg x);
    released = λ x. ground (arith, queued x);
    once = λ x. ground (arith, queued x, distinct x);
    known = λ x. ground (arith, queued x);
    complete = λ x. ground (arith, queued x);
    ordered = tt;
  }
    where
      d : List (ℤ × ℕ)
      d = in_degrees es (zero_degrees all_ids)

      deg : (x : ℤ) → degree d x ≡ pend es [] x
      deg x =
          omega
            (arith, degree-in_degrees es (zero_degrees all_ids) x, degree-zero_degrees all_ids x)

      queued :
          (x : ℤ)
          → count x (sort int_leb (filter (λ i. nat_beq (degree d i) 0) all_ids))
            ≡ (if nat_beq (degree d x) 0 then count x all_ids else 0)
      queued x =
          count-sort int_leb x (filter (λ i. nat_beq (degree d i) 0) all_ids)
          ∙ count-filter (λ i. nat_beq (degree d i) 0) x all_ids

  -- Every id of `sorted_ids` and of the queue is an id of the plan, and none stands there twice.
  length-sorted_ids-le :
      (k : Kahn) → IsSound es all_ids [] k → length k.sorted_ids + length k.queue ≤ length all_ids
  length-sorted_ids-le k v = omega (
    arith,
    length-append k.sorted_ids k.queue,
    length-le_of_count (k.sorted_ids ++ k.queue) all_ids
        (λ x. ground (arith, count-append x k.sorted_ids k.queue, v.once x, v.known x)),
  )

  round-IsSound :
      (i : ℤ) (rest : List ℤ) (k : Kahn)
      → k.queue ≡ i ∷ rest
      → IsSound es all_ids [] k
      → IsSound es all_ids [] (release (neighbours es i) (pop i rest k))
  round-IsSound i rest k e v =
      release-IsSound es all_ids (neighbours es i) (pop i rest k)
        (λ x h. inside i x (In-of_neighbours es i x h)) (pop-IsSound es all_ids i rest k e v)

  pub drain-IsSound :
      (fuel : ℕ) (k : Kahn)
      → length all_ids ≤ fuel + length k.sorted_ids
      → IsSound es all_ids [] k
      → IsSound es all_ids [] (drain es fuel k) × ((drain es fuel k).queue ≡ [])
  unfolding drain
  drain-IsSound zero k enough v = (v, queue_nil)
    where
      queue_nil : k.queue ≡ []
      queue_nil = elim (List-cases k.queue) [
        | inl e ↦ e
        | inr (i, rest, e) ↦ absurd (omega (arith, length-sorted_ids-le k v, ap (length {A = ℤ}) e))
      ]
  drain-IsSound (suc fuel) k enough v = elim (List-cases k.queue) [
    | inl e ↦ rw (e, drain) (v, e)
    | inr (i, rest, e) ↦
        rw (e, drain)
          (drain-IsSound fuel (release (neighbours es i) (pop i rest k))
            (omega (arith, length-release-pop (neighbours es i) i rest k))
            (round-IsSound i rest k e v))
  ]

  pub kahn-IsSound : IsSound es all_ids [] (kahn all_ids es) × ((kahn all_ids es).queue ≡ [])
  unfolding kahn
  kahn-IsSound = drain-IsSound (length all_ids) (start all_ids es) (omega arith) start-IsSound
