-- ===== src/Validator/Topo/Counts.antt =====
-- The edges into an id whose source is not yet sorted, and what the loops of `topo_sort` leave of
-- them.
use glassrail.Common.{
  In, List, [], arith, count, count-snoc, count-sort, filter, if◌then◌else◌, inl, inr, insert,
  int_beq_iff, int_leb, lookup, lookup-insert, map, nat_beq, true, ℕ, ℤ, ◌&&◌, ◌++◌, ◌+◌, ◌==◌, ◌∷◌,
  ◌≡◌, ◌≤◌, int_eq,
}
use glassrail.Validator.Topo.{Edge, Degrees, degree, in_degrees, zero_degrees, neighbours}

-- The edges into `x` from an id that is not in `done`.
unfoldable pub pend : List Edge → List ℤ → ℤ → ℕ
pend [] done x = 0
pend ((s, t) ∷ es) done x = (if x == t && nat_beq (count s done) 0 then 1 else 0) + pend es done x

pub count-neighbours_nil : (x i : ℤ) → count x (neighbours [] i) ≡ 0
unfolding neighbours count filter
count-neighbours_nil x i = count-sort int_leb x []

pub count-neighbours_cons :
    (x i s t : ℤ) (es : List Edge)
    → count x (neighbours ((s, t) ∷ es) i)
      ≡ (if s == i && x == t then 1 else 0) + count x (neighbours es i)
unfolding neighbours filter count
count-neighbours_cons x i s t es = ground (
  arith,
  count-sort int_leb x (map (λ e. e.1) (filter (λ e. e.0 == i) es)),
  count-sort int_leb x (map (λ e. e.1) (filter (λ e. e.0 == i) ((s, t) ∷ es))),
)

-- Sorting `i` takes away the edges from it.
pub pend-snoc :
    (es : List Edge) (done : List ℤ) (i x : ℤ)
    → count i done ≡ 0
    → pend es done x ≡ pend es (done ++ i ∷ []) x + count x (neighbours es i)
unfolding pend
pend-snoc [] done i x h = omega (arith, count-neighbours_nil x i)
pend-snoc ((s, t) ∷ es) done i x h = ground (
  arith,
  count-neighbours_cons x i s t es,
  pend-snoc es done i x h,
  count-snoc s i done,
  int_beq_iff s i,
)

pub degree-insert :
    (d : Degrees) (k j : ℤ) (v : ℕ) → degree (insert k v d) j ≡ (if k == j then v else degree d j)
unfolding degree
degree-insert d k j v = ground (arith, lookup-insert k j v d)

pub degree-in_degrees :
    (es : List Edge) (d : Degrees) (x : ℤ) → degree (in_degrees es d) x ≡ degree d x + pend es [] x
unfolding in_degrees pend count
degree-in_degrees [] d x = omega arith
degree-in_degrees ((s, t) ∷ es) d x = ground (
  arith,
  degree-in_degrees es (insert t (degree d t + 1) d) x,
  degree-insert d t x (degree d t + 1),
  int_beq_iff t x,
  int_beq_iff x t,
)

pub degree-zero_degrees : (is : List ℤ) (x : ℤ) → degree (zero_degrees is) x ≡ 0
unfolding zero_degrees degree lookup
degree-zero_degrees [] x = ground arith
degree-zero_degrees (i ∷ is) x =
    ground (arith, degree-zero_degrees is x, lookup-insert i x 0 (zero_degrees is))

-- No edge into `t` is left exactly when the source of each is done.
pub done_of_pend :
    (es : List Edge) (done : List ℤ) (s t : ℤ)
    → pend es done t ≡ 0
    → In (s, t) es
    → 1 ≤ count s done
unfolding pend
done_of_pend [] done s t h m = absurd m
done_of_pend ((a, b) ∷ es) done s t h (inl e) = ground (arith, int_beq_iff t b)
done_of_pend ((a, b) ∷ es) done s t h (inr m) = done_of_pend es done s t (ground arith) m

pub pend_of_done :
    (es : List Edge) (done : List ℤ) (t : ℤ)
    → ((s : ℤ) → In (s, t) es → 1 ≤ count s done)
    → pend es done t ≡ 0
unfolding pend
pend_of_done [] done t h = omega arith
pend_of_done ((a, b) ∷ es) done t h =
    ground (arith, pend_of_done es done t (λ s m. h s (inr m)), first)
  where
    first : (t == b) ≡ true → 1 ≤ count a done
    first e = h a (inl (ground (arith, int_beq_iff t b)))
