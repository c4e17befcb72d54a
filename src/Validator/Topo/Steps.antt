-- ===== src/Validator/Topo/Steps.antt =====
-- The invariant of the two loops of `topo_sort`.
use mathlib.Core.List.{append-nil, append_assoc}
use glassrail.Common.{
  List, [], arith, beq_refl, count, count-snoc, if◌then◌else◌, insert, int_beq_iff, length,
  length-append, refl, ℕ, ℤ, ◌++◌, ◌+◌, ◌-◌, ◌==◌, ◌∷◌, ◌≡◌, ◌≤◌, int_eq,
}
use glassrail.Validator.Topo.{Edge, Kahn, degree, visit, release, pop, neighbours}
use glassrail.Validator.Topo.Counts.{pend, pend-snoc, degree-insert}

-- Each id of the list comes after the sources of its edges.
abbrev pub IsOrdered : List Edge → List ℤ → List ℤ → Type 0
IsOrdered es before [] = Unit
IsOrdered es before (i ∷ is) = (pend es before i ≡ 0) × IsOrdered es (before ++ i ∷ []) is

pub IsOrdered-snoc :
    (es : List Edge) (before is : List ℤ) (i : ℤ)
    → IsOrdered es before is
    → pend es (before ++ is) i ≡ 0
    → IsOrdered es before (is ++ i ∷ [])
IsOrdered-snoc es before [] i h p = (rw append-nil at p, tt)
IsOrdered-snoc es before (j ∷ is) i h p =
    (h.0, IsOrdered-snoc es (before ++ j ∷ []) is i h.1 (rw append_assoc p))

-- `todo` holds the neighbours that the `for` loop has still to visit.
pub record IsSound (es : List Edge) (all_ids todo : List ℤ) (k : Kahn) : Type 0 where
  pub degrees : (x : ℤ) → degree k.in_degree x ≡ pend es k.sorted_ids x + count x todo
  pub released : (x : ℤ) → 1 ≤ count x k.sorted_ids + count x k.queue → degree k.in_degree x ≡ 0
  pub once : (x : ℤ) → count x k.sorted_ids + count x k.queue ≤ 1
  pub known : (x : ℤ) → 1 ≤ count x k.sorted_ids + count x k.queue → 1 ≤ count x all_ids
  pub complete :
      (x : ℤ)
      → 1 ≤ count x all_ids
      → degree k.in_degree x ≡ 0
      → 1 ≤ count x k.sorted_ids + count x k.queue
  pub ordered : IsOrdered es [] k.sorted_ids

module _ (es : List Edge) (all_ids : List ℤ) where
  visit-IsSound :
      (t : ℤ) (ts : List ℤ) (k : Kahn)
      → 1 ≤ count t all_ids
      → IsSound es all_ids (t ∷ ts) k
      → IsSound es all_ids ts (visit t k)
  unfolding visit count
  visit-IsSound t ts k inside v = record {
    degrees = λ x. ground (arith, v.degrees x, deg x, int_beq_iff t x, int_beq_iff x t);
    released = λ x.
        ground (arith, v.released x, v.degrees x, deg x, grown x, int_beq_iff t x, int_beq_iff x t);
    once = λ x. ground (arith, v.once x, v.released x, v.degrees x, grown x, int_beq_iff x t);
    known = λ x. ground (arith, v.known x, grown x, int_beq_iff x t);
    complete = λ x. ground (arith, v.complete x, deg x, grown x, int_beq_iff t x, int_beq_iff x t);
    ordered = v.ordered;
  }
    where
      left : ℕ
      left = degree k.in_degree t - 1

      deg :
          (x : ℤ)
          → degree (insert t left k.in_degree) x ≡ (if t == x then left else degree k.in_degree x)
      deg x = degree-insert k.in_degree t x left

      grown : (x : ℤ) → count x (k.queue ++ t ∷ []) ≡ count x k.queue + (if x == t then 1 else 0)
      grown x = count-snoc x t k.queue

  pub release-IsSound :
      (ts : List ℤ) (k : Kahn)
      → ((x : ℤ) → 1 ≤ count x ts → 1 ≤ count x all_ids)
      → IsSound es all_ids ts k
      → IsSound es all_ids [] (release ts k)
  unfolding release count
  release-IsSound [] k inside v = v
  release-IsSound (t ∷ ts) k inside v =
      release-IsSound ts (visit t k) (λ x h. inside x (omega arith))
        (visit-IsSound t ts k (inside t (ground (arith, beq_refl t))) v)

  pub pop-IsSound :
      (i : ℤ) (rest : List ℤ) (k : Kahn)
      → k.queue ≡ i ∷ rest
      → IsSound es all_ids [] k
      → IsSound es all_ids (neighbours es i) (pop i rest k)
  unfolding pop count
  pop-IsSound i rest k e v = record {
    degrees = λ x.
        ground (arith, v.degrees x, pend-snoc es k.sorted_ids i x, v.once i, queued i, beq_refl i);
    released = λ x. ground (arith, v.released x, queued x, grown x);
    once = λ x. ground (arith, v.once x, queued x, grown x);
    known = λ x. ground (arith, v.known x, queued x, grown x);
    complete = λ x. ground (arith, v.complete x, queued x, grown x);
    ordered =
        IsOrdered-snoc es [] k.sorted_ids i v.ordered
          (ground (arith, v.released i, v.degrees i, queued i, beq_refl i));
  }
    where
      queued : (x : ℤ) → count x k.queue ≡ (if x == i then 1 else 0) + count x rest
      queued x = rw e

      grown :
          (x : ℤ)
          → count x (k.sorted_ids ++ i ∷ []) ≡ count x k.sorted_ids + (if x == i then 1 else 0)
      grown x = count-snoc x i k.sorted_ids

sorted_ids-release : (ts : List ℤ) (k : Kahn) → (release ts k).sorted_ids ≡ k.sorted_ids
unfolding release
sorted_ids-release [] k = refl
sorted_ids-release (t ∷ ts) k = sorted_ids-release ts (visit t k)

pub length-release-pop :
    (ts : List ℤ) (i : ℤ) (rest : List ℤ) (k : Kahn)
    → length (release ts (pop i rest k)).sorted_ids ≡ length k.sorted_ids + 1
unfolding pop
length-release-pop ts i rest k =
    rw (sorted_ids-release ts (pop i rest k)) (omega (arith, length-append k.sorted_ids (i ∷ [])))
