-- ===== src/Common/Counts.antt =====
-- Membership as a type, and the number of times that a value stands in a list.
use Prim.Native.Nat.{ℕ, ◌+◌, ◌-◌, ◌≤◌}
use mathlib.Core.Path.{◌≡◌, refl, ap}
use mathlib.Core.Logic.{◌⊎◌, inl, inr, ◌↔◌}
use mathlib.Core.Bool.{Bool, true}
use mathlib.Core.List.{List, [], ◌∷◌, ◌++◌, map}
use native.Mathlib.Omega.{arith}
use glassrail.Common.Tests.{Eq, ◌==◌, if◌then◌else◌, Bool-cases}
use glassrail.Common.Lists.{length, elem, add, filter, insert_sorted, sort, all}

abbrev pub In : {A : Type 0} → A → List A → Type 0
In a [] = ⊥
In a (x ∷ xs) = (a ≡ x) ⊎ In a xs

pub In-map : {A B : Type 0} (f : A → B) (a : A) (xs : List A) → In a xs → In (f a) (map f xs)
In-map f a [] h = absurd h
In-map f a (x ∷ xs) (inl e) = inl (ap f e)
In-map f a (x ∷ xs) (inr h) = inr (In-map f a xs h)

module _ {A : Type 0} ⦃e : Eq A⦄ where
  unfoldable pub count : A → List A → ℕ
  count a [] = 0
  count a (x ∷ xs) = (if a == x then 1 else 0) + count a xs

  pub beq_refl : (a : A) → (a == a) ≡ true
  beq_refl a = (e.beq_iff a a).1 refl

  pub count-append : (a : A) (xs ys : List A) → count a (xs ++ ys) ≡ count a xs + count a ys
  unfolding count
  count-append a [] ys = omega arith
  count-append a (x ∷ xs) ys = omega (arith, count-append a xs ys)

  pub count-snoc :
      (a x : A) (xs : List A) → count a (xs ++ x ∷ []) ≡ count a xs + (if a == x then 1 else 0)
  unfolding count
  count-snoc a x xs = omega (arith, count-append a xs (x ∷ []))

  pub count_of_In : (a : A) (xs : List A) → In a xs → 1 ≤ count a xs
  unfolding count
  count_of_In a [] h = absurd h
  count_of_In a (x ∷ xs) (inl p) = ground (arith, e.beq_iff a x)
  count_of_In a (x ∷ xs) (inr h) = omega (arith, count_of_In a xs h)

  pub In-of_count : (a : A) (xs : List A) → 1 ≤ count a xs → In a xs
  unfolding count
  In-of_count a [] h = elim h [ ]
  In-of_count a (x ∷ xs) h = elim (Bool-cases (a == x)) [
    | inl p ↦ inl ((e.beq_iff a x).0 p)
    | inr p ↦ inr (In-of_count a xs (ground arith))
  ]

  pub elem_iff_count : (a : A) (xs : List A) → (elem a xs ≡ true) ↔ (1 ≤ count a xs)
  unfolding elem count
  elem_iff_count a [] = ground arith
  elem_iff_count a (x ∷ xs) = ground (arith, elem_iff_count a xs)

  pub count-add : (a x : A) (xs : List A) → 1 ≤ count a (add x xs) → (a ≡ x) ⊎ (1 ≤ count a xs)
  unfolding add
  count-add a x xs h = ground (arith, count-snoc a x xs, e.beq_iff a x)

  pub count-add_self : (x : A) (xs : List A) → 1 ≤ count x (add x xs)
  unfolding add
  count-add_self x xs = ground (arith, count-snoc x x xs, beq_refl x, elem_iff_count x xs)

  pub count-le-add : (a x : A) (xs : List A) → count a xs ≤ count a (add x xs)
  unfolding add
  count-le-add a x xs = ground (arith, count-snoc a x xs)

  pub count-sort :
      (before : A → A → Bool) (a : A) (xs : List A) → count a (sort before xs) ≡ count a xs
  unfolding count sort
  count-sort before a [] = refl
  count-sort before a (x ∷ xs) = omega (arith, placed (sort before xs), count-sort before a xs)
    where
      placed :
          (ys : List A)
          → count a (insert_sorted before x ys) ≡ (if a == x then 1 else 0) + count a ys
      placed [] = refl
      placed (y ∷ ys) = ground (arith, placed ys)

  pub count-filter :
      (p : A → Bool) (a : A) (xs : List A) → count a (filter p xs) ≡ (if p a then count a xs else 0)
  unfolding count filter
  count-filter p a [] = ground arith
  count-filter p a (x ∷ xs) = ground (arith, count-filter p a xs, e.beq_iff a x)

  -- the list without its first `a`
  unfoldable pub erase : A → List A → List A
  erase a [] = []
  erase a (x ∷ xs) = if a == x then xs else x ∷ erase a xs

  pub count-erase :
      (a b : A) (xs : List A) → count b (erase a xs) ≡ count b xs - (if b == a then 1 else 0)
  unfolding count erase
  count-erase a b [] = ground arith
  count-erase a b (x ∷ xs) =
      ground (arith, count-erase a b xs, e.beq_iff a x, e.beq_iff b a, e.beq_iff b x)

  pub length-erase : (a : A) (xs : List A) → 1 ≤ count a xs → length (erase a xs) + 1 ≡ length xs
  unfolding count erase
  length-erase a [] h = elim h [ ]
  length-erase a (x ∷ xs) h = ground (arith, length-erase a xs)

  pub length-le_of_count :
      (xs ys : List A) → ((a : A) → count a xs ≤ count a ys) → length xs ≤ length ys
  unfolding count
  length-le_of_count [] ys h = omega arith
  length-le_of_count (x ∷ xs) ys h = ground (
    arith,
    h x,
    beq_refl x,
    length-erase x ys,
    length-le_of_count xs (erase x ys) (λ a. ground (arith, h a, count-erase x a ys)),
  )

  pub count-eq_of_length :
      (xs ys : List A)
      → ((a : A) → count a xs ≤ count a ys)
      → length ys ≤ length xs
      → (a : A) → count a xs ≡ count a ys
  unfolding count
  count-eq_of_length [] [] h l a = refl
  count-eq_of_length [] (y ∷ ys) h l a = absurd (omega arith)
  count-eq_of_length (x ∷ xs) ys h l a = ground (
    arith,
    h x,
    beq_refl x,
    length-erase x ys,
    count-erase x a ys,
    e.beq_iff a x,
    λ (p : length (erase x ys) ≤ length xs).
        count-eq_of_length xs (erase x ys) (λ b. ground (arith, h b, count-erase x b ys)) p a,
  )

  pub count-add_iff :
      (a x : A) (xs : List A) → (1 ≤ count a (add x xs)) ↔ ((a ≡ x) ⊎ (1 ≤ count a xs))
  count-add_iff a x xs = (
    count-add a x xs,
    elim [ inl p ↦ rw p (count-add_self x xs) | inr h ↦ omega (arith, count-le-add a x xs) ],
  )

  pub In-iff : (a : A) (xs : List A) → (1 ≤ count a xs) ↔ In a xs
  In-iff a xs = (In-of_count a xs, count_of_In a xs)

  pub all_iff :
      (p : A → Bool) (xs : List A) → (all p xs ≡ true) ↔ ((a : A) → 1 ≤ count a xs → p a ≡ true)
  unfolding all count
  all_iff p xs = (there xs, back xs)
    where
      there : (ys : List A) → all p ys ≡ true → (a : A) → 1 ≤ count a ys → p a ≡ true
      there [] h a m = elim m [ ]
      there (y ∷ ys) h a m =
          ground (arith, λ (rest : all p ys ≡ true). there ys rest a, e.beq_iff a y)

      back : (ys : List A) → ((a : A) → 1 ≤ count a ys → p a ≡ true) → all p ys ≡ true
      back [] h = refl
      back (y ∷ ys) h = ground (arith, h y, beq_refl y, back ys (λ a m. h a (omega arith)))
