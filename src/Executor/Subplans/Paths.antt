-- ===== src/Executor/Subplans/Paths.antt =====
-- The paths that events give nested nodes, read back.
use glassrail.Common.{
  Bool-cases, Chars, List, [], ap, append-nil, append_assoc, arith, drop, elem, false,
  if◌then◌else◌, inl, inr, length, length-append, refl, some, sym, ℕ, ℤ, ◌++◌, ◌==◌, ◌∙◌, ◌∷◌, ◌≡◌,
  nat_eq,
}
use mathlib.Core.Option.{some_inj}
use mathlib.Core.Path.{ap₂}
use glassrail.Executor.Subplans.{node_path, child_path}

-- The prefix that a plan gets which is nested in the nodes `ids`, from the outermost inwards.
unfoldable pub prefix_from : (show : ℤ → Chars) → Chars → List ℤ → Chars
unfolding child_path
prefix_from show before [] = before
prefix_from show before (i ∷ ids) = prefix_from show (child_path show before i) ids

-- What Python documents of `str` of an integer: it is not empty, it has no slash, and no other
-- integer has the same.
pub record ShowLaw (show : ℤ → Chars) : Type 0 where
  pub starts : (i : ℤ) → (c : ℕ) × (cs : Chars) × (show i ≡ c ∷ cs)
  pub no_slash : (i : ℤ) → elem b'/' (show i) ≡ false
  pub injective : (i j : ℤ) → show i ≡ show j → i ≡ j

-- The text before the first slash, and the text after it.
abbrev head_part : Chars → Chars
head_part [] = []
head_part (c ∷ cs) = if c == b'/' then [] else c ∷ head_part cs

abbrev tail_part : Chars → Chars
tail_part [] = []
tail_part (c ∷ cs) = if c == b'/' then c ∷ cs else tail_part cs

-- What follows the first id of a path.
abbrev rest_of : (show : ℤ → Chars) → List ℤ → Chars
rest_of show [] = []
rest_of show (i ∷ ids) = b'/' ∷ (show i ++ rest_of show ids)

head_part-append :
    (show : ℤ → Chars) (ids : List ℤ) (text : Chars)
    → elem b'/' text ≡ false
    → (head_part (text ++ rest_of show ids) ≡ text)
      × (tail_part (text ++ rest_of show ids) ≡ rest_of show ids)
unfolding elem
head_part-append show [] [] clean = (refl, refl)
head_part-append show (i ∷ ids) [] clean = (refl, refl)
head_part-append show ids (c ∷ text) clean = elim (Bool-cases (c == b'/')) [
  | inl e ↦ absurd (ground (arith, clean, e, nat_eq.beq_iff c b'/', nat_eq.beq_iff b'/' c))
  | inr e ↦
      let (front, back) = head_part-append show ids text (ground (arith, clean)) in
      rw e (ap (λ t. c ∷ t) front, back)
]

module _ (show : ℤ → Chars) (law : ShowLaw show) where
  rest_of_injective : (is js : List ℤ) → rest_of show is ≡ rest_of show js → is ≡ js
  unfolding drop
  rest_of_injective [] [] e = refl
  rest_of_injective [] (j ∷ js) e = absurd (ground (arith, e))
  rest_of_injective (i ∷ is) [] e = absurd (ground (arith, e))
  rest_of_injective (i ∷ is) (j ∷ js) e =
      let body : show i ++ rest_of show is ≡ show j ++ rest_of show js = ap (drop 1) e in
      let (front_i, back_i) = head_part-append show is (show i) (law.no_slash i) in
      let (front_j, back_j) = head_part-append show js (show j) (law.no_slash j) in
      ap₂ (λ k ks. k ∷ ks) (law.injective i j (sym front_i ∙ ap head_part body ∙ front_j))
        (rest_of_injective is js (sym back_i ∙ ap tail_part body ∙ back_j))

  prefix_from-cons :
      (c : ℕ) (before : Chars) (ids : List ℤ)
      → prefix_from show (c ∷ before) ids ≡ (c ∷ before) ++ rest_of show ids
  unfolding prefix_from child_path
  prefix_from-cons c before [] = sym (append-nil (c ∷ before))
  prefix_from-cons c before (i ∷ ids) =
      prefix_from-cons c (before ++ b'/' ∷ show i) ids
      ∙ append_assoc (c ∷ before) (b'/' ∷ show i) (rest_of show ids)

  path_parts :
      (a b : ℤ) (is js : List ℤ)
      → show a ++ rest_of show is ≡ show b ++ rest_of show js
      → (a ≡ b) × (is ≡ js)
  path_parts a b is js e =
      let (front_i, back_i) = head_part-append show is (show a) (law.no_slash a) in
      let (front_j, back_j) = head_part-append show js (show b) (law.no_slash b) in
      (
        law.injective a b (sym front_i ∙ ap head_part e ∙ front_j),
        rest_of_injective is js (sym back_i ∙ ap tail_part e ∙ back_j),
      )

  rest_of-snoc :
      (is : List ℤ) (i : ℤ) → rest_of show (is ++ i ∷ []) ≡ rest_of show is ++ (b'/' ∷ show i)
  rest_of-snoc [] i = ap (λ t. b'/' ∷ t) (append-nil (show i))
  rest_of-snoc (j ∷ is) i =
      ap (λ t. b'/' ∷ (show j ++ t)) (rest_of-snoc is i)
      ∙ ap (λ t. b'/' ∷ t) (sym (append_assoc (show j) (rest_of show is) (b'/' ∷ show i)))

  node_path-prefix_from :
      (a : ℤ) (is : List ℤ) (i : ℤ)
      → node_path show (prefix_from show [] (a ∷ is)) i
        ≡ some (show a ++ rest_of show (is ++ i ∷ []))
  unfolding prefix_from node_path child_path
  node_path-prefix_from a is i =
      let (c, cs, e) = law.starts a in
      rw (rest_of-snoc is i, e, prefix_from-cons c cs is)
        (ap some (append_assoc (c ∷ cs) (rest_of show is) (b'/' ∷ show i)))

  snoc_injective : (is js : List ℤ) (i j : ℤ) → is ++ i ∷ [] ≡ js ++ j ∷ [] → (is ≡ js) × (i ≡ j)
  unfolding drop
  snoc_injective [] [] i j e = (refl, ground (arith, e))
  snoc_injective [] (k ∷ js) i j e = absurd (omega (arith, ap length e, length-append js (j ∷ [])))
  snoc_injective (k ∷ is) [] i j e = absurd (omega (arith, ap length e, length-append is (i ∷ [])))
  snoc_injective (k ∷ is) (l ∷ js) i j e =
      let (same, last) = snoc_injective is js i j (ap (drop 1) e) in
      (ap₂ (λ x xs. x ∷ xs) (ground (arith, e)) same, last)

  -- The path in an event names one nested node: for paths made of the texts of node ids, which have
  -- no slash and differ for different ids, two nodes with the same path lie in the same chain of
  -- nested plans, and have the same id there.
  pub node_path_injective :
      (a b : ℤ) (is js : List ℤ) (i j : ℤ)
      → node_path show (prefix_from show [] (a ∷ is)) i
        ≡ node_path show (prefix_from show [] (b ∷ js)) j
      → (a ∷ is ≡ b ∷ js) × (i ≡ j)
  node_path_injective a b is js i j e =
      let same =
        some_inj.0 (sym (node_path-prefix_from a is i) ∙ e ∙ node_path-prefix_from b js j) in
      let (first, rest) = path_parts a b (is ++ i ∷ []) (js ++ j ∷ []) same in
      let (middle, last) = snoc_injective is js i j rest in
      (ap₂ (λ k ks. k ∷ ks) first middle, last)
