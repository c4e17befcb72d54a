-- ===== src/Executor/Context/Fresh.antt =====
-- A node sees the outputs that it declared, and each within its bound.
use glassrail.Common.{
  Bool-cases, Chars, List, [], ap, arith, codes, drop, elem, inl, inr, keep_last, leb, length,
  length-append, lookup, refl, suc, take, true, zero, ℕ, ℤ, ◌++◌, ◌+◌, ◌-◌, ◌/◌, ◌<◌, ◌∷◌, ◌≡◌, ◌≤◌,
  ◌⊎◌, int_eq,
}
use glassrail.Core.{Node}
use glassrail.Executor.Plans.{Results}
use glassrail.Executor.Context.{
  Shown, truncation_mark, truncate_middle, join, parts_of, consumers, assemble_context,
}

module _ (shown : Shown) (max_chars : ℕ) (old new : Results) where
  parts_of_same :
      (dep_ids : List ℤ)
      → ((i : ℤ) → elem i dep_ids ≡ true → lookup i old ≡ lookup i new)
      → parts_of shown max_chars old dep_ids ≡ parts_of shown max_chars new dep_ids
  unfolding parts_of elem
  parts_of_same [] same = refl
  parts_of_same (i ∷ dep_ids) same =
      rw
        (
          same i (ground (arith, (int_eq.beq_iff i i).1 refl)),
          parts_of_same dep_ids (λ j m. same j (ground (arith, m))),
        )
        refl

  -- The context of a node is the same for any two sets of results that agree on the nodes that it
  -- needs: it shows nothing of any other node's result.
  pub assemble_context_fresh :
      (n : Node) (dependent_nodes : List Node)
      → ((i : ℤ) → elem i n.context_needed ≡ true → lookup i old ≡ lookup i new)
      → assemble_context shown n old dependent_nodes max_chars
        ≡ assemble_context shown n new dependent_nodes max_chars
  unfolding assemble_context
  assemble_context_fresh n dependent_nodes same =
      ap (λ parts. join (codes "\n\n") (parts ++ consumers shown dependent_nodes))
        (parts_of_same n.context_needed same)

length-take : (k : ℕ) (text : Chars) → length (take k text) ≤ k
unfolding take
length-take zero text = omega arith
length-take (suc k) [] = omega arith
length-take (suc k) (c ∷ text) = omega (arith, length-take k text)

length-drop : (k : ℕ) (text : Chars) → length (drop k text) ≡ length text - k
unfolding drop
length-drop zero text = omega arith
length-drop (suc k) [] = omega arith
length-drop (suc k) (c ∷ text) = omega (arith, length-drop k text)

length-keep_last : (k : ℕ) (text : Chars) → 1 ≤ k → length (keep_last k text) ≤ k
unfolding keep_last
length-keep_last zero text some_kept = absurd (omega arith)
length-keep_last (suc k) text some_kept = omega (arith, length-drop (length text - suc k) text)

take-take :
    (k : ℕ) (text more : Chars) → k ≤ length text → take k (take k text ++ more) ≡ take k text
unfolding take
take-take zero text more enough = refl
take-take (suc k) [] more enough = absurd (omega arith)
take-take (suc k) (c ∷ text) more enough =
    ap (λ cs. c ∷ cs) (take-take k text more (omega (arith, enough)))

-- For a bound of two characters or more: a text within the bound is not changed; of a longer one the
-- first half of the bound is kept, and with the mark the result exceeds the bound by the mark at most.
pub truncate_middle_lem :
    (text : Chars) (max_chars : ℕ)
    → 2 ≤ max_chars
    → ((length text ≤ max_chars) × (truncate_middle text max_chars ≡ text))
      ⊎ ((max_chars < length text)
          × (take (max_chars / 2) (truncate_middle text max_chars) ≡ take (max_chars / 2) text)
          × (length (truncate_middle text max_chars) ≤ max_chars + length truncation_mark))
unfolding truncate_middle
truncate_middle_lem text max_chars wide = elim (Bool-cases (leb (length text) max_chars)) [
  | inl e ↦ inl (ground (arith, e), rw e refl)
  | inr e ↦
      let half = max_chars / 2 in
      let tail = keep_last half text in
      inr (
        ground (arith, e),
        rw e (take-take half text (truncation_mark ++ tail) (ground (arith, e))),
        rw e (
            omega (
              arith,
              wide,
              length-append (take half text) (truncation_mark ++ tail),
              length-append truncation_mark tail,
              length-take half text,
              length-keep_last half text (omega (arith, wide)),
            )),
      )
]
