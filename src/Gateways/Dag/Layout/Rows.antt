-- ===== src/Gateways/Dag/Layout/Rows.antt =====
-- The rows of the diagram: its boxes stand apart, and inside its width.
use glassrail.Common.{
  List, [], ap, arith, map, negsuc, pos, refl, subst, suc, zero, ℕ, ℤ, ◌+◌, ◌-◌, ◌/◌, ◌<◌, ◌∙◌, ◌∷◌,
  ◌≡◌, ◌≤◌,
}
use glassrail.Gateways.Dag.Layout.{
  Placed, item_width, place_row, row_width, total_width, shift, centred, layout_rows, col_gap,
}

-- From column `c` on, each item has its centre in its own columns, and a gap stands before the next.
abbrev pub Spread : ℕ → List Placed → Type 0
Spread c [] = Unit {0}
Spread c (p ∷ ps) =
    (c ≤ p.left)
    × (p.left ≤ p.centre)
    × (p.centre < p.left + item_width p.item)
    × Spread (p.left + item_width p.item + col_gap) ps

-- Every item ends before column `w`.
abbrev pub Within : ℕ → List Placed → Type 0
Within w [] = Unit {0}
Within w (p ∷ ps) = (p.left + item_width p.item ≤ w) × Within w ps

half_width : (item : ℤ) → item_width item / 2 < item_width item
unfolding item_width
half_width (pos zero) = omega arith
half_width (pos (suc n)) = omega arith
half_width (negsuc n) = omega arith

Spread-place_row : (cursor : ℕ) (row : List ℤ) → Spread cursor (place_row cursor row).0
unfolding place_row
Spread-place_row cursor [] = tt
Spread-place_row cursor (item ∷ row) = (
  omega arith,
  omega arith,
  omega (arith, half_width item),
  Spread-place_row (cursor + item_width item + col_gap) row,
)

place_row-le : (cursor : ℕ) (row : List ℤ) → cursor ≤ (place_row cursor row).1
unfolding place_row
place_row-le cursor [] = omega arith
place_row-le cursor (item ∷ row) =
    omega (arith, place_row-le (cursor + item_width item + col_gap) row)

Within-place_row :
    (cursor w : ℕ) (row : List ℤ)
    → (place_row cursor row).1 - col_gap ≤ w
    → Within w (place_row cursor row).0
unfolding place_row
Within-place_row cursor w [] h = tt
Within-place_row cursor w (item ∷ row) h = (
  omega (arith, h, place_row-le (cursor + item_width item + col_gap) row),
  Within-place_row (cursor + item_width item + col_gap) w row h,
)

Spread-weaken : (c d : ℕ) (ps : List Placed) → d ≤ c → Spread c ps → Spread d ps
Spread-weaken c d [] h s = tt
Spread-weaken c d (p ∷ ps) h (from_c, at_left, at_right, rest) =
    (omega (arith, h, from_c), at_left, at_right, rest)

Spread-shift :
    (offset c : ℕ) (ps : List Placed) → Spread c ps → Spread (c + offset) (shift offset ps)
unfolding shift
Spread-shift offset c [] s = tt
Spread-shift offset c (p ∷ ps) (from_c, at_left, at_right, rest) = (
  omega (arith, from_c),
  omega (arith, at_left),
  omega (arith, at_right),
  subst (λ n. Spread n (shift offset ps)) (omega arith)
      (Spread-shift offset (p.left + item_width p.item + col_gap) ps rest),
)

Within-shift :
    (offset w : ℕ) (ps : List Placed) → Within w ps → Within (w + offset) (shift offset ps)
unfolding shift
Within-shift offset w [] h = tt
Within-shift offset w (p ∷ ps) (h, rest) = (omega (arith, h), Within-shift offset w ps rest)

Within-weaken : (w v : ℕ) (ps : List Placed) → w ≤ v → Within w ps → Within v ps
Within-weaken w v [] h s = tt
Within-weaken w v (p ∷ ps) h (at_end, rest) =
    (omega (arith, h, at_end), Within-weaken w v ps h rest)

-- The items of a row that is laid out.
abbrev pub placed_items : List Placed → List ℤ
placed_items ps = map (λ p. p.item) ps

placed_items-shift :
    (offset : ℕ) (ps : List Placed) → placed_items (shift offset ps) ≡ placed_items ps
unfolding shift
placed_items-shift offset [] = refl
placed_items-shift offset (p ∷ ps) = ap (λ is. p.item ∷ is) (placed_items-shift offset ps)

placed_items-place_row : (cursor : ℕ) (row : List ℤ) → placed_items (place_row cursor row).0 ≡ row
unfolding place_row
placed_items-place_row cursor [] = refl
placed_items-place_row cursor (item ∷ row) =
    ap (λ is. item ∷ is) (placed_items-place_row (cursor + item_width item + col_gap) row)

-- A row of the diagram that fits its width.
abbrev pub Fits : ℕ → List ℤ → List Placed → Type 0
Fits w row ps = (placed_items ps ≡ row) × Spread 0 ps × Within w ps

centred-Fits : (w : ℕ) (row : List ℤ) → row_width row ≤ w → Fits w row (centred w row)
unfolding centred row_width
centred-Fits w row fits =
    let offset = (w - row_width row) / 2 in
    (
      placed_items-shift offset (place_row 0 row).0 ∙ placed_items-place_row 0 row,
      Spread-weaken (0 + offset) 0 (shift offset (place_row 0 row).0) (omega arith)
          (Spread-shift offset 0 (place_row 0 row).0 (Spread-place_row 0 row)),
      Within-weaken (row_width row + offset) w (shift offset (place_row 0 row).0)
          (omega (arith, fits))
          (Within-shift offset (row_width row) (place_row 0 row).0
            (Within-place_row 0 (row_width row) row (omega arith))),
    )

-- Every row of the diagram fits.
abbrev pub AllFit : ℕ → List (List ℤ) → List (List Placed) → Type 0
AllFit w [] [] = Unit {0}
AllFit w [] (ps ∷ pss) = ⊥
AllFit w (row ∷ rows) [] = ⊥
AllFit w (row ∷ rows) (ps ∷ pss) = Fits w row ps × AllFit w rows pss

centred-AllFit :
    (w : ℕ) (rows : List (List ℤ)) → total_width rows ≤ w → AllFit w rows (map (centred w) rows)
unfolding total_width
centred-AllFit w [] h = tt
centred-AllFit w (row ∷ rows) h =
    (centred-Fits w row (omega (arith, h)), centred-AllFit w rows (omega (arith, h)))

-- The layout puts the items of each layer in a row, in their order: from left to right, each item's
-- centre is in its own columns, at least the gap of four columns stands between an item and the next,
-- and every item ends within the width of the diagram.
pub layout_rows-AllFit :
    (items : List (List ℤ)) → AllFit (total_width items) items (layout_rows items)
unfolding layout_rows
layout_rows-AllFit items = centred-AllFit (total_width items) items (omega arith)
