-- ===== src/Common/Text.antt =====
-- Texts where the program walks through their characters: lists of code points.
use Prim.Native.Nat.{ℕ, zero, suc, ◌-◌}
use Prim.Native.Char.{code}
use Prim.Native.String.{String}
use mathlib.Core.Path.{◌≡◌, refl, ap}
use mathlib.Core.Bool.{Bool, true, false, ◌&&◌, ◌||◌}
use mathlib.Core.Option.{Option, none, some}
use mathlib.Core.List.{List, [], ◌∷◌, ◌++◌}
use glassrail.Common.Tests.{nat_beq, is_some, if◌then◌else◌}
use glassrail.Common.Lists.{length}

abbrev pub Chars : Type 0
Chars = List ℕ

abbrev pub codes : String → Chars
codes String.[] = []
codes (String.◌∷◌ c s) = code c ∷ codes s

module _ {ℓ} {A : Type ℓ} where
  -- `xs[:k]` and `xs[k:]` for a natural `k`
  unfoldable pub take : ℕ → List A → List A
  take zero xs = []
  take (suc k) [] = []
  take (suc k) (x ∷ xs) = x ∷ take k xs

  unfoldable pub drop : ℕ → List A → List A
  drop zero xs = xs
  drop (suc k) [] = []
  drop (suc k) (x ∷ xs) = drop k xs

  -- `xs[-k:]`: for `k = 0` it is all of `xs`, since `-0` is `0`
  unfoldable pub keep_last : ℕ → List A → List A
  unfolding drop
  keep_last zero xs = xs
  keep_last (suc k) xs = drop (length xs - suc k) xs

  unfoldable pub concat : List (List A) → List A
  concat [] = []
  concat (xs ∷ xss) = xs ++ concat xss

  pub append_assoc : (xs ys zs : List A) → (xs ++ ys) ++ zs ≡ xs ++ (ys ++ zs)
  append_assoc [] ys zs = refl
  append_assoc (x ∷ xs) ys zs = ap (λ r. x ∷ r) (append_assoc xs ys zs)

  pub append-nil : (xs : List A) → xs ++ [] ≡ xs
  append-nil [] = refl
  append-nil (x ∷ xs) = ap (λ r. x ∷ r) (append-nil xs)

  pub drop-append : (xs ys : List A) → drop (length xs) (xs ++ ys) ≡ ys
  unfolding drop
  drop-append [] ys = refl
  drop-append (x ∷ xs) ys = drop-append xs ys

-- `text.startswith(mark)`
unfoldable pub starts_with : Chars → Chars → Bool
starts_with [] text = true
starts_with (m ∷ mark) [] = false
starts_with (m ∷ mark) (c ∷ text) = nat_beq m c && starts_with mark text

-- `text.find(mark)`, with `none` for -1
unfoldable pub find : Chars → Chars → Option ℕ
unfolding starts_with
find mark [] = if starts_with mark [] then some 0 else none
find mark (c ∷ text) =
    let later = find mark text in
    if starts_with mark (c ∷ text)
    then some 0
    else elim later [ none ↦ none | some i ↦ some (suc i) ]

-- `mark in text`, and whether one of several marks is
unfoldable pub contains : (mark text : String) → Bool
unfolding find
contains mark text = is_some (find (codes mark) (codes text))

unfoldable pub contains_any : (marks : List String) (text : String) → Bool
contains_any [] text = false
contains_any (mark ∷ marks) text = contains mark text || contains_any marks text
