-- ===== src/Core/Floats.antt =====
-- IEEE doubles, as far as the program compares them: a finite double is a dyadic rational.
-- The sign of zero is not modelled, which no comparison sees.
use glassrail.Common.{
  ◌≡◌, int_leb_total, ℕ, suc, ◌-◌, ◌*◌, ◌^◌, ℤ, pos, negsuc, int_leb, Bool, true, false, not,
  if◌then◌else◌,
}

pub data Float : Type 0 where
  nan inf neg_inf : Float
  -- `finite m e` is m / 2 ^ e
  finite : ℤ → ℕ → Float

-- m * 2 ^ e
unfoldable pub scale : ℤ → ℕ → ℤ
scale (pos m) e = pos (m * 2 ^ e)
scale (negsuc m) e = negsuc (suc m * 2 ^ e - 1)

-- a <= b: false beside a NaN
unfoldable pub float_leb : Float → Float → Bool
unfolding scale int_leb
float_leb nan b = false
float_leb inf nan = false
float_leb inf inf = true
float_leb inf neg_inf = false
float_leb inf (finite m e) = false
float_leb neg_inf nan = false
float_leb neg_inf inf = true
float_leb neg_inf neg_inf = true
float_leb neg_inf (finite m e) = true
float_leb (finite m e) nan = false
float_leb (finite m e) inf = true
float_leb (finite m e) neg_inf = false
float_leb (finite m e) (finite n f) = int_leb (scale m f) (scale n e)

-- a < b, for floats that are no NaN
unfoldable pub float_ltb : Float → Float → Bool
unfolding float_leb
float_ltb nan b = false
float_ltb inf b = false
float_ltb neg_inf nan = false
float_ltb neg_inf b = not (float_leb b neg_inf)
float_ltb (finite m e) nan = false
float_ltb (finite m e) b = not (float_leb b (finite m e))

abbrev pub zero_float : Float
zero_float = finite (pos 0) 0

abbrev pub one_float : Float
one_float = finite (pos 1) 0

-- The doubles that the source writes 0.5, 0.7 and 0.9.
abbrev pub float_05 : Float
float_05 = finite (pos 1) 1

abbrev pub float_07 : Float
float_07 = finite (pos 6305039478318694) 53

abbrev pub float_09 : Float
float_09 = finite (pos 8106479329266893) 53

-- `max(a, b)`: the first unless the second is greater
unfoldable pub float_max : Float → Float → Float
unfolding float_ltb
float_max a b = if float_ltb a b then b else a

-- `min(a, b)`: the first unless the second is less
unfoldable pub float_min : Float → Float → Float
unfolding float_ltb
float_min a b = if float_ltb b a then b else a

-- Of two finite floats, one is at most the other.
pub float_leb_total :
    (m n : ℤ) (e f : ℕ)
    → float_leb (finite m e) (finite n f) ≡ false
    → float_leb (finite n f) (finite m e) ≡ true
unfolding float_leb
float_leb_total m n e f h = int_leb_total (scale m f) (scale n e) h
