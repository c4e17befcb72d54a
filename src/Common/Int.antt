-- ===== src/Common/Int.antt =====
-- Python's `int` where it may be negative: node ids and tiers. `negsuc n` is -(n + 1).
use Prim.Native.Nat.{ℕ, zero, suc, ◌*◌}
use mathlib.Core.Path.{◌≡◌, refl}
use mathlib.Core.Logic.{◌↔◌}
use mathlib.Core.Bool.{Bool, true, false}
use native.Mathlib.Omega.{arith}
use glassrail.Common.Tests.{leb, nat_beq, Eq}

pub data ℤ : Type 0 where
  pos : ℕ → ℤ
  negsuc : ℕ → ℤ

abbrev pub int_beq : ℤ → ℤ → Bool
int_beq (pos a) (pos b) = nat_beq a b
int_beq (negsuc a) (negsuc b) = nat_beq a b
int_beq (pos a) (negsuc b) = false
int_beq (negsuc a) (pos b) = false

pub int_beq_iff : (a b : ℤ) → (int_beq a b ≡ true) ↔ (a ≡ b)
int_beq_iff (pos a) (pos b) = ground arith
int_beq_iff (negsuc a) (negsuc b) = ground arith
int_beq_iff (pos a) (negsuc b) = ground arith
int_beq_iff (negsuc a) (pos b) = ground arith

instance abbrev pub int_eq : Eq ℤ
int_eq = record { beq = int_beq; beq_iff = int_beq_iff }

-- a <= b
unfoldable pub int_leb : ℤ → ℤ → Bool
int_leb (pos a) (pos b) = leb a b
int_leb (pos a) (negsuc b) = false
int_leb (negsuc a) (pos b) = true
int_leb (negsuc a) (negsuc b) = leb b a

pub int_leb_total : (a b : ℤ) → int_leb a b ≡ false → int_leb b a ≡ true
unfolding int_leb
int_leb_total (pos a) (pos b) h = ground arith
int_leb_total (pos a) (negsuc b) h = refl
int_leb_total (negsuc a) (pos b) h = absurd (ground arith)
int_leb_total (negsuc a) (negsuc b) h = ground arith

pub int_leb_refl : (a : ℤ) → int_leb a a ≡ true
unfolding int_leb
int_leb_refl (pos n) = ground arith
int_leb_refl (negsuc n) = ground arith

-- `z + 1`, and the number of turns of `range(z + 1)`
unfoldable pub int_suc : ℤ → ℤ
int_suc (pos n) = pos (suc n)
int_suc (negsuc zero) = pos 0
int_suc (negsuc (suc n)) = negsuc n

unfoldable pub turns_to : ℤ → ℕ
turns_to (pos n) = suc n
turns_to (negsuc n) = 0

-- -(n) of a natural number, and the product
unfoldable pub neg : ℕ → ℤ
neg zero = pos 0
neg (suc n) = negsuc n

unfoldable pub int_mul : ℤ → ℤ → ℤ
unfolding neg
int_mul (pos m) (pos n) = pos (m * n)
int_mul (pos m) (negsuc n) = neg (m * suc n)
int_mul (negsuc m) (pos n) = neg (suc m * n)
int_mul (negsuc m) (negsuc n) = pos (suc m * suc n)
