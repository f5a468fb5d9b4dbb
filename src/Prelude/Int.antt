-- ===== src/Prelude/Int.antt =====
-- Signed integers over the native numbers: the counters that the program may take below zero.
use Prim.Native.Nat.{ℕ, suc, ◌+◌, ◌-◌, ◌≤◌}
use mathlib.Core.Bool.{Bool}
use mathlib.Core.Path.{◌≡◌}
use native.Mathlib.Omega.{arith}
use bricktrace.Prelude.Tests.{leb, ltb, if◌then◌else◌}

-- `negsuc n` is -(n + 1).
pub data ℤ : Type 0 where
  pos : ℕ → ℤ
  negsuc : ℕ → ℤ

abbrev pub pos_part : ℤ → ℕ
pos_part (pos n) = n
pos_part (negsuc n) = 0

abbrev pub neg_part : ℤ → ℕ
neg_part (pos n) = 0
neg_part (negsuc n) = suc n

-- a - b, as an integer.
abbrev pub sub_ℕ : ℕ → ℕ → ℤ
sub_ℕ a b = if leb b a then pos (a - b) else negsuc (b - a - 1)

infix 50 ◌≤ℤ◌
abbrev pub ◌≤ℤ◌ : ℤ → ℤ → Type 0
a ≤ℤ b = pos_part a + neg_part b ≤ pos_part b + neg_part a

abbrev pub ltb_ℤ : ℤ → ℤ → Bool
ltb_ℤ a b = ltb (pos_part a + neg_part b) (pos_part b + neg_part a)

-- `n += 1` and `n -= 1`.
unfoldable pub incr : ℤ → ℤ
incr a = sub_ℕ (pos_part a + 1) (neg_part a)

unfoldable pub decr : ℤ → ℤ
decr a = sub_ℕ (pos_part a) (neg_part a + 1)

pub incr_parts : (a : ℤ) → pos_part (incr a) + neg_part a ≡ neg_part (incr a) + pos_part a + 1
unfolding incr
incr_parts a = ground arith

pub decr_parts : (a : ℤ) → pos_part (decr a) + neg_part a + 1 ≡ neg_part (decr a) + pos_part a
unfolding decr
decr_parts a = ground arith

pub decr-incr : (a : ℤ) → decr (incr a) ≡ a
unfolding incr decr
decr-incr a = ground arith

pub eq_of_parts : (a b : ℤ) → pos_part a + neg_part b ≡ pos_part b + neg_part a → a ≡ b
eq_of_parts a b h = ground arith

pub ruleset int_laws = (arith, incr_parts, decr_parts, eq_of_parts)
