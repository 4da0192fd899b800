-- ===== src/Prelude/Int.antt =====
-- Go's signed integers, without a bound: the two constructors, the two parts of a value, which are
-- numbers that `omega` reads, and the comparisons.
use Prim.Native.Nat.{ℕ, suc, ◌+◌, ◌-◌, ◌*◌, ◌/◌, ◌%◌, ◌≤◌, ◌<◌}
use mathlib.Core.Path.{◌≡◌}
use mathlib.Core.Bool.{Bool, true, false, ◌&&◌}
use native.Mathlib.Omega.{arith}
use native.Mathlib.Nat.{div-add-mod}
use load_observatory.Prelude.Tests.{ltb, leb, if◌then◌else◌}

-- `negsuc n` is -(n + 1).
pub data ℤ : Type 0 where
  pos : ℕ → ℤ
  negsuc : ℕ → ℤ

abbrev pub pos_part : ℤ → ℕ
pos_part (pos n) = n
pos_part (negsuc n) = 0

abbrev pub neg_part : ℤ → ℕ
neg_part (pos n) = 0
neg_part (negsuc n) = suc n

-- a - b, as an integer.
abbrev pub sub_ℕ : ℕ → ℕ → ℤ
sub_ℕ a b = if leb b a then pos (a - b) else negsuc (b - a - 1)

infix 50 ◌≤ℤ◌ ◌<ℤ◌
abbrev pub ◌≤ℤ◌ : ℤ → ℤ → Type 0
a ≤ℤ b = pos_part a + neg_part b ≤ pos_part b + neg_part a

abbrev pub ◌<ℤ◌ : ℤ → ℤ → Type 0
a <ℤ b = pos_part a + neg_part b < pos_part b + neg_part a

abbrev pub ltb_ℤ : ℤ → ℤ → Bool
ltb_ℤ a b = ltb (pos_part a + neg_part b) (pos_part b + neg_part a)

abbrev pub eqb_ℤ : ℤ → ℤ → Bool
eqb_ℤ a b =
    leb (pos_part a + neg_part b) (pos_part b + neg_part a)
    && leb (pos_part b + neg_part a) (pos_part a + neg_part b)

infixl 65 ◌-ℤ◌ ◌+ℤ◌
unfoldable pub ◌-ℤ◌ : ℤ → ℤ → ℤ
a -ℤ b = sub_ℕ (pos_part a + neg_part b) (neg_part a + pos_part b)

unfoldable pub ◌+ℤ◌ : ℤ → ℤ → ℤ
a +ℤ b = sub_ℕ (pos_part a + pos_part b) (neg_part a + neg_part b)

abbrev pub times_ℤ : ℤ → ℤ → ℤ
times_ℤ (pos a) (pos b) = pos (a * b)
times_ℤ (pos a) (negsuc b) = pos 0 -ℤ pos (a * suc b)
times_ℤ (negsuc a) (pos b) = pos 0 -ℤ pos (suc a * b)
times_ℤ (negsuc a) (negsuc b) = pos (suc a * suc b)

-- The fraction is dropped, as in Go's integer division.
abbrev pub over_ℤ : ℤ → ℤ → ℤ
over_ℤ (pos a) (pos b) = pos (a / b)
over_ℤ (pos a) (negsuc b) = pos 0 -ℤ pos (a / suc b)
over_ℤ (negsuc a) (pos b) = pos 0 -ℤ pos (suc a / b)
over_ℤ (negsuc a) (negsuc b) = pos (suc a / suc b)

-- The remainder has the sign of the dividend, as in Go.
unfoldable pub rem_ℤ : ℤ → ℤ → ℤ
rem_ℤ a b = a -ℤ times_ℤ b (over_ℤ a b)

abbrev pub max_ℤ : ℤ → ℤ → ℤ
max_ℤ a b = if ltb_ℤ b a then a else b

abbrev pub min_ℤ : ℤ → ℤ → ℤ
min_ℤ a b = if ltb_ℤ a b then a else b

pub ltb_ℤ→< : (a b : ℤ) → ltb_ℤ a b ≡ true → a <ℤ b
ltb_ℤ→< a b h = ground arith

pub ltb_ℤ→≤ : (a b : ℤ) → ltb_ℤ a b ≡ false → b ≤ℤ a
ltb_ℤ→≤ a b h = ground arith

-- One lemma for each operation lets `omega` work with the operations shut.
pub +ℤ_parts :
    (a b : ℤ)
    → pos_part (a +ℤ b) + neg_part a + neg_part b ≡ neg_part (a +ℤ b) + pos_part a + pos_part b
unfolding ◌+ℤ◌
+ℤ_parts a b = ground arith

pub -ℤ_parts :
    (a b : ℤ)
    → pos_part (a -ℤ b) + neg_part a + pos_part b ≡ neg_part (a -ℤ b) + pos_part a + neg_part b
unfolding ◌-ℤ◌
-ℤ_parts a b = ground arith

pub eq_of_parts : (a b : ℤ) → pos_part a + neg_part b ≡ pos_part b + neg_part a → a ≡ b
eq_of_parts a b h = ground arith

-- The remainder of two numbers that are not negative.
pub rem_ℤ-pos : (a b : ℕ) → rem_ℤ (pos a) (pos b) ≡ pos (a % b)
unfolding rem_ℤ ◌-ℤ◌
rem_ℤ-pos a b = ground (arith, div-add-mod a b)

pub ruleset int_laws = (arith, +ℤ_parts, -ℤ_parts, eq_of_parts)
