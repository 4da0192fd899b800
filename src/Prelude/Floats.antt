-- ===== src/Prelude/Floats.antt =====
-- Go's float64: a type with the operations that the program uses. Nothing is assumed of them here, so
-- a NaN, a rounding or an overflow is whatever the operations make of it; a theorem that needs a law
-- of the arithmetic states it as a hypothesis. `whole` is a concrete such type, for examples.
use load_observatory.Prelude.{times_ℤ, over_ℤ, Bool, ℤ, pos, ltb_ℤ, eqb_ℤ, ◌-ℤ◌, ◌+ℤ◌, not}

pub record Floats (F : Type 0) : Type 0 where
  pub of_int : ℤ → F
  pub plus : F → F → F
  pub minus : F → F → F
  pub times : F → F → F
  pub over : F → F → F
  pub lt : F → F → Bool
  pub le : F → F → Bool
  pub eq : F → F → Bool
  -- the number of hundredths that `%.2f` shows
  pub hundredths : F → ℤ

-- Whole numbers as such a type, for concrete runs.
instance abbrev pub whole : Floats ℤ
whole = record {
  of_int = λ a. a;
  plus = λ a b. a +ℤ b;
  minus = λ a b. a -ℤ b;
  times = times_ℤ;
  over = over_ℤ;
  lt = ltb_ℤ;
  le = λ a b. not (ltb_ℤ b a);
  eq = eqb_ℤ;
  hundredths = λ a. times_ℤ a (pos 100);
}
