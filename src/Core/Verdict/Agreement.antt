-- ===== src/Core/Verdict/Agreement.antt =====
-- The verdict of internal/core/search.go and the reason that it gives agree.
use load_observatory.Prelude.{pos, ◌≡◌, ◌↔◌, true, false, ◌||◌, not, arith}
use load_observatory.Prelude.Floats.{Floats}
use load_observatory.Core.Types.{Run, unmet}
use load_observatory.Core.Verdict.{int, is_run_stable, instability_message}

-- Comparing two numbers, neither of which is a NaN.
pub record Comparable {F : Type 0} (fl : Floats F) (a b : F) : Type 0 where
  pub le_not_lt : fl.le a b ≡ not (fl.lt b a)
  pub split : fl.eq a b ≡ not (fl.lt a b || fl.lt b a)

module _ {F : Type 0} ⦃fl : Floats F⦄ where
  -- `IsRunStable` accepts a run exactly when `InstabilityMessage` finds no gate that it failed, for
  -- numbers that are no NaN and a required output rate that is not negative.
  pub is_run_stable-instability_message :
      (run : Run F)
      → Comparable fl run.config.min_output_tokens_per_second (int (pos 0))
      → Comparable fl run.config.min_output_tokens_per_second run.result.tokens.output_per_second
      → fl.lt run.config.min_output_tokens_per_second (int (pos 0)) ≡ false
      → (is_run_stable run ≡ true) ↔ (instability_message run ≡ unmet)
  unfolding is_run_stable instability_message
  is_run_stable-instability_message run zero rate sign = ground arith
