-- ===== src/Agent/SampleSet.antt =====
-- internal/agent/runner.go: sampleSet. The cap is an argument here; the program's is
-- `max_samples_per_metric`. Counters are natural numbers: `seen` counts samples from 0.
pub mod Spread
use load_observatory.Prelude.{
  ℕ, suc, ◌+◌, ◌*◌, ◌%◌, ℤ, leb, ◌==◌, if◌then◌else◌, Bool, true, false, List, [], ◌∷◌, ◌++◌,
  length,
}

pub record SampleSet : Type 0 where
  pub values : List ℤ
  pub stride : ℕ
  pub seen : ℕ
  pub decimated : Bool

-- `sampleSet{}`
unfoldable pub empty : SampleSet
empty = record { values = []; stride = 0; seen = 0; decimated = false }

unfoldable pub max_samples_per_metric : ℕ
max_samples_per_metric = 100000

-- `for i := 1; i < len(values); i += 2 { kept = append(kept, values[i]) }`
unfoldable pub every_other {ℓ} : {A : Type ℓ} → List A → List A
every_other [] = []
every_other (a ∷ []) = []
every_other (a ∷ b ∷ rest) = b ∷ every_other rest

-- The values after the append, thinned when the cap is reached.
pub store_values : ℕ → SampleSet → List ℤ → SampleSet
store_values cap s values =
    if leb cap (length values)
    then record s { values = every_other values; stride = s.stride * 2; decimated = true }
    else record s { values = values }

unfoldable pub add : ℕ → SampleSet → ℤ → SampleSet
unfolding store_values
add cap s value =
    let t = record s { stride = if s.stride == 0 then 1 else s.stride; seen = suc s.seen } in
    if t.seen % t.stride == 0 then store_values cap t (t.values ++ (value ∷ [])) else t

unfoldable pub add_all : ℕ → SampleSet → List ℤ → SampleSet
add_all cap s [] = s
add_all cap s (value ∷ rest) = add_all cap (add cap s value) rest
