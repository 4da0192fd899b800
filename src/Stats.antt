-- ===== src/Stats.antt =====
-- The order statistics of samples: p95, distribution, average and percentile of
-- internal/agent/runner.go; distribution and percentile of internal/store/store.go compute the same.
-- An index out of range, which panics in Go, is `none`.
pub mod Ranks
pub mod Unordered
use load_observatory.Prelude.{
  ℕ, zero, suc, ◌+◌, ◌*◌, ◌/◌, ◌-◌, ℤ, pos, ◌+ℤ◌, over_ℤ, List, [], ◌∷◌, Option, none, some, length,
  get_elem?, if◌then◌else◌, ◌==◌,
}
use load_observatory.Prelude.Sorting.{sort_by}
use load_observatory.Core.Types.{Distribution}

abbrev pub itself : ℤ → ℤ
itself value = value

unfoldable pub sorted : List ℤ → List ℤ
sorted values = sort_by itself values

unfoldable pub sum : List ℤ → ℤ
sum [] = pos 0
sum (value ∷ rest) = value +ℤ sum rest

unfoldable pub average : List ℤ → ℤ
unfolding sum
average values = if length values == 0 then pos 0 else over_ℤ (sum values) (pos (length values))

unfoldable pub index_before : ℕ → Option ℕ
index_before zero = none
index_before (suc index) = some index

-- `(len(sorted)*percentage+99)/100 - 1`; a negative index is out of range too.
unfoldable pub rank : ℕ → ℕ → Option ℕ
unfolding index_before
rank len percentage = index_before ((len * percentage + 99) / 100)

unfoldable pub at : List ℤ → Option ℕ → Option ℤ
at values none = none
at values (some index) = get_elem? values index

unfoldable pub percentile : List ℤ → ℕ → Option ℤ
unfolding rank at
percentile values percentage = at values (rank (length values) percentage)

unfoldable pub zero_distribution : Distribution
zero_distribution = record {
  min_millis = pos 0;
  avg_millis = pos 0;
  p50_millis = pos 0;
  p95_millis = pos 0;
  p99_millis = pos 0;
  max_millis = pos 0;
}

infixl 5 ◌>>=◌
abbrev ◌>>=◌ {ℓ κ} : {A : Type ℓ} {B : Type κ} → Option A → (A → Option B) → Option B
none >>= f = none
some a >>= f = f a

-- Of a list that is sorted and not empty.
unfoldable pub describe : List ℤ → Option Distribution
describe values = do
  low ← get_elem? values 0
  high ← get_elem? values (length values - 1)
  p50 ← percentile values 50
  p95 ← percentile values 95
  p99 ← percentile values 99
  some (record {
    min_millis = low;
    avg_millis = average values;
    p50_millis = p50;
    p95_millis = p95;
    p99_millis = p99;
    max_millis = high;
  })

unfoldable pub distribution : List ℤ → Option Distribution
distribution [] = some zero_distribution
distribution (value ∷ rest) = describe (sorted (value ∷ rest))

unfoldable pub p95_of : List ℤ → Option ℤ
unfolding percentile sorted
p95_of [] = some (pos 0)
p95_of (value ∷ rest) = percentile (sorted (value ∷ rest)) 95
