-- ===== src/Stats/Ranks.antt =====
-- What a percentile of the samples is: never out of range, in order, and with the promised share of
-- the samples at or below it.
use load_observatory.Prelude.{
  ℕ, zero, suc, ◌+◌, ◌*◌, ◌/◌, ◌-◌, ◌≤◌, ◌<◌, ◌≡◌, refl, ◌∙◌, ap, subst, int_laws, ◌+ℤ◌, inl, inr,
  ℤ, ltb_ℤ, ◌≤ℤ◌, List, [], ◌∷◌, some, length, get_elem?, if◌then◌else◌, All, arith, Bool-cases,
}
use load_observatory.Prelude.Sorting.{
  insert_by, sort_by, IsSorted, sort-IsSorted, length-sort, All-of_sort,
}
use load_observatory.Core.Types.{Distribution}
use load_observatory.Stats.{
  itself, sorted, sum, index_before, rank, at, percentile, describe, distribution, average,
}

-- How many of the values are at most `bound`.
abbrev pub count_le : ℤ → List ℤ → ℕ
count_le bound [] = 0
count_le bound (x ∷ xs) = let rest = count_le bound xs in if ltb_ℤ bound x then rest else suc rest

count_le-insert :
    (bound x : ℤ) (xs : List ℤ) → count_le bound (insert_by itself x xs) ≡ count_le bound (x ∷ xs)
unfolding insert_by
count_le-insert bound x [] = refl
count_le-insert bound x (y ∷ ys) = ground (arith, count_le-insert bound x ys)

pub count_le-sort :
    (bound : ℤ) (xs : List ℤ) → count_le bound (sort_by itself xs) ≡ count_le bound xs
unfolding sort_by
count_le-sort bound [] = refl
count_le-sort bound (x ∷ xs) =
    count_le-insert bound x (sort_by itself xs) ∙ ground (arith, count_le-sort bound xs)

-- An element, by an index that is in range.
pub get_elem : (xs : List ℤ) (i : ℕ) → i < length xs → (v : ℤ) × (get_elem? xs i ≡ some v)
get_elem [] i h = elim h [ ]
get_elem (x ∷ xs) zero h = (x, refl)
get_elem (x ∷ xs) (suc i) h = get_elem xs i (omega arith)

value_of : {a b : ℤ} → some a ≡ some b → a ≡ b
value_of e = cc

All-get : (P : ℤ → Type 0) (xs : List ℤ) (i : ℕ) (v : ℤ) → All P xs → get_elem? xs i ≡ some v → P v
All-get P [] i v ps e = cc
All-get P (x ∷ xs) zero v ps e = subst P (value_of e) ps.0
All-get P (x ∷ xs) (suc i) v ps e = All-get P xs i v ps.1 e

-- A later element of a sorted list is no smaller.
sorted_mono :
    (xs : List ℤ) (i j : ℕ) (a b : ℤ)
    → IsSorted itself xs
    → i ≤ j
    → get_elem? xs i ≡ some a
    → get_elem? xs j ≡ some b
    → a ≤ℤ b
sorted_mono [] i j a b s h e f = cc
sorted_mono (x ∷ xs) zero zero a b s h e f = ground arith
sorted_mono (x ∷ xs) zero (suc j) a b s h e f =
    subst (λ y. y ≤ℤ b) (value_of e) (All-get (λ y. x ≤ℤ y) xs j b s.0 f)
sorted_mono (x ∷ xs) (suc i) zero a b s h e f = absurd (omega arith)
sorted_mono (x ∷ xs) (suc i) (suc j) a b s h e f = sorted_mono xs i j a b s.1 (omega arith) e f

sorted_count :
    (xs : List ℤ) (i : ℕ) (v : ℤ) → IsSorted itself xs → get_elem? xs i ≡ some v → i < count_le v xs
sorted_count [] i v s e = cc
sorted_count (x ∷ xs) zero v s e = ground arith
sorted_count (x ∷ xs) (suc i) v s e =
    let above : x ≤ℤ v = All-get (λ y. x ≤ℤ y) xs i v s.0 e in
    ground (arith, sorted_count xs i v s.1 e)

-- The index of a percentile of `len` values, at `q = len * percentage`.
abbrev index_of : ℕ → ℕ
index_of q = (q + 99) / 100 - 1

index_before_lem : (n : ℕ) → 0 < n → index_before n ≡ some (n - 1)
unfolding index_before
index_before_lem zero h = elim h [ ]
index_before_lem (suc n) h = ap some (omega arith)

rank_lem :
    (len percentage : ℕ)
    → 0 < len * percentage
    → rank len percentage ≡ some (index_of (len * percentage))
unfolding rank
rank_lem len percentage h = index_before_lem ((len * percentage + 99) / 100) (omega arith)

-- A percentile of a list that is sorted and not empty: the value at an index in range, at or below
-- which lies at least the share of the values.
abbrev IsPercentile : List ℤ → ℕ → Type 0
IsPercentile xs percentage =
    (v : ℤ) × (percentile xs percentage ≡ some v)
    × (get_elem? xs (index_of (length xs * percentage)) ≡ some v)
    × (length xs * percentage ≤ count_le v xs * 100)

percentile_lem :
    (xs : List ℤ) (percentage : ℕ)
    → IsSorted itself xs
    → 0 < length xs * percentage
    → length xs * percentage ≤ length xs * 100
    → IsPercentile xs percentage
unfolding percentile at
percentile_lem xs percentage s h k =
    let (v, e) = get_elem xs (index_of (length xs * percentage)) (omega arith) in
    (
      v,
      rw (rank_lem (length xs) percentage h) e,
      e,
      omega (arith, sorted_count xs (index_of (length xs * percentage)) v s e),
    )

-- A summary of samples: within the samples' range, in order, and each percentile has its share of the
-- samples at or below it.
pub record Summarises (values : List ℤ) (d : Distribution) : Type 0 where
  pub ordered :
      (d.min_millis ≤ℤ d.p50_millis)
      × (d.p50_millis ≤ℤ d.p95_millis)
      × (d.p95_millis ≤ℤ d.p99_millis)
      × (d.p99_millis ≤ℤ d.max_millis)
  pub covers : All (λ v. (d.min_millis ≤ℤ v) × (v ≤ℤ d.max_millis)) values
  pub median : length values * 50 ≤ count_le d.p50_millis values * 100
  pub tail95 : length values * 95 ≤ count_le d.p95_millis values * 100
  pub tail99 : length values * 99 ≤ count_le d.p99_millis values * 100
  pub mean : d.avg_millis ≡ average values

add_swap : (a b c : ℤ) → a +ℤ (b +ℤ c) ≡ b +ℤ (a +ℤ c)
add_swap a b c = omega int_laws

sum-insert : (x : ℤ) (xs : List ℤ) → sum (insert_by itself x xs) ≡ x +ℤ sum xs
unfolding insert_by sum
sum-insert x [] = refl
sum-insert x (y ∷ ys) = elim (Bool-cases (ltb_ℤ y x)) [
  | inl below ↦ rw below (ap (λ s. y +ℤ s) (sum-insert x ys) ∙ add_swap y x (sum ys))
  | inr above ↦ rw above
]

sum-sort : (xs : List ℤ) → sum (sort_by itself xs) ≡ sum xs
unfolding sort_by sum
sum-sort [] = refl
sum-sort (x ∷ xs) = sum-insert x (sort_by itself xs) ∙ ap (λ s. x +ℤ s) (sum-sort xs)

average-sorted : (xs : List ℤ) → average (sorted xs) ≡ average xs
unfolding average sorted
average-sorted xs = rw (sum-sort xs, length-sort itself xs)

top_index : (n : ℕ) → suc (suc n) - 1 ≡ suc n
top_index n = omega arith

low_index : (n : ℕ) → suc n - 1 ≡ n
low_index n = omega arith

first_covers :
    (xs : List ℤ) (low : ℤ)
    → IsSorted itself xs
    → get_elem? xs 0 ≡ some low
    → All (λ v. low ≤ℤ v) xs
first_covers [] low s e = tt
first_covers (x ∷ xs) low s e =
    subst (λ l. All (λ v. l ≤ℤ v) (x ∷ xs)) (value_of e) (omega arith, s.0)

last_covers :
    (xs : List ℤ) (high : ℤ)
    → IsSorted itself xs
    → get_elem? xs (length xs - 1) ≡ some high
    → All (λ v. v ≤ℤ high) xs
last_covers [] high s e = tt
last_covers (x ∷ []) high s e = (subst (λ h. x ≤ℤ h) (value_of e) (omega arith), tt)
last_covers (x ∷ y ∷ ys) high s e =
    let e' : get_elem? (y ∷ ys) (length ys) ≡ some high = rw (top_index (length ys)) at e in
    let rest = last_covers (y ∷ ys) high s.1 (rw (low_index (length ys)) e') in
    (omega (arith, s.0.0, rest.0), rest)

All-both :
    (low high : ℤ) (xs : List ℤ)
    → All (λ v. low ≤ℤ v) xs
    → All (λ v. v ≤ℤ high) xs
    → All (λ v. (low ≤ℤ v) × (v ≤ℤ high)) xs
All-both low high [] up down = tt
All-both low high (x ∷ xs) up down = ((up.0, down.0), All-both low high xs up.1 down.1)

module _ (xs : List ℤ) (s : IsSorted itself xs) (h : 0 < length xs) where
  describe-Summarises : (d : Distribution) × (describe xs ≡ some d) × Summarises xs d
  unfolding describe
  describe-Summarises =
      let (low, e0) = get_elem xs 0 h in
      let (high, e1) = get_elem xs (length xs - 1) (omega arith) in
      let (p50, f50, g50, c50) = percentile_lem xs 50 s (omega arith) (omega arith) in
      let (p95, f95, g95, c95) = percentile_lem xs 95 s (omega arith) (omega arith) in
      let (p99, f99, g99, c99) = percentile_lem xs 99 s (omega arith) (omega arith) in
      (
        record {
          min_millis = low;
          avg_millis = average xs;
          p50_millis = p50;
          p95_millis = p95;
          p99_millis = p99;
          max_millis = high;
        },
        rw (e0, e1, f50, f95, f99),
        record {
          ordered = (
            sorted_mono xs 0 (index_of (length xs * 50)) low p50 s (omega arith) e0 g50,
            sorted_mono xs (index_of (length xs * 50)) (index_of (length xs * 95)) p50 p95 s
                (omega arith) g50 g95,
            sorted_mono xs (index_of (length xs * 95)) (index_of (length xs * 99)) p95 p99 s
                (omega arith) g95 g99,
            sorted_mono xs (index_of (length xs * 99)) (length xs - 1) p99 high s (omega arith) g99
                e1,
          );
          covers = All-both low high xs (first_covers xs low s e0) (last_covers xs high s e1);
          median = c50;
          tail95 = c95;
          tail99 = c99;
          mean = refl;
        },
      )

length-sorted : (xs : List ℤ) → length (sorted xs) ≡ length xs
unfolding sorted
length-sorted xs = length-sort itself xs

sorted-IsSorted : (xs : List ℤ) → IsSorted itself (sorted xs)
unfolding sorted
sorted-IsSorted xs = sort-IsSorted itself xs

Summarises-of_sorted : (xs : List ℤ) (d : Distribution) → Summarises (sorted xs) d → Summarises xs d
unfolding sorted
Summarises-of_sorted xs d s =
    let n : length (sort_by itself xs) ≡ length xs = length-sort itself xs in
    record {
      ordered = s.ordered;
      covers = All-of_sort itself _ xs s.covers;
      median = omega (arith, n, s.median, count_le-sort d.p50_millis xs);
      tail95 = omega (arith, n, s.tail95, count_le-sort d.p95_millis xs);
      tail99 = omega (arith, n, s.tail99, count_le-sort d.p99_millis xs);
      mean = s.mean ∙ average-sorted xs;
    }

-- For any samples at all, in any order, computing the distribution hits no index out of range; for one
-- sample or more the result is ordered min, P50, P95, P99, max, every sample lies between min and max,
-- at least 50, 95 and 99 percent of the samples are at or below P50, P95 and P99, and the mean is the
-- samples' sum divided by their number.
pub distribution-Summarises :
    (value : ℤ) (rest : List ℤ)
    → (d : Distribution) × (distribution (value ∷ rest) ≡ some d) × Summarises (value ∷ rest) d
unfolding distribution
distribution-Summarises value rest =
    let xs : List ℤ = value ∷ rest in
    let n : 0 < length (sorted xs) = rw (length-sorted xs) (omega arith) in
    let (d, e, s) = describe-Summarises (sorted xs) (sorted-IsSorted xs) n in
    (d, e, Summarises-of_sorted xs d s)
