-- ===== src/Agent/SampleSet/Spread.antt =====
-- A sampleSet of internal/agent/runner.go holds every stride-th sample of its stream, so what it keeps
-- is spread evenly over the run.
use mathlib.Core.List.{append-nil, append_assoc}
use native.Mathlib.Nat.{mod-eq_of_lt, mod_self, add-mod_right}
use load_observatory.Prelude.{
  ℕ, suc, ◌+◌, ◌*◌, ◌%◌, ◌≤◌, ◌<◌, ◌≡◌, refl, sym, ap, ◌∙◌, ℤ, leb, ltb, ◌==◌, if◌then◌else◌, true,
  false, List, [], ◌∷◌, ◌++◌, length, length-append, arith, Bool-cases, inl, inr,
}
use load_observatory.Agent.SampleSet.{SampleSet, empty, every_other, store_values, add, add_all}

module _ {A : Type 0} where
  -- Every stride-th element, when `gone` elements went by since the last one taken.
  unfoldable pub every_from : ℕ → ℕ → List A → List A
  every_from gone stride [] = []
  every_from gone stride (x ∷ xs) =
      let taken = every_from 0 stride xs in
      let passed = every_from (suc gone) stride xs in
      if suc gone == stride then x ∷ taken else passed

  mutual
    unfolding every_from every_other

    halved_even :
        (xs : List A) (gone stride : ℕ)
        → gone < stride
        → every_other (every_from gone stride xs) ≡ every_from gone (stride * 2) xs
    halved_even [] gone stride h = refl
    halved_even (x ∷ xs) gone stride h =
        ground (arith, halved_odd xs 0 stride x, halved_even xs (suc gone) stride)

    halved_odd :
        (xs : List A) (gone stride : ℕ) (d : A)
        → gone < stride
        → every_other (d ∷ every_from gone stride xs) ≡ every_from (stride + gone) (stride * 2) xs
    halved_odd [] gone stride d h = refl
    halved_odd (x ∷ xs) gone stride d h =
        ground (arith, halved_even xs 0 stride, halved_odd xs (suc gone) stride d)

module _ {A : Type 0} where
  -- `v`, when the count of a stream that ends with it is a multiple of the stride.
  abbrev due : ℕ → ℕ → A → List A
  due count stride v = if count % stride == 0 then v ∷ [] else []

  due-one :
      (gone stride : ℕ) (v : A)
      → gone < stride
      → (if suc gone == stride then v ∷ [] else []) ≡ due (gone + 0 + 1) stride v
  due-one gone stride v h = elim (Bool-cases (suc gone == stride)) [
    | inl last ↦
        let e : suc gone ≡ stride = ground arith in
        let f : gone + 0 + 1 ≡ stride = omega arith in
        let m : (gone + 0 + 1) % stride ≡ 0 = rw f (mod_self stride) in ground (arith, m)
    | inr more ↦
        let m : (gone + 0 + 1) % stride ≡ gone + 0 + 1 = mod-eq_of_lt (ground arith) in
        ground (arith, m)
  ]

  every_from-append :
      (xs : List A) (gone stride : ℕ) (v : A)
      → gone < stride
      → every_from gone stride (xs ++ (v ∷ []))
        ≡ every_from gone stride xs ++ due (gone + length xs + 1) stride v
  unfolding every_from
  every_from-append [] gone stride v h = due-one gone stride v h
  every_from-append (x ∷ xs) gone stride v h = elim (Bool-cases (suc gone == stride)) [
    | inl last ↦
        let e : suc gone ≡ stride = ground arith in
        let f : gone + suc (length xs) + 1 ≡ 0 + length xs + 1 + stride = omega arith in
        let m : (gone + suc (length xs) + 1) % stride ≡ (0 + length xs + 1) % stride =
          rw f (add-mod_right (0 + length xs + 1) stride) in
        rw (last, m) (ap (λ l. x ∷ l) (every_from-append xs 0 stride v (omega arith)))
    | inr more ↦
        let f : gone + suc (length xs) + 1 ≡ suc gone + length xs + 1 = omega arith in
        rw (more, f) (every_from-append xs (suc gone) stride v (ground arith))
  ]

  length-every_other : (xs : List A) → length (every_other xs) * 2 ≤ length xs
  unfolding every_other
  length-every_other [] = omega arith
  length-every_other (a ∷ []) = omega arith
  length-every_other (a ∷ b ∷ rest) = omega (arith, length-every_other rest)

-- The stride in force, which is 1 before the first sample.
abbrev pub pace : SampleSet → ℕ
pace s = if s.stride == 0 then 1 else s.stride

-- The set after a stream of samples.
pub record IsSpread (cap : ℕ) (stream : List ℤ) (s : SampleSet) : Type 0 where
  pub counted : s.seen ≡ length stream
  pub kept : s.values ≡ every_from 0 (pace s) stream
  pub bounded : length s.values < cap
  pub flagged : s.decimated ≡ ltb 1 (pace s)

pub empty-IsSpread : (cap : ℕ) → 0 < cap → IsSpread cap [] empty
unfolding empty every_from
empty-IsSpread cap h = record { counted = refl; kept = refl; bounded = h; flagged = refl }

store_values-IsSpread :
    (cap : ℕ) (t : SampleSet) (stream values : List ℤ)
    → 0 < cap
    → 0 < t.stride
    → t.seen ≡ length stream
    → values ≡ every_from 0 t.stride stream
    → length values ≤ cap
    → t.decimated ≡ ltb 1 t.stride
    → IsSpread cap stream (store_values cap t values)
unfolding store_values
store_values-IsSpread cap t stream values c p seen kept fits flag =
    elim (Bool-cases (leb cap (length values))) [
      | inl full ↦
          let same : pace (store_values cap t values) ≡ t.stride * 2 = ground arith in
          let thinned : every_other values ≡ every_from 0 (t.stride * 2) stream =
            ap every_other kept ∙ halved_even stream 0 t.stride p in
          record {
            counted = ground arith;
            kept = ground (arith, same, thinned);
            bounded = ground (arith, length-every_other values);
            flagged = ground (arith, same);
          }
      | inr room ↦
          let same : pace (store_values cap t values) ≡ t.stride = ground arith in
          record {
            counted = ground arith;
            kept = ground (arith, same);
            bounded = ground arith;
            flagged = ground (arith, same);
          }
    ]

pace_pos : (s : SampleSet) → 0 < pace s
pace_pos s = ground arith

-- The set with the next sample counted and the stride in force.
abbrev counting : SampleSet → SampleSet
counting s = record s { stride = pace s; seen = suc s.seen }

add-due :
    (cap : ℕ) (s : SampleSet) (v : ℤ)
    → (suc s.seen % pace s == 0) ≡ true
    → add cap s v ≡ store_values cap (counting s) (s.values ++ (v ∷ []))
unfolding add
add-due cap s v hit = rw hit

add-passed :
    (cap : ℕ) (s : SampleSet) (v : ℤ)
    → (suc s.seen % pace s == 0) ≡ false
    → add cap s v ≡ counting s
unfolding add
add-passed cap s v missed = rw missed

every_from-next :
    (cap : ℕ) (stream : List ℤ) (s : SampleSet) (v : ℤ)
    → IsSpread cap stream s
    → every_from 0 (pace s) (stream ++ (v ∷ [])) ≡ s.values ++ due (suc s.seen) (pace s) v
every_from-next cap stream s v i =
    let count : 0 + length stream + 1 ≡ suc s.seen = omega (arith, i.counted) in
    every_from-append stream 0 (pace s) v (pace_pos s) ∙ rw (count, i.kept)

add-IsSpread :
    (cap : ℕ) (stream : List ℤ) (s : SampleSet) (v : ℤ)
    → IsSpread cap stream s
    → IsSpread cap (stream ++ (v ∷ [])) (add cap s v)
add-IsSpread cap stream s v i =
    let next = every_from-next cap stream s v i in
    let longer : suc s.seen ≡ length (stream ++ (v ∷ [])) =
      omega (arith, i.counted, length-append stream (v ∷ [])) in
    elim (Bool-cases (suc s.seen % pace s == 0)) [
      | inl hit ↦
          let kept : s.values ++ (v ∷ []) ≡ every_from 0 (pace s) (stream ++ (v ∷ [])) =
            rw hit at (sym next) in
          let fits : length (s.values ++ (v ∷ [])) ≤ cap =
            omega (arith, i.bounded, length-append s.values (v ∷ [])) in
          rw (add-due cap s v hit) (
            store_values-IsSpread cap (counting s) (stream ++ (v ∷ [])) (s.values ++ (v ∷ []))
              (omega (arith, i.bounded)) (pace_pos s) longer kept fits i.flagged)
      | inr missed ↦
          let same : pace (counting s) ≡ pace s = ground arith in
          let kept : s.values ≡ every_from 0 (pace s) (stream ++ (v ∷ [])) =
            sym (append-nil s.values) ∙ (rw missed at (sym next)) in
          rw (add-passed cap s v missed) (record {
            counted = longer;
            kept = rw same kept;
            bounded = i.bounded;
            flagged = rw same i.flagged;
          })
    ]

add_all_from :
    (cap : ℕ) (before stream : List ℤ) (s : SampleSet)
    → IsSpread cap before s
    → IsSpread cap (before ++ stream) (add_all cap s stream)
unfolding add_all
add_all_from cap before [] s i = rw (append-nil before) i
add_all_from cap before (v ∷ rest) s i =
    let later =
      add_all_from cap (before ++ (v ∷ [])) rest (add cap s v) (add-IsSpread cap before s v i) in
    rw (append_assoc before (v ∷ []) rest) at later

-- Whatever stream goes into an empty set with a positive cap: the set counts every sample, keeps
-- exactly the samples whose position is a multiple of its stride, in order and fewer than the cap, and
-- is marked as decimated exactly when the stride is above 1, that is when it dropped some.
pub add_all-IsSpread :
    (cap : ℕ) (stream : List ℤ) → 0 < cap → IsSpread cap stream (add_all cap empty stream)
add_all-IsSpread cap stream h = add_all_from cap [] stream empty (empty-IsSpread cap h)
