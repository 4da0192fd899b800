-- ===== src/Stats/Unordered.antt =====
-- The order statistics of samples (internal/agent/runner.go) do not depend on the order of the samples.
use mathlib.Core.List.{Permᴰ}
use mathlib.Core.List.Permᴰ
use load_observatory.Prelude.{
  ℤ, ◌+ℤ◌, +ℤ_parts, eq_of_parts, ltb_ℤ, ◌≡◌, refl, ◌∙◌, ap, true, false, Bool-cases, inl, inr,
  List, [], ◌∷◌, arith,
}
use load_observatory.Prelude.Sorting.{insert_by, sort_by}
use load_observatory.Stats.{itself, sorted, sum, distribution, describe}

-- Two numbers in front of a list whose first number, if any, is above none of them.
insert_before :
    (a b : ℤ) (xs : List ℤ)
    → insert_by itself a xs ≡ a ∷ xs
    → insert_by itself b xs ≡ b ∷ xs
    → insert_by itself a (b ∷ xs) ≡ insert_by itself b (a ∷ xs)
unfolding insert_by
insert_before a b xs first second = elim (Bool-cases (ltb_ℤ a b)) [
  | inl below ↦ let other : ltb_ℤ b a ≡ false = ground arith in rw (below, other, second) refl
  | inr above ↦ elim (Bool-cases (ltb_ℤ b a)) [
    | inl below ↦ rw (above, below, first) refl
    | inr equal ↦ let same : a ≡ b = eq_of_parts a b (ground arith) in rw (above, equal, same) refl
  ]
]

insert_past :
    (x a : ℤ) (xs : List ℤ)
    → ltb_ℤ x a ≡ true
    → insert_by itself a (x ∷ xs) ≡ x ∷ insert_by itself a xs
unfolding insert_by
insert_past x a xs h = rw h refl

insert_front :
    (x a : ℤ) (xs : List ℤ) → ltb_ℤ x a ≡ false → insert_by itself a (x ∷ xs) ≡ a ∷ x ∷ xs
unfolding insert_by
insert_front x a xs h = rw h refl

insert_nil : (a : ℤ) → insert_by itself a [] ≡ a ∷ []
unfolding insert_by
insert_nil a = refl

insert_comm :
    (a b : ℤ) (xs : List ℤ)
    → insert_by itself a (insert_by itself b xs) ≡ insert_by itself b (insert_by itself a xs)
insert_comm a b [] =
    cc (insert_nil a, insert_nil b, insert_before a b [] (insert_nil a) (insert_nil b))
insert_comm a b (x ∷ xs) = elim (Bool-cases (ltb_ℤ x a)) [
  | inl under_a ↦ elim (Bool-cases (ltb_ℤ x b)) [
    | inl under_b ↦ cc (
      insert_past x a xs under_a,
      insert_past x b xs under_b,
      insert_past x a (insert_by itself b xs) under_a,
      insert_past x b (insert_by itself a xs) under_b,
      insert_comm a b xs,
    )
    | inr over_b ↦
        let far : ltb_ℤ b a ≡ true = ground arith in
        cc (
          insert_past x a xs under_a,
          insert_front x b xs over_b,
          insert_past b a (x ∷ xs) far,
          insert_front x b (insert_by itself a xs) over_b,
        )
  ]
  | inr over_a ↦ elim (Bool-cases (ltb_ℤ x b)) [
    | inl under_b ↦
        let far : ltb_ℤ a b ≡ true = ground arith in
        cc (
          insert_past x b xs under_b,
          insert_front x a xs over_a,
          insert_past a b (x ∷ xs) far,
          insert_front x a (insert_by itself b xs) over_a,
        )
    | inr over_b ↦
        let first = insert_front x a xs over_a in
        let second = insert_front x b xs over_b in
        cc (first, second, insert_before a b (x ∷ xs) first second)
  ]
]

sort-Perm : {xs ys : List ℤ} → Permᴰ xs ys → sort_by itself xs ≡ sort_by itself ys
unfolding sort_by
sort-Perm Permᴰ.nil = refl
sort-Perm (Permᴰ.cons {a = a} {b = b} {l₁ = xs} {l₂ = ys} e d) =
    ap (λ c. insert_by itself c (sort_by itself xs)) e ∙ ap (insert_by itself b) (sort-Perm d)
sort-Perm (Permᴰ.swap {a = a} {b = b} {a' = c} {b' = d} {l = xs} e f) =
    insert_comm a b (sort_by itself xs)
    ∙ ap (λ z. insert_by itself z (insert_by itself a (sort_by itself xs))) f
    ∙ ap (λ z. insert_by itself c (insert_by itself z (sort_by itself xs))) e
sort-Perm (Permᴰ.trans d e) = sort-Perm d ∙ sort-Perm e

pub distribution-Perm : (xs ys : List ℤ) → Permᴰ xs ys → distribution xs ≡ distribution ys
unfolding distribution sorted
distribution-Perm [] [] p = refl
distribution-Perm [] (y ∷ ys) p = absurd (let e = Permᴰ.length-eq p in cc)
distribution-Perm (x ∷ xs) [] p = absurd (let e = Permᴰ.length-eq p in cc)
distribution-Perm (x ∷ xs) (y ∷ ys) p = ap describe (sort-Perm p)

sum_swap : (a b c : ℤ) → a +ℤ (b +ℤ c) ≡ b +ℤ (a +ℤ c)
sum_swap a b c =
    eq_of_parts _ _
      (omega (arith, +ℤ_parts a (b +ℤ c), +ℤ_parts b c, +ℤ_parts b (a +ℤ c), +ℤ_parts a c))

pub sum-Perm : {xs ys : List ℤ} → Permᴰ xs ys → sum xs ≡ sum ys
unfolding sum
sum-Perm Permᴰ.nil = refl
sum-Perm (Permᴰ.cons e d) = cc (sum-Perm d)
sum-Perm (Permᴰ.swap {a = a} {b = b} {l = xs} e f) = cc (sum_swap a b (sum xs), e, f)
sum-Perm (Permᴰ.trans d e) = sum-Perm d ∙ sum-Perm e
