-- ===== src/Prelude/Sorting.antt =====
-- Go's `sort.Slice` by an integer key, as a stable insertion sort, with what a caller relies on.
use Prim.Native.Nat.{suc}
use mathlib.Core.Path.{◌≡◌, refl}
use mathlib.Core.Logic.{inl, inr}
use mathlib.Core.List.{List, [], ◌∷◌, Memᴰ}
use native.Mathlib.Omega.{arith}
use load_observatory.Prelude.Tests.{if◌then◌else◌, Bool-cases}
use load_observatory.Prelude.Lists.{length, All}
use load_observatory.Prelude.Int.{ℤ, ltb_ℤ, ◌≤ℤ◌}

module _ {ℓ} {A : Type ℓ} (key : A → ℤ) where
  unfoldable pub insert_by : A → List A → List A
  insert_by x [] = x ∷ []
  insert_by x (y ∷ ys) = if ltb_ℤ (key y) (key x) then y ∷ insert_by x ys else x ∷ y ∷ ys

  unfoldable pub sort_by : List A → List A
  unfolding insert_by
  sort_by [] = []
  sort_by (x ∷ xs) = insert_by x (sort_by xs)

  abbrev pub IsSorted : List A → Type 0
  IsSorted [] = Unit
  IsSorted (x ∷ xs) = All (λ y. key x ≤ℤ key y) xs × IsSorted xs

module _ {ℓ} {A : Type ℓ} (key : A → ℤ) where
  All-insert {κ} :
      (P : A → Type κ) (x : A) (xs : List A) → P x → All P xs → All P (insert_by key x xs)
  unfolding insert_by
  All-insert P x [] p ps = (p, tt)
  All-insert P x (y ∷ ys) p ps = elim (Bool-cases (ltb_ℤ (key y) (key x))) [
    | inl below ↦ rw below (ps.0, All-insert P x ys p ps.1)
    | inr above ↦ rw above (p, ps)
  ]

  All-above : (a b : ℤ) (xs : List A) → a ≤ℤ b → All (λ y. b ≤ℤ key y) xs → All (λ y. a ≤ℤ key y) xs
  All-above a b [] h ps = tt
  All-above a b (x ∷ xs) h ps = (omega arith, All-above a b xs h ps.1)

  insert-IsSorted : (x : A) (xs : List A) → IsSorted key xs → IsSorted key (insert_by key x xs)
  unfolding insert_by
  insert-IsSorted x [] s = (tt, tt)
  insert-IsSorted x (y ∷ ys) s = elim (Bool-cases (ltb_ℤ (key y) (key x))) [
    | inl below ↦
        rw below
          (All-insert (λ z. key y ≤ℤ key z) x ys (ground arith) s.0, insert-IsSorted x ys s.1)
    | inr above ↦
        let h : key x ≤ℤ key y = ground arith in
        rw above ((h, All-above (key x) (key y) ys h s.0), s)
  ]

  pub sort-IsSorted : (xs : List A) → IsSorted key (sort_by key xs)
  unfolding sort_by
  sort-IsSorted [] = tt
  sort-IsSorted (x ∷ xs) = insert-IsSorted x (sort_by key xs) (sort-IsSorted xs)

  All-of_insert {κ} :
      (P : A → Type κ) (x : A) (xs : List A) → All P (insert_by key x xs) → P x × All P xs
  unfolding insert_by
  All-of_insert P x [] ps = ps
  All-of_insert P x (y ∷ ys) ps = elim (Bool-cases (ltb_ℤ (key y) (key x))) [
    | inl below ↦
        let qs : P y × All P (insert_by key x ys) = rw (below, insert_by) at ps in
        let rest : P x × All P ys = All-of_insert P x ys qs.1 in (rest.0, (qs.0, rest.1))
    | inr above ↦ let qs : P x × All P (y ∷ ys) = rw (above, insert_by) at ps in qs
  ]

  -- What holds of every element of a list holds of every element of the sorted list, and back.
  pub All-sort {κ} : (P : A → Type κ) (xs : List A) → All P xs → All P (sort_by key xs)
  unfolding sort_by
  All-sort P [] ps = tt
  All-sort P (x ∷ xs) ps = All-insert P x (sort_by key xs) ps.0 (All-sort P xs ps.1)

  pub All-of_sort {κ} : (P : A → Type κ) (xs : List A) → All P (sort_by key xs) → All P xs
  unfolding sort_by
  All-of_sort P [] ps = tt
  All-of_sort P (x ∷ xs) ps =
      let qs : P x × All P (sort_by key xs) = All-of_insert P x (sort_by key xs) ps in
      (qs.0, All-of_sort P xs qs.1)

  length-insert : (x : A) (xs : List A) → length (insert_by key x xs) ≡ suc (length xs)
  unfolding insert_by
  length-insert x [] = refl
  length-insert x (y ∷ ys) = ground (arith, length-insert x ys)

  pub length-sort : (xs : List A) → length (sort_by key xs) ≡ length xs
  unfolding sort_by
  length-sort [] = refl
  length-sort (x ∷ xs) = omega (arith, length-insert x (sort_by key xs), length-sort xs)

  mem_under : (a x y : A) (ys : List A) → Memᴰ a (x ∷ ys) → Memᴰ a (x ∷ y ∷ ys)
  mem_under a x y ys (Memᴰ.head e) = Memᴰ.head e
  mem_under a x y ys (Memᴰ.tail m) = Memᴰ.tail (Memᴰ.tail m)

  mem_swap :
      (a x y : A) (ys zs : List A)
      → (Memᴰ a zs → Memᴰ a (x ∷ ys))
      → Memᴰ a (y ∷ zs)
      → Memᴰ a (x ∷ y ∷ ys)
  mem_swap a x y ys zs back (Memᴰ.head e) = Memᴰ.tail (Memᴰ.head e)
  mem_swap a x y ys zs back (Memᴰ.tail m) = mem_under a x y ys (back m)

  mem_of_insert : (a x : A) (xs : List A) → Memᴰ a (insert_by key x xs) → Memᴰ a (x ∷ xs)
  unfolding insert_by
  mem_of_insert a x [] m = m
  mem_of_insert a x (y ∷ ys) m = elim (Bool-cases (ltb_ℤ (key y) (key x))) [
    | inl below ↦
        mem_swap a x y ys (insert_by key x ys) (mem_of_insert a x ys) (rw (below, insert_by) at m)
    | inr above ↦ rw (above, insert_by) at m
  ]

  mem_after :
      (a x : A) (xs ys : List A) → (Memᴰ a xs → Memᴰ a ys) → Memᴰ a (x ∷ xs) → Memᴰ a (x ∷ ys)
  mem_after a x xs ys back (Memᴰ.head e) = Memᴰ.head e
  mem_after a x xs ys back (Memᴰ.tail m) = Memᴰ.tail (back m)

  pub mem_of_sort : (a : A) (xs : List A) → Memᴰ a (sort_by key xs) → Memᴰ a xs
  unfolding sort_by
  mem_of_sort a [] m = m
  mem_of_sort a (x ∷ xs) m =
      mem_after a x (sort_by key xs) xs (mem_of_sort a xs) (mem_of_insert a x (sort_by key xs) m)
