-- ===== src/Prelude/Evolution.antt =====
-- Two states of a map whose keys are minted in order: nothing is lost, every value is related to what
-- it was, and no key lies above the counter. The key 0 is never minted.
use load_observatory.Prelude.{
  ℕ, ◌≤◌, ◌<◌, ◌≡◌, refl, subst, ◌==◌, ==_iff, Bool-cases, inl, inr, List, Option, none, some,
  arith,
}
use load_observatory.Prelude.Map.{
  lookup, insert, update_all, lookup-insert, lookup-update_all, map_option,
}

module _ {V : Type 0} (R : V → V → Type 0) where
  abbrev pub Lifted : Option V → Option V → Type 0
  Lifted none next = Unit
  Lifted (some v) none = ⊥
  Lifted (some v) (some w) = R v w

  abbrev pub Evolves : List (ℕ × V) → List (ℕ × V) → Type 0
  Evolves old new = (k : ℕ) → 0 < k → Lifted (lookup k old) (lookup k new)

module _ {V : Type 0} (R : V → V → Type 0) where
  Lifted-refl : ((v : V) → R v v) → (o : Option V) → Lifted R o o
  Lifted-refl r none = tt
  Lifted-refl r (some v) = r v

  Lifted-trans :
      ((a b c : V) → R a b → R b c → R a c)
      → (x y z : Option V) → Lifted R x y
      → Lifted R y z
      → Lifted R x z
  Lifted-trans t none y z p q = tt
  Lifted-trans t (some a) none z p q = absurd p
  Lifted-trans t (some a) (some b) none p q = q
  Lifted-trans t (some a) (some b) (some c) p q = t a b c p q

  pub Evolves-refl : ((v : V) → R v v) → (m : List (ℕ × V)) → Evolves R m m
  Evolves-refl r m k h = Lifted-refl r (lookup k m)

  pub Evolves-trans :
      ((a b c : V) → R a b → R b c → R a c)
      → (m n o : List (ℕ × V)) → Evolves R m n
      → Evolves R n o
      → Evolves R m o
  Evolves-trans t m n o p q k h =
      Lifted-trans t (lookup k m) (lookup k n) (lookup k o) (p k h) (q k h)

  -- Writing one key.
  pub Evolves-insert :
      ((v : V) → R v v)
      → (key : ℕ) (v : V) (m : List (ℕ × V)) → (0 < key → Lifted R (lookup key m) (some v))
      → Evolves R m (insert key v m)
  Evolves-insert r key v m h k p = rw (lookup-insert key k v m) (elim (Bool-cases (key == k)) [
    | inl same ↦
        let e : key ≡ k = (==_iff key k).0 same in
        rw same (subst (λ j. Lifted R (lookup j m) (some v)) e (h (rw e p)))
    | inr differ ↦ rw differ (Lifted-refl r (lookup k m))
  ])

  pub Evolves-update_all :
      (f : V → V) → ((v : V) → R v (f v)) → (m : List (ℕ × V)) → Evolves R m (update_all f m)
  Evolves-update_all f r m k h = rw (lookup-update_all f k m) (at_key (lookup k m))
    where
      at_key : (o : Option V) → Lifted R o (map_option f o)
      at_key none = tt
      at_key (some v) = r v

-- Every value has its key for an id, and no key lies above the counter.
module _ {V : Type 0} (id : V → ℕ) where
  abbrev pub KeyedAt : ℕ → ℕ → Option V → Type 0
  KeyedAt bound k none = Unit
  KeyedAt bound k (some v) = (id v ≡ k) × (k ≤ bound)

  abbrev pub IsKeyed : ℕ → List (ℕ × V) → Type 0
  IsKeyed bound m = (k : ℕ) → KeyedAt bound k (lookup k m)

module _ {V : Type 0} (id : V → ℕ) where
  KeyedAt-mono : (a b k : ℕ) (o : Option V) → a ≤ b → KeyedAt id a k o → KeyedAt id b k o
  KeyedAt-mono a b k none h p = tt
  KeyedAt-mono a b k (some v) h p = (p.0, omega (arith, p.1))

  pub IsKeyed-mono : (a b : ℕ) (m : List (ℕ × V)) → a ≤ b → IsKeyed id a m → IsKeyed id b m
  IsKeyed-mono a b m h p k = KeyedAt-mono a b k (lookup k m) h (p k)

  pub IsKeyed-insert :
      (bound key : ℕ) (v : V) (m : List (ℕ × V))
      → id v ≡ key
      → key ≤ bound
      → IsKeyed id bound m
      → IsKeyed id bound (insert key v m)
  IsKeyed-insert bound key v m e h p k =
      rw (lookup-insert key k v m) (elim (Bool-cases (key == k)) [
        | inl same ↦ rw same (let f : key ≡ k = (==_iff key k).0 same in (rw e f, rw (← f) h))
        | inr differ ↦ rw differ (p k)
      ])

  pub IsKeyed-update_all :
      (bound : ℕ) (f : V → V) (m : List (ℕ × V))
      → ((v : V) → id (f v) ≡ id v)
      → IsKeyed id bound m
      → IsKeyed id bound (update_all f m)
  IsKeyed-update_all bound f m e p k = rw (lookup-update_all f k m) (at_key (lookup k m) (p k))
    where
      at_key : (o : Option V) → KeyedAt id bound k o → KeyedAt id bound k (map_option f o)
      at_key none q = tt
      at_key (some v) q = (rw (e v) q.0, q.1)

  -- A key above the counter is free.
  pub IsKeyed-free :
      (bound k : ℕ) (m : List (ℕ × V)) → bound < k → IsKeyed id bound m → lookup k m ≡ none
  IsKeyed-free bound k m h p = free (lookup k m) refl (p k)
    where
      free : (o : Option V) → lookup k m ≡ o → KeyedAt id bound k o → lookup k m ≡ none
      free none e q = e
      free (some v) e q = absurd (omega (arith, q.1))

  -- A value that was found has its key for an id.
  pub IsKeyed-found :
      (bound k : ℕ) (m : List (ℕ × V)) (v : V)
      → IsKeyed id bound m
      → lookup k m ≡ some v
      → (id v ≡ k) × (k ≤ bound)
  IsKeyed-found bound k m v p e = subst (λ o. KeyedAt id bound k o) e (p k)
