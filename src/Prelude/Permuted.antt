-- ===== src/Prelude/Permuted.antt =====
-- Lists that are the same but for the order: what a function keeps of that.
use mathlib.Core.List.{Permᴰ, append_assoc, List, [], ◌∷◌, ◌++◌, map}
use mathlib.Core.List.Permᴰ
use mathlib.Core.Path.{◌≡◌, sym, ◌∙◌, ap, subst}

pub map-Perm {ℓ κ} :
    {A : Type ℓ} {B : Type κ} (f : A → B) {xs ys : List A}
    → Permᴰ xs ys
    → Permᴰ (map f xs) (map f ys)
map-Perm f Permᴰ.nil = Permᴰ.nil
map-Perm f (Permᴰ.cons e d) = Permᴰ.cons (ap f e) (map-Perm f d)
map-Perm f (Permᴰ.swap e g) = Permᴰ.swap (ap f e) (ap f g)
map-Perm f (Permᴰ.trans d e) = Permᴰ.trans (map-Perm f d) (map-Perm f e)

of_eq {ℓ} : {A : Type ℓ} {xs ys : List A} → xs ≡ ys → Permᴰ xs ys
of_eq {xs = xs} e = subst (λ zs. Permᴰ xs zs) e (Permᴰ.refl xs)

-- A function that gathers the parts of a list's members, in the order of the members.
module _ {ℓ κ} {A : Type ℓ} {B : Type κ} (gather : List A → List B) (part : A → List B)
    (step : (x : A) (xs : List A) → gather (x ∷ xs) ≡ part x ++ gather xs) where
  pub gather-Perm : {xs ys : List A} → Permᴰ xs ys → Permᴰ (gather xs) (gather ys)
  gather-Perm Permᴰ.nil = Permᴰ.refl (gather [])
  gather-Perm (Permᴰ.cons {a = a} {b = b} {l₁ = xs} {l₂ = ys} e d) =
      Permᴰ.trans (of_eq (step a xs)) (
        Permᴰ.trans (Permᴰ.append_left (part a) (gather-Perm d))
          (of_eq (ap (λ x. part x ++ gather ys) e ∙ sym (step b ys))))
  gather-Perm (Permᴰ.swap {a = a} {b = b} {a' = c} {b' = d} {l = xs} e f) =
      let two : (x y : A) → gather (x ∷ y ∷ xs) ≡ (part x ++ part y) ++ gather xs = λ x y.
        step x (y ∷ xs)
        ∙ ap (λ zs. part x ++ zs) (step y xs)
        ∙ sym (append_assoc (part x) (part y) (gather xs)) in
      Permᴰ.trans (of_eq (two a b)) (
        Permᴰ.trans (Permᴰ.append_right (gather xs) (Permᴰ.append_comm (part a) (part b)))
          (of_eq (sym (two b a) ∙ cc (e, f))))
  gather-Perm (Permᴰ.trans d e) = Permᴰ.trans (gather-Perm d) (gather-Perm e)
