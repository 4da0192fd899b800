-- ===== src/Core/Provenance/Values.antt =====
-- The values that the reports of internal/core/provenance.go show, and when two of them are the same.
use text.Mathlib.TextEquality.{eq_iff}
use load_observatory.Prelude.{
  ℤ, pos, eqb_ℤ, ◌≤ℤ◌, ◌≡◌, refl, ap, ◌↔◌, if◌then◌else◌, Bool, true, false, ◌&&◌, List, [], ◌∷◌,
  String, arith, Bool-cases, inl, inr, eq_of_parts, All,
}
use load_observatory.Core.Server.{eqb_text}
use load_observatory.Core.Provenance.{
  Field, affects_ttft, Shown, blank, words, digits, hundredths, is_blank, eqb_shown, as_text,
  int_text, known_text, known_int,
}

eqb_text_iff : (a b : String) → (eqb_text a b ≡ true) ↔ (a ≡ b)
unfolding eqb_text
eqb_text_iff a b = eq_iff a b

eqb_ℤ-iff : (a b : ℤ) → (eqb_ℤ a b ≡ true) ↔ (a ≡ b)
eqb_ℤ-iff a b = (λ h. eq_of_parts a b (ground arith), λ e. rw e (ground arith))

pub eqb_shown→eq : (a b : Shown) → eqb_shown a b ≡ true → a ≡ b
eqb_shown→eq blank blank h = refl
eqb_shown→eq (words a) (words b) h = ap words ((eqb_text_iff a b).0 h)
eqb_shown→eq (digits a) (digits b) h = ap digits ((eqb_ℤ-iff a b).0 h)
eqb_shown→eq (hundredths a) (hundredths b) h = ap hundredths ((eqb_ℤ-iff a b).0 h)
eqb_shown→eq _ _ h = ground arith

pub eqb_shown_refl : (a : Shown) → eqb_shown a a ≡ true
eqb_shown_refl blank = refl
eqb_shown_refl (words a) = (eqb_text_iff a a).1 refl
eqb_shown_refl (digits a) = (eqb_ℤ-iff a a).1 refl
eqb_shown_refl (hundredths a) = (eqb_ℤ-iff a a).1 refl

-- Either the text detected is shown, or there is none and the one entered is.
pub as_text-known_text :
    (entered detected : String)
    → as_text (known_text entered detected)
      ≡ (if is_blank (as_text detected) then as_text entered else as_text detected)
unfolding known_text as_text
as_text-known_text entered detected = elim (Bool-cases (eqb_text detected "")) [
  | inl none_there ↦ rw (none_there, known_text, as_text) refl
  | inr there ↦ rw (there, known_text, as_text) (rw there refl)
]

pub int_text-known_int :
    (entered detected : ℤ)
    → pos 0 ≤ℤ detected
    → int_text (known_int entered detected)
      ≡ (if is_blank (int_text detected) then int_text entered else int_text detected)
unfolding known_int int_text
int_text-known_int entered detected h = ground arith

pub is_blank-chosen :
    (mine theirs : Shown)
    → is_blank (if is_blank theirs then mine else theirs) ≡ is_blank mine && is_blank theirs
is_blank-chosen mine theirs = ground arith

-- The fields that a test holds for.
abbrev pub keep : (Field → Bool) → List Field → List Field
keep test [] = []
keep test (field ∷ rest) = let more = keep test rest in if test field then field ∷ more else more

-- Whether no field is one of the TTFT's.
abbrev pub none_affects : List Field → Bool
none_affects [] = true
none_affects (field ∷ rest) =
    let more = none_affects rest in if affects_ttft field then false else more

pub All-of :
    {P : Field → Type 0} → ((field : Field) → P field) → (fields : List Field) → All P fields
All-of h [] = tt
All-of h (field ∷ rest) = (h field, All-of h rest)
