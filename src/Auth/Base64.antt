-- ===== src/Auth/Base64.antt =====
-- encoding/base64's RawURLEncoding, which internal/auth/auth.go writes cookies with. A text is its list
-- of bytes. Decoding skips line ends and ignores the bits left over in the last digit, as Go's does.
use Prim.Native.Nat.{ℕ, ◌+◌, ◌-◌, ◌*◌, ◌/◌, ◌%◌, ◌<◌}
use load_observatory.Prelude.{
  ltb, ◌==◌, ◌||◌, ◌&&◌, Bool, false, if◌then◌else◌, ◌≡◌, refl, ap, ◌≢◌, List, [], ◌∷◌, Option,
  none, some, All, arith,
}

-- The digits A-Z, a-z, 0-9, `-` and `_`.
digit : ℕ → ℕ
digit v =
    if ltb v 26
    then 65 + v
    else if ltb v 52
    then 71 + v
    else if ltb v 62
    then v - 4
    else if v == 62
    then 45
    else 95

digit_value : ℕ → Option ℕ
digit_value c =
    if ltb 64 c && ltb c 91
    then some (c - 65)
    else if ltb 96 c && ltb c 123
    then some (c - 71)
    else if ltb 47 c && ltb c 58
    then some (c + 4)
    else if c == 45
    then some 62
    else if c == 95
    then some 63
    else none

unfoldable pub encode : List ℕ → List ℕ
unfolding digit
encode [] = []
encode (a ∷ []) = digit (a / 4) ∷ digit (a % 4 * 16) ∷ []
encode (a ∷ b ∷ []) = digit (a / 4) ∷ digit (a % 4 * 16 + b / 16) ∷ digit (b % 16 * 4) ∷ []
encode (a ∷ b ∷ c ∷ rest) =
    digit (a / 4)
    ∷ digit (a % 4 * 16 + b / 16)
    ∷ digit (b % 16 * 4 + c / 64)
    ∷ digit (c % 64)
    ∷ encode rest

is_line_end : ℕ → Bool
is_line_end c = c == 10 || c == 13

without_line_ends : List ℕ → List ℕ
unfolding is_line_end
without_line_ends [] = []
without_line_ends (c ∷ rest) =
    let kept = without_line_ends rest in if is_line_end c then kept else c ∷ kept

infixl 5 ◌>>=◌
abbrev ◌>>=◌ : {A B : Type 0} → Option A → (A → Option B) → Option B
none >>= f = none
some a >>= f = f a

-- The bytes of the digits, in groups of four.
decode_groups : List ℕ → Option (List ℕ)
unfolding digit_value
decode_groups [] = some []
decode_groups (p ∷ []) = none
decode_groups (p ∷ q ∷ []) = do a ← digit_value p; b ← digit_value q; some ((a * 4 + b / 16) ∷ [])
decode_groups (p ∷ q ∷ r ∷ []) = do
  a ← digit_value p
  b ← digit_value q
  c ← digit_value r
  some ((a * 4 + b / 16) ∷ (b % 16 * 16 + c / 4) ∷ [])
decode_groups (p ∷ q ∷ r ∷ s ∷ rest) = do
  a ← digit_value p
  b ← digit_value q
  c ← digit_value r
  d ← digit_value s
  bytes ← decode_groups rest
  some ((a * 4 + b / 16) ∷ (b % 16 * 16 + c / 4) ∷ (c % 4 * 64 + d) ∷ bytes)

unfoldable pub decode : List ℕ → Option (List ℕ)
unfolding without_line_ends decode_groups
decode text = decode_groups (without_line_ends text)

abbrev pub IsByte : ℕ → Type 0
IsByte b = b < 256

digit_value-digit : (v : ℕ) → v < 64 → digit_value (digit v) ≡ some v
unfolding digit digit_value
digit_value-digit v h = ground arith

-- A digit is neither a line end nor the dot that separates the parts of a cookie.
digit-not_line_end : (v : ℕ) → is_line_end (digit v) ≡ false
unfolding digit is_line_end
digit-not_line_end v = ground arith

digit-ne_dot : (v : ℕ) → digit v ≢ 46
unfolding digit
digit-ne_dot v = ground arith

-- The decoded text of an encoded one keeps all its bytes: no byte is a line end.
without_line_ends-digit :
    (v : ℕ) (rest : List ℕ) → without_line_ends (digit v ∷ rest) ≡ digit v ∷ without_line_ends rest
unfolding without_line_ends
without_line_ends-digit v rest = rw (digit-not_line_end v) refl

without_line_ends-encode : (bytes : List ℕ) → without_line_ends (encode bytes) ≡ encode bytes
unfolding encode
without_line_ends-encode [] = unfold without_line_ends in refl
without_line_ends-encode (a ∷ []) = simp (without_line_ends-digit, without_line_ends-encode [])
without_line_ends-encode (a ∷ b ∷ []) = simp (without_line_ends-digit, without_line_ends-encode [])
without_line_ends-encode (a ∷ b ∷ c ∷ rest) =
    simp (without_line_ends-digit, without_line_ends-encode rest)

-- Whether the dot is not in a text.
abbrev pub Dotless : List ℕ → Type 0
Dotless = All (λ c. c ≢ 46)

pub encode-Dotless : (bytes : List ℕ) → Dotless (encode bytes)
unfolding encode
encode-Dotless [] = tt
encode-Dotless (a ∷ []) = (digit-ne_dot (a / 4), (digit-ne_dot (a % 4 * 16), tt))
encode-Dotless (a ∷ b ∷ []) =
    (digit-ne_dot (a / 4), (digit-ne_dot (a % 4 * 16 + b / 16), (digit-ne_dot (b % 16 * 4), tt)))
encode-Dotless (a ∷ b ∷ c ∷ rest) = (
  digit-ne_dot (a / 4),
  (
    digit-ne_dot (a % 4 * 16 + b / 16),
    (digit-ne_dot (b % 16 * 4 + c / 64), (digit-ne_dot (c % 64), encode-Dotless rest)),
  ),
)

decode_groups-encode :
    (bytes : List ℕ) → All IsByte bytes → decode_groups (encode bytes) ≡ some bytes
unfolding decode_groups encode
decode_groups-encode [] h = refl
decode_groups-encode (a ∷ []) h =
    rw (digit_value-digit (a / 4) (omega arith), digit_value-digit (a % 4 * 16) (omega arith))
      (ap (λ x. some (x ∷ [])) (omega arith))
decode_groups-encode (a ∷ b ∷ []) h =
    rw
      (
        digit_value-digit (a / 4) (omega arith),
        digit_value-digit (a % 4 * 16 + b / 16) (omega arith),
        digit_value-digit (b % 16 * 4) (omega arith),
      )
      (ground arith)
decode_groups-encode (a ∷ b ∷ c ∷ rest) h =
    rw
      (
        digit_value-digit (a / 4) (omega arith),
        digit_value-digit (a % 4 * 16 + b / 16) (omega arith),
        digit_value-digit (b % 16 * 4 + c / 64) (omega arith),
        digit_value-digit (c % 64) (omega arith),
        decode_groups-encode rest h.1.1.1,
      )
      (ground arith)

pub decode-encode : (bytes : List ℕ) → All IsByte bytes → decode (encode bytes) ≡ some bytes
unfolding decode
decode-encode bytes h = rw (without_line_ends-encode bytes) (decode_groups-encode bytes h)
