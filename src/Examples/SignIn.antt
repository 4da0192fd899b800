-- ===== src/Examples/SignIn.antt =====
-- internal/auth/auth.go: a sign-in with a provider that knows one person.
use load_observatory.Prelude.{
  ℕ, pos, ◌+ℤ◌, ◌%◌, ◌≡◌, refl, sym, subst, true, [], ◌∷◌, Option, some, length, All, arith, ◌⊎◌,
}
use load_observatory.Core.Server.{eqb_text}
use load_observatory.Auth.{
  Bytes, Config, User, Signing, enabled, verify_session, verify, eqb_bytes, split_dot,
}
use load_observatory.Auth.Base64.{IsByte, decode}
use load_observatory.Auth.Gate.{
  Gate, Provider, IdToken, redeem, redeemed, user_of, callback, require,
}
use load_observatory.Auth.Session.{
  Brings, Survives, StartsSession, IsRefusal, claims_of, callback-Settles,
}
use load_observatory.Auth.Admission.{Admitted, require-Admitted}

abbrev token : IdToken
token = record { subject = "17"; name = ""; preferred_username = "kim" }

abbrev provider : Provider
provider = record {
  auth_code_url = λ state. "https://id/login";
  exchange = λ code. some (some (1 ∷ []));
  verify_id_token = λ raw. some token;
}

abbrev config : Config
config = record {
  issuer_url = "https://id";
  client_id = "lo";
  client_secret = "s";
  redirect_url = "/";
  session_key = 7 ∷ 8 ∷ [];
}

abbrev gate : Gate
gate = record { config = config; provider = some provider }

abbrev signing : Signing
signing = record {
  mac = λ key payload. (length payload % 256) ∷ [];
  marshal = λ claims. some (123 ∷ 125 ∷ []);
  unmarshal = λ payload. some (claims_of (pos 1000) (user_of token));
}

mac_bytes : (key payload : Bytes) → All IsByte (signing.mac key payload)
mac_bytes key payload = omega arith

signs_in : enabled config ≡ true
unfolding enabled eqb_text
signs_in = refl

only_token : (other : IdToken) → Brings gate (5 ∷ []) (some (5 ∷ [])) "c" other → token ≡ other
unfolding redeem
only_token other (p, there, sent, got) =
    let same : provider ≡ p = cc in
    let brought : redeem provider "c" ≡ redeemed other =
      subst (λ q. redeem q "c" ≡ redeemed other) (sym same) got in
    cc

callback-Settles_example :
    ((other : IdToken) × Brings gate (5 ∷ []) (some (5 ∷ [])) "c" other
      × StartsSession signing gate
          (pos 1000)
          other
          (callback signing gate (pos 1000) (5 ∷ []) (some (5 ∷ [])) "c"))
    ⊎ IsRefusal (callback signing gate (pos 1000) (5 ∷ []) (some (5 ∷ [])) "c")
callback-Settles_example =
    callback-Settles signing mac_bytes gate 7 (8 ∷ []) (pos 1000) (5 ∷ []) (some (5 ∷ [])) "c"
      signs_in refl
      (λ other brought.
        subst (λ t. Survives signing (claims_of (pos 1000) (user_of t))) (only_token other brought)
          (123 ∷ 125 ∷ [], refl, refl, omega arith))

-- `e30.Ag`: the claims `{}` and their two bytes' HMAC.
abbrev signed : Bytes
signed = 101 ∷ 51 ∷ 48 ∷ 46 ∷ 65 ∷ 103 ∷ []

abbrev answer : Option User → ℕ
answer user = 200

admits_signed : require signing gate (pos 5) (some signed) answer 401 ≡ 200
unfolding require verify_session verify eqb_bytes split_dot decode enabled eqb_text ◌+ℤ◌
admits_signed = refl

require-Admitted_example :
    (require signing gate (pos 5) (some signed) answer 401 ≡ 401)
    ⊎ ((user : User) × Admitted signing config (pos 5) (some signed) user
        × (require signing gate (pos 5) (some signed) answer 401 ≡ answer (some user)))
require-Admitted_example = require-Admitted signing gate (pos 5) (some signed) answer 401 signs_in
