-- ===== src/Auth.antt =====
-- internal/auth/auth.go: sign-in by a signed cookie. A text of a cookie is its list of bytes. HMAC, the
-- JSON form of the claims and the identity provider are parameters; so are the times and the random
-- state.
pub mod Base64
pub mod Gate
pub mod Session
pub mod Admission
use Prim.Native.Nat.{ℕ}
use load_observatory.Prelude.{
  ℤ, pos, ltb_ℤ, ◌+ℤ◌, ◌==◌, if◌then◌else◌, Bool, true, false, ◌&&◌, not, List, [], ◌∷◌, ◌++◌,
  Option, none, some, String,
}
use load_observatory.Core.Server.{eqb_text}
use Base64.{encode, decode}

abbrev pub Bytes : Type 0
Bytes = List ℕ

pub record Config : Type 0 where
  pub issuer_url : String
  pub client_id : String
  pub client_secret : String
  pub redirect_url : String
  pub session_key : Bytes

pub record User : Type 0 where
  pub subject : String
  pub name : String

pub record SessionClaims : Type 0 where
  pub user : User
  pub exp : ℤ

-- What the code takes from Go's library: HMAC-SHA256 of a key and a payload, and the JSON of claims.
pub record Signing : Type 0 where
  pub mac : Bytes → Bytes → Bytes
  pub marshal : SessionClaims → Option Bytes
  pub unmarshal : Bytes → Option SessionClaims

pub data AuthError : Type 0 where
  no_signing_key not_encoded_claims malformed_cookie not_base64 : AuthError
  signature_mismatch not_claims session_expired : AuthError

pub data Result (A : Type 0) : Type 0 where
  ok : A → Result A
  err : AuthError → Result A

infixl 5 ◌>>=◌
abbrev pub ◌>>=◌ : {A B : Type 0} → Result A → (A → Result B) → Result B
ok a >>= f = f a
err e >>= f = err e

-- The value, or the error where there is none.
abbrev pub or_else : {A : Type 0} → Option A → AuthError → Result A
or_else none e = err e
or_else (some a) e = ok a

abbrev is_empty : Bytes → Bool
is_empty [] = true
is_empty (_ ∷ _) = false

unfoldable pub eqb_bytes : Bytes → Bytes → Bool
eqb_bytes [] [] = true
eqb_bytes (a ∷ as') (b ∷ bs) = a == b && eqb_bytes as' bs
eqb_bytes _ _ = false

abbrev cons_first : ℕ → Option (Bytes × Bytes) → Option (Bytes × Bytes)
cons_first c none = none
cons_first c (some (before, after)) = some (c ∷ before, after)

-- `strings.SplitN(value, ".", 2)`, or nothing if there is no dot.
unfoldable pub split_dot : Bytes → Option (Bytes × Bytes)
split_dot [] = none
split_dot (c ∷ rest) =
    let found = cons_first c (split_dot rest) in if c == 46 then some ([], rest) else found

-- `sessionTTL` and `stateTTL`, in seconds.
abbrev pub session_ttl : ℤ
session_ttl = pos 43200

abbrev pub state_ttl : ℤ
state_ttl = pos 300

pub data CookieName : Type 0 where
  lo_session lo_oauth_state : CookieName

pub record Cookie : Type 0 where
  pub name : CookieName
  pub value : Bytes
  pub http_only : Bool
  pub secure : Bool
  pub lax : Bool
  pub max_age : ℤ

unfoldable pub enabled : Config → Bool
enabled config = not (eqb_text config.issuer_url "")

module _ (signing : Signing) where
  unfoldable pub sign : Bytes → Bytes → Result Bytes
  sign payload key =
      if is_empty key
      then err no_signing_key
      else ok (encode payload ++ (46 ∷ encode (signing.mac key payload)))

  unfoldable pub verify : Bytes → Bytes → Result Bytes
  verify value key = if is_empty key then err no_signing_key else do
    (first, second) ← or_else (split_dot value) malformed_cookie
    payload ← or_else (decode first) not_base64
    signature ← or_else (decode second) not_base64
    if eqb_bytes signature (signing.mac key payload) then ok payload else err signature_mismatch

  -- signSession at a time in Unix seconds.
  unfoldable pub sign_session : Config → ℤ → User → Result Cookie
  sign_session config now user = do
    payload ←
        or_else (signing.marshal (record { user = user; exp = now +ℤ session_ttl }))
          not_encoded_claims
    value ← sign payload config.session_key
    ok (record {
      name = lo_session;
      value = value;
      http_only = true;
      secure = false;
      lax = true;
      max_age = session_ttl;
    })

  unfoldable pub verify_session : Config → ℤ → Bytes → Result User
  verify_session config now value = do
    payload ← verify value config.session_key
    claims ← or_else (signing.unmarshal payload) not_claims
    if ltb_ℤ claims.exp now then err session_expired else ok claims.user
