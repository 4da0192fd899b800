-- ===== src/Auth/Session.antt =====
-- internal/auth/auth.go: what a signed session cookie is worth.
use load_observatory.Prelude.{
  ℕ, ℤ, ltb_ℤ, ◌+ℤ◌, if◌then◌else◌, ◌≡◌, refl, sym, ◌∙◌, ap, true, false, Bool-cases, Option-cases,
  ◌⊎◌, ◌≤◌, inl, inr, [], ◌∷◌, ◌++◌, Option, none, some, String, All, arith,
}
use load_observatory.Auth.{
  Bytes, Config, User, SessionClaims, Signing, session_expired, ok, err, eqb_bytes, split_dot,
  session_ttl, Cookie, lo_session, sign, verify, sign_session, verify_session, enabled,
}
use load_observatory.Auth.Gate.{
  Gate, Provider, IdToken, Response, refusal, redeemed, redeem, user_of, callback, require,
  start_session, state_dropped,
}
use load_observatory.Auth.Base64.{encode, IsByte, Dotless, encode-Dotless, decode-encode}

pub eqb_bytes_refl : (a : Bytes) → eqb_bytes a a ≡ true
unfolding eqb_bytes
eqb_bytes_refl [] = refl
eqb_bytes_refl (c ∷ rest) = rw (eqb_bytes_refl rest) (ground arith)

pub eqb_bytes→eq : (a b : Bytes) → eqb_bytes a b ≡ true → a ≡ b
unfolding eqb_bytes
eqb_bytes→eq [] [] h = refl
eqb_bytes→eq (a ∷ rest) (b ∷ others) h = ground (arith, eqb_bytes→eq rest others)
eqb_bytes→eq _ _ h = cc

redeem-cases :
    (provider : Provider) (code : String)
    → ((token : IdToken) × (redeem provider code ≡ redeemed token))
      ⊎ ((status : ℕ) × (redeem provider code ≡ refusal status) × (400 ≤ status))
unfolding redeem
redeem-cases provider code = elim (Option-cases (provider.exchange code)) [
  | inl failed ↦ inr (502, rw (failed, redeem) refl, omega arith)
  | inr (none, empty) ↦ inr (502, rw (empty, redeem) refl, omega arith)
  | inr (some raw, full) ↦ elim (Option-cases (provider.verify_id_token raw)) [
    | inl forged ↦ inr (401, rw (full, forged, redeem) refl, omega arith)
    | inr (token, good) ↦ inl (token, rw (full, good, redeem) refl)
  ]
]

split_dot-append :
    (before after : Bytes)
    → Dotless before
    → split_dot (before ++ (46 ∷ after)) ≡ some (before, after)
unfolding split_dot
split_dot-append [] after h = refl
split_dot-append (c ∷ rest) after h = rw (split_dot-append rest after h.1) (ground arith)

-- What the code relies on: claims survive their JSON form, which is made of bytes, and so is HMAC.
abbrev pub Survives : Signing → SessionClaims → Type 0
Survives signing claims =
    (payload : Bytes) × (signing.marshal claims ≡ some payload)
    × (signing.unmarshal payload ≡ some claims)
    × All IsByte payload

abbrev pub claims_of : ℤ → User → SessionClaims
claims_of started user = record { user = user; exp = started +ℤ session_ttl }

-- The provider's answers that a callback needs: the token is what the code brings.
abbrev pub Brings : Gate → Bytes → Option Bytes → String → IdToken → Type 0
Brings gate state expected code token =
    (provider : Provider) × (gate.provider ≡ some provider)
    × (expected ≡ some state)
    × (redeem provider code ≡ redeemed token)

-- An error, with no cookie but the one that drops the state.
abbrev pub IsRefusal : Response → Type 0
IsRefusal response =
    (400 ≤ response.status) × All (λ cookie. cookie ≡ state_dropped) response.cookies

module _ (signing : Signing) where
  -- The user of a session cookie that was set at `started` is admitted until its time is over.
  abbrev pub Admits : Gate → ℤ → User → Cookie → Type 0
  Admits gate started user cookie =
      (now : ℤ) (next : Option User → ℕ) (unauthorized : ℕ)
      → require signing gate now (some cookie.value) next unauthorized
        ≡ (if ltb_ℤ (started +ℤ session_ttl) now then unauthorized else next (some user))

  -- The answer that starts a session of the token's user.
  abbrev pub StartsSession : Gate → ℤ → IdToken → Response → Type 0
  StartsSession gate started token response =
      (cookie : Cookie) × (response
        ≡ record { status = 302; cookies = state_dropped ∷ cookie ∷ []; location = some "/" })
      × (cookie.name ≡ lo_session)
      × (cookie.http_only ≡ true)
      × Admits gate started (user_of token) cookie

module _ (signing : Signing)
    (mac_bytes : (key payload : Bytes) → All IsByte (signing.mac key payload)) where
  verify-sign :
      (payload : Bytes) (c : ℕ) (key : Bytes)
      → All IsByte payload
      → verify signing (encode payload ++ (46 ∷ encode (signing.mac (c ∷ key) payload))) (c ∷ key)
        ≡ ok payload
  unfolding verify
  verify-sign payload c key h =
      rw
        (
          split_dot-append (encode payload) (encode (signing.mac (c ∷ key) payload))
              (encode-Dotless payload),
          decode-encode payload h,
          decode-encode (signing.mac (c ∷ key) payload) (mac_bytes (c ∷ key) payload),
          eqb_bytes_refl (signing.mac (c ∷ key) payload),
        )
        refl

  -- A session that was started keeps its user for the time to live, and no longer.
  verify_session-sign_session :
      (config : Config) (c : ℕ) (key : Bytes) (started : ℤ) (user : User)
      → config.session_key ≡ c ∷ key
      → Survives signing (claims_of started user)
      → (cookie : Cookie) × (sign_session signing config started user ≡ ok cookie)
        × (cookie.name ≡ lo_session)
        × (cookie.http_only ≡ true)
        × ((now : ℤ)
            → verify_session signing config now cookie.value
              ≡ (if ltb_ℤ (started +ℤ session_ttl) now then err session_expired else ok user))
  unfolding sign_session verify_session sign
  verify_session-sign_session config c key started user held survives =
      let (payload, marshals, unmarshals, bytes) = survives in
      (
        record {
          name = lo_session;
          value = encode payload ++ (46 ∷ encode (signing.mac (c ∷ key) payload));
          http_only = true;
          secure = false;
          lax = true;
          max_age = session_ttl;
        },
        rw (marshals, held) refl,
        refl,
        refl,
        λ now. rw (held, verify-sign payload c key bytes, unmarshals) refl,
      )

  start_session-StartsSession :
      (gate : Gate) (c : ℕ) (key : Bytes) (started : ℤ) (token : IdToken)
      → enabled gate.config ≡ true
      → gate.config.session_key ≡ c ∷ key
      → Survives signing (claims_of started (user_of token))
      → StartsSession signing gate started token (start_session signing gate started token)
  unfolding start_session require
  start_session-StartsSession gate c key started token on held survives =
      let user = user_of token in
      let (cookie, signs, name, only, verifies) =
        verify_session-sign_session gate.config c key started user held survives in
      (
        cookie,
        rw (signs, start_session) refl,
        name,
        only,
        λ now next unauthorized. rw (on, verifies now, require) (ground arith),
      )

  -- A callback for an enabled gate with a signing key, whose claims survive JSON. Either the provider is
  -- there, the state is the state cookie's and the code brings an ID token; then the answer drops the
  -- state and sets a session cookie, out of scripts' reach, that admits as the token's user from then
  -- on until twelve hours have passed, and not after. Or the answer is an error and sets no session.
  pub callback-Settles :
      (gate : Gate) (c : ℕ) (key : Bytes) (started : ℤ) (state : Bytes) (expected : Option Bytes)
      (code : String)
      → enabled gate.config ≡ true
      → gate.config.session_key ≡ c ∷ key
      → ((token : IdToken)
          → Brings gate state expected code token
          → Survives signing (claims_of started (user_of token)))
      → let response = callback signing gate started state expected code in
        ((token : IdToken) × Brings gate state expected code token
          × StartsSession signing gate started token response)
        ⊎ IsRefusal response
  unfolding callback require
  callback-Settles gate c key started state expected code on held survive =
      elim (Option-cases gate.provider) [
        | inl out ↦ inr (rw (out, callback) (omega arith, tt))
        | inr (provider, there) ↦ elim (Option-cases expected) [
          | inl missing ↦ inr (rw (there, missing, callback) (omega arith, tt))
          | inr (kept, sent) ↦ elim (Bool-cases (eqb_bytes state kept)) [
            | inl same ↦ elim (redeem-cases provider code) [
              | inl (token, got) ↦ inl (
                token,
                brings token provider there kept sent same got,
                rw (there, sent, same, got, callback)
                    (start_session-StartsSession gate c key started token on held
                      (survive token (brings token provider there kept sent same got))),
              )
              | inr (status, lost, high) ↦
                  inr (rw (there, sent, same, lost, callback) (high, (refl, tt)))
            ]
            | inr other ↦ inr (rw (there, sent, other, callback) (omega arith, tt))
          ]
        ]
      ]
    where
      brings :
          (token : IdToken) (provider : Provider)
          → gate.provider ≡ some provider
          → (kept : Bytes) → expected ≡ some kept
          → eqb_bytes state kept ≡ true
          → redeem provider code ≡ redeemed token
          → Brings gate state expected code token
      brings token provider there kept sent same got =
          (provider, there, sent ∙ ap some (sym (eqb_bytes→eq state kept same)), got)
