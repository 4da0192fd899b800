-- ===== src/Auth/Admission.antt =====
-- internal/auth/auth.go: Require. What a cookie must be to pass it.
use load_observatory.Prelude.{
  ℤ, ltb_ℤ, ◌≤ℤ◌, ltb_ℤ→≤, ◌≡◌, refl, ◌∙◌, ap, true, Bool-cases, Option-cases, ◌⊎◌, inl, inr, [],
  ◌∷◌, Option, none, some,
}
use load_observatory.Auth.{
  Bytes, Config, User, SessionClaims, Signing, Result, AuthError, ok, err, eqb_bytes, split_dot,
  verify, verify_session, enabled,
}
use load_observatory.Auth.Base64.{decode}
use load_observatory.Auth.Gate.{Gate, require}
use load_observatory.Auth.Session.{eqb_bytes→eq}

result-cases :
    {A : Type 0} (r : Result A) → ((e : AuthError) × (r ≡ err e)) ⊎ ((a : A) × (r ≡ ok a))
result-cases (ok a) = inr (a, refl)
result-cases (err e) = inl (e, refl)

module _ (signing : Signing) where
  -- A cookie made of a payload and the HMAC of the payload under the key, both in base64.
  abbrev pub IsSigned : Bytes → Bytes → Bytes → Type 0
  IsSigned key value payload =
      (first : Bytes) × (second : Bytes) × (split_dot value ≡ some (first, second))
      × (decode first ≡ some payload)
      × (decode second ≡ some (signing.mac key payload))

  verify-IsSigned :
      (key value payload : Bytes)
      → verify signing value key ≡ ok payload
      → IsSigned key value payload
  unfolding verify
  verify-IsSigned [] value payload h = cc
  verify-IsSigned (c ∷ key) value payload h = elim (Option-cases (split_dot value)) [
    | inl dotless ↦ absurd (let e = rw dotless at h in cc)
    | inr ((first, second), split) ↦ elim (Option-cases (decode first)) [
      | inl bad ↦ absurd (let e = rw (split, bad) at h in cc)
      | inr (read, decoded) ↦ elim (Option-cases (decode second)) [
        | inl bad ↦ absurd (let e = rw (split, decoded, bad) at h in cc)
        | inr (signature, signed) ↦
            elim (Bool-cases (eqb_bytes signature (signing.mac (c ∷ key) read))) [
              | inl equal ↦
                  let e : ok read ≡ ok payload = rw (split, decoded, signed, equal) at h in
                  let same : read ≡ payload = cc in
                  (
                    first,
                    second,
                    split,
                    decoded ∙ ap some same,
                    signed
                        ∙ ap some (eqb_bytes→eq signature (signing.mac (c ∷ key) read) equal)
                        ∙ ap (λ r. some (signing.mac (c ∷ key) r)) same,
                  )
              | inr differs ↦ absurd (let e = rw (split, decoded, signed, differs) at h in cc)
            ]
      ]
    ]
  ]

  -- What admits a request: a signed cookie of claims whose time is not over.
  abbrev pub Admitted : Config → ℤ → Option Bytes → User → Type 0
  Admitted config now cookie user =
      (value : Bytes) × (payload : Bytes) × (claims : SessionClaims) × (cookie ≡ some value)
      × IsSigned config.session_key value payload
      × (signing.unmarshal payload ≡ some claims)
      × (now ≤ℤ claims.exp)
      × (claims.user ≡ user)

  -- For an enabled gate, whatever the cookie, the key and the time: the wrapped handler runs only for the
  -- user of a cookie that is signed with the key and whose time is not over. Every other request gets
  -- the refusal.
  pub require-Admitted {ℓ} :
      {A : Type ℓ} (gate : Gate) (now : ℤ) (cookie : Option Bytes) (next : Option User → A)
      (unauthorized : A)
      → enabled gate.config ≡ true
      → (require signing gate now cookie next unauthorized ≡ unauthorized)
        ⊎ ((user : User) × Admitted gate.config now cookie user
            × (require signing gate now cookie next unauthorized ≡ next (some user)))
  unfolding require verify_session
  require-Admitted gate now none next unauthorized on = inl (rw on refl)
  require-Admitted gate now (some value) next unauthorized on =
      elim (result-cases (verify signing value gate.config.session_key)) [
        | inl (e, failed) ↦ inl (rw (on, failed) refl)
        | inr (payload, verified) ↦ elim (Option-cases (signing.unmarshal payload)) [
          | inl unread ↦ inl (rw (on, verified, unread) refl)
          | inr (claims, decoded) ↦ elim (Bool-cases (ltb_ℤ claims.exp now)) [
            | inl late ↦ inl (rw (on, verified, decoded, late) refl)
            | inr live ↦ inr (
              claims.user,
              (
                value,
                payload,
                claims,
                refl,
                verify-IsSigned gate.config.session_key value payload verified,
                decoded,
                ltb_ℤ→≤ claims.exp now live,
                refl,
              ),
              rw (on, verified, decoded, live) refl,
            )
          ]
        ]
      ]
