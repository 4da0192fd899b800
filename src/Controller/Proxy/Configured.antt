-- ===== src/Controller/Proxy/Configured.antt =====
-- internal/controller/capture.go: updateCaptureSettings, accepted and refused.
use text.Mathlib.TextEquality.{eq_iff}
use mathlib.Core.Bool.{true≢false}
use load_observatory.Prelude.{
  ℕ, ◌<◌, sym, ◌∙◌, ap, subst, true, [], ◌∷◌, ltb, ◌||◌, length, if◌then◌else◌, ◌≡◌, refl, ◌⊎◌, inl,
  inr, Bool, false, not, ◌&&◌, Bool-cases, some, String, arith,
}
use load_observatory.Prelude.Floats.{Floats}
use load_observatory.Core.Server.{eqb_text}
use load_observatory.Core.Target.{Text, trim, is_space, is_blank}
use load_observatory.Store.{MemoryStore}
use load_observatory.Store.Captures.{settings_of, set_capture_settings}
use load_observatory.Controller.Proxy.{
  CaptureSettingsRequest, is_outside_length, capture_credentials, get_capture_settings,
  is_out_of_range, merged_settings, store_settings, update_capture_settings,
}
use load_observatory.Controller.Proxy.Promised.{IsWithin, HashOf, Configures, Rejects}

enabled_with_token :
    (on : Bool) (own env : String)
    → on && eqb_text own "" && eqb_text env "" ≡ false
    → on && not (eqb_text (if eqb_text own "" then env else own) "") ≡ on
enabled_with_token on own env h = elim (Bool-cases (eqb_text own "")) [
  | inl empty ↦ rw empty (let k = rw empty at h in ground arith)
  | inr full ↦ rw full (ground arith)
]

nil-is_blank : (text : Text) → is_blank text ≡ true → text ≡ []
nil-is_blank [] h = refl
nil-is_blank (c ∷ rest) h = absurd (true≢false (sym h))

filled-is_blank : (text : Text) → is_blank text ≡ false → ¬ (text ≡ [])
filled-is_blank text given = λ e. true≢false (sym (ap is_blank e) ∙ given)

outside_length : (n : ℕ) → ltb n 24 || ltb 256 n ≡ true → (n < 24) ⊎ (256 < n)
outside_length n h = ground arith

module _ {F : Type 0} ⦃fl : Floats F⦄ where
  IsWithin-is_out_of_range :
      (input : CaptureSettingsRequest F) → is_out_of_range input ≡ false → IsWithin input
  unfolding is_out_of_range
  IsWithin-is_out_of_range input h = record {
    idle = (ground arith, ground arith);
    events = (ground arith, ground arith);
    sessions = (ground arith, ground arith);
    vus = (ground arith, ground arith);
    think_time = (ground arith, ground arith);
    buffer = (ground arith, ground arith);
    drain = (ground arith, ground arith);
  }

  is_out_of_range-IsWithin :
      (input : CaptureSettingsRequest F) → IsWithin input → is_out_of_range input ≡ false
  unfolding is_out_of_range
  is_out_of_range-IsWithin input w =
      ground (arith, w.idle, w.events, w.sessions, w.vus, w.think_time, w.buffer, w.drain)

  store_settings-Settles :
      (hash : Text → String) (env : String) (s : MemoryStore F) (input : CaptureSettingsRequest F)
      (token_hash : String)
      → HashOf hash s input token_hash
      → is_out_of_range input ≡ false
      → let outcome = store_settings env s input token_hash in
        Rejects hash env s input outcome ⊎ Configures hash env s input outcome
  unfolding store_settings set_capture_settings get_capture_settings capture_credentials settings_of
      eqb_text
  store_settings-Settles hash env s input token_hash token h =
      elim (Bool-cases (input.enabled && eqb_text token_hash "" && eqb_text env "")) [
        | inl tokenless ↦
            let own : eqb_text token_hash "" ≡ true = ground arith in
            let shared : eqb_text env "" ≡ true = ground arith in
            inl (
              rw tokenless (
                refl,
                refl,
                inr (
                    inr (
                      ground arith,
                      (eq_iff env "").0 shared,
                      subst (λ k. HashOf hash s input k) ((eq_iff token_hash "").0 own) token,
                    )),
              ))
        | inr fine ↦
            let within = IsWithin-is_out_of_range input h in
            inr (
              rw fine (
                merged_settings token_hash input,
                refl,
                refl,
                record {
                  enabled = refl;
                  token = token;
                  idle = refl;
                  events = refl;
                  sessions = refl;
                  vus = refl;
                  think_time = refl;
                  buffer = refl;
                  drain = refl;
                },
                within,
                (within.sessions.0, within.sessions.1, within.events.1),
                enabled_with_token input.enabled token_hash env fine,
              ))
      ]

  -- The controller either refuses the settings, for a value out of its bounds, a token of another length
  -- or no token at all for an enabled proxy, and leaves the store as it was; or it stores what was sent,
  -- field by field and within its bounds, with the hash of the new token or, without one, the hash that
  -- was stored, and the proxy is enabled exactly if that was asked for, with a token to check.
  pub update_capture_settings-Settles :
      (hash : Text → String) (env : String) (s : MemoryStore F) (input : CaptureSettingsRequest F)
      → let outcome = update_capture_settings hash env s (some input) in
        Rejects hash env s input outcome ⊎ Configures hash env s input outcome
  unfolding update_capture_settings
  update_capture_settings-Settles hash env s input = elim (Bool-cases (is_out_of_range input)) [
    | inl outside ↦ inl (
        rw outside
          (refl, refl, inl λ w. true≢false (sym outside ∙ is_out_of_range-IsWithin input w)))
    | inr inside ↦ elim (Bool-cases (is_blank (trim is_space input.token))) [
      | inl blank ↦
          rw (inside, blank)
            (store_settings-Settles hash env s input (settings_of s.capture_settings).token_hash
              (inl (nil-is_blank (trim is_space input.token) blank, refl)) inside)
      | inr given ↦ elim (Bool-cases (is_outside_length 24 256 (trim is_space input.token))) [
        | inl wrong ↦ inl (
            rw (inside, given, wrong)
              (
                refl,
                refl,
                inr (
                    inl (
                      filled-is_blank (trim is_space input.token) given,
                      outside_length (length (trim is_space input.token)) wrong,
                    )),
              ))
        | inr right ↦
            rw (inside, given, right)
              (store_settings-Settles hash env s input (hash (trim is_space input.token))
                (inr (
                  filled-is_blank (trim is_space input.token) given,
                  ground arith,
                  ground arith,
                  refl,
                ))
                inside)
      ]
    ]
  ]
