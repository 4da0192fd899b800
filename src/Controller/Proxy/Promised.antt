-- ===== src/Controller/Proxy/Promised.antt =====
-- internal/controller/capture.go: what updateCaptureSettings promises, refused and accepted.
use load_observatory.Prelude.{◌≤◌, ◌<◌, true, [], length, pos, ◌≤ℤ◌, ◌≡◌, ◌⊎◌, false, some, String}
use load_observatory.Prelude.Floats.{Floats}
use load_observatory.Core.Captures.{CaptureSettings}
use load_observatory.Core.Target.{Text, trim, is_space}
use load_observatory.Store.{MemoryStore}
use load_observatory.Store.Captures.{settings_of}
use load_observatory.Store.Captures.Retained.{IsInRange}
use load_observatory.Controller.{Response}
use load_observatory.Controller.Proxy.{CaptureSettingsRequest, capture_credentials}

module _ {F : Type 0} ⦃fl : Floats F⦄ where
  -- The bounds of what is sent.
  pub record IsWithin (input : CaptureSettingsRequest F) : Type 0 where
    pub idle : (pos 1 ≤ℤ input.session_idle_minutes) × (input.session_idle_minutes ≤ℤ pos 120)
    pub events : (pos 8 ≤ℤ input.max_events_per_session) × (input.max_events_per_session ≤ℤ pos 128)
    pub sessions : (pos 10 ≤ℤ input.retention_sessions) × (input.retention_sessions ≤ℤ pos 500)
    pub vus : (pos 1 ≤ℤ input.default_replay_vus) × (input.default_replay_vus ≤ℤ pos 500)
    pub think_time :
        (fl.lt input.replay_think_time_scale (fl.over (fl.of_int (pos 1)) (fl.of_int (pos 10)))
          ≡ false)
        × (fl.lt (fl.of_int (pos 10)) input.replay_think_time_scale ≡ false)
    pub buffer : (pos 30 ≤ℤ input.replay_buffer_seconds) × (input.replay_buffer_seconds ≤ℤ pos 1800)
    pub drain : (pos 0 ≤ℤ input.replay_drain_seconds) × (input.replay_drain_seconds ≤ℤ pos 600)

  -- The hash that is asked for: that of the token without the space around it, of 24 to 256 bytes; or, for
  -- no token, the hash that was stored.
  abbrev pub HashOf : (Text → String) → MemoryStore F → CaptureSettingsRequest F → String → Type 0
  HashOf hash s input token_hash =
      let token = trim is_space input.token in
      ((token ≡ []) × (token_hash ≡ (settings_of s.capture_settings).token_hash))
      ⊎ ((¬ (token ≡ [])) × (24 ≤ length token) × (length token ≤ 256) × (token_hash ≡ hash token))

  -- The settings are those that were sent, with that hash.
  pub record IsConfigured (hash : Text → String) (s : MemoryStore F)
      (input : CaptureSettingsRequest F) (settings : CaptureSettings F) : Type 0 where
    pub enabled : settings.enabled ≡ input.enabled
    pub token : HashOf hash s input settings.token_hash
    pub idle : settings.session_idle_minutes ≡ input.session_idle_minutes
    pub events : settings.max_events_per_session ≡ input.max_events_per_session
    pub sessions : settings.retention_sessions ≡ input.retention_sessions
    pub vus : settings.default_replay_vus ≡ input.default_replay_vus
    pub think_time : settings.replay_think_time_scale ≡ input.replay_think_time_scale
    pub buffer : settings.replay_buffer_seconds ≡ input.replay_buffer_seconds
    pub drain : settings.replay_drain_seconds ≡ input.replay_drain_seconds

  -- The store with the settings that were sent, within their bounds; and the proxy is off or has a token.
  abbrev pub Configures :
      (Text → String)
      → String
      → MemoryStore F
      → CaptureSettingsRequest F
      → MemoryStore F × Response F
      → Type 0
  Configures hash env s input (after, response) =
      (settings : CaptureSettings F) × (response.status ≡ 200)
      × (after ≡ record s { capture_settings = some settings })
      × IsConfigured hash s input settings
      × IsWithin input
      × IsInRange settings
      × ((capture_credentials env after.capture_settings).1 ≡ input.enabled)

  -- A refusal changes nothing, and has a reason: a value out of its bounds, a token of another length, or
  -- a proxy that is to be enabled without any token.
  abbrev pub Rejects :
      (Text → String)
      → String
      → MemoryStore F
      → CaptureSettingsRequest F
      → MemoryStore F × Response F
      → Type 0
  Rejects hash env s input (after, response) =
      let token = trim is_space input.token in
      (response.status ≡ 400)
      × (after ≡ s)
      × ((¬ IsWithin input)
          ⊎ (((¬ (token ≡ [])) × ((length token < 24) ⊎ (256 < length token)))
              ⊎ ((input.enabled ≡ true) × (env ≡ "") × HashOf hash s input "")))
