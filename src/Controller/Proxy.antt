-- ===== src/Controller/Proxy.antt =====
-- internal/controller/capture.go: the settings of the capture proxy. The hash of a token is a parameter,
-- as is `env`, the hash that the controller was started with, or the empty text.
pub mod Promised
pub mod Configured
pub mod Events
pub mod Completion
pub mod Admitted
use load_observatory.Prelude.{
  ℕ, ℤ, pos, ltb_ℤ, ltb, if◌then◌else◌, Bool, true, false, not, ◌&&◌, ◌||◌, List, [], ◌∷◌, Option,
  none, some, String, length,
}
use load_observatory.Prelude.Floats.{Floats}
use load_observatory.Core.Server.{eqb_text}
use load_observatory.Core.Captures.{CaptureSettings}
use load_observatory.Core.Validation.{max_vus}
use load_observatory.Core.Target.{Text, trim, is_space, is_blank}
use load_observatory.Store.{MemoryStore}
use load_observatory.Store.Captures.{settings_of, set_capture_settings}
use load_observatory.Controller.{CaptureSettingsView, Response, answer, refuse, of_capture_settings}

pub record CaptureSettingsRequest (F : Type 0) : Type 0 where
  pub enabled : Bool
  pub token : Text
  pub session_idle_minutes : ℤ
  pub max_events_per_session : ℤ
  pub retention_sessions : ℤ
  pub default_replay_vus : ℤ
  pub replay_think_time_scale : F
  pub replay_buffer_seconds : ℤ
  pub replay_drain_seconds : ℤ

-- `value < low || value > high`
abbrev pub is_outside : ℤ → ℤ → ℤ → Bool
is_outside low high value = ltb_ℤ value low || ltb_ℤ high value

abbrev pub is_outside_length : ℕ → ℕ → Text → Bool
is_outside_length low high text = ltb (length text) low || ltb high (length text)

module _ {F : Type 0} ⦃fl : Floats F⦄ where
  -- The hash of the token, whether the proxy is enabled, and whether there is a token.
  unfoldable pub capture_credentials : String → Option (CaptureSettings F) → String × Bool × Bool
  capture_credentials env stored =
      let own = (settings_of stored).token_hash in
      let token_hash = if eqb_text own "" then env else own in
      let configured = not (eqb_text token_hash "") in
      (
        token_hash,
        elim stored [ none ↦ configured | some settings ↦ settings.enabled && configured ],
        configured,
      )

  unfoldable pub get_capture_settings : String → MemoryStore F → Response F
  get_capture_settings env s =
      let settings = settings_of s.capture_settings in
      let (token_hash, enabled, configured) = capture_credentials env s.capture_settings in
      answer 200 (
        of_capture_settings (record {
          enabled = enabled;
          token_configured = configured;
          session_idle_minutes = settings.session_idle_minutes;
          max_events_per_session = settings.max_events_per_session;
          retention_sessions = settings.retention_sessions;
          default_replay_vus = settings.default_replay_vus;
          replay_think_time_scale = settings.replay_think_time_scale;
          replay_buffer_seconds = settings.replay_buffer_seconds;
          replay_drain_seconds = settings.replay_drain_seconds;
        }))

  -- The range of every setting.
  unfoldable pub is_out_of_range : CaptureSettingsRequest F → Bool
  is_out_of_range input =
      is_outside (pos 1) (pos 120) input.session_idle_minutes
      || is_outside (pos 8) (pos 128) input.max_events_per_session
      || is_outside (pos 10) (pos 500) input.retention_sessions
      || is_outside (pos 1) max_vus input.default_replay_vus
      || fl.lt input.replay_think_time_scale (fl.over (fl.of_int (pos 1)) (fl.of_int (pos 10)))
      || fl.lt (fl.of_int (pos 10)) input.replay_think_time_scale
      || is_outside (pos 30) (pos 1800) input.replay_buffer_seconds
      || is_outside (pos 0) (pos 600) input.replay_drain_seconds

  -- The settings with what was sent, under the hash of a token.
  abbrev pub merged_settings : String → CaptureSettingsRequest F → CaptureSettings F
  merged_settings token_hash input = record {
    enabled = input.enabled;
    token_hash = token_hash;
    session_idle_minutes = input.session_idle_minutes;
    max_events_per_session = input.max_events_per_session;
    retention_sessions = input.retention_sessions;
    default_replay_vus = input.default_replay_vus;
    replay_think_time_scale = input.replay_think_time_scale;
    replay_buffer_seconds = input.replay_buffer_seconds;
    replay_drain_seconds = input.replay_drain_seconds;
  }

  -- The end of updateCaptureSettings, once the hash of the token is settled.
  unfoldable pub store_settings :
      String → MemoryStore F → CaptureSettingsRequest F → String → MemoryStore F × Response F
  store_settings env s input token_hash =
      let after = set_capture_settings s (merged_settings token_hash input) in
      if input.enabled && eqb_text token_hash "" && eqb_text env ""
      then (s, refuse 400)
      else (after, get_capture_settings env after)

  unfoldable pub update_capture_settings :
      (Text → String)
      → String
      → MemoryStore F
      → Option (CaptureSettingsRequest F)
      → MemoryStore F × Response F
  update_capture_settings hash env s none = (s, refuse 400)
  update_capture_settings hash env s (some input) =
      let token = trim is_space input.token in
      if is_out_of_range input
      then (s, refuse 400)
      else if is_blank token
      then store_settings env s input (settings_of s.capture_settings).token_hash
      else if is_outside_length 24 256 token
      then (s, refuse 400)
      else store_settings env s input (hash token)
