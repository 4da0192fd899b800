-- ===== src/Store/Captures.antt =====
-- internal/store/store.go: RecordCapture, DeleteCapture and the capture settings. The order in which
-- RecordCapture's `range` visits the sessions is `visit`.
pub mod Sessions
pub mod Retained
pub mod Calls
pub mod Scattered
use load_observatory.Prelude.{
  ℕ, ◌^◌, ◌-◌, ℤ, pos, ltb_ℤ, ◌+ℤ◌, ◌-ℤ◌, times_ℤ, if◌then◌else◌, Bool, true, false, not, ◌&&◌,
  List, [], ◌∷◌, ◌++◌, Option, none, some, length,
}
use load_observatory.Prelude.Floats.{Floats}
use load_observatory.Core.Captures.{
  CaptureId, at_time, eqb_id, CaptureSession, CaptureEvent, CaptureSettings,
}
use load_observatory.Store.{MemoryStore}

abbrev pub Sessions : Type 0
Sessions = List (CaptureId × CaptureSession)

unfoldable pub lookup_session : CaptureId → Sessions → Option CaptureSession
lookup_session id [] = none
lookup_session id ((held, session) ∷ rest) =
    if eqb_id held id then some session else lookup_session id rest

unfoldable pub insert_session : CaptureId → CaptureSession → Sessions → Sessions
insert_session id session [] = (id, session) ∷ []
insert_session id session ((held, old) ∷ rest) =
    if eqb_id held id then (id, session) ∷ rest else (held, old) ∷ insert_session id session rest

unfoldable pub delete_session : CaptureId → Sessions → Sessions
delete_session id [] = []
delete_session id ((held, session) ∷ rest) =
    let kept = delete_session id rest in if eqb_id held id then kept else (held, session) ∷ kept

-- `int64(^uint64(0) >> 1)`
abbrev pub max_int64 : ℤ
max_int64 = pos (2 ^ 63 - 1)

-- The loop for the session that was updated first, from the best so far.
unfoldable pub oldest_from : Option CaptureId → ℤ → Sessions → Option CaptureId
oldest_from best oldest [] = best
oldest_from best oldest ((id, item) ∷ rest) =
    let earlier = ltb_ℤ item.updated_unix_millis oldest in
    oldest_from (if earlier then some id else best)
      (if earlier then item.updated_unix_millis else oldest) rest

-- `delete(s.captures, oldestID)`, where no id was found: nothing is keyed by the empty text.
abbrev pub delete_found : Option CaptureId → Sessions → Sessions
delete_found none sessions = sessions
delete_found (some id) sessions = delete_session id sessions

module _ {F : Type 0} ⦃fl : Floats F⦄ where
  unfoldable pub default_capture_settings : CaptureSettings F
  default_capture_settings = record {
    enabled = true;
    token_hash = "";
    session_idle_minutes = pos 15;
    max_events_per_session = pos 128;
    retention_sessions = pos 100;
    default_replay_vus = pos 30;
    replay_think_time_scale = fl.of_int (pos 1);
    replay_buffer_seconds = pos 300;
    replay_drain_seconds = pos 120;
  }

  -- GetCaptureSettings, and what RecordCapture takes for the settings.
  unfoldable pub settings_of : Option (CaptureSettings F) → CaptureSettings F
  settings_of none = default_capture_settings
  settings_of (some settings) = settings

module _ {F : Type 0} where
  unfoldable pub set_capture_settings : MemoryStore F → CaptureSettings F → MemoryStore F
  set_capture_settings s settings = record s { capture_settings = some settings }

  unfoldable pub delete_capture : MemoryStore F → CaptureId → MemoryStore F × Bool
  delete_capture s id = elim (lookup_session id s.captures) [
    | none ↦ (s, false)
    | some session ↦ (record s { captures = delete_session id s.captures }, true)
  ]

  -- `session.StartedUnixMillis-current.UpdatedUnixMillis > int64(settings.SessionIdleMinutes)*60*1000`
  abbrev pub is_idle : CaptureSettings F → CaptureSession → CaptureSession → Bool
  is_idle settings session current =
      ltb_ℤ (times_ℤ settings.session_idle_minutes (pos 60000))
        (session.started_unix_millis -ℤ current.updated_unix_millis)

  -- The session with its id made new if the one under its id has been idle.
  unfoldable pub split_if_idle : CaptureSettings F → Sessions → CaptureSession → CaptureSession
  split_if_idle settings sessions session = elim (lookup_session session.id sessions) [
    | none ↦ session
    | some current ↦
        if is_idle settings session current
        then record session { id = at_time session.id session.started_unix_millis }
        else session
  ]

  -- The sessions with room for a new one, where there are too many.
  unfoldable pub make_room : (Sessions → Sessions) → CaptureSettings F → Sessions → Sessions
  make_room visit settings sessions =
      if not (ltb_ℤ (pos (length sessions)) settings.retention_sessions)
      then delete_found (oldest_from none max_int64 (visit sessions)) sessions
      else sessions

  -- The current session with the event added, if it may hold one more, and its time.
  unfoldable pub with_event :
      CaptureSettings F → CaptureSession → CaptureEvent → CaptureSession → CaptureSession
  with_event settings session event current =
      let stamped = record event {
        timestamp_millis = session.started_unix_millis -ℤ current.started_unix_millis;
      } in
      record current {
        events =
            if ltb_ℤ (pos (length current.events)) settings.max_events_per_session
            then current.events ++ (stamped ∷ [])
            else current.events;
        updated_unix_millis = session.updated_unix_millis;
      }

  -- The sessions and the one recorded, for a session whose id is settled.
  unfoldable pub record_in :
      (Sessions → Sessions)
      → CaptureSettings F
      → Sessions
      → CaptureSession
      → CaptureEvent
      → Sessions × CaptureSession
  record_in visit settings sessions session event = elim (lookup_session session.id sessions) [
    | none ↦
        let current = with_event settings session event session in
        (insert_session current.id current (make_room visit settings sessions), current)
    | some held ↦
        let current = with_event settings session event held in
        (insert_session current.id current sessions, current)
  ]

module _ {F : Type 0} ⦃fl : Floats F⦄ where
  unfoldable pub record_capture :
      (Sessions → Sessions)
      → MemoryStore F
      → CaptureSession
      → CaptureEvent
      → MemoryStore F × CaptureSession
  record_capture visit s session event =
      let settings = settings_of s.capture_settings in
      let (sessions, current) =
        record_in visit settings s.captures (split_if_idle settings s.captures session) event in
      (record s { captures = sessions }, current)
