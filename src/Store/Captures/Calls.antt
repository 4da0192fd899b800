-- ===== src/Store/Captures/Calls.antt =====
-- internal/store/store.go: the captures after any calls that touch them.
use load_observatory.Prelude.{
  ◌≤◌, ◌<ℤ◌, ◌≡◌, sym, ◌∙◌, subst, Option-cases, inl, inr, List, [], ◌∷◌, length, All, In, All-map,
  arith,
}
use load_observatory.Prelude.Floats.{Floats}
use load_observatory.Core.Captures.{CaptureId, CaptureSession, CaptureEvent, CaptureSettings}
use load_observatory.Store.{MemoryStore, new_memory_store}
use load_observatory.Store.Captures.{
  Sessions, lookup_session, max_int64, settings_of, default_capture_settings, set_capture_settings,
  delete_capture, split_if_idle, record_capture,
}
use load_observatory.Store.Captures.Sessions.{length-delete_session_le, All-delete_session}
use load_observatory.Store.Captures.Retained.{
  IsKept, IsInRange, record_in-IsKept, split_if_idle-same,
}

-- A call that touches the captures.
pub data CaptureCall (F : Type 0) : Type 0 where
  record_one : CaptureSession → CaptureEvent → CaptureCall F
  delete_one : CaptureId → CaptureCall F
  configure : CaptureSettings F → CaptureCall F

-- A session that the proxy sends has no events yet and a time; settings are as the controller lets them.
abbrev pub IsAllowed : {F : Type 0} → CaptureCall F → Type 0
IsAllowed (record_one session event) =
    (session.events ≡ []) × (session.updated_unix_millis <ℤ max_int64)
IsAllowed (delete_one id) = Unit
IsAllowed (configure settings) = IsInRange settings

module _ {F : Type 0} ⦃fl : Floats F⦄ where
  pub record IsRetained (s : MemoryStore F) : Type 0 where
    pub count : length s.captures ≤ 500
    pub kept : All IsKept s.captures
    pub range : IsInRange (settings_of s.capture_settings)

  module _ (visit : Sessions → Sessions)
      (visits : (sessions : Sessions) → length (visit sessions) ≡ length sessions)
      (visits_own : (sessions : Sessions) (e : CaptureId × CaptureSession)
        → In e (visit sessions)
        → In e sessions) where
    unfoldable pub perform : MemoryStore F → CaptureCall F → MemoryStore F
    perform s (record_one session event) = (record_capture visit s session event).0
    perform s (delete_one id) = (delete_capture s id).0
    perform s (configure settings) = set_capture_settings s settings

    unfoldable pub replay : MemoryStore F → List (CaptureCall F) → MemoryStore F
    replay s [] = s
    replay s (call ∷ calls) = replay (perform s call) calls

    perform-IsRetained :
        (s : MemoryStore F) (call : CaptureCall F)
        → IsAllowed call
        → IsRetained s
        → IsRetained (perform s call)
    unfolding perform record_capture delete_capture set_capture_settings settings_of
    perform-IsRetained s (record_one session event) allowed r =
        let settings = settings_of s.capture_settings in
        let (events, updated) = split_if_idle-same settings s.captures session in
        let (count, kept) =
          record_in-IsKept visit visits visits_own settings r.range s.captures
            (split_if_idle settings s.captures session) event r.count r.kept (events ∙ allowed.0)
            (subst (λ t. t <ℤ max_int64) (sym updated) allowed.1) in
        record { count = count; kept = kept; range = r.range }
    perform-IsRetained s (delete_one id) allowed r =
        elim (Option-cases (lookup_session id s.captures)) [
          | inl missing ↦ rw (missing, perform) r
          | inr (session, there) ↦
              rw (there, perform)
                (record {
                  count = omega (arith, length-delete_session_le id s.captures, r.count);
                  kept = All-delete_session IsKept id s.captures r.kept;
                  range = r.range;
                })
        ]
    perform-IsRetained s (configure settings) allowed r = record {
      count = r.count;
      kept = r.kept;
      range = allowed;
    }

    replay-IsRetained :
        (s : MemoryStore F) (calls : List (CaptureCall F))
        → All IsAllowed calls
        → IsRetained s
        → IsRetained (replay s calls)
    unfolding replay
    replay-IsRetained s [] allowed r = r
    replay-IsRetained s (call ∷ calls) allowed r =
        replay-IsRetained (perform s call) calls allowed.1 (perform-IsRetained s call allowed.0 r)

    new_memory_store-IsRetained : IsRetained (new_memory_store {F = F})
    unfolding new_memory_store settings_of default_capture_settings
    new_memory_store-IsRetained = record { count = omega arith; kept = tt; range = omega arith }

    -- For a `range` that visits the stored sessions, each of them, in any order: after any captures of
    -- new sessions, deletions and settings within the controller's limits, the store holds at most 500
    -- sessions, each under its id and with at most 128 events.
    pub replay-new-IsRetained :
        (calls : List (CaptureCall F))
        → All IsAllowed calls
        → let s = replay new_memory_store calls in
          (length s.captures ≤ 500)
          × All (λ e. (e.1.id ≡ e.0) × (length e.1.events ≤ 128)) s.captures
    replay-new-IsRetained calls allowed =
        let r = replay-IsRetained new_memory_store calls allowed new_memory_store-IsRetained in
        let s = replay new_memory_store calls in
        (
          r.count,
          All-map IsKept (λ e. (e.1.id ≡ e.0) × (length e.1.events ≤ 128)) (λ e k. (k.0, k.1))
              s.captures r.kept,
        )
