-- ===== src/Store/Captures/Retained.antt =====
-- internal/store/store.go: how much of the captured traffic the store keeps.
use load_observatory.Prelude.{
  ◌≤◌, ◌<◌, pos, ltb_ℤ, ◌≤ℤ◌, ◌<ℤ◌, ◌≡◌, refl, sym, subst, Bool-cases, Option-cases, inl, inr, [],
  ◌∷◌, Option, none, some, length, length-append, All, In, All-In, All-of_In, arith,
}
use load_observatory.Core.Captures.{CaptureId, CaptureSession, CaptureEvent, CaptureSettings}
use load_observatory.Store.Captures.{
  Sessions, lookup_session, max_int64, oldest_from, delete_found, split_if_idle, make_room,
  with_event, record_in,
}
use load_observatory.Store.Captures.Sessions.{
  HasKey, HasKey-In, In-HasKey, length-insert_session, length-insert_session_held,
  length-delete_session, oldest_from-HasKey, All-insert_session, All-delete_session,
  All-lookup_session,
}

-- A session that is stored under its id, of at most 128 events, updated before the end of time.
abbrev pub IsKept : CaptureId × CaptureSession → Type 0
IsKept (id, session) =
    (session.id ≡ id) × (length session.events ≤ 128) × (session.updated_unix_millis <ℤ max_int64)

-- What the controller lets settings be.
abbrev pub IsInRange : {F : Type 0} → CaptureSettings F → Type 0
IsInRange settings =
    (pos 10 ≤ℤ settings.retention_sessions)
    × (settings.retention_sessions ≤ℤ pos 500)
    × (settings.max_events_per_session ≤ℤ pos 128)

module _ {F : Type 0} where
  with_event-IsKept :
      (settings : CaptureSettings F) (session : CaptureSession) (event : CaptureEvent)
      (current : CaptureSession)
      → IsInRange settings
      → length current.events ≤ 128
      → session.updated_unix_millis <ℤ max_int64
      → IsKept (current.id, with_event settings session event current)
  unfolding with_event
  with_event-IsKept settings session event current range h timed = (
    refl,
    elim (Bool-cases (ltb_ℤ (pos (length current.events)) settings.max_events_per_session)) [
      | inl room ↦ rw room (grind (arith, length-append))
      | inr full ↦ rw full h
    ],
    timed,
  )

  module _ (visit : Sessions → Sessions)
      (visits : (sessions : Sessions) → length (visit sessions) ≡ length sessions)
      (visits_own : (sessions : Sessions) (e : CaptureId × CaptureSession)
        → In e (visit sessions)
        → In e sessions)
      (settings : CaptureSettings F) (range : IsInRange settings) where
    -- The session that make_room deletes is one of the sessions.
    oldest_visited :
        (sessions : Sessions)
        → 0 < length sessions
        → All IsKept sessions
        → (id : CaptureId) × (oldest_from none max_int64 (visit sessions) ≡ some id)
          × HasKey id sessions
    oldest_visited sessions some_there kept =
        let seen : All IsKept (visit sessions) =
          All-of_In IsKept (visit sessions)
            (λ e there. All-In IsKept e sessions kept (visits_own sessions e there)) in
        let (id, e, there) = oldest (visit sessions) (omega (arith, visits sessions)) seen in
        let (session, entry) = In-HasKey id (visit sessions) there in
        (id, e, HasKey-In id session sessions (visits_own sessions (id, session) entry))
      where
        oldest :
            (visited : Sessions)
            → 0 < length visited
            → All IsKept visited
            → (id : CaptureId) × (oldest_from none max_int64 visited ≡ some id) × HasKey id visited
        oldest [] h k = absurd (omega arith)
        oldest (first ∷ rest) h k = oldest_from-HasKey first rest k.0.2

    make_room-length :
        (sessions : Sessions)
        → length sessions ≤ 500
        → All IsKept sessions
        → length (make_room visit settings sessions) < 500
    unfolding make_room
    make_room-length sessions h kept =
        elim (Bool-cases (ltb_ℤ (pos (length sessions)) settings.retention_sessions)) [
          | inl below ↦ rw below (ground arith)
          | inr full ↦
              let (id, e, there) = oldest_visited sessions (ground arith) kept in
              rw (full, e) (omega (arith, length-delete_session id sessions there))
        ]

    make_room-IsKept :
        (sessions : Sessions) → All IsKept sessions → All IsKept (make_room visit settings sessions)
    unfolding make_room
    make_room-IsKept sessions kept =
        elim (Bool-cases (ltb_ℤ (pos (length sessions)) settings.retention_sessions)) [
          | inl below ↦ rw below kept
          | inr full ↦
              rw full
                (delete_found-kept (oldest_from none max_int64 (visit sessions)) sessions kept)
        ]
      where
        delete_found-kept :
            (found : Option CaptureId) (held : Sessions)
            → All IsKept held
            → All IsKept (delete_found found held)
        delete_found-kept none held k = k
        delete_found-kept (some id) held k = All-delete_session IsKept id held k

    pub record_in-IsKept :
        (sessions : Sessions) (session : CaptureSession) (event : CaptureEvent)
        → length sessions ≤ 500
        → All IsKept sessions
        → session.events ≡ []
        → session.updated_unix_millis <ℤ max_int64
        → let after = (record_in visit settings sessions session event).0 in
          (length after ≤ 500) × All IsKept after
    unfolding record_in with_event
    record_in-IsKept sessions session event h kept fresh timed =
        elim (Option-cases (lookup_session session.id sessions)) [
          | inl new ↦
              let current = with_event settings session event session in
              rw (new, record_in)
                (
                  omega (
                    arith,
                    length-insert_session current.id current (make_room visit settings sessions),
                    make_room-length sessions h kept,
                  ),
                  All-insert_session IsKept current.id current (make_room visit settings sessions)
                      (with_event-IsKept settings session event session range
                        (rw fresh (omega arith)) timed)
                      (make_room-IsKept sessions kept),
                )
          | inr (held, there) ↦
              let current = with_event settings session event held in
              let (named, few, before) =
                All-lookup_session IsKept session.id held sessions kept there in
              rw (there, record_in)
                (
                  omega (
                    arith,
                    length-insert_session_held held.id current held sessions
                        (subst (λ i. lookup_session i sessions ≡ some held) (sym named) there),
                  ),
                  All-insert_session IsKept held.id current sessions
                      (with_event-IsKept settings session event held range few timed) kept,
                )
        ]

  pub split_if_idle-same :
      (settings : CaptureSettings F) (sessions : Sessions) (session : CaptureSession)
      → let split = split_if_idle settings sessions session in
        (split.events ≡ session.events) × (split.updated_unix_millis ≡ session.updated_unix_millis)
  unfolding split_if_idle
  split_if_idle-same settings sessions session = ground arith
