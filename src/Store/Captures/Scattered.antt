-- ===== src/Store/Captures/Scattered.antt =====
-- internal/store/store.go: RecordCapture for a conversation that resumes after it was idle.
use load_observatory.Prelude.{
  ℕ, suc, ◌≤◌, ℤ, pos, ltb_ℤ, ◌≡◌, refl, sym, ◌∙◌, ap, subst, true, false, Bool-cases, inl, inr, [],
  some, none, length, eqb_ℤ, arith,
}
use load_observatory.Prelude.Floats.{Floats}
use load_observatory.Core.Captures.{CaptureId, at_time, eqb_id, CaptureSession, CaptureEvent}
use load_observatory.Store.{MemoryStore}
use load_observatory.Store.Captures.{
  Sessions, lookup_session, insert_session, settings_of, split_if_idle, is_idle, make_room,
  with_event, record_in, record_capture,
}
use load_observatory.Store.Captures.Sessions.{
  lookup_session-insert_same, lookup_session-insert_other, length-insert_session,
}

-- No id is that of a session that was split from it.
eqb_id-at_time : (id : CaptureId) (time : ℤ) → eqb_id (at_time id time) id ≡ false
unfolding eqb_id
eqb_id-at_time (CaptureId.hashed n) time = refl
eqb_id-at_time (at_time id t) time = rw (eqb_id-at_time id t) (ground arith)

eqb_id-at_times :
    (i j : CaptureId) (t u : ℤ) → eqb_ℤ t u ≡ false → eqb_id (at_time i t) (at_time j u) ≡ false
unfolding eqb_id
eqb_id-at_times i j t u apart = elim (Bool-cases (eqb_id i j)) [
  | inl same ↦ rw same apart
  | inr other ↦ rw other refl
]

eqb_ℤ_apart : (t u : ℤ) → eqb_ℤ t u ≡ false → eqb_ℤ u t ≡ false
eqb_ℤ_apart t u apart = ground arith

below_room :
    (small large : ℕ) (limit : ℤ)
    → small ≤ large
    → ltb_ℤ (pos large) limit ≡ true
    → ltb_ℤ (pos small) limit ≡ true
below_room small large limit h room = ground arith

module _ {F : Type 0} ⦃fl : Floats F⦄ (visit : Sessions → Sessions) where
  -- What a capture needs to find the session under its id idle, with room for one more.
  pub record Resumes (s : MemoryStore F) (held session : CaptureSession) : Type 0 where
    pub found : lookup_session session.id s.captures ≡ some held
    pub idle : is_idle (settings_of s.capture_settings) session held ≡ true
    pub free : lookup_session (at_time session.id session.started_unix_millis) s.captures ≡ none
    pub fresh : session.events ≡ []
    pub room :
        ltb_ℤ (pos (length s.captures)) (settings_of s.capture_settings).retention_sessions ≡ true
    pub one : ltb_ℤ (pos 0) (settings_of s.capture_settings).max_events_per_session ≡ true

  -- The store with the event in a session of its own.
  abbrev Alone : MemoryStore F → CaptureSession → MemoryStore F × CaptureSession → Type 0
  Alone s session after =
      (current : CaptureSession) × (after ≡ (
        record s {
          captures =
              insert_session (at_time session.id session.started_unix_millis) current s.captures;
        },
        current,
      ))
      × (current.id ≡ at_time session.id session.started_unix_millis)
      × (length current.events ≡ 1)

  record_capture-Alone :
      (s : MemoryStore F) (held session : CaptureSession) (event : CaptureEvent)
      → Resumes s held session
      → Alone s session (record_capture visit s session event)
  unfolding record_capture record_in make_room with_event split_if_idle
  record_capture-Alone s held session event r =
      let settings = settings_of s.capture_settings in
      let renamed : CaptureSession = record session {
        id = at_time session.id session.started_unix_millis;
      } in
      let splits : split_if_idle settings s.captures session ≡ renamed =
        rw (r.found, split_if_idle) (rw r.idle refl) in
      let current = with_event settings renamed event renamed in
      let kept : Sessions × CaptureSession =
        (insert_session renamed.id current s.captures, current) in
      let records : record_in visit settings s.captures renamed event ≡ kept =
        rw (r.free, record_in) (rw r.room refl) in
      (
        current,
        ap (λ (p : Sessions × CaptureSession). (record s { captures = p.0 }, p.1))
            (ap (λ x. record_in visit settings s.captures x event) splits ∙ records),
        refl,
        rw r.fresh (rw r.one refl),
      )

  -- Once the session of a conversation is idle, with room for two more: two captures of the conversation
  -- that start at different times, however close, are each kept in a session of its own, of one event,
  -- that the store then holds under its own id; and the session that was idle stays as it was.
  pub record_capture-Scattered :
      (s : MemoryStore F) (held first second : CaptureSession) (event next : CaptureEvent)
      → Resumes s held first
      → Resumes s held second
      → second.id ≡ first.id
      → eqb_ℤ first.started_unix_millis second.started_unix_millis ≡ false
      → ltb_ℤ (pos (suc (length s.captures))) (settings_of s.capture_settings).retention_sessions
        ≡ true
      → let (after, a) = record_capture visit s first event in
        let (final, b) = record_capture visit after second next in
        (eqb_id a.id b.id ≡ false)
        × (length a.events ≡ 1)
        × (length b.events ≡ 1)
        × (lookup_session a.id final.captures ≡ some a)
        × (lookup_session b.id final.captures ≡ some b)
        × (lookup_session first.id final.captures ≡ some held)
  record_capture-Scattered s held first second event next r t same apart room =
      let (a, e, name, alone) = record_capture-Alone s held first event r in
      let split = at_time first.id first.started_unix_millis in
      let after : MemoryStore F = record s { captures = insert_session split a s.captures } in
      let u : Resumes after held second = record {
        found =
            lookup_session-insert_other split second.id a s.captures (
              subst (λ i. eqb_id split i ≡ false) (sym same)
                (eqb_id-at_time first.id first.started_unix_millis))
            ∙ t.found;
        idle = t.idle;
        free =
            lookup_session-insert_other split (at_time second.id second.started_unix_millis) a
              s.captures
              (eqb_id-at_times first.id second.id first.started_unix_millis
                second.started_unix_millis apart)
            ∙ t.free;
        fresh = t.fresh;
        room =
            below_room (length (insert_session split a s.captures)) (suc (length s.captures))
              (settings_of s.capture_settings).retention_sessions
              (length-insert_session split a s.captures) room;
        one = t.one;
      } in
      let (b, e', name', alone') = record_capture-Alone after held second next u in
      let split' = at_time second.id second.started_unix_millis in
      rw e (
        rw e' (
          rw (name, name')
              (eqb_id-at_times first.id second.id first.started_unix_millis
                second.started_unix_millis apart),
          alone,
          alone',
          rw name (
              lookup_session-insert_other split' split b after.captures (
                eqb_id-at_times second.id first.id second.started_unix_millis
                  first.started_unix_millis
                  (eqb_ℤ_apart first.started_unix_millis second.started_unix_millis apart))
              ∙ lookup_session-insert_same split a s.captures),
          rw name' (lookup_session-insert_same split' b after.captures),
          lookup_session-insert_other split' first.id b after.captures (
                subst (λ i. eqb_id split' i ≡ false) same
                  (eqb_id-at_time second.id second.started_unix_millis))
              ∙ lookup_session-insert_other split first.id a s.captures
                  (eqb_id-at_time first.id first.started_unix_millis)
              ∙ r.found,
        ))
