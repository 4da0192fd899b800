-- ===== src/Store/Captures/Sessions.antt =====
-- internal/store/store.go: the sessions of a map under its operations, and the search for the oldest.
use load_observatory.Prelude.{
  suc, ◌≤◌, ◌<◌, ℤ, ltb_ℤ, ◌≡◌, refl, sym, ap, subst, true, false, Bool-cases, ◌⊎◌, inl, inr, [],
  ◌∷◌, none, some, length, All, In, ◌<ℤ◌, arith,
}
use load_observatory.Core.Captures.{CaptureId, eqb_id, eqb_id→eq, eqb_id_refl, CaptureSession}
use load_observatory.Store.Captures.{
  Sessions, lookup_session, insert_session, delete_session, max_int64, oldest_from,
}

pub length-insert_session :
    (id : CaptureId) (session : CaptureSession) (sessions : Sessions)
    → length (insert_session id session sessions) ≤ suc (length sessions)
unfolding insert_session
length-insert_session id session [] = omega arith
length-insert_session id session ((held, old) ∷ rest) =
    ground (arith, length-insert_session id session rest)

-- A write under a key that is there keeps the number of sessions.
pub length-insert_session_held :
    (id : CaptureId) (session held : CaptureSession) (sessions : Sessions)
    → lookup_session id sessions ≡ some held
    → length (insert_session id session sessions) ≡ length sessions
unfolding insert_session lookup_session
length-insert_session_held id session held [] h = cc
length-insert_session_held id session held ((key, old) ∷ rest) h =
    ground (arith, length-insert_session_held id session held rest)

pub length-delete_session_le :
    (id : CaptureId) (sessions : Sessions) → length (delete_session id sessions) ≤ length sessions
unfolding delete_session
length-delete_session_le id [] = omega arith
length-delete_session_le id ((held, old) ∷ rest) = ground (arith, length-delete_session_le id rest)

-- The keys of the sessions.
abbrev pub HasKey : CaptureId → Sessions → Type 0
HasKey id [] = ⊥
HasKey id ((held, session) ∷ rest) = (held ≡ id) ⊎ HasKey id rest

pub length-delete_session :
    (id : CaptureId) (sessions : Sessions)
    → HasKey id sessions
    → length (delete_session id sessions) < length sessions
unfolding delete_session
length-delete_session id [] there = absurd there
length-delete_session id ((held, old) ∷ rest) (inl e) =
    let same : eqb_id held id ≡ true = subst (λ i. eqb_id held i ≡ true) e (eqb_id_refl held) in
    rw same (omega (arith, length-delete_session_le id rest))
length-delete_session id ((held, old) ∷ rest) (inr there) =
    ground (arith, length-delete_session id rest there, length-delete_session_le id rest)

pub HasKey-In :
    (id : CaptureId) (session : CaptureSession) (sessions : Sessions)
    → In (id, session) sessions
    → HasKey id sessions
HasKey-In id session [] there = absurd there
HasKey-In id session ((held, old) ∷ rest) (inl e) =
    inl (ap (λ (p : CaptureId × CaptureSession). p.0) (sym e))
HasKey-In id session ((held, old) ∷ rest) (inr there) = inr (HasKey-In id session rest there)

pub In-HasKey :
    (id : CaptureId) (sessions : Sessions)
    → HasKey id sessions
    → (session : CaptureSession) × In (id, session) sessions
In-HasKey id [] there = absurd there
In-HasKey id ((key, item) ∷ rest) (inl e) = (item, inl (ap (λ k. (k, item)) (sym e)))
In-HasKey id ((key, item) ∷ rest) (inr there) =
    let (session, place) = In-HasKey id rest there in (session, inr place)

-- The search for the oldest session ends with the best so far or with one that it visits.
oldest_from-cases :
    (best : CaptureId) (oldest : ℤ) (sessions : Sessions)
    → (id : CaptureId) × (oldest_from (some best) oldest sessions ≡ some id)
      × ((id ≡ best) ⊎ HasKey id sessions)
unfolding oldest_from
oldest_from-cases best oldest [] = (best, refl, inl refl)
oldest_from-cases best oldest ((key, item) ∷ rest) =
    elim (Bool-cases (ltb_ℤ item.updated_unix_millis oldest)) [
      | inl earlier ↦
          let (id, e, from) = oldest_from-cases key item.updated_unix_millis rest in
          (id, rw earlier e, inr (elim from [ inl k ↦ inl (sym k) | inr there ↦ inr there ]))
      | inr later ↦
          let (id, e, from) = oldest_from-cases best oldest rest in
          (id, rw later e, elim from [ inl k ↦ inl k | inr there ↦ inr (inr there) ])
    ]

-- Where every session was updated before the end of time, the search finds one of the keys.
pub oldest_from-HasKey :
    (first : CaptureId × CaptureSession) (rest : Sessions)
    → first.1.updated_unix_millis <ℤ max_int64
    → (id : CaptureId) × (oldest_from none max_int64 (first ∷ rest) ≡ some id)
      × HasKey id (first ∷ rest)
unfolding oldest_from
oldest_from-HasKey (key, item) rest timed =
    let earlier : ltb_ℤ item.updated_unix_millis max_int64 ≡ true = ground arith in
    let (id, e, from) = oldest_from-cases key item.updated_unix_millis rest in
    (id, rw earlier e, elim from [ inl k ↦ inl (sym k) | inr there ↦ inr there ])

module _ (P : CaptureId × CaptureSession → Type 0) where
  pub All-insert_session :
      (id : CaptureId) (session : CaptureSession) (sessions : Sessions)
      → P (id, session)
      → All P sessions
      → All P (insert_session id session sessions)
  unfolding insert_session
  All-insert_session id session [] p h = (p, tt)
  All-insert_session id session ((key, old) ∷ rest) p h = elim (Bool-cases (eqb_id key id)) [
    | inl same ↦ rw same (p, h.1)
    | inr other ↦ rw other (h.0, All-insert_session id session rest p h.1)
  ]

  pub All-delete_session :
      (id : CaptureId) (sessions : Sessions) → All P sessions → All P (delete_session id sessions)
  unfolding delete_session
  All-delete_session id [] h = tt
  All-delete_session id ((key, old) ∷ rest) h = elim (Bool-cases (eqb_id key id)) [
    | inl same ↦ rw same (All-delete_session id rest h.1)
    | inr other ↦ rw other (h.0, All-delete_session id rest h.1)
  ]

  pub All-lookup_session :
      (id : CaptureId) (session : CaptureSession) (sessions : Sessions)
      → All P sessions
      → lookup_session id sessions ≡ some session
      → P (id, session)
  unfolding lookup_session
  All-lookup_session id session [] h found = cc
  All-lookup_session id session ((key, old) ∷ rest) h found = elim (Bool-cases (eqb_id key id)) [
    | inl same ↦
        let e : some old ≡ some session = rw same at found in
        let here : (key, old) ≡ (id, session) = cc (eqb_id→eq key id same) in subst P here h.0
    | inr other ↦ All-lookup_session id session rest h.1 (rw other at found)
  ]

-- A write under one id leaves what is read under another.
pub lookup_session-insert_same :
    (id : CaptureId) (session : CaptureSession) (sessions : Sessions)
    → lookup_session id (insert_session id session sessions) ≡ some session
unfolding lookup_session insert_session
lookup_session-insert_same id session [] = rw (eqb_id_refl id) refl
lookup_session-insert_same id session ((key, old) ∷ rest) = elim (Bool-cases (eqb_id key id)) [
  | inl same ↦ rw same (rw (eqb_id_refl id) refl)
  | inr other ↦ rw (other, lookup_session-insert_same id session rest) (rw other refl)
]

pub lookup_session-insert_other :
    (written read : CaptureId) (session : CaptureSession) (sessions : Sessions)
    → eqb_id written read ≡ false
    → lookup_session read (insert_session written session sessions) ≡ lookup_session read sessions
unfolding lookup_session insert_session
lookup_session-insert_other written read session [] apart = rw apart refl
lookup_session-insert_other written read session ((key, old) ∷ rest) apart =
    elim (Bool-cases (eqb_id key written)) [
      | inl same ↦
          let unread : eqb_id key read ≡ false =
            subst (λ k. eqb_id k read ≡ false) (sym (eqb_id→eq key written same)) apart in
          rw (same, apart, unread) refl
      | inr other ↦ rw (other, lookup_session-insert_other written read session rest apart) refl
    ]
