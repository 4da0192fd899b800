-- ===== src/Store/Persistence/Restart.antt =====
-- internal/store/postgres.go: what a restart finds.
use Prim.Native.Char.{Char}
use Prim.Native.String.{◌++◌ as append}
use text.Mathlib.TextLemmas.{cons-append, nil-append, cons-ne-nil}
use text.Mathlib.TextEquality.{eq_iff}
use load_observatory.Prelude.{
  ℕ, ◌≡◌, refl, sym, ◌∙◌, ap, true, false, false, Bool-cases, inl, inr, List, [], ◌∷◌, Option, none,
  some, ◌⊎◌, String, arith,
}
use load_observatory.Prelude.Floats.{Floats}
use load_observatory.Core.Server.{eqb_text}
use load_observatory.Core.Types.{Target}
use load_observatory.Store.{MemoryStore, new_memory_store}
use load_observatory.Store.Persistence.{
  Snapshot, snapshot, restore, strip_prefix, encrypted_prefix, Cipher, encrypt_api_key,
  decrypt_api_key, transform_targets, transform_snapshot, protect_snapshot, unprotect_snapshot,
  Database, PostgresStore, persist, new_postgres_store, persists, StoreCall, perform_in_memory,
  perform,
}

strip_prefix-append : (prefix text : String) → strip_prefix prefix (append prefix text) ≡ some text
unfolding strip_prefix
strip_prefix-append String.[] text = rw (nil-append text) refl
strip_prefix-append (String.◌∷◌ c prefix) text =
    rw (cons-append c prefix text, strip_prefix-append prefix text) (ground arith)

-- A text that begins with a character is not empty.
not_empty :
    (c : Char) (prefix text : String) → eqb_text (append (String.◌∷◌ c prefix) text) "" ≡ false
unfolding eqb_text
not_empty c prefix text = elim (Bool-cases (eqb_text (append (String.◌∷◌ c prefix) text) "")) [
  | inl empty ↦ absurd (
      cons-ne-nil c (append prefix text)
        (sym (cons-append c prefix text) ∙ (eq_iff (append (String.◌∷◌ c prefix) text) "").0 empty))
  | inr full ↦ full
]

-- What AES-GCM promises under one key: every value is sealed, and unsealed to itself.
abbrev pub Seals : Cipher → Type 0
Seals cipher =
    (nonce : ℕ) (value : String)
    → (sealed : String) × (cipher.seal nonce value ≡ some sealed)
      × (cipher.unseal sealed ≡ some value)

module _ (cipher : Cipher) (seals : Seals cipher) (nonces : ℕ → ℕ) where
  -- Every key that is not empty is encrypted, and decrypted to itself.
  encrypted :
      (nonce : ℕ) (value : String)
      → (text : String) × (encrypt_api_key cipher nonce value ≡ some text)
        × (eqb_text text "" ≡ false)
        × (decrypt_api_key cipher text ≡ some value)
  unfolding encrypt_api_key decrypt_api_key
  encrypted nonce value =
      let (sealed, e, back) = seals nonce value in
      (
        append encrypted_prefix sealed,
        rw (e, encrypt_api_key) refl,
        not_empty "e" "nc:v1:" sealed,
        rw (strip_prefix-append encrypted_prefix sealed, decrypt_api_key) back,
      )

  abbrev protects : ℕ → String → Option String
  protects id value = encrypt_api_key cipher (nonces id) value

  abbrev unprotects : ℕ → String → Option String
  unprotects id value = decrypt_api_key cipher value

  -- No stored target shows its key, and all are read back as they were.
  transform_targets-encrypted :
      (targets : List (ℕ × Target))
      → (hidden : List (ℕ × Target)) × (transform_targets protects targets ≡ some hidden)
        × (transform_targets unprotects hidden ≡ some targets)
  unfolding transform_targets
  transform_targets-encrypted [] = ([], refl, refl)
  transform_targets-encrypted ((id, target) ∷ rest) =
      let (hidden, e, back) = transform_targets-encrypted rest in
      elim (Bool-cases (eqb_text target.api_key "")) [
        | inl keyless ↦ ((id, target) ∷ hidden, rw (keyless, e) refl, rw (keyless, back) refl)
        | inr keyed ↦
            let (text, sealed, there, opened) = encrypted (nonces id) target.api_key in
            (
              (id, record target { api_key = text }) ∷ hidden,
              rw (keyed, sealed) (rw e refl),
              rw (there, opened) (rw back refl),
            )
      ]

  module _ {F : Type 0} where
    -- The snapshot with other targets, where there are any.
    abbrev some_targets : Snapshot F → Option (List (ℕ × Target)) → Option (Snapshot F)
    some_targets state changed = elim changed [
      | none ↦ none
      | some targets ↦ some (record state { targets = some targets })
    ]

    protect-unprotect :
        (s : MemoryStore F)
        → (row : Snapshot F) × (protect_snapshot cipher nonces (snapshot s) ≡ some row)
          × (unprotect_snapshot cipher row ≡ some (snapshot s))
    unfolding protect_snapshot unprotect_snapshot transform_snapshot snapshot
    protect-unprotect s =
        let (hidden, e, back) = transform_targets-encrypted s.targets in
        (
          record (snapshot s) { targets = some hidden },
          ap (some_targets (snapshot s)) e,
          ap (some_targets (snapshot s)) back,
        )

  module _ {F : Type 0} ⦃fl : Floats F⦄ where
    -- The row holds a protected snapshot of a memory store, and a new store on that row has that memory
    -- store, but for the live progress and the last contact of an agent.
    abbrev pub Restores : Option (Snapshot F) → MemoryStore F → Snapshot F → Type 0
    Restores held done row =
        (held ≡ some row)
        × (new_postgres_store cipher (some row)
            ≡ some (record {
              memory = record done { progress = []; agent_seen = none };
              row = some row;
            }))

    -- What persist leaves: a row that restores the store, or, where the write does not go through, the row
    -- that was there.
    abbrev pub Written :
        Database F → Option (Snapshot F) → MemoryStore F → Option (Snapshot F) → Type 0
    Written database before done held =
        ((row : Snapshot F) × (protect_snapshot cipher nonces (snapshot done) ≡ some row)
          × (((database.encodes (snapshot done) ≡ true)
                × (database.accepts row ≡ true)
                × Restores held done row)
              ⊎ (((database.encodes (snapshot done) ≡ false) ⊎ (database.accepts row ≡ false))
                  × (held ≡ before))))

    perform-persists :
        (database : Database F) (p : PostgresStore F) (call : StoreCall F)
        → persists p.memory call ≡ true
        → perform database cipher nonces p call
          ≡ persist database cipher nonces (record p { memory = perform_in_memory p.memory call })
    unfolding perform
    perform-persists database p call stored = rw stored refl

    persist-garbled :
        (database : Database F) (p : PostgresStore F)
        → database.encodes (snapshot p.memory) ≡ false
        → persist database cipher nonces p ≡ p
    unfolding persist
    persist-garbled database p garbled = rw garbled refl

    persist-lost :
        (database : Database F) (p : PostgresStore F) (row : Snapshot F)
        → database.encodes (snapshot p.memory) ≡ true
        → protect_snapshot cipher nonces (snapshot p.memory) ≡ some row
        → database.accepts row ≡ false
        → persist database cipher nonces p ≡ p
    unfolding persist
    persist-lost database p row encoded e lost = rw (encoded, persist) (rw e (rw lost refl))

    persist-taken :
        (database : Database F) (p : PostgresStore F) (row : Snapshot F)
        → database.encodes (snapshot p.memory) ≡ true
        → protect_snapshot cipher nonces (snapshot p.memory) ≡ some row
        → database.accepts row ≡ true
        → persist database cipher nonces p ≡ record p { row = some row }
    unfolding persist
    persist-taken database p row encoded e taken = rw (encoded, persist) (rw e (rw taken refl))

    restored :
        (done : MemoryStore F) (row : Snapshot F)
        → unprotect_snapshot cipher row ≡ some (snapshot done)
        → new_postgres_store cipher (some row)
          ≡ some
              (record { memory = record done { progress = []; agent_seen = none }; row = some row })
    unfolding new_postgres_store restore snapshot new_memory_store
    restored done row back = rw (back, new_postgres_store) refl

    -- If the cipher unseals what it seals: a call that PostgresStore persists does to the memory store
    -- what the call does. If the snapshot is encoded and the database takes the row, a new store on the
    -- row that the database then holds has that memory store, but for the live progress and the last
    -- contact of an agent. If either fails, the row stays as it was, although the memory has changed.
    pub new_postgres_store-perform :
        (database : Database F) (p : PostgresStore F) (call : StoreCall F)
        → persists p.memory call ≡ true
        → let done = perform_in_memory p.memory call in
          let after = perform database cipher nonces p call in
          (after.memory ≡ done) × Written database p.row done after.row
    new_postgres_store-perform database p call stored =
        let done = perform_in_memory p.memory call in
        let changed : PostgresStore F = record p { memory = done } in
        let (row, e, back) = protect-unprotect done in
        rw (perform-persists database p call stored)
          (elim (Bool-cases (database.encodes (snapshot done))) [
            | inr garbled ↦
                rw (persist-garbled database changed garbled)
                  (refl, (row, e, inr (inl garbled, refl)))
            | inl encoded ↦ elim (Bool-cases (database.accepts row)) [
              | inl taken ↦
                  rw (persist-taken database changed row encoded e taken)
                    (refl, (row, e, inl (encoded, taken, (refl, restored done row back))))
              | inr lost ↦
                  rw (persist-lost database changed row encoded e lost)
                    (refl, (row, e, inr (inr lost, refl)))
            ]
          ])
