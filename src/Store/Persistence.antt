-- ===== src/Store/Persistence.antt =====
-- internal/store/postgres.go and postgres_crypto.go, with Snapshot and Restore of store.go: the store
-- that writes its state to one database row. JSON text is taken for the values that it encodes; AES-GCM
-- under the key, with the base64 text around it, the nonces and whether a write goes through are
-- parameters.
pub mod Restart
use Prim.Native.Char.{code}
use Prim.Native.String.{◌++◌ as append}
use load_observatory.Prelude.{
  ℕ, ℤ, ◌==◌, if◌then◌else◌, Bool, true, false, not, List, [], ◌∷◌, Option, none, some, String,
}
use load_observatory.Prelude.Floats.{Floats}
use load_observatory.Prelude.Map.{lookup}
use load_observatory.Core.Server.{eqb_text}
use load_observatory.Core.Types.{Target, Run, AutoSearch, Shard, RunResult}
use load_observatory.Core.Captures.{CaptureId, CaptureEvent, CaptureSession, CaptureSettings}
use load_observatory.Store.{MemoryStore, new_memory_store, cancel_run, complete_run}
use load_observatory.Store.Records.{DeleteTargetResult, target_deleted, delete_target}
use load_observatory.Store.Claim.{claim_run}
use load_observatory.Store.Completion.{complete_shard}
use load_observatory.Store.Searches.{cancel_search}
use load_observatory.Store.Captures
use load_observatory.Store.Captures.{Sessions}
use load_observatory.Store.Views
use load_observatory.Store.Lifecycle.Calls

-- What Snapshot writes: a map that Go holds as nil is `none`.
pub record Snapshot (F : Type 0) : Type 0 where
  pub next_id : ℕ
  pub targets : Option (List (ℕ × Target))
  pub runs : Option (List (ℕ × Run F))
  pub searches : Option (List (ℕ × AutoSearch F))
  pub search_run : Option (List (ℕ × ℕ))
  pub shards : Option (List (ℕ × Shard))
  pub shard_results : Option (List (ℕ × RunResult F))
  pub captures : Option Sessions
  pub capture_settings : Option (CaptureSettings F)

-- The map, or a new one for nil.
or_empty : {A : Type 0} → Option (List A) → List A
or_empty none = []
or_empty (some entries) = entries

module _ {F : Type 0} where
  unfoldable pub snapshot : MemoryStore F → Snapshot F
  snapshot s = record {
    next_id = s.next_id;
    targets = some s.targets;
    runs = some s.runs;
    searches = some s.searches;
    search_run = some s.search_run;
    shards = some s.shards;
    shard_results = some s.shard_results;
    captures = some s.captures;
    capture_settings = s.capture_settings;
  }

  -- Restore keeps the progress and the time of the agent of the store that it restores into.
  unfoldable pub restore : MemoryStore F → Snapshot F → MemoryStore F
  unfolding or_empty
  restore s state = record {
    next_id = state.next_id;
    targets = or_empty state.targets;
    runs = or_empty state.runs;
    searches = or_empty state.searches;
    search_run = or_empty state.search_run;
    shards = or_empty state.shards;
    shard_results = or_empty state.shard_results;
    progress = s.progress;
    agent_seen = s.agent_seen;
    captures = or_empty state.captures;
    capture_settings = state.capture_settings;
  }

-- A text without a prefix, if it begins with it.
unfoldable pub strip_prefix : String → String → Option String
strip_prefix String.[] text = some text
strip_prefix (String.◌∷◌ c prefix) String.[] = none
strip_prefix (String.◌∷◌ c prefix) (String.◌∷◌ d text) =
    let rest = strip_prefix prefix text in if code c == code d then rest else none

abbrev pub encrypted_prefix : String
encrypted_prefix = "enc:v1:"

-- A cipher under a key: the base64 text of a nonce and a sealed value, and the value of such a text.
pub record Cipher : Type 0 where
  pub seal : ℕ → String → Option String
  pub unseal : String → Option String

module _ (cipher : Cipher) where
  unfoldable pub encrypt_api_key : ℕ → String → Option String
  encrypt_api_key nonce value = elim (cipher.seal nonce value) [
    | none ↦ none
    | some sealed ↦ some (append encrypted_prefix sealed)
  ]

  unfoldable pub decrypt_api_key : String → Option String
  decrypt_api_key value = elim (strip_prefix encrypted_prefix value) [
    | none ↦ some value
    | some sealed ↦ cipher.unseal sealed
  ]

-- The loop of transformSnapshot over the targets, with a transformation for each id.
unfoldable pub transform_targets :
    (ℕ → String → Option String) → List (ℕ × Target) → Option (List (ℕ × Target))
transform_targets transform [] = some []
transform_targets transform ((id, target) ∷ rest) =
    if eqb_text target.api_key ""
    then elim (transform_targets transform rest) [
      | none ↦ none
      | some others ↦ some ((id, target) ∷ others)
    ]
    else elim (transform id target.api_key) [
      | none ↦ none
      | some key ↦ elim (transform_targets transform rest) [
        | none ↦ none
        | some others ↦ some ((id, record target { api_key = key }) ∷ others)
      ]
    ]

module _ {F : Type 0} where
  unfoldable pub transform_snapshot :
      (ℕ → String → Option String) → Snapshot F → Option (Snapshot F)
  transform_snapshot transform state = elim state.targets [
    | none ↦ some state
    | some targets ↦ elim (transform_targets transform targets) [
      | none ↦ none
      | some changed ↦ some (record state { targets = some changed })
    ]
  ]

  -- protectSnapshot, with a nonce for each target, and unprotectSnapshot.
  unfoldable pub protect_snapshot : Cipher → (ℕ → ℕ) → Snapshot F → Option (Snapshot F)
  protect_snapshot cipher nonces =
      transform_snapshot (λ id value. encrypt_api_key cipher (nonces id) value)

  unfoldable pub unprotect_snapshot : Cipher → Snapshot F → Option (Snapshot F)
  unprotect_snapshot cipher = transform_snapshot (λ id value. decrypt_api_key cipher value)

-- The store, and the row that the database holds.
pub record PostgresStore (F : Type 0) : Type 0 where
  pub memory : MemoryStore F
  pub row : Option (Snapshot F)

-- Whether a write goes through: whether json.Marshal encodes a snapshot, and whether the database takes a
-- row.
pub record Database (F : Type 0) : Type 0 where
  pub encodes : Snapshot F → Bool
  pub accepts : Snapshot F → Bool

abbrev is_some : {A : Type 0} → Option A → Bool
is_some none = false
is_some (some a) = true

abbrev is_deleted : DeleteTargetResult → Bool
is_deleted target_deleted = true
is_deleted _ = false

module _ {F : Type 0} where
  -- persist: an error of Snapshot or of protectSnapshot ends it, and one of Exec is thrown away; the row
  -- stays as it was.
  unfoldable pub persist : Database F → Cipher → (ℕ → ℕ) → PostgresStore F → PostgresStore F
  persist database cipher nonces p =
      let taken = snapshot p.memory in
      if not (database.encodes taken) then p else elim (protect_snapshot cipher nonces taken) [
        | none ↦ p
        | some state ↦ if database.accepts state then record p { row = some state } else p
      ]

  -- NewPostgresStore on a database with that row.
  unfoldable pub new_postgres_store : Cipher → Option (Snapshot F) → Option (PostgresStore F)
  new_postgres_store cipher none = some (record { memory = new_memory_store; row = none })
  new_postgres_store cipher (some row) = elim (unprotect_snapshot cipher row) [
    | none ↦ none
    | some state ↦ some (record { memory = restore new_memory_store state; row = some row })
  ]

-- A method that changes the store: one on targets, runs and searches, on captures, or TouchAgent. The
-- captures come with the order in which they are visited.
pub data StoreCall (F : Type 0) : Type 0 where
  method : Calls.Call F → StoreCall F
  record_capture : (Sessions → Sessions) → CaptureSession → CaptureEvent → StoreCall F
  delete_capture : CaptureId → StoreCall F
  set_capture_settings : CaptureSettings F → StoreCall F
  touch_agent : ℤ → StoreCall F

module _ {F : Type 0} ⦃fl : Floats F⦄ where
  unfoldable pub perform_in_memory : MemoryStore F → StoreCall F → MemoryStore F
  perform_in_memory s (method c) = Calls.perform s c
  perform_in_memory s (record_capture visit session event) =
      (Captures.record_capture visit s session event).0
  perform_in_memory s (delete_capture id) = (Captures.delete_capture s id).0
  perform_in_memory s (set_capture_settings settings) = Captures.set_capture_settings s settings
  perform_in_memory s (touch_agent now) = Views.touch_agent now s

  -- Whether PostgresStore persists after a call, from what the call of the memory store returns.
  unfoldable pub persists : MemoryStore F → StoreCall F → Bool
  persists s (method (Calls.create_target target)) = true
  persists s (method (Calls.delete_target id)) = is_deleted (delete_target s id).1
  persists s (method (Calls.create_run config)) = true
  persists s (method (Calls.claim_run order now)) = is_some (claim_run order now s).1
  persists s (method (Calls.complete_run id result)) = is_some (complete_run s id result).1
  persists s (method (Calls.complete_shard order id result)) =
      is_some (complete_shard order s id result).1
  persists s (method (Calls.cancel_run id)) = is_some (cancel_run s id).1
  persists s (method (Calls.set_created_by id user)) = true
  persists s (method (Calls.set_detected_server id detected)) = true
  persists s (method (Calls.set_shard_progress id progress)) = false
  persists s (method (Calls.add_monitoring now id sample)) = false
  persists s (method (Calls.create_search config)) = true
  persists s (method (Calls.cancel_search id)) = is_some (cancel_search s id).1
  persists s (method (Calls.advance_search run_id)) = true
  persists s (record_capture visit session event) = true
  persists s (delete_capture id) = (Captures.delete_capture s id).1
  persists s (set_capture_settings settings) = true
  persists s (touch_agent now) = false

  -- A method of PostgresStore: the memory store's, and then persist where the method calls it.
  unfoldable pub perform :
      Database F → Cipher → (ℕ → ℕ) → PostgresStore F → StoreCall F → PostgresStore F
  perform database cipher nonces p c =
      let done = record p { memory = perform_in_memory p.memory c } in
      if persists p.memory c then persist database cipher nonces done else done
