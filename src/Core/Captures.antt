-- ===== src/Core/Captures.antt =====
-- internal/core/types.go: what the capture proxy keeps of the traffic that it forwards.
use load_observatory.Prelude.{
  ℕ, ℤ, eqb_ℤ, ◌==◌, ==_iff, Bool, true, false, ◌&&◌, ◌≡◌, List, String, eq_of_parts, ap, arith,
}

pub record CaptureEvent : Type 0 where
  pub timestamp_millis : ℤ
  pub prompt_tokens : ℤ
  pub max_tokens : ℤ
  pub output_tokens : ℤ
  pub tool_calls : ℤ
  pub finish_reason : String
  pub latency_millis : ℤ
  pub ttft_millis : ℤ
  pub status_code : ℤ

-- `capture-` and the digits of a hash, taken as their number, and the id with `-` and a time after it.
pub data CaptureId : Type 0 where
  hashed : ℕ → CaptureId
  at_time : CaptureId → ℤ → CaptureId

pub record CaptureSession : Type 0 where
  pub id : CaptureId
  pub target_id : ℕ
  pub client : String
  pub started_unix_millis : ℤ
  pub updated_unix_millis : ℤ
  pub events : List CaptureEvent

-- Settings that were configured; the unconfigured ones are `none` in the store.
pub record CaptureSettings (F : Type 0) : Type 0 where
  pub enabled : Bool
  pub token_hash : String
  pub session_idle_minutes : ℤ
  pub max_events_per_session : ℤ
  pub retention_sessions : ℤ
  pub default_replay_vus : ℤ
  pub replay_think_time_scale : F
  pub replay_buffer_seconds : ℤ
  pub replay_drain_seconds : ℤ

unfoldable pub eqb_id : CaptureId → CaptureId → Bool
eqb_id (hashed a) (hashed b) = a == b
eqb_id (at_time i t) (at_time j u) = eqb_id i j && eqb_ℤ t u
eqb_id _ _ = false

pub eqb_id→eq : (a b : CaptureId) → eqb_id a b ≡ true → a ≡ b
unfolding eqb_id
eqb_id→eq (hashed a) (hashed b) h = ap hashed (omega (arith, (==_iff a b).0 h))
eqb_id→eq (at_time i t) (at_time j u) h =
    cc (eqb_id→eq i j (ground arith), eq_of_parts t u (ground arith))
eqb_id→eq _ _ h = cc

pub eqb_id_refl : (a : CaptureId) → eqb_id a a ≡ true
unfolding eqb_id
eqb_id_refl (hashed a) = ground arith
eqb_id_refl (at_time i t) = ground (arith, eqb_id_refl i)
