-- ===== src/Examples/Captured.antt =====
-- internal/store/store.go: conversations that the capture proxy records.
use load_observatory.Prelude.{
  ℕ, suc, ◌≤◌, ℤ, pos, ◌-ℤ◌, ◌≡◌, refl, false, List, [], ◌∷◌, some, none, length, All, arith,
}
use load_observatory.Prelude.Floats.{whole}
use load_observatory.Core.Captures.{CaptureSession, CaptureEvent, eqb_id, hashed}
use load_observatory.Store.{MemoryStore, new_memory_store}
use load_observatory.Store.Captures.{
  Sessions, lookup_session, settings_of, default_capture_settings, record_capture,
}
use load_observatory.Store.Captures.Calls.{
  CaptureCall, record_one, delete_one, replay, replay-new-IsRetained,
}
use load_observatory.Store.Captures.Scattered.{Resumes, record_capture-Scattered}

abbrev event : CaptureEvent
event = record {
  timestamp_millis = pos 0;
  prompt_tokens = pos 100;
  max_tokens = pos 200;
  output_tokens = pos 50;
  tool_calls = pos 0;
  finish_reason = "stop";
  latency_millis = pos 900;
  ttft_millis = pos 90;
  status_code = pos 200;
}

-- A capture that starts at a time in milliseconds and takes one second.
abbrev started_at : ℕ → CaptureSession
started_at time = record {
  id = hashed 9;
  target_id = 1;
  client = "OpenCode";
  started_unix_millis = pos time;
  updated_unix_millis = pos (suc time);
  events = [];
}

abbrev in_order : Sessions → Sessions
in_order sessions = sessions

abbrev calls : List (CaptureCall ℤ)
calls =
    record_one (started_at 0) event ∷ record_one (started_at 1) event ∷ delete_one (hashed 9) ∷ []

replay-new-IsRetained_example :
    let s = replay in_order (λ sessions. refl) (λ sessions e there. there) new_memory_store calls in
    (length s.captures ≤ 500) × All (λ e. (e.1.id ≡ e.0) × (length e.1.events ≤ 128)) s.captures
replay-new-IsRetained_example =
    replay-new-IsRetained in_order (λ sessions. refl) (λ sessions e there. there) calls
      ((refl, omega arith), ((refl, omega arith), (tt, tt)))

abbrev idle_store : MemoryStore ℤ
idle_store = record {
  next_id = 0;
  targets = [];
  runs = [];
  searches = [];
  search_run = [];
  shards = [];
  shard_results = [];
  progress = [];
  captures = (hashed 9, started_at 0) ∷ [];
  capture_settings = none;
  agent_seen = none;
}

first-Resumes : Resumes in_order idle_store (started_at 0) (started_at 1000000)
unfolding lookup_session settings_of default_capture_settings ◌-ℤ◌ eqb_id
first-Resumes = record {
  found = refl;
  idle = refl;
  free = refl;
  fresh = refl;
  room = refl;
  one = refl;
}

second-Resumes : Resumes in_order idle_store (started_at 0) (started_at 1000001)
unfolding lookup_session settings_of default_capture_settings ◌-ℤ◌ eqb_id
second-Resumes = record {
  found = refl;
  idle = refl;
  free = refl;
  fresh = refl;
  room = refl;
  one = refl;
}

record_capture-Scattered_example :
    let (after, a) = record_capture in_order idle_store (started_at 1000000) event in
    let (final, b) = record_capture in_order after (started_at 1000001) event in
    (eqb_id a.id b.id ≡ false)
    × (length a.events ≡ 1)
    × (length b.events ≡ 1)
    × (lookup_session a.id final.captures ≡ some a)
    × (lookup_session b.id final.captures ≡ some b)
    × (lookup_session (hashed 9) final.captures ≡ some (started_at 0))
record_capture-Scattered_example =
    record_capture-Scattered in_order idle_store (started_at 0) (started_at 1000000)
      (started_at 1000001) event event first-Resumes second-Resumes refl refl
      (unfold settings_of default_capture_settings in refl)
