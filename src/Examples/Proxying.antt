-- ===== src/Examples/Proxying.antt =====
-- internal/controller/capture.go: a request through the capture proxy, and its settings changed.
use load_observatory.Prelude.{
  ℕ, ℤ, pos, ◌≡◌, refl, ◌+ℤ◌, ◌⊎◌, true, false, [], ◌∷◌, Option, none, some, String,
}
use load_observatory.Prelude.Floats.{whole}
use load_observatory.Core.Server.{eqb_text}
use load_observatory.Core.Types.{Target, TargetType}
use load_observatory.Core.Target.{Text, trim, trim_left, trim_right, is_space, eqb}
use load_observatory.Store.{MemoryStore, new_memory_store}
use load_observatory.Controller.Proxy.{
  CaptureSettingsRequest, capture_credentials, update_capture_settings,
}
use load_observatory.Controller.Routes.{codes, starts_with}
use load_observatory.Controller.Proxy.Events.{
  CaptureResponse, parse_capture_response, consume_lines, consume, add_choices, add_choice,
  line_data, contains, split_lines, drop, write, approximate_prompt_tokens, capture_line_has_output,
  any_output,
}
use load_observatory.Controller.Proxy.Promised
use load_observatory.Controller.Proxy.Configured.{update_capture_settings-Settles}
use load_observatory.Controller.Proxy.Completion.{
  Inspected, nothing_inspected, inspect_line, inspect_lines, event_of, ProxyRequest, decoded, plain,
  Upstream, capture_completion,
}
use load_observatory.Controller.Proxy.Admitted
use load_observatory.Controller.Proxy.Admitted.{capture_completion-Settles}

abbrev hash : Text → String
hash token = "h"

abbrev input : CaptureSettingsRequest ℤ
input = record {
  enabled = true;
  token = [];
  session_idle_minutes = pos 15;
  max_events_per_session = pos 128;
  retention_sessions = pos 100;
  default_replay_vus = pos 30;
  replay_think_time_scale = pos 1;
  replay_buffer_seconds = pos 300;
  replay_drain_seconds = pos 120;
}

abbrev fresh : MemoryStore ℤ
fresh = new_memory_store

update_capture_settings-Settles_example :
    let outcome = update_capture_settings hash "h" fresh (some input) in
    Promised.Rejects hash "h" fresh input outcome ⊎ Promised.Configures hash "h" fresh input outcome
update_capture_settings-Settles_example = update_capture_settings-Settles hash "h" fresh input

abbrev model : Target
model = record {
  id = 1;
  name = "model";
  type = TargetType.model;
  url = "http://10.0.0.1/v1";
  model = "m";
  api_key = "";
  has_api_key = false;
}

abbrev stored : MemoryStore ℤ
stored = record new_memory_store { next_id = 1; targets = (1, model) ∷ [] }

abbrev request : ProxyRequest
request = record {
  token = 116 ∷ [];
  target = some 1;
  raw_session = 115 ∷ [];
  client = [];
  body = decoded (record { max_tokens = pos 64; messages = none });
}

abbrev decode : Text → Option CaptureResponse
decode text = some (record { prompt_tokens = pos 12; completion_tokens = pos 3; choices = [] })

abbrev digest : ℕ → Text → ℕ
digest target session = 7

abbrev upstream : Target → Upstream
upstream target = plain 200 (pos 1005000000) (123 ∷ 125 ∷ [])

capture_completion-Settles_example :
    let outcome =
      capture_completion decode digest
        (λ s. s)
        hash
        "h"
        stored
        request
        (pos 1000000000)
        (pos 1010000000)
        upstream in
    Admitted.Refuses decode digest (λ s. s) stored outcome
    ⊎ (((capture_credentials "h" stored.capture_settings).1 ≡ true)
        × (eqb_text (hash request.token) (capture_credentials "h" stored.capture_settings).0 ≡ true)
        × Admitted.Forwards decode digest
            (λ s. s)
            stored
            request
            (pos 1000000000)
            (pos 1010000000)
            upstream
            outcome)
capture_completion-Settles_example =
    capture_completion-Settles decode digest (λ s. s) hash "h" stored request (pos 1000000000)
      (pos 1010000000) upstream

-- An answer in one line that calls a tool and names no usage.
abbrev calls_tool : Text → Option CaptureResponse
calls_tool text = some (record {
  prompt_tokens = pos 0;
  completion_tokens = pos 0;
  choices =
      (record {
        finish_reason = "";
        message_tool_calls = 0;
        delta_content = none;
        delta_tool_calls = 1;
      })
      ∷ [];
})

abbrev one_line : Inspected
one_line = inspect_lines calls_tool (pos 0) ((codes "data: {}", pos 5000000) ∷ []) nothing_inspected

-- The line is read as it passes and once more from the copy.
counts_call_twice :
    (event_of calls_tool
      (pos 0)
      (pos 9000000)
      (record { max_tokens = pos 64; messages = none })
      one_line.limited.dst
      one_line.observed
      200
      (pos 5)).tool_calls
    ≡ pos 2
unfolding ◌+ℤ◌ event_of inspect_lines inspect_line parse_capture_response consume_lines consume
    add_choices add_choice line_data contains split_lines starts_with trim drop write
    approximate_prompt_tokens capture_line_has_output any_output trim_left trim_right is_space eqb
    eqb_text
counts_call_twice = refl
