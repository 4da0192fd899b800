-- ===== src/Controller/Proxy/Completion.antt =====
-- internal/controller/capture.go: captureCompletion and recordCapture. Times are in nanoseconds. What the
-- target answers is a parameter; a stream is its lines with the time at which each was read.
use load_observatory.Prelude.{
  ℕ, ℤ, pos, ◌-ℤ◌, over_ℤ, eqb_ℤ, ltb_ℤ, ltb, if◌then◌else◌, not, ◌&&◌, ◌||◌, List, [], ◌∷◌, ◌++◌,
  Option, none, some, String, map, length,
}
use load_observatory.Prelude.Floats.{Floats}
use load_observatory.Prelude.Map.{lookup}
use load_observatory.Core.Server.{eqb_text}
use load_observatory.Core.Types.{Target}
use load_observatory.Core.Captures.{CaptureEvent, hashed}
use load_observatory.Core.Target.{Text, trim, is_space, is_blank, to_lower}
use load_observatory.Store.{MemoryStore}
use load_observatory.Store.Captures
use load_observatory.Store.Captures.{Sessions}
use load_observatory.Controller.Changes.{is_model}
use load_observatory.Controller.Routes.{codes}
use load_observatory.Controller.Proxy.{capture_credentials}
use load_observatory.Controller.Proxy.Events.{
  CaptureResponse, Json, parse_capture_response, capture_line_has_output, approximate_prompt_tokens,
  contains, LimitedCaptureWriter, max_capture_inspection_bytes, write,
}

pub record CaptureRequest : Type 0 where
  pub max_tokens : ℤ
  pub messages : Option Json

pub data Body : Type 0 where
  too_large undecoded : Body
  decoded : CaptureRequest → Body

-- The address is no request, the request fails, or there is a status and an answer: line by line, or at once.
pub data Upstream : Type 0 where
  bad_url failed : Upstream
  streamed : ℕ → List (Text × ℤ) → Upstream
  plain : ℕ → ℤ → Text → Upstream

-- A request: the token without `Bearer `, the target of a path of the right form, the two headers, and
-- the body.
pub record ProxyRequest : Type 0 where
  pub token : Text
  pub target : Option ℕ
  pub raw_session : Text
  pub client : Text
  pub body : Body

-- The status and the bytes that the client gets.
pub record ProxyResponse : Type 0 where
  pub status : ℕ
  pub forwarded : Text

abbrev pub reject : ℕ → ProxyResponse
reject status = record { status = status; forwarded = [] }

abbrev pub no_event : CaptureEvent
no_event = record {
  timestamp_millis = pos 0;
  prompt_tokens = pos 0;
  max_tokens = pos 0;
  output_tokens = pos 0;
  tool_calls = pos 0;
  finish_reason = "";
  latency_millis = pos 0;
  ttft_millis = pos 0;
  status_code = pos 0;
}

abbrev pub millis : ℤ → ℤ
millis nanos = over_ℤ nanos (pos 1000000)

unfoldable pub client_of : Text → String
client_of header =
    let raw = map to_lower header in
    if contains raw (codes "qwen")
    then "Qwen Code"
    else if contains raw (codes "opencode")
    then "OpenCode"
    else "OpenAI-compatible client"

-- What the loop over the lines of a stream has: the event, the time to the first output, and both copies.
pub record Inspected : Type 0 where
  pub observed : CaptureEvent
  pub first_byte : ℤ
  pub forwarded : Text
  pub limited : LimitedCaptureWriter

abbrev pub nothing_inspected : Inspected
nothing_inspected = record {
  observed = no_event;
  first_byte = pos 0;
  forwarded = [];
  limited = record { dst = []; remaining = max_capture_inspection_bytes };
}

module _ (decode : Text → Option CaptureResponse) where
  unfoldable pub inspect_line : ℤ → Text × ℤ → Inspected → Inspected
  inspect_line started (line, read_at) i = record {
    observed = parse_capture_response decode line i.observed;
    first_byte =
        if eqb_ℤ i.first_byte (pos 0) && capture_line_has_output decode line
        then millis (read_at -ℤ started)
        else i.first_byte;
    forwarded = i.forwarded ++ line ++ (10 ∷ []);
    limited = write (line ++ (10 ∷ [])) i.limited;
  }

  unfoldable pub inspect_lines : ℤ → List (Text × ℤ) → Inspected → Inspected
  inspect_lines started [] i = i
  inspect_lines started (line ∷ rest) i = inspect_lines started rest (inspect_line started line i)

  -- The event that recordCapture stores.
  unfoldable pub event_of : ℤ → ℤ → CaptureRequest → Text → CaptureEvent → ℕ → ℤ → CaptureEvent
  event_of started now input response_body observed status ttft =
      let event : CaptureEvent = record {
        timestamp_millis = pos 0;
        prompt_tokens =
            if ltb_ℤ (pos 0) observed.prompt_tokens
            then observed.prompt_tokens
            else approximate_prompt_tokens input.messages;
        max_tokens = input.max_tokens;
        output_tokens = observed.output_tokens;
        tool_calls = observed.tool_calls;
        finish_reason = observed.finish_reason;
        latency_millis = millis (now -ℤ started);
        ttft_millis = ttft;
        status_code = pos status;
      } in
      if eqb_ℤ observed.prompt_tokens (pos 0) && eqb_ℤ observed.output_tokens (pos 0)
      then parse_capture_response decode response_body event
      else event

module _ {F : Type 0} ⦃fl : Floats F⦄ (decode : Text → Option CaptureResponse)
    (digest : ℕ → Text → ℕ) (visit : Sessions → Sessions) where
  -- recordCapture: `digest` is the number that the salted hash of the target and the session gives.
  unfoldable pub record_capture :
      MemoryStore F → ℕ → Text → Text → ℤ → ℤ → CaptureEvent → MemoryStore F
  record_capture s target_id client raw_session started now event =
      (Captures.record_capture visit s
        (record {
          id = hashed (digest target_id raw_session);
          target_id = target_id;
          client = client_of client;
          started_unix_millis = millis started;
          updated_unix_millis = millis now;
          events = [];
        })
        event).0

  -- captureCompletion from the call of the target on, at `started`; it ends at `now`.
  unfoldable pub forward :
      MemoryStore F
      → ℕ
      → Text
      → Text
      → CaptureRequest
      → ℤ
      → ℤ
      → Upstream
      → MemoryStore F × ProxyResponse
  forward s target_id client raw_session input started now bad_url = (s, reject 502)
  forward s target_id client raw_session input started now failed = (
    record_capture s target_id client raw_session started now
        (event_of decode started now input [] no_event 502 (pos 0)),
    reject 502,
  )
  forward s target_id client raw_session input started now (streamed status lines) =
      let i = inspect_lines decode started lines nothing_inspected in
      (
        record_capture s target_id client raw_session started now
            (event_of decode started now input i.limited.dst i.observed status i.first_byte),
        record { status = status; forwarded = i.forwarded },
      )
  forward s target_id client raw_session input started now (plain status read_at body) =
      let w = write body (record { dst = []; remaining = max_capture_inspection_bytes }) in
      (
        record_capture s target_id client raw_session started now
            (event_of decode started now input w.dst no_event status (millis (read_at -ℤ started))),
        record { status = status; forwarded = body },
      )

  -- captureCompletion once the target is found.
  unfoldable pub for_target :
      MemoryStore F
      → ℕ
      → Target
      → ProxyRequest
      → ℤ
      → ℤ
      → (Target → Upstream)
      → MemoryStore F × ProxyResponse
  for_target s id target request started now upstream =
      let raw_session = trim is_space request.raw_session in
      if not (is_model target.type)
      then (s, reject 404)
      else if is_blank raw_session || ltb 256 (length raw_session)
      then (s, reject 400)
      else elim request.body [
        | too_large ↦ (s, reject 413)
        | undecoded ↦ (s, reject 400)
        | decoded input ↦
            forward s id request.client raw_session input started now (upstream target)
      ]

  -- captureCompletion once the token is the right one.
  unfoldable pub complete_for :
      MemoryStore F
      → Option ℕ
      → ProxyRequest
      → ℤ
      → ℤ
      → (Target → Upstream)
      → MemoryStore F × ProxyResponse
  complete_for s none request started now upstream = (s, reject 404)
  complete_for s (some id) request started now upstream = elim (lookup id s.targets) [
    | none ↦ (s, reject 404)
    | some target ↦ for_target s id target request started now upstream
  ]

  unfoldable pub capture_completion :
      (Text → String)
      → String
      → MemoryStore F
      → ProxyRequest
      → ℤ
      → ℤ
      → (Target → Upstream)
      → MemoryStore F × ProxyResponse
  capture_completion hash env s request started now upstream =
      let (token_hash, enabled, configured) = capture_credentials env s.capture_settings in
      if not configured || not enabled
      then (s, reject 503)
      else if not (eqb_text (hash request.token) token_hash)
      then (s, reject 401)
      else complete_for s request.target request started now upstream
