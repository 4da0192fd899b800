-- ===== src/Controller/Proxy/Events.antt =====
-- internal/controller/capture.go: what is read of a captured answer. JSON is what it decodes to: `decode`
-- is the decoding of a text into the fields that are read, `none` where it fails.
use load_observatory.Prelude.{
  ℕ, zero, suc, ℤ, pos, ◌+◌, ◌-◌, ◌/◌, ◌+ℤ◌, ltb_ℤ, leb, ◌==◌, if◌then◌else◌, Bool, true, false,
  ◌||◌, List, [], ◌∷◌, ◌++◌, Option, none, some, String, length,
}
use load_observatory.Core.Server.{eqb_text}
use load_observatory.Core.Captures.{CaptureEvent}
use load_observatory.Core.Target.{Text, eqb, trim, is_space, is_blank}
use load_observatory.Controller.Routes.{codes, starts_with}

pub record CaptureChoice : Type 0 where
  pub finish_reason : String
  pub message_tool_calls : ℕ
  pub delta_content : Option String
  pub delta_tool_calls : ℕ

pub record CaptureResponse : Type 0 where
  pub prompt_tokens : ℤ
  pub completion_tokens : ℤ
  pub choices : List CaptureChoice

unfoldable pub drop : ℕ → Text → Text
drop zero text = text
drop (suc n) [] = []
drop (suc n) (c ∷ text) = drop n text

unfoldable pub take : ℕ → Text → Text
take zero text = []
take (suc n) [] = []
take (suc n) (c ∷ text) = c ∷ take n text

unfoldable pub contains : Text → Text → Bool
contains [] part = is_blank part
contains (c ∷ text) part = starts_with (c ∷ text) part || contains text part

abbrev pub onto_first : ℕ → List Text → List Text
onto_first c [] = (c ∷ []) ∷ []
onto_first c (line ∷ lines) = (c ∷ line) ∷ lines

-- `bytes.Split(raw, "\n")`
unfoldable pub split_lines : Text → List Text
split_lines [] = [] ∷ []
split_lines (c ∷ text) =
    let lines = split_lines text in if c == 10 then [] ∷ lines else onto_first c lines

abbrev pub data_prefix : Text
data_prefix = codes "data:"

-- A line without `data:` and blanks around it.
unfoldable pub line_data : Text → Text
line_data line = trim is_space (if starts_with line data_prefix then drop 5 line else line)

unfoldable pub add_choice : CaptureChoice → CaptureEvent → CaptureEvent
add_choice choice event = record event {
  finish_reason =
      if eqb_text choice.finish_reason "" then event.finish_reason else choice.finish_reason;
  tool_calls = event.tool_calls +ℤ pos (choice.message_tool_calls + choice.delta_tool_calls);
}

unfoldable pub add_choices : List CaptureChoice → CaptureEvent → CaptureEvent
add_choices [] event = event
add_choices (choice ∷ rest) event = add_choices rest (add_choice choice event)

abbrev pub or_positive : ℤ → ℤ → ℤ
or_positive value otherwise = if ltb_ℤ (pos 0) value then value else otherwise

module _ (decode : Text → Option CaptureResponse) where
  unfoldable pub consume : Text → CaptureEvent → CaptureEvent
  consume text event = elim (decode text) [
    | none ↦ event
    | some decoded ↦ add_choices decoded.choices (record event {
      prompt_tokens = or_positive decoded.prompt_tokens event.prompt_tokens;
      output_tokens = or_positive decoded.completion_tokens event.output_tokens;
    })
  ]

  unfoldable pub consume_lines : List Text → CaptureEvent → CaptureEvent
  consume_lines [] event = event
  consume_lines (line ∷ rest) event =
      let text = line_data line in
      consume_lines rest
        (if is_blank text || eqb text (codes "[DONE]") then event else consume text event)

  unfoldable pub parse_capture_response : Text → CaptureEvent → CaptureEvent
  parse_capture_response raw event =
      if contains raw data_prefix then consume_lines (split_lines raw) event else consume raw event

  unfoldable pub any_output : List CaptureChoice → Bool
  any_output [] = false
  any_output (choice ∷ rest) =
      let more = any_output rest in
      if leb 1 choice.delta_tool_calls then true else elim choice.delta_content [
        | none ↦ more
        | some text ↦ if eqb_text text "" then more else true
      ]

  unfoldable pub capture_line_has_output : Text → Bool
  capture_line_has_output line = elim (decode (line_data line)) [
    | none ↦ false
    | some decoded ↦ any_output decoded.choices
  ]

-- The messages of a request, as JSON: a text as its number of runes.
mutual
  pub data Json : Type 0 where
    text : ℕ → Json
    items : Items → Json
    object : Fields → Json
    scalar : Json

  pub data Items : Type 0 where
    no_items : Items
    item : Json → Items → Items

  pub data Fields : Type 0 where
    no_fields : Fields
    field : String → Json → Fields → Fields

abbrev pub is_counted : String → Bool
is_counted key = eqb_text key "content" || eqb_text key "text" || eqb_text key "arguments"

unfoldable mutual
  pub count_string_runes : Json → ℕ
  count_string_runes (text runes) = runes
  count_string_runes (items children) = count_items children
  count_string_runes (object fields) = count_fields fields
  count_string_runes scalar = 0

  pub count_items : Items → ℕ
  count_items no_items = 0
  count_items (item child rest) = count_string_runes child + count_items rest

  pub count_fields : Fields → ℕ
  count_fields no_fields = 0
  count_fields (field key child rest) =
      let counted = count_string_runes child in
      let more = count_fields rest in if is_counted key then counted + more else more

unfoldable pub approximate_prompt_tokens : Option Json → ℤ
approximate_prompt_tokens none = pos 0
approximate_prompt_tokens (some value) = pos ((count_string_runes value + 3) / 4)

-- The writer that keeps the first bytes of an answer.
pub record LimitedCaptureWriter : Type 0 where
  pub dst : Text
  pub remaining : ℕ

-- `8 << 20`
abbrev pub max_capture_inspection_bytes : ℕ
max_capture_inspection_bytes = 8388608

unfoldable pub write : Text → LimitedCaptureWriter → LimitedCaptureWriter
write p w =
    let kept = if leb (length p) w.remaining then p else take w.remaining p in
    record { dst = w.dst ++ kept; remaining = w.remaining - length kept }
