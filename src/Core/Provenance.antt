-- ===== src/Core/Provenance.antt =====
-- internal/core/provenance.go: which server configuration a run counts as measured under, and the
-- reports over its fields. A report's lines are the field and the two texts it shows, without the words
-- around them; a shown text is what it was printed from.
pub mod Values
pub mod Merged
use load_observatory.Prelude.{
  ℤ, pos, ltb_ℤ, eqb_ℤ, if◌then◌else◌, Bool, true, false, ◌&&◌, ◌||◌, not, List, [], ◌∷◌, String,
}
use load_observatory.Prelude.Floats.{Floats}
use load_observatory.Core.Server.{ServerConfig, eqb_text}

-- The entries of `provenanceFields`.
pub data Field : Type 0 where
  version model max_num_seqs max_num_batched_tokens gpu_memory_utilization block_size : Field
  tensor_parallel_size prefix_caching chunked_prefill : Field

-- `provenanceFields`, in its order.
abbrev pub provenance_fields : List Field
provenance_fields =
    version ∷ model ∷ max_num_seqs ∷ max_num_batched_tokens ∷ gpu_memory_utilization ∷ block_size
    ∷ tensor_parallel_size ∷ prefix_caching ∷ chunked_prefill ∷ []

-- The entry's `AffectsTTFT`.
abbrev pub affects_ttft : Field → Bool
affects_ttft max_num_batched_tokens = true
affects_ttft prefix_caching = true
affects_ttft chunked_prefill = true
affects_ttft _ = false

-- The text of a value: empty, a text, `%d` of a number, or `%.2f` of a number of hundredths.
pub data Shown : Type 0 where
  blank : Shown
  words : String → Shown
  digits hundredths : ℤ → Shown

abbrev pub is_blank : Shown → Bool
is_blank blank = true
is_blank _ = false

-- Equality of two shown texts. A number and a text are never compared: they are of different fields.
abbrev pub eqb_shown : Shown → Shown → Bool
eqb_shown blank blank = true
eqb_shown (words a) (words b) = eqb_text a b
eqb_shown (digits a) (digits b) = eqb_ℤ a b
eqb_shown (hundredths a) (hundredths b) = eqb_ℤ a b
eqb_shown _ _ = false

unfoldable pub as_text : String → Shown
as_text text = if eqb_text text "" then blank else words text

unfoldable pub int_text : ℤ → Shown
int_text value = if eqb_ℤ value (pos 0) then blank else digits value

-- boolLabel
unfoldable pub bool_label : String → String
bool_label raw =
    if eqb_text raw "True" || eqb_text raw "true" || eqb_text raw "1" || eqb_text raw "on"
    then "on"
    else if eqb_text raw "False" || eqb_text raw "false" || eqb_text raw "0" || eqb_text raw "off"
    then "off"
    else ""

-- `if detected != "" { merged = detected }`, and the same for a number above 0.
unfoldable pub known_text : String → String → String
known_text entered detected = if eqb_text detected "" then entered else detected

unfoldable pub known_int : ℤ → ℤ → ℤ
known_int entered detected = if ltb_ℤ (pos 0) detected then detected else entered

module _ {F : Type 0} ⦃fl : Floats F⦄ where
  unfoldable pub float_text : F → Shown
  float_text value =
      if fl.eq value (fl.of_int (pos 0)) then blank else hundredths (fl.hundredths value)

  -- The entry's `Value`.
  unfoldable pub value : Field → ServerConfig F → Shown
  value version config = as_text config.version
  value model config = as_text config.model
  value max_num_seqs config = int_text config.max_num_seqs
  value max_num_batched_tokens config = int_text config.max_num_batched_tokens
  value gpu_memory_utilization config = float_text config.gpu_memory_utilization
  value block_size config = int_text config.block_size
  value tensor_parallel_size config = int_text config.tensor_parallel_size
  value prefix_caching config = as_text config.prefix_caching
  value chunked_prefill config = as_text config.chunked_prefill

  unfoldable pub known_float : F → F → F
  known_float entered detected = if fl.lt (fl.of_int (pos 0)) detected then detected else entered

  unfoldable pub effective_server_config : ServerConfig F → ServerConfig F → ServerConfig F
  effective_server_config entered detected = record {
    version = known_text entered.version detected.version;
    model = known_text entered.model detected.model;
    max_num_seqs = known_int entered.max_num_seqs detected.max_num_seqs;
    max_num_batched_tokens =
        known_int entered.max_num_batched_tokens detected.max_num_batched_tokens;
    gpu_memory_utilization =
        known_float entered.gpu_memory_utilization detected.gpu_memory_utilization;
    block_size = known_int entered.block_size detected.block_size;
    tensor_parallel_size = known_int entered.tensor_parallel_size detected.tensor_parallel_size;
    prefix_caching = known_text entered.prefix_caching detected.prefix_caching;
    chunked_prefill = known_text entered.chunked_prefill detected.chunked_prefill;
  }

  -- The loop of ProvenanceConflicts over the fields that are left.
  unfoldable pub conflicts_in :
      List Field → ServerConfig F → ServerConfig F → List (Field × Shown × Shown)
  conflicts_in [] entered detected = []
  conflicts_in (field ∷ rest) entered detected =
      let mine = value field entered in
      let theirs = value field detected in
      let later = conflicts_in rest entered detected in
      if is_blank mine || is_blank theirs || eqb_shown mine theirs
      then later
      else (field, mine, theirs) ∷ later

  unfoldable pub provenance_conflicts :
      ServerConfig F → ServerConfig F → List (Field × Shown × Shown)
  provenance_conflicts entered detected = conflicts_in provenance_fields entered detected

  -- The loop of ProvenanceGaps, and whether the TTFT can be compared.
  unfoldable pub gaps_in : List Field → ServerConfig F → Bool → List Field × Bool
  gaps_in [] config comparable = ([], comparable)
  gaps_in (field ∷ rest) config comparable =
      let unknown = is_blank (value field config) in
      let (gaps, last) =
        gaps_in rest config (if unknown && affects_ttft field then false else comparable) in
      (if unknown then field ∷ gaps else gaps, last)

  unfoldable pub provenance_gaps : ServerConfig F → List Field × Bool
  provenance_gaps config = gaps_in provenance_fields config true

  unfoldable pub differences_in :
      List Field → ServerConfig F → ServerConfig F → List (Field × Shown × Shown)
  differences_in [] left right = []
  differences_in (field ∷ rest) left right =
      let later = differences_in rest left right in
      if eqb_shown (value field left) (value field right)
      then later
      else (field, value field left, value field right) ∷ later

  -- A blank text is shown as unknown by orUnknown.
  unfoldable pub provenance_differences :
      ServerConfig F → ServerConfig F → List (Field × Shown × Shown)
  provenance_differences left right = differences_in provenance_fields left right
