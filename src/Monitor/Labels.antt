-- ===== src/Monitor/Labels.antt =====
-- internal/monitor/monitor.go: ServerConfig and queryLabels; internal/core/provenance.go:
-- ServerConfigFromLabels. `scan_int` and `scan_float` are Sscanf with `%d` and `%f`.
use load_observatory.Prelude.{
  ℤ, pos, ltb_ℤ, if◌then◌else◌, Bool, List, [], ◌∷◌, Option, none, some, String,
}
use load_observatory.Prelude.Floats.{Floats}
use load_observatory.Core.Server.{ServerConfig, eqb_text}
use load_observatory.Store.Zero.{zero_server}
use load_observatory.Core.Provenance.{bool_label, effective_server_config}

-- The labels of a series, each with its value.
abbrev pub Labels : Type 0
Labels = List (String × String)

-- `labels[name]`: the empty text if there is none.
unfoldable pub label : String → Labels → String
label name [] = ""
label name ((held, text) ∷ rest) = if eqb_text held name then text else label name rest

unfoldable pub int_label : (String → Option ℤ) → String → ℤ
int_label scan_int raw = elim (scan_int raw) [
  | none ↦ pos 0
  | some value ↦ if ltb_ℤ (pos 0) value then value else pos 0
]

-- The labels of the first series of an answer, which is `none` if it was not decoded.
unfoldable pub query_labels : Option (List Labels) → Option Labels
query_labels none = none
query_labels (some []) = none
query_labels (some (labels ∷ more)) = some labels

unfoldable pub config_metrics : List String
config_metrics =
    "vllm:cache_config_info" ∷ "vllm:num_requests_running" ∷ "sglang:num_running_reqs"
    ∷ "sglang_num_running_reqs" ∷ []

module _ {F : Type 0} ⦃fl : Floats F⦄ (scan_int : String → Option ℤ)
    (scan_float : String → Option F) where
  unfoldable pub float_label : String → F
  float_label raw = elim (scan_float raw) [
    | none ↦ fl.of_int (pos 0)
    | some value ↦ if fl.le value (fl.of_int (pos 0)) then fl.of_int (pos 0) else value
  ]

  unfoldable pub server_config_from_labels : Labels → ServerConfig F
  server_config_from_labels labels = record {
    version = label "version" labels;
    model = label "model_name" labels;
    max_num_seqs = int_label scan_int (label "max_num_seqs" labels);
    max_num_batched_tokens = int_label scan_int (label "max_num_batched_tokens" labels);
    gpu_memory_utilization = float_label (label "gpu_memory_utilization" labels);
    block_size = int_label scan_int (label "block_size" labels);
    tensor_parallel_size = pos 0;
    prefix_caching = bool_label (label "enable_prefix_caching" labels);
    chunked_prefill = bool_label (label "enable_chunked_prefill" labels);
  }

  -- The loop of ServerConfig, on what each metric's query answers.
  unfoldable pub merge_configs :
      (String → Option Labels) → List String → ServerConfig F → ServerConfig F
  merge_configs ask [] merged = merged
  merge_configs ask (metric ∷ rest) merged = elim (ask metric) [
    | none ↦ merge_configs ask rest merged
    | some labels ↦
        merge_configs ask rest (effective_server_config merged (server_config_from_labels labels))
  ]

  -- ServerConfig for a client whose URL is set or not.
  unfoldable pub server_config : Bool → (String → Option Labels) → ServerConfig F
  server_config configured ask =
      if configured then merge_configs ask config_metrics zero_server else zero_server
