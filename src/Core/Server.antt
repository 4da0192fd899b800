-- ===== src/Core/Server.antt =====
-- internal/core/provenance.go: the model server's configuration, and how two of them are merged and
-- compared. A zero number or an empty text means unknown.
use text.Mathlib.Text.{◌==◌ as str_eq}
use load_observatory.Prelude.{ℤ, pos, eqb_ℤ, Bool, ◌&&◌, String}
use load_observatory.Prelude.Floats.{Floats}

pub record ServerConfig (F : Type 0) : Type 0 where
  pub version : String
  pub model : String
  pub max_num_seqs : ℤ
  pub max_num_batched_tokens : ℤ
  pub gpu_memory_utilization : F
  pub block_size : ℤ
  pub tensor_parallel_size : ℤ
  pub prefix_caching : String
  pub chunked_prefill : String

-- The equality test on text: Go's `a == b`.
unfoldable pub eqb_text : String → String → Bool
eqb_text a b = str_eq a b

-- `config == (ServerConfig{})`
unfoldable pub is_zero_server : {F : Type 0} → ⦃fl : Floats F⦄ → ServerConfig F → Bool
unfolding eqb_text
is_zero_server ⦃fl⦄ config =
    eqb_text config.version ""
    && eqb_text config.model ""
    && eqb_ℤ config.max_num_seqs (pos 0)
    && eqb_ℤ config.max_num_batched_tokens (pos 0)
    && fl.eq config.gpu_memory_utilization (fl.of_int (pos 0))
    && eqb_ℤ config.block_size (pos 0)
    && eqb_ℤ config.tensor_parallel_size (pos 0)
    && eqb_text config.prefix_caching ""
    && eqb_text config.chunked_prefill ""
