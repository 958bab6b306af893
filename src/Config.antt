-- ===== src/Config.antt =====
-- include/llamacodelab/support/config.hpp and src/support/config.cpp: the checks of a configuration.
pub mod Bounds
pub mod Load
mod Tests
use llamacodelab.Prelude.{
  ℕ, zero, suc, Bool, true, false, not, ◌&&◌, ◌||◌, Option, Bytes, codes, bytes_eq, is_empty, ltb,
  leb, ◌==◌,
}
use llamacodelab.Prelude.Int.{ℤ, pos, negsuc}
use llamacodelab.Prelude.Result.{Result, invalid_argument, throw_if, ◌>>=◌, ◌>>◌}

pub record ModelConfig : Type 0 where
  pub path : Bytes
  pub context_size : ℕ
  pub batch_size : ℕ
  pub gpu_layers : ℤ
  pub flash_attention : Bool
  pub chat_template : Option Bytes

pub record IndexConfig : Type 0 where
  pub data_dir : Bytes
  pub chunk_lines : ℕ
  pub overlap_lines : ℕ
  pub max_file_bytes : ℕ
  pub top_k : ℕ
  pub hnsw_enabled : Bool
  pub hnsw_ef_search : ℕ
  pub reranker_enabled : Bool
  pub rerank_candidates : ℕ
  pub semantic_index_enabled : Bool
  pub compilation_database_dir : Bytes

pub record AppConfig : Type 0 where
  pub generation_model : ModelConfig
  pub embedding_model : ModelConfig
  pub index : IndexConfig
  pub log_level : Bytes

-- gpu_layers < -1 || gpu_layers > 999
pub gpu_layers_refused : ℤ → Bool
gpu_layers_refused (pos n) = ltb 999 n
gpu_layers_refused (negsuc n) = ltb 0 n

pub validate_model : ModelConfig → Result (Unit {0})
validate_model config = do
  throw_if (is_empty config.path) invalid_argument
  throw_if (ltb config.context_size 128 || ltb 1_048_576 config.context_size) invalid_argument
  throw_if (config.batch_size == 0 || ltb config.context_size config.batch_size) invalid_argument
  throw_if (gpu_layers_refused config.gpu_layers) invalid_argument

pub is_log_level : Bytes → Bool
is_log_level level =
    bytes_eq level (codes "trace")
    || bytes_eq level (codes "debug")
    || bytes_eq level (codes "info")
    || bytes_eq level (codes "warn")
    || bytes_eq level (codes "error")
    || bytes_eq level (codes "critical")
    || bytes_eq level (codes "off")

pub validate_index : IndexConfig → Result (Unit {0})
validate_index index = do
  throw_if (is_empty index.data_dir) invalid_argument
  throw_if (index.chunk_lines == 0) invalid_argument
  throw_if (leb index.chunk_lines index.overlap_lines) invalid_argument
  throw_if (index.max_file_bytes == 0 || ltb 67_108_864 index.max_file_bytes) invalid_argument
  throw_if (index.top_k == 0 || ltb 1000 index.top_k) invalid_argument
  throw_if (index.hnsw_ef_search == 0 || ltb 10_000 index.hnsw_ef_search) invalid_argument
  throw_if (ltb index.rerank_candidates 20 || ltb 50 index.rerank_candidates) invalid_argument
  throw_if (index.semantic_index_enabled && is_empty index.compilation_database_dir)
      invalid_argument

pub validate_config : AppConfig → Result (Unit {0})
validate_config config = do
  validate_model config.generation_model
  validate_model config.embedding_model
  validate_index config.index
  throw_if (not (is_log_level config.log_level)) invalid_argument
