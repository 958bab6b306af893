-- ===== src/Config/Load.antt =====
-- src/support/config.cpp: `load_config`, which reads a configuration from a JSON text. The library of
-- JSON values is a parameter.
pub mod Meaning
pub mod Loaded
use llamacodelab.Prelude.{ℕ, Bool, true, false, not, Option, none, some, [], Bytes, codes, is_empty}
use llamacodelab.Prelude.Int.{ℤ, pos, negsuc}
use llamacodelab.Prelude.Result.{
  Result, ok, err, invalid_argument, runtime_error, throw_if, ◌>>=◌, ◌>>◌,
}
use llamacodelab.Config.{ModelConfig, IndexConfig, AppConfig, validate_config}

-- nlohmann::json: `find` of an object, the tests of a value, what `get` gives of a value of that kind,
-- and the conversions of `value`, which throw where the value does not convert.
pub record JsonLibrary : Type 1 where
  pub Json : Type 0
  pub find : Json → Bytes → Option Json
  pub is_object : Json → Bool
  pub is_string : Json → Bool
  pub is_boolean : Json → Bool
  pub is_integer : Json → Bool
  pub string_of : Json → Bytes
  pub bool_of : Json → Bool
  pub int64_of : Json → ℤ
  pub convert_int : Json → Result ℤ
  pub convert_bool : Json → Result Bool
  pub convert_string : Json → Result Bytes

abbrev pub default_model : ModelConfig
default_model = record {
  path = [];
  context_size = 4096;
  batch_size = 512;
  gpu_layers = negsuc 0;
  flash_attention = true;
  chat_template = none;
}

abbrev pub default_index : IndexConfig
default_index = record {
  data_dir = codes "var/index";
  chunk_lines = 80;
  overlap_lines = 16;
  max_file_bytes = 1_048_576;
  top_k = 8;
  hnsw_enabled = false;
  hnsw_ef_search = 256;
  reranker_enabled = false;
  rerank_candidates = 30;
  semantic_index_enabled = false;
  compilation_database_dir = codes "build";
}

-- The value must not be negative; what an int64_t holds is no larger than a std::size_t.
pub unsigned_of : ℤ → Result ℕ
unsigned_of (pos n) = ok n
unsigned_of (negsuc n) = err invalid_argument

module _ (json : JsonLibrary) where
  open json use {
    Json, find, is_object, is_string, is_boolean, is_integer, string_of, bool_of, int64_of,
    convert_int, convert_bool, convert_string,
  }

  -- A member of an object: the fallback where it is missing, else what `read_value` makes of it.
  pub read_member : {A : Type 0} → (Json → Result A) → Json → Bytes → A → Result A
  read_member read_value object key fallback = elim (find object key) [
    | none ↦ ok fallback
    | some value ↦ read_value value
  ]

  pub size_value : Json → Result ℕ
  size_value value = do
    throw_if (not (is_integer value)) invalid_argument
    unsigned_of (int64_of value)

  pub bool_value : Json → Result Bool
  bool_value value = do throw_if (not (is_boolean value)) invalid_argument; ok (bool_of value)

  pub string_value : Json → Result Bytes
  string_value value = do throw_if (not (is_string value)) invalid_argument; ok (string_of value)

  pub template_value : Json → Result (Option Bytes)
  template_value value = do
    throw_if (not (is_string value)) invalid_argument
    throw_if (is_empty (string_of value)) invalid_argument
    ok (some (string_of value))

  pub read_size : Json → Bytes → ℕ → Result ℕ
  read_size = read_member size_value

  pub read_bool : Json → Bytes → Bool → Result Bool
  read_bool = read_member bool_value

  -- The value of `read_model`, for a member that is there.
  pub model_value : ModelConfig → Json → Result ModelConfig
  model_value fallback object = do
    throw_if (not (is_object object)) invalid_argument
    path ← read_member string_value object (codes "path") fallback.path
    context_size ← read_size object (codes "context_size") fallback.context_size
    batch_size ← read_size object (codes "batch_size") fallback.batch_size
    gpu_layers ← read_member convert_int object (codes "gpu_layers") fallback.gpu_layers
    flash_attention ←
        read_member convert_bool object (codes "flash_attention") fallback.flash_attention
    chat_template ← read_member template_value object (codes "chat_template") fallback.chat_template
    ok (record {
      path = path;
      context_size = context_size;
      batch_size = batch_size;
      gpu_layers = gpu_layers;
      flash_attention = flash_attention;
      chat_template = chat_template;
    })

  pub read_model : Json → Bytes → ModelConfig → Result ModelConfig
  read_model root key fallback = read_member (model_value fallback) root key fallback

  pub index_value : Json → Result IndexConfig
  index_value object = do
    throw_if (not (is_object object)) invalid_argument
    data_dir ← read_member string_value object (codes "data_dir") default_index.data_dir
    chunk_lines ← read_size object (codes "chunk_lines") default_index.chunk_lines
    overlap_lines ← read_size object (codes "overlap_lines") default_index.overlap_lines
    max_file_bytes ← read_size object (codes "max_file_bytes") default_index.max_file_bytes
    top_k ← read_size object (codes "top_k") default_index.top_k
    hnsw_enabled ← read_bool object (codes "hnsw_enabled") default_index.hnsw_enabled
    hnsw_ef_search ← read_size object (codes "hnsw_ef_search") default_index.hnsw_ef_search
    reranker_enabled ← read_bool object (codes "reranker_enabled") default_index.reranker_enabled
    rerank_candidates ← read_size object (codes "rerank_candidates") default_index.rerank_candidates
    semantic_index_enabled ←
        read_bool object (codes "semantic_index_enabled") default_index.semantic_index_enabled
    compilation_database_dir ←
        read_member string_value object (codes "compilation_database_dir")
          default_index.compilation_database_dir
    ok (record {
      data_dir = data_dir;
      chunk_lines = chunk_lines;
      overlap_lines = overlap_lines;
      max_file_bytes = max_file_bytes;
      top_k = top_k;
      hnsw_enabled = hnsw_enabled;
      hnsw_ef_search = hnsw_ef_search;
      reranker_enabled = reranker_enabled;
      rerank_candidates = rerank_candidates;
      semantic_index_enabled = semantic_index_enabled;
      compilation_database_dir = compilation_database_dir;
    })

  pub read_index : Json → Result IndexConfig
  read_index root = read_member index_value root (codes "index") default_index

  -- From the root value on.
  pub config_value : Json → Result AppConfig
  config_value root = do
    throw_if (not (is_object root)) invalid_argument
    generation_model ← read_model root (codes "generation_model") default_model
    embedding_model ← read_model root (codes "embedding_model") generation_model
    index ← read_index root
    log_level ← read_member convert_string root (codes "log_level") (codes "info")
    let config : AppConfig = record {
      generation_model = generation_model;
      embedding_model = embedding_model;
      index = index;
      log_level = log_level;
    }
    validate_config config
    ok config

  -- `text` is what is parsed, `none` where the file does not open, `some none` where it is no JSON.
  pub load_config : Option (Option Json) → Result AppConfig
  load_config none = err runtime_error
  load_config (some none) = err runtime_error
  load_config (some (some root)) = config_value root
