-- ===== src/Config/Tests.antt =====
-- The default configuration, with a path for the models.
use llamacodelab.Prelude.{
  Bool, true, false, Option, none, some, [], Bytes, if◌then◌else◌, codes, bytes_eq, ◌≡◌, refl,
}
use llamacodelab.Prelude.Result.{ok, err, logic_error}
use llamacodelab.Prelude.Int.{ℤ, pos, negsuc}
use llamacodelab.Config.{
  ModelConfig, AppConfig, validate_model, validate_index, validate_config, gpu_layers_refused,
  is_log_level,
}
use llamacodelab.Config.Load.{JsonLibrary}
use llamacodelab.Config.Load.Meaning.{Loaded}
use llamacodelab.Config.Bounds.{IsUsable, validate_config-IsUsable}

abbrev model : ModelConfig
model = record {
  path = codes "m.gguf";
  context_size = 4096;
  batch_size = 512;
  gpu_layers = negsuc 0;
  flash_attention = true;
  chat_template = none;
}

abbrev config : AppConfig
config = record {
  generation_model = model;
  embedding_model = model;
  index = record {
    data_dir = codes "var/index";
    chunk_lines = 80;
    overlap_lines = 16;
    max_file_bytes = 1_048_576;
    top_k = 8;
    hnsw_enabled = false;
    hnsw_ef_search = 256;
    reranker_enabled = false;
    rerank_candidates = 30;
    semantic_index_enabled = false;
    compilation_database_dir = codes "build";
  };
  log_level = codes "info";
}

defaults_pass : validate_config config ≡ ok tt
unfolding validate_config validate_model validate_index gpu_layers_refused is_log_level bytes_eq
defaults_pass = refl

validate_config-IsUsable_example : IsUsable config
validate_config-IsUsable_example = validate_config-IsUsable config defaults_pass

-- Values with one member after another.
data Toy : Type 0 where
  empty : Toy
  member : Bytes → Toy → Toy → Toy
  number : ℤ → Toy
  text : Bytes → Toy

abbrev toy_find : Toy → Bytes → Option Toy
toy_find (member k v rest) key = if bytes_eq k key then some v else toy_find rest key
toy_find _ key = none

abbrev toy_is_object : Toy → Bool
toy_is_object empty = true
toy_is_object (member k v rest) = true
toy_is_object _ = false

abbrev toy_is_text : Toy → Bool
toy_is_text (text s) = true
toy_is_text _ = false

abbrev toy_is_number : Toy → Bool
toy_is_number (number n) = true
toy_is_number _ = false

abbrev toy_text : Toy → Bytes
toy_text (text s) = s
toy_text _ = []

abbrev toy_number : Toy → ℤ
toy_number (number n) = n
toy_number _ = pos 0

abbrev toy : JsonLibrary
toy = record {
  Json = Toy;
  find = toy_find;
  is_object = toy_is_object;
  is_string = toy_is_text;
  is_boolean = λ v. false;
  is_integer = toy_is_number;
  string_of = toy_text;
  bool_of = λ v. false;
  int64_of = toy_number;
  convert_int = λ v. if toy_is_number v then ok (toy_number v) else err logic_error;
  convert_bool = λ v. err logic_error;
  convert_string = λ v. if toy_is_text v then ok (toy_text v) else err logic_error;
}

abbrev file : Toy
file =
    member (codes "generation_model")
      (member (codes "path") (text (codes "m.gguf"))
        (member (codes "context_size") (number (pos 1024)) empty))
      empty
