-- ===== src/Config/Load/Meaning.antt =====
-- What the members of a configuration file mean, and how they are read.
use llamacodelab.Prelude.{
  ℕ, Bool, true, false, not, Option, none, some, [], Bytes, codes, is_empty, Option-cases, ◌≡◌, ◌≢◌,
  inl, inr, refl, subst, arith,
}
use llamacodelab.Prelude.Int.{ℤ, pos, negsuc}
use llamacodelab.Prelude.Result.{
  Error, Result, ok, err, invalid_argument, runtime_error, throw_if, ◌>>=◌, Yields, Yields-bind,
  Yields-imp, Yields-call,
}
use llamacodelab.Config.{ModelConfig, IndexConfig, AppConfig, validate_config}
use llamacodelab.Config.Load.{
  JsonLibrary, default_model, default_index, unsigned_of, read_member, size_value, bool_value,
  string_value, template_value,
}

module _ (json : JsonLibrary) where
  open json use {
    Json, find, is_object, is_string, is_boolean, is_integer, string_of, bool_of, int64_of,
    convert_int, convert_bool, convert_string,
  }

  abbrev pub IsSize : Json → ℕ → Type 0
  IsSize value n = (is_integer value ≡ true) × (int64_of value ≡ pos n)

  abbrev pub IsBoolean : Json → Bool → Type 0
  IsBoolean value b = (is_boolean value ≡ true) × (b ≡ bool_of value)

  abbrev pub IsString : Json → Bytes → Type 0
  IsString value s = (is_string value ≡ true) × (s ≡ string_of value)

  abbrev pub IsTemplate : Json → Option Bytes → Type 0
  IsTemplate value t =
      (is_string value ≡ true) × (string_of value ≢ []) × (t ≡ some (string_of value))

  -- A member that is missing has the fallback, one that is there means its value.
  pub record Reads {A : Type 0} (Means : Json → A → Type 0) (object : Json) (key : Bytes)
      (fallback a : A) : Type 0 where
    pub absent : find object key ≡ none → a ≡ fallback
    pub present : (value : Json) → find object key ≡ some value → Means value a

  pub record ModelOf (fallback : ModelConfig) (object : Json) (c : ModelConfig) : Type 0 where
    pub object_given : is_object object ≡ true
    pub path : Reads IsString object (codes "path") fallback.path c.path
    pub context_size :
        Reads IsSize object (codes "context_size") fallback.context_size c.context_size
    pub batch_size : Reads IsSize object (codes "batch_size") fallback.batch_size c.batch_size
    pub gpu_layers :
        Reads
          (λ v a. convert_int v ≡ ok a)
          object
          (codes "gpu_layers")
          fallback.gpu_layers
          c.gpu_layers
    pub flash_attention :
        Reads
          (λ v a. convert_bool v ≡ ok a)
          object
          (codes "flash_attention")
          fallback.flash_attention
          c.flash_attention
    pub chat_template :
        Reads IsTemplate object (codes "chat_template") fallback.chat_template c.chat_template

  pub record IndexOf (object : Json) (c : IndexConfig) : Type 0 where
    pub object_given : is_object object ≡ true
    pub data_dir : Reads IsString object (codes "data_dir") default_index.data_dir c.data_dir
    pub chunk_lines :
        Reads IsSize object (codes "chunk_lines") default_index.chunk_lines c.chunk_lines
    pub overlap_lines :
        Reads IsSize object (codes "overlap_lines") default_index.overlap_lines c.overlap_lines
    pub max_file_bytes :
        Reads IsSize object (codes "max_file_bytes") default_index.max_file_bytes c.max_file_bytes
    pub top_k : Reads IsSize object (codes "top_k") default_index.top_k c.top_k
    pub hnsw_enabled :
        Reads IsBoolean object (codes "hnsw_enabled") default_index.hnsw_enabled c.hnsw_enabled
    pub hnsw_ef_search :
        Reads IsSize object (codes "hnsw_ef_search") default_index.hnsw_ef_search c.hnsw_ef_search
    pub reranker_enabled :
        Reads IsBoolean object
          (codes "reranker_enabled")
          default_index.reranker_enabled
          c.reranker_enabled
    pub rerank_candidates :
        Reads IsSize object
          (codes "rerank_candidates")
          default_index.rerank_candidates
          c.rerank_candidates
    pub semantic_index_enabled :
        Reads IsBoolean object
          (codes "semantic_index_enabled")
          default_index.semantic_index_enabled
          c.semantic_index_enabled
    pub compilation_database_dir :
        Reads IsString object
          (codes "compilation_database_dir")
          default_index.compilation_database_dir
          c.compilation_database_dir

  pub record Loaded (root : Json) (c : AppConfig) : Type 0 where
    pub object_given : is_object root ≡ true
    pub generation :
        Reads
          (ModelOf default_model)
          root
          (codes "generation_model")
          default_model
          c.generation_model
    pub embedding :
        Reads
          (ModelOf c.generation_model)
          root
          (codes "embedding_model")
          c.generation_model
          c.embedding_model
    pub index : Reads IndexOf root (codes "index") default_index c.index
    pub level :
        Reads (λ v a. convert_string v ≡ ok a) root (codes "log_level") (codes "info") c.log_level
    pub checked : validate_config c ≡ ok tt

  -- An exception of the code's own, or one of a conversion.
  pub data Refused (e : Error) : Type 0 where
    by_check : e ≡ invalid_argument → Refused e
    by_file : e ≡ runtime_error → Refused e
    by_int : (value : Json) → convert_int value ≡ err e → Refused e
    by_bool : (value : Json) → convert_bool value ≡ err e → Refused e
    by_string : (value : Json) → convert_string value ≡ err e → Refused e

  pub guarded :
      {A : Type 0} (Q : A → Type 0) (test : Bool) (rest : Unit {0} → Result A)
      → (test ≡ false → Yields Q Refused (rest tt))
      → Yields Q Refused (throw_if test invalid_argument >>= rest)
  guarded Q true rest k = by_check refl
  guarded Q false rest k = k refl

  pub member :
      {A : Type 0} (Means : Json → A → Type 0) (read_value : Json → Result A) (object : Json)
      (key : Bytes) (fallback : A)
      → ((value : Json) → Yields (Means value) Refused (read_value value))
      → Yields
          (Reads Means object key fallback)
          Refused
          (read_member json read_value object key fallback)
  unfolding read_member
  member Means read_value object key fallback h = elim (Option-cases (find object key)) [
    | inl e ↦
        rw (e, read_member) (record { absent = λ _. refl; present = λ v p. absurd (cc (e, p)) })
    | inr (value, e) ↦
        rw (e, read_member)
          (Yields-imp Refused (read_value value) (h value) (λ a m. record {
            absent = λ p. absurd (cc (e, p));
            present = λ w p. subst (λ x. Means x a) (cc (e, p)) m;
          }))
  ]

  pub unsigned_of-Yields : (value : ℤ) → Yields (λ n. value ≡ pos n) Refused (unsigned_of value)
  unfolding unsigned_of
  unsigned_of-Yields (pos n) = refl
  unsigned_of-Yields (negsuc n) = by_check refl

  pub size_value-Yields : (value : Json) → Yields (IsSize value) Refused (size_value json value)
  unfolding size_value
  size_value-Yields value = guarded _ (not (is_integer value)) _ (λ e.
      Yields-imp Refused (unsigned_of (int64_of value)) (unsigned_of-Yields (int64_of value))
        (λ n p. (ground arith, p)))

  pub bool_value-Yields : (value : Json) → Yields (IsBoolean value) Refused (bool_value json value)
  unfolding bool_value
  bool_value-Yields value = guarded _ (not (is_boolean value)) _ (λ e. (ground arith, refl))

  pub string_value-Yields :
      (value : Json) → Yields (IsString value) Refused (string_value json value)
  unfolding string_value
  string_value-Yields value = guarded _ (not (is_string value)) _ (λ e. (ground arith, refl))

  pub template_value-Yields :
      (value : Json) → Yields (IsTemplate value) Refused (template_value json value)
  unfolding template_value
  template_value-Yields value = guarded _ (not (is_string value)) _ (λ e.
      guarded _ (is_empty (string_of value)) _
        (λ some_text. (ground arith, λ p. cc (rw p at some_text), refl)))

  pub call-Yields :
      {A : Type 0} (convert : Json → Result A)
      → ((e : Error) (value : Json) → convert value ≡ err e → Refused e)
      → (value : Json) → Yields (λ a. convert value ≡ ok a) Refused (convert value)
  call-Yields convert by value = Yields-call Refused (convert value) (λ e h. by e value h)

  -- A member is read, and the rest goes on with what it means.
  pub reading :
      {A B : Type 0} (Q : B → Type 0) (Means : Json → A → Type 0) (read_value : Json → Result A)
      → ((value : Json) → Yields (Means value) Refused (read_value value))
      → (object : Json) (key : Bytes) (fallback : A) (rest : A → Result B)
      → ((a : A) → Reads Means object key fallback a → Yields Q Refused (rest a))
      → Yields Q Refused (read_member json read_value object key fallback >>= rest)
  reading Q Means read_value each object key fallback rest k =
      Yields-bind _ Refused (read_member json read_value object key fallback) rest
        (member Means read_value object key fallback each) k
