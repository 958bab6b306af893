-- ===== src/Config/Bounds.antt =====
-- A configuration that passes the checks suits the parts that it is given to.
use llamacodelab.Prelude.{
  ℕ, ◌≤◌, ◌<◌, [], Bool, true, false, ◌&&◌, ◌||◌, Bytes, is_empty, ltb, leb, ◌==◌, ◌≡◌, ◌≢◌, refl,
  arith, ==-ne, is_empty-ne,
}
use llamacodelab.Prelude.Result.{Result, ok, throw_if, ◌>>=◌, >>=-eq-ok, invalid_argument}
use llamacodelab.Domain.{Floats}
use llamacodelab.Chunker.{ChunkingOptions, validate_options}
use llamacodelab.Rag.{RagPromptBudget}
use llamacodelab.Rag.Ask.{Collaborators, new_ask_service}
use llamacodelab.Config.{
  ModelConfig, IndexConfig, AppConfig, validate_model, validate_index, validate_config,
  gpu_layers_refused,
}

pub record IsModel (m : ModelConfig) : Type 0 where
  pub named : m.path ≢ []
  pub context_low : 128 ≤ m.context_size
  pub context_high : m.context_size ≤ 1_048_576
  pub some_batch : 0 < m.batch_size
  pub batch_fits : m.batch_size ≤ m.context_size

pub record IsIndex (i : IndexConfig) : Type 0 where
  pub some_lines : 0 < i.chunk_lines
  pub less_overlap : i.overlap_lines < i.chunk_lines
  pub some_hits : 0 < i.top_k
  pub few_hits : i.top_k ≤ 1000
  pub candidates_low : 20 ≤ i.rerank_candidates
  pub candidates_high : i.rerank_candidates ≤ 50

-- A test that was passed.
passed :
    (b : Bool) (rest : Result (Unit {0}))
    → (throw_if b invalid_argument >>= λ _. rest) ≡ ok tt
    → (b ≡ false) × (rest ≡ ok tt)
passed true rest e = cc
passed false rest e = (refl, e)

validate_model-IsModel : (m : ModelConfig) → validate_model m ≡ ok tt → IsModel m
unfolding validate_model
validate_model-IsModel m e =
    let (a, e1) = passed (is_empty m.path) _ e in
    let (b, e2) = passed (ltb m.context_size 128 || ltb 1_048_576 m.context_size) _ e1 in
    let (c, e3) =
      passed (m.batch_size == 0 || ltb m.context_size m.batch_size)
        (throw_if (gpu_layers_refused m.gpu_layers) invalid_argument) e2 in
    record {
      named = λ none_given. ground (arith, a, none_given);
      context_low = ground (arith, b);
      context_high = ground (arith, b);
      some_batch = ground (arith, c);
      batch_fits = ground (arith, c);
    }

validate_index-IsIndex : (i : IndexConfig) → validate_index i ≡ ok tt → IsIndex i
unfolding validate_index
validate_index-IsIndex i e =
    let (a, e1) = passed (is_empty i.data_dir) _ e in
    let (b, e2) = passed (i.chunk_lines == 0) _ e1 in
    let (c, e3) = passed (leb i.chunk_lines i.overlap_lines) _ e2 in
    let (d, e4) = passed (i.max_file_bytes == 0 || ltb 67_108_864 i.max_file_bytes) _ e3 in
    let (h, e5) = passed (i.top_k == 0 || ltb 1000 i.top_k) _ e4 in
    let (j, e6) = passed (i.hnsw_ef_search == 0 || ltb 10_000 i.hnsw_ef_search) _ e5 in
    let (k, e7) =
      passed (ltb i.rerank_candidates 20 || ltb 50 i.rerank_candidates)
        (throw_if (i.semantic_index_enabled && is_empty i.compilation_database_dir)
          invalid_argument)
        e6 in
    record {
      some_lines = ground (arith, b);
      less_overlap = ground (arith, c);
      some_hits = ground (arith, h);
      few_hits = ground (arith, h);
      candidates_low = ground (arith, k);
      candidates_high = ground (arith, k);
    }

-- The chunker takes the lines and the overlap of the index, with its own bytes and version.
abbrev pub chunking : IndexConfig → ℕ → Bytes → ChunkingOptions
chunking i max_bytes version = record {
  max_lines = i.chunk_lines;
  overlap_lines = i.overlap_lines;
  max_bytes = max_bytes;
  version = version;
}

pub record IsUsable (config : AppConfig) : Type 1 where
  pub generation : IsModel config.generation_model
  pub embedding : IsModel config.embedding_model
  pub index : IsIndex config.index
  pub chunker :
      (max_bytes : ℕ) (version : Bytes)
      → 0 < max_bytes
      → version ≢ []
      → validate_options (chunking config.index max_bytes version) ≡ ok tt
  pub asker :
      (f : Floats) (c : Collaborators f) (b : RagPromptBudget)
      → new_ask_service f c b config.index.rerank_candidates
        ≡ ok (record {
          collaborators = c;
          budget = b;
          rerank_candidates = config.index.rerank_candidates;
        })

validate_options-chunking :
    (i : IndexConfig) (max_bytes : ℕ) (version : Bytes)
    → IsIndex i
    → 0 < max_bytes
    → version ≢ []
    → validate_options (chunking i max_bytes version) ≡ ok tt
unfolding validate_options
validate_options-chunking i max_bytes version valid some_bytes versioned =
    let overlap : leb i.chunk_lines i.overlap_lines ≡ false = ground (arith, valid.less_overlap) in
    rw (==-ne i.chunk_lines 0 (omega (arith, valid.some_lines)))
      (rw overlap (rw (==-ne max_bytes 0 (omega arith)) (rw (is_empty-ne version versioned) refl)))

new_ask_service-index :
    (f : Floats) (c : Collaborators f) (b : RagPromptBudget) (i : IndexConfig)
    → IsIndex i
    → new_ask_service f c b i.rerank_candidates
      ≡ ok (record { collaborators = c; budget = b; rerank_candidates = i.rerank_candidates })
unfolding new_ask_service
new_ask_service-index f c b i valid =
    let low : ltb i.rerank_candidates 20 ≡ false = ground (arith, valid.candidates_low) in
    let high : ltb 50 i.rerank_candidates ≡ false = ground (arith, valid.candidates_high) in
    rw (low, high) refl

-- A configuration that `validate_config` lets pass has models whose batch is positive and fits their
-- context, and an index whose overlap is smaller than its chunks, with a number of hits from 1 to 1000;
-- with them the chunker accepts its options, and an AskService is constructed without an exception.
pub validate_config-IsUsable :
    (config : AppConfig) → validate_config config ≡ ok tt → IsUsable config
unfolding validate_config
validate_config-IsUsable config e =
    let (_, g, e1) = >>=-eq-ok (validate_model config.generation_model) _ e in
    let (_, m, e2) = >>=-eq-ok (validate_model config.embedding_model) _ e1 in
    let (_, i, e3) = >>=-eq-ok (validate_index config.index) _ e2 in
    let valid = validate_index-IsIndex config.index i in
    record {
      generation = validate_model-IsModel config.generation_model g;
      embedding = validate_model-IsModel config.embedding_model m;
      index = valid;
      chunker = λ b v p q. validate_options-chunking config.index b v valid p q;
      asker = λ f c b. new_ask_service-index f c b config.index valid;
    }
