-- ===== src/Hybrid.antt =====
-- include/llamacodelab/application/hybrid_retriever.hpp and src/application/hybrid_retriever.cpp: the
-- retrievers. Embedder, vector index, keyword searcher and symbol retriever are parameters, which may
-- throw.
pub mod Fused
mod Tests
use llamacodelab.Prelude.{
  ℕ, max, Bool, ◌||◌, Option, none, some, List, [], ◌∷◌, ◌==◌, Bytes, is_empty,
}
use llamacodelab.Prelude.Result.{Result, ok, invalid_argument, throw_if, ◌>>=◌, ◌>>◌}
use llamacodelab.Domain.{Floats, SearchHit}
use llamacodelab.Fusion.{reciprocal_rank_fuse}

pub record HybridRetrievalOptions : Type 0 where
  pub vector_candidates : ℕ
  pub keyword_candidates : ℕ
  pub rrf_rank_constant : ℕ

module _ (f : Floats) where
  -- `embed` is that of a query; `search_symbols` is the symbol retriever, if there is one.
  pub record Sources : Type 0 where
    pub embed : Bytes → Result (List f.Float)
    pub search_vectors : List f.Float → ℕ → Result (List (SearchHit f))
    pub search_keywords : Bytes → ℕ → Result (List (SearchHit f))
    pub search_symbols : Option (Bytes → ℕ → Result (List (SearchHit f)))

  pub vector_retrieve : Sources → Bytes → ℕ → Result (List (SearchHit f))
  vector_retrieve sources query top_k = do
    throw_if (is_empty query || top_k == 0) invalid_argument
    embedding ← sources.embed query
    sources.search_vectors embedding top_k

  pub record HybridRetriever : Type 0 where
    pub sources : Sources
    pub options : HybridRetrievalOptions

  pub new_hybrid_retriever : Sources → HybridRetrievalOptions → Result HybridRetriever
  new_hybrid_retriever sources options = do
    throw_if
        (options.vector_candidates == 0
          || options.keyword_candidates == 0
          || options.rrf_rank_constant == 0)
        invalid_argument
    ok (record { sources = sources; options = options })

  pub symbol_hits : HybridRetriever → Bytes → ℕ → Result (List (SearchHit f))
  symbol_hits r query top_k = elim r.sources.search_symbols [
    | none ↦ ok []
    | some retrieve ↦ retrieve query top_k
  ]

  pub hybrid_retrieve : HybridRetriever → Bytes → ℕ → Result (List (SearchHit f))
  hybrid_retrieve r query top_k = do
    throw_if (is_empty query || top_k == 0) invalid_argument
    embedding ← r.sources.embed query
    vector_hits ← r.sources.search_vectors embedding (max top_k r.options.vector_candidates)
    keyword_hits ← r.sources.search_keywords query (max top_k r.options.keyword_candidates)
    symbols ← symbol_hits r query top_k
    reciprocal_rank_fuse f (vector_hits ∷ keyword_hits ∷ symbols ∷ []) top_k
        r.options.rrf_rank_constant
