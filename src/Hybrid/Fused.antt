-- ===== src/Hybrid/Fused.antt =====
-- A hybrid retriever returns the fusion of what its sources return.
use llamacodelab.Prelude.{ℕ, max, List, [], ◌∷◌, Bytes, ◌≡◌}
use llamacodelab.Prelude.Result.{Error, ok, err}
use llamacodelab.Domain.{Floats, SearchHit, Compares, Positives}
use llamacodelab.Fusion.Laws.{IsFusion}
use llamacodelab.Hybrid.{HybridRetriever, symbol_hits}

module _ (f : Floats) (p : Positives f) (c : Compares f) (r : HybridRetriever f) (query : Bytes)
    (top_k : ℕ) where
  -- The hits are the fusion of the three rankings that the sources gave for the query.
  pub record IsHybrid (hits : List (SearchHit f)) : Type 0 where
    pub embedding : List f.Float
    pub vectors : List (SearchHit f)
    pub keywords : List (SearchHit f)
    pub symbols : List (SearchHit f)
    pub embedded : r.sources.embed query ≡ ok embedding
    pub by_vector :
        r.sources.search_vectors embedding (max top_k r.options.vector_candidates) ≡ ok vectors
    pub by_keyword :
        r.sources.search_keywords query (max top_k r.options.keyword_candidates) ≡ ok keywords
    pub by_symbol : symbol_hits f r query top_k ≡ ok symbols
    pub fused :
        IsFusion f p r.options.rrf_rank_constant (vectors ∷ keywords ∷ symbols ∷ []) top_k hits

  -- A source threw `e`.
  pub data SourceFails (e : Error) : Type 0 where
    embedding_fails : r.sources.embed query ≡ err e → SourceFails e
    vectors_fail : (v : List f.Float) (n : ℕ) → r.sources.search_vectors v n ≡ err e → SourceFails e
    keywords_fail : (n : ℕ) → r.sources.search_keywords query n ≡ err e → SourceFails e
    symbols_fail : symbol_hits f r query top_k ≡ err e → SourceFails e
