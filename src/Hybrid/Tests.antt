-- ===== src/Hybrid/Tests.antt =====
-- A retriever without symbols over fixed rankings.
use llamacodelab.Prelude.{none, [], ◌∷◌, ◌≡◌, refl, ℕ}
use llamacodelab.Prelude.Result.{ok, err, invalid_argument}
use llamacodelab.Domain.{SearchHit}
use llamacodelab.Domain.Millionths.{millionths}
use llamacodelab.Hybrid.{HybridRetriever, new_hybrid_retriever, vector_retrieve}

abbrev hit : ℕ → SearchHit millionths
hit id = record { chunk_id = id; score = 3 }

abbrev retriever : HybridRetriever millionths
retriever = record {
  sources = record {
    embed = λ q. ok (1 ∷ []);
    search_vectors = λ v n. ok (hit 7 ∷ hit 5 ∷ []);
    search_keywords = λ q n. ok (hit 5 ∷ []);
    search_symbols = none;
  };
  options = record { vector_candidates = 30; keyword_candidates = 30; rrf_rank_constant = 60 };
}

no_query : vector_retrieve millionths retriever.sources [] 3 ≡ err invalid_argument
unfolding vector_retrieve
no_query = refl

zero_constant :
    new_hybrid_retriever millionths retriever.sources
      (record { vector_candidates = 30; keyword_candidates = 30; rrf_rank_constant = 0 })
    ≡ err invalid_argument
unfolding new_hybrid_retriever
zero_constant = refl
