-- ===== src/Rag/Ask.antt =====
-- include/llamacodelab/application/ask_service.hpp and src/application/ask_service.cpp: a question is
-- answered from what the retriever finds, with citations. The retriever, the repository, the reranker and
-- the generator are the interfaces of include/llamacodelab/domain: parameters, which may throw. The
-- generator's callback is `tee`, so what it passes on is a list of pieces.
pub mod Sources
pub mod Grounded
mod Tests
use mathlib.Core.List.{map}
use llamacodelab.Prelude.{
  ℕ, ◌+◌, max, Bool, false, not, ◌&&◌, ◌||◌, Option, none, some, List, [], ◌∷◌, ◌++◌, length, ltb,
  ◌==◌, Bytes, codes, is_empty, to_string, contains,
}
use llamacodelab.Prelude.Result.{Result, ok, invalid_argument, runtime_error, throw_if, ◌>>=◌, ◌>>◌}
use llamacodelab.Prelude.Assoc.{Assoc, find, emplace}
use llamacodelab.Domain.{Floats, SearchHit, SourceRange, Chunk}
use llamacodelab.Rag.{RagPromptBudget, RagSource, BuiltRagPrompt, build_rag}

-- answer.find("[" + source_id + "]") != npos
pub answer_cites : Bytes → Bytes → Bool
answer_cites answer source_id = contains answer (codes "[" ++ source_id ++ codes "]")

-- What the callback has appended to `answer`.
abbrev pub teed : List Bytes → Bytes
teed [] = []
teed (piece ∷ pieces) = piece ++ teed pieces

-- `by_id`: emplace keeps the first chunk of an id.
pub index_chunks : List Chunk → Assoc Chunk → Assoc Chunk
index_chunks [] by_id = by_id
index_chunks (c ∷ chunks) by_id = index_chunks chunks (emplace c.id c by_id)

-- The counts of a GenerationStats; its times are measurements.
pub record GenerationStats : Type 0 where
  pub prompt_tokens : ℕ
  pub generated_tokens : ℕ

module _ (f : Floats) where
  pub record Citation : Type 0 where
    pub source_id : Bytes
    pub source : SourceRange
    pub retrieval_score : f.Float

  pub record AskResult : Type 0 where
    pub answer : Bytes
    pub citations : List Citation
    pub generation : GenerationStats
    pub prompt_tokens : ℕ
    pub skipped_sources : ℕ
    pub citations_valid : Bool

  -- IRetriever, IChunkRepository, IReranker (or none), ITextGenerator with its options and stop token.
  pub record Collaborators : Type 0 where
    pub retrieve : Bytes → ℕ → Result (List (SearchHit f))
    pub get_many : List ℕ → Result (List Chunk)
    pub rerank : Option (Bytes → List (SearchHit f) → List Chunk → ℕ → Result (List (SearchHit f)))
    pub count_tokens : Bytes → Result ℕ
    pub generate : Bytes → Result (List Bytes × GenerationStats)

  pub record AskService : Type 0 where
    pub collaborators : Collaborators
    pub budget : RagPromptBudget
    pub rerank_candidates : ℕ

  unfoldable pub new_ask_service : Collaborators → RagPromptBudget → ℕ → Result AskService
  new_ask_service collaborators budget rerank_candidates = do
    throw_if (ltb rerank_candidates 20 || ltb 50 rerank_candidates) invalid_argument
    ok (record {
      collaborators = collaborators;
      budget = budget;
      rerank_candidates = rerank_candidates;
    })

  -- The loop that numbers the sources.
  pub number_sources : Assoc Chunk → List (SearchHit f) → List (RagSource f) → List (RagSource f)
  number_sources by_id [] sources = sources
  number_sources by_id (hit ∷ hits) sources = elim (find hit.chunk_id by_id) [
    | none ↦ number_sources by_id hits sources
    | some chunk ↦ number_sources by_id hits (
        sources
        ++ (record {
          id = codes "S" ++ to_string (length sources + 1);
          chunk = chunk;
          score = hit.score;
        }
            ∷ []))
  ]

  abbrev pub cite : RagSource f → Citation
  cite s = record { source_id = s.id; source = s.chunk.source; retrieval_score = s.score }

  -- The loop over the retained sources, for `citations_valid`.
  pub all_cited : Bytes → List (RagSource f) → Bool → Bool
  all_cited answer [] valid = valid
  all_cited answer (s ∷ sources) valid =
      all_cited answer sources (valid && answer_cites answer s.id)

  pub retrieval_count : AskService → ℕ → ℕ
  retrieval_count service top_k = elim service.collaborators.rerank [
    | none ↦ top_k
    | some _ ↦ max top_k service.rerank_candidates
  ]

  pub reranked :
      AskService → Bytes → List (SearchHit f) → List Chunk → ℕ → Result (List (SearchHit f))
  reranked service question hits chunks top_k = elim service.collaborators.rerank [
    | none ↦ ok hits
    | some rerank ↦ rerank question hits chunks top_k
  ]

  -- From the sources on.
  pub answer_from : AskService → Bytes → List (RagSource f) → Result AskResult
  answer_from service question sources = do
    throw_if (is_empty sources) runtime_error
    prompt ← build_rag f service.collaborators.count_tokens question sources service.budget
    generated ← service.collaborators.generate prompt.text
    ok (record {
      answer = teed generated.0;
      citations = map cite prompt.retained_sources;
      generation = generated.1;
      prompt_tokens = prompt.token_count;
      skipped_sources = prompt.skipped_sources;
      citations_valid =
          all_cited (teed generated.0) prompt.retained_sources
            (not (is_empty prompt.retained_sources));
    })

  -- `has_callback` is `on_token` as a Boolean.
  pub ask : AskService → Bytes → ℕ → Bool → Result AskResult
  ask service question top_k has_callback = do
    throw_if (is_empty question || top_k == 0 || not has_callback) invalid_argument
    hits ← service.collaborators.retrieve question (retrieval_count service top_k)
    throw_if (is_empty hits) runtime_error
    chunks ← service.collaborators.get_many (map (λ h. h.chunk_id) hits)
    ranked ← reranked service question hits chunks top_k
    answer_from service question (number_sources (index_chunks chunks []) ranked [])
