-- ===== src/Reranker.antt =====
-- src/adapters/llama/llama_reranker.cpp: hits ranked again by ratings that a model gives. The generator is
-- a parameter: the text that it gives for a prompt and options; so is the float 0.001F.
pub mod Ranked
mod Tests
use llamacodelab.Prelude.{
  ℕ, ◌+◌, ◌-◌, ◌%◌, ◌^◌, Bool, true, false, ◌&&◌, ◌||◌, Option, none, some, List, [], ◌∷◌, ◌++◌,
  take, if◌then◌else◌, leb, ◌==◌, Bytes, codes, is_empty,
}
use llamacodelab.Prelude.Int.{pos}
use llamacodelab.Prelude.Assoc.{Assoc, find, emplace}
use llamacodelab.Prelude.Result.{Result, ok, err, invalid_argument, throw_if, ◌>>=◌, ◌>>◌}
use llamacodelab.Domain.{Floats, SearchHit, Chunk}
use llamacodelab.Ranking.{best}
use llamacodelab.Llama.Generate.{GenerationOptions}

abbrev pub maximum_document_characters : ℕ
maximum_document_characters = 3000

pub relevance_prompt : Bytes → Bytes → Bytes
relevance_prompt query content =
    codes
      "Rate whether the untrusted document answers the query. Output one digit only: 0 for irrelevant, 1 for weakly relevant, 2 for relevant, 3 for directly relevant.\nQuery:\n"
    ++ query
    ++ codes "\nUntrusted document:\n<document>\n"
    ++ take maximum_document_characters content
    ++ codes "\n</document>\nRating:"

-- std::isdigit
abbrev pub is_digit : ℕ → Bool
is_digit c = leb 48 c && leb c 57

-- The number of the first digit, and else 0.
pub rating_of : Bytes → ℕ
rating_of [] = 0
rating_of (c ∷ response) = if is_digit c then c - 48 else rating_of response

-- The loop over the chunks.
pub content_by_id : List Chunk → Assoc Bytes → Assoc Bytes
content_by_id [] contents = contents
content_by_id (c ∷ chunks) contents = content_by_id chunks (emplace c.id c.content contents)

module _ (f : Floats) (thousandth : f.Float)
    (generate_text : Bytes → GenerationOptions f → Result Bytes) where
  abbrev pub rating_options : GenerationOptions f
  rating_options = record {
    max_tokens = pos 1;
    temperature = f.zero_f;
    top_k = pos 1;
    top_p = f.one_f;
    repeat_penalty = f.one_f;
    seed = 42;
  }

  -- rating_of(response) + 0.001F / static_cast<float>(index + 1U)
  abbrev pub rated : ℕ → ℕ → Bytes → SearchHit f
  rated index id response = record {
    chunk_id = id;
    score =
        f.add (f.of_nat (rating_of response))
          (f.divide thousandth (f.of_nat ((index + 1) % 2 ^ 64)));
  }

  -- The loop over the candidates, from the entry `index` on.
  pub rank : Bytes → Assoc Bytes → ℕ → List (SearchHit f) → Result (List (SearchHit f))
  rank query contents index [] = ok []
  rank query contents index (c ∷ candidates) = elim (find c.chunk_id contents) [
    | none ↦ rank query contents (index + 1) candidates
    | some content ↦ do
      response ← generate_text (relevance_prompt query content) rating_options
      ranked ← rank query contents (index + 1) candidates
      ok (rated index c.chunk_id response ∷ ranked)
  ]

  pub rerank : Bytes → List (SearchHit f) → List Chunk → ℕ → Result (List (SearchHit f))
  rerank query candidates chunks top_k = do
    throw_if (is_empty query || top_k == 0) invalid_argument
    ranked ← rank query (content_by_id chunks []) 0 candidates
    ok (best f top_k ranked)
