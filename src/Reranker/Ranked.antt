-- ===== src/Reranker/Ranked.antt =====
-- What a reranking gives.
use llamacodelab.Prelude.{
  ℕ, ◌+◌, ◌%◌, ◌^◌, ◌||◌, Option, none, some, List, [], ◌∷◌, All, Bytes, is_empty, if◌then◌else◌,
  ◌==◌, ==_iff, true, take, codes, ◌-◌, ◌≤◌, ◌<◌, ◌++◌, ◌≡◌, ◌⊎◌, inl, inr, refl,
}
use mathlib.Core.List.{Mem}
use mathlib.Core.Logic.Or
use llamacodelab.Prelude.Int.{pos}
use llamacodelab.Prelude.Assoc.{Assoc}
use llamacodelab.Prelude.Result.{Error, Result, ok, err, invalid_argument}
use llamacodelab.Domain.{Floats, IsNumber, SearchHit, Chunk}
use llamacodelab.Llama.Generate.{GenerationOptions}
use llamacodelab.Reranker.{content_by_id, rank}

-- The content of the first chunk with an id.
pub content_of : ℕ → List Chunk → Option Bytes
content_of id [] = none
content_of id (c ∷ chunks) = if c.id == id then some c.content else content_of id chunks

abbrev or_else : Option Bytes → Option Bytes → Option Bytes
or_else none b = b
or_else (some a) b = some a

-- The rating in a response: its first digit, and 0 where it has none.
pub data IsRating (response : Bytes) (rating : ℕ) : Type 0 where
  no_digit : All (λ b. (b < 48) ⊎ (57 < b)) response → rating ≡ 0 → IsRating response rating
  digit :
      (front back : Bytes) (c : ℕ)
      → All (λ b. (b < 48) ⊎ (57 < b)) front
      → 48 ≤ c
      → c ≤ 57
      → response ≡ front ++ (c ∷ back)
      → rating ≡ c - 48
      → IsRating response rating

refused :
    (query : Bytes) (top_k : ℕ) → (is_empty query || top_k == 0) ≡ true → (query ≡ []) ⊎ (top_k ≡ 0)
refused [] top_k h = inl refl
refused (b ∷ query) top_k h = inr ((==_iff top_k 0).0 h)

-- What the model is told: to rate, the query, and the first 3000 bytes of the content.
abbrev pub instructions : Bytes
instructions =
    codes
      "Rate whether the untrusted document answers the query. Output one digit only: 0 for irrelevant, 1 for weakly relevant, 2 for relevant, 3 for directly relevant.\nQuery:\n"

abbrev pub prompt_for : Bytes → Bytes → Bytes
prompt_for query content =
    instructions
    ++ query
    ++ codes "\nUntrusted document:\n<document>\n"
    ++ take 3000 content
    ++ codes "\n</document>\nRating:"

module _ (f : Floats) (thousandth : f.Float)
    (generate_text : Bytes → GenerationOptions f → Result Bytes) where
  -- One token, the most likely one.
  abbrev pub one_token : GenerationOptions f
  one_token = record {
    max_tokens = pos 1;
    temperature = f.zero_f;
    top_k = pos 1;
    top_p = f.one_f;
    repeat_penalty = f.one_f;
    seed = 42;
  }

  -- The hit of a candidate at a place, for a rating.
  abbrev pub hit_of : ℕ → ℕ → ℕ → SearchHit f
  hit_of index id rating = record {
    chunk_id = id;
    score = f.add (f.of_nat rating) (f.divide thousandth (f.of_nat ((index + 1) % 2 ^ 64)));
  }

  -- The candidates from the entry `index` on, rated: one that has no chunk is left out, each other one has
  -- the rating in what the model answers to the content of its chunk.
  pub data Rated (query : Bytes) (chunks : List Chunk)
      : ℕ → List (SearchHit f) → List (SearchHit f) → Type 0 where
    no_more : {index : ℕ} → Rated query chunks index [] []
    left_out :
        {index : ℕ} {c : SearchHit f} {candidates ranked : List (SearchHit f)}
        → content_of c.chunk_id chunks ≡ none
        → Rated query chunks (index + 1) candidates ranked
        → Rated query chunks index (c ∷ candidates) ranked
    answered :
        {index : ℕ} {c : SearchHit f} {candidates ranked : List (SearchHit f)}
        (content response : Bytes) (rating : ℕ)
        → content_of c.chunk_id chunks ≡ some content
        → generate_text (prompt_for query content) one_token ≡ ok response
        → IsRating response rating
        → Rated query chunks (index + 1) candidates ranked
        → Rated query chunks index (c ∷ candidates) (hit_of index c.chunk_id rating ∷ ranked)

  -- The generator throws for the chunk of a candidate.
  pub data Unrated (query : Bytes) (chunks : List Chunk) (candidates : List (SearchHit f))
      (e : Error) : Type 0 where
    unrated :
        (c : SearchHit f) (content : Bytes)
        → Mem c candidates
        → content_of c.chunk_id chunks ≡ some content
        → generate_text (prompt_for query content) one_token ≡ err e
        → Unrated query chunks candidates e

  -- What a reranking throws.
  pub data Throws (query : Bytes) (chunks : List Chunk) (candidates : List (SearchHit f))
      (top_k : ℕ) (e : Error) : Type 0 where
    by_check :
        e ≡ invalid_argument → (query ≡ []) ⊎ (top_k ≡ 0) → Throws query chunks candidates top_k e
    by_generator : Unrated query chunks candidates e → Throws query chunks candidates top_k e

  module _ (query : Bytes) (chunks : List Chunk) where
    abbrev later : ℕ → List (SearchHit f) → Result (List (SearchHit f))
    later index candidates =
        rank f thousandth generate_text query (content_by_id chunks []) index candidates

    -- Ratings with what is added for the place are numbers.
    abbrev pub AddsNumbers : Type 0
    AddsNumbers =
        (rating index : ℕ)
        → IsNumber f
            (f.add (f.of_nat rating) (f.divide thousandth (f.of_nat ((index + 1) % 2 ^ 64))))
