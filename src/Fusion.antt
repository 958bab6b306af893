-- ===== src/Fusion.antt =====
-- src/application/reciprocal_rank_fusion.cpp: lists of hits fused by the sum of reciprocal ranks.
pub mod Scores
pub mod Laws
mod Tests
use llamacodelab.Prelude.{
  ℕ, suc, ◌+◌, ◌%◌, ◌^◌, Option, none, some, List, [], ◌∷◌, map, if◌then◌else◌, ◌==◌,
}
use llamacodelab.Prelude.Result.{Result, ok, err, invalid_argument}
use llamacodelab.Prelude.Assoc.{Assoc, find, assign}
use llamacodelab.Domain.{Floats, SearchHit}
use llamacodelab.Ranking.{best}

module _ (f : Floats) where
  open f use {Float, zero_f, one_f, add, divide, of_nat}

  -- scores[id] += x: operator[] makes a missing entry 0
  pub add_score : ℕ → Float → Assoc Float → Assoc Float
  add_score id x scores = elim (find id scores) [
    | none ↦ assign id (add zero_f x) scores
    | some s ↦ assign id (add s x) scores
  ]

  -- 1.0F / static_cast<float>(rank_constant + index + 1U), in the arithmetic of std::size_t
  pub contribution : ℕ → ℕ → Float
  contribution rank_constant index = divide one_f (of_nat ((rank_constant + index + 1) % 2 ^ 64))

  -- The loop over one list, from the entry `index` on.
  accumulate : ℕ → ℕ → List (SearchHit f) → Assoc Float → Assoc Float
  accumulate rank_constant index [] scores = scores
  accumulate rank_constant index (hit ∷ hits) scores =
      accumulate rank_constant (index + 1) hits
        (add_score hit.chunk_id (contribution rank_constant index) scores)

  pub accumulate_lists : ℕ → List (List (SearchHit f)) → Assoc Float → Assoc Float
  accumulate_lists rank_constant [] scores = scores
  accumulate_lists rank_constant (hits ∷ lists) scores =
      accumulate_lists rank_constant lists (accumulate rank_constant 0 hits scores)

  abbrev pub to_hit : ℕ × Float → SearchHit f
  to_hit (id, s) = record { chunk_id = id; score = s }

  -- The scores of all lists, as hits.
  pub fused : ℕ → List (List (SearchHit f)) → List (SearchHit f)
  fused rank_constant lists = map to_hit (accumulate_lists rank_constant lists [])

  pub reciprocal_rank_fuse : List (List (SearchHit f)) → ℕ → ℕ → Result (List (SearchHit f))
  reciprocal_rank_fuse ranked_lists top_k rank_constant =
      if top_k == 0
      then ok []
      else if rank_constant == 0
      then err invalid_argument
      else ok (best f top_k (fused rank_constant ranked_lists))

  -- The overload for a vector ranking and a keyword ranking.
  pub reciprocal_rank_fuse_two :
      List (SearchHit f) → List (SearchHit f) → ℕ → ℕ → Result (List (SearchHit f))
  reciprocal_rank_fuse_two vector_hits keyword_hits top_k rank_constant =
      if top_k == 0
      then ok []
      else if rank_constant == 0
      then err invalid_argument
      else reciprocal_rank_fuse (vector_hits ∷ keyword_hits ∷ []) top_k rank_constant
