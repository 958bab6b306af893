-- ===== src/BruteForce/Search.antt =====
-- `search` returns the best hits among all the records.
use llamacodelab.Prelude.{
  ℕ, suc, ◌+◌, ◌<◌, true, Option, some, List, [], ◌∷◌, length, ◌≡◌, ◌≢◌, refl, sym, ◌∙◌, ap, arith,
  All, ==_iff, ==-ne,
}
use llamacodelab.Prelude.Result.{ok}
use llamacodelab.Prelude.Assoc
use llamacodelab.Prelude.Sort.{AllPairs}
use llamacodelab.Domain.{Floats, SearchHit, Compares}
use llamacodelab.Similarity.{Embedding, is_finite_embedding, inner_product, dot_product}
use llamacodelab.Ranking.{best, IsScored, Distinct, IsBest, best-IsBest}
use llamacodelab.BruteForce.{VectorRecord, BruteForceIndex, scores, search}
use llamacodelab.BruteForce.Invariant.{column, id_at, IsShaped, IsValid}

module _ (f : Floats) where
  -- Every record with its score.
  unfoldable pub scored : Embedding f → List (VectorRecord f) → List (SearchHit f)
  scored query [] = []
  scored query (r ∷ rs) =
      record { chunk_id = r.id; score = inner_product f query r.values f.zero_f } ∷ scored query rs

  scores-scored :
      (query : Embedding f) (dim : ℕ) (rs : List (VectorRecord f))
      → length query ≡ dim
      → is_finite_embedding f query ≡ true
      → All (IsShaped f dim) rs
      → scores f query rs ≡ ok (scored query rs)
  unfolding scores scored dot_product
  scores-scored query dim [] l n h = refl
  scores-scored query dim (r ∷ rs) l n h =
      rw ((==_iff (length query) (length r.values)).1 (l ∙ sym h.0.0))
        (rw (n, h.0.1) (rw (scores-scored query dim rs l n h.1)))

  All-scored :
      (P : ℕ → Type 0) (query : Embedding f) (rs : List (VectorRecord f))
      → All (λ (r : VectorRecord f). P r.id) rs
      → All (λ (h : SearchHit f). P h.chunk_id) (scored query rs)
  unfolding scored
  All-scored P query [] h = tt
  All-scored P query (r ∷ rs) h = (h.0, All-scored P query rs h.1)

  abbrev Places : (ℕ → Option ℕ) → ℕ → List (VectorRecord f) → Type 0
  Places place k rs = (j i : ℕ) → id_at f rs i ≡ some j → place j ≡ some (k + i)

  Places-tail :
      (place : ℕ → Option ℕ) (k : ℕ) (r : VectorRecord f) (rs : List (VectorRecord f))
      → Places place k (r ∷ rs)
      → Places place (k + 1) rs
  unfolding column
  Places-tail place k r rs h j i e = ground (arith, h j (suc i) e)

  apart :
      (place : ℕ → Option ℕ) (id p k : ℕ) (rs : List (VectorRecord f))
      → p < k
      → place id ≡ some p
      → Places place k rs
      → All (λ (r : VectorRecord f). id ≢ r.id) rs
  unfolding column
  apart place id p k [] lt e h = tt
  apart place id p k (r ∷ rs) lt e h = (
    λ same. ground (arith, h r.id 0 refl, same),
    apart place id p (k + 1) rs (omega arith) e (Places-tail place k r rs h),
  )

  scored-Distinct :
      (place : ℕ → Option ℕ) (k : ℕ) (query : Embedding f) (rs : List (VectorRecord f))
      → Places place k rs
      → AllPairs (Distinct f) (scored query rs)
  unfolding scored column
  scored-Distinct place k query [] h = tt
  scored-Distinct place k query (r ∷ rs) h = (
    All-scored (λ j. r.id ≢ j) query rs
        (apart place r.id (k + 0) (k + 1) rs (omega arith) (h r.id 0 refl)
          (Places-tail place k r rs h)),
    scored-Distinct place (k + 1) query rs (Places-tail place k r rs h),
  )

  -- In a valid index a finite query of its dimension finds the best `top_k` of all the records, where
  -- no score is NaN.
  pub search-IsBest :
      Compares f
      → (x : BruteForceIndex f) (query : Embedding f) (top_k : ℕ) → IsValid f x
      → 0 < top_k
      → length query ≡ x.dim
      → is_finite_embedding f query ≡ true
      → All (IsScored f) (scored query x.records)
      → (ranked : List (SearchHit f)) × (search f query top_k x ≡ ok ranked)
        × IsBest f top_k (scored query x.records) ranked
  unfolding search
  search-IsBest c x query top_k valid positive l n numbers = (
    best f top_k (scored query x.records),
    rw (==-ne top_k 0 (omega arith)) (
        rw ((==_iff (length query) x.dim).1 l)
          (rw n (rw (scores-scored query x.dim x.records l n valid.shaped)))),
    best-IsBest f c top_k _ numbers (
        scored-Distinct (λ j. Assoc.find j x.positions) 0 query x.records
          (λ j i e. valid.indexed j i e ∙ ap some (omega arith))),
  )
