-- ===== src/Fusion/Laws.antt =====
-- The fused ranking: what it holds, with which scores, and in which order.
use mathlib.Core.List.{Mem, mem-map_of_mem}
use llamacodelab.Prelude.{
  ℕ, ◌+◌, ◌%◌, ◌^◌, ◌<◌, ◌≡◌, Option, none, some, List, [], ◌∷◌, map, arith, All, All-imp, sym, ◌∙◌,
  true, Option-cases, inl, inr, ==-ne,
}
use llamacodelab.Prelude.Result.{ok}
use llamacodelab.Prelude.Assoc.{
  Assoc, find, DistinctKeys, assign-DistinctKeys, All-assign, find_entries, mem-find,
}
use llamacodelab.Prelude.Sort.{AllPairs}
use llamacodelab.Domain.{Floats, SearchHit, Compares, Positives}
use llamacodelab.Ranking.{best, IsScored, Distinct, IsBest, best-IsBest}
use llamacodelab.Fusion.{
  add_score, contribution, accumulate, accumulate_lists, fused, to_hit, reciprocal_rank_fuse,
}
use llamacodelab.Fusion.Scores.{all_places, sum_onto, find-scores}

module _ (f : Floats) where
  open f use {Float, zero_f, less, add}

  -- The score that the lists give to `id`, if it is in any.
  unfoldable pub rrf_score : ℕ → List (List (SearchHit f)) → ℕ → Option Float
  rrf_score rank_constant lists id = sum_onto f none (all_places f rank_constant id lists)

  pub add_score-DistinctKeys :
      (id : ℕ) (x : Float) (scores : Assoc Float)
      → DistinctKeys scores
      → DistinctKeys (add_score f id x scores)
  unfolding add_score
  add_score-DistinctKeys id x scores d = elim (Option-cases (find id scores)) [
    | inl e ↦ rw (e, add_score) (assign-DistinctKeys id _ scores d)
    | inr (s, e) ↦ rw (e, add_score) (assign-DistinctKeys id _ scores d)
  ]

  accumulate-DistinctKeys :
      (rank_constant index : ℕ) (hits : List (SearchHit f)) (scores : Assoc Float)
      → DistinctKeys scores
      → DistinctKeys (accumulate f rank_constant index hits scores)
  unfolding accumulate
  accumulate-DistinctKeys rank_constant index [] scores d = d
  accumulate-DistinctKeys rank_constant index (hit ∷ hits) scores d =
      accumulate-DistinctKeys rank_constant (index + 1) hits _ (add_score-DistinctKeys _ _ scores d)

  scores-DistinctKeys :
      (rank_constant : ℕ) (lists : List (List (SearchHit f))) (scores : Assoc Float)
      → DistinctKeys scores
      → DistinctKeys (accumulate_lists f rank_constant lists scores)
  unfolding accumulate_lists
  scores-DistinctKeys rank_constant [] scores d = d
  scores-DistinctKeys rank_constant (hits ∷ lists) scores d =
      scores-DistinctKeys rank_constant lists _
        (accumulate-DistinctKeys rank_constant 0 hits scores d)

  pub All-to_hit :
      (P : SearchHit f → Type 0) (m : Assoc Float)
      → All (λ (e : ℕ × Float). P (to_hit f e)) m
      → All P (map (to_hit f) m)
  All-to_hit P [] h = tt
  All-to_hit P (e ∷ m) h = (h.0, All-to_hit P m h.1)

  pub AllPairs-to_hit :
      (m : Assoc Float) → DistinctKeys m → AllPairs (Distinct f) (map (to_hit f) m)
  AllPairs-to_hit [] d = tt
  AllPairs-to_hit (e ∷ m) d = (All-to_hit (Distinct f (to_hit f e)) m d.0, AllPairs-to_hit m d.1)

  fused-Distinct :
      (rank_constant : ℕ) (lists : List (List (SearchHit f)))
      → AllPairs (Distinct f) (fused f rank_constant lists)
  unfolding fused
  fused-Distinct rank_constant lists =
      AllPairs-to_hit _ (scores-DistinctKeys rank_constant lists [] tt)

  -- A hit among the fused ones has the score that the lists give to its chunk.
  abbrev pub HasRrfScore : ℕ → List (List (SearchHit f)) → SearchHit f → Type 0
  HasRrfScore rank_constant lists h = rrf_score rank_constant lists h.chunk_id ≡ some h.score

  fused-HasRrfScore :
      (rank_constant : ℕ) (lists : List (List (SearchHit f)))
      → All (HasRrfScore rank_constant lists) (fused f rank_constant lists)
  unfolding fused rrf_score
  fused-HasRrfScore rank_constant lists = All-to_hit (HasRrfScore rank_constant lists) _ (
      All-imp (λ e h. sym (find-scores f rank_constant lists e.0) ∙ h) _
        (find_entries _ (scores-DistinctKeys rank_constant lists [] tt)))

  pub mem-fused :
      (rank_constant : ℕ) (lists : List (List (SearchHit f))) (id : ℕ) (s : Float)
      → rrf_score rank_constant lists id ≡ some s
      → Mem (record { chunk_id = id; score = s }) (fused f rank_constant lists)
  unfolding fused rrf_score
  mem-fused rank_constant lists id s e =
      mem-map_of_mem (to_hit f) (mem-find id s _ (find-scores f rank_constant lists id ∙ e))

  module _ (p : Positives f) where
    abbrev pub IsPositive : ℕ × Float → Type 0
    IsPositive e = less zero_f e.1 ≡ true

    contribution-positive :
        (rank_constant index : ℕ) → less zero_f (contribution f rank_constant index) ≡ true
    unfolding contribution
    contribution-positive rank_constant index =
        p.reciprocal_positive ((rank_constant + index + 1) % 2 ^ 64) (omega arith)

    positive_entry :
        (id : ℕ) (s : Float) (m : Assoc Float)
        → All IsPositive m
        → find id m ≡ some s
        → less zero_f s ≡ true
    unfolding find
    positive_entry id s [] h e = cc
    positive_entry id s ((j, w) ∷ m) h e = ground (arith, positive_entry id s m h.1, h.0)

    pub add_score-IsPositive :
        (id : ℕ) (x : Float) (scores : Assoc Float)
        → less zero_f x ≡ true
        → All IsPositive scores
        → All IsPositive (add_score f id x scores)
    unfolding add_score
    add_score-IsPositive id x scores px h = elim (Option-cases (find id scores)) [
      | inl e ↦ rw (e, add_score) (All-assign IsPositive id _ scores (p.add_zero x px) h)
      | inr (s, e) ↦
          rw (e, add_score)
            (All-assign IsPositive id _ scores
              (p.add_positive s x (positive_entry id s scores h e) px) h)
    ]

    accumulate-IsPositive :
        (rank_constant index : ℕ) (hits : List (SearchHit f)) (scores : Assoc Float)
        → All IsPositive scores
        → All IsPositive (accumulate f rank_constant index hits scores)
    unfolding accumulate
    accumulate-IsPositive rank_constant index [] scores h = h
    accumulate-IsPositive rank_constant index (hit ∷ hits) scores h =
        accumulate-IsPositive rank_constant (index + 1) hits _
          (add_score-IsPositive _ _ scores (contribution-positive rank_constant index) h)

    scores-IsPositive :
        (rank_constant : ℕ) (lists : List (List (SearchHit f))) (scores : Assoc Float)
        → All IsPositive scores
        → All IsPositive (accumulate_lists f rank_constant lists scores)
    unfolding accumulate_lists
    scores-IsPositive rank_constant [] scores h = h
    scores-IsPositive rank_constant (hits ∷ lists) scores h =
        scores-IsPositive rank_constant lists _
          (accumulate-IsPositive rank_constant 0 hits scores h)

    fused-IsScored :
        (rank_constant : ℕ) (lists : List (List (SearchHit f)))
        → All (IsScored f) (fused f rank_constant lists)
    unfolding fused
    fused-IsScored rank_constant lists =
        All-to_hit (IsScored f) _
          (All-imp (λ e h. p.positive_number e.1 h) _ (scores-IsPositive rank_constant lists [] tt))

    -- One hit for each chunk that the lists name, with the sum of its reciprocal ranks, and of these
    -- hits the best.
    pub record IsFusion (rank_constant : ℕ) (lists : List (List (SearchHit f))) (top_k : ℕ)
        (ranked : List (SearchHit f)) : Type 0 where
      pub hits : List (SearchHit f)
      pub distinct : AllPairs (Distinct f) hits
      pub scored : All (HasRrfScore rank_constant lists) hits
      pub complete :
          (id : ℕ) (s : Float)
          → rrf_score rank_constant lists id ≡ some s
          → Mem (record { chunk_id = id; score = s }) hits
      pub ranks : IsBest f top_k hits ranked

    -- Where numbers compare and add as IEEE 754 says, for a positive `top_k` and rank constant a fusion
    -- succeeds with the best `top_k` of these hits: one for each chunk that stands in a list, with the
    -- sum, in order, of 1 / (rank_constant + place) over its places in the lists, and no other.
    pub reciprocal_rank_fuse-IsFusion :
        Compares f
        → (lists : List (List (SearchHit f))) (top_k rank_constant : ℕ) → 0 < top_k
        → 0 < rank_constant
        → (ranked : List (SearchHit f)) × (reciprocal_rank_fuse f lists top_k rank_constant
            ≡ ok ranked)
          × IsFusion rank_constant lists top_k ranked
    unfolding reciprocal_rank_fuse
    reciprocal_rank_fuse-IsFusion c lists top_k rank_constant positive constant =
        let hits = fused f rank_constant lists in
        (
          best f top_k hits,
          rw (==-ne top_k 0 (omega arith)) (rw (==-ne rank_constant 0 (omega arith))),
          record {
            hits = hits;
            distinct = fused-Distinct rank_constant lists;
            scored = fused-HasRrfScore rank_constant lists;
            complete = mem-fused rank_constant lists;
            ranks =
                best-IsBest f c top_k hits (fused-IsScored rank_constant lists)
                  (fused-Distinct rank_constant lists);
          },
        )
