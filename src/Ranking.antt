-- ===== src/Ranking.antt =====
-- The order of hits that the retrievers share: `better` of src/adapters/vector/brute_force_index.cpp and
-- hnsw_index.cpp, and the same comparator in reciprocal_rank_fusion.cpp, symbol_graph_retriever.cpp and
-- llama_reranker.cpp; with `std::sort` and `resize`, the best `top_k` hits.
use llamacodelab.Prelude.{
  ℕ, min, Bool, true, ◌&&◌, ◌||◌, List, length, take, drop, All, length-take, take-append-drop,
  ◌++◌, ◌≡◌, ◌≢◌, arith, ltb,
}
use llamacodelab.Prelude.Sort.{
  sort, sort-perm, length-sort, IsOrdered, Orders, sort-IsOrdered, AllPairs, AllPairs-take,
  AllPairs-split,
}
use mathlib.Core.List.{Perm}
use llamacodelab.Domain.{Floats, IsNumber, Compares, SearchHit}

module _ (f : Floats) where
  -- lhs.score > rhs.score || (lhs.score == rhs.score && lhs.chunk_id < rhs.chunk_id)
  abbrev pub better : SearchHit f → SearchHit f → Bool
  better lhs rhs =
      f.less rhs.score lhs.score || (f.equal lhs.score rhs.score && ltb lhs.chunk_id rhs.chunk_id)

  unfoldable pub best : ℕ → List (SearchHit f) → List (SearchHit f)
  best top_k hits = take (min top_k (length hits)) (sort better hits)

  abbrev pub IsScored : SearchHit f → Type 0
  IsScored h = IsNumber f h.score

  abbrev pub Distinct : SearchHit f → SearchHit f → Type 0
  Distinct h i = h.chunk_id ≢ i.chunk_id

  -- `ranked` holds the best `top_k` of `hits`: with the hits left out it is a permutation of them,
  -- each hit is better than all that follow, and than all left out.
  pub record IsBest (top_k : ℕ) (hits ranked : List (SearchHit f)) : Type 0 where
    pub left_out : List (SearchHit f)
    pub same : Perm (ranked ++ left_out) hits
    pub ordered : IsOrdered better ranked
    pub above : All (λ h. All (λ i. better h i ≡ true) left_out) ranked
    pub count : length ranked ≡ min top_k (length hits)

  module _ (c : Compares f) where
    better-Orders : Orders better IsScored Distinct
    better-Orders = record {
      total = λ x y hx hy d.
          ground (arith, c.trichotomy x.score y.score hx hy, c.equal_symm x.score y.score);
      trans = λ x y z hx hy hz p q. ground (
        arith,
        c.less_trans z.score y.score x.score,
        c.less-equal z.score y.score x.score,
        c.equal-less z.score y.score x.score,
        c.equal_symm x.score y.score,
        c.equal_symm y.score z.score,
        c.equal_trans x.score y.score z.score,
      );
    }

    -- Of hits with distinct ids and scores that are numbers, `best` gives the best.
    pub best-IsBest :
        (top_k : ℕ) (hits : List (SearchHit f))
        → All IsScored hits
        → AllPairs Distinct hits
        → IsBest top_k hits (best top_k hits)
    unfolding best
    best-IsBest top_k hits scored distinct =
        let n : ℕ = min top_k (length hits) in
        let sorted = sort-IsOrdered better better-Orders hits scored distinct in
        record {
          left_out = drop n (sort better hits);
          same = rw (take-append-drop n (sort better hits)) (sort-perm better hits);
          ordered = AllPairs-take _ n (sort better hits) sorted;
          above = AllPairs-split _ n (sort better hits) sorted;
          count = omega (arith, length-take n (sort better hits), length-sort better hits);
        }
