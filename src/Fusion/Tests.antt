-- ===== src/Fusion/Tests.antt =====
-- A fusion of two lists over numbers of millionths.
use llamacodelab.Prelude.{ℕ, List, [], ◌∷◌, ◌≡◌, refl, arith}
use llamacodelab.Prelude.Result.{ok}
use llamacodelab.Prelude.Sort.{sort}
use llamacodelab.Prelude.Assoc.{find, assign}
use llamacodelab.Domain.{SearchHit}
use llamacodelab.Domain.Millionths.{millionths, millionths-Compares, millionths-Positives}
use llamacodelab.Ranking.{best}
use llamacodelab.Fusion.{
  reciprocal_rank_fuse, fused, accumulate_lists, accumulate, add_score, contribution,
}
use llamacodelab.Fusion.Laws.{IsFusion, reciprocal_rank_fuse-IsFusion}

abbrev hit : ℕ → SearchHit millionths
hit id = record { chunk_id = id; score = 0 }

abbrev lists : List (List (SearchHit millionths))
lists = (hit 7 ∷ hit 5 ∷ []) ∷ (hit 9 ∷ hit 5 ∷ []) ∷ []

program : Unit {0}
unfolding reciprocal_rank_fuse fused accumulate_lists accumulate add_score contribution best find
    assign sort
program = tt

-- The chunk in both lists comes first; of the two that are first in one list, the lower id.
reciprocal_rank_fuse-lists :
    reciprocal_rank_fuse millionths lists 2 60
    ≡ ok (record { chunk_id = 5; score = 32260 } ∷ record { chunk_id = 7; score = 16394 } ∷ [])
unfolding program
reciprocal_rank_fuse-lists = refl

reciprocal_rank_fuse-IsFusion_example :
    (ranked : List (SearchHit millionths)) × (reciprocal_rank_fuse millionths lists 2 60
      ≡ ok ranked)
    × IsFusion millionths millionths-Positives 60 lists 2 ranked
reciprocal_rank_fuse-IsFusion_example =
    reciprocal_rank_fuse-IsFusion millionths millionths-Positives millionths-Compares lists 2 60
      (omega arith) (omega arith)
