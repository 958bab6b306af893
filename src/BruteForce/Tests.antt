-- ===== src/BruteForce/Tests.antt =====
-- An index of three vectors, over numbers of millionths.
use llamacodelab.Prelude.{
  ℕ, zero, suc, true, none, some, List, [], ◌∷◌, if◌then◌else◌, false, ◌==◌, ◌≡◌, ◌≢◌, refl, arith,
  ◌⊎◌,
}
use llamacodelab.Prelude.Result.{ok, err, invalid_argument, ◌>>=◌}
use llamacodelab.Prelude.Sort.{sort}
use llamacodelab.Prelude.Assoc
use llamacodelab.Domain.{SearchHit}
use llamacodelab.Domain.Millionths.{millionths, millionths-Compares}
use llamacodelab.Ranking.{best, IsBest}
use llamacodelab.Similarity.{is_finite_embedding, inner_product, dot_product}
use llamacodelab.BruteForce.{
  BruteForceIndex, VectorRecord, new_index, set_values, put, upsert, drop_last, move_last,
  remove_at, erase, scores, search,
}
use llamacodelab.BruteForce.Invariant.{column, IsValid, stored, upsert_lem}
use llamacodelab.BruteForce.Removal.{erase_lem}
use llamacodelab.BruteForce.Search.{scored, search-IsBest}

abbrev three : BruteForceIndex millionths
three = record {
  dim = 1;
  records =
      record { id = 4; values = 3_000_000 ∷ [] }
      ∷ record { id = 8; values = 7_000_000 ∷ [] }
      ∷ record { id = 6; values = 5_000_000 ∷ [] }
      ∷ [];
  positions = (4, 0) ∷ (8, 1) ∷ (6, 2) ∷ [];
}

program : Unit {0}
unfolding new_index set_values put upsert drop_last move_last remove_at erase scores search best
    sort Assoc.find Assoc.assign Assoc.emplace Assoc.erase is_finite_embedding inner_product
    dot_product column stored
program = tt

three_built :
    (do
      x ← new_index millionths 1
      x ← upsert millionths 4 (3_000_000 ∷ []) x
      x ← upsert millionths 8 (1 ∷ []) x
      x ← upsert millionths 6 (5_000_000 ∷ []) x
      upsert millionths 8 (7_000_000 ∷ []) x)
    ≡ ok three
unfolding program
three_built = refl

-- The last record moves to the place of the first.
erase-three : erase millionths 4 three ≡ record {
  dim = 1;
  records =
      record { id = 6; values = 5_000_000 ∷ [] } ∷ record { id = 8; values = 7_000_000 ∷ [] } ∷ [];
  positions = (8, 1) ∷ (6, 0) ∷ [];
}
unfolding program
erase-three = refl

three_placed :
    (id i : ℕ)
    → Assoc.find id three.positions ≡ some i
    → column (λ (r : VectorRecord millionths). r.id) three.records i ≡ some id
unfolding program
three_placed id i e = ground arith

three_indexed :
    (id i : ℕ)
    → column (λ (r : VectorRecord millionths). r.id) three.records i ≡ some id
    → Assoc.find id three.positions ≡ some i
unfolding program
three_indexed id zero e = ground arith
three_indexed id (suc zero) e = ground arith
three_indexed id (suc (suc zero)) e = ground arith
three_indexed id (suc (suc (suc i))) e = ground arith

three-IsValid : IsValid millionths three
unfolding is_finite_embedding
three-IsValid = record {
  distinct = omega arith;
  placed = three_placed;
  indexed = three_indexed;
  shaped = ((refl, refl), ((refl, refl), ((refl, refl), tt)));
}

upsert_lem_example :
    ((◌≡◌ {A = ℕ} 1 1)
      × (is_finite_embedding millionths (9 ∷ []) ≡ true)
      × ((y : BruteForceIndex millionths) × (upsert millionths 8 (9 ∷ []) three ≡ ok y)
          × IsValid millionths y
          × (y.dim ≡ 1)
          × ((j : ℕ)
              → stored millionths y j
                ≡ (if 8 == j then some (9 ∷ []) else stored millionths three j))))
    ⊎ (((◌≢◌ {A = ℕ} 1 1) ⊎ (is_finite_embedding millionths (9 ∷ []) ≡ false))
        × (upsert millionths 8 (9 ∷ []) three ≡ err invalid_argument))
upsert_lem_example = upsert_lem millionths 8 (9 ∷ []) three three-IsValid

erase_lem_example :
    IsValid millionths (erase millionths 4 three)
    × ((j : ℕ)
        → stored millionths (erase millionths 4 three) j
          ≡ (if 4 == j then none else stored millionths three j))
erase_lem_example = erase_lem millionths 4 three three-IsValid

search-IsBest_example :
    (ranked : List (SearchHit millionths)) × (search millionths (2_000_000 ∷ []) 2 three
      ≡ ok ranked)
    × IsBest millionths 2 (scored millionths (2_000_000 ∷ []) three.records) ranked
unfolding is_finite_embedding scored inner_product
search-IsBest_example =
    search-IsBest millionths millionths-Compares three (2_000_000 ∷ []) 2 three-IsValid
      (omega arith) refl refl (refl, (refl, (refl, tt)))

search-three :
    search millionths (2_000_000 ∷ []) 2 three
    ≡ ok (
        record { chunk_id = 8; score = 14_000_000 }
        ∷ record { chunk_id = 6; score = 10_000_000 }
        ∷ [])
unfolding program
search-three = refl
