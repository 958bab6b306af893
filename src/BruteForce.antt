-- ===== src/BruteForce.antt =====
-- src/adapters/vector/brute_force_index.hpp and brute_force_index.cpp: a dense array of vectors, with
-- a map from an id to its place.
pub mod Invariant
pub mod Removal
pub mod Search
mod Tests
use llamacodelab.Prelude.{
  ℕ, zero, suc, ◌-◌, not, Option, none, some, List, [], ◌∷◌, ◌++◌, length, get_elem?, set, take,
  if◌then◌else◌, ◌==◌,
}
use llamacodelab.Prelude.Result.{Result, ok, err, invalid_argument, throw_if, ◌>>=◌, ◌>>◌}
use llamacodelab.Prelude.Assoc
use llamacodelab.Prelude.Assoc.{Assoc}
use llamacodelab.Domain.{Floats, SearchHit}
use llamacodelab.Similarity.{Embedding, is_finite_embedding, dot_product}
use llamacodelab.Ranking.{best}

module _ (f : Floats) where
  pub record VectorRecord : Type 0 where
    pub id : ℕ
    pub values : Embedding f

  pub record BruteForceIndex : Type 0 where
    pub dim : ℕ
    pub records : List VectorRecord
    pub positions : Assoc ℕ

  -- The constructor.
  pub new_index : ℕ → Result BruteForceIndex
  new_index dimension = do
    throw_if (dimension == 0) invalid_argument
    ok (record { dim = dimension; records = []; positions = [] })

  -- records_[i].values.assign(...)
  set_values : ℕ → Embedding f → List VectorRecord → List VectorRecord
  set_values i values [] = []
  set_values zero values (r ∷ rs) = record r { values = values } ∷ rs
  set_values (suc i) values (r ∷ rs) = r ∷ set_values i values rs

  put : ℕ → Embedding f → BruteForceIndex → BruteForceIndex
  put id values x = elim (Assoc.find id x.positions) [
    | some position ↦ record x { records = set_values position values x.records }
    | none ↦ record x {
      records = x.records ++ record { id = id; values = values } ∷ [];
      positions = Assoc.emplace id (length x.records) x.positions;
    }
  ]

  pub upsert : ℕ → Embedding f → BruteForceIndex → Result BruteForceIndex
  unfolding put
  upsert id values x = do
    throw_if (not (length values == x.dim)) invalid_argument
    throw_if (not (is_finite_embedding f values)) invalid_argument
    ok (put id values x)

  -- pop_back
  drop_last : List VectorRecord → List VectorRecord
  drop_last rs = take (length rs - 1) rs

  -- records_[index] = records_[last]; positions_[records_[index].id] = index;
  move_last : ℕ → ℕ → BruteForceIndex → BruteForceIndex
  move_last index last x = elim (get_elem? x.records last) [
    | none ↦ x
    | some moved ↦ record x {
      records = set x.records index moved;
      positions = Assoc.assign moved.id index x.positions;
    }
  ]

  remove_at : ℕ → ℕ → BruteForceIndex → BruteForceIndex
  unfolding move_last drop_last
  remove_at id index x =
      let last = length x.records - 1 in
      let moved = if index == last then x else move_last index last x in
      record x { records = drop_last moved.records; positions = Assoc.erase id moved.positions }

  pub erase : ℕ → BruteForceIndex → BruteForceIndex
  unfolding remove_at
  erase id x = elim (Assoc.find id x.positions) [ none ↦ x | some index ↦ remove_at id index x ]

  -- The loop of `search`; `dot_product` may throw.
  scores : Embedding f → List VectorRecord → Result (List (SearchHit f))
  scores query [] = ok []
  scores query (r ∷ rs) = do
    score ← dot_product f query r.values
    rest ← scores query rs
    ok (record { chunk_id = r.id; score = score } ∷ rest)

  pub search : Embedding f → ℕ → BruteForceIndex → Result (List (SearchHit f))
  unfolding scores
  search query top_k x = if top_k == 0 then ok [] else do
    throw_if (not (length query == x.dim)) invalid_argument
    throw_if (not (is_finite_embedding f query)) invalid_argument
    hits ← scores query x.records
    ok (best f top_k hits)

  pub size : BruteForceIndex → ℕ
  size x = length x.records

  pub dimension : BruteForceIndex → ℕ
  dimension x = x.dim
