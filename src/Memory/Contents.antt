-- ===== src/Memory/Contents.antt =====
-- What `get_many` finds after `replace`.
use llamacodelab.Prelude.{
  ℕ, Option, none, some, List, [], ◌∷◌, if◌then◌else◌, ◌==◌, ◌≡◌, refl, ap, ◌∙◌, inl, inr,
  Option-cases,
}
use llamacodelab.Prelude.Assoc.{Assoc, find, assign, find-assign}
use llamacodelab.Domain.{Chunk}
use llamacodelab.Memory.{
  InMemoryChunkRepository, insert_all, replace_chunks, collect_chunks, get_many,
}

-- The last of `chunks` with the id, or else `before`.
pub last_with : ℕ → List Chunk → Option Chunk → Option Chunk
last_with id [] before = before
last_with id (c ∷ chunks) before = last_with id chunks (if c.id == id then some c else before)

-- For each id in turn the last of `chunks` with it, where there is one.
pub gathered : List Chunk → List ℕ → List Chunk
gathered chunks [] = []
gathered chunks (id ∷ ids) = elim (last_with id chunks none) [
  | none ↦ gathered chunks ids
  | some chunk ↦ chunk ∷ gathered chunks ids
]

find-insert_all :
    (id : ℕ) (chunks : List Chunk) (stored : Assoc Chunk)
    → find id (insert_all chunks stored) ≡ last_with id chunks (find id stored)
unfolding insert_all last_with
find-insert_all id [] stored = refl
find-insert_all id (c ∷ chunks) stored =
    find-insert_all id chunks (assign c.id c stored)
    ∙ ap (last_with id chunks) (find-assign c.id id c stored)

collect_chunks-gathered :
    (chunks : List Chunk) (ids : List ℕ)
    → collect_chunks (insert_all chunks []) ids ≡ gathered chunks ids
unfolding collect_chunks gathered find
collect_chunks-gathered chunks [] = refl
collect_chunks-gathered chunks (id ∷ ids) =
    let same : find id (insert_all chunks []) ≡ last_with id chunks none =
      find-insert_all id chunks [] in
    elim (Option-cases (last_with id chunks none)) [
      | inl e ↦
          rw (same ∙ e, collect_chunks) (rw (e, gathered) (collect_chunks-gathered chunks ids))
      | inr (c, e) ↦
          rw (same ∙ e, collect_chunks)
            (rw (e, gathered) (ap (◌∷◌ c) (collect_chunks-gathered chunks ids)))
    ]

-- After `replace`, whatever the repository held before, `get_many` returns for each id in turn the last
-- of the given chunks with this id, and leaves out the ids that none of them has.
pub get_many-replace_chunks :
    (before : InMemoryChunkRepository) (chunks : List Chunk) (ids : List ℕ)
    → get_many (replace_chunks chunks before) ids ≡ gathered chunks ids
unfolding get_many replace_chunks
get_many-replace_chunks before chunks ids = collect_chunks-gathered chunks ids
