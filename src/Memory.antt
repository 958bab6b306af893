-- ===== src/Memory.antt =====
-- src/adapters/memory/in_memory_chunk_repository.hpp and in_memory_chunk_repository.cpp: the repository of
-- chunks in memory.
pub mod Contents
mod Tests
use llamacodelab.Prelude.{ℕ, none, some, List, [], ◌∷◌, length}
use llamacodelab.Prelude.Assoc.{Assoc, find, assign}
use llamacodelab.Domain.{Chunk}

pub record InMemoryChunkRepository : Type 0 where
  pub chunks : Assoc Chunk

-- The loop of `replace`, over insert_or_assign.
pub insert_all : List Chunk → Assoc Chunk → Assoc Chunk
insert_all [] stored = stored
insert_all (c ∷ chunks) stored = insert_all chunks (assign c.id c stored)

pub replace_chunks : List Chunk → InMemoryChunkRepository → InMemoryChunkRepository
replace_chunks chunks repository = record repository { chunks = insert_all chunks [] }

-- The loop of `get_many`.
pub collect_chunks : Assoc Chunk → List ℕ → List Chunk
collect_chunks stored [] = []
collect_chunks stored (id ∷ ids) = elim (find id stored) [
  | none ↦ collect_chunks stored ids
  | some chunk ↦ chunk ∷ collect_chunks stored ids
]

pub get_many : InMemoryChunkRepository → List ℕ → List Chunk
get_many repository ids = collect_chunks repository.chunks ids

pub repository_size : InMemoryChunkRepository → ℕ
repository_size repository = length repository.chunks
