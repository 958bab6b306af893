-- ===== src/Memory/Tests.antt =====
-- Two chunks under one id, and an id that is not there.
use llamacodelab.Prelude.{ℕ, List, [], ◌∷◌, codes, ◌≡◌, refl, Bytes}
use llamacodelab.Prelude.Assoc.{assign}
use llamacodelab.Domain.{Chunk}
use llamacodelab.Memory.{
  InMemoryChunkRepository, replace_chunks, get_many, repository_size, insert_all,
}
use llamacodelab.Memory.Contents.{gathered, get_many-replace_chunks}

abbrev chunk : ℕ → Bytes → Chunk
chunk id content = record {
  id = id;
  source = record { path = []; start_line = 1; end_line = 1 };
  language = [];
  content = content;
  content_hash = [];
  chunker_version = [];
}

abbrev chunks : List Chunk
chunks = chunk 7 (codes "old") ∷ chunk 9 (codes "b") ∷ chunk 7 (codes "new") ∷ []

abbrev empty_repository : InMemoryChunkRepository
empty_repository = record { chunks = [] }

one_for_each_id : repository_size (replace_chunks chunks empty_repository) ≡ 2
unfolding repository_size replace_chunks insert_all assign
one_for_each_id = refl

get_many-replace_chunks_example :
    get_many (replace_chunks chunks empty_repository) (7 ∷ 8 ∷ 9 ∷ [])
    ≡ gathered chunks (7 ∷ 8 ∷ 9 ∷ [])
get_many-replace_chunks_example = get_many-replace_chunks empty_repository chunks (7 ∷ 8 ∷ 9 ∷ [])
