-- ===== src/Reranker/Tests.antt =====
-- A model that rates every chunk with 2.
use llamacodelab.Prelude.{List, [], ◌∷◌, Bytes, codes}
use llamacodelab.Prelude.Result.{Result, ok}
use llamacodelab.Domain.{Chunk, SearchHit}
use llamacodelab.Domain.Millionths.{millionths}
use llamacodelab.Llama.Generate.{GenerationOptions}

abbrev answer : Bytes → GenerationOptions millionths → Result Bytes
answer prompt options = ok (codes " 2")

abbrev chunks : List Chunk
chunks =
    record {
      id = 7;
      source = record { path = codes "a.cpp"; start_line = 1; end_line = 2 };
      language = codes "cpp";
      content = codes "int x;";
      content_hash = codes "00";
      chunker_version = codes "text-v1";
    }
    ∷ []

abbrev candidates : List (SearchHit millionths)
candidates = record { chunk_id = 9; score = 3 } ∷ record { chunk_id = 7; score = 2 } ∷ []
