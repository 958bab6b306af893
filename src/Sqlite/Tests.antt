-- ===== src/Sqlite/Tests.antt =====
-- A repository with one document.
use llamacodelab.Prelude.{
  ℕ, ◌+◌, ◌<◌, none, List, [], ◌∷◌, map, any, filter, All, All-imp, codes, ◌==◌, if◌then◌else◌, ◌≡◌,
  ◌≢◌, refl, arith,
}
use llamacodelab.Prelude.Int.{pos}
use llamacodelab.Prelude.Result.{ok}
use mathlib.Core.List.{Perm}
use llamacodelab.Domain.{Chunk}
use llamacodelab.Sqlite.{
  Database, durable, Answer, executes, rolls_all_back, write, begin, replace_document,
  erase_document, insert_content, insert_chunks, set_metadata,
}
use llamacodelab.Sqlite.Schema.{
  rows_of, delete_document, StoredDocument, insert_document, insert_chunk, has_document,
  chunks_for_document,
}
use llamacodelab.Sqlite.Schema.Join.{stored}
use llamacodelab.Sqlite.Schema.Consistent.{IsConsistent}
use llamacodelab.Sqlite.Calls.{
  Call, begins, commits, rolls_back, opens, writes, erases, replaces, IsSound, run, run_writes,
  run-IsSound,
}
use llamacodelab.Sqlite.Transaction.{IsAtomic, transaction-IsAtomic}
use llamacodelab.Sqlite.Contents.{replace_document-stored}

-- One more than the sum of the ids.
abbrev new_row_id : List ℕ → ℕ
new_row_id [] = 1
new_row_id (i ∷ ids) = i + new_row_id ids

new_row_id-above : (ids : List ℕ) → All (λ i. i < new_row_id ids) ids × (0 < new_row_id ids)
new_row_id-above [] = (tt, omega arith)
new_row_id-above (i ∷ ids) =
    let (above, positive) = new_row_id-above ids in
    ((omega arith, All-imp (λ j h. omega (arith, h)) ids above), omega arith)

new_row_id-new : (ids : List ℕ) → All (λ i. i ≢ new_row_id ids) ids
new_row_id-new ids = All-imp (λ i h e. omega (arith, h, e)) ids (new_row_id-above ids).0

-- The ninth statement is refused, and rolls the transaction back.
abbrev system : ℕ → Answer
system n = if n == 8 then rolls_all_back else executes

abbrev chunk : Chunk
chunk = record {
  id = 7;
  source = record { path = codes "a.cpp"; start_line = 1; end_line = 2 };
  language = codes "cpp";
  content = codes "int x;";
  content_hash = codes "00";
  chunker_version = codes "text-v1";
}

abbrev document : StoredDocument
document = record {
  relative_path = codes "a.cpp";
  content_hash = codes "00";
  size_bytes = 6;
  modified_ns = pos 0;
  parser_version = codes "text-v1";
  chunks = chunk ∷ [];
}

abbrev empty : Database
empty = record {
  tables = record { documents = []; chunks = []; index_metadata = []; chunk_fts = [] };
  saved = none;
  statements = 0;
}

empty-IsConsistent : IsConsistent empty.tables
unfolding rows_of
empty-IsConsistent = record { paths = tt; ids = tt; chunk_ids = tt; owned = tt; searchable = refl }

abbrev calls : List Call
calls =
    opens
    ∷ begins
    ∷ writes (replaces document 1)
    ∷ commits
    ∷ begins
    ∷ writes (erases (codes "a.cpp"))
    ∷ rolls_back
    ∷ []

run-IsSound_example : IsSound (run system new_row_id calls empty)
unfolding durable
run-IsSound_example =
    run-IsSound system new_row_id new_row_id-new calls empty
      (empty-IsConsistent, empty-IsConsistent)

transaction-IsAtomic_example : IsAtomic system new_row_id empty.tables (
    run_writes system new_row_id
      (replaces document 1 ∷ erases (codes "b.cpp") ∷ [])
      (begin system new_row_id empty).0)
unfolding begin
transaction-IsAtomic_example =
    transaction-IsAtomic system new_row_id (replaces document 1 ∷ erases (codes "b.cpp") ∷ []) empty
      refl refl

replaced : (replace_document system new_row_id document 1 empty).1 ≡ ok tt
unfolding replace_document erase_document insert_content insert_chunks set_metadata write
    insert_document insert_chunk has_document any filter delete_document
replaced = refl

replace_document-stored_example :
    Perm
      (chunks_for_document
        (codes "a.cpp")
        (replace_document system new_row_id document 1 empty).0.tables)
      (map (stored document) (chunk ∷ []))
replace_document-stored_example =
    replace_document-stored system new_row_id document 1 empty new_row_id-new empty-IsConsistent
      (omega arith) (omega arith) replaced
