-- ===== src/Sqlite/Schema.antt =====
-- src/adapters/sqlite/sqlite_chunk_repository.cpp: the tables of the schema, and what its SQL statements
-- do to them. SQLite's choice of a new row id is a parameter.
pub mod Rows
pub mod Consistent
pub mod Refresh
pub mod Join
use llamacodelab.Prelude.{
  ℕ, ◌+◌, ◌%◌, ◌^◌, Bool, true, false, not, ◌||◌, Option, none, some, List, [], ◌∷◌, ◌++◌, map,
  filter, any, if◌then◌else◌, ltb, ◌==◌, Bytes, bytes_eq,
}
use llamacodelab.Prelude.Int.{ℤ}
use llamacodelab.Prelude.Sort.{sort}
use llamacodelab.Prelude.Result.{Result, ok, err, runtime_error}
use llamacodelab.Domain.{Chunk}

pub record StoredDocument : Type 0 where
  pub relative_path : Bytes
  pub content_hash : Bytes
  pub size_bytes : ℕ
  pub modified_ns : ℤ
  pub parser_version : Bytes
  pub chunks : List Chunk

pub record DocumentRow : Type 0 where
  pub row_id : ℕ
  pub relative_path : Bytes
  pub content_hash : Bytes
  pub size_bytes : ℕ
  pub modified_ns : ℤ
  pub parser_version : Bytes

-- The casts of unsigned columns to signed ones and back give the same number.
pub record ChunkRow : Type 0 where
  pub row_id : ℕ
  pub document_id : ℕ
  pub start_line : ℕ
  pub end_line : ℕ
  pub language : Bytes
  pub content : Bytes
  pub content_hash : Bytes
  pub embedding_offset : ℕ

-- A row of the full-text index; the symbol is the default of the column, empty.
pub record FtsRow : Type 0 where
  pub row_id : ℕ
  pub path : Bytes
  pub content : Bytes

pub record Tables : Type 0 where
  pub documents : List DocumentRow
  pub chunks : List ChunkRow
  pub index_metadata : List (Bytes × Bytes)
  pub chunk_fts : List FtsRow

-- DELETE FROM documents WHERE relative_path=?
abbrev pub kept_document : Bytes → DocumentRow → Bool
kept_document path d = not (bytes_eq d.relative_path path)

unfoldable pub has_document : ℕ → List DocumentRow → Bool
has_document id documents = any (λ d. d.row_id == id) documents

-- ON DELETE CASCADE: the chunks stay whose document does.
abbrev pub kept_chunk : List DocumentRow → ChunkRow → Bool
kept_chunk kept c = has_document c.document_id kept

-- chunks_fts_delete: for each chunk that is deleted, the rows with its id.
abbrev pub kept_row : List ChunkRow → FtsRow → Bool
kept_row deleted r = not (any (λ (c : ChunkRow). c.row_id == r.row_id) deleted)

unfoldable pub delete_document : Bytes → Tables → Tables
delete_document path t =
    let kept = filter (kept_document path) t.documents in
    let deleted = filter (λ c. not (kept_chunk kept c)) t.chunks in
    record t {
      documents = kept;
      chunks = filter (kept_chunk kept) t.chunks;
      chunk_fts = filter (kept_row deleted) t.chunk_fts;
    }

abbrev pub document_row : ℕ → StoredDocument → DocumentRow
document_row id document = record {
  row_id = id;
  relative_path = document.relative_path;
  content_hash = document.content_hash;
  size_bytes = document.size_bytes;
  modified_ns = document.modified_ns;
  parser_version = document.parser_version;
}

-- INSERT INTO documents: relative_path is UNIQUE.
unfoldable pub insert_document : ℕ → StoredDocument → Tables → Result Tables
insert_document id document t =
    if any (λ d. bytes_eq d.relative_path document.relative_path) t.documents
    then err runtime_error
    else ok (record t { documents = t.documents ++ (document_row id document ∷ []) })

-- The values of INSERT INTO chunks.
abbrev pub chunk_row : ℕ → ℕ → Chunk → ChunkRow
chunk_row document_id offset c = record {
  row_id = c.id;
  document_id = document_id;
  start_line = c.source.start_line;
  end_line = c.source.end_line;
  language = c.language;
  content = c.content;
  content_hash = c.content_hash;
  embedding_offset = offset;
}

-- chunks_fts_insert: a row for the document of the chunk.
pub fts_rows : List DocumentRow → ChunkRow → List FtsRow
fts_rows [] c = []
fts_rows (d ∷ documents) c =
    let rest = fts_rows documents c in
    if d.row_id == c.document_id
    then record { row_id = c.row_id; path = d.relative_path; content = c.content } ∷ rest
    else rest

-- INSERT INTO chunks: the id is the PRIMARY KEY, and a key of chunk_fts; the document is a FOREIGN KEY.
unfoldable pub insert_chunk : ChunkRow → Tables → Result Tables
insert_chunk c t =
    if any (λ (x : ChunkRow). x.row_id == c.row_id) t.chunks
      || not (has_document c.document_id t.documents)
      || any (λ (r : FtsRow). r.row_id == c.row_id) t.chunk_fts
    then err runtime_error
    else ok (record t {
      chunks = t.chunks ++ (c ∷ []);
      chunk_fts = t.chunk_fts ++ fts_rows t.documents c;
    })

-- INSERT OR REPLACE INTO chunk_fts(rowid,...): rows of a table have no order.
pub put_row : FtsRow → List FtsRow → List FtsRow
put_row r [] = r ∷ []
put_row r (x ∷ rows) = if x.row_id == r.row_id then r ∷ rows else x ∷ put_row r rows

pub put_rows : List FtsRow → List FtsRow → List FtsRow
put_rows [] rows = rows
put_rows (r ∷ fresh) rows = put_rows fresh (put_row r rows)

unfoldable pub rows_of : List DocumentRow → List ChunkRow → List FtsRow
rows_of documents [] = []
rows_of documents (c ∷ chunks) = fts_rows documents c ++ rows_of documents chunks

-- SELECT ... FROM chunks JOIN documents
pub refresh_fts : Tables → Tables
refresh_fts t = record t { chunk_fts = put_rows (rows_of t.documents t.chunks) t.chunk_fts }

-- INSERT INTO index_metadata ... ON CONFLICT(key) DO UPDATE
pub put_metadata : Bytes → Bytes → List (Bytes × Bytes) → List (Bytes × Bytes)
put_metadata key value [] = (key, value) ∷ []
put_metadata key value ((k, v) ∷ entries) =
    if bytes_eq k key then (key, value) ∷ entries else (k, v) ∷ put_metadata key value entries

-- std::string(const char*) of a text column: what stands before the first zero byte.
unfoldable pub column_text : Bytes → Bytes
column_text [] = []
column_text (b ∷ text) = if b == 0 then [] else b ∷ column_text text

-- SELECT value FROM index_metadata WHERE key=?
pub metadata : Bytes → List (Bytes × Bytes) → Bytes
metadata key [] = []
metadata key ((k, v) ∷ entries) = if bytes_eq k key then column_text v else metadata key entries

-- A row of the result; the path is a column of its own, or the one that was asked for.
pub chunk_of : Bytes → ChunkRow → DocumentRow → Chunk
chunk_of path c d = record {
  id = c.row_id;
  source = record { path = path; start_line = c.start_line; end_line = c.end_line };
  language = column_text c.language;
  content = column_text c.content;
  content_hash = column_text c.content_hash;
  chunker_version = column_text d.parser_version;
}

module _ (path_of : DocumentRow → Bytes) where
  -- FROM chunks c JOIN documents d ON d.id=c.document_id, for one row of chunks
  pub joined_chunks : List DocumentRow → ChunkRow → List Chunk
  joined_chunks [] c = []
  joined_chunks (d ∷ documents) c =
      let rest = joined_chunks documents c in
      if d.row_id == c.document_id then chunk_of (path_of d) c d ∷ rest else rest

  pub join : List DocumentRow → List ChunkRow → List Chunk
  join documents [] = []
  join documents (c ∷ chunks) = joined_chunks documents c ++ join documents chunks

-- ORDER BY c.id, where an id is a signed number of 64 bits
abbrev pub signed_before : Chunk → Chunk → Bool
signed_before c d = ltb ((c.id + 2 ^ 63) % 2 ^ 64) ((d.id + 2 ^ 63) % 2 ^ 64)

pub chunks_for_document : Bytes → Tables → List Chunk
chunks_for_document path t =
    sort signed_before
      (join (λ d. path) (filter (λ d. bytes_eq d.relative_path path) t.documents) t.chunks)

-- The loop of `get_many`: the first row that the statement gives, if any.
pub first_chunk : List Chunk → List Chunk
first_chunk [] = []
first_chunk (c ∷ _) = c ∷ []

pub get_many : List ℕ → Tables → List Chunk
get_many [] t = []
get_many (id ∷ ids) t =
    first_chunk (
      join (λ d. column_text d.relative_path) t.documents
        (filter (λ (c : ChunkRow). c.row_id == id) t.chunks))
    ++ get_many ids t

pub documents_of : List DocumentRow → List StoredDocument
documents_of [] = []
documents_of (d ∷ documents) =
    record {
      relative_path = column_text d.relative_path;
      content_hash = column_text d.content_hash;
      size_bytes = d.size_bytes;
      modified_ns = d.modified_ns;
      parser_version = column_text d.parser_version;
      chunks = [];
    }
    ∷ documents_of documents
