-- ===== src/Sqlite/Schema/Join.antt =====
-- What insertions add, and what joining chunks with documents gives.
use llamacodelab.Prelude.{
  ℕ, Bool, true, false, filter, All-imp, ap₂, arith, Bytes, bytes_eq, bytes_eq_iff, List, [], ◌∷◌,
  ◌++◌, append_assoc, map, All, if◌then◌else◌, ==_iff, ==-ne, ◌≡◌, ◌≢◌, refl, sym, ap, ◌∙◌, ◌+◌,
  ◌<◌, ◌%◌, ◌^◌,
}
use llamacodelab.Prelude.Result.{Error, ok, err, runtime_error}
use llamacodelab.Prelude.Filter.{filter-All, filter-append, filter-dropped}
use llamacodelab.Prelude.Sort.{sort-perm}
use mathlib.Core.List.{Perm}
use llamacodelab.Domain.{Chunk}
use llamacodelab.Sqlite.Schema.{
  StoredDocument, DocumentRow, ChunkRow, chunk_row, document_row, column_text, chunk_of,
  joined_chunks, join, Tables, kept_document, delete_document, chunks_for_document, signed_before,
  insert_document, insert_chunk,
}

-- A chunk that was stored: with the path and the parser version of its document.
abbrev pub stored : StoredDocument → Chunk → Chunk
stored document c = record {
  id = c.id;
  source = record {
    path = document.relative_path;
    start_line = c.source.start_line;
    end_line = c.source.end_line;
  };
  language = c.language;
  content = c.content;
  content_hash = c.content_hash;
  chunker_version = document.parser_version;
}

-- As it is read: each text up to its first zero byte.
abbrev pub read_back : StoredDocument → Chunk → Chunk
read_back document c = record (stored document c) {
  language = column_text c.language;
  content = column_text c.content;
  content_hash = column_text c.content_hash;
  chunker_version = column_text document.parser_version;
}

-- No zero byte.
abbrev pub IsText : Bytes → Type 0
IsText text = All (λ b. 0 < b) text

abbrev pub HasTexts : Chunk → Type 0
HasTexts c = IsText c.language × IsText c.content × IsText c.content_hash

column_text-eq : (text : Bytes) → IsText text → column_text text ≡ text
unfolding column_text
column_text-eq [] h = refl
column_text-eq (b ∷ text) h =
    rw (==-ne b 0 (omega (arith, h.0))) (ap (◌∷◌ b) (column_text-eq text h.1))

pub map-read_back :
    (document : StoredDocument) (chunks : List Chunk)
    → IsText document.parser_version
    → All HasTexts chunks
    → map (read_back document) chunks ≡ map (stored document) chunks
map-read_back document [] v h = refl
map-read_back document (c ∷ chunks) v h =
    let (language, content, hash) = h.0 in
    rw
      (
        column_text-eq c.language language,
        column_text-eq c.content content,
        column_text-eq c.content_hash hash,
        column_text-eq document.parser_version v,
      )
      (ap (◌∷◌ (stored document c)) (map-read_back document chunks v h.1))

unfoldable pub chunk_rows : ℕ → ℕ → List Chunk → List ChunkRow
chunk_rows document_id offset [] = []
chunk_rows document_id offset (c ∷ chunks) =
    chunk_row document_id offset c ∷ chunk_rows document_id ((offset + 1) % 2 ^ 64) chunks

module _ (path_of : DocumentRow → Bytes) where
  pub join-none :
      (d : DocumentRow) (chunks : List ChunkRow)
      → All (λ (c : ChunkRow). c.document_id ≢ d.row_id) chunks
      → join path_of (d ∷ []) chunks ≡ []
  unfolding join joined_chunks
  join-none d [] h = refl
  join-none d (c ∷ chunks) h =
      rw (==-ne d.row_id c.document_id (λ e. h.0 (sym e))) (join-none d chunks h.1)

  pub join-append :
      (documents : List DocumentRow) (front back : List ChunkRow)
      → join path_of documents (front ++ back)
        ≡ join path_of documents front ++ join path_of documents back
  unfolding join
  join-append documents [] back = refl
  join-append documents (c ∷ front) back =
      let first = joined_chunks path_of documents c in
      ap (◌++◌ first) (join-append documents front back)
      ∙ sym (append_assoc first (join path_of documents front) (join path_of documents back))

pub join-own :
    (id offset : ℕ) (document : StoredDocument) (chunks : List Chunk)
    → join
        (λ d. document.relative_path)
        (document_row id document ∷ [])
        (chunk_rows id offset chunks)
      ≡ map (read_back document) chunks
unfolding join joined_chunks chunk_rows chunk_of
join-own id offset document [] = refl
join-own id offset document (c ∷ chunks) =
    rw ((==_iff id id).1 refl)
      (ap (◌∷◌ (read_back document c)) (join-own id ((offset + 1) % 2 ^ 64) document chunks))

when-ok :
    (refused : Bool) (e : Error) (t u : Tables) → (if refused then err e else ok t) ≡ ok u → t ≡ u
when-ok true e t u h = absurd (cc h)
when-ok false e t u h = cc

pub insert_chunk_lem :
    (c : ChunkRow) (t u : Tables)
    → insert_chunk c t ≡ ok u
    → (u.documents ≡ t.documents) × (u.chunks ≡ t.chunks ++ (c ∷ []))
unfolding insert_chunk
insert_chunk_lem c t u e =
    let same = when-ok _ runtime_error _ u e in
    (sym (ap (λ (x : Tables). x.documents) same), sym (ap (λ (x : Tables). x.chunks) same))

pub insert_document_lem :
    (id : ℕ) (document : StoredDocument) (t u : Tables)
    → insert_document id document t ≡ ok u
    → (u.documents ≡ t.documents ++ (document_row id document ∷ [])) × (u.chunks ≡ t.chunks)
unfolding insert_document
insert_document_lem id document t u e =
    let same = when-ok _ runtime_error _ u e in
    (sym (ap (λ (x : Tables). x.documents) same), sym (ap (λ (x : Tables). x.chunks) same))

-- A document that is added once its path is deleted is the only one with its path.
pub delete-insert-alone :
    (id : ℕ) (document : StoredDocument) (t : Tables)
    → filter
        (λ (d : DocumentRow). bytes_eq d.relative_path document.relative_path)
        ((delete_document document.relative_path t).documents ++ (document_row id document ∷ []))
      ≡ document_row id document ∷ []
unfolding delete_document filter
delete-insert-alone id document t =
    let path = document.relative_path in
    let test : DocumentRow → Bool = λ d. bytes_eq d.relative_path path in
    let kept = filter (kept_document path) t.documents in
    let same : bytes_eq path path ≡ true = (bytes_eq_iff path path).1 refl in
    filter-append test kept (document_row id document ∷ [])
    ∙ ap₂ ◌++◌
        (filter-dropped test kept
          (All-imp (λ d e. ground arith) kept (filter-All (kept_document path) t.documents)))
        (rw (same, filter) refl)

-- What is read of a path with one document, if the older chunks belong to others.
pub chunks_for_document-perm :
    (path : Bytes) (t : Tables) (d : DocumentRow) (front back : List ChunkRow)
    → filter (λ (e : DocumentRow). bytes_eq e.relative_path path) t.documents ≡ d ∷ []
    → t.chunks ≡ front ++ back
    → All (λ (c : ChunkRow). c.document_id ≢ d.row_id) front
    → Perm (chunks_for_document path t) (join (λ e. path) (d ∷ []) back)
unfolding chunks_for_document
chunks_for_document-perm path t d front back e k h = rw e (
    rw k (
      rw (join-append (λ e. path) (d ∷ []) front back) (
        rw (join-none (λ e. path) d front h)
          (sort-perm signed_before (join (λ e. path) (d ∷ []) back)))))
