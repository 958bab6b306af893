-- ===== src/Sqlite/Contents.antt =====
-- What is read after a document is replaced.
use llamacodelab.Prelude.{
  ℕ, List, [], ◌∷◌, ◌++◌, append_assoc, append-nil, map, filter, All, All-imp, All-map, Bytes,
  bytes_eq, ◌≡◌, ◌≢◌, refl, sym, ap, ◌∙◌, subst, ◌+◌, ◌%◌, ◌^◌,
}
use llamacodelab.Prelude.Result.{Result, ok, err, ok-injective}
use mathlib.Core.List.{Perm}
use llamacodelab.Domain.{Chunk}
use llamacodelab.Sqlite.{
  Database, Action, proceed, settle, Answer, write, set_metadata, erase_document, insert_chunks,
  insert_content, replace_document,
}
use llamacodelab.Sqlite.Calls.{executed, refused, rolled_back, Answer-cases}
use llamacodelab.Sqlite.Schema.{
  StoredDocument, DocumentRow, ChunkRow, chunk_row, Tables, document_row, delete_document,
  insert_document, insert_chunk, chunks_for_document,
}
use llamacodelab.Sqlite.Schema.Join.{
  delete-insert-alone, chunks_for_document-perm, insert_chunk_lem, insert_document_lem, stored,
  chunk_rows, join-own, IsText, HasTexts, map-read_back,
}
use llamacodelab.Sqlite.Schema.Rows.{owner-ne}
use llamacodelab.Sqlite.Schema.Consistent.{IsConsistent, delete_document-IsConsistent}

abbrev Gives : List DocumentRow → List ChunkRow → Database × Result (Unit {0}) → Type 0
Gives documents chunks x =
    x.1 ≡ ok tt → (x.0.tables.documents ≡ documents) × (x.0.tables.chunks ≡ chunks)

proceed-Gives :
    (documents : List DocumentRow) (chunks : List ChunkRow) (x : Database × Result (Unit {0}))
    (rest : Unit {0} → Action (Unit {0}))
    → (x.1 ≡ ok tt → Gives documents chunks (rest tt x.0))
    → Gives documents chunks (proceed x rest)
proceed-Gives documents chunks (db, err e) rest k = λ h. absurd (cc h)
proceed-Gives documents chunks (db, ok tt) rest k = k refl

settle-ok :
    (db : Database) (r : Result Tables) → (settle db r).1 ≡ ok tt → r ≡ ok (settle db r).0.tables
settle-ok db (err e) h = absurd (cc h)
settle-ok db (ok u) h = refl

module _ (system : ℕ → Answer) (new_row_id : List ℕ → ℕ) where
  write-ok :
      (change : Tables → Result Tables) (db : Database)
      → (write system new_row_id change db).1 ≡ ok tt
      → change db.tables ≡ ok (write system new_row_id change db).0.tables
  unfolding write
  write-ok change db h = elim (Answer-cases (system db.statements)) [
    | refused e ↦ absurd (cc (rw (e, write) at h))
    | rolled_back e ↦ absurd (cc (rw (e, write) at h))
    | executed e ↦
        rw (e, write)
          (settle-ok (record db { statements = db.statements + 1 }) (change db.tables)
            (rw (e, write) at h))
  ]

  -- The loop leaves the documents alone and appends its rows.
  insert_chunks-Gives :
      (id offset : ℕ) (chunks : List Chunk) (db : Database)
      → Gives db.tables.documents
          (db.tables.chunks ++ chunk_rows id offset chunks)
          (insert_chunks system new_row_id id offset chunks db)
  unfolding insert_chunks chunk_rows
  insert_chunks-Gives id offset [] db = λ h. (refl, sym (append-nil db.tables.chunks))
  insert_chunks-Gives id offset (c ∷ chunks) db =
      let row = chunk_row id offset c in
      let rest = (offset + 1) % 2 ^ 64 in
      let x = write system new_row_id (insert_chunk row) db in
      proceed-Gives _ _ x _ (λ e h.
        let (d, k) = insert_chunk_lem row db.tables x.0.tables (write-ok (insert_chunk row) db e) in
        let (p, q) = insert_chunks-Gives id rest chunks x.0 h in
        (
          p ∙ d,
          q
              ∙ ap (λ l. l ++ chunk_rows id rest chunks) k
              ∙ append_assoc db.tables.chunks (row ∷ []) (chunk_rows id rest chunks),
        ))

  set_metadata-Gives :
      (key value : Bytes) (db : Database)
      → Gives db.tables.documents db.tables.chunks (set_metadata system new_row_id key value db)
  unfolding set_metadata
  set_metadata-Gives key value db h = let e = write-ok _ db h in (cc, cc)

  insert_content-Gives :
      (document : StoredDocument) (generation : ℕ) (db : Database)
      → Gives
          (db.tables.documents
            ++ (document_row
                  (new_row_id (map (λ (d : DocumentRow). d.row_id) db.tables.documents))
                  document
                ∷ []))
          (db.tables.chunks
            ++ chunk_rows
                (new_row_id (map (λ (d : DocumentRow). d.row_id) db.tables.documents))
                0
                document.chunks)
          (insert_content system new_row_id document generation db)
  unfolding insert_content
  insert_content-Gives document generation db =
      let id = new_row_id (map (λ (d : DocumentRow). d.row_id) db.tables.documents) in
      let x = write system new_row_id (insert_document id document) db in
      let y = insert_chunks system new_row_id id 0 document.chunks x.0 in
      proceed-Gives _ _ x _ (λ e.
        let (d, k) =
          insert_document_lem id document db.tables x.0.tables
            (write-ok (insert_document id document) db e) in
        proceed-Gives _ _ y _ (λ f h.
          let (p, q) = insert_chunks-Gives id 0 document.chunks x.0 f in
          let (r, s) = set_metadata-Gives _ _ y.0 h in
          (r ∙ p ∙ d, s ∙ q ∙ ap (λ l. l ++ chunk_rows id 0 document.chunks) k)))

  replace_document-Gives :
      (document : StoredDocument) (generation : ℕ) (db : Database)
      → (let t = delete_document document.relative_path db.tables in
          let id = new_row_id (map (λ (d : DocumentRow). d.row_id) t.documents) in
          Gives
            (t.documents ++ (document_row id document ∷ []))
            (t.chunks ++ chunk_rows id 0 document.chunks)
            (replace_document system new_row_id document generation db))
  unfolding replace_document erase_document
  replace_document-Gives document generation db =
      let x = erase_document system new_row_id document.relative_path db in
      let t = delete_document document.relative_path db.tables in
      proceed-Gives _ _ x _ (λ e.
        let same : t ≡ x.0.tables = ok-injective _ _ (write-ok _ db e) in
        subst
          (λ (u : Tables).
            let id = new_row_id (map (λ (d : DocumentRow). d.row_id) u.documents) in
            Gives (u.documents ++ (document_row id document ∷ []))
              (u.chunks ++ chunk_rows id 0 document.chunks)
              (insert_content system new_row_id document generation x.0))
          (sym same) (insert_content-Gives document generation x.0))

  -- If SQLite's new row ids are new, the tables are consistent and the texts of the chunks and the parser
  -- version have no zero byte, what is read of a path after `replace_document` returned are the chunks of
  -- the document, in some order, each with the path and the parser version of the document.
  pub replace_document-stored :
      (document : StoredDocument) (generation : ℕ) (db : Database)
      → ((ids : List ℕ) → All (λ i. i ≢ new_row_id ids) ids)
      → IsConsistent db.tables
      → IsText document.parser_version
      → All HasTexts document.chunks
      → (replace_document system new_row_id document generation db).1 ≡ ok tt
      → Perm
          (chunks_for_document document.relative_path
            (replace_document system new_row_id document generation db).0.tables)
          (map (stored document) document.chunks)
  replace_document-stored document generation db fresh h version texts e =
      let path = document.relative_path in
      let t = delete_document path db.tables in
      let id = new_row_id (map (λ (d : DocumentRow). d.row_id) t.documents) in
      let others = All-map (λ i. i ≢ id) (λ (d : DocumentRow). d.row_id) t.documents (fresh _) in
      let older =
        All-imp (λ (c : ChunkRow) has. owner-ne id c.document_id t.documents others has) t.chunks
          (delete_document-IsConsistent path db.tables h).owned in
      let (documents, chunks) = replace_document-Gives document generation db e in
      subst (Perm _)
        (join-own id 0 document document.chunks
          ∙ map-read_back document document.chunks version texts)
        (chunks_for_document-perm path _ (document_row id document) t.chunks
          (chunk_rows id 0 document.chunks)
          (ap (filter (λ (d : DocumentRow). bytes_eq d.relative_path path)) documents
            ∙ delete-insert-alone id document db.tables)
          chunks older)
