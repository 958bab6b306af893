-- ===== src/Sqlite.antt =====
-- src/adapters/sqlite/sqlite_chunk_repository.cpp: the methods of `SqliteChunkRepository`, as actions on
-- a database. The system may refuse any statement that writes, and may then roll back the open
-- transaction; what is read is read. Closing the database drops a transaction that is still open.
pub mod Schema
pub mod Calls
pub mod Transaction
pub mod Contents
mod Tests
use llamacodelab.Prelude.{
  ℕ, ◌+◌, ◌%◌, ◌^◌, Bool, true, false, Option, none, some, List, [], ◌∷◌, map, if◌then◌else◌, Bytes,
  codes, to_string,
}
use llamacodelab.Prelude.Result.{Result, ok, err, runtime_error}
use llamacodelab.Domain.{Chunk}
use llamacodelab.Sqlite.Schema.{
  StoredDocument, DocumentRow, ChunkRow, Tables, delete_document, insert_document, insert_chunk,
  chunk_row, put_metadata, refresh_fts,
}

-- `saved` are the tables at the start of the transaction that is open; `statements` counts the writes.
pub record Database : Type 0 where
  pub tables : Tables
  pub saved : Option Tables
  pub statements : ℕ

-- What is on the disk.
pub durable : Database → Tables
durable db = elim db.saved [ none ↦ db.tables | some tables ↦ tables ]

abbrev pub Action : Type 0 → Type 0
Action A = Database → Database × Result A

abbrev pub proceed : {A B : Type 0} → Database × Result A → (A → Action B) → Database × Result B
proceed (db, err e) rest = (db, err e)
proceed (db, ok a) rest = rest a db

infixl 5 ◌>>=◌ ◌>>◌
abbrev pub ◌>>=◌ : {A B : Type 0} → Action A → (A → Action B) → Action B
(action >>= rest) db = proceed (action db) rest

abbrev pub ◌>>◌ : {A B : Type 0} → Action A → Action B → Action B
action >> rest = action >>= (λ _. rest)

abbrev pub done : {A : Type 0} → A → Action A
done a db = (db, ok a)

abbrev pub settle : Database → Result Tables → Database × Result (Unit {0})
settle db (err e) = (db, err e)
settle db (ok tables) = (record db { tables = tables }, ok tt)

-- How SQLite answers a statement. Some errors (a full disk, an I/O error, no memory, a lock, an interrupt)
-- may roll an open transaction back.
pub data Answer : Type 0 where
  executes refuses rolls_all_back : Answer

-- The open transaction, if any, is rolled back.
pub abandon : Database → Database
abandon db = elim db.saved [ none ↦ db | some tables ↦ record db { tables = tables; saved = none } ]

module _ (system : ℕ → Answer) (new_row_id : List ℕ → ℕ) where
  -- A statement that writes; if it breaks a constraint, it changes nothing.
  pub write : (Tables → Result Tables) → Action (Unit {0})
  unfolding abandon
  write change db =
      let next = record db { statements = db.statements + 1 } in
      elim (system db.statements) [
        | executes ↦ settle next (change db.tables)
        | refuses ↦ (next, err runtime_error)
        | rolls_all_back ↦ (abandon next, err runtime_error)
      ]

  pub begin : Action (Unit {0})
  unfolding abandon
  begin db =
      let next = record db { statements = db.statements + 1 } in
      elim (system db.statements) [
        | refuses ↦ (next, err runtime_error)
        | rolls_all_back ↦ (abandon next, err runtime_error)
        | executes ↦ elim db.saved [
          | some _ ↦ (next, err runtime_error)
          | none ↦ (record next { saved = some db.tables }, ok tt)
        ]
      ]

  pub commit : Action (Unit {0})
  unfolding abandon
  commit db =
      let next = record db { statements = db.statements + 1 } in
      elim (system db.statements) [
        | refuses ↦ (next, err runtime_error)
        | rolls_all_back ↦ (abandon next, err runtime_error)
        | executes ↦ elim db.saved [
          | none ↦ (next, err runtime_error)
          | some _ ↦ (record next { saved = none }, ok tt)
        ]
      ]

  -- Its result is not looked at.
  pub rollback : Action (Unit {0})
  unfolding abandon
  rollback db =
      let next = record db { statements = db.statements + 1 } in
      elim (system db.statements) [
        | refuses ↦ (next, ok tt)
        | rolls_all_back ↦ (abandon next, ok tt)
        | executes ↦ elim db.saved [
          | none ↦ (next, ok tt)
          | some tables ↦ (record next { tables = tables; saved = none }, ok tt)
        ]
      ]

  pub set_metadata : Bytes → Bytes → Action (Unit {0})
  set_metadata key value =
      write (λ t. ok (record t { index_metadata = put_metadata key value t.index_metadata }))

  pub erase_document : Bytes → Action (Unit {0})
  erase_document relative_path = write (λ t. ok (delete_document relative_path t))

  -- The loop over the chunks of a document.
  pub insert_chunks : ℕ → ℕ → List Chunk → Action (Unit {0})
  insert_chunks document_id offset [] = done tt
  insert_chunks document_id offset (c ∷ chunks) = do
    write (insert_chunk (chunk_row document_id offset c))
    insert_chunks document_id ((offset + 1) % 2 ^ 64) chunks

  -- The row id that the document gets is that of `sqlite3_last_insert_rowid`.
  pub insert_content : StoredDocument → ℕ → Action (Unit {0})
  insert_content document vector_generation db =
      let id = new_row_id (map (λ (d : DocumentRow). d.row_id) db.tables.documents) in
      (do
        write (insert_document id document)
        insert_chunks id 0 document.chunks
        set_metadata (codes "active_vector_generation") (to_string vector_generation))
        db

  pub replace_document : StoredDocument → ℕ → Action (Unit {0})
  replace_document document vector_generation = do
    erase_document document.relative_path
    insert_content document vector_generation

  -- The constructor, on a database whose tables exist: the statements of its end.
  pub open_repository : Action (Unit {0})
  open_repository db =
      (do write (λ t. ok (refresh_fts t)); set_metadata (codes "schema_version") (codes "2"))
        (record db { tables = durable db; saved = none })
