-- ===== src/Sqlite/Calls.antt =====
-- What holds after any sequence of calls of a repository, however the system answers the statements.
use llamacodelab.Prelude.{
  ℕ, none, List, [], ◌∷◌, map, All, All-map, Bytes, Option-cases, ◌+◌, ◌%◌, ◌^◌, ◌≡◌, ◌≢◌, inl, inr,
  refl, sym, subst,
}
use llamacodelab.Prelude.Result.{Result, ok, err, runtime_error, Yields}
use llamacodelab.Domain.{Chunk}
use llamacodelab.Sqlite.{
  Database, durable, Action, proceed, settle, done, ◌>>=◌, ◌>>◌, Answer, executes, refuses,
  rolls_all_back, abandon, write, begin, commit, rollback, set_metadata, erase_document,
  insert_chunks, insert_content, replace_document, open_repository,
}
use llamacodelab.Sqlite.Schema.{
  StoredDocument, DocumentRow, chunk_row, Tables, insert_document, insert_chunk, refresh_fts,
}
use llamacodelab.Sqlite.Schema.Consistent.{
  IsConsistent, delete_document-IsConsistent, insert_document-IsConsistent,
  insert_chunk-IsConsistent,
}
use llamacodelab.Sqlite.Schema.Refresh.{refresh_fts-IsConsistent}

-- The methods that write.
pub data Write : Type 0 where
  sets : Bytes → Bytes → Write
  erases : Bytes → Write
  replaces : StoredDocument → ℕ → Write

pub data Call : Type 0 where
  begins commits rolls_back opens : Call
  writes : Write → Call

-- The tables now and the tables on the disk are consistent.
abbrev pub IsSound : Database → Type 0
IsSound db = IsConsistent db.tables × IsConsistent (durable db)

pub data AnswerIs (a : Answer) : Type 0 where
  executed : a ≡ executes → AnswerIs a
  refused : a ≡ refuses → AnswerIs a
  rolled_back : a ≡ rolls_all_back → AnswerIs a

pub Answer-cases : (a : Answer) → AnswerIs a
Answer-cases executes = executed refl
Answer-cases refuses = refused refl
Answer-cases rolls_all_back = rolled_back refl

-- A rollback leaves what is on the disk, and the tables are then those.
pub abandon-durable :
    (db : Database) → ((abandon db).tables ≡ durable db) × (durable (abandon db) ≡ durable db)
unfolding abandon durable
abandon-durable db = elim (Option-cases db.saved) [
  | inl e ↦ (simp (e, abandon, durable), simp (e, abandon, durable))
  | inr (t, e) ↦ (simp (e, abandon, durable), simp (e, abandon, durable))
]

abandon-IsSound : (db : Database) → IsSound db → IsSound (abandon db)
abandon-IsSound db h = (
  subst IsConsistent (sym (abandon-durable db).0) h.1,
  subst IsConsistent (sym (abandon-durable db).1) h.1,
)

module _ (system : ℕ → Answer) (new_row_id : List ℕ → ℕ) where
  abbrev pub perform_write : Write → Action (Unit {0})
  perform_write (sets key value) = set_metadata system new_row_id key value
  perform_write (erases path) = erase_document system new_row_id path
  perform_write (replaces document generation) =
      replace_document system new_row_id document generation

  abbrev pub perform : Call → Action (Unit {0})
  perform begins = begin system new_row_id
  perform commits = commit system new_row_id
  perform rolls_back = rollback system new_row_id
  perform opens = open_repository system new_row_id
  perform (writes w) = perform_write w

  -- The writes one after another, as far as none throws.
  unfoldable pub run_writes : List Write → Action (Unit {0})
  run_writes [] = done tt
  run_writes (w ∷ rest) = perform_write w >> run_writes rest

  -- The calls one after another; the caller goes on where one throws.
  pub run : List Call → Database → Database
  run [] db = db
  run (c ∷ calls) db = run calls (perform c db).0

  -- Whatever an action does, it keeps `P`.
  abbrev pub Keeps : {A : Type 0} → (Database → Type 0) → Action A → Type 0
  Keeps P action = (db : Database) → P db → P (action db).0

  pub proceed-Keeps :
      {A B : Type 0} (P : Database → Type 0) (x : Database × Result A) (rest : A → Action B)
      → P x.0
      → ((a : A) → Keeps P (rest a))
      → P (proceed x rest).0
  proceed-Keeps P (db, err e) rest p k = p
  proceed-Keeps P (db, ok a) rest p k = k a db p

  pub bind-Keeps :
      {A B : Type 0} (P : Database → Type 0) (action : Action A) (rest : A → Action B)
      → Keeps P action
      → ((a : A) → Keeps P (rest a))
      → Keeps P (action >>= rest)
  bind-Keeps P action rest h k db p = proceed-Keeps P (action db) rest (h db p) k

  settle-IsSound :
      (db : Database) (r : Result Tables)
      → Yields IsConsistent (λ e. e ≡ runtime_error) r
      → IsSound db
      → IsSound (settle db r).0
  unfolding durable
  settle-IsSound db (err e) y h = h
  settle-IsSound db (ok tables) y h = elim (Option-cases db.saved) [
    | inl e ↦ rw e (y, y)
    | inr (saved, e) ↦ rw e (y, rw e at h.1)
  ]

  write-IsSound :
      (change : Tables → Result Tables) (db : Database)
      → Yields IsConsistent (λ e. e ≡ runtime_error) (change db.tables)
      → IsSound db
      → IsSound (write system new_row_id change db).0
  unfolding write durable
  write-IsSound change db y h = elim (Answer-cases (system db.statements)) [
    | refused e ↦ rw (e, write) h
    | rolled_back e ↦
        rw (e, write) (abandon-IsSound (record db { statements = db.statements + 1 }) h)
    | executed e ↦
        rw (e, write)
          (settle-IsSound (record db { statements = db.statements + 1 }) (change db.tables) y h)
  ]

  write-Keeps :
      (change : Tables → Result Tables)
      → ((t : Tables) → IsConsistent t → Yields IsConsistent (λ e. e ≡ runtime_error) (change t))
      → Keeps IsSound (write system new_row_id change)
  write-Keeps change y db h = write-IsSound change db (y db.tables h.0) h

  set_metadata-Keeps :
      (key value : Bytes) → Keeps IsSound (set_metadata system new_row_id key value)
  unfolding set_metadata
  set_metadata-Keeps key value = write-Keeps _ (λ t h. record {
    paths = h.paths;
    ids = h.ids;
    chunk_ids = h.chunk_ids;
    owned = h.owned;
    searchable = h.searchable;
  })

  insert_chunks-Keeps :
      (document_id offset : ℕ) (chunks : List Chunk)
      → Keeps IsSound (insert_chunks system new_row_id document_id offset chunks)
  unfolding insert_chunks
  insert_chunks-Keeps document_id offset [] db h = h
  insert_chunks-Keeps document_id offset (c ∷ chunks) db h =
      bind-Keeps IsSound (write system new_row_id (insert_chunk (chunk_row document_id offset c))) _
        (write-Keeps _ (insert_chunk-IsConsistent (chunk_row document_id offset c)))
        (λ _. insert_chunks-Keeps document_id ((offset + 1) % 2 ^ 64) chunks) db h

  begin-Keeps : Keeps IsSound (begin system new_row_id)
  unfolding begin durable
  begin-Keeps db h = elim (Answer-cases (system db.statements)) [
    | refused e ↦ rw (e, begin) h
    | rolled_back e ↦
        rw (e, begin) (abandon-IsSound (record db { statements = db.statements + 1 }) h)
    | executed executed_it ↦ elim (Option-cases db.saved) [
      | inl e ↦ rw (executed_it, begin) (rw e (h.0, h.0))
      | inr (t, e) ↦ rw (executed_it, begin) (rw e h)
    ]
  ]

  commit-Keeps : Keeps IsSound (commit system new_row_id)
  unfolding commit durable
  commit-Keeps db h = elim (Answer-cases (system db.statements)) [
    | refused e ↦ rw (e, commit) h
    | rolled_back e ↦
        rw (e, commit) (abandon-IsSound (record db { statements = db.statements + 1 }) h)
    | executed executed_it ↦ elim (Option-cases db.saved) [
      | inl e ↦ rw (executed_it, commit) (rw e h)
      | inr (t, e) ↦ rw (executed_it, commit) (rw e (h.0, h.0))
    ]
  ]

  rollback-Keeps : Keeps IsSound (rollback system new_row_id)
  unfolding rollback durable
  rollback-Keeps db h = elim (Answer-cases (system db.statements)) [
    | refused e ↦ rw (e, rollback) h
    | rolled_back e ↦
        rw (e, rollback) (abandon-IsSound (record db { statements = db.statements + 1 }) h)
    | executed executed_it ↦ elim (Option-cases db.saved) [
      | inl e ↦ rw (executed_it, rollback) (rw e h)
      | inr (t, e) ↦ rw (executed_it, rollback) (rw e (rw e at h.1, rw e at h.1))
    ]
  ]

  open_repository-Keeps : Keeps IsSound (open_repository system new_row_id)
  unfolding open_repository durable
  open_repository-Keeps db h =
      bind-Keeps IsSound (write system new_row_id (λ t. ok (refresh_fts t))) _
        (write-Keeps _ refresh_fts-IsConsistent) (λ _. set_metadata-Keeps _ _)
        (record db { tables = durable db; saved = none }) (h.1, h.1)

  erase_document-Keeps : (path : Bytes) → Keeps IsSound (erase_document system new_row_id path)
  unfolding erase_document
  erase_document-Keeps path = write-Keeps _ (delete_document-IsConsistent path)

  module _ (fresh : (ids : List ℕ) → All (λ i. i ≢ new_row_id ids) ids) where
    insert_content-Keeps :
        (document : StoredDocument) (generation : ℕ)
        → Keeps IsSound (insert_content system new_row_id document generation)
    unfolding insert_content
    insert_content-Keeps document generation db h =
        let id = new_row_id (map (λ (d : DocumentRow). d.row_id) db.tables.documents) in
        proceed-Keeps IsSound (write system new_row_id (insert_document id document) db) _
          (write-IsSound (insert_document id document) db
            (insert_document-IsConsistent id document db.tables
              (All-map _ _ db.tables.documents (fresh _)) h.0)
            h)
          (λ _.
            bind-Keeps IsSound (insert_chunks system new_row_id id 0 document.chunks) _
              (insert_chunks-Keeps id 0 document.chunks) (λ _. set_metadata-Keeps _ _))

    perform-Keeps : (c : Call) → Keeps IsSound (perform c)
    unfolding replace_document
    perform-Keeps begins = begin-Keeps
    perform-Keeps commits = commit-Keeps
    perform-Keeps rolls_back = rollback-Keeps
    perform-Keeps opens = open_repository-Keeps
    perform-Keeps (writes (sets key value)) = set_metadata-Keeps key value
    perform-Keeps (writes (erases path)) = erase_document-Keeps path
    perform-Keeps (writes (replaces document generation)) =
        bind-Keeps IsSound (erase_document system new_row_id document.relative_path) _
          (erase_document-Keeps document.relative_path)
          (λ _. insert_content-Keeps document generation)

    -- From consistent tables, whatever the calls and however the system answers the statements, the tables
    -- and what is on the disk stay consistent, if SQLite's new row ids are new: no two documents have a
    -- path or an id in common, no two chunks an id, each chunk belongs to a document, and the full-text
    -- index has the rows of the chunks.
    pub run-IsSound : (calls : List Call) (db : Database) → IsSound db → IsSound (run calls db)
    unfolding run
    run-IsSound [] db h = h
    run-IsSound (c ∷ calls) db h = run-IsSound calls (perform c db).0 (perform-Keeps c db h)
