-- ===== src/Sqlite/Transaction.antt =====
-- A transaction takes effect as a whole, or not at all.
use llamacodelab.Prelude.{
  ℕ, none, some, List, [], ◌∷◌, map, ◌≡◌, ◌⊎◌, inl, inr, refl, ◌∙◌, ◌+◌, ◌%◌, ◌^◌,
}
use llamacodelab.Prelude.Result.{Result, ok, err, runtime_error}
use llamacodelab.Domain.{Chunk}
use llamacodelab.Sqlite.{
  Database, durable, Action, proceed, settle, Answer, abandon, write, begin, commit, rollback,
  set_metadata, erase_document, insert_chunks, insert_content, replace_document,
}
use llamacodelab.Sqlite.Schema.{DocumentRow, chunk_row, Tables, insert_document, insert_chunk}
use llamacodelab.Sqlite.Calls.{
  Write, sets, erases, replaces, perform_write, run_writes, executed, refused, rolled_back,
  Answer-cases, abandon-durable,
}

-- The transaction over the tables `t` is open.
abbrev Saves : Tables → Database → Type 0
Saves t db = db.saved ≡ some t

-- It is open, or SQLite has rolled it back.
abbrev IsUndone : Tables → Database → Type 0
IsUndone t db = Saves t db ⊎ ((db.saved ≡ none) × (db.tables ≡ t))

-- After what returned the transaction is open; what threw may have been rolled back.
abbrev Remains : {A : Type 0} → Tables → Database × Result A → Type 0
Remains t (db, ok a) = Saves t db
Remains t (db, err e) = IsUndone t db

proceed-Remains :
    {A B : Type 0} (t : Tables) (x : Database × Result A) (rest : A → Action B)
    → Remains t x
    → ((a : A) (db : Database) → Saves t db → Remains t (rest a db))
    → Remains t (proceed x rest)
proceed-Remains t (db, err e) rest h k = h
proceed-Remains t (db, ok a) rest h k = k a db h

settle-Remains :
    (t : Tables) (db : Database) (r : Result Tables) → Saves t db → Remains t (settle db r)
settle-Remains t db (err e) h = inl h
settle-Remains t db (ok u) h = h

Remains-IsUndone : (t : Tables) (x : Database × Result (Unit {0})) → Remains t x → IsUndone t x.0
Remains-IsUndone t (db, ok a) h = inl h
Remains-IsUndone t (db, err e) h = h

Remains-open :
    (t : Tables) (x : Database × Result (Unit {0})) → Remains t x → x.1 ≡ ok tt → Saves t x.0
Remains-open t (db, ok a) h e = h
Remains-open t (db, err x) h e = absurd (cc e)

abbrev counted : Database → Database
counted db = record db { statements = db.statements + 1 }

abandon-IsUndone :
    (t : Tables) (db : Database)
    → Saves t db
    → ((abandon db).saved ≡ none) × ((abandon db).tables ≡ t)
unfolding abandon
abandon-IsUndone t db h = rw (h, abandon) (refl, refl)

module _ (system : ℕ → Answer) (new_row_id : List ℕ → ℕ) where
  write-Remains :
      (t : Tables) (change : Tables → Result Tables) (db : Database)
      → Saves t db
      → Remains t (write system new_row_id change db)
  unfolding write
  write-Remains t change db h = elim (Answer-cases (system db.statements)) [
    | refused e ↦ rw (e, write) (inl h)
    | rolled_back e ↦ rw (e, write) (inr (abandon-IsUndone t (counted db) h))
    | executed e ↦ rw (e, write) (settle-Remains t (counted db) (change db.tables) h)
  ]

  insert_chunks-Remains :
      (t : Tables) (document_id offset : ℕ) (chunks : List Chunk) (db : Database)
      → Saves t db
      → Remains t (insert_chunks system new_row_id document_id offset chunks db)
  unfolding insert_chunks
  insert_chunks-Remains t document_id offset [] db h = h
  insert_chunks-Remains t document_id offset (c ∷ chunks) db h =
      proceed-Remains t (write system new_row_id (insert_chunk (chunk_row document_id offset c)) db)
        _ (write-Remains t _ db h)
        (λ _. insert_chunks-Remains t document_id ((offset + 1) % 2 ^ 64) chunks)

  perform_write-Remains :
      (t : Tables) (w : Write) (db : Database)
      → Saves t db
      → Remains t (perform_write system new_row_id w db)
  unfolding set_metadata erase_document replace_document insert_content
  perform_write-Remains t (sets key value) db h = write-Remains t _ db h
  perform_write-Remains t (erases path) db h = write-Remains t _ db h
  perform_write-Remains t (replaces document generation) db h =
      proceed-Remains t (erase_document system new_row_id document.relative_path db) _
        (write-Remains t _ db h)
        (λ _ db' h'.
          let id = new_row_id (map (λ (d : DocumentRow). d.row_id) db'.tables.documents) in
          proceed-Remains t (write system new_row_id (insert_document id document) db') _
            (write-Remains t _ db' h')
            (λ _ b k.
              proceed-Remains t (insert_chunks system new_row_id id 0 document.chunks b) _
                (insert_chunks-Remains t id 0 document.chunks b k) (λ _. write-Remains t _)))

  run_writes-Remains :
      (t : Tables) (writes : List Write) (db : Database)
      → Saves t db
      → Remains t (run_writes system new_row_id writes db)
  unfolding run_writes
  run_writes-Remains t [] db h = h
  run_writes-Remains t (w ∷ writes) db h =
      proceed-Remains t (perform_write system new_row_id w db) _ (perform_write-Remains t w db h)
        (λ _. run_writes-Remains t writes)

  -- How a transaction over the tables `t` may end, once the writes `x` in it have returned or one has
  -- thrown.
  pub record IsAtomic (t : Tables) (x : Database × Result (Unit {0})) : Type 0 where
    pub pending : durable x.0 ≡ t
    pub still_open : x.1 ≡ ok tt → x.0.saved ≡ some t
    pub committed :
        (commit system new_row_id x.0).1 ≡ ok tt
        → durable (commit system new_row_id x.0).0 ≡ x.0.tables
    pub not_committed :
        (commit system new_row_id x.0).1 ≡ err runtime_error
        → durable (commit system new_row_id x.0).0 ≡ t
    pub undone : durable (rollback system new_row_id x.0).0 ≡ t
    pub silent : (rollback system new_row_id x.0).1 ≡ ok tt

  -- What is on the disk after a commit that returned, and after one that threw.
  abbrev CommitEnds : Tables → Database → Database × Result (Unit {0}) → Type 0
  CommitEnds t db (db', ok a) = durable db' ≡ db.tables
  CommitEnds t db (db', err e) = durable db' ≡ t

  undone-durable : (t : Tables) (db : Database) → IsUndone t db → durable db ≡ t
  unfolding durable
  undone-durable t db (inl e) = rw e refl
  undone-durable t db (inr (e, same)) = rw e same

  durable_idle : (db : Database) → db.saved ≡ none → durable db ≡ db.tables
  unfolding durable
  durable_idle db e = rw e refl

  commit-CommitEnds :
      (t : Tables) (db : Database) → IsUndone t db → CommitEnds t db (commit system new_row_id db)
  unfolding commit
  commit-CommitEnds t db h = elim (Answer-cases (system db.statements)) [
    | refused e ↦ rw (e, commit) (undone-durable t (counted db) h)
    | rolled_back e ↦
        rw (e, commit) ((abandon-durable (counted db)).1 ∙ undone-durable t (counted db) h)
    | executed e ↦ elim h [
      | inl saved ↦ simp (e, saved, commit) (durable_idle _ refl)
      | inr (idle, same) ↦ simp (e, idle, commit) (durable_idle _ refl ∙ same)
    ]
  ]

  rollback-undone :
      (t : Tables) (db : Database)
      → IsUndone t db
      → (durable (rollback system new_row_id db).0 ≡ t)
        × ((rollback system new_row_id db).1 ≡ ok tt)
  unfolding rollback
  rollback-undone t db h = elim (Answer-cases (system db.statements)) [
    | refused e ↦ rw (e, rollback) (undone-durable t (counted db) h, refl)
    | rolled_back e ↦
        rw (e, rollback) ((abandon-durable (counted db)).1 ∙ undone-durable t (counted db) h, refl)
    | executed e ↦ elim h [
      | inl saved ↦ simp (e, saved, rollback) (durable_idle _ refl, refl)
      | inr (idle, same) ↦ simp (e, idle, rollback) (durable_idle _ refl ∙ same, refl)
    ]
  ]

  CommitEnds-ok :
      (t : Tables) (db : Database) (y : Database × Result (Unit {0}))
      → CommitEnds t db y
      → y.1 ≡ ok tt
      → durable y.0 ≡ db.tables
  CommitEnds-ok t db (db', ok a) h e = h
  CommitEnds-ok t db (db', err x) h e = absurd (cc e)

  CommitEnds-err :
      (t : Tables) (db : Database) (y : Database × Result (Unit {0}))
      → CommitEnds t db y
      → y.1 ≡ err runtime_error
      → durable y.0 ≡ t
  CommitEnds-err t db (db', ok a) h e = absurd (cc e)
  CommitEnds-err t db (db', err x) h e = h

  Remains-IsAtomic : (t : Tables) (x : Database × Result (Unit {0})) → Remains t x → IsAtomic t x
  Remains-IsAtomic t x h =
      let undone = Remains-IsUndone t x h in
      let ended = commit-CommitEnds t x.0 undone in
      record {
        pending = undone-durable t x.0 undone;
        still_open = Remains-open t x h;
        committed = CommitEnds-ok t x.0 (commit system new_row_id x.0) ended;
        not_committed = CommitEnds-err t x.0 (commit system new_row_id x.0) ended;
        undone = (rollback-undone t x.0 undone).0;
        silent = (rollback-undone t x.0 undone).1;
      }

  begin-Saves :
      (db : Database)
      → db.saved ≡ none
      → (begin system new_row_id db).1 ≡ ok tt
      → Saves db.tables (begin system new_row_id db).0
  unfolding begin
  begin-Saves db idle begun = elim (Answer-cases (system db.statements)) [
    | refused e ↦ absurd (cc (rw (e, begin) at begun))
    | rolled_back e ↦ absurd (cc (rw (e, begin) at begun))
    | executed e ↦ rw (e, begin) (rw idle refl)
  ]

  -- Let a transaction begin on a database with none open, and let writes follow, up to the first that
  -- throws, where SQLite may also roll the transaction back. Then the tables on the disk are those of
  -- the beginning; if no write threw, the transaction is still open. A commit that returns puts all
  -- that was written on the disk; after a commit that throws, and after a rollback, which never throws,
  -- the tables on the disk are those of the beginning.
  pub transaction-IsAtomic :
      (writes : List Write) (db : Database)
      → db.saved ≡ none
      → (begin system new_row_id db).1 ≡ ok tt
      → IsAtomic db.tables (run_writes system new_row_id writes (begin system new_row_id db).0)
  transaction-IsAtomic writes db idle begun =
      Remains-IsAtomic db.tables _
        (run_writes-Remains db.tables writes _ (begin-Saves db idle begun))
