-- ===== src/Sqlite/Schema/Refresh.antt =====
-- Writing the rows of the full-text index again changes nothing where they are there.
use llamacodelab.Prelude.{
  ℕ, List, [], ◌∷◌, ◌++◌, All, All-imp, All-append, ◌==◌, ==_iff, ==-ne, Bool-cases, ◌≡◌, ◌≢◌, inl,
  inr, refl, sym, ap, ◌∙◌,
}
use llamacodelab.Prelude.Sort.{AllPairs}
use llamacodelab.Prelude.Filter.{All-both}
use llamacodelab.Sqlite.Schema.{
  DocumentRow, ChunkRow, FtsRow, Tables, fts_rows, rows_of, put_row, put_rows, refresh_fts,
}
use llamacodelab.Sqlite.Schema.Rows.{fts_rows-row_id, fts_rows-none}
use llamacodelab.Sqlite.Schema.Consistent.{IsConsistent}

abbrev Distinct : List FtsRow → Type 0
Distinct = AllPairs (λ (r s : FtsRow). r.row_id ≢ s.row_id)

put_row-same :
    (rows : List FtsRow) → Distinct rows → All (λ (r : FtsRow). put_row r rows ≡ rows) rows
unfolding put_row
put_row-same [] h = tt
put_row-same (r ∷ rows) h = (
  rw ((==_iff r.row_id r.row_id).1 refl) refl,
  All-imp {Q = λ (x : FtsRow). put_row x (r ∷ rows) ≡ r ∷ rows}
      (λ x p. rw (==-ne r.row_id x.row_id p.0) (ap (◌∷◌ r) p.1)) rows
      (All-both _ _ rows h.0 (put_row-same rows h.1)),
)

put_rows-same :
    (fresh rows : List FtsRow)
    → All (λ (r : FtsRow). put_row r rows ≡ rows) fresh
    → put_rows fresh rows ≡ rows
unfolding put_rows
put_rows-same [] rows h = refl
put_rows-same (r ∷ fresh) rows h = rw h.0 (put_rows-same fresh rows h.1)

AllPairs-append :
    (front back : List FtsRow)
    → Distinct front
    → Distinct back
    → All (λ (r : FtsRow). All (λ (s : FtsRow). r.row_id ≢ s.row_id) back) front
    → Distinct (front ++ back)
AllPairs-append [] back h k apart = k
AllPairs-append (r ∷ front) back h k apart =
    (All-append _ front back h.0 apart.0, AllPairs-append front back h.1 k apart.1)

fts_rows-Distinct :
    (documents : List DocumentRow) (c : ChunkRow)
    → AllPairs (λ (d e : DocumentRow). d.row_id ≢ e.row_id) documents
    → Distinct (fts_rows documents c)
unfolding fts_rows
fts_rows-Distinct [] c h = tt
fts_rows-Distinct (d ∷ documents) c h = elim (Bool-cases (d.row_id == c.document_id)) [
  | inr e ↦ rw e (fts_rows-Distinct documents c h.1)
  | inl e ↦
      let same : d.row_id ≡ c.document_id = (==_iff d.row_id c.document_id).0 e in
      rw e
        (rw (fts_rows-none documents c (All-imp (λ x ne q. ne (same ∙ q)) documents h.0)) (tt, tt))
]

rows_of-apart :
    (documents : List DocumentRow) (id : ℕ) (chunks : List ChunkRow)
    → All (λ (c : ChunkRow). id ≢ c.row_id) chunks
    → All (λ (r : FtsRow). id ≢ r.row_id) (rows_of documents chunks)
unfolding rows_of
rows_of-apart documents id [] h = tt
rows_of-apart documents id (c ∷ chunks) h =
    All-append _ (fts_rows documents c) (rows_of documents chunks)
      (All-imp (λ r e q. h.0 (q ∙ e)) _ (fts_rows-row_id documents c))
      (rows_of-apart documents id chunks h.1)

rows_of-Distinct :
    (documents : List DocumentRow) (chunks : List ChunkRow)
    → AllPairs (λ (d e : DocumentRow). d.row_id ≢ e.row_id) documents
    → AllPairs (λ (c d : ChunkRow). c.row_id ≢ d.row_id) chunks
    → Distinct (rows_of documents chunks)
unfolding rows_of
rows_of-Distinct documents [] h k = tt
rows_of-Distinct documents (c ∷ chunks) h k =
    AllPairs-append (fts_rows documents c) (rows_of documents chunks)
      (fts_rows-Distinct documents c h) (rows_of-Distinct documents chunks h k.1)
      (All-imp
        (λ r e. All-imp (λ s ne q. ne (sym e ∙ q)) _ (rows_of-apart documents c.row_id chunks k.0))
        _ (fts_rows-row_id documents c))

pub refresh_fts-IsConsistent : (t : Tables) → IsConsistent t → IsConsistent (refresh_fts t)
unfolding refresh_fts
refresh_fts-IsConsistent t h = record {
  paths = h.paths;
  ids = h.ids;
  chunk_ids = h.chunk_ids;
  owned = h.owned;
  searchable =
      ap (put_rows (rows_of t.documents t.chunks)) h.searchable
      ∙ put_rows-same _ _
          (put_row-same _ (rows_of-Distinct t.documents t.chunks h.ids h.chunk_ids));
}
