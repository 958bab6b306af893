-- ===== src/Sqlite/Schema/Consistent.antt =====
-- The statements keep the tables consistent.
use llamacodelab.Prelude.{
  ℕ, Bool, true, false, not, [], ◌∷◌, ◌++◌, filter, any, All, All-append, All-imp, ◌==◌, ==_iff,
  bytes_eq, bytes_eq_iff, Bytes, Bool-cases, ◌≡◌, ◌≢◌, inl, inr, refl, ap, ◌∙◌,
}
use llamacodelab.Prelude.Sort.{AllPairs}
use llamacodelab.Prelude.Filter.{AllPairs-filter, AllPairs-snoc, filter-All, any-false}
use llamacodelab.Prelude.Result.{runtime_error, Yields}
use llamacodelab.Sqlite.Schema.Rows.{
  fts_rows-filter, has_document-append, kept-dropped, rows_of-append_document, rows_of-filter,
  rows_of-snoc,
}
use llamacodelab.Sqlite.Schema.{
  StoredDocument, DocumentRow, ChunkRow, FtsRow, Tables, kept_document, has_document, kept_chunk,
  kept_row, delete_document, insert_document, fts_rows, document_row, insert_chunk, rows_of,
}

-- Paths and ids are not used twice, each chunk belongs to a document, and the full-text index has the
-- rows of the chunks.
pub record IsConsistent (t : Tables) : Type 0 where
  pub paths : AllPairs (λ (d e : DocumentRow). d.relative_path ≢ e.relative_path) t.documents
  pub ids : AllPairs (λ (d e : DocumentRow). d.row_id ≢ e.row_id) t.documents
  pub chunk_ids : AllPairs (λ (c d : ChunkRow). c.row_id ≢ d.row_id) t.chunks
  pub owned : All (λ (c : ChunkRow). has_document c.document_id t.documents ≡ true) t.chunks
  pub searchable : t.chunk_fts ≡ rows_of t.documents t.chunks

not-not : (b : Bool) → not (not b) ≡ b
not-not true = refl
not-not false = refl

pub delete_document-IsConsistent :
    (path : Bytes) (t : Tables) → IsConsistent t → IsConsistent (delete_document path t)
unfolding delete_document
delete_document-IsConsistent path t h =
    let kept = filter (kept_document path) t.documents in
    let stays : ChunkRow → Bool = kept_chunk kept in
    record {
      paths = AllPairs-filter _ (kept_document path) t.documents h.paths;
      ids = AllPairs-filter _ (kept_document path) t.documents h.ids;
      chunk_ids = AllPairs-filter _ stays t.chunks h.chunk_ids;
      owned = filter-All stays t.chunks;
      searchable =
          ap (filter (kept_row (filter (λ c. not (stays c)) t.chunks))) h.searchable
          ∙ rows_of-filter stays (kept_row (filter (λ c. not (stays c)) t.chunks)) t.documents kept
              t.chunks
              (All-imp (λ c p r e. rw e (ap not p ∙ not-not (stays c))) t.chunks
                (kept-dropped stays t.chunks h.chunk_ids))
              (All-imp (λ c p e. fts_rows-filter (kept_document path) t.documents c h.ids e)
                t.chunks h.owned);
    }

pub insert_document-IsConsistent :
    (id : ℕ) (document : StoredDocument) (t : Tables)
    → All (λ (d : DocumentRow). d.row_id ≢ id) t.documents
    → IsConsistent t
    → Yields IsConsistent (λ e. e ≡ runtime_error) (insert_document id document t)
unfolding insert_document
insert_document-IsConsistent id document t fresh h =
    elim (Bool-cases
      (any (λ (d : DocumentRow). bytes_eq d.relative_path document.relative_path) t.documents)) [
        | inl taken ↦ rw taken refl
        | inr free ↦
            let others = any-false _ t.documents free in
            rw free (record {
              paths = AllPairs-snoc _ t.documents (document_row id document) h.paths (
                  All-imp
                    (λ d ne e.
                      absurd (cc (ne, (bytes_eq_iff d.relative_path document.relative_path).1 e)))
                    t.documents others);
              ids = AllPairs-snoc _ t.documents (document_row id document) h.ids fresh;
              chunk_ids = h.chunk_ids;
              owned =
                  All-imp (λ c has. has_document-append c.document_id t.documents _ has) t.chunks
                    h.owned;
              searchable =
                  h.searchable
                  ∙ rows_of-append_document id t.documents (document_row id document) t.chunks fresh
                      h.owned;
            })
      ]

pub insert_chunk-IsConsistent :
    (c : ChunkRow) (t : Tables)
    → IsConsistent t
    → Yields IsConsistent (λ e. e ≡ runtime_error) (insert_chunk c t)
unfolding insert_chunk
insert_chunk-IsConsistent c t h =
    elim (Bool-cases (any (λ (x : ChunkRow). x.row_id == c.row_id) t.chunks)) [
      | inl taken ↦ rw taken refl
      | inr free ↦ elim (Bool-cases (has_document c.document_id t.documents)) [
        | inr orphan ↦ rw free (rw orphan refl)
        | inl has ↦ elim (Bool-cases (any (λ (r : FtsRow). r.row_id == c.row_id) t.chunk_fts)) [
          | inl indexed ↦ rw free (rw has (rw indexed refl))
          | inr clear ↦ rw free (
              rw has (
                rw clear (record {
                  paths = h.paths;
                  ids = h.ids;
                  chunk_ids = AllPairs-snoc _ t.chunks c h.chunk_ids (
                      All-imp (λ x ne e. absurd (cc (ne, (==_iff x.row_id c.row_id).1 e))) t.chunks
                        (any-false _ t.chunks free));
                  owned = All-append _ t.chunks (c ∷ []) h.owned (has, tt);
                  searchable =
                      ap (λ rows. rows ++ fts_rows t.documents c) h.searchable
                      ∙ rows_of-snoc t.documents t.chunks c;
                })))
        ]
      ]
    ]
