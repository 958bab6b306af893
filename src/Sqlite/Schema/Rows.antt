-- ===== src/Sqlite/Schema/Rows.antt =====
-- The rows of the full-text index, and the documents of chunks, when rows come and go.
use llamacodelab.Prelude.{
  ℕ, Bool, true, false, not, List, [], ◌∷◌, ◌++◌, append_assoc, append-nil, filter, any, All,
  All-filter, All-imp, ◌==◌, ==_iff, ==-ne, Bool-cases, ◌≡◌, ◌≢◌, inl, inr, refl, sym, ap, ap₂, ◌∙◌,
  arith,
}
use llamacodelab.Prelude.Sort.{AllPairs}
use llamacodelab.Prelude.Filter.{filter-append, filter-kept, filter-dropped, any-none, All-both}
use llamacodelab.Sqlite.Schema.{DocumentRow, ChunkRow, FtsRow, has_document, fts_rows, rows_of}

-- A document that is there is in the tables with another one added.
pub has_document-append :
    (id : ℕ) (documents more : List DocumentRow)
    → has_document id documents ≡ true
    → has_document id (documents ++ more) ≡ true
unfolding has_document any
has_document-append id [] more h = absurd (ground arith)
has_document-append id (d ∷ documents) more h =
    ground (arith, has_document-append id documents more)

pub fts_rows-row_id :
    (documents : List DocumentRow) (c : ChunkRow)
    → All (λ (r : FtsRow). r.row_id ≡ c.row_id) (fts_rows documents c)
unfolding fts_rows
fts_rows-row_id [] c = tt
fts_rows-row_id (d ∷ documents) c = elim (Bool-cases (d.row_id == c.document_id)) [
  | inl e ↦ rw e (refl, fts_rows-row_id documents c)
  | inr e ↦ rw e (fts_rows-row_id documents c)
]

pub fts_rows-none :
    (documents : List DocumentRow) (c : ChunkRow)
    → All (λ (d : DocumentRow). c.document_id ≢ d.row_id) documents
    → fts_rows documents c ≡ []
unfolding fts_rows
fts_rows-none [] c h = refl
fts_rows-none (d ∷ documents) c h =
    rw (==-ne d.row_id c.document_id (λ e. h.0 (sym e))) (fts_rows-none documents c h.1)

pub has_document-none :
    (id : ℕ) (documents : List DocumentRow)
    → All (λ (d : DocumentRow). id ≢ d.row_id) documents
    → has_document id documents ≡ false
unfolding has_document any
has_document-none id [] h = refl
has_document-none id (d ∷ documents) h =
    rw (==-ne d.row_id id (λ e. h.0 (sym e))) (has_document-none id documents h.1)

-- Documents that are not the chunk's do not matter for its row.
pub fts_rows-filter :
    (keep : DocumentRow → Bool) (documents : List DocumentRow) (c : ChunkRow)
    → AllPairs (λ (d e : DocumentRow). d.row_id ≢ e.row_id) documents
    → has_document c.document_id (filter keep documents) ≡ true
    → fts_rows (filter keep documents) c ≡ fts_rows documents c
unfolding filter fts_rows has_document any
fts_rows-filter keep [] c h k = refl
fts_rows-filter keep (d ∷ documents) c h k = elim (Bool-cases (d.row_id == c.document_id)) [
  | inr e ↦ elim (Bool-cases (keep d)) [
    | inr out ↦ rw out (rw e (fts_rows-filter keep documents c h.1 (rw out at k)))
    | inl stays ↦ rw stays (rw e (fts_rows-filter keep documents c h.1 (ground arith)))
  ]
  | inl e ↦
      let same : d.row_id ≡ c.document_id = (==_iff d.row_id c.document_id).0 e in
      let others : All (λ (x : DocumentRow). c.document_id ≢ x.row_id) documents =
        All-imp (λ x ne q. ne (same ∙ q)) documents h.0 in
      elim (Bool-cases (keep d)) [
        | inr out ↦
            let gone =
              has_document-none c.document_id (filter keep documents)
                (All-filter _ keep documents others) in
            absurd (cc (gone, rw out at k))
        | inl stays ↦
            let left =
              fts_rows-none (filter keep documents) c (All-filter _ keep documents others) in
            rw stays (rw e (rw left (rw (fts_rows-none documents c others) refl)))
      ]
]

-- The ids of the chunks that a deletion takes are those of no chunk that stays.
pub kept-dropped :
    (keep : ChunkRow → Bool) (chunks : List ChunkRow)
    → AllPairs (λ (c d : ChunkRow). c.row_id ≢ d.row_id) chunks
    → All
        (λ (c : ChunkRow).
          any (λ (d : ChunkRow). d.row_id == c.row_id) (filter (λ x. not (keep x)) chunks)
          ≡ not (keep c))
        chunks
unfolding filter any
kept-dropped keep [] h = tt
kept-dropped keep (c ∷ chunks) h =
    let others : All (λ (d : ChunkRow). (d.row_id == c.row_id) ≡ false)
        (filter (λ x. not (keep x)) chunks) =
      All-filter _ _ chunks
        (All-imp (λ d ne. ==-ne d.row_id c.row_id (λ e. ne (sym e))) chunks h.0) in
    elim (Bool-cases (keep c)) [
      | inl stays ↦ (
        rw stays (any-none _ _ others),
        All-imp (λ d p. rw stays p) chunks (kept-dropped keep chunks h.1),
      )
      | inr goes ↦ (
        rw goes (ground (arith, ==_iff c.row_id c.row_id)),
        All-imp (λ d p. rw goes (rw (==-ne c.row_id d.row_id p.0) p.1)) chunks
            (All-both _ _ chunks h.0 (kept-dropped keep chunks h.1)),
      )
    ]

-- The trigger deletes just the rows of the chunks that are deleted.
pub rows_of-filter :
    (keep : ChunkRow → Bool) (row_stays : FtsRow → Bool) (documents kept : List DocumentRow)
    (chunks : List ChunkRow)
    → All (λ (c : ChunkRow). (r : FtsRow) → r.row_id ≡ c.row_id → row_stays r ≡ keep c) chunks
    → All (λ (c : ChunkRow). keep c ≡ true → fts_rows kept c ≡ fts_rows documents c) chunks
    → filter row_stays (rows_of documents chunks) ≡ rows_of kept (filter keep chunks)
unfolding rows_of filter
rows_of-filter keep row_stays documents kept [] h k = refl
rows_of-filter keep row_stays documents kept (c ∷ chunks) h k =
    let rest = rows_of-filter keep row_stays documents kept chunks h.1 k.1 in
    let split = filter-append row_stays (fts_rows documents c) (rows_of documents chunks) in
    elim (Bool-cases (keep c)) [
      | inl stays ↦
          let own =
            filter-kept row_stays (fts_rows documents c)
              (All-imp (λ r e. h.0 r e ∙ stays) _ (fts_rows-row_id documents c)) in
          rw stays (split ∙ ap₂ ◌++◌ (own ∙ sym (k.0 stays)) rest)
      | inr goes ↦
          let own =
            filter-dropped row_stays (fts_rows documents c)
              (All-imp (λ r e. h.0 r e ∙ goes) _ (fts_rows-row_id documents c)) in
          rw goes (split ∙ ap₂ ◌++◌ own rest)
    ]

-- The row of a chunk of an older document.
pub fts_rows-append :
    (documents : List DocumentRow) (d : DocumentRow) (c : ChunkRow)
    → c.document_id ≢ d.row_id
    → fts_rows (documents ++ (d ∷ [])) c ≡ fts_rows documents c
unfolding fts_rows
fts_rows-append [] d c ne = rw (==-ne d.row_id c.document_id (λ e. ne (sym e))) refl
fts_rows-append (x ∷ documents) d c ne = rw (fts_rows-append documents d c ne) refl

pub owner-ne :
    (id owner : ℕ) (documents : List DocumentRow)
    → All (λ (d : DocumentRow). d.row_id ≢ id) documents
    → has_document owner documents ≡ true
    → owner ≢ id
owner-ne id owner documents fresh has same = absurd (
    cc (
      has,
      has_document-none owner documents (All-imp (λ d ne e. ne (sym e ∙ same)) documents fresh),
    ))

pub rows_of-append_document :
    (id : ℕ) (documents : List DocumentRow) (d : DocumentRow) (chunks : List ChunkRow)
    → All (λ (x : DocumentRow). x.row_id ≢ d.row_id) documents
    → All (λ (c : ChunkRow). has_document c.document_id documents ≡ true) chunks
    → rows_of documents chunks ≡ rows_of (documents ++ (d ∷ [])) chunks
unfolding rows_of
rows_of-append_document id documents d [] fresh h = refl
rows_of-append_document id documents d (c ∷ chunks) fresh h =
    ap₂ ◌++◌
      (sym (fts_rows-append documents d c (owner-ne d.row_id c.document_id documents fresh h.0)))
      (rows_of-append_document id documents d chunks fresh h.1)

pub rows_of-snoc :
    (documents : List DocumentRow) (chunks : List ChunkRow) (c : ChunkRow)
    → rows_of documents chunks ++ fts_rows documents c ≡ rows_of documents (chunks ++ (c ∷ []))
unfolding rows_of
rows_of-snoc documents [] c = sym (append-nil (fts_rows documents c))
rows_of-snoc documents (x ∷ chunks) c =
    append_assoc (fts_rows documents x) (rows_of documents chunks) (fts_rows documents c)
    ∙ ap (◌++◌ (fts_rows documents x)) (rows_of-snoc documents chunks c)
