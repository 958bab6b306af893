-- ===== src/FullText/Tests.antt =====
-- A question with a quotation mark.
use llamacodelab.Prelude.{List, Bytes, codes, ◌≡◌}
use llamacodelab.FullText.{fts_query}
use llamacodelab.FullText.Expression.{Splits, conjunction, fts_query-conjunction}

fts_query-conjunction_example :
    (terms : List Bytes) × Splits (codes "a\" OR b_c") terms
    × (fts_query (codes "a\" OR b_c") ≡ conjunction terms)
fts_query-conjunction_example = fts_query-conjunction (codes "a\" OR b_c")
