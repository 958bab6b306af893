-- ===== src/FullText.antt =====
-- src/adapters/sqlite/fts_search.cpp: the search in the full-text index. SQLite's answer to a MATCH
-- expression and a limit is a parameter.
pub mod Expression
mod Tests
use llamacodelab.Prelude.{
  ℕ, ◌-◌, ◌^◌, Bool, true, false, ◌||◌, List, [], ◌∷◌, ◌++◌, if◌then◌else◌, ltb, ◌==◌, Bytes, codes,
  is_empty, is_alnum,
}
use llamacodelab.Prelude.Result.{Result, ok, err, invalid_argument, throw_if, ◌>>=◌, ◌>>◌}
use llamacodelab.Domain.{Floats, SearchHit}

-- isalnum or `_`
pub is_term_byte : ℕ → Bool
is_term_byte c = is_alnum c || c == 95

-- The first loop of `fts_query`, with the term before the bytes that are left.
pub terms_from : Bytes → Bytes → List Bytes
terms_from term [] = if is_empty term then [] else term ∷ []
terms_from term (c ∷ query) =
    if is_term_byte c
    then terms_from (term ++ (c ∷ [])) query
    else if is_empty term
    then terms_from [] query
    else term ∷ terms_from [] query

abbrev pub quoted : Bytes → Bytes
quoted item = 34 ∷ item ++ (34 ∷ [])

-- The second loop.
pub join_terms : Bytes → List Bytes → Bytes
join_terms result [] = result
join_terms result (item ∷ terms) =
    join_terms ((if is_empty result then [] else result ++ codes " AND ") ++ quoted item) terms

pub fts_query : Bytes → Bytes
fts_query query = join_terms [] (terms_from [] query)

module _ (f : Floats) (matches : Bytes → ℕ → Result (List (SearchHit f))) where
  pub search_text : Bytes → ℕ → Result (List (SearchHit f))
  search_text query top_k =
      if top_k == 0 || is_empty (fts_query query)
      then ok []
      else if ltb (2 ^ 31 - 1) top_k
      then err invalid_argument
      else matches (fts_query query) top_k
