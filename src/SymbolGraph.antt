-- ===== src/SymbolGraph.antt =====
-- src/application/symbol_graph_retriever.cpp: hits from the symbols that a question names, and from those
-- that call or are called. The symbol repository is a parameter.
pub mod Names
pub mod Awards
mod Tests
use llamacodelab.Prelude.{
  is_alnum, ℕ, Bool, true, false, ◌&&◌, ◌||◌, Option, List, [], ◌∷◌, ◌++◌, map, if◌then◌else◌, leb,
  ◌==◌, Bytes, codes, contains,
}
use llamacodelab.Prelude.Assoc.{Assoc}
use llamacodelab.Domain.{Floats, SearchHit, SourceRange}
use llamacodelab.Ranking.{best}
use llamacodelab.Fusion.{add_score, to_hit}

pub data SymbolKind : Type 0 where
  namespace_ class_ struct_ function method constructor_ destructor enum_ variable : SymbolKind

pub record Symbol : Type 0 where
  pub id : ℕ
  pub kind : SymbolKind
  pub qualified_name : Bytes
  pub signature : Bytes
  pub declaration : SourceRange
  pub definition : Option SourceRange

pub record SymbolEdge : Type 0 where
  pub from : ℕ
  pub to : ℕ
  pub relation : Bytes

-- ISymbolRepository, as far as it is asked.
pub record SymbolRepository : Type 0 where
  pub find_exact : Bytes → List Symbol
  pub outgoing : ℕ → Bytes → List SymbolEdge
  pub incoming : ℕ → Bytes → List SymbolEdge

-- isalnum, `_` or `:`
abbrev pub is_name_byte : ℕ → Bool
is_name_byte c = is_alnum c || c == 95 || c == 58

-- The lambda `flush`: a token with `::` is a name.
pub flush : Bytes → List Bytes
flush token = if contains token (codes "::") then token ∷ [] else []

-- The loop over the bytes of the question, with the token before them.
pub names_from : Bytes → Bytes → List Bytes
names_from token [] = flush token
names_from token (c ∷ query) =
    if is_name_byte c
    then names_from (token ++ (c ∷ [])) query
    else flush token ++ names_from [] query

pub extract_qualified_names : Bytes → List Bytes
extract_qualified_names query = names_from [] query

-- The last word is Chinese for "call", in UTF-8.
pub is_caller_query : Bytes → Bool
is_caller_query query =
    contains query (codes "caller")
    || contains query (codes "calls")
    || contains query (232 ∷ 176 ∷ 131 ∷ 231 ∷ 148 ∷ 168 ∷ [])

-- The symbols next to one, by its edges.
pub neighbours : SymbolRepository → Bool → ℕ → List ℕ
neighbours symbols true id = map (λ (e : SymbolEdge). e.from) (symbols.incoming id (codes "calls"))
neighbours symbols false id = map (λ (e : SymbolEdge). e.to) (symbols.outgoing id [])

module _ (f : Floats) (symbols : SymbolRepository) where
  -- The loop over the edges.
  pub score_neighbours : List ℕ → Assoc f.Float → Assoc f.Float
  score_neighbours [] scores = scores
  score_neighbours (id ∷ ids) scores = score_neighbours ids (add_score f id f.one_f scores)

  -- The loop over the symbols of a name.
  pub score_symbols : Bool → List Symbol → Assoc f.Float → Assoc f.Float
  score_symbols caller_query [] scores = scores
  score_symbols caller_query (s ∷ rest) scores = score_symbols caller_query rest (
      score_neighbours (neighbours symbols caller_query s.id)
        (add_score f s.id (f.of_nat 2) scores))

  -- The loop over the names.
  pub score_names : Bool → List Bytes → Assoc f.Float → Assoc f.Float
  score_names caller_query [] scores = scores
  score_names caller_query (name ∷ names) scores =
      score_names caller_query names (score_symbols caller_query (symbols.find_exact name) scores)

  pub retrieve_symbols : Bytes → ℕ → List (SearchHit f)
  retrieve_symbols query top_k =
      best f top_k
        (map (to_hit f) (score_names (is_caller_query query) (extract_qualified_names query) []))
