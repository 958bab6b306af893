-- ===== src/SymbolGraph/Awards.antt =====
-- The scores of the symbols: sums of what each mention and each edge awards.
use llamacodelab.Prelude.{
  ℕ, Bool, true, false, Option, none, some, List, [], ◌∷◌, ◌++◌, map, All, All-imp, All-append,
  if◌then◌else◌, ◌==◌, ==_iff, Bool-cases, Bytes, codes, ◌≡◌, ◌↔◌, inl, inr, refl, sym, ap, subst,
  ◌∙◌,
}
use mathlib.Core.List.{Mem, mem-map_of_mem}
use llamacodelab.Prelude.Assoc.{Assoc, find, DistinctKeys, find_entries, mem-find}
use llamacodelab.Domain.{Floats, SearchHit, Compares, Positives}
use llamacodelab.Ranking.{IsBest, IsScored, best-IsBest}
use llamacodelab.Fusion.{add_score, to_hit}
use llamacodelab.Fusion.Scores.{sum_onto, find-add_score_self, find-add_score_ne, sum_onto-append}
use llamacodelab.Fusion.Laws.{
  add_score-DistinctKeys, All-to_hit, AllPairs-to_hit, add_score-IsPositive,
}
use llamacodelab.SymbolGraph.Names.{
  IsNamed, AsksCallers, extract_qualified_names-IsNamed, is_caller_query_iff,
}
use llamacodelab.SymbolGraph.{
  Symbol, SymbolEdge, SymbolRepository, extract_qualified_names, is_caller_query, neighbours,
  score_neighbours, score_symbols, score_names, retrieve_symbols,
}

module _ (f : Floats) where
  open f use {Float, zero_f, one_f, less, of_nat}

  -- One after another, awards are added to the scores.
  give : List (ℕ × Float) → Assoc Float → Assoc Float
  give [] scores = scores
  give ((id, x) ∷ awards) scores = give awards (add_score f id x scores)

  -- What `id` is awarded, in order.
  pub awarded : ℕ → List (ℕ × Float) → List Float
  awarded id [] = []
  awarded id ((j, x) ∷ awards) = let rest = awarded id awards in if j == id then x ∷ rest else rest

  give-append :
      (front back : List (ℕ × Float)) (scores : Assoc Float)
      → give (front ++ back) scores ≡ give back (give front scores)
  unfolding give
  give-append [] back scores = refl
  give-append ((id, x) ∷ front) back scores = give-append front back (add_score f id x scores)

  give-DistinctKeys :
      (awards : List (ℕ × Float)) (scores : Assoc Float)
      → DistinctKeys scores
      → DistinctKeys (give awards scores)
  unfolding give
  give-DistinctKeys [] scores d = d
  give-DistinctKeys ((id, x) ∷ awards) scores d =
      give-DistinctKeys awards _ (add_score-DistinctKeys f id x scores d)

  find-give :
      (id : ℕ) (awards : List (ℕ × Float)) (scores : Assoc Float)
      → find id (give awards scores) ≡ sum_onto f (find id scores) (awarded id awards)
  unfolding give awarded
  find-give id [] scores = unfold sum_onto in refl
  find-give id ((j, x) ∷ awards) scores =
      let rest = find-give id awards (add_score f j x scores) in
      let more = awarded id awards in
      elim (Bool-cases (j == id)) [
        | inl e ↦ rw e (
            rest
            ∙ ap (λ s. sum_onto f s more)
                (subst (λ k. find k (add_score f j x scores) ≡ sum_onto f (find k scores) (x ∷ []))
                  ((==_iff _ _).0 e) (find-add_score_self f j x scores))
            ∙ sym (sum_onto-append f (find id scores) (x ∷ []) more))
        | inr e ↦ rw e (
            rest
            ∙ ap (λ s. sum_onto f s more)
                (find-add_score_ne f j id x scores (λ p. cc (e, (==_iff _ _).1 p))))
      ]

  module _ (symbols : SymbolRepository) where
    -- 1 for each that calls the symbol, or for each that an edge of the symbol leads to.
    pub edge_awards : Bool → ℕ → List (ℕ × Float)
    edge_awards true id =
        map (λ (e : SymbolEdge). (e.from, one_f)) (symbols.incoming id (codes "calls"))
    edge_awards false id = map (λ (e : SymbolEdge). (e.to, one_f)) (symbols.outgoing id [])

    map_twice :
        {A : Type 0} (g : A → ℕ) (l : List A)
        → map {B = ℕ × Float} (λ id. (id, one_f)) (map g l) ≡ map (λ x. (g x, one_f)) l
    map_twice g [] = refl
    map_twice g (x ∷ l) = ap (◌∷◌ (g x, one_f)) (map_twice g l)

    neighbours-edge_awards :
        (caller_query : Bool) (id : ℕ)
        → map {B = ℕ × Float} (λ id. (id, one_f)) (neighbours symbols caller_query id)
          ≡ edge_awards caller_query id
    unfolding neighbours edge_awards
    neighbours-edge_awards true id = map_twice _ (symbols.incoming id (codes "calls"))
    neighbours-edge_awards false id = map_twice _ (symbols.outgoing id [])

    -- 2 for a symbol of the name, and what its edges award.
    pub symbol_awards : Bool → List Symbol → List (ℕ × Float)
    symbol_awards caller_query [] = []
    symbol_awards caller_query (s ∷ rest) =
        (s.id, of_nat 2) ∷ edge_awards caller_query s.id ++ symbol_awards caller_query rest

    pub name_awards : Bool → List Bytes → List (ℕ × Float)
    name_awards caller_query [] = []
    name_awards caller_query (name ∷ names) =
        symbol_awards caller_query (symbols.find_exact name) ++ name_awards caller_query names

    score_neighbours-give :
        (ids : List ℕ) (scores : Assoc Float)
        → score_neighbours f symbols ids scores ≡ give (map (λ id. (id, one_f)) ids) scores
    unfolding score_neighbours give
    score_neighbours-give [] scores = refl
    score_neighbours-give (id ∷ ids) scores =
        score_neighbours-give ids (add_score f id one_f scores)

    score_symbols-give :
        (caller_query : Bool) (found : List Symbol) (scores : Assoc Float)
        → score_symbols f symbols caller_query found scores
          ≡ give (symbol_awards caller_query found) scores
    unfolding score_symbols give symbol_awards
    score_symbols-give caller_query [] scores = refl
    score_symbols-give caller_query (s ∷ rest) scores =
        let near = neighbours symbols caller_query s.id in
        let first = add_score f s.id (of_nat 2) scores in
        ap (score_symbols f symbols caller_query rest) (score_neighbours-give near first)
        ∙ score_symbols-give caller_query rest _
        ∙ sym (give-append (map (λ id. (id, one_f)) near) (symbol_awards caller_query rest) first)
        ∙ ap (λ l. give (l ++ symbol_awards caller_query rest) first)
            (neighbours-edge_awards caller_query s.id)

    score_names-give :
        (caller_query : Bool) (names : List Bytes) (scores : Assoc Float)
        → score_names f symbols caller_query names scores
          ≡ give (name_awards caller_query names) scores
    unfolding score_names give name_awards
    score_names-give caller_query [] scores = refl
    score_names-give caller_query (name ∷ names) scores =
        ap (score_names f symbols caller_query names)
          (score_symbols-give caller_query (symbols.find_exact name) scores)
        ∙ score_names-give caller_query names _
        ∙ sym (
            give-append (symbol_awards caller_query (symbols.find_exact name))
              (name_awards caller_query names) scores)

    -- The score of an id: what the names award it, one after another.
    abbrev pub score_of : Bool → List Bytes → ℕ → Option Float
    score_of caller_query names id = sum_onto f none (awarded id (name_awards caller_query names))

    -- With the names in the question, and whether it is about callers: a score for each id that is awarded
    -- something, and for no other; the best of these hits are returned.
    pub record IsRetrieval (query : Bytes) (top_k : ℕ) (ranked : List (SearchHit f)) : Type 0 where
      pub names : List Bytes
      pub named : IsNamed query names
      pub caller_query : Bool
      pub asked : (caller_query ≡ true) ↔ AsksCallers query
      pub hits : List (SearchHit f)
      pub ranks : IsBest f top_k hits ranked
      pub scored :
          All (λ (h : SearchHit f). score_of caller_query names h.chunk_id ≡ some h.score) hits
      pub complete :
          (id : ℕ) (s : Float)
          → score_of caller_query names id ≡ some s
          → Mem (to_hit f (id, s)) hits

    module _ (p : Positives f) (one_positive : less zero_f one_f ≡ true)
        (two_positive : less zero_f (of_nat 2) ≡ true) where
      abbrev Awards : List (ℕ × Float) → Type 0
      Awards awards = All (λ (a : ℕ × Float). less zero_f a.1 ≡ true) awards

      give-IsPositive :
          (awards : List (ℕ × Float)) (scores : Assoc Float)
          → Awards awards
          → Awards scores
          → Awards (give awards scores)
      unfolding give
      give-IsPositive [] scores h k = k
      give-IsPositive ((id, x) ∷ awards) scores h k =
          give-IsPositive awards _ h.1 (add_score-IsPositive f p id x scores h.0 k)

      neighbours-positive : (ids : List ℕ) → Awards (map (λ id. (id, one_f)) ids)
      neighbours-positive [] = tt
      neighbours-positive (id ∷ ids) = (one_positive, neighbours-positive ids)

      edge_awards-positive : (caller_query : Bool) (id : ℕ) → Awards (edge_awards caller_query id)
      edge_awards-positive caller_query id =
          subst Awards (neighbours-edge_awards caller_query id)
            (neighbours-positive (neighbours symbols caller_query id))

      symbol_awards-positive :
          (caller_query : Bool) (found : List Symbol) → Awards (symbol_awards caller_query found)
      unfolding symbol_awards
      symbol_awards-positive caller_query [] = tt
      symbol_awards-positive caller_query (s ∷ rest) = (
        two_positive,
        All-append _ (edge_awards caller_query s.id) _ (edge_awards-positive caller_query s.id)
            (symbol_awards-positive caller_query rest),
      )

      name_awards-positive :
          (caller_query : Bool) (names : List Bytes) → Awards (name_awards caller_query names)
      unfolding name_awards
      name_awards-positive caller_query [] = tt
      name_awards-positive caller_query (name ∷ names) =
          All-append _ (symbol_awards caller_query (symbols.find_exact name)) _
            (symbol_awards-positive caller_query _) (name_awards-positive caller_query names)

      -- With numbers that compare and add as IEEE 754 says, and 1 and 2 positive, a retrieval returns the
      -- best `top_k` of one hit for each id that the question awards something, each with the sum, in
      -- order, of its awards. The names of the question are those of its longest runs of letters, digits,
      -- underscores and colons that have `::`, in order. A symbol is awarded 2 each time it is found under
      -- a name, and then, if the question has a word for callers, each symbol that calls it is awarded 1
      -- for each call, and otherwise each symbol that one of its edges leads to.
      pub retrieve_symbols-IsRetrieval :
          Compares f
          → (query : Bytes) (top_k : ℕ)
          → IsRetrieval query top_k (retrieve_symbols f symbols query top_k)
      unfolding retrieve_symbols find
      retrieve_symbols-IsRetrieval c query top_k =
          let names = extract_qualified_names query in
          let all = name_awards (is_caller_query query) names in
          let scores = give all [] in
          let distinct : DistinctKeys scores = give-DistinctKeys all [] tt in
          let hits = map (to_hit f) scores in
          let found : (id : ℕ) → find id scores ≡ sum_onto f none (awarded id all) =
            λ id. find-give id all [] in
          let same = score_names-give (is_caller_query query) names [] in
          record {
            names = names;
            named = extract_qualified_names-IsNamed query;
            caller_query = is_caller_query query;
            asked = is_caller_query_iff query;
            hits = hits;
            ranks = rw same (
                best-IsBest f c top_k hits
                  (All-to_hit f (IsScored f) scores (
                    All-imp (λ e h. p.positive_number e.1 h) scores
                      (give-IsPositive all [] (name_awards-positive _ _) tt)))
                  (AllPairs-to_hit f scores distinct));
            scored =
                All-to_hit f (λ h. sum_onto f none (awarded h.chunk_id all) ≡ some h.score) scores
                  (All-imp (λ e h. sym (found e.0) ∙ h) scores (find_entries scores distinct));
            complete = λ id s e. mem-map_of_mem (to_hit f) (mem-find id s scores (found id ∙ e));
          }
