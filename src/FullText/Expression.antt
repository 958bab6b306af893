-- ===== src/FullText/Expression.antt =====
-- The expression that is matched is made of quoted words.
use llamacodelab.Prelude.{
  ℕ, true, false, List, [], ◌∷◌, ◌++◌, append_assoc, append-nil, All, All-append, if◌then◌else◌,
  Bytes, codes, is_empty, is_empty-ne, Bool-cases, ◌≡◌, ◌≢◌, inl, inr, refl, sym, subst, ◌∙◌,
}
use llamacodelab.FullText.{is_term_byte, terms_from, quoted, join_terms, fts_query}

abbrev pub IsTerm : Bytes → Type 0
IsTerm term = (term ≢ []) × All (λ c. is_term_byte c ≡ true) term

-- No term goes on here.
abbrev pub EndsTerm : Bytes → Type 0
EndsTerm [] = Unit {0}
EndsTerm (c ∷ query) = is_term_byte c ≡ false

-- A question as terms with other bytes around them.
pub data Splits : Bytes → List Bytes → Type 0 where
  no_more : Splits [] []
  other :
      (c : ℕ) (query : Bytes) (terms : List Bytes)
      → is_term_byte c ≡ false
      → Splits query terms
      → Splits (c ∷ query) terms
  term :
      (word query : Bytes) (terms : List Bytes)
      → IsTerm word
      → EndsTerm query
      → Splits query terms
      → Splits (word ++ query) (word ∷ terms)

-- Each word in quotation marks, with AND between them.
more : List Bytes → Bytes
more [] = []
more (word ∷ terms) = codes " AND " ++ quoted word ++ more terms

pub conjunction : List Bytes → Bytes
unfolding more
conjunction [] = []
conjunction (word ∷ terms) = quoted word ++ more terms

terms_from-Splits :
    (word query : Bytes)
    → All (λ c. is_term_byte c ≡ true) word
    → Splits (word ++ query) (terms_from word query)
unfolding terms_from
terms_from-Splits [] [] h = no_more
terms_from-Splits (w ∷ word) [] h = term (w ∷ word) [] [] ((λ e. cc), h) tt no_more
terms_from-Splits word (c ∷ query) h = elim (Bool-cases (is_term_byte c)) [
  | inl e ↦ rw e (
      subst (λ q. Splits q (terms_from (word ++ (c ∷ [])) query)) (append_assoc word (c ∷ []) query)
        (terms_from-Splits (word ++ (c ∷ [])) query (All-append _ word (c ∷ []) h (e, tt))))
  | inr e ↦ rw e (between word c query e h (terms_from-Splits [] query tt))
]
  where
    between :
        (word : Bytes) (c : ℕ) (query : Bytes)
        → is_term_byte c ≡ false
        → All (λ c. is_term_byte c ≡ true) word
        → Splits query (terms_from [] query)
        → Splits
            (word ++ (c ∷ query))
            (if is_empty word then terms_from [] query else word ∷ terms_from [] query)
    between [] c query e h rest = other c query _ e rest
    between (w ∷ word) c query e h rest =
        term (w ∷ word) (c ∷ query) _ ((λ p. cc), h) e (other c query _ e rest)

append-ne : (front back : Bytes) → front ≢ [] → front ++ back ≢ []
append-ne [] back h e = h refl
append-ne (c ∷ front) back h e = cc

join_terms-more :
    (result : Bytes) (terms : List Bytes)
    → result ≢ []
    → join_terms result terms ≡ result ++ more terms
unfolding join_terms more
join_terms-more result [] h = sym (append-nil result)
join_terms-more result (word ∷ terms) h = rw (is_empty-ne result h) (
    join_terms-more ((result ++ codes " AND ") ++ quoted word) terms
      (append-ne (result ++ codes " AND ") (quoted word) (append-ne result (codes " AND ") h))
    ∙ append_assoc (result ++ codes " AND ") (quoted word) (more terms)
    ∙ append_assoc result (codes " AND ") (quoted word ++ more terms))

join_terms-conjunction : (terms : List Bytes) → join_terms [] terms ≡ conjunction terms
unfolding join_terms conjunction
join_terms-conjunction [] = refl
join_terms-conjunction (word ∷ terms) = join_terms-more (quoted word) terms (λ e. cc)

-- Whatever the question, the expression for SQLite is the words of the question, each in quotation marks
-- and joined by AND, in order. The words are the longest runs of letters, digits and underscores, and none
-- is empty; the expression is empty where there is none.
pub fts_query-conjunction :
    (query : Bytes)
    → (terms : List Bytes) × Splits query terms × (fts_query query ≡ conjunction terms)
unfolding fts_query
fts_query-conjunction query = (
  terms_from [] query,
  terms_from-Splits [] query tt,
  join_terms-conjunction (terms_from [] query),
)
