-- ===== src/SymbolGraph/Names.antt =====
-- `extract_qualified_names` of src/application/symbol_graph_retriever.cpp: which parts of a question are names,
-- and what it means that a question mentions a word.
use llamacodelab.Prelude.{
  ℕ, ◌≤◌, Bool, true, false, ◌||◌, ◌&&◌, leb, ◌==◌, ==_iff, List, [], ◌∷◌, ◌++◌, append_assoc,
  append-nil, All, All-append, Bytes, codes, starts_with, contains, Bool-cases, ◌≡◌, ◌⊎◌, ◌↔◌, inl,
  inr, refl, sym, ap, subst, ◌∙◌, arith,
}
use llamacodelab.SymbolGraph.{
  is_name_byte, flush, names_from, extract_qualified_names, is_caller_query,
}

-- The word stands in the text.
pub record Mentions (text word : Bytes) : Type 0 where
  pub front : Bytes
  pub back : Bytes
  pub split : text ≡ front ++ (word ++ back)

starts_with-split :
    (text word : Bytes) → starts_with text word ≡ true → (back : Bytes) × (text ≡ word ++ back)
unfolding starts_with
starts_with-split text [] h = (text, refl)
starts_with-split [] (w ∷ word) h = absurd (cc h)
starts_with-split (c ∷ text) (w ∷ word) h =
    let (back, e) = starts_with-split text word (ground arith) in
    let same : c ≡ w = ground arith in (back, ap (◌∷◌ c) e ∙ ap (λ b. b ∷ word ++ back) same)

starts_with-append : (word back : Bytes) → starts_with (word ++ back) word ≡ true
unfolding starts_with
starts_with-append [] [] = refl
starts_with-append [] (b ∷ back) = refl
starts_with-append (w ∷ word) back = ground (arith, starts_with-append word back)

contains-Mentions : (text word : Bytes) → contains text word ≡ true → Mentions text word
unfolding contains
contains-Mentions [] word h =
    let (back, e) = starts_with-split [] word h in record { front = []; back = back; split = e }
contains-Mentions (c ∷ text) word h = elim (Bool-cases (starts_with (c ∷ text) word)) [
  | inl here ↦
      let (back, e) = starts_with-split (c ∷ text) word here in
      record { front = []; back = back; split = e }
  | inr later ↦
      let m = contains-Mentions text word (ground arith) in
      record { front = c ∷ m.front; back = m.back; split = ap (◌∷◌ c) m.split }
]

contains-append : (front word back : Bytes) → contains (front ++ (word ++ back)) word ≡ true
unfolding contains
contains-append [] [] [] = unfold starts_with in refl
contains-append [] [] (b ∷ back) = unfold starts_with in refl
contains-append [] (w ∷ word) back = rw (starts_with-append (w ∷ word) back) refl
contains-append (c ∷ front) word back = ground (arith, contains-append front word back)

pub contains_iff : (text word : Bytes) → (contains text word ≡ true) ↔ Mentions text word
contains_iff text word = (
  contains-Mentions text word,
  (λ m. ap (λ t. contains t word) m.split ∙ contains-append m.front word m.back),
)

-- A letter, a digit, an underscore or a colon.
abbrev pub IsNameByte : ℕ → Type 0
IsNameByte c =
    ((48 ≤ c) × (c ≤ 57)) ⊎ ((65 ≤ c) × (c ≤ 90)) ⊎ ((97 ≤ c) × (c ≤ 122)) ⊎ (c ≡ 95) ⊎ (c ≡ 58)

is_name_byte-IsNameByte : (c : ℕ) → is_name_byte c ≡ true → IsNameByte c
is_name_byte-IsNameByte c h = elim (Bool-cases (leb 48 c && leb c 57)) [
  | inl digit ↦ inl (ground arith, ground arith)
  | inr no_digit ↦ elim (Bool-cases (leb 65 c && leb c 90)) [
    | inl upper ↦ inr (inl (ground arith, ground arith))
    | inr no_upper ↦ elim (Bool-cases (leb 97 c && leb c 122)) [
      | inl lower ↦ inr (inr (inl (ground arith, ground arith)))
      | inr no_lower ↦ elim (Bool-cases (c == 95)) [
        | inl underscore ↦ inr (inr (inr (inl ((==_iff c 95).0 underscore))))
        | inr other ↦ inr (inr (inr (inr (ground arith))))
      ]
    ]
  ]
]

no-IsNameByte : (c : ℕ) → is_name_byte c ≡ false → ¬ IsNameByte c
no-IsNameByte c e h = ground (arith, e, h)

-- What a run adds to the names: itself, if it has `::`.
pub data Adds (run : Bytes) (more names : List Bytes) : Type 0 where
  name : Mentions run (codes "::") → names ≡ run ∷ more → Adds run more names
  no_name : ¬ Mentions run (codes "::") → names ≡ more → Adds run more names

-- The names in a question: of its longest runs of such bytes, in order, those that have `::`.
pub data IsNamed : Bytes → List Bytes → Type 0 where
  last_run :
      (query : Bytes) (names : List Bytes)
      → All IsNameByte query
      → Adds query [] names
      → IsNamed query names
  next_run :
      (query : Bytes) (names : List Bytes) (run rest : Bytes) (c : ℕ) (more : List Bytes)
      → All IsNameByte run
      → ¬ IsNameByte c
      → query ≡ run ++ (c ∷ rest)
      → IsNamed rest more
      → Adds run more names
      → IsNamed query names

flush-Adds : (run : Bytes) (more : List Bytes) → Adds run more (flush run ++ more)
unfolding flush
flush-Adds run more = elim (Bool-cases (contains run (codes "::"))) [
  | inl e ↦ rw e (name ((contains_iff run (codes "::")).0 e) refl)
  | inr e ↦ rw e (no_name (λ m. cc (e, (contains_iff run (codes "::")).1 m)) refl)
]

names_from-IsNamed :
    (token query : Bytes) → All IsNameByte token → IsNamed (token ++ query) (names_from token query)
unfolding names_from
names_from-IsNamed token [] h =
    subst (λ t. IsNamed t (flush token)) (sym (append-nil token))
      (last_run token (flush token) h
        (subst (Adds token []) (append-nil (flush token)) (flush-Adds token [])))
names_from-IsNamed token (c ∷ query) h = elim (Bool-cases (is_name_byte c)) [
  | inl e ↦
      rw (e, names_from)
        (subst (λ t. IsNamed t (names_from (token ++ (c ∷ [])) query))
          (append_assoc token (c ∷ []) query)
          (names_from-IsNamed (token ++ (c ∷ [])) query
            (All-append IsNameByte token (c ∷ []) h (is_name_byte-IsNameByte c e, tt))))
  | inr e ↦
      rw (e, names_from)
        (next_run _ _ token query c (names_from [] query) h (no-IsNameByte c e) refl
          (names_from-IsNamed [] query tt) (flush-Adds token (names_from [] query)))
]

pub extract_qualified_names-IsNamed :
    (query : Bytes) → IsNamed query (extract_qualified_names query)
unfolding extract_qualified_names
extract_qualified_names-IsNamed query = names_from-IsNamed [] query tt

-- The question is about callers: it has `caller`, `calls`, or the Chinese word for "call".
abbrev pub AsksCallers : Bytes → Type 0
AsksCallers query =
    Mentions query (codes "caller")
    ⊎ Mentions query (codes "calls")
    ⊎ Mentions query (232 ∷ 176 ∷ 131 ∷ 231 ∷ 148 ∷ 168 ∷ [])

any_of : (a b c : Bool) → ((a || b || c) ≡ true) ↔ ((a ≡ true) ⊎ (b ≡ true) ⊎ (c ≡ true))
any_of true b c = ((λ _. inl refl), (λ _. refl))
any_of false true c = ((λ _. inr (inl refl)), (λ _. refl))
any_of false false true = ((λ _. inr (inr refl)), (λ _. refl))
any_of false false false = ((λ h. absurd (cc h)), (λ h. ground (arith, h)))

pub is_caller_query_iff : (query : Bytes) → (is_caller_query query ≡ true) ↔ AsksCallers query
unfolding is_caller_query
is_caller_query_iff query =
    let a = contains_iff query (codes "caller") in
    let b = contains_iff query (codes "calls") in
    let c = contains_iff query (232 ∷ 176 ∷ 131 ∷ 231 ∷ 148 ∷ 168 ∷ []) in
    (
      (λ h. elim ((any_of _ _ _).0 h) [
        | inl x ↦ inl (a.0 x)
        | inr (inl x) ↦ inr (inl (b.0 x))
        | inr (inr x) ↦ inr (inr (c.0 x))
      ]),
      (λ h. (any_of _ _ _).1 (elim h [
        | inl x ↦ inl (a.1 x)
        | inr (inl x) ↦ inr (inl (b.1 x))
        | inr (inr x) ↦ inr (inr (c.1 x))
      ])),
    )
