-- ===== src/Rag/Ask/Sources.antt =====
-- The sources that the ranked hits and the chunks read for them give, and the citations among them.
use mathlib.Core.List.{Mem, map, mem-cons, mem-cons_of_mem}
use mathlib.Core.Logic.Or
use llamacodelab.Prelude.{
  ℕ, ◌+◌, Bool, true, ◌&&◌, Option, none, some, List, [], ◌∷◌, ◌++◌, append-nil, append_assoc,
  length, length-append, All, All-append, Bytes, codes, to_string, contains, if◌then◌else◌, ◌==◌,
  Bool-cases, sym, subst, ◌≡◌, ◌↔◌, refl, ◌∙◌, inl, inr, arith, Option-cases,
}
use llamacodelab.Prelude.Result.{Result}
use llamacodelab.Prelude.Assoc.{Assoc, find, emplace, find-emplace, All-emplace, All-find}
use llamacodelab.Domain.{Floats, SearchHit, Chunk}
use llamacodelab.Rag.{RagSource}
use llamacodelab.Rag.Budget.{Greedy, done, taken, left}
use llamacodelab.Rag.Ask.{answer_cites, index_chunks, Citation, number_sources, all_cited}

-- An entry of `by_id` is a chunk of the repository under its own id.
abbrev pub IsIndexed : List Chunk → ℕ × Chunk → Type 0
IsIndexed chunks (id, c) = (c.id ≡ id) × Mem c chunks

pub index_chunks-IsIndexed :
    (all chunks : List Chunk) (by_id : Assoc Chunk)
    → All (λ c. Mem c all) chunks
    → All (IsIndexed all) by_id
    → All (IsIndexed all) (index_chunks chunks by_id)
unfolding index_chunks
index_chunks-IsIndexed all [] by_id h k = k
index_chunks-IsIndexed all (c ∷ chunks) by_id h k =
    index_chunks-IsIndexed all chunks (emplace c.id c by_id) h.1
      (All-emplace (IsIndexed all) c.id c by_id (refl, h.0) k)

-- The first chunk with an id.
pub first_of : ℕ → List Chunk → Option Chunk
first_of id [] = none
first_of id (c ∷ chunks) = if c.id == id then some c else first_of id chunks

abbrev or_else : Option Chunk → Option Chunk → Option Chunk
or_else none b = b
or_else (some a) b = some a

or_else-none : (a : Option Chunk) → a ≡ or_else a none
or_else-none none = refl
or_else-none (some a) = refl

find-index_chunks :
    (id : ℕ) (chunks : List Chunk) (by_id : Assoc Chunk)
    → find id (index_chunks chunks by_id) ≡ or_else (find id by_id) (first_of id chunks)
unfolding index_chunks first_of
find-index_chunks id [] by_id = or_else-none (find id by_id)
find-index_chunks id (c ∷ chunks) by_id =
    find-index_chunks id chunks (emplace c.id c by_id)
    ∙ rw (find-emplace c.id id c by_id) (elim (Bool-cases (c.id == id)) [
      | inr e ↦ rw e refl
      | inl e ↦ elim (Option-cases (find id by_id)) [
        | inl missing ↦ rw e (rw missing refl)
        | inr (chunk, there) ↦ rw e (rw there refl)
      ]
    ])

first_of-find :
    (id : ℕ) (chunks : List Chunk) → first_of id chunks ≡ find id (index_chunks chunks [])
unfolding find
first_of-find id chunks = sym (find-index_chunks id chunks [])

All-Mem_grow :
    (A : Type 0) (x : A) (xs ys : List A) → All (λ y. Mem y xs) ys → All (λ y. Mem y (x ∷ xs)) ys
All-Mem_grow A x xs [] h = tt
All-Mem_grow A x xs (y ∷ ys) h = (mem-cons_of_mem _ h.0, All-Mem_grow A x xs ys h.1)

pub All-Mem : (A : Type 0) (xs : List A) → All (λ x. Mem x xs) xs
All-Mem A [] = tt
All-Mem A (x ∷ xs) = (mem-cons.1 (Or.inl refl), All-Mem_grow A x xs xs (All-Mem A xs))

module _ (f : Floats) where
  -- The source is a stored chunk that a hit names, with the score of the hit.
  pub record IsFound (hits : List (SearchHit f)) (chunks : List Chunk) (s : RagSource f)
      : Type 0 where
    pub hit : SearchHit f
    pub named : Mem hit hits
    pub stored : Mem s.chunk chunks
    pub same : s.chunk.id ≡ hit.chunk_id
    pub scored : s.score ≡ hit.score

  pub number_sources-IsFound :
      (all hits : List (SearchHit f)) (chunks : List Chunk) (by_id : Assoc Chunk)
      (sources : List (RagSource f))
      → All (IsIndexed chunks) by_id
      → All (λ h. Mem h all) hits
      → All (λ s. IsFound all chunks s) sources
      → All (λ s. IsFound all chunks s) (number_sources f by_id hits sources)
  unfolding number_sources
  number_sources-IsFound all [] chunks by_id sources indexed h k = k
  number_sources-IsFound all (hit ∷ hits) chunks by_id sources indexed h k =
      elim (Option-cases (find hit.chunk_id by_id)) [
        | inl e ↦
            rw (e, number_sources)
              (number_sources-IsFound all hits chunks by_id sources indexed h.1 k)
        | inr (chunk, e) ↦
            let found = All-find (IsIndexed chunks) hit.chunk_id chunk by_id indexed e in
            rw (e, number_sources)
              (number_sources-IsFound all hits chunks by_id _ indexed h.1 (
                All-append (λ s. IsFound all chunks s) sources _ k
                  (
                    record {
                      hit = hit;
                      named = h.0;
                      stored = found.1;
                      same = found.0;
                      scored = refl;
                    },
                    tt,
                  )))
      ]

  -- The sources for the hits from the number `n` on: a hit that no chunk has the id of is passed over, each
  -- other one is a source with the next number, the first chunk with its id, and its score.
  pub data Numbered (chunks : List Chunk)
      : ℕ → List (SearchHit f) → List (RagSource f) → Type 0 where
    no_more : {n : ℕ} → Numbered chunks n [] []
    passed_over :
        {n : ℕ} {hit : SearchHit f} {hits : List (SearchHit f)} {sources : List (RagSource f)}
        → first_of hit.chunk_id chunks ≡ none
        → Numbered chunks n hits sources
        → Numbered chunks n (hit ∷ hits) sources
    numbered :
        {n : ℕ} {hit : SearchHit f} {hits : List (SearchHit f)} {sources : List (RagSource f)}
        (chunk : Chunk)
        → first_of hit.chunk_id chunks ≡ some chunk
        → Numbered chunks (n + 1) hits sources
        → Numbered chunks n
            (hit ∷ hits)
            (record { id = codes "S" ++ to_string n; chunk = chunk; score = hit.score } ∷ sources)

  -- What the loop adds to the sources.
  record Added (chunks : List Chunk) (hits : List (SearchHit f)) (sources all : List (RagSource f))
      : Type 0 where
    added : List (RagSource f)
    numbering : Numbered chunks (length sources + 1) hits added
    appended : all ≡ sources ++ added

  number_sources-Added :
      (chunks : List Chunk) (hits : List (SearchHit f)) (sources : List (RagSource f))
      → Added chunks hits sources (number_sources f (index_chunks chunks []) hits sources)
  unfolding number_sources
  number_sources-Added chunks [] sources = record {
    added = [];
    numbering = no_more;
    appended = sym (append-nil sources);
  }
  number_sources-Added chunks (hit ∷ hits) sources =
      elim (Option-cases (find hit.chunk_id (index_chunks chunks []))) [
        | inl e ↦
            let rest = number_sources-Added chunks hits sources in
            rw (e, number_sources)
              (record {
                added = rest.added;
                numbering = passed_over (first_of-find hit.chunk_id chunks ∙ e) rest.numbering;
                appended = rest.appended;
              })
        | inr (chunk, e) ↦
            let s : RagSource f = record {
              id = codes "S" ++ to_string (length sources + 1);
              chunk = chunk;
              score = hit.score;
            } in
            let rest = number_sources-Added chunks hits (sources ++ (s ∷ [])) in
            let next : length (sources ++ (s ∷ [])) + 1 ≡ length sources + 1 + 1 =
              omega (arith, length-append sources (s ∷ [])) in
            rw (e, number_sources)
              (record {
                added = s ∷ rest.added;
                numbering =
                    numbered chunk (first_of-find hit.chunk_id chunks ∙ e)
                      (subst (λ n. Numbered chunks n hits rest.added) next rest.numbering);
                appended = rest.appended ∙ append_assoc sources (s ∷ []) rest.added;
              })
      ]

  pub number_sources-Numbered :
      (chunks : List Chunk) (hits : List (SearchHit f))
      → Numbered chunks 1 hits (number_sources f (index_chunks chunks []) hits [])
  number_sources-Numbered chunks hits =
      let a = number_sources-Added chunks hits [] in
      subst (Numbered chunks 1 hits) (sym a.appended) a.numbering

  pub Numbered-none :
      (chunks : List Chunk) (n : ℕ) (hits : List (SearchHit f)) (sources : List (RagSource f))
      → Numbered chunks n hits sources
      → sources ≡ []
      → All (λ (h : SearchHit f). first_of h.chunk_id chunks ≡ none) hits
  Numbered-none chunks n hits sources no_more e = tt
  Numbered-none chunks n hits sources (passed_over {hits = rest} none_there more) e =
      (none_there, Numbered-none chunks n rest sources more e)
  Numbered-none chunks n hits sources (numbered chunk there more) e = absurd (cc e)

  pub Greedy-All :
      (P : RagSource f → Type 0) (count : Bytes → Result ℕ) (limit : ℕ) (suffix text : Bytes)
      (ss kept : List (RagSource f)) (skipped : ℕ)
      → Greedy f count limit suffix text ss kept skipped
      → All P ss
      → All P kept
  Greedy-All P count limit suffix text ss kept skipped (done t) h = tt
  Greedy-All P count limit suffix text ss kept skipped (taken t s rest others k w g) h =
      (h.0, Greedy-All P count limit suffix _ rest others k g h.1)
  Greedy-All P count limit suffix text ss kept skipped (left t s rest others k w g) h =
      Greedy-All P count limit suffix _ rest others k g h.1

  -- The answer has the id of the source in brackets.
  abbrev pub Cites : Bytes → Citation f → Type 0
  Cites answer c = contains answer (codes "[" ++ c.source_id ++ codes "]") ≡ true

  abbrev pub citation_of : RagSource f → Citation f
  citation_of s = record { source_id = s.id; source = s.chunk.source; retrieval_score = s.score }

  pub all_cited_iff :
      (answer : Bytes) (sources : List (RagSource f)) (valid : Bool)
      → (all_cited f answer sources valid ≡ true)
        ↔ ((valid ≡ true) × All (Cites answer) (map citation_of sources))
  unfolding all_cited answer_cites
  all_cited_iff answer [] valid = ((λ h. (h, tt)), (λ h. h.0))
  all_cited_iff answer (s ∷ sources) valid =
      ground (arith, all_cited_iff answer sources (valid && answer_cites answer s.id))
