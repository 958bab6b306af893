-- ===== src/Rag/Ask/Grounded.antt =====
-- The answers of `ask`: what they cite was retrieved and stored, and when they say that it is cited.
use mathlib.Core.List.{map}
use llamacodelab.Prelude.{
  ℕ, ◌+◌, ◌-◌, ◌≤◌, ◌<◌, ◌^◌, max, true, false, not, Option, none, some, List, [], ◌∷◌, All, Bytes,
  is_empty, is_empty-ne, ==-ne, ◌≡◌, ◌≢◌, ◌↔◌, refl, ap, ◌∙◌, inl, inr, arith, Option-cases,
}
use llamacodelab.Prelude.Result.{
  Error, Result, ok, err, runtime_error, throw_if, Yields, Yields-bind, Yields-call,
  Yields-throw_if, Yields-throws,
}
use llamacodelab.Domain.{Floats, SearchHit, Chunk}
use llamacodelab.Rag.{RagSource, BuiltRagPrompt, build_rag, render_suffix}
use llamacodelab.Rag.Budget.{IsBuilt, Refused, build_rag-Yields}
use llamacodelab.Rag.Ask.{
  teed, index_chunks, GenerationStats, AskResult, AskService, number_sources, all_cited,
  retrieval_count, reranked, answer_from, ask,
}
use llamacodelab.Rag.Ask.Sources.{
  first_of, index_chunks-IsIndexed, All-Mem, IsFound, number_sources-IsFound, Greedy-All, Numbered,
  number_sources-Numbered, Numbered-none, Cites, citation_of, all_cited_iff,
}

module _ (f : Floats) (service : AskService f) (question : Bytes) (top_k : ℕ) where
  abbrev pub limit : ℕ
  limit =
      service.budget.model_context - service.budget.reserved_output_tokens
      - service.budget.safety_margin_tokens

  -- How many hits are asked for, and how they are ranked, with and without a reranker.
  abbrev pub Reranker : Type 0
  Reranker = Bytes → List (SearchHit f) → List Chunk → ℕ → Result (List (SearchHit f))

  abbrev pub asked_for : Option Reranker → ℕ
  asked_for none = top_k
  asked_for (some rerank) = max top_k service.rerank_candidates

  abbrev pub ranking_by :
      Option Reranker → List (SearchHit f) → List Chunk → Result (List (SearchHit f))
  ranking_by none hits chunks = ok hits
  ranking_by (some rerank) hits chunks = rerank question hits chunks top_k

  abbrev pub retrieval : Result (List (SearchHit f))
  retrieval = service.collaborators.retrieve question (asked_for service.collaborators.rerank)

  -- What the collaborators returned, up to the ranking.
  pub record IsRanked (hits : List (SearchHit f)) (chunks : List Chunk)
      (ranked : List (SearchHit f)) : Type 0 where
    pub retrieved : retrieval ≡ ok hits
    pub some_hits : hits ≢ []
    pub stored : service.collaborators.get_many (map (λ h. h.chunk_id) hits) ≡ ok chunks
    pub ranking : ranking_by service.collaborators.rerank hits chunks ≡ ok ranked

  abbrev pub IsPrompt : List (RagSource f) → BuiltRagPrompt f → Type 0
  IsPrompt sources prompt =
      IsBuilt f service.collaborators.count_tokens limit (render_suffix question) sources prompt

  pub record IsAnswer (r : AskResult f) : Type 0 where
    pub hits : List (SearchHit f)
    pub chunks : List Chunk
    pub ranked : List (SearchHit f)
    pub sources : List (RagSource f)
    pub prompt : BuiltRagPrompt f
    pub pieces : List Bytes
    pub stats : GenerationStats
    pub is_ranked : IsRanked hits chunks ranked
    pub numbering : Numbered f chunks 1 ranked sources
    pub built : IsPrompt sources prompt
    pub generated : service.collaborators.generate prompt.text ≡ ok (pieces, stats)
    pub answer : r.answer ≡ teed pieces
    pub generation : r.generation ≡ stats
    pub cited : r.citations ≡ map (citation_of f) prompt.retained_sources
    pub found : All (λ s. IsFound f ranked chunks s) prompt.retained_sources
    pub tokens : r.prompt_tokens ≡ prompt.token_count
    pub within : r.prompt_tokens ≤ limit
    pub skipped : r.skipped_sources ≡ prompt.skipped_sources
    pub valid :
        (r.citations_valid ≡ true) ↔ ((r.citations ≢ []) × All (Cites f r.answer) r.citations)

  -- What was thrown is what a collaborator threw, or says that nothing was found, that no ranked hit has a
  -- chunk, or that the prompt has no room.
  pub data AskFails (e : Error) : Type 0 where
    retrieving : retrieval ≡ err e → AskFails e
    nothing_found : e ≡ runtime_error → retrieval ≡ ok [] → AskFails e
    reading :
        (hits : List (SearchHit f))
        → retrieval ≡ ok hits
        → service.collaborators.get_many (map (λ h. h.chunk_id) hits) ≡ err e
        → AskFails e
    ranking :
        (hits : List (SearchHit f)) (chunks : List Chunk)
        → retrieval ≡ ok hits
        → service.collaborators.get_many (map (λ h. h.chunk_id) hits) ≡ ok chunks
        → ranking_by service.collaborators.rerank hits chunks ≡ err e
        → AskFails e
    all_removed :
        (hits : List (SearchHit f)) (chunks : List Chunk) (ranked : List (SearchHit f))
        → e ≡ runtime_error
        → IsRanked hits chunks ranked
        → All (λ (h : SearchHit f). first_of h.chunk_id chunks ≡ none) ranked
        → AskFails e
    prompting :
        (hits : List (SearchHit f)) (chunks : List Chunk) (ranked : List (SearchHit f))
        → IsRanked hits chunks ranked
        → Refused f service.collaborators.count_tokens limit (render_suffix question) e
        → AskFails e
    generating :
        (hits : List (SearchHit f)) (chunks : List Chunk) (ranked : List (SearchHit f))
        (sources : List (RagSource f)) (prompt : BuiltRagPrompt f)
        → IsRanked hits chunks ranked
        → Numbered f chunks 1 ranked sources
        → IsPrompt sources prompt
        → service.collaborators.generate prompt.text ≡ err e
        → AskFails e

  reranked-ranking_by :
      (hits : List (SearchHit f)) (chunks : List Chunk)
      → ranking_by service.collaborators.rerank hits chunks
        ≡ reranked f service question hits chunks top_k
  unfolding reranked
  reranked-ranking_by hits chunks = elim (Option-cases service.collaborators.rerank) [
    | inl e ↦ rw e refl
    | inr (rerank, e) ↦ rw e refl
  ]

  retrieval_count-asked_for :
      asked_for service.collaborators.rerank ≡ retrieval_count f service top_k
  unfolding retrieval_count
  retrieval_count-asked_for = elim (Option-cases service.collaborators.rerank) [
    | inl e ↦ rw e refl
    | inr (rerank, e) ↦ rw e refl
  ]

  retrieval-eq :
      retrieval ≡ service.collaborators.retrieve question (retrieval_count f service top_k)
  retrieval-eq = ap (service.collaborators.retrieve question) retrieval_count-asked_for

  is_empty-eq : {A : Type 0} (xs : List A) → is_empty xs ≡ true → xs ≡ []
  is_empty-eq [] h = refl
  is_empty-eq (x ∷ xs) h = absurd (ground arith)

  is_empty-some : {A : Type 0} (xs : List A) → is_empty xs ≡ false → xs ≢ []
  is_empty-some [] h = absurd (cc h)
  is_empty-some (x ∷ xs) h = λ e. cc e

  valid_iff :
      (answer : Bytes) (kept : List (RagSource f))
      → (all_cited f answer kept (not (is_empty kept)) ≡ true)
        ↔ ((map (citation_of f) kept ≢ []) × All (Cites f answer) (map (citation_of f) kept))
  valid_iff answer [] = (
    (λ h. absurd (ground (arith, (all_cited_iff f answer [] false).0 h))),
    (λ h. absurd (h.0 refl)),
  )
  valid_iff answer (s ∷ kept) = (
    (λ h. ((λ e. ground arith), ((all_cited_iff f answer (s ∷ kept) true).0 h).1)),
    (λ h. (all_cited_iff f answer (s ∷ kept) true).1 (refl, h.1)),
  )

  module _ (asked : question ≢ []) (positive : 0 < top_k)
      (reserved : 0 < service.budget.reserved_output_tokens)
      (room : service.budget.reserved_output_tokens + service.budget.safety_margin_tokens
        < service.budget.model_context)
      (bound : service.budget.model_context < 2 ^ 64) where
    answer_from-Yields :
        (hits : List (SearchHit f)) (chunks : List Chunk) (ranked : List (SearchHit f))
        → IsRanked hits chunks ranked
        → Yields IsAnswer AskFails
            (answer_from f service question (number_sources f (index_chunks chunks []) ranked []))
    unfolding answer_from
    answer_from-Yields hits chunks ranked is_ranked =
        let sources = number_sources f (index_chunks chunks []) ranked [] in
        let numbering = number_sources-Numbered f chunks ranked in
        let build =
          build_rag f service.collaborators.count_tokens question sources service.budget in
        Yields-bind IsAnswer AskFails (throw_if (is_empty sources) runtime_error) _
          (Yields-throw_if AskFails (is_empty sources) runtime_error (λ h.
            all_removed hits chunks ranked refl is_ranked
              (Numbered-none f chunks 1 ranked sources numbering (is_empty-eq sources h))))
          (λ _ _.
            Yields-bind IsAnswer AskFails build _
              (Yields-throws (IsPrompt sources) _ AskFails build
                (λ e h. prompting hits chunks ranked is_ranked h)
                (build_rag-Yields f service.collaborators.count_tokens question service.budget
                  sources asked reserved room bound))
              (λ p built.
                Yields-bind IsAnswer AskFails (service.collaborators.generate p.text) _
                  (Yields-call AskFails _
                    (λ e h. generating hits chunks ranked sources p is_ranked numbering built h))
                  (λ generated told. record {
                    hits = hits;
                    chunks = chunks;
                    ranked = ranked;
                    sources = sources;
                    prompt = p;
                    pieces = generated.0;
                    stats = generated.1;
                    is_ranked = is_ranked;
                    numbering = numbering;
                    built = built;
                    generated = told;
                    answer = refl;
                    generation = refl;
                    cited = refl;
                    found =
                        Greedy-All f (λ s. IsFound f ranked chunks s) _ _ _ _ _ _ _ built.choice
                          (number_sources-IsFound f ranked ranked chunks (index_chunks chunks []) []
                            (index_chunks-IsIndexed chunks chunks [] (All-Mem Chunk chunks) tt)
                            (All-Mem (SearchHit f) ranked) tt);
                    tokens = refl;
                    within = built.within;
                    skipped = refl;
                    valid = valid_iff (teed generated.0) p.retained_sources;
                  })))

    -- For a question, a positive `top_k`, a callback and a 64-bit budget with room for a prompt, `ask`
    -- answers or fails for a reason in the list above. In an answer, hits were retrieved (as many as
    -- asked for, or as the reranker wants), their chunks were read and the hits were ranked (by the
    -- reranker, if there is one); the ranked hits with a chunk were numbered in order, and the prompt that
    -- was built of them and generated from is within the room. The citations are the sources in the
    -- prompt, each a chunk that was read for a ranked hit, with the hit's score; and they are said to be
    -- valid just where there are some and the answer has the ids of all of them in brackets.
    pub ask-Yields : Yields IsAnswer AskFails (ask f service question top_k true)
    unfolding ask
    ask-Yields =
        let retrieve = service.collaborators.retrieve question (retrieval_count f service top_k) in
        rw (is_empty-ne question asked) (
          rw (==-ne top_k 0 (omega arith)) (
            Yields-bind IsAnswer AskFails retrieve _
              (Yields-call AskFails retrieve (λ e h. retrieving (retrieval-eq ∙ h)))
              (λ hits retrieved.
                Yields-bind IsAnswer AskFails (throw_if (is_empty hits) runtime_error) _
                  (Yields-throw_if AskFails (is_empty hits) runtime_error (λ h.
                    nothing_found refl (retrieval-eq ∙ retrieved ∙ ap ok (is_empty-eq hits h))))
                  (λ _ there.
                    Yields-bind IsAnswer AskFails
                      (service.collaborators.get_many (map (λ h. h.chunk_id) hits)) _
                      (Yields-call AskFails _ (λ e h. reading hits (retrieval-eq ∙ retrieved) h))
                      (λ chunks stored.
                        Yields-bind IsAnswer AskFails
                          (reranked f service question hits chunks top_k) _
                          (Yields-call AskFails _ (λ e h.
                            ranking hits chunks (retrieval-eq ∙ retrieved) stored
                              (reranked-ranking_by hits chunks ∙ h)))
                          (λ ranked r. answer_from-Yields hits chunks ranked (record {
                            retrieved = retrieval-eq ∙ retrieved;
                            some_hits = is_empty-some hits there;
                            stored = stored;
                            ranking = reranked-ranking_by hits chunks ∙ r;
                          })))))))
