-- ===== src/Rag/Budget.antt =====
-- The prompt that `build_rag` returns is within the budget and holds the sources that fit, in order.
use native.Mathlib.Nat.{add-zero, zero-add}
use llamacodelab.Prelude.{
  ℕ, ◌+◌, ◌-◌, ◌≤◌, ◌<◌, ◌%◌, ◌^◌, List, [], ◌∷◌, ◌++◌, append_assoc, append-nil, ltb, leb, ==-ne,
  Bytes, is_empty-ne, ◌≡◌, ◌≢◌, refl, sym, ap, ◌∙◌, inl, inr, arith, Bool-cases, false,
}
use llamacodelab.Prelude.Result.{
  Error, Result, ok, err, invalid_argument, throw_if, Yields, Yields-bind, Yields-imp, Yields-call,
  Yields-throw_if,
}
use llamacodelab.Domain.{Floats}
use llamacodelab.Rag.{
  RagPromptBudget, RagSource, BuiltRagPrompt, Packed, system_text, render_suffix, render_source,
  place, pack, fill, build_rag, available_tokens,
}

module _ (f : Floats) where
  pub rendered : List (RagSource f) → Bytes
  rendered [] = []
  rendered (s ∷ ss) = render_source f s ++ rendered ss

  rendered-append : (ss ts : List (RagSource f)) → rendered (ss ++ ts) ≡ rendered ss ++ rendered ts
  unfolding rendered
  rendered-append [] ts = refl
  rendered-append (s ∷ ss) ts =
      rw (append_assoc (render_source f s) (rendered ss) (rendered ts))
        (ap (◌++◌ (render_source f s)) (rendered-append ss ts))

  module _ (count_tokens : Bytes → Result ℕ) (limit : ℕ) (suffix : Bytes) where
    pub record Within (text : Bytes) : Type 0 where
      pub count : ℕ
      pub counted : count_tokens (text ++ suffix) ≡ ok count
      pub within : count ≤ limit

    pub record Over (text : Bytes) : Type 0 where
      pub count : ℕ
      pub counted : count_tokens (text ++ suffix) ≡ ok count
      pub over : limit < count

    -- The choice behind `text`: each source is taken if the prompt with it and with all that were
    -- taken before it is within the limit, and else it is skipped.
    pub data Greedy : Bytes → List (RagSource f) → List (RagSource f) → ℕ → Type 0 where
      done : (text : Bytes) → Greedy text [] [] 0
      taken :
          (text : Bytes) (s : RagSource f) (ss kept : List (RagSource f)) (skipped : ℕ)
          → Within (text ++ render_source f s)
          → Greedy (text ++ render_source f s) ss kept skipped
          → Greedy text (s ∷ ss) (s ∷ kept) skipped
      left :
          (text : Bytes) (s : RagSource f) (ss kept : List (RagSource f)) (skipped : ℕ)
          → Over (text ++ render_source f s)
          → Greedy text ss kept skipped
          → Greedy text (s ∷ ss) kept (skipped + 1)

    -- The counter threw `e`, or the prompt without any source is over the limit.
    pub data Refused (e : Error) : Type 0 where
      counting : (text : Bytes) → count_tokens text ≡ err e → Refused e
      no_room : e ≡ invalid_argument → Over system_text → Refused e

    -- What the loop makes of `p`.
    record Grown (p : Packed f) (ss : List (RagSource f)) (q : Packed f) : Type 0 where
      kept : List (RagSource f)
      more : ℕ
      choice : Greedy p.text ss kept more
      text : q.text ≡ p.text ++ rendered kept
      retained : q.retained ≡ p.retained ++ kept
      skipped : q.skipped ≡ p.skipped + more
      within : Within p.text → Within q.text

    -- What the body makes of `p`: the choice for a source goes before any for the next.
    record Step (p : Packed f) (s : RagSource f) (q : Packed f) : Type 0 where
      kept : List (RagSource f)
      more : ℕ
      choose :
          (ss later : List (RagSource f)) (j : ℕ)
          → Greedy q.text ss later j
          → Greedy p.text (s ∷ ss) (kept ++ later) (j + more)
      text : q.text ≡ p.text ++ rendered kept
      retained : q.retained ≡ p.retained ++ kept
      skipped : q.skipped ≡ p.skipped + more
      within : Within p.text → Within q.text

    place_left :
        (p : Packed f) (s : RagSource f)
        → Over (p.text ++ render_source f s)
        → Step p s (record { text = p.text; retained = p.retained; skipped = p.skipped + 1 })
    unfolding rendered
    place_left p s long = record {
      kept = [];
      more = 1;
      choose = λ ss later j g. left p.text s ss later j long g;
      text = sym (append-nil p.text);
      retained = sym (append-nil p.retained);
      skipped = refl;
      within = λ w. w;
    }

    place_taken :
        (p : Packed f) (s : RagSource f)
        → Within (p.text ++ render_source f s)
        → Step p s (record {
          text = p.text ++ render_source f s;
          retained = p.retained ++ (s ∷ []);
          skipped = p.skipped;
        })
    unfolding rendered
    place_taken p s fits = record {
      kept = s ∷ [];
      more = 0;
      choose = λ ss later j g. rw (add-zero j) (taken p.text s ss later j fits g);
      text = rw (append-nil (render_source f s)) refl;
      retained = refl;
      skipped = omega arith;
      within = λ w. fits;
    }

    place-Step :
        (p : Packed f) (s : RagSource f)
        → Yields (λ q. Step p s q) Refused (place f count_tokens limit suffix p s)
    unfolding place
    place-Step p s =
        Yields-bind (λ q. Step p s q) Refused (count_tokens (p.text ++ render_source f s ++ suffix))
          _ (Yields-call Refused _ (λ e h. counting _ h))
          (λ n counted. elim (Bool-cases (ltb limit n)) [
            | inl long ↦
                rw long
                  (place_left p s (record { count = n; counted = counted; over = ground arith }))
            | inr short ↦
                rw short
                  (place_taken p s (record { count = n; counted = counted; within = ground arith }))
          ])

    pack-Grown :
        (ss : List (RagSource f)) (p : Packed f)
        → Yields (λ q. Grown p ss q) Refused (pack f count_tokens limit suffix p ss)
    unfolding pack rendered
    pack-Grown [] p = record {
      kept = [];
      more = 0;
      choice = done p.text;
      text = sym (append-nil p.text);
      retained = sym (append-nil p.retained);
      skipped = omega arith;
      within = λ w. w;
    }
    pack-Grown (s ∷ ss) p =
        Yields-bind (λ r. Grown p (s ∷ ss) r) Refused (place f count_tokens limit suffix p s) _
          (place-Step p s)
          (λ q g.
            Yields-imp Refused (pack f count_tokens limit suffix q ss) (pack-Grown ss q) (λ r h.
              record {
                kept = g.kept ++ h.kept;
                more = h.more + g.more;
                choice = g.choose ss h.kept h.more h.choice;
                text =
                    h.text
                    ∙ ap (λ t. t ++ rendered h.kept) g.text
                    ∙ append_assoc p.text (rendered g.kept) (rendered h.kept)
                    ∙ ap (◌++◌ p.text) (sym (rendered-append g.kept h.kept));
                retained =
                    h.retained
                    ∙ ap (λ t. t ++ h.kept) g.retained
                    ∙ append_assoc p.retained g.kept h.kept;
                skipped = omega (arith, g.skipped, h.skipped);
                within = λ w. h.within (g.within w);
              }))

    pub record IsBuilt (sources : List (RagSource f)) (b : BuiltRagPrompt f) : Type 0 where
      pub counted : count_tokens b.text ≡ ok b.token_count
      pub within : b.token_count ≤ limit
      pub layout : b.text ≡ system_text ++ rendered b.retained_sources ++ suffix
      pub choice : Greedy system_text sources b.retained_sources b.skipped_sources

    same_count :
        (text : Bytes) (n : ℕ) → Within text → count_tokens (text ++ suffix) ≡ ok n → n ≤ limit
    same_count text n w h =
        let e : ok w.count ≡ ok n = sym w.counted ∙ h in ground (arith, w.within)

    fill-IsBuilt :
        (sources : List (RagSource f))
        → Yields (λ b. IsBuilt sources b) Refused (fill f count_tokens limit suffix sources)
    unfolding fill
    fill-IsBuilt sources =
        Yields-bind _ Refused (count_tokens (system_text ++ suffix)) _
          (Yields-call Refused _ (λ e h. counting _ h))
          (λ bare bare_counted.
            Yields-bind _ Refused (throw_if (ltb limit bare) invalid_argument) _
              (Yields-throw_if Refused (ltb limit bare) _ (λ long.
                no_room refl
                  (record { count = bare; counted = bare_counted; over = ground arith })))
              (λ _ short.
                Yields-bind _ Refused (pack f count_tokens limit suffix _ sources) _
                  (pack-Grown sources _)
                  (λ q g.
                    Yields-bind _ Refused (count_tokens (q.text ++ suffix)) _
                      (Yields-call Refused _ (λ e h. counting _ h))
                      (λ n counted. record {
                        counted = counted;
                        within =
                            same_count q.text n
                              (g.within (record {
                                count = bare;
                                counted = bare_counted;
                                within = ground arith;
                              }))
                              counted;
                        layout =
                            ap (λ t. t ++ suffix)
                              (g.text ∙ ap (λ k. system_text ++ rendered k) (sym g.retained));
                        choice = rw (g.retained, g.skipped, zero-add g.more) g.choice;
                      }))))

available_tokens_lem :
    (b : RagPromptBudget)
    → b.reserved_output_tokens + b.safety_margin_tokens < b.model_context
    → b.model_context < 2 ^ 64
    → available_tokens b ≡ b.model_context - b.reserved_output_tokens - b.safety_margin_tokens
unfolding available_tokens
available_tokens_lem b h bound = omega arith

module _ (f : Floats) (count_tokens : Bytes → Result ℕ) (question : Bytes)
    (budget : RagPromptBudget) where
  abbrev limit : ℕ
  limit = budget.model_context - budget.reserved_output_tokens - budget.safety_margin_tokens

  -- For a question and a 64-bit budget that leaves room for a prompt: the prompt that is returned has
  -- the token count that is said and is within the room left; between the instructions and the
  -- question stand, in order, exactly the sources that still fit when their turn comes. What is
  -- thrown comes from the token counter, or says that the prompt without sources is over the room.
  pub build_rag-Yields :
      (sources : List (RagSource f))
      → question ≢ []
      → 0 < budget.reserved_output_tokens
      → budget.reserved_output_tokens + budget.safety_margin_tokens < budget.model_context
      → budget.model_context < 2 ^ 64
      → Yields
          (λ b. IsBuilt f count_tokens limit (render_suffix question) sources b)
          (λ e. Refused f count_tokens limit (render_suffix question) e)
          (build_rag f count_tokens question sources budget)
  unfolding build_rag
  build_rag-Yields sources asked reserved room bound = rw (is_empty-ne question asked) (
      rw
        (
          ==-ne budget.model_context 0 (omega arith),
          ==-ne budget.reserved_output_tokens 0 (omega arith),
        )
        (rw (wrapped, available_tokens_lem budget room bound)
          (fill-IsBuilt f count_tokens limit (render_suffix question) sources)))
    where
      wrapped :
          leb budget.model_context
            ((budget.reserved_output_tokens + budget.safety_margin_tokens) % 2 ^ 64)
          ≡ false
      wrapped = ground arith
