-- ===== src/Llama/Generate/Limits.antt =====
-- A generation ends, decodes the prompt in order, stays within the context, and gives well-formed text.
pub mod Rounds
pub mod Preparation
use llamacodelab.Llama.Generate.Limits.Preparation.{GenerateFails, running, prepare-Yields}
use llamacodelab.Llama.Generate.Limits.Rounds.{
  Small, GivesBytes, Breaks, IsStopped, Sampled, no_token, Finished, IsPrefill, prefill-Ends,
  IsDecoding, emitted, decode_loop-Ends,
}
use llamacodelab.Prelude.{
  ℕ, zero, suc, ◌+◌, ◌-◌, ◌≤◌, ◌<◌, min, Bool, true, false, not, ◌||◌, Option, none, some, List, [],
  ◌∷◌, ◌++◌, append_assoc, append-nil, length, length-append, length-take, length-drop, take, drop,
  take-append-drop, resize, All, All-append, All-resize, if◌then◌else◌, ltb, leb, Bytes, is_empty,
  is_empty-ne, ◌≡◌, ◌≢◌, ◌⊎◌, inl, inr, refl, sym, ap, ◌∙◌, subst, arith, Bool-cases, Option-cases,
}
use llamacodelab.Prelude.Int.{ℤ, pos, negsuc}
use llamacodelab.Prelude.Result.{
  Error, Result, ok, err, invalid_argument, runtime_error, throw_if, ◌>>=◌, Result-cases, Yields,
  Yields-bind, Yields-imp, Yields-throw_if, Yields-call,
}
use llamacodelab.Prelude.Loop.{Ends, Ends-cases, Ends-imp, Ends-throws}
use llamacodelab.Domain.{Floats}
use llamacodelab.Config.{ModelConfig}
use llamacodelab.Utf8.{emit_complete_utf8}
use llamacodelab.Utf8.Valid.{IsUtf8, end, IsUtf8-append, IsByte, Emits, emit-Emits}
use llamacodelab.Utf8.Streaming.{joined}
use llamacodelab.Llama.Tokens.{
  tokenize, checked_u32, token_piece, IsThrown, token_piece-Yields, tokenize-Yields,
  checked_u32-Yields,
}
use llamacodelab.Llama.Generate.{
  FinishReason, max_tokens_reached, cancelled, end_of_generation, Generation, Decoding, Prefill,
  stopped, prefilled, GenerationOptions, Llama, Sampler, count_of, is_negative, bad_temperature,
  bad_top_p, bad_repeat_penalty, check_options, sampler_chain, prefill, decode_token, accept_token,
  decode_loop, finish_generation, generate_from, prepare, generate,
}

module _ (f : Floats) (llama : Llama f) (stop_requested : ℕ → Bool) where
  -- The prompt was decoded whole: the batches are the prompt, in `prompt_batches`, and then the tokens
  -- `fed`, which were sampled one after another; all are within the context and the batch size, and the
  -- text is well-formed UTF-8.
  pub record IsGenerated (config : ModelConfig) (options : GenerationOptions f) (tokens : List ℕ)
      (r : Generation) : Type 0 where
    pub prompt : r.prompt_tokens ≡ length tokens
    pub asked : r.generated_tokens ≤ count_of f options.max_tokens
    pub context : length tokens + r.generated_tokens ≤ config.context_size
    pub prompt_batches : List (List ℕ)
    pub cut : joined prompt_batches ≡ tokens
    pub fed : List ℕ
    pub decoded : joined r.batches ≡ tokens ++ fed
    pub decoded_within : length (joined r.batches) ≤ config.context_size
    pub small : All (Small config.batch_size) r.batches
    pub sampled :
        Sampled f llama stop_requested
          (sampler_chain f options)
          prompt_batches
          (min (config.context_size - length tokens) (count_of f options.max_tokens))
          r.generated_tokens
          fed
          r.batches
    pub finished :
        Finished f llama stop_requested
          (sampler_chain f options)
          prompt_batches
          (min (config.context_size - length tokens) (count_of f options.max_tokens))
          r.generated_tokens
          r.batches
    pub well_formed : IsUtf8 r.text

  -- A generation either was stopped before the prompt was decoded, or ran.
  pub data IsGeneration (config : ModelConfig) (options : GenerationOptions f) (tokens : List ℕ)
      (r : Generation) : Type 0 where
    never_started :
        r.prompt_tokens ≡ 0
        → r.generated_tokens ≡ 0
        → r.text ≡ []
        → IsStopped f llama stop_requested config.batch_size tokens r.batches
        → IsGeneration config options tokens r
    ran : IsGenerated config options tokens r → IsGeneration config options tokens r

  module _ (g : GivesBytes llama) (config : ModelConfig) (options : GenerationOptions f)
      (tokens : List ℕ) (some_batch : 0 < config.batch_size)
      (room : length tokens < config.context_size) where
    abbrev limit : ℕ
    limit = min (config.context_size - length tokens) (count_of f options.max_tokens)

    finish_generation-Ends :
        (reason : FinishReason) (s : Decoding) (left : ℕ) (start : List (List ℕ))
        → joined start ≡ tokens
        → IsDecoding f llama stop_requested config.batch_size some_batch
            (sampler_chain f options)
            start
            tokens
            limit
            left
            s
        → Finished f llama stop_requested
            (sampler_chain f options)
            start
            limit
            s.generated
            s.batches
        → Ends
            (IsGeneration config options tokens)
            (Breaks f llama stop_requested)
            (finish_generation f llama stop_requested (length tokens) (reason, s))
    unfolding finish_generation
    finish_generation-Ends reason s left start cut v finished =
        let (x, out, well_formed, kept) =
          emitted f llama stop_requested config.batch_size some_batch _
            (emit-Emits s.pending true v.bytes) in
        rw (out, finish_generation)
          (ran (record {
            prompt = refl;
            asked = omega (arith, v.counted);
            context = omega (arith, v.counted, room);
            prompt_batches = start;
            cut = cut;
            sampled = v.sampled;
            finished = finished;
            fed = v.fed;
            decoded = v.decoded;
            decoded_within =
                omega
                  (arith, ap length v.decoded, length-append tokens v.fed, v.few, v.counted, room);
            small = v.small;
            well_formed = IsUtf8-append v.written well_formed;
          }))

    generate_from-Ends :
        (p : Prefill)
        → IsPrefill f llama stop_requested config.batch_size some_batch tokens p
        → Ends
            (IsGeneration config options tokens)
            (Breaks f llama stop_requested)
            (generate_from f llama stop_requested config options (length tokens) p)
    unfolding generate_from
    generate_from-Ends (stopped batches) h = never_started refl refl refl h
    generate_from-Ends (prefilled batches polls) h =
        let s : Decoding = record {
          batches = batches;
          polls = polls;
          generated = 0;
          pending = [];
          text = [];
        } in
        let looped =
          decode_loop-Ends f llama stop_requested config.batch_size some_batch
            (sampler_chain f options) batches tokens limit g limit s
            (record {
              fed = [];
              counted = omega arith;
              bytes = tt;
              written = end;
              decoded = h.0 ∙ sym (append-nil tokens);
              few = omega arith;
              small = h.1;
              sampled = no_token 0 batches refl refl;
            }) in
        elim (Ends-cases _ (Breaks f llama stop_requested)
          (decode_loop f llama stop_requested (sampler_chain f options) limit s) looped) [
            | inr (e, l, thrown) ↦ rw (l, generate_from) thrown
            | inl ((reason, t), l, (left, v, finished)) ↦
                rw (l, generate_from) (finish_generation-Ends reason t left batches h.0 v finished)
          ]

  module _ (config : ModelConfig) (prompt : Bytes) (options : GenerationOptions f)
      (has_callback : Bool) where
    -- Where the batch size of the configuration is not 0 and the pieces that llama.cpp gives are bytes,
    -- `generate` ends, whatever the prompt, the options and the calls to stop: with an exception for a
    -- reason (the arguments or the options are bad; the prompt is not tokenized, has no tokens or too
    -- many for the context; a size is no 32-bit number; llama.cpp gives no context or no sampler, does
    -- not decode a batch, or gives no piece of a token), or with a generation of the tokens of the
    -- prompt. That one was stopped, by a request that it saw, with a part of the prompt left, and gave
    -- no token and no text. Or the decoded batches are the prompt and then sampled tokens, each sampled
    -- by what was decoded before it and decoded in a batch of its own, unless it was the last or a stop
    -- was requested. No batch is larger than the batch size, and all are within the context; no more
    -- tokens than asked for were generated, and fewer than the limit only if a stop was requested or a
    -- token was sampled that ends the generation; and the text is well-formed UTF-8.
    pub generate-Ends :
        0 < config.batch_size
        → GivesBytes llama
        → Ends
            (λ r.
              (tokens : List ℕ) × (tokenize llama.llama_tokenize prompt ≡ ok tokens)
              × IsGeneration config options tokens r)
            (GenerateFails f llama stop_requested config prompt options has_callback)
            (generate f llama stop_requested config prompt options has_callback)
    unfolding generate
    generate-Ends some_batch g =
        let breaks = Breaks f llama stop_requested in
        let prepared = prepare-Yields f llama stop_requested config prompt options has_callback in
        elim (Result-cases (prepare f llama stop_requested config prompt options has_callback)) [
          | inr (e, p) ↦ rw (p, generate) (rw p at prepared)
          | inl (tokens, p) ↦
              let (told, room) = rw p at prepared in
              let filled =
                prefill-Ends f llama stop_requested config.batch_size some_batch tokens
                  (length tokens) tokens [] 0 (omega arith) refl refl tt in
              elim (Ends-cases _ breaks
                (prefill f llama stop_requested (length tokens) config.batch_size tokens [] 0)
                filled) [
                  | inr (e, l, thrown) ↦ rw (p, generate) (rw l (running thrown))
                  | inl (x, l, h) ↦
                      let from = generate_from-Ends g config options tokens some_batch room x h in
                      let run =
                        generate_from f llama stop_requested config options (length tokens) x in
                      rw (p, generate)
                        (rw l (
                          Ends-throws _ breaks
                            (GenerateFails f llama stop_requested config prompt options
                              has_callback)
                            run (λ e b. running b)
                            (Ends-imp _ _ breaks run (λ r k. (tokens, told, k)) from)))
                ]
        ]
