-- ===== src/Llama/Generate.antt =====
-- src/adapters/llama/llama_generator.cpp: the constructor of `LlamaGenerator` and `generate`. What llama.cpp
-- computes is a parameter: of the batches decoded so far, and for a sample also of the sampler chain and of
-- the number of samples before it. The stop token is a function of how often it was asked before.
-- Times and log lines are left out; the text that the callback gets is the result's `text`.
pub mod Limits
use llamacodelab.Prelude.{
  ℕ, zero, suc, ◌+◌, ◌-◌, ◌≤◌, ◌<◌, min, Bool, true, false, not, ◌&&◌, ◌||◌, Option, none, some,
  List, [], ◌∷◌, ◌++◌, length, take, drop, if◌then◌else◌, ltb, leb, ◌==◌, Bytes, is_empty,
}
use llamacodelab.Prelude.Int.{ℤ, pos, negsuc}
use llamacodelab.Prelude.Result.{
  Result, ok, err, invalid_argument, runtime_error, throw_if, ◌>>=◌, ◌>>◌,
}
use llamacodelab.Domain.{Floats}
use llamacodelab.Chat.{ChatMessage}
use llamacodelab.Config.{ModelConfig}
use llamacodelab.Utf8.{emit_complete_utf8}
use llamacodelab.Llama.Template.{template_source_of, format_chat}
use llamacodelab.Llama.Tokens.{checked_u32, tokenize, token_piece}

-- What llama.cpp and the system say of the file of a model: whether it is a regular file, whether it
-- loads, has a vocabulary and an encoder, its template, its training context (`none` where it is not
-- positive) and its description.
pub record ModelFile : Type 0 where
  pub is_regular : Bool
  pub loads : Bool
  pub has_vocabulary : Bool
  pub has_encoder : Bool
  pub chat_template : Option Bytes
  pub trained_context : Option ℕ
  pub description : Bytes
  pub file_name : Bytes

pub record LlamaGenerator : Type 0 where
  pub config : ModelConfig
  pub template_source : Bytes
  pub description : Bytes

pub exceeds_training : Option ℕ → ℕ → Bool
exceeds_training none context_size = false
exceeds_training (some trained) context_size = ltb trained context_size

pub new_generator : ModelFile → ModelConfig → Result LlamaGenerator
new_generator model config = do
  throw_if (is_empty config.path) invalid_argument
  throw_if (not model.is_regular) runtime_error
  throw_if (not model.loads) runtime_error
  throw_if (not model.has_vocabulary) runtime_error
  throw_if model.has_encoder runtime_error
  template_source ← template_source_of model.chat_template config.chat_template
  throw_if (exceeds_training model.trained_context config.context_size) invalid_argument
  ok (record {
    config = config;
    template_source = template_source;
    description = if is_empty model.description then model.file_name else model.description;
  })

pub data FinishReason : Type 0 where
  max_tokens_reached cancelled end_of_generation : FinishReason

-- The counts of the GenerationStats, and what the callback got.
pub record Generation : Type 0 where
  pub prompt_tokens : ℕ
  pub generated_tokens : ℕ
  pub text : Bytes
  pub batches : List (List ℕ)

-- The variables of the second loop. `polls` is how often the stop token was asked.
pub record Decoding : Type 0 where
  pub batches : List (List ℕ)
  pub polls : ℕ
  pub generated : ℕ
  pub pending : Bytes
  pub text : Bytes

-- How the first loop ends.
pub data Prefill : Type 0 where
  stopped : List (List ℕ) → Prefill
  prefilled : List (List ℕ) → ℕ → Prefill

module _ (f : Floats) where
  pub record GenerationOptions : Type 0 where
    pub max_tokens : ℤ
    pub temperature : f.Float
    pub top_k : ℤ
    pub top_p : f.Float
    pub repeat_penalty : f.Float
    pub seed : ℕ

  pub data Sampler : Type 0 where
    greedy : Sampler
    best_k : ℤ → Sampler
    nucleus : f.Float → ℕ → Sampler
    penalties : f.Float → Sampler
    with_temperature : f.Float → Sampler
    random : ℕ → Sampler

  -- llama.cpp: `decodes` is whether `llama_decode` of a batch returns 0.
  pub record Llama : Type 0 where
    pub llama_tokenize : Bytes → ℕ → ℤ × List ℕ
    pub token_to_piece : ℕ → ℕ → ℤ × Bytes
    pub is_eog : ℕ → Bool
    pub context_created : Bool
    pub sampler_created : Bool
    pub decodes : List (List ℕ) → List ℕ → Bool
    pub sample : List Sampler → List (List ℕ) → ℕ → ℕ

  pub count_of : ℤ → ℕ
  count_of (pos n) = n
  count_of (negsuc n) = 0

  pub is_negative : ℤ → Bool
  is_negative (pos n) = false
  is_negative (negsuc n) = true

  pub bad_temperature : GenerationOptions → Bool
  bad_temperature o = not (f.is_finite o.temperature) || f.less o.temperature f.zero_f

  pub bad_top_p : GenerationOptions → Bool
  bad_top_p o =
      not (f.is_finite o.top_p)
      || (f.less o.top_p f.zero_f || f.equal o.top_p f.zero_f)
      || f.less f.one_f o.top_p

  pub bad_repeat_penalty : GenerationOptions → Bool
  bad_repeat_penalty o =
      not (f.is_finite o.repeat_penalty)
      || (f.less o.repeat_penalty f.zero_f || f.equal o.repeat_penalty f.zero_f)

  pub check_options : GenerationOptions → Result (Unit {0})
  check_options o = do
    throw_if (is_negative o.max_tokens) invalid_argument
    throw_if (bad_temperature o) invalid_argument
    throw_if (bad_top_p o) invalid_argument
    throw_if (is_negative o.top_k) invalid_argument
    throw_if (bad_repeat_penalty o) invalid_argument

  pub sampler_chain : GenerationOptions → List Sampler
  sampler_chain o =
      if f.equal o.temperature f.zero_f
      then greedy ∷ []
      else best_k o.top_k
        ∷ nucleus o.top_p 1
        ∷ penalties o.repeat_penalty
        ∷ with_temperature o.temperature
        ∷ random o.seed
        ∷ []

  module _ (llama : Llama) (stop_requested : ℕ → Bool) where
    -- The loop over the prompt. It goes on for ever with batches of size 0, and else needs a round for
    -- each token at most.
    pub prefill : ℕ → ℕ → List ℕ → List (List ℕ) → ℕ → Option (Result Prefill)
    prefill fuel batch_size [] batches polls = some (ok (prefilled batches polls))
    prefill zero batch_size (t ∷ rest) batches polls = none
    prefill (suc fuel) batch_size (t ∷ rest) batches polls = elim (stop_requested polls) [
      | true ↦ some (ok (stopped batches))
      | false ↦
          let batch = take (min batch_size (length (t ∷ rest))) (t ∷ rest) in
          elim (llama.decodes batches batch) [
            | false ↦ some (err runtime_error)
            | true ↦
                prefill fuel batch_size (drop (min batch_size (length (t ∷ rest))) (t ∷ rest))
                  (batches ++ (batch ∷ [])) (polls + 1)
          ]
    ]

    -- The test and the batch at the end of a round; `left` rounds may follow.
    pub decode_token : ℕ → ℕ → Decoding → Result Decoding
    decode_token zero token s = ok s
    decode_token (suc left) token s =
        if stop_requested s.polls
        then ok (record s { polls = s.polls + 1 })
        else if llama.decodes s.batches (token ∷ [])
        then ok (record s { batches = s.batches ++ ((token ∷ []) ∷ []); polls = s.polls + 1 })
        else err runtime_error

    -- A round, once a token is sampled that does not end the generation.
    pub accept_token : ℕ → ℕ → Decoding → Option (Result Decoding)
    accept_token left token s = elim (token_piece llama.token_to_piece token) [
      | err e ↦ some (err e)
      | ok piece ↦ elim (emit_complete_utf8 (s.pending ++ piece) false) [
        | none ↦ none
        | some (output, kept) ↦ some (
            decode_token left token (record {
              batches = s.batches;
              polls = s.polls;
              generated = s.generated + 1;
              pending = kept;
              text = s.text ++ output;
            }))
      ]
    ]

    pub decode_loop : List Sampler → ℕ → Decoding → Option (Result (FinishReason × Decoding))
    decode_loop chain zero s = some (ok (max_tokens_reached, s))
    decode_loop chain (suc left) s = elim (stop_requested s.polls) [
      | true ↦ some (ok (cancelled, s))
      | false ↦
          let token = llama.sample chain s.batches s.generated in
          elim (llama.is_eog token) [
            | true ↦ some (ok (end_of_generation, s))
            | false ↦ elim (accept_token left token (record s { polls = s.polls + 1 })) [
              | none ↦ none
              | some (err e) ↦ some (err e)
              | some (ok next) ↦ decode_loop chain left next
            ]
          ]
    ]

    -- From the last call of `emit_complete_utf8` on.
    pub finish_generation : ℕ → FinishReason × Decoding → Option (Result Generation)
    finish_generation prompt_tokens (reason, s) = elim (emit_complete_utf8 s.pending true) [
      | none ↦ none
      | some (output, kept) ↦ some (
          ok (record {
            prompt_tokens = prompt_tokens;
            generated_tokens = s.generated;
            text = s.text ++ output;
            batches = s.batches;
          }))
    ]

    -- From the end of the first loop on.
    pub generate_from : ModelConfig → GenerationOptions → ℕ → Prefill → Option (Result Generation)
    generate_from config options prompt_tokens (stopped batches) =
        some (ok (record { prompt_tokens = 0; generated_tokens = 0; text = []; batches = batches }))
    generate_from config options prompt_tokens (prefilled batches polls) =
        elim (decode_loop (sampler_chain options)
          (min (config.context_size - prompt_tokens) (count_of options.max_tokens))
          (record { batches = batches; polls = polls; generated = 0; pending = []; text = [] })) [
            | none ↦ none
            | some (err e) ↦ some (err e)
            | some (ok finished) ↦ finish_generation prompt_tokens finished
          ]

    -- The tests before the first loop, and the tokens of the prompt.
    pub prepare : ModelConfig → Bytes → GenerationOptions → Bool → Result (List ℕ)
    prepare config prompt options has_callback = do
      throw_if (is_empty prompt) invalid_argument
      throw_if (not has_callback) invalid_argument
      check_options options
      prompt_tokens ← tokenize llama.llama_tokenize prompt
      throw_if (is_empty prompt_tokens) runtime_error
      throw_if (leb config.context_size (length prompt_tokens)) invalid_argument
      context_size ← checked_u32 config.context_size
      batch_size ← checked_u32 config.batch_size
      throw_if (not llama.context_created) runtime_error
      throw_if (not llama.sampler_created) runtime_error
      ok prompt_tokens

    pub generate : ModelConfig → Bytes → GenerationOptions → Bool → Option (Result Generation)
    generate config prompt options has_callback =
        elim (prepare config prompt options has_callback) [
          | err e ↦ some (err e)
          | ok tokens ↦ elim (prefill (length tokens) config.batch_size tokens [] 0) [
            | none ↦ none
            | some (err e) ↦ some (err e)
            | some (ok filled) ↦ generate_from config options (length tokens) filled
          ]
        ]

    pub count_tokens : Bytes → Result ℕ
    count_tokens text = do tokens ← tokenize llama.llama_tokenize text; ok (length tokens)

    -- The method `format_chat` of the generator is that of its template.
    pub generate_chat :
        (List ChatMessage → Bool → ℕ → ℤ × Bytes)
        → ModelConfig
        → List ChatMessage
        → GenerationOptions
        → Bool
        → Option (Result Generation)
    generate_chat apply_template config messages options has_callback =
        elim (format_chat apply_template messages true) [
          | err e ↦ some (err e)
          | ok prompt ↦ generate config prompt options has_callback
        ]
