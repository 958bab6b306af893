-- ===== src/Llama/Generate/Limits/Preparation.antt =====
-- What `generate` does before its first loop, and why it may throw.
use llamacodelab.Llama.Generate.Limits.Rounds.{Breaks}
use llamacodelab.Prelude.{
  ℕ, ◌≤◌, ◌<◌, Bool, true, false, not, List, [], ◌∷◌, length, leb, Bytes, is_empty, ◌≡◌, ◌⊎◌, inl,
  inr, refl, ap, ◌∙◌, arith,
}
use llamacodelab.Prelude.Result.{
  Error, Result, ok, err, invalid_argument, runtime_error, throw_if, ◌>>=◌, Yields, Yields-bind,
  Yields-imp, Yields-throw_if, Yields-call,
}
use llamacodelab.Domain.{Floats}
use llamacodelab.Config.{ModelConfig}
use llamacodelab.Llama.Tokens.{tokenize, checked_u32, IsThrown, tokenize-Yields, checked_u32-Yields}
use llamacodelab.Llama.Generate.{
  GenerationOptions, Llama, is_negative, bad_temperature, bad_top_p, bad_repeat_penalty,
  check_options, prepare,
}

module _ (f : Floats) (llama : Llama f) (stop_requested : ℕ → Bool) where
  -- An option that is refused: negative, not finite, or out of its range.
  abbrev pub IsBad : GenerationOptions f → Type 0
  IsBad o =
      (is_negative f o.max_tokens ≡ true)
      ⊎ (bad_temperature f o ≡ true)
      ⊎ (bad_top_p f o ≡ true)
      ⊎ (is_negative f o.top_k ≡ true)
      ⊎ (bad_repeat_penalty f o ≡ true)

  -- Why `generate` throws.
  pub data GenerateFails (config : ModelConfig) (prompt : Bytes) (options : GenerationOptions f)
      (has_callback : Bool) (e : Error) : Type 0 where
    bad_arguments :
        e ≡ invalid_argument
        → (prompt ≡ []) ⊎ (has_callback ≡ false) ⊎ IsBad options
        → GenerateFails config prompt options has_callback e
    not_tokenized :
        tokenize llama.llama_tokenize prompt ≡ err e
        → IsThrown e
        → GenerateFails config prompt options has_callback e
    no_tokens :
        e ≡ runtime_error
        → tokenize llama.llama_tokenize prompt ≡ ok []
        → GenerateFails config prompt options has_callback e
    too_long :
        (tokens : List ℕ)
        → e ≡ invalid_argument
        → tokenize llama.llama_tokenize prompt ≡ ok tokens
        → config.context_size ≤ length tokens
        → GenerateFails config prompt options has_callback e
    too_large :
        (size : ℕ)
        → (size ≡ config.context_size) ⊎ (size ≡ config.batch_size)
        → checked_u32 size ≡ err e
        → IsThrown e
        → GenerateFails config prompt options has_callback e
    not_created :
        e ≡ runtime_error
        → (llama.context_created ≡ false) ⊎ (llama.sampler_created ≡ false)
        → GenerateFails config prompt options has_callback e
    running : Breaks f llama stop_requested e → GenerateFails config prompt options has_callback e

  -- A guard that throws for a reason, and what follows it.
  guarded :
      {B : Type 0} (Q : B → Type 0) (E : Error → Type 0) (e : Error) (test : Bool)
      (rest : Unit {0} → Result B)
      → (test ≡ true → E e)
      → (test ≡ false → Yields Q E (rest tt))
      → Yields Q E (throw_if test e >>= rest)
  guarded Q E e true rest h k = h refl
  guarded Q E e false rest h k = k refl

  is_empty-eq : {A : Type 0} (xs : List A) → is_empty xs ≡ true → xs ≡ []
  is_empty-eq [] h = refl
  is_empty-eq (x ∷ xs) h = absurd (cc h)

  not-eq : (b : Bool) → not b ≡ true → b ≡ false
  not-eq true h = cc
  not-eq false h = refl

  check_options-Yields :
      (E : Error → Type 0) (o : GenerationOptions f)
      → (IsBad o → E invalid_argument)
      → Yields (λ u. Unit {0}) E (check_options f o)
  unfolding check_options
  check_options-Yields E o bad =
      guarded _ E invalid_argument (is_negative f o.max_tokens) _ (λ h. bad (inl h))
        (λ _.
          guarded _ E invalid_argument (bad_temperature f o) _ (λ h. bad (inr (inl h)))
            (λ _.
              guarded _ E invalid_argument (bad_top_p f o) _ (λ h. bad (inr (inr (inl h))))
                (λ _.
                  guarded _ E invalid_argument (is_negative f o.top_k) _
                    (λ h. bad (inr (inr (inr (inl h)))))
                    (λ _.
                      Yields-imp E (throw_if (bad_repeat_penalty f o) invalid_argument)
                        (Yields-throw_if E _ _ (λ h. bad (inr (inr (inr (inr h)))))) (λ _ _. tt)))))

  checked_u32-IsThrown : (n : ℕ) (e : Error) → checked_u32 n ≡ err e → IsThrown e
  checked_u32-IsThrown n e h = let thrown = checked_u32-Yields n in rw h at thrown

  module _ (config : ModelConfig) (prompt : Bytes) (options : GenerationOptions f)
      (has_callback : Bool) where
    abbrev pub Fails : Error → Type 0
    Fails = GenerateFails config prompt options has_callback

    abbrev pub IsPrompt : List ℕ → Type 0
    IsPrompt tokens =
        (tokenize llama.llama_tokenize prompt ≡ ok tokens) × (length tokens < config.context_size)

    created-Yields :
        (tokens : List ℕ)
        → IsPrompt tokens
        → Yields IsPrompt Fails (
            throw_if (not llama.context_created) runtime_error >>= λ _.
            throw_if (not llama.sampler_created) runtime_error >>= λ _. ok tokens)
    created-Yields tokens told =
        guarded _ Fails runtime_error (not llama.context_created) _
          (λ h. not_created refl (inl (not-eq llama.context_created h)))
          (λ _.
            guarded _ Fails runtime_error (not llama.sampler_created) _
              (λ h. not_created refl (inr (not-eq llama.sampler_created h))) (λ _. told))

    pub prepare-Yields :
        Yields IsPrompt Fails (prepare f llama stop_requested config prompt options has_callback)
    unfolding prepare
    prepare-Yields =
        let tokenized = tokenize llama.llama_tokenize prompt in
        let thrown = tokenize-Yields llama.llama_tokenize prompt in
        guarded _ Fails invalid_argument (is_empty prompt) _
          (λ h. bad_arguments refl (inl (is_empty-eq prompt h)))
          (λ _.
            guarded _ Fails invalid_argument (not has_callback) _
              (λ h. bad_arguments refl (inr (inl (not-eq has_callback h))))
              (λ _.
                Yields-bind _ Fails (check_options f options) _
                  (check_options-Yields Fails options (λ h. bad_arguments refl (inr (inr h))))
                  (λ _ _.
                    Yields-bind _ Fails tokenized _
                      (Yields-call Fails tokenized (λ e h. not_tokenized h (rw h at thrown)))
                      (λ tokens told.
                        guarded _ Fails runtime_error (is_empty tokens) _
                          (λ h. no_tokens refl (told ∙ ap ok (is_empty-eq tokens h)))
                          (λ _.
                            guarded _ Fails invalid_argument
                              (leb config.context_size (length tokens)) _
                              (λ h. too_long tokens refl told (ground arith))
                              (λ room.
                                Yields-bind _ Fails (checked_u32 config.context_size) _
                                  (Yields-call Fails (checked_u32 config.context_size) (λ e h.
                                    too_large config.context_size (inl refl) h
                                      (checked_u32-IsThrown _ e h)))
                                  (λ _ _.
                                    Yields-bind _ Fails (checked_u32 config.batch_size) _
                                      (Yields-call Fails (checked_u32 config.batch_size) (λ e h.
                                        too_large config.batch_size (inr refl) h
                                          (checked_u32-IsThrown _ e h)))
                                      (λ _ _. created-Yields tokens (told, ground arith)))))))))
