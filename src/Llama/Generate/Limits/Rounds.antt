-- ===== src/Llama/Generate/Limits/Rounds.antt =====
-- The two loops of `generate`: each ends, and keeps what it needs.
use llamacodelab.Prelude.{
  ℕ, zero, suc, ◌+◌, ◌≤◌, ◌<◌, min, Bool, false, Option, none, some, List, [], ◌∷◌, ◌++◌,
  append_assoc, append-nil, length, length-append, length-take, length-drop, take, drop,
  take-append-drop, All, All-append, Bytes, true, ◌≡◌, ◌≢◌, ◌⊎◌, inl, inr, refl, sym, ap, ◌∙◌,
  arith, Bool-cases,
}
use llamacodelab.Prelude.Result.{Error, err, runtime_error, Result-cases, Yields}
use llamacodelab.Prelude.Loop.{Ends, Ends-cases, Ends-Yields}
use llamacodelab.Domain.{Floats}
use llamacodelab.Utf8.Valid.{IsUtf8, IsUtf8-append, IsByte, Emits, emit-Emits}
use llamacodelab.Utf8.Streaming.{joined}
use llamacodelab.Llama.Tokens.{token_piece, IsThrown, token_piece-Yields}
use llamacodelab.Llama.Generate.{
  Decoding, Prefill, stopped, prefilled, Llama, Sampler, prefill, decode_token, accept_token,
  decode_loop,
}

joined-snoc :
    (batches : List (List ℕ)) (batch : List ℕ)
    → joined (batches ++ (batch ∷ [])) ≡ joined batches ++ batch
joined-snoc [] batch = append-nil batch
joined-snoc (b ∷ batches) batch =
    ap (◌++◌ b) (joined-snoc batches batch) ∙ sym (append_assoc b (joined batches) batch)

abbrev pub Small : ℕ → List ℕ → Type 0
Small batch_size batch = length batch ≤ batch_size

-- The bytes of every piece are bytes.
abbrev pub GivesBytes : {f : Floats} → Llama f → Type 0
GivesBytes llama = (token capacity : ℕ) → All IsByte (llama.token_to_piece token capacity).1

module _ (f : Floats) (llama : Llama f) (stop_requested : ℕ → Bool) where
  -- Stopped with a part of the prompt left: the stop token said so when it was asked after the batches.
  pub record IsStopped (batch_size : ℕ) (tokens : List ℕ) (batches : List (List ℕ)) : Type 0 where
    pub stop : stop_requested (length batches) ≡ true
    pub left : List ℕ
    pub some_left : left ≢ []
    pub decoded : joined batches ++ left ≡ tokens
    pub small : All (Small batch_size) batches

  module _ (chain : List (Sampler f)) (start : List (List ℕ)) (limit : ℕ) where
    -- How `n` tokens were sampled after the batches `start`: each, none of which ends the generation, by
    -- what was decoded before it; and it was decoded in a batch of its own, unless it was the last that
    -- the limit allows, or the stop was requested.
    pub data Sampled : ℕ → List ℕ → List (List ℕ) → Type 0 where
      no_token : (n : ℕ) (batches : List (List ℕ)) → n ≡ 0 → batches ≡ start → Sampled n [] batches
      decoded_token :
          (n m : ℕ) (fed more : List ℕ) (before after : List (List ℕ)) (token : ℕ)
          → Sampled n fed before
          → token ≡ llama.sample chain before n
          → llama.is_eog token ≡ false
          → m ≡ n + 1
          → more ≡ fed ++ (token ∷ [])
          → after ≡ before ++ ((token ∷ []) ∷ [])
          → Sampled m more after
      last_token :
          (n m : ℕ) (fed : List ℕ) (batches : List (List ℕ))
          → Sampled n fed batches
          → llama.is_eog (llama.sample chain batches n) ≡ false
          → m ≡ n + 1
          → (m ≡ limit) ⊎ ((k : ℕ) × (stop_requested k ≡ true))
          → Sampled m fed batches

    -- Why no more tokens follow.
    pub data Finished (n : ℕ) (batches : List (List ℕ)) : Type 0 where
      at_limit : n ≡ limit → Finished n batches
      on_request : (k : ℕ) → stop_requested k ≡ true → Finished n batches
      at_end : llama.is_eog (llama.sample chain batches n) ≡ true → Finished n batches

  -- What ends a loop with an exception: llama.cpp does not decode a batch, or gives no piece of a token.
  pub data Breaks (e : Error) : Type 0 where
    not_decoded :
        (batches : List (List ℕ)) (batch : List ℕ)
        → llama.decodes batches batch ≡ false
        → e ≡ runtime_error
        → Breaks e
    no_piece : (token : ℕ) → token_piece llama.token_to_piece token ≡ err e → IsThrown e → Breaks e

module _ (f : Floats) (llama : Llama f) (stop_requested : ℕ → Bool) (batch_size : ℕ)
    (some_batch : 0 < batch_size) where
  -- The batches are the prompt, cut into pieces.
  abbrev pub IsPrefill : List ℕ → Prefill → Type 0
  IsPrefill tokens (stopped batches) = IsStopped f llama stop_requested batch_size tokens batches
  IsPrefill tokens (prefilled batches polls) =
      (joined batches ≡ tokens) × All (Small batch_size) batches

  pub prefill-Ends :
      (tokens : List ℕ) (fuel : ℕ) (rest : List ℕ) (batches : List (List ℕ)) (polls : ℕ)
      → length rest ≤ fuel
      → polls ≡ length batches
      → joined batches ++ rest ≡ tokens
      → All (Small batch_size) batches
      → Ends
          (IsPrefill tokens)
          (Breaks f llama stop_requested)
          (prefill f llama stop_requested fuel batch_size rest batches polls)
  unfolding prefill
  prefill-Ends tokens fuel [] batches polls h n e s = (sym (append-nil (joined batches)) ∙ e, s)
  prefill-Ends tokens zero (t ∷ rest) batches polls h n e s = absurd (omega arith)
  prefill-Ends tokens (suc fuel) (t ∷ rest) batches polls h n e s =
      let count = min batch_size (length (t ∷ rest)) in
      let batch = take count (t ∷ rest) in
      elim (Bool-cases (stop_requested polls)) [
        | inl stop ↦
            rw (stop, prefill)
              (record {
                stop = ap stop_requested (sym n) ∙ stop;
                left = t ∷ rest;
                some_left = λ p. cc p;
                decoded = e;
                small = s;
              })
        | inr go ↦ elim (Bool-cases (llama.decodes batches batch)) [
          | inr fails ↦ rw (go, prefill) (rw fails (not_decoded _ _ fails refl))
          | inl decoded ↦
              rw (go, prefill)
                (rw decoded (
                  prefill-Ends tokens fuel (drop count (t ∷ rest)) (batches ++ (batch ∷ []))
                    (polls + 1) (omega (arith, length-drop count (t ∷ rest)))
                    (omega (arith, n, length-append batches (batch ∷ [])))
                    (ap (λ l. l ++ drop count (t ∷ rest)) (joined-snoc batches batch)
                      ∙ append_assoc (joined batches) batch (drop count (t ∷ rest))
                      ∙ ap (◌++◌ (joined batches)) (take-append-drop count (t ∷ rest))
                      ∙ e)
                    (All-append (Small batch_size) batches (batch ∷ []) s
                      (omega (arith, length-take count (t ∷ rest)), tt))))
        ]
      ]

  -- The state between two rounds, where `left` more of `limit` rounds may follow.
  pub record IsDecoding (chain : List (Sampler f)) (start : List (List ℕ)) (tokens : List ℕ)
      (limit left : ℕ) (s : Decoding) : Type 0 where
    pub fed : List ℕ
    pub counted : s.generated + left ≡ limit
    pub bytes : All IsByte s.pending
    pub written : IsUtf8 s.text
    pub decoded : joined s.batches ≡ tokens ++ fed
    pub few : length fed ≤ s.generated
    pub small : All (Small batch_size) s.batches
    pub sampled : Sampled f llama stop_requested chain start limit s.generated fed s.batches

  pub emitted :
      (o : Option (Bytes × Bytes))
      → Emits o
      → (x : Bytes × Bytes) × (o ≡ some x) × IsUtf8 x.0 × All IsByte x.1
  unfolding Emits
  emitted none h = absurd h
  emitted (some x) h = (x, refl, h.0, h.1)

  module _ (chain : List (Sampler f)) (start : List (List ℕ)) (tokens : List ℕ) (limit : ℕ) where
    decode_token-Yields :
        (left token n : ℕ) (s : Decoding) (fed : List ℕ)
        → s.generated + left ≡ limit
        → All IsByte s.pending
        → IsUtf8 s.text
        → joined s.batches ≡ tokens ++ fed
        → length fed ≤ n
        → All (Small batch_size) s.batches
        → s.generated ≡ n + 1
        → Sampled f llama stop_requested chain start limit n fed s.batches
        → token ≡ llama.sample chain s.batches n
        → llama.is_eog token ≡ false
        → Yields
            (λ t. IsDecoding chain start tokens limit left t)
            (Breaks f llama stop_requested)
            (decode_token f llama stop_requested left token s)
    unfolding decode_token
    decode_token-Yields zero token n s fed c b w d few small g sampled told more = record {
      fed = fed;
      counted = c;
      bytes = b;
      written = w;
      decoded = d;
      few = omega arith;
      small = small;
      sampled =
          last_token n s.generated fed s.batches sampled (ap llama.is_eog (sym told) ∙ more) g
            (inl (omega arith));
    }
    decode_token-Yields (suc left) token n s fed c b w d few small g sampled told more =
        elim (Bool-cases (stop_requested s.polls)) [
          | inl stop ↦ rw stop (record {
            fed = fed;
            counted = c;
            bytes = b;
            written = w;
            decoded = d;
            few = omega arith;
            small = small;
            sampled =
                last_token n s.generated fed s.batches sampled (ap llama.is_eog (sym told) ∙ more) g
                  (inr (s.polls, stop));
          })
          | inr go ↦ elim (Bool-cases (llama.decodes s.batches (token ∷ []))) [
            | inr fails ↦ rw go (rw fails (not_decoded _ _ fails refl))
            | inl runs ↦ rw go (
                rw runs (record {
                  fed = fed ++ (token ∷ []);
                  counted = c;
                  bytes = b;
                  written = w;
                  decoded =
                      joined-snoc s.batches (token ∷ [])
                      ∙ ap (λ l. l ++ (token ∷ [])) d
                      ∙ append_assoc tokens fed (token ∷ []);
                  few = omega (arith, length-append fed (token ∷ []));
                  small = All-append (Small batch_size) s.batches _ small (omega arith, tt);
                  sampled =
                      decoded_token n s.generated fed _ s.batches _ token sampled told more g refl
                        refl;
                }))
          ]
        ]

    module _ (g : GivesBytes llama) where
      accept_token-Ends :
          (left token : ℕ) (s : Decoding)
          → IsDecoding chain start tokens limit (suc left) s
          → token ≡ llama.sample chain s.batches s.generated
          → llama.is_eog token ≡ false
          → Ends
              (λ t. IsDecoding chain start tokens limit left t)
              (Breaks f llama stop_requested)
              (accept_token f llama stop_requested left token s)
      unfolding accept_token
      accept_token-Ends left token s v told more =
          let pieces = token_piece-Yields llama.token_to_piece token (g token) in
          elim (Result-cases (token_piece llama.token_to_piece token)) [
            | inr (e, p) ↦ rw (p, accept_token) (no_piece token p (rw p at pieces))
            | inl (piece, p) ↦
                let bytes = All-append IsByte s.pending piece v.bytes (rw p at pieces) in
                let (x, out, well_formed, kept) =
                  emitted _ (emit-Emits (s.pending ++ piece) false bytes) in
                let t : Decoding = record {
                  batches = s.batches;
                  polls = s.polls;
                  generated = s.generated + 1;
                  pending = x.1;
                  text = s.text ++ x.0;
                } in
                rw (p, accept_token)
                  (rw out (
                    Ends-Yields (λ u. IsDecoding chain start tokens limit left u)
                      (Breaks f llama stop_requested)
                      (decode_token f llama stop_requested left token t)
                      (decode_token-Yields left token s.generated t v.fed (omega (arith, v.counted))
                        kept (IsUtf8-append v.written well_formed) v.decoded v.few v.small refl
                        v.sampled told more)))
          ]

      pub decode_loop-Ends :
          (left : ℕ) (s : Decoding)
          → IsDecoding chain start tokens limit left s
          → Ends
              (λ z.
                (l : ℕ) × IsDecoding chain start tokens limit l z.1
                × Finished f llama stop_requested chain start limit z.1.generated z.1.batches)
              (Breaks f llama stop_requested)
              (decode_loop f llama stop_requested chain left s)
      unfolding decode_loop
      decode_loop-Ends zero s v = (zero, v, at_limit (omega (arith, v.counted)))
      decode_loop-Ends (suc left) s v = elim (Bool-cases (stop_requested s.polls)) [
        | inl stop ↦ rw (stop, decode_loop) (suc left, v, on_request s.polls stop)
        | inr go ↦
            let token = llama.sample chain s.batches s.generated in
            elim (Bool-cases (llama.is_eog token)) [
              | inl eog ↦ rw (go, decode_loop) (rw eog (suc left, v, at_end eog))
              | inr more ↦
                  let asked : Decoding = record s { polls = s.polls + 1 } in
                  let round =
                    accept_token-Ends left token asked
                      (record {
                        fed = v.fed;
                        counted = v.counted;
                        bytes = v.bytes;
                        written = v.written;
                        decoded = v.decoded;
                        few = v.few;
                        small = v.small;
                        sampled = v.sampled;
                      })
                      refl more in
                  elim (Ends-cases _ (Breaks f llama stop_requested)
                    (accept_token f llama stop_requested left token asked) round) [
                      | inr (e, a, thrown) ↦ rw (go, decode_loop) (rw more (rw a thrown))
                      | inl (t, a, u) ↦
                          rw (go, decode_loop) (rw more (rw a (decode_loop-Ends left t u)))
                    ]
            ]
      ]
