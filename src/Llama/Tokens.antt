-- ===== src/Llama/Tokens.antt =====
-- src/adapters/llama/llama_generator.cpp and llama_embedder.cpp: `checked_u32`, `checked_i32`, `tokenize`
-- and `token_piece`. llama.cpp's vocabulary is a parameter: each call gets the size of the buffer, and
-- gives what it returns and the buffer.
use llamacodelab.Prelude.{
  ℕ, suc, ◌-◌, ◌<◌, ◌^◌, false, List, [], ◌∷◌, length, resize, All, All-resize, if◌then◌else◌, ltb,
  ◌==◌, Bytes, ◌≡◌, refl, ap, arith, ==-ne, resize-length, ◌⊎◌, inl, inr, Bool-cases,
}
use llamacodelab.Utf8.Valid.{IsByte}
use llamacodelab.Prelude.Int.{ℤ, pos, negsuc}
use llamacodelab.Prelude.Result.{
  Error, Result, ok, err, invalid_argument, runtime_error, throw_if, ◌>>=◌, ◌>>◌, Yields,
  Yields-bind, Yields-throw_if,
}

pub checked_u32 : ℕ → Result ℕ
checked_u32 value = do throw_if (ltb (2 ^ 32 - 1) value) invalid_argument; ok value

pub checked_i32 : ℕ → Result ℕ
checked_i32 value = do throw_if (ltb (2 ^ 31 - 1) value) invalid_argument; ok value

-- The second call of `llama_tokenize`, with a buffer of the size that the first asked for.
pub tokens_of : ℤ × List ℕ → Result (List ℕ)
tokens_of (negsuc n, buffer) = err runtime_error
tokens_of (pos count, buffer) = ok (resize 0 count buffer)

-- The test of the first result, `required`.
pub tokenize_into : (ℕ → ℤ × List ℕ) → ℤ → Result (List ℕ)
tokenize_into tokenize_with (pos n) = if n == 0 then ok [] else err runtime_error
tokenize_into tokenize_with (negsuc n) =
    if suc n == 2 ^ 31 then err runtime_error else tokens_of (tokenize_with (suc n))

pub tokenize : (Bytes → ℕ → ℤ × List ℕ) → Bytes → Result (List ℕ)
tokenize llama_tokenize text = do
  text_size ← checked_i32 (length text)
  tokenize_into (llama_tokenize text) (llama_tokenize text 0).0

pub piece_of : ℤ × Bytes → Result Bytes
piece_of (negsuc n, buffer) = err runtime_error
piece_of (pos size, buffer) = ok (resize 0 size buffer)

-- A second call where the buffer of 256 bytes was too small.
pub retry_piece : (ℕ → ℤ × Bytes) → ℤ × Bytes → ℤ × Bytes
retry_piece piece_with (negsuc n, buffer) = piece_with (suc n)
retry_piece piece_with (pos size, buffer) = (pos size, buffer)

pub token_piece : (ℕ → ℕ → ℤ × Bytes) → ℕ → Result Bytes
token_piece token_to_piece token =
    piece_of (retry_piece (token_to_piece token) (token_to_piece token 256))

-- The documented contract of `llama_tokenize`: the number of tokens, or, where the buffer is too small,
-- the negative of that number.
unfoldable pub Tokenizes : (Bytes → ℕ → ℤ × List ℕ) → Bytes → List ℕ → Type 0
Tokenizes llama_tokenize text tokens =
    (length tokens ≡ 0 → (llama_tokenize text 0).0 ≡ pos 0)
    × ((n : ℕ)
        → length tokens ≡ suc n
        → ((llama_tokenize text 0).0 ≡ negsuc n)
          × (llama_tokenize text (suc n) ≡ (pos (suc n), tokens)))

tokenize_into_lem :
    (llama_tokenize : Bytes → ℕ → ℤ × List ℕ) (text : Bytes) (tokens : List ℕ)
    → Tokenizes llama_tokenize text tokens
    → length tokens < 2 ^ 31
    → tokenize_into (llama_tokenize text) (llama_tokenize text 0).0 ≡ ok tokens
unfolding Tokenizes tokenize_into tokens_of
tokenize_into_lem llama_tokenize text [] h few = rw (h.0 refl) refl
tokenize_into_lem llama_tokenize text (t ∷ tokens) h few =
    let (first, second) = h.1 (length tokens) refl in
    rw first (
      rw (==-ne (suc (length tokens)) (2 ^ 31) (omega arith))
        (rw second (ap ok (resize-length 0 (t ∷ tokens)))))

-- For a text and tokens below 2^31, where llama.cpp keeps its contract, the tokens of the text are
-- returned, whatever their number.
pub tokenize-tokens :
    (llama_tokenize : Bytes → ℕ → ℤ × List ℕ) (text : Bytes) (tokens : List ℕ)
    → Tokenizes llama_tokenize text tokens
    → length text < 2 ^ 31
    → length tokens < 2 ^ 31
    → tokenize llama_tokenize text ≡ ok tokens
unfolding tokenize checked_i32
tokenize-tokens llama_tokenize text tokens h short few =
    let small : ltb (2 ^ 31 - 1) (length text) ≡ false = ground arith in
    rw small (tokenize_into_lem llama_tokenize text tokens h few)

-- The classes of the exceptions.
abbrev pub IsThrown : Error → Type 0
IsThrown e = (e ≡ invalid_argument) ⊎ (e ≡ runtime_error)

pub checked_u32-Yields : (n : ℕ) → Yields (λ m. m ≡ n) IsThrown (checked_u32 n)
unfolding checked_u32
checked_u32-Yields n =
    Yields-bind _ IsThrown (throw_if (ltb (2 ^ 32 - 1) n) invalid_argument) _
      (Yields-throw_if IsThrown _ _ (λ h. inl refl)) (λ _ _. refl)

tokens_of-Yields : (z : ℤ × List ℕ) → Yields (λ t. Unit {0}) IsThrown (tokens_of z)
unfolding tokens_of
tokens_of-Yields (pos n, buffer) = tt
tokens_of-Yields (negsuc n, buffer) = inr refl

tokenize_into-Yields :
    (with_capacity : ℕ → ℤ × List ℕ) (required : ℤ)
    → Yields (λ t. Unit {0}) IsThrown (tokenize_into with_capacity required)
unfolding tokenize_into
tokenize_into-Yields with_capacity (pos n) = elim (Bool-cases (n == 0)) [
  | inl e ↦ rw e tt
  | inr e ↦ rw e (inr refl)
]
tokenize_into-Yields with_capacity (negsuc n) = elim (Bool-cases (suc n == 2 ^ 31)) [
  | inl e ↦ rw e (inr refl)
  | inr e ↦ rw e (tokens_of-Yields (with_capacity (suc n)))
]

pub tokenize-Yields :
    (llama_tokenize : Bytes → ℕ → ℤ × List ℕ) (text : Bytes)
    → Yields (λ t. Unit {0}) IsThrown (tokenize llama_tokenize text)
unfolding tokenize checked_i32
tokenize-Yields llama_tokenize text =
    Yields-bind {Q = λ n. Unit {0}} _ IsThrown (checked_i32 (length text)) _
      (Yields-bind _ IsThrown (throw_if (ltb (2 ^ 31 - 1) (length text)) invalid_argument) _
        (Yields-throw_if IsThrown _ _ (λ h. inl refl)) (λ _ _. tt))
      (λ n _. tokenize_into-Yields (llama_tokenize text) (llama_tokenize text 0).0)

piece_of-Yields :
    (z : ℤ × Bytes) → All IsByte z.1 → Yields (λ p. All IsByte p) IsThrown (piece_of z)
unfolding piece_of
piece_of-Yields (pos size, buffer) h = All-resize IsByte 0 size buffer (omega arith) h
piece_of-Yields (negsuc n, buffer) h = inr refl

retry_piece-IsByte :
    (with_capacity : ℕ → ℤ × Bytes) (z : ℤ × Bytes)
    → ((n : ℕ) → All IsByte (with_capacity n).1)
    → All IsByte z.1
    → All IsByte (retry_piece with_capacity z).1
unfolding retry_piece
retry_piece-IsByte with_capacity (pos size, buffer) g h = h
retry_piece-IsByte with_capacity (negsuc n, buffer) g h = g (suc n)

pub token_piece-Yields :
    (token_to_piece : ℕ → ℕ → ℤ × Bytes) (token : ℕ)
    → ((capacity : ℕ) → All IsByte (token_to_piece token capacity).1)
    → Yields (λ p. All IsByte p) IsThrown (token_piece token_to_piece token)
unfolding token_piece
token_piece-Yields token_to_piece token g =
    piece_of-Yields _
      (retry_piece-IsByte (token_to_piece token) (token_to_piece token 256) g (g 256))
