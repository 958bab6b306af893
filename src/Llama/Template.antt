-- ===== src/Llama/Template.antt =====
-- src/adapters/llama/llama_chat_template.cpp: a conversation is formatted into a buffer that grows once.
-- `llama_chat_template` and `llama_chat_apply_template` of llama.cpp are parameters: the second gets the
-- size of the buffer, and returns the size of the text and the buffer.
use llamacodelab.Prelude.{
  ℕ, ◌+◌, ◌-◌, ◌<◌, ◌^◌, Bool, false, Option, none, some, List, [], ◌∷◌, length, take, resize,
  resize-take, if◌then◌else◌, leb, Bytes, is_empty, is_empty-ne, ◌≡◌, ◌≢◌, refl, ap, All, arith,
  inl, inr, Bool-cases,
}
use llamacodelab.Prelude.Int.{ℤ, pos, negsuc}
use llamacodelab.Prelude.Result.{
  Result, ok, err, invalid_argument, runtime_error, throw_if, ◌>>=◌, ◌>>◌,
}
use llamacodelab.Chat.{ChatMessage}

-- The constructor: the override, or the template of the model (`none` for a null pointer).
pub template_source_of : Option Bytes → Option Bytes → Result Bytes
template_source_of model_template (some template_override) = ok template_override
template_source_of none none = err runtime_error
template_source_of (some value) none = if is_empty value then err runtime_error else ok value

-- The loop over the messages.
pub check_messages : List ChatMessage → Result (Unit {0})
check_messages [] = ok tt
check_messages (m ∷ messages) = do
  throw_if (is_empty m.content) invalid_argument
  check_messages messages

-- The buffer for a text of `size` bytes, if the first of `capacity` bytes is too small.
pub second_capacity : ℕ → ℕ → Result ℕ
second_capacity capacity size =
    if leb capacity size
    then if leb (2 ^ 31 - 1) size then err runtime_error else ok (size + 1)
    else ok capacity

-- The last test, and the text.
pub finish : ℕ → ℤ × Bytes → Result Bytes
finish capacity (negsuc n, buffer) = err runtime_error
finish capacity (pos size, buffer) =
    if leb capacity size then err runtime_error else ok (resize 0 size buffer)

module _ (apply_template : List ChatMessage → Bool → ℕ → ℤ × Bytes) where
  pub format_from : List ChatMessage → Bool → ℤ × Bytes → Result Bytes
  format_from messages prefix (negsuc n, buffer) = err runtime_error
  format_from messages prefix (pos size, buffer) = do
    capacity ← second_capacity 512 size
    finish capacity
        (if leb 512 size then apply_template messages prefix capacity else (pos size, buffer))

  pub format_chat : List ChatMessage → Bool → Result Bytes
  format_chat messages prefix = do
    throw_if (is_empty messages) invalid_argument
    check_messages messages
    format_from messages prefix (apply_template messages prefix 512)

  check_messages_lem :
      (messages : List ChatMessage)
      → All (λ m. m.content ≢ []) messages
      → check_messages messages ≡ ok tt
  unfolding check_messages
  check_messages_lem [] h = refl
  check_messages_lem (m ∷ messages) h =
      rw (is_empty-ne m.content h.0) (check_messages_lem messages h.1)

  -- The documented contract of `llama_chat_apply_template`: it returns the size of the whole text, and
  -- writes as much of it as the buffer holds.
  unfoldable pub WritesText : List ChatMessage → Bool → Bytes → Type 0
  WritesText messages prefix text =
      (capacity : ℕ)
      → apply_template messages prefix capacity ≡ (pos (length text), take capacity text)

  format_from_lem :
      (messages : List ChatMessage) (prefix : Bool) (text : Bytes)
      → WritesText messages prefix text
      → length text < 2 ^ 31 - 1
      → format_from messages prefix (pos (length text), take 512 text) ≡ ok text
  unfolding format_from second_capacity finish WritesText
  format_from_lem messages prefix text h small = elim (Bool-cases (leb 512 (length text))) [
    | inr short ↦ rw short (rw short (ap ok (resize-take 0 512 text (ground arith))))
    | inl long ↦
        let fits : leb (2 ^ 31 - 1) (length text) ≡ false = ground arith in
        let grown : leb (length text + 1) (length text) ≡ false = ground arith in
        rw long (
          rw fits (
            rw (h (length text + 1))
              (rw grown (ap ok (resize-take 0 (length text + 1) text (omega arith))))))
  ]

  -- For messages that are not empty and a text of fewer than 2^31 - 1 bytes, where llama.cpp keeps its
  -- contract, the text is returned whole, whether it fits the first buffer of 512 bytes or not.
  pub format_chat-text :
      (messages : List ChatMessage) (prefix : Bool) (text : Bytes)
      → messages ≢ []
      → All (λ m. m.content ≢ []) messages
      → WritesText messages prefix text
      → length text < 2 ^ 31 - 1
      → format_chat messages prefix ≡ ok text
  unfolding format_chat WritesText
  format_chat-text messages prefix text some_message contents h small =
      rw (is_empty-ne messages some_message) (
        rw (check_messages_lem messages contents)
          (rw (h 512) (format_from_lem messages prefix text h small)))
