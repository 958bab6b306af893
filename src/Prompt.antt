-- ===== src/Prompt.antt =====
-- include/llamacodelab/application/prompt_builder.hpp and src/application/prompt_builder.cpp: the chat
-- prompt that fits a token budget. The formatter and the token counter are the interfaces
-- IChatFormatter and ITokenCounter of include/llamacodelab/domain: parameters here, which may throw.
pub mod Fit
mod Tests
use mathlib.Core.Option
use llamacodelab.Prelude.{
  ℕ, suc, ◌+◌, Bool, true, false, not, List, [], ◌∷◌, ◌++◌, Option, none, some, if◌then◌else◌, leb,
  ◌==◌, Bytes, is_empty, length,
}
use llamacodelab.Prelude.Result.{Result, ok, err, invalid_argument, throw_if, ◌>>=◌, ◌>>◌}
use llamacodelab.Prelude.Loop.{Flow, continue, return, iterate}
use llamacodelab.Chat.{Role, system, ChatMessage}

-- IChatFormatter and ITokenCounter.
pub record ChatModel : Type 0 where
  pub format : List ChatMessage → Bool → Result Bytes
  pub count_tokens : Bytes → Result ℕ

pub record BuiltPrompt : Type 0 where
  pub text : Bytes
  pub retained_messages : List ChatMessage
  pub token_count : ℕ
  pub discarded_messages : ℕ

not_system : Role → Bool
not_system system = false
not_system _ = true

-- message.role != Role::system
is_conversation : ChatMessage → Bool
unfolding not_system
is_conversation m = not_system m.role

-- The variables of the loop.
pub record Retained : Type 0 where
  pub retained : List ChatMessage
  pub discarded : ℕ

-- `std::find_if` for the oldest message that is no system message, and `erase` of it; `none` where
-- there is none.
erase_oldest : List ChatMessage → Option (List ChatMessage)
erase_oldest [] = none
erase_oldest (m ∷ ms) = if is_conversation m then some ms else Option.map (◌∷◌ m) (erase_oldest ms)

module _ (model : ChatModel) (max_prompt_tokens : ℕ) where
  shrink : Retained → Result (Flow Retained BuiltPrompt)
  shrink s = elim (erase_oldest s.retained) [
    | none ↦ err invalid_argument
    | some rest ↦
        if length s.retained == 1
        then err invalid_argument
        else ok (continue (record { retained = rest; discarded = s.discarded + 1 }))
  ]

  -- The body of `while (true)`.
  round : Retained → Result (Flow Retained BuiltPrompt)
  round s = do
    text ← model.format s.retained true
    token_count ← model.count_tokens text
    let built : BuiltPrompt = record {
      text = text;
      retained_messages = s.retained;
      token_count = token_count;
      discarded_messages = s.discarded;
    }
    if leb token_count max_prompt_tokens then ok (return built) else shrink s

  -- Each round drops a message, so one round for each message and one more are enough.
  pub build : List ChatMessage → Option (Result BuiltPrompt)
  build messages =
      if is_empty messages
      then some (err invalid_argument)
      else if max_prompt_tokens == 0
      then some (err invalid_argument)
      else iterate (length messages + 1) round (record { retained = messages; discarded = 0 })
