-- ===== src/Prompt/Tests.antt =====
-- A run of `build` with a formatter that joins the contents, and a counter of bytes.
use llamacodelab.Prelude.{List, [], ◌∷◌, ◌++◌, some, ◌≡◌, refl, arith, codes, length, Bytes}
use llamacodelab.Prelude.Result.{ok}
use llamacodelab.Prelude.Loop.{Ends, iterate}
use llamacodelab.Chat.{system, user, assistant, ChatMessage}
use llamacodelab.Prompt.{
  ChatModel, build, round, shrink, erase_oldest, is_conversation, BuiltPrompt,
}
use llamacodelab.Prompt.Fit.{Fits, Fails, build-Ends, build_system, system_messages}

joined : List ChatMessage → Bytes
joined [] = codes ">"
joined (m ∷ ms) = m.content ++ joined ms

abbrev byte_model : ChatModel
byte_model = record { format = λ ms add. ok (joined ms); count_tokens = λ text. ok (length text) }

abbrev talk : List ChatMessage
talk =
    record { role = user; content = codes "hello" }
    ∷ record { role = system; content = codes "sys" }
    ∷ record { role = assistant; content = codes "oh" }
    ∷ record { role = user; content = codes "why" }
    ∷ []

abbrev talk_prompt : BuiltPrompt
talk_prompt = record {
  text = codes "syswhy>";
  retained_messages =
      record { role = system; content = codes "sys" }
      ∷ record { role = user; content = codes "why" }
      ∷ [];
  token_count = 7;
  discarded_messages = 2;
}

build-talk : build byte_model 8 talk ≡ some (ok talk_prompt)
unfolding build round shrink erase_oldest is_conversation iterate joined
build-talk = refl

build-Ends_example :
    Ends (Fits byte_model 8 talk) (Fails byte_model 8 talk) (build byte_model 8 talk)
build-Ends_example = build-Ends byte_model 8 talk (λ e. cc) (omega arith)

build_system_example : system_messages talk_prompt.retained_messages ≡ system_messages talk
build_system_example = build_system byte_model 8 talk talk_prompt build-talk
