-- ===== src/Llama/Tests.antt =====
-- A llama.cpp whose tokens are the bytes of the text, and which always samples the token `A`.
use llamacodelab.Prelude.{
  ℕ, suc, zero, Bool, true, false, none, List, [], ◌∷◌, length, take, ◌==◌, ◌≡◌, ◌≢◌, refl, ap,
  arith, Bytes, codes,
}
use llamacodelab.Prelude.Int.{ℤ, pos, negsuc}
use llamacodelab.Prelude.Result.{ok}
use llamacodelab.Prelude.Loop.{Ends}
use llamacodelab.Domain.Millionths.{millionths}
use llamacodelab.Chat.{ChatMessage, user}
use llamacodelab.Config.{ModelConfig}
use llamacodelab.Llama.Template.{WritesText, format_chat, format_chat-text}
use llamacodelab.Llama.Tokens.{Tokenizes, tokenize, tokenize-tokens}
use llamacodelab.Llama.Generate.{GenerationOptions, Llama, generate}
use llamacodelab.Llama.Generate.Limits.{IsGeneration, generate-Ends}
use llamacodelab.Llama.Generate.Limits.Preparation.{GenerateFails}

abbrev formatted : List ChatMessage → Bool → ℕ → ℤ × Bytes
formatted messages prefix capacity = (pos 3, take capacity (codes "Hi!"))

abbrev messages : List ChatMessage
messages = record { role = user; content = codes "Hi!" } ∷ []

formatted-WritesText : WritesText formatted messages true (codes "Hi!")
unfolding WritesText
formatted-WritesText capacity = refl

some_messages : messages ≢ []
some_messages = λ e. cc

some_text : codes "Hi!" ≢ []
some_text = λ e. cc

format_chat-text_example : format_chat formatted messages true ≡ ok (codes "Hi!")
format_chat-text_example =
    format_chat-text formatted messages true (codes "Hi!") some_messages (some_text, tt)
      formatted-WritesText (omega arith)

abbrev bytes_as_tokens : Bytes → ℕ → ℤ × List ℕ
bytes_as_tokens [] capacity = (pos 0, [])
bytes_as_tokens (b ∷ text) zero = (negsuc (length text), [])
bytes_as_tokens (b ∷ text) (suc n) = (pos (suc (length text)), b ∷ text)

prompt-Tokenizes : Tokenizes bytes_as_tokens (codes "Hi!") (codes "Hi!")
unfolding Tokenizes
prompt-Tokenizes = (
  (λ h. absurd (omega (arith, h))),
  λ n h. (ap negsuc (omega (arith, h)), ap (λ m. (pos (suc m), codes "Hi!")) (omega (arith, h))),
)

tokenize-tokens_example : tokenize bytes_as_tokens (codes "Hi!") ≡ ok (codes "Hi!")
tokenize-tokens_example =
    tokenize-tokens bytes_as_tokens (codes "Hi!") (codes "Hi!") prompt-Tokenizes (omega arith)
      (omega arith)

abbrev llama : Llama millionths
llama = record {
  llama_tokenize = bytes_as_tokens;
  token_to_piece = λ token capacity. (pos 1, 65 ∷ []);
  is_eog = λ token. token == 2;
  context_created = true;
  sampler_created = true;
  decodes = λ batches batch. true;
  sample = λ chain batches n. 65;
}

abbrev config : ModelConfig
config = record {
  path = codes "m.gguf";
  context_size = 8;
  batch_size = 2;
  gpu_layers = pos 0;
  flash_attention = true;
  chat_template = none;
}

abbrev options : GenerationOptions millionths
options = record {
  max_tokens = pos 2;
  temperature = 0;
  top_k = pos 40;
  top_p = 900_000;
  repeat_penalty = 1_100_000;
  seed = 0;
}

generate-Ends_example :
    Ends
      (λ r.
        (tokens : List ℕ) × (tokenize bytes_as_tokens (codes "Hi!") ≡ ok tokens)
        × IsGeneration millionths llama (λ polls. false) config options tokens r)
      (GenerateFails millionths llama (λ polls. false) config (codes "Hi!") options true)
      (generate millionths llama (λ polls. false) config (codes "Hi!") options true)
generate-Ends_example =
    generate-Ends millionths llama (λ polls. false) config (codes "Hi!") options true (omega arith)
      (λ token capacity. (omega arith, tt))
