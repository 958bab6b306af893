-- ===== src/Rag/Ask/Tests.antt =====
-- Runs of the tests in `ask`.
use llamacodelab.Prelude.{true, none, [], codes, contains, ◌≡◌, refl}
use llamacodelab.Prelude.Result.{ok, err, invalid_argument}
use llamacodelab.Domain.Millionths.{millionths}
use llamacodelab.Rag.Ask.{Collaborators, new_ask_service, answer_cites}

abbrev nothing_found : Collaborators millionths
nothing_found = record {
  retrieve = λ q k. ok [];
  get_many = λ ids. ok [];
  rerank = none;
  count_tokens = λ t. ok 0;
  generate = λ p. err invalid_argument;
}

cites : answer_cites (codes "see [S1].") (codes "S1") ≡ true
unfolding answer_cites contains
cites = refl

candidates_checked :
    new_ask_service millionths nothing_found
      (record { model_context = 4096; reserved_output_tokens = 512; safety_margin_tokens = 128 })
      19
    ≡ err invalid_argument
unfolding new_ask_service
candidates_checked = refl
