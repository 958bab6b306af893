-- ===== src/Rag/Tests.antt =====
-- A question about one stored chunk, with a counter of bytes and a generator that cites.
use llamacodelab.Prelude.{true, none, List, [], ◌∷◌, codes, length, arith}
use llamacodelab.Prelude.Result.{ok, Yields}
use llamacodelab.Domain.{Chunk}
use llamacodelab.Domain.Millionths.{millionths}
use llamacodelab.Rag.{RagPromptBudget, RagSource, build_rag, render_suffix}
use llamacodelab.Rag.Budget.{IsBuilt, Refused, build_rag-Yields}
use llamacodelab.Rag.Ask.{AskService, ask}
use llamacodelab.Rag.Ask.Grounded.{IsAnswer, AskFails, ask-Yields}

abbrev budget : RagPromptBudget
budget = record { model_context = 1200; reserved_output_tokens = 100; safety_margin_tokens = 100 }

abbrev stored_chunk : Chunk
stored_chunk = record {
  id = 7;
  source = record { path = codes "a.cpp"; start_line = 1; end_line = 12 };
  language = codes "cpp";
  content = codes "int main() {}";
  content_hash = [];
  chunker_version = [];
}

abbrev one_source : List (RagSource millionths)
one_source = record { id = codes "S1"; chunk = stored_chunk; score = 5 } ∷ []

abbrev service : AskService millionths
service = record {
  collaborators = record {
    retrieve =
        λ q k. ok (record { chunk_id = 7; score = 5 } ∷ record { chunk_id = 9; score = 4 } ∷ []);
    get_many = λ ids. ok (stored_chunk ∷ []);
    rerank = none;
    count_tokens = λ t. ok (length t);
    generate = λ p. ok (
      codes "main, see [S" ∷ codes "1]" ∷ [],
      record { prompt_tokens = 3; generated_tokens = 2 },
    );
  };
  budget = budget;
  rerank_candidates = 30;
}

build_rag-Yields_example :
    Yields
      (λ b.
        IsBuilt millionths (λ t. ok (length t)) 1000 (render_suffix (codes "main?")) one_source b)
      (λ e. Refused millionths (λ t. ok (length t)) 1000 (render_suffix (codes "main?")) e)
      (build_rag millionths (λ t. ok (length t)) (codes "main?") one_source budget)
build_rag-Yields_example =
    build_rag-Yields millionths (λ t. ok (length t)) (codes "main?") budget one_source
      (λ e. ground arith) (omega arith) (omega arith) (omega arith)

ask-Yields_example :
    Yields
      (IsAnswer millionths service (codes "main?") 1)
      (AskFails millionths service (codes "main?") 1)
      (ask millionths service (codes "main?") 1 true)
ask-Yields_example =
    ask-Yields millionths service (codes "main?") 1 (λ e. ground arith) (omega arith) (omega arith)
      (omega arith) (omega arith)
