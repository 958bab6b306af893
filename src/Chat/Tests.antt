-- ===== src/Chat/Tests.antt =====
-- A conversation, run, and the theorems at it.
use llamacodelab.Prelude.{List, [], ◌∷◌, ◌≡◌, refl, true, codes}
use llamacodelab.Prelude.Result.{ok}
use llamacodelab.Chat.{
  user, assistant, completed, ChatSession, new_session, Call, adds, begins_prefill, begins_decoding,
  cancels, completes, call, run, run_all,
}
use llamacodelab.Chat.Laws.{
  IsValid, run-IsValid, observed, diagram, call-diagram, history, run_all-history,
}

abbrev dialogue : List Call
dialogue = adds user (codes "hi") ∷ begins_prefill ∷ begins_decoding ∷ completes (codes "yes") ∷ []

abbrev dialogue_end : ChatSession
dialogue_end = record {
  messages =
      record { role = user; content = codes "hi" }
      ∷ record { role = assistant; content = codes "yes" }
      ∷ [];
  state = completed;
}

run_all-dialogue : run_all dialogue new_session ≡ ok dialogue_end
unfolding run_all call
run_all-dialogue = refl

-- What is refused is passed over: the second `begins_prefill` and the last `cancels`.
run-refused :
    run
      (adds user (codes "hi")
        ∷ begins_prefill
        ∷ begins_prefill
        ∷ begins_decoding
        ∷ completes (codes "yes")
        ∷ cancels
        ∷ [])
      new_session
    ≡ dialogue_end
unfolding run call
run-refused = refl

run-IsValid_example : IsValid (run (begins_prefill ∷ dialogue) new_session)
run-IsValid_example = run-IsValid (begins_prefill ∷ dialogue)

call-diagram_example :
    observed (call cancels dialogue_end) ≡ diagram cancels dialogue_end.state true
call-diagram_example = call-diagram cancels dialogue_end

run_all-history_example : dialogue_end.messages ≡ history dialogue
run_all-history_example = run_all-history dialogue new_session dialogue_end run_all-dialogue
