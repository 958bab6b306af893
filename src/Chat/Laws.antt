-- ===== src/Chat/Laws.antt =====
-- What holds of a session after any sequence of calls, and the state diagram that it implements.
use llamacodelab.Prelude.{
  Bool, true, false, List, [], ◌∷◌, ◌++◌, ◌≡◌, ◌≢◌, refl, ap, ◌∙◌, arith, Bytes, not, is_empty,
  Option, some, none, All, append-nil, append_assoc,
}
use llamacodelab.Prelude.Result.{Result, ok, err, >>=-eq-ok}
use llamacodelab.Chat.{
  Role, assistant, ChatMessage, ChatGenerationState, idle, prefill, decoding, completed, cancelled,
  failed, ChatSession, new_session, Call, adds, begins_prefill, begins_decoding, cancels, fails,
  completes, call, after, run, run_all,
}

-- No message is empty.
pub HasContents : List ChatMessage → Type 0
HasContents = All (λ (m : ChatMessage). m.content ≢ [])

HasContents-push :
    (ms : List ChatMessage) (m : ChatMessage)
    → m.content ≢ []
    → HasContents ms
    → HasContents (ms ++ m ∷ [])
unfolding HasContents
HasContents-push [] m c h = (c, tt)
HasContents-push (x ∷ ms) m c h = (h.0, HasContents-push ms m c h.1)

pub record IsValid (s : ChatSession) : Type 0 where
  pub contents : HasContents s.messages
  pub prefill_has_messages : s.state ≡ prefill → s.messages ≢ []
  pub decoding_has_messages : s.state ≡ decoding → s.messages ≢ []

append-ne-nil : (ms : List ChatMessage) (m : ChatMessage) → ms ++ m ∷ [] ≢ []
append-ne-nil [] m e = cc
append-ne-nil (x ∷ ms) m e = cc

message : Role → Bytes → ChatMessage
message r c = record { role = r; content = c }

call-IsValid : (c : Call) (s : ChatSession) → IsValid s → IsValid (after s (call c s))
unfolding call message
call-IsValid (adds r []) s v = ground arith
call-IsValid (adds r (b ∷ bs)) s v =
    ground (arith, HasContents-push s.messages (message r (b ∷ bs)))
call-IsValid (completes []) s v = ground arith
call-IsValid (completes (b ∷ bs)) s v =
    ground (arith, HasContents-push s.messages (message assistant (b ∷ bs)))
call-IsValid _ s v = ground arith

run-IsValid_from : (cs : List Call) (s : ChatSession) → IsValid s → IsValid (run cs s)
unfolding run
run-IsValid_from [] s v = v
run-IsValid_from (c ∷ cs) s v = run-IsValid_from cs (after s (call c s)) (call-IsValid c s v)

new_session-IsValid : IsValid new_session
unfolding HasContents
new_session-IsValid = record {
  contents = tt;
  prefill_has_messages = λ e. cc;
  decoding_has_messages = λ e. cc;
}

-- After any sequence of calls on a new session no message is empty, and a session in the state
-- prefill or decoding has a message.
pub run-IsValid : (cs : List Call) → IsValid (run cs new_session)
run-IsValid cs = run-IsValid_from cs new_session new_session-IsValid

-- The diagram of the states: the state, and whether there is a message.
pub diagram : Call → ChatGenerationState → Bool → Option (ChatGenerationState × Bool)
diagram (adds r []) s m = none
diagram (adds r (b ∷ bs)) prefill m = none
diagram (adds r (b ∷ bs)) decoding m = none
diagram (adds r (b ∷ bs)) _ m = some (idle, true)
diagram begins_prefill prefill m = none
diagram begins_prefill decoding m = none
diagram begins_prefill _ true = some (prefill, true)
diagram begins_prefill _ false = none
diagram begins_decoding prefill m = some (decoding, m)
diagram begins_decoding _ m = none
diagram cancels prefill m = some (cancelled, m)
diagram cancels decoding m = some (cancelled, m)
diagram cancels _ m = none
diagram fails _ m = some (failed, m)
diagram (completes []) decoding m = some (completed, m)
diagram (completes (b ∷ bs)) decoding m = some (completed, true)
diagram (completes c) _ m = none

pub observed : Result ChatSession → Option (ChatGenerationState × Bool)
observed (ok t) = some (t.state, not (is_empty t.messages))
observed (err e) = none

is_empty-push : (ms : List ChatMessage) (m : ChatMessage) → is_empty (ms ++ m ∷ []) ≡ false
is_empty-push [] m = refl
is_empty-push (x ∷ ms) m = refl

-- In every state each method succeeds exactly where the diagram has an edge, and leads to its end.
pub call-diagram :
    (c : Call) (s : ChatSession)
    → observed (call c s) ≡ diagram c s.state (not (is_empty s.messages))
unfolding call observed diagram message
call-diagram (adds r []) s = ground arith
call-diagram (adds r (b ∷ bs)) s = ground (arith, is_empty-push s.messages (message r (b ∷ bs)))
call-diagram (completes []) s = ground arith
call-diagram (completes (b ∷ bs)) s =
    ground (arith, is_empty-push s.messages (message assistant (b ∷ bs)))
call-diagram _ s = ground arith

-- What a successful call says.
pub said : Call → List ChatMessage
unfolding message
said (adds r c) = message r c ∷ []
said (completes []) = []
said (completes (b ∷ bs)) = message assistant (b ∷ bs) ∷ []
said _ = []

call-said : (c : Call) (s t : ChatSession) → call c s ≡ ok t → t.messages ≡ s.messages ++ said c
unfolding call said
call-said (completes []) s t e = ground (arith, append-nil s.messages)
call-said (completes (b ∷ bs)) s t e = ground arith
call-said _ s t e = ground (arith, append-nil s.messages)

pub history : List Call → List ChatMessage
history [] = []
history (c ∷ cs) = said c ++ history cs

-- Where all calls succeed, the session's history is what it was, followed by what was said, in
-- order: no call drops, changes or reorders a message.
pub run_all-history :
    (cs : List Call) (s t : ChatSession)
    → run_all cs s ≡ ok t
    → t.messages ≡ s.messages ++ history cs
unfolding run_all history
run_all-history [] s t e = ground (arith, append-nil s.messages)
run_all-history (c ∷ cs) s t e =
    let (u, first, rest) = >>=-eq-ok (call c s) (run_all cs) e in
    run_all-history cs u t rest
    ∙ ap (λ ms. ms ++ history cs) (call-said c s u first)
    ∙ append_assoc s.messages (said c) (history cs)
