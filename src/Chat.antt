-- ===== src/Chat.antt =====
-- include/llamacodelab/domain/chat.hpp, include/llamacodelab/application/chat_session.hpp and
-- src/application/chat_session.cpp: the messages of a conversation and the states of a session.
-- A method is a function from the session to the new session, or to the exception that it throws.
mod Laws
mod Tests
use llamacodelab.Prelude.{
  Bool, true, false, not, ◌&&◌, List, [], ◌∷◌, ◌++◌, if◌then◌else◌, Bytes, codes, is_empty,
}
use llamacodelab.Prelude.Result.{
  Result, ok, err, invalid_argument, logic_error, throw_if, ◌>>=◌, ◌>>◌,
}

pub data Role : Type 0 where
  system user assistant : Role

pub record ChatMessage : Type 0 where
  pub role : Role
  pub content : Bytes

unfoldable pub role_name : Role → Bytes
role_name system = codes "system"
role_name user = codes "user"
role_name assistant = codes "assistant"

pub data ChatGenerationState : Type 0 where
  idle prefill decoding completed cancelled failed : ChatGenerationState

pub record ChatSession : Type 0 where
  pub messages : List ChatMessage
  pub state : ChatGenerationState

-- A new session: no messages, and the member initialiser of `state_`.
abbrev pub new_session : ChatSession
new_session = record { messages = []; state = idle }

-- `state_ == prefill || state_ == decoding`
is_active : ChatGenerationState → Bool
is_active prefill = true
is_active decoding = true
is_active _ = false

is_prefill : ChatGenerationState → Bool
is_prefill prefill = true
is_prefill _ = false

is_decoding : ChatGenerationState → Bool
is_decoding decoding = true
is_decoding _ = false

-- The four states from which `begin_prefill` may be called.
can_prefill : ChatGenerationState → Bool
can_prefill idle = true
can_prefill completed = true
can_prefill cancelled = true
can_prefill failed = true
can_prefill _ = false

add : Role → Bytes → ChatSession → Result ChatSession
unfolding is_active
add role content s = do
  throw_if (is_active s.state) logic_error
  throw_if (is_empty content) invalid_argument
  let message : ChatMessage = record { role = role; content = content }
  ok (record { messages = s.messages ++ message ∷ []; state = idle })

begin_prefill : ChatSession → Result ChatSession
unfolding can_prefill
begin_prefill s = do
  throw_if (is_empty s.messages) logic_error
  throw_if (not (can_prefill s.state)) logic_error
  ok (record s { state = prefill })

begin_decoding : ChatSession → Result ChatSession
unfolding is_prefill
begin_decoding s = do
  throw_if (not (is_prefill s.state)) logic_error
  ok (record s { state = decoding })

complete : Bytes → ChatSession → Result ChatSession
unfolding is_decoding
complete assistant_content s = do
  throw_if (not (is_decoding s.state)) logic_error
  let reply : ChatMessage = record { role = assistant; content = assistant_content }
  ok (record {
    messages = if is_empty assistant_content then s.messages else s.messages ++ reply ∷ [];
    state = completed;
  })

cancel : ChatSession → Result ChatSession
unfolding is_active
cancel s = do throw_if (not (is_active s.state)) logic_error; ok (record s { state = cancelled })

fail : ChatSession → Result ChatSession
fail s = ok (record s { state = failed })

-- One call of a method, with its arguments.
pub data Call : Type 0 where
  adds : Role → Bytes → Call
  begins_prefill begins_decoding cancels fails : Call
  completes : Bytes → Call

pub call : Call → ChatSession → Result ChatSession
unfolding add begin_prefill begin_decoding complete cancel fail
call (adds role content) s = add role content s
call begins_prefill s = begin_prefill s
call begins_decoding s = begin_decoding s
call cancels s = cancel s
call fails s = fail s
call (completes content) s = complete content s

-- Every method tests before it writes, so a call that throws leaves the session as it was.
abbrev after : ChatSession → Result ChatSession → ChatSession
after s (ok t) = t
after s (err e) = s

-- A client that catches what the methods throw and goes on.
pub run : List Call → ChatSession → ChatSession
run [] s = s
run (c ∷ cs) s = run cs (after s (call c s))

-- A client that stops at the first call that throws.
pub run_all : List Call → ChatSession → Result ChatSession
run_all [] s = ok s
run_all (c ∷ cs) s = call c s >>= run_all cs
