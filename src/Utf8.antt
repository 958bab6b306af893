-- ===== src/Utf8.antt =====
-- src/adapters/llama/llama_generator.cpp, `emit_complete_utf8`: the text of the tokens goes to the
-- client in whole characters of UTF-8, and what is no UTF-8 is replaced by U+FFFD.
pub mod Valid
pub mod Streaming
mod Tests
use Prim.Native.Nat.{bit_and}
use mathlib.Core.Option
use llamacodelab.Prelude.{
  ℕ, zero, suc, ◌-◌, Bool, true, false, not, ◌&&◌, ◌||◌, Option, none, some, List, [], ◌∷◌, ◌++◌,
  length, take, drop, if◌then◌else◌, ltb, leb, ◌==◌, Bytes,
}

is_continuation : ℕ → Bool
is_continuation byte = bit_and byte 0xc0 == 0x80

-- The bytes of a character, by its first byte; `none` for a byte that starts no character.
width_of : ℕ → Option ℕ
width_of lead =
    if leb lead 0x7f
    then some 1
    else if leb 0xc2 lead && leb lead 0xdf
    then some 2
    else if leb 0xe0 lead && leb lead 0xef
    then some 3
    else if leb 0xf0 lead && leb lead 0xf4
    then some 4
    else none

-- The loop over the `count` bytes behind the first.
continued : ℕ → Bytes → Bool
continued zero bytes = true
continued (suc count) [] = false
continued (suc count) (b ∷ bytes) = is_continuation b && continued count bytes

-- The tests of the second byte: overlong forms, surrogates, and what lies above U+10FFFF.
second_allowed : ℕ → ℕ → Bytes → Bool
second_allowed width lead [] = true
second_allowed width lead (second ∷ _) =
    if width == 3
    then not ((lead == 0xe0 && ltb second 0xa0) || (lead == 0xed && leb 0xa0 second))
    else if width == 4
    then not ((lead == 0xf0 && ltb second 0x90) || (lead == 0xf4 && ltb 0x8f second))
    else true

-- What a round of the loop does with the bytes that are left: it waits for more, replaces one byte,
-- or copies a character.
pub data Action : Type 0 where
  wait replace : Action
  copy : ℕ → Action

pub decide : Bool → ℕ → Bytes → Action
unfolding width_of continued second_allowed is_continuation
decide final lead rest = elim (width_of lead) [
  | none ↦ replace
  | some width ↦
      if ltb (suc (length rest)) width
      then (if final then replace else wait)
      else if continued (width - 1) rest && second_allowed width lead rest
      then copy width
      else replace
]

-- U+FFFD in UTF-8.
abbrev pub replacement : Bytes
replacement = 0xef ∷ 0xbf ∷ 0xbd ∷ []

-- The `while` loop, with the bytes not consumed and the output so far. Each round consumes a byte at
-- least, so a round for each byte is enough; `none` means that the fuel ran out.
pub emit_loop : ℕ → Bool → Bytes → Bytes → Option (Bytes × Bytes)
emit_loop fuel final [] output = some (output, [])
emit_loop zero final (lead ∷ rest) output = none
emit_loop (suc fuel) final (lead ∷ rest) output = elim (decide final lead rest) [
  | wait ↦ some (output, lead ∷ rest)
  | replace ↦ emit_loop fuel final rest (output ++ replacement)
  | copy width ↦
      emit_loop fuel final (drop width (lead ∷ rest)) (output ++ take width (lead ∷ rest))
]

-- The text for the callback, which is called if it is not empty, and the new `pending`.
pub emit_complete_utf8 : Bytes → Bool → Option (Bytes × Bytes)
emit_complete_utf8 pending final = emit_loop (length pending) final pending []

-- How `generate` uses it: the piece of each token is appended to `pending_utf8` and what is complete
-- is emitted; the last call is final. The result is all the text that the callback gets.
pub stream : Bytes → List Bytes → Bytes → Option Bytes
stream pending [] text = Option.map (λ r. text ++ r.0) (emit_complete_utf8 pending true)
stream pending (piece ∷ pieces) text = elim (emit_complete_utf8 (pending ++ piece) false) [
  | none ↦ none
  | some (output, kept) ↦ stream kept pieces (text ++ output)
]
