-- ===== src/Utf8/Tests.antt =====
-- A character cut by two tokens, and bytes that are no UTF-8.
use llamacodelab.Prelude.{true, false, List, [], ◌∷◌, ◌++◌, some, ◌≡◌, refl, Bytes, arith}
use mathlib.Core.Option
use llamacodelab.Utf8.{emit_complete_utf8, emit_loop, stream, decide, replacement}
use llamacodelab.Utf8.Valid.{Emits, emit-Emits}
use llamacodelab.Utf8.Streaming.{stream-joined, joined}

-- U+4F60 in two pieces, the last with a byte that starts no character.
abbrev pieces : List Bytes
pieces = (0x61 ∷ 0xe4 ∷ []) ∷ (0xbd ∷ 0xa0 ∷ 0xff ∷ []) ∷ []

kept_back : emit_complete_utf8 (0x61 ∷ 0xe4 ∷ []) false ≡ some (0x61 ∷ [], 0xe4 ∷ [])
unfolding emit_complete_utf8 emit_loop decide
kept_back = refl

cut_at_end : emit_complete_utf8 (0x61 ∷ 0xe4 ∷ []) true ≡ some (0x61 ∷ replacement, [])
unfolding emit_complete_utf8 emit_loop decide
cut_at_end = refl

overlong :
    emit_complete_utf8 (0xe0 ∷ 0x9f ∷ 0xbf ∷ []) false
    ≡ some (replacement ++ replacement ++ replacement, [])
unfolding emit_complete_utf8 emit_loop decide
overlong = refl

emit-Emits_example : Emits (emit_complete_utf8 (0x61 ∷ 0xe4 ∷ []) false)
emit-Emits_example = emit-Emits (0x61 ∷ 0xe4 ∷ []) false (omega arith, (omega arith, tt))

stream-joined_example :
    stream [] pieces [] ≡ Option.map (λ r. r.0) (emit_complete_utf8 (joined pieces) true)
stream-joined_example =
    stream-joined pieces
      ((omega arith, (omega arith, tt)), ((omega arith, (omega arith, (omega arith, tt))), tt))
