-- ===== src/Utf8/Streaming.antt =====
-- The pieces of a stream do not show in the text: it is the text of all the bytes at once.
use llamacodelab.Prelude.{
  ℕ, zero, suc, ◌+◌, ◌-◌, ◌≤◌, Bool, true, false, Option, none, some, List, [], ◌∷◌, ◌++◌, length,
  length-append, take, drop, All, Bytes, ◌≡◌, refl, ap, arith, Option-cases, inl, inr, ◌≢◌,
  append_assoc, ◌∙◌, sym, append-nil, subst, All-append,
}
use Prim.Native.Nat.add
use native.Mathlib.Nat.{add_comm}
use mathlib.Core.Option
use mathlib.Core.Option.{some-injective}
use llamacodelab.Utf8.{
  width_of, continued, second_allowed, wait, copy, decide, replacement, emit_loop,
  emit_complete_utf8, stream,
}
use llamacodelab.Utf8.Valid.{Action-cases, Emits, emit-Emits, IsByte}

continued-append : (n : ℕ) (bs q : Bytes) → n ≤ length bs → continued n (bs ++ q) ≡ continued n bs
unfolding continued
continued-append zero bs q h = refl
continued-append (suc n) [] q h = absurd (omega arith)
continued-append (suc n) (b ∷ bs) q h = ground (arith, continued-append n bs q (omega arith))

second_allowed-append :
    (w lead : ℕ) (bs q : Bytes)
    → 1 ≤ length bs
    → second_allowed w lead (bs ++ q) ≡ second_allowed w lead bs
unfolding second_allowed
second_allowed-append w lead [] q h = absurd (omega arith)
second_allowed-append w lead (b ∷ bs) q h = refl

second_allowed_one : (lead : ℕ) (bs : Bytes) → second_allowed 1 lead bs ≡ true
unfolding second_allowed
second_allowed_one lead [] = refl
second_allowed_one lead (b ∷ bs) = refl

width_of-ge : (lead w : ℕ) → width_of lead ≡ some w → 1 ≤ w
unfolding width_of
width_of-ge lead w e = ground arith

-- A round that does not wait does the same with more bytes, final or not.
decide-append :
    (final : Bool) (lead : ℕ) (bs q : Bytes)
    → decide false lead bs ≢ wait
    → decide final lead (bs ++ q) ≡ decide false lead bs
unfolding decide
decide-append final lead bs q h = elim (Option-cases (width_of lead)) [
  | inl n ↦ ground arith
  | inr (w, e) ↦ ground (
    arith,
    width_of-ge lead w e,
    length-append bs q,
    continued-append (w - 1) bs q,
    second_allowed-append w lead bs q,
    second_allowed_one lead bs,
    second_allowed_one lead (bs ++ q),
  )
]

-- More fuel changes nothing.
emit_loop_more :
    (fuel more : ℕ) (final : Bool) (pending output : Bytes) {r : Bytes × Bytes}
    → emit_loop fuel final pending output ≡ some r
    → emit_loop (fuel + more) final pending output ≡ some r
unfolding emit_loop
emit_loop_more fuel more final [] output e = e
emit_loop_more zero more final (b ∷ bs) output e = cc
emit_loop_more (suc fuel) more final (b ∷ bs) output {r} e =
    rw (add.suc fuel more) (elim (Action-cases (decide final b bs)) [
      | inl a ↦ rw (a, emit_loop) (rw (a, emit_loop) at e)
      | inr (inl a) ↦
          rw (a, emit_loop)
            (emit_loop_more fuel more final bs (output ++ replacement) (rw (a, emit_loop) at e))
      | inr (inr (w, a)) ↦
          rw (a, emit_loop)
            (emit_loop_more fuel more final (drop w (b ∷ bs)) (output ++ take w (b ∷ bs))
              (rw (a, emit_loop) at e))
    ])

-- What was emitted before stands before the rest.
emit_loop_prefix :
    (fuel : ℕ) (final : Bool) (pending before output : Bytes) {x r : Bytes}
    → emit_loop fuel final pending output ≡ some (x, r)
    → emit_loop fuel final pending (before ++ output) ≡ some (before ++ x, r)
unfolding emit_loop
emit_loop_prefix fuel final [] before output e = ground arith
emit_loop_prefix zero final (b ∷ bs) before output e = cc
emit_loop_prefix (suc fuel) final (b ∷ bs) before output {x} {r} e =
    elim (Action-cases (decide final b bs)) [
      | inl a ↦ rw (a, emit_loop) (ground (arith, rw (a, emit_loop) at e))
      | inr (inl a) ↦
          rw (a, emit_loop)
            (rw (append_assoc before output replacement) (
              emit_loop_prefix fuel final bs before (output ++ replacement)
                (rw (a, emit_loop) at e)))
      | inr (inr (w, a)) ↦
          rw (a, emit_loop)
            (rw (append_assoc before output (take w (b ∷ bs))) (
              emit_loop_prefix fuel final (drop w (b ∷ bs)) before (output ++ take w (b ∷ bs))
                (rw (a, emit_loop) at e)))
    ]

copy-le : (lead : ℕ) (bs : Bytes) (w : ℕ) → decide false lead bs ≡ copy w → w ≤ suc (length bs)
unfolding decide
copy-le lead bs w e = elim (Option-cases (width_of lead)) [
  | inl n ↦ ground arith
  | inr (v, q) ↦ ground arith
]

drop-app : (w : ℕ) (xs q : Bytes) → w ≤ length xs → drop w (xs ++ q) ≡ drop w xs ++ q
drop-app zero xs q h = refl
drop-app (suc w) [] q h = absurd (omega arith)
drop-app (suc w) (x ∷ xs) q h = drop-app w xs q (omega arith)

take-app : (w : ℕ) (xs q : Bytes) → w ≤ length xs → take w (xs ++ q) ≡ take w xs
take-app zero xs q h = refl
take-app (suc w) [] q h = absurd (omega arith)
take-app (suc w) (x ∷ xs) q h = ap (◌∷◌ x) (take-app w xs q (omega arith))

-- A first part that is not final, and then the rest with what was kept, is one run over both.
emit_loop_resume :
    (fuel more : ℕ) (p q out : Bytes) {o r : Bytes} {z : Bytes × Bytes}
    → emit_loop fuel false p out ≡ some (o, r)
    → emit_loop more true (r ++ q) o ≡ some z
    → emit_loop (fuel + more) true (p ++ q) out ≡ some z
unfolding emit_loop
emit_loop_resume fuel more [] q out {o} {r} {z} e g =
    let same : (out, []) ≡ (o, r) = some-injective _ _ e in
    rw (add_comm fuel more) (
      emit_loop_more more fuel true q out
        (subst (λ y. emit_loop more true (y.1 ++ q) y.0 ≡ some z) (sym same) g))
emit_loop_resume zero more (b ∷ bs) q out e g = cc
emit_loop_resume (suc fuel) more (b ∷ bs) q out {o} {r} {z} e g =
    elim (Action-cases (decide false b bs)) [
      | inl a ↦
          let same : (out, b ∷ bs) ≡ (o, r) = some-injective _ _ (rw (a, emit_loop) at e) in
          rw (add_comm (suc fuel) more) (
            emit_loop_more more (suc fuel) true (b ∷ bs ++ q) out
              (subst (λ y. emit_loop more true (y.1 ++ q) y.0 ≡ some z) (sym same) g))
      | inr (inl a) ↦ rw (add.suc fuel more) (
          rw (decide-append true b bs q (λ w. ground (arith, a, w)) ∙ a, emit_loop)
            (emit_loop_resume fuel more bs q (out ++ replacement) (rw (a, emit_loop) at e) g))
      | inr (inr (w, a)) ↦
          let short = copy-le b bs w a in
          rw (add.suc fuel more) (
            rw (decide-append true b bs q (λ v. ground (arith, a, v)) ∙ a, emit_loop)
              (rw (drop-app w (b ∷ bs) q short, take-app w (b ∷ bs) q short)
                (emit_loop_resume fuel more (drop w (b ∷ bs)) q (out ++ take w (b ∷ bs))
                  (rw (a, emit_loop) at e) g)))
    ]

abbrev pub joined : List Bytes → Bytes
joined [] = []
joined (piece ∷ pieces) = piece ++ joined pieces

emit_loop_agree :
    (f g : ℕ) (final : Bool) (p out : Bytes) {x y : Bytes × Bytes}
    → emit_loop f final p out ≡ some x
    → emit_loop g final p out ≡ some y
    → x ≡ y
emit_loop_agree f g final p out {x} {y} e h = some-injective _ _ (
    sym (emit_loop_more f g final p out e)
    ∙ ap (λ n. emit_loop n final p out) (add_comm f g)
    ∙ emit_loop_more g f final p out h)

ended : (o : Option (Bytes × Bytes)) → Emits o → (x : Bytes × Bytes) × (o ≡ some x) × All IsByte x.1
unfolding Emits
ended none h = absurd h
ended (some x) h = (x, refl, h.1)

-- One piece first and the rest with what it leaves, or all at once.
emit-split :
    (p q : Bytes) {o r t s : Bytes} {z : Bytes × Bytes}
    → emit_complete_utf8 p false ≡ some (o, r)
    → emit_complete_utf8 (r ++ q) true ≡ some (t, s)
    → emit_complete_utf8 (p ++ q) true ≡ some z
    → z ≡ (o ++ t, s)
unfolding emit_complete_utf8
emit-split p q {o} {r} e h g = emit_loop_agree _ _ true (p ++ q) [] g (
    emit_loop_resume (length p) (length (r ++ q)) p q [] e
      (rw (append-nil o) at (emit_loop_prefix (length (r ++ q)) true (r ++ q) o [] h)))

All-joined : (ps : List Bytes) → All (All IsByte) ps → All IsByte (joined ps)
All-joined [] h = tt
All-joined (q ∷ qs) h = All-append IsByte q (joined qs) h.0 (All-joined qs h.1)

stream_whole :
    (pieces : List Bytes) (pending text : Bytes) {z : Bytes × Bytes}
    → All IsByte pending
    → All (All IsByte) pieces
    → emit_complete_utf8 (pending ++ joined pieces) true ≡ some z
    → stream pending pieces text ≡ some (text ++ z.0)
unfolding stream
stream_whole [] pending text hb hp e = rw (rw (append-nil pending) at e) refl
stream_whole (piece ∷ pieces) pending text {z} hb hp e =
    let bytes = All-append IsByte pending piece hb hp.0 in
    let (x, first, kept) = ended _ (emit-Emits (pending ++ piece) false bytes) in
    let rest_bytes = All-append IsByte x.1 (joined pieces) kept (All-joined pieces hp.1) in
    let (y, rest, _) = ended _ (emit-Emits (x.1 ++ joined pieces) true rest_bytes) in
    let whole =
      emit-split (pending ++ piece) (joined pieces) {z = z} first rest
        (rw (append_assoc pending piece (joined pieces)) e) in
    rw (first, stream)
      (rw (ap (λ v. v.0) whole, sym (append_assoc text x.0 y.0))
        (stream_whole pieces x.1 (text ++ x.0) kept hp.1 rest))

-- Cut into pieces in any way, bytes give the client the text that they give in one piece.
pub stream-joined :
    (pieces : List Bytes)
    → All (All IsByte) pieces
    → stream [] pieces [] ≡ Option.map (λ r. r.0) (emit_complete_utf8 (joined pieces) true)
stream-joined pieces h =
    let (z, all, _) = ended _ (emit-Emits (joined pieces) true (All-joined pieces h)) in
    rw all (stream_whole pieces [] [] tt h all)
