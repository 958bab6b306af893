-- ===== src/Utf8/Valid.antt =====
-- Whatever the bytes, what is emitted is well-formed UTF-8, and the emitter always ends.
use llamacodelab.Prelude.{
  ℕ, zero, suc, ◌-◌, ◌≤◌, ◌<◌, Bool, true, false, not, ◌&&◌, Option, none, some, [], ◌∷◌, ◌++◌,
  length, length-drop, take, drop, All, All-drop, leb, Bytes, ◌≡◌, refl, arith, Option-cases, inl,
  inr, ◌⊎◌,
}
use llamacodelab.Prelude.Bits.{holds_under, holds_under_at}
use llamacodelab.Utf8.{
  is_continuation, width_of, continued, second_allowed, Action, wait, replace, copy, decide,
  replacement, emit_loop, emit_complete_utf8,
}

abbrev pub IsByte : ℕ → Type 0
IsByte b = b < 256

abbrev Between : ℕ → ℕ → ℕ → Type 0
Between lo hi b = (lo ≤ b) × (b ≤ hi)

-- Well-formed UTF-8 by the table of RFC 3629, section 4.
pub data IsUtf8 : Bytes → Type 0 where
  end : IsUtf8 []
  one : {s : Bytes} (a : ℕ) → a ≤ 0x7f → IsUtf8 s → IsUtf8 (a ∷ s)
  two :
      {s : Bytes} (a b : ℕ)
      → Between 0xc2 0xdf a
      → Between 0x80 0xbf b
      → IsUtf8 s
      → IsUtf8 (a ∷ b ∷ s)
  three_e0 :
      {s : Bytes} (a b c : ℕ)
      → a ≡ 0xe0
      → Between 0xa0 0xbf b
      → Between 0x80 0xbf c
      → IsUtf8 s
      → IsUtf8 (a ∷ b ∷ c ∷ s)
  three :
      {s : Bytes} (a b c : ℕ)
      → Between 0xe1 0xec a
      → Between 0x80 0xbf b
      → Between 0x80 0xbf c
      → IsUtf8 s
      → IsUtf8 (a ∷ b ∷ c ∷ s)
  three_ed :
      {s : Bytes} (a b c : ℕ)
      → a ≡ 0xed
      → Between 0x80 0x9f b
      → Between 0x80 0xbf c
      → IsUtf8 s
      → IsUtf8 (a ∷ b ∷ c ∷ s)
  three_ee :
      {s : Bytes} (a b c : ℕ)
      → Between 0xee 0xef a
      → Between 0x80 0xbf b
      → Between 0x80 0xbf c
      → IsUtf8 s
      → IsUtf8 (a ∷ b ∷ c ∷ s)
  four_f0 :
      {s : Bytes} (a b c d : ℕ)
      → a ≡ 0xf0
      → Between 0x90 0xbf b
      → Between 0x80 0xbf c
      → Between 0x80 0xbf d
      → IsUtf8 s
      → IsUtf8 (a ∷ b ∷ c ∷ d ∷ s)
  four :
      {s : Bytes} (a b c d : ℕ)
      → Between 0xf1 0xf3 a
      → Between 0x80 0xbf b
      → Between 0x80 0xbf c
      → Between 0x80 0xbf d
      → IsUtf8 s
      → IsUtf8 (a ∷ b ∷ c ∷ d ∷ s)
  four_f4 :
      {s : Bytes} (a b c d : ℕ)
      → a ≡ 0xf4
      → Between 0x80 0x8f b
      → Between 0x80 0xbf c
      → Between 0x80 0xbf d
      → IsUtf8 s
      → IsUtf8 (a ∷ b ∷ c ∷ d ∷ s)

pub IsUtf8-append : {s t : Bytes} → IsUtf8 s → IsUtf8 t → IsUtf8 (s ++ t)
IsUtf8-append end v = v
IsUtf8-append (one a p u) v = one a p (IsUtf8-append u v)
IsUtf8-append (two a b p q u) v = two a b p q (IsUtf8-append u v)
IsUtf8-append (three_e0 a b c p q r u) v = three_e0 a b c p q r (IsUtf8-append u v)
IsUtf8-append (three a b c p q r u) v = three a b c p q r (IsUtf8-append u v)
IsUtf8-append (three_ed a b c p q r u) v = three_ed a b c p q r (IsUtf8-append u v)
IsUtf8-append (three_ee a b c p q r u) v = three_ee a b c p q r (IsUtf8-append u v)
IsUtf8-append (four_f0 a b c d p q r w u) v = four_f0 a b c d p q r w (IsUtf8-append u v)
IsUtf8-append (four a b c d p q r w u) v = four a b c d p q r w (IsUtf8-append u v)
IsUtf8-append (four_f4 a b c d p q r w u) v = four_f4 a b c d p q r w (IsUtf8-append u v)

replacement-IsUtf8 : IsUtf8 replacement
replacement-IsUtf8 = three_ee 0xef 0xbf 0xbd (omega arith) (omega arith) (omega arith) end

pub Action-cases : (a : Action) → (a ≡ wait) ⊎ (a ≡ replace) ⊎ ((w : ℕ) × (a ≡ copy w))
Action-cases wait = inl refl
Action-cases replace = inr (inl refl)
Action-cases (copy w) = inr (inr (w, refl))

same : Bool → Bool → Bool
same true b = b
same false b = not b

continuation_table :
    holds_under (λ b. same (is_continuation b) (leb 0x80 b && leb b 0xbf)) 256 ≡ true
unfolding holds_under same is_continuation
continuation_table = refl

continuation_range : (b : ℕ) → IsByte b → is_continuation b ≡ true → Between 0x80 0xbf b
unfolding same
continuation_range b h e = ground (arith, holds_under_at _ 256 b h continuation_table)

width_range :
    (lead w : ℕ)
    → width_of lead ≡ some w
    → ((w ≡ 1) × (lead ≤ 0x7f))
      ⊎ ((w ≡ 2) × Between 0xc2 0xdf lead)
      ⊎ ((w ≡ 3) × Between 0xe0 0xef lead)
      ⊎ ((w ≡ 4) × Between 0xf0 0xf4 lead)
unfolding width_of
width_range lead w e = ground arith

copy_inversion :
    (final : Bool) (lead : ℕ) (rest : Bytes) (w : ℕ)
    → decide final lead rest ≡ copy w
    → (width_of lead ≡ some w)
      × (w ≤ suc (length rest))
      × (continued (w - 1) rest ≡ true)
      × (second_allowed w lead rest ≡ true)
unfolding decide
copy_inversion final lead rest w e = elim (Option-cases (width_of lead)) [
  | inl n ↦ ground arith
  | inr (v, q) ↦ ground arith
]

two_bytes :
    (a : ℕ) (rest : Bytes)
    → Between 0xc2 0xdf a
    → All IsByte rest
    → continued 1 rest ≡ true
    → 2 ≤ suc (length rest)
    → IsUtf8 (take 2 (a ∷ rest))
unfolding continued
two_bytes a [] h bs c l = absurd (omega arith)
two_bytes a (b ∷ r) h bs c l = two a b h (continuation_range b bs.0 (ground arith)) end

three_bytes :
    (a : ℕ) (rest : Bytes)
    → Between 0xe0 0xef a
    → All IsByte rest
    → continued 2 rest ≡ true
    → second_allowed 3 a rest ≡ true
    → 3 ≤ suc (length rest)
    → IsUtf8 (take 3 (a ∷ rest))
unfolding continued second_allowed
three_bytes a [] h bs c o l = absurd (omega arith)
three_bytes a (b ∷ []) h bs c o l = absurd (omega arith)
three_bytes a (b ∷ d ∷ r) h bs c o l =
    let hb = continuation_range b bs.0 (ground arith) in
    let hd = continuation_range d bs.1.0 (ground arith) in
    let tail = three_cases a h in
    elim tail [
      | inl e ↦ three_e0 a b d e (ground arith) hd end
      | inr (inl r) ↦ three a b d r hb hd end
      | inr (inr (inl e)) ↦ three_ed a b d e (ground arith) hd end
      | inr (inr (inr r)) ↦ three_ee a b d r hb hd end
    ]
  where
    three_cases :
        (a : ℕ)
        → Between 0xe0 0xef a
        → (a ≡ 0xe0) ⊎ Between 0xe1 0xec a ⊎ (a ≡ 0xed) ⊎ Between 0xee 0xef a
    three_cases a h = omega arith

four_bytes :
    (a : ℕ) (rest : Bytes)
    → Between 0xf0 0xf4 a
    → All IsByte rest
    → continued 3 rest ≡ true
    → second_allowed 4 a rest ≡ true
    → 4 ≤ suc (length rest)
    → IsUtf8 (take 4 (a ∷ rest))
unfolding continued second_allowed
four_bytes a [] h bs c o l = absurd (omega arith)
four_bytes a (b ∷ []) h bs c o l = absurd (omega arith)
four_bytes a (b ∷ x ∷ []) h bs c o l = absurd (omega arith)
four_bytes a (b ∷ x ∷ y ∷ r) h bs c o l =
    let hb = continuation_range b bs.0 (ground arith) in
    let hx = continuation_range x bs.1.0 (ground arith) in
    let hy = continuation_range y bs.1.1.0 (ground arith) in
    elim (four_cases a h) [
      | inl e ↦ four_f0 a b x y e (ground arith) hx hy end
      | inr (inl r) ↦ four a b x y r hb hx hy end
      | inr (inr e) ↦ four_f4 a b x y e (ground arith) hx hy end
    ]
  where
    four_cases : (a : ℕ) → Between 0xf0 0xf4 a → (a ≡ 0xf0) ⊎ Between 0xf1 0xf3 a ⊎ (a ≡ 0xf4)
    four_cases a h = omega arith

copied-IsUtf8 :
    (final : Bool) (lead : ℕ) (rest : Bytes) (w : ℕ)
    → All IsByte rest
    → decide final lead rest ≡ copy w
    → IsUtf8 (take w (lead ∷ rest)) × (1 ≤ w)
copied-IsUtf8 final lead rest w bs e =
    let (width, long, cont, second) = copy_inversion final lead rest w e in
    elim (width_range lead w width) [
      | inl (p, h) ↦ rw p (one lead h end, omega arith)
      | inr (inl (p, h)) ↦
          rw p (two_bytes lead rest h bs (rw p at cont) (rw p at long), omega arith)
      | inr (inr (inl (p, h))) ↦
          rw p
            (three_bytes lead rest h bs (rw p at cont) (rw p at second) (rw p at long), omega arith)
      | inr (inr (inr (p, h))) ↦
          rw p
            (four_bytes lead rest h bs (rw p at cont) (rw p at second) (rw p at long), omega arith)
    ]

-- What the emitter gives: well-formed text, and bytes to keep.
unfoldable pub Emits : Option (Bytes × Bytes) → Type 0
Emits none = ⊥
Emits (some (output, pending)) = IsUtf8 output × All IsByte pending

emit_loop-Emits :
    (fuel : ℕ) (final : Bool) (pending output : Bytes)
    → length pending ≤ fuel
    → All IsByte pending
    → IsUtf8 output
    → Emits (emit_loop fuel final pending output)
unfolding emit_loop Emits
emit_loop-Emits fuel final [] output h bs u = (u, tt)
emit_loop-Emits zero final (b ∷ bs) output h hb u = absurd (omega arith)
emit_loop-Emits (suc fuel) final (b ∷ bs) output h hb u = elim (Action-cases (decide final b bs)) [
  | inl e ↦ rw (e, emit_loop) (u, hb)
  | inr (inl e) ↦
      rw (e, emit_loop)
        (emit_loop-Emits fuel final bs (output ++ replacement) (omega arith) hb.1
          (IsUtf8-append u replacement-IsUtf8))
  | inr (inr (w, e)) ↦
      let (copied, positive) = copied-IsUtf8 final b bs w hb.1 e in
      rw (e, emit_loop)
        (emit_loop-Emits fuel final (drop w (b ∷ bs)) (output ++ take w (b ∷ bs))
          (omega (arith, length-drop w (b ∷ bs))) (All-drop IsByte w (b ∷ bs) hb)
          (IsUtf8-append u copied))
]

-- For any bytes, final or not, the emitter ends, and the text for the callback is well-formed UTF-8.
pub emit-Emits :
    (pending : Bytes) (final : Bool) → All IsByte pending → Emits (emit_complete_utf8 pending final)
unfolding emit_complete_utf8
emit-Emits pending final h = emit_loop-Emits (length pending) final pending [] (omega arith) h end
