-- ===== src/Chunker/Cover.antt =====
-- The chunks of a text follow each other without a gap, and each is within the limits.
use mathlib.Core.Option
use llamacodelab.Prelude.{
  ℕ, zero, suc, ◌+◌, ◌-◌, ◌≤◌, ◌<◌, ◌%◌, ◌^◌, min, false, Option, none, some, lt→ltb, subst, List,
  [], ◌∷◌, length, take, drop, ltb, leb, ◌==◌, ==-ne, ==_iff, Bytes, codes, is_empty-ne,
  starts_with, ◌≡◌, ◌≢◌, ◌⊎◌, inl, inr, refl, arith, Bool-cases,
}
use llamacodelab.Prelude.Result.{Result, ok, err, ◌>>=◌, Yields, Result-cases}
use llamacodelab.Prelude.Loop.{Ends}
use llamacodelab.Domain.{Chunk}
use llamacodelab.Chunker.{
  ChunkingOptions, RelativePath, split_lines, content_size, join_lines, validate_options,
  line_number, shrink_end, chunk_end, make_chunk, next_start, chunks_from, chunk_text,
}

-- The lines are those that were asked for, or the first ones that fit, one at least.
shrink_end_bounds :
    (max_bytes : ℕ) (rest : List Bytes) (count : ℕ)
    → 0 < count
    → (0 < shrink_end max_bytes rest count)
      × (shrink_end max_bytes rest count ≤ count)
      × ((content_size (take (shrink_end max_bytes rest count) rest) ≤ max_bytes)
          ⊎ (shrink_end max_bytes rest count ≡ 1))
unfolding shrink_end
shrink_end_bounds max_bytes rest zero h = absurd (omega arith)
shrink_end_bounds max_bytes rest (suc zero) h = (omega arith, omega arith, inr refl)
shrink_end_bounds max_bytes rest (suc (suc count)) h =
    elim (Bool-cases (ltb max_bytes (content_size (take (suc (suc count)) rest)))) [
      | inl long ↦
          let (some_line, fewer, fits) =
            shrink_end_bounds max_bytes rest (suc count) (omega arith) in
          rw (long, shrink_end) (some_line, omega arith, fits)
      | inr short ↦ rw (short, shrink_end) (omega arith, omega arith, inl (ground arith))
    ]

module _ (options : ChunkingOptions) (lines : List Bytes) where
  -- The chunk of the lines from `start` (counted from 0) to `stop`.
  pub record IsChunk (start stop : ℕ) (c : Chunk) : Type 0 where
    pub some_line : start < stop
    pub inside : stop ≤ length lines
    pub few_lines : stop ≤ start + options.max_lines
    pub few_bytes :
        (content_size (take (stop - start) (drop start lines)) ≤ options.max_bytes)
        ⊎ (stop ≡ start + 1)
    pub first : c.source.start_line ≡ start + 1
    pub last : c.source.end_line ≡ stop
    pub text : c.content ≡ join_lines (take (stop - start) (drop start lines))

  -- Chunks from the line `start` on, each beginning behind the begin of the one before it and not behind
  -- its end, up to the last line.
  pub data Covers : ℕ → List Chunk → Type 0 where
    final : (start : ℕ) (c : Chunk) → IsChunk start (length lines) c → Covers start (c ∷ [])
    onward :
        (start stop next : ℕ) (c : Chunk) (cs : List Chunk)
        → IsChunk start stop c
        → start < next
        → next ≤ stop
        → Covers next cs
        → Covers start (c ∷ cs)

module _ (options : ChunkingOptions) (path language : Bytes) (lines : List Bytes)
    (positive : 0 < options.max_lines) (few : length lines < 2 ^ 32)
    (small : options.max_lines < 2 ^ 63) where
  line_number_lem : (n : ℕ) → n < length lines → line_number n ≡ ok (n + 1)
  unfolding line_number
  line_number_lem n h =
      let short : leb (2 ^ 32 - 1) n ≡ false = ground (arith, few) in rw short refl

  module _ (start : ℕ) (more : start < length lines) where
    abbrev asked : ℕ
    asked = min ((start + options.max_lines) % 2 ^ 64) (length lines) - start

    asked_bounds : (0 < asked) × (start + asked ≤ length lines) × (asked ≤ options.max_lines)
    asked_bounds = (omega (arith, positive, few, small, more), omega (arith, more), omega arith)

    abbrev stop : ℕ
    stop = chunk_end options path language lines start

    stop_bounds :
        (start < stop)
        × (stop ≤ length lines)
        × (stop ≤ start + options.max_lines)
        × ((content_size (take (stop - start) (drop start lines)) ≤ options.max_bytes)
            ⊎ (stop ≡ start + 1))
    unfolding chunk_end
    stop_bounds =
        let (some_asked, inside, few_asked) = asked_bounds in
        let (some_line, fewer, fits) =
          shrink_end_bounds options.max_bytes (drop start lines) asked some_asked in
        (
          omega arith,
          omega arith,
          omega arith,
          elim fits [
            | inl f ↦ inl (rw (added (shrink_end options.max_bytes (drop start lines) asked)) f)
            | inr one ↦ inr (omega arith)
          ],
        )
      where
        added : (n : ℕ) → start + n - start ≡ n
        added n = omega arith

    make_chunk-Yields :
        Yields
          (λ c. IsChunk options lines start stop c)
          (λ e. ⊥)
          (make_chunk options path language lines start stop)
    unfolding make_chunk
    make_chunk-Yields =
        let (some_line, inside, few_lines, few_bytes) = stop_bounds in
        rw (line_number_lem start more) (
          rw (line_number_lem (stop - 1) (omega arith)) (record {
            some_line = some_line;
            inside = inside;
            few_lines = few_lines;
            few_bytes = few_bytes;
            first = refl;
            last = omega arith;
            text = refl;
          }))

  next_start_bounds :
      (start stop : ℕ)
      → start < stop
      → (start < next_start options path language lines start stop)
        × (next_start options path language lines start stop ≤ stop)
  unfolding next_start
  next_start_bounds start stop h = elim (Bool-cases (ltb options.overlap_lines stop)) [
    | inl b ↦ rw b (omega arith, omega arith)
    | inr b ↦ rw b (omega arith, omega arith)
  ]

  Ends-more :
      (start : ℕ) (c : Chunk) (next : ℕ)
      → ((cs : List Chunk) → Covers options lines next cs → Covers options lines start (c ∷ cs))
      → (later : Option (Result (List Chunk)))
      → Ends (λ cs. Covers options lines next cs) (λ e. ⊥) later
      → Ends
          (λ cs. Covers options lines start cs)
          (λ e. ⊥)
          (Option.map (λ r. r >>= λ cs. ok (c ∷ cs)) later)
  Ends-more start c next h none e = e
  Ends-more start c next h (some (ok cs)) e = h cs e
  Ends-more start c next h (some (err x)) e = e

  -- All rounds from `start` on, with fuel for them.
  chunks_from-Covers :
      (fuel start : ℕ)
      → start < length lines
      → length lines - start < fuel
      → Ends
          (λ cs. Covers options lines start cs)
          (λ e. ⊥)
          (chunks_from options path language lines fuel start)
  unfolding chunks_from
  chunks_from-Covers zero start more enough = absurd (omega arith)
  chunks_from-Covers (suc fuel) start more enough =
      let end_line = chunk_end options path language lines start in
      let made = make_chunk-Yields start more in
      elim (Result-cases (make_chunk options path language lines start end_line)) [
        | inr (e, f) ↦ absurd (rw f at made)
        | inl (c, f) ↦
            let good : IsChunk options lines start end_line c = rw f at made in
            elim (Bool-cases (end_line == length lines)) [
              | inl at_end ↦
                  let same = (==_iff end_line (length lines)).0 at_end in
                  rw (lt→ltb start (length lines) more, chunks_from)
                    (rw f (
                      rw at_end
                        (final start c (subst (λ n. IsChunk options lines start n c) same good))))
              | inr before ↦
                  let next = next_start options path language lines start end_line in
                  let (grows, touches) = next_start_bounds start end_line good.some_line in
                  rw (lt→ltb start (length lines) more, chunks_from)
                    (rw f (
                      rw before (
                        Ends-more start c next
                          (λ cs covers. onward start end_line next c cs good grows touches covers)
                          (chunks_from options path language lines fuel next)
                          (chunks_from-Covers fuel next (ground (arith, good.inside))
                            (omega arith)))))
            ]
      ]

-- The conditions that `validate_options` checks, and that the path is one of the repository.
pub record IsAccepted (options : ChunkingOptions) (path : RelativePath) : Type 0 where
  pub positive : 0 < options.max_lines
  pub less_overlap : options.overlap_lines < options.max_lines
  pub some_bytes : 0 < options.max_bytes
  pub versioned : options.version ≢ []
  pub named : path.normalized ≢ []
  pub relative : path.is_absolute ≡ false
  pub inside : starts_with path.normalized (codes "../") ≡ false

validate_options_lem :
    (options : ChunkingOptions) (path : RelativePath)
    → IsAccepted options path
    → validate_options options ≡ ok tt
unfolding validate_options
validate_options_lem options path a =
    let overlap : leb options.max_lines options.overlap_lines ≡ false =
      ground (arith, a.less_overlap) in
    rw (==-ne options.max_lines 0 (omega (arith, a.positive))) (
      rw overlap (
        rw (==-ne options.max_bytes 0 (omega (arith, a.some_bytes)))
          (rw (is_empty-ne options.version a.versioned) refl)))

-- For accepted options below 2^63 and a text of at least one and fewer than 2^32 lines, chunking ends
-- with chunks that cover all lines from the first to the last without a gap. Each has `max_lines` lines
-- at most, and `max_bytes` bytes at most or a single line, its text is that of its lines, and it begins
-- behind the begin of the chunk before it.
pub chunk_text-Covers :
    (options : ChunkingOptions) (path : RelativePath) (language text : Bytes)
    → IsAccepted options path
    → options.max_lines < 2 ^ 63
    → split_lines text ≢ []
    → length (split_lines text) < 2 ^ 32
    → Ends
        (λ cs. Covers options (split_lines text) 0 cs)
        (λ e. ⊥)
        (chunk_text options path language text)
unfolding chunk_text
chunk_text-Covers options path language text a small some_lines few =
    rw (validate_options_lem options path a, chunk_text)
      (rw (is_empty-ne (split_lines text) some_lines) (
        rw (is_empty-ne path.normalized a.named) (
          rw a.relative (
            rw a.inside (
              chunks_from-Covers options path.normalized language (split_lines text) a.positive few
                small (length (split_lines text) + 1) 0 (length-pos (split_lines text) some_lines)
                (omega arith))))))
  where
    length-pos : (ls : List Bytes) → ls ≢ [] → 0 < length ls
    length-pos [] h = absurd (h refl)
    length-pos (l ∷ ls) h = omega arith
