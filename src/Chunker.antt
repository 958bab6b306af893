-- ===== src/Chunker.antt =====
-- src/adapters/filesystem/text_chunker.hpp and text_chunker.cpp, with src/support/hash.cpp: the text of a
-- file is cut into chunks of whole lines that overlap. `std::filesystem::path` is a parameter, by its
-- normal form and by whether it is absolute; indices from `start` to `end` are a slice of the lines.
pub mod Cover
mod Tests
use Prim.Native.Nat.{bit_xor}
use mathlib.Core.Option
use llamacodelab.Prelude.{
  ℕ, zero, suc, ◌+◌, ◌-◌, ◌*◌, ◌/◌, ◌%◌, ◌^◌, min, max, Bool, true, false, ◌&&◌, ◌||◌, Option, none,
  some, List, [], ◌∷◌, ◌++◌, length, take, drop, if◌then◌else◌, ltb, leb, ◌==◌, Bytes, codes,
  is_empty, starts_with, to_string,
}
use llamacodelab.Prelude.Result.{Result, ok, err, invalid_argument, throw_if, ◌>>=◌, ◌>>◌}
use llamacodelab.Domain.{SourceRange, Chunk}

-- FNV-1a
pub stable_hash_from : ℕ → Bytes → ℕ
stable_hash_from hash [] = hash
stable_hash_from hash (b ∷ bytes) =
    stable_hash_from (bit_xor hash b * 1_099_511_628_211 % 2 ^ 64) bytes

pub stable_hash64 : Bytes → ℕ
stable_hash64 bytes = stable_hash_from 14_695_981_039_346_656_037 bytes

pub hex_digit : ℕ → ℕ
hex_digit n = if ltb n 10 then 48 + n else 87 + n

-- The `count` lowest digits of `n`, behind them `shown`.
pub hex_digits : ℕ → ℕ → Bytes → Bytes
hex_digits zero n shown = shown
hex_digits (suc count) n shown = hex_digits count (n / 16) (hex_digit (n % 16) ∷ shown)

pub stable_hash_hex : Bytes → Bytes
stable_hash_hex bytes = hex_digits 16 (stable_hash64 bytes) []

pub record ChunkingOptions : Type 0 where
  pub max_lines : ℕ
  pub overlap_lines : ℕ
  pub max_bytes : ℕ
  pub version : Bytes

-- `line` without a carriage return at its end.
pub chomp : Bytes → Bytes
chomp [] = []
chomp (c ∷ []) = if c == 13 then [] else c ∷ []
chomp (c ∷ d ∷ line) = c ∷ chomp (d ∷ line)

-- The lines of `text`, where `line` is the begin of the first.
pub split_from : Bytes → Bytes → List Bytes
split_from line [] = if is_empty line then [] else chomp line ∷ []
split_from line (c ∷ text) = elim (c == 10) [
  | true ↦ chomp line ∷ split_from [] text
  | false ↦ split_from (line ++ (c ∷ [])) text
]

pub split_lines : Bytes → List Bytes
split_lines text = split_from [] text

pub content_size : List Bytes → ℕ
content_size [] = 0
content_size (l ∷ []) = length l
content_size (l ∷ m ∷ lines) = length l + 1 + content_size (m ∷ lines)

pub join_lines : List Bytes → Bytes
join_lines [] = []
join_lines (l ∷ []) = l
join_lines (l ∷ m ∷ lines) = l ++ (10 ∷ join_lines (m ∷ lines))

unfoldable pub validate_options : ChunkingOptions → Result (Unit {0})
validate_options options = do
  throw_if (options.max_lines == 0) invalid_argument
  throw_if (leb options.max_lines options.overlap_lines) invalid_argument
  throw_if (options.max_bytes == 0) invalid_argument
  throw_if (is_empty options.version) invalid_argument

pub line_number : ℕ → Result ℕ
line_number zero_based = do
  throw_if (leb (2 ^ 32 - 1) zero_based) invalid_argument
  ok (zero_based + 1)

pub record RelativePath : Type 0 where
  pub normalized : Bytes
  pub is_absolute : Bool

-- The inner `while`: the number of lines, of the first `count` of `rest`, that stay.
pub shrink_end : ℕ → List Bytes → ℕ → ℕ
shrink_end max_bytes rest zero = zero
shrink_end max_bytes rest (suc zero) = suc zero
shrink_end max_bytes rest (suc (suc count)) =
    elim (ltb max_bytes (content_size (take (suc (suc count)) rest))) [
      | true ↦ shrink_end max_bytes rest (suc count)
      | false ↦ suc (suc count)
    ]

module _ (options : ChunkingOptions) (path language : Bytes) (lines : List Bytes) where
  pub chunk_end : ℕ → ℕ
  chunk_end start =
      start
      + shrink_end options.max_bytes (drop start lines)
          (min ((start + options.max_lines) % 2 ^ 64) (length lines) - start)

  pub chunk_key : ℕ → ℕ → Bytes → Bytes
  chunk_key start_line end_line content_hash =
      path
      ++ (0 ∷ [])
      ++ to_string start_line
      ++ (0 ∷ [])
      ++ to_string end_line
      ++ (0 ∷ [])
      ++ content_hash
      ++ (0 ∷ [])
      ++ options.version

  pub make_chunk : ℕ → ℕ → Result Chunk
  make_chunk start stop = do
    let content = join_lines (take (stop - start) (drop start lines))
    start_line ← line_number start
    end_line ← line_number (stop - 1)
    ok (record {
      id = stable_hash64 (chunk_key start_line end_line (stable_hash_hex content));
      source = record { path = path; start_line = start_line; end_line = end_line };
      language = language;
      content = content;
      content_hash = stable_hash_hex content;
      chunker_version = options.version;
    })

  pub next_start : ℕ → ℕ → ℕ
  next_start start stop =
      max (start + 1)
        (if ltb options.overlap_lines stop then stop - options.overlap_lines else stop)

  -- The outer `while`, from `start` on. `start` grows in each round, so a round for each line is enough.
  pub chunks_from : ℕ → ℕ → Option (Result (List Chunk))
  chunks_from zero start = none
  chunks_from (suc fuel) start = elim (ltb start (length lines)) [
    | false ↦ some (ok [])
    | true ↦ elim (make_chunk start (chunk_end start)) [
      | err e ↦ some (err e)
      | ok chunk ↦ elim (chunk_end start == length lines) [
        | true ↦ some (ok (chunk ∷ []))
        | false ↦
            Option.map (λ later. later >>= λ chunks. ok (chunk ∷ chunks))
              (chunks_from fuel (next_start start (chunk_end start)))
      ]
    ]
  ]

pub chunk_text : ChunkingOptions → RelativePath → Bytes → Bytes → Option (Result (List Chunk))
chunk_text options path language text = elim (validate_options options) [
  | err e ↦ some (err e)
  | ok _ ↦
      let lines = split_lines text in
      if is_empty lines
      then some (ok [])
      else if is_empty path.normalized
          || path.is_absolute
          || starts_with path.normalized (codes "../")
      then some (err invalid_argument)
      else chunks_from options path.normalized language lines (length lines + 1) 0
]
