-- ===== src/Chunker/Tests.antt =====
-- A text of three lines, in chunks of two that overlap in one.
use llamacodelab.Prelude.{false, [], ◌∷◌, ◌≡◌, refl, arith, List, starts_with, Bytes, codes}
use llamacodelab.Prelude.Loop.{Ends}
use llamacodelab.Domain.{Chunk}
use llamacodelab.Chunker.{
  ChunkingOptions, RelativePath, split_lines, split_from, chomp, chunk_text, stable_hash64,
  stable_hash_from, hex_digits, hex_digit, stable_hash_hex,
}
use llamacodelab.Chunker.Cover.{Covers, chunk_text-Covers}

abbrev options : ChunkingOptions
options = record { max_lines = 2; overlap_lines = 1; max_bytes = 100; version = codes "text-v1" }

abbrev path : RelativePath
path = record { normalized = codes "a.cpp"; is_absolute = false }

abbrev text : Bytes
text = codes "a\r\n\nc"

three_lines : split_lines text ≡ codes "a" ∷ [] ∷ codes "c" ∷ []
unfolding split_lines split_from chomp
three_lines = refl

-- The test vector of FNV-1a for "a".
hash_of_a : stable_hash_hex (codes "a") ≡ codes "af63dc4c8601ec8c"
unfolding stable_hash_hex stable_hash64 stable_hash_from hex_digits hex_digit
hash_of_a = refl

relative_path : starts_with (codes "a.cpp") (codes "../") ≡ false
unfolding starts_with
relative_path = refl

chunk_text-Covers_example :
    Ends
      (λ (cs : List Chunk). Covers options (split_lines text) 0 cs)
      (λ e. ⊥)
      (chunk_text options path (codes "cpp") text)
chunk_text-Covers_example =
    chunk_text-Covers options path (codes "cpp") text
      (record {
        positive = omega arith;
        less_overlap = omega arith;
        some_bytes = omega arith;
        versioned = λ e. ground arith;
        named = λ e. ground arith;
        relative = refl;
        inside = relative_path;
      })
      (omega arith) (rw three_lines (λ e. ground arith)) (rw three_lines (omega arith))
