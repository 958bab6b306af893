-- ===== src/Domain.antt =====
-- include/llamacodelab/domain/chunk.hpp and retrieval.hpp: chunks, hits and vectors. A `float` is a
-- parameter: a type with the operations that the code calls, and the laws of IEEE 754 on them.
pub mod Millionths
use llamacodelab.Prelude.{ℕ, ◌<◌, ◌^◌, ◌≡◌, ◌⊎◌, Bool, true, List, Bytes}

pub record Floats : Type 1 where
  pub Float : Type 0
  pub zero_f : Float
  pub one_f : Float
  pub less : Float → Float → Bool
  pub equal : Float → Float → Bool
  pub add : Float → Float → Float
  pub subtract : Float → Float → Float
  pub multiply : Float → Float → Float
  pub divide : Float → Float → Float
  -- static_cast<float> of an unsigned integer
  pub of_nat : ℕ → Float
  pub is_finite : Float → Bool

module _ (f : Floats) where
  open f use {Float, zero_f, one_f, less, equal, add, divide, of_nat, is_finite}

  -- x == x holds of every float but NaN.
  abbrev pub IsNumber : Float → Type 0
  IsNumber x = equal x x ≡ true

  -- How IEEE 754 compares what is no NaN.
  pub record Compares : Type 0 where
    pub trichotomy :
        (x y : Float)
        → IsNumber x
        → IsNumber y
        → (less x y ≡ true) ⊎ (equal x y ≡ true) ⊎ (less y x ≡ true)
    pub less_trans : (x y z : Float) → less x y ≡ true → less y z ≡ true → less x z ≡ true
    pub less-equal : (x y z : Float) → less x y ≡ true → equal y z ≡ true → less x z ≡ true
    pub equal-less : (x y z : Float) → equal x y ≡ true → less y z ≡ true → less x z ≡ true
    pub equal_symm : (x y : Float) → equal x y ≡ true → equal y x ≡ true
    pub equal_trans : (x y z : Float) → equal x y ≡ true → equal y z ≡ true → equal x z ≡ true
    pub finite_number : (x : Float) → is_finite x ≡ true → IsNumber x

  -- What is positive is a number; a sum of positive numbers, and the reciprocal of a `size_t` (of 0
  -- it is +inf), are positive.
  pub record Positives : Type 0 where
    pub positive_number : (x : Float) → less zero_f x ≡ true → IsNumber x
    pub add_zero : (x : Float) → less zero_f x ≡ true → less zero_f (add zero_f x) ≡ true
    pub add_positive :
        (x y : Float) → less zero_f x ≡ true → less zero_f y ≡ true → less zero_f (add x y) ≡ true
    pub reciprocal_positive : (n : ℕ) → n < 2 ^ 64 → less zero_f (divide one_f (of_nat n)) ≡ true

-- A ChunkId is a std::uint64_t.
pub record SearchHit (f : Floats) : Type 0 where
  pub chunk_id : ℕ
  pub score : f.Float

pub record SourceRange : Type 0 where
  pub path : Bytes
  pub start_line : ℕ
  pub end_line : ℕ

pub record Chunk : Type 0 where
  pub id : ℕ
  pub source : SourceRange
  pub language : Bytes
  pub content : Bytes
  pub content_hash : Bytes
  pub chunker_version : Bytes
