-- ===== src/Similarity.antt =====
-- src/domain/similarity.cpp: finite embeddings, their dot product and their normalisation. A `double`
-- is another parameter beside the `float`.
use llamacodelab.Prelude.{Bool, true, not, ◌&&◌, ◌||◌, List, [], ◌∷◌, map, length, ◌==◌, is_empty}
use llamacodelab.Prelude.Result.{Result, ok, invalid_argument, runtime_error, throw_if, ◌>>◌}
use llamacodelab.Domain.{Floats}

module _ (f : Floats) where
  open f use {Float, zero_f, add, multiply, is_finite}

  abbrev pub Embedding : Type 0
  Embedding = List Float

  unfoldable pub is_finite_embedding : Embedding → Bool
  is_finite_embedding [] = true
  is_finite_embedding (x ∷ xs) = is_finite x && is_finite_embedding xs

  -- std::inner_product from `acc` on
  unfoldable pub inner_product : Embedding → Embedding → Float → Float
  inner_product [] ys acc = acc
  inner_product (x ∷ xs) [] acc = acc
  inner_product (x ∷ xs) (y ∷ ys) acc = inner_product xs ys (add acc (multiply x y))

  unfoldable pub dot_product : Embedding → Embedding → Result Float
  dot_product lhs rhs = do
    throw_if (not (length lhs == length rhs)) invalid_argument
    throw_if (not (is_finite_embedding lhs) || not (is_finite_embedding rhs)) invalid_argument
    ok (inner_product lhs rhs zero_f)

-- `double` arithmetic, with the conversions from and to `float`, and the bound 1e-12.
pub record Doubles (f : Floats) : Type 1 where
  pub Double : Type 0
  pub zero_d : Double
  pub tiny : Double
  pub widen : f.Float → Double
  pub narrow : Double → f.Float
  pub add_d : Double → Double → Double
  pub multiply_d : Double → Double → Double
  pub divide_d : Double → Double → Double
  pub sqrt : Double → Double
  pub at_most : Double → Double → Bool

module _ (f : Floats) (d : Doubles f) where
  open d use {Double, zero_d, tiny, widen, narrow, add_d, multiply_d, divide_d, sqrt, at_most}

  sum_of_squares : Embedding f → Double → Double
  sum_of_squares [] sum = sum
  sum_of_squares (x ∷ xs) sum = sum_of_squares xs (add_d sum (multiply_d (widen x) (widen x)))

  -- The function writes the span in place: here it returns the new values.
  pub l2_normalize : Embedding f → Result (Embedding f)
  unfolding sum_of_squares
  l2_normalize values = do
    throw_if (is_empty values || not (is_finite_embedding f values)) invalid_argument
    let norm = sqrt (sum_of_squares values zero_d)
    throw_if (at_most norm tiny) runtime_error
    ok (map (λ value. narrow (divide_d (widen value) norm)) values)
