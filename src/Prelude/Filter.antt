-- ===== src/Prelude/Filter.antt =====
-- What `filter` and `any` keep.
use mathlib.Core.Path.{◌≡◌, refl, ap}
use mathlib.Core.Logic.{inl, inr}
use mathlib.Core.Bool.{Bool, true, false}
use mathlib.Core.List.{List, [], ◌∷◌, ◌++◌}
use native.Mathlib.Omega.{arith}
use llamacodelab.Prelude.Tests.{Bool-cases}
use llamacodelab.Prelude.Lists.{filter, any, All, All-filter, All-append}
use llamacodelab.Prelude.Sort.{AllPairs}

module _ {A : Type 0} where
  pub AllPairs-filter :
      (R : A → A → Type 0) (keep : A → Bool) (xs : List A)
      → AllPairs R xs
      → AllPairs R (filter keep xs)
  unfolding filter
  AllPairs-filter R keep [] h = tt
  AllPairs-filter R keep (x ∷ xs) h = elim (Bool-cases (keep x)) [
    | inl e ↦ rw e (All-filter (R x) keep xs h.0, AllPairs-filter R keep xs h.1)
    | inr e ↦ rw e (AllPairs-filter R keep xs h.1)
  ]

  pub AllPairs-snoc :
      (R : A → A → Type 0) (xs : List A) (y : A)
      → AllPairs R xs
      → All (λ x. R x y) xs
      → AllPairs R (xs ++ (y ∷ []))
  AllPairs-snoc R [] y h k = (tt, tt)
  AllPairs-snoc R (x ∷ xs) y h k =
      (All-append (R x) xs (y ∷ []) h.0 (k.0, tt), AllPairs-snoc R xs y h.1 k.1)

  pub filter-All : (keep : A → Bool) (xs : List A) → All (λ x. keep x ≡ true) (filter keep xs)
  unfolding filter
  filter-All keep [] = tt
  filter-All keep (x ∷ xs) = elim (Bool-cases (keep x)) [
    | inl e ↦ rw e (e, filter-All keep xs)
    | inr e ↦ rw e (filter-All keep xs)
  ]

  pub filter-append :
      (keep : A → Bool) (xs ys : List A) → filter keep (xs ++ ys) ≡ filter keep xs ++ filter keep ys
  unfolding filter
  filter-append keep [] ys = refl
  filter-append keep (x ∷ xs) ys = ground (arith, filter-append keep xs ys)

  pub filter-kept :
      (keep : A → Bool) (xs : List A) → All (λ x. keep x ≡ true) xs → filter keep xs ≡ xs
  unfolding filter
  filter-kept keep [] h = refl
  filter-kept keep (x ∷ xs) h = rw h.0 (ap (◌∷◌ x) (filter-kept keep xs h.1))

  pub filter-dropped :
      (keep : A → Bool) (xs : List A) → All (λ x. keep x ≡ false) xs → filter keep xs ≡ []
  unfolding filter
  filter-dropped keep [] h = refl
  filter-dropped keep (x ∷ xs) h = rw h.0 (filter-dropped keep xs h.1)

  pub any-none :
      (test : A → Bool) (xs : List A) → All (λ x. test x ≡ false) xs → any test xs ≡ false
  unfolding any
  any-none test [] h = refl
  any-none test (x ∷ xs) h = rw h.0 (any-none test xs h.1)

  pub any-false :
      (test : A → Bool) (xs : List A) → any test xs ≡ false → All (λ x. test x ≡ false) xs
  unfolding any
  any-false test [] h = tt
  any-false test (x ∷ xs) h = ground (arith, any-false test xs)

  pub All-both : (P Q : A → Type 0) (xs : List A) → All P xs → All Q xs → All (λ x. P x × Q x) xs
  All-both P Q [] h k = tt
  All-both P Q (x ∷ xs) h k = ((h.0, k.0), All-both P Q xs h.1 k.1)
