-- ===== src/Scanner/Glob/Reference.antt =====
-- `glob_matches` against what a pattern means.
use mathlib.Core.Path.{fun_ext}
use llamacodelab.Prelude.{
  ℕ, zero, suc, Bool, true, false, ◌&&◌, ◌||◌, List, [], ◌∷◌, length, if◌then◌else◌, ◌==◌, Bytes,
  is_empty, ◌≡◌, refl, ap, ◌∙◌, arith, inl, inr, Bool-cases, ==_iff,
}
use llamacodelab.Scanner.Glob.{
  star, question, falses, star_row, any_row, token_row, next_row, rows, last_entry, glob_matches,
}

-- `f` holds of some end of the text.
pub some_suffix : (Bytes → Bool) → Bytes → Bool
some_suffix f [] = f []
some_suffix f (c ∷ value) = f (c ∷ value) || some_suffix f value

-- The text has a first byte that fits the token, and `f` holds of the rest.
pub one_byte : ℕ → (Bytes → Bool) → Bytes → Bool
one_byte token f [] = false
one_byte token f (c ∷ value) = (token == question || token == c) && f value

-- A star stands for any bytes, a question mark for one, and any other byte for itself.
pub fits : Bytes → Bytes → Bool
fits [] value = is_empty value
fits (token ∷ glob) value =
    if token == star then some_suffix (fits glob) value else one_byte token (fits glob) value

-- From some entry of the row `f` holds of the text that is left there.
holds_from : (Bytes → Bool) → List Bool → Bytes → Bool
holds_from f [] value = false
holds_from f (b ∷ row) [] = b && f []
holds_from f (b ∷ row) (c ∷ value) = (b && f (c ∷ value)) || holds_from f row value

-- A row has an entry for each begin of the text.
abbrev IsRow : Bytes → List Bool → Type 0
IsRow value row = length row ≡ suc (length value)

holds_from-star :
    (f : Bytes → Bool) (value : Bytes) (row : List Bool) (before : Bool)
    → IsRow value row
    → holds_from f (star_row before row) value
      ≡ ((before && some_suffix f value) || holds_from (some_suffix f) row value)
unfolding holds_from star_row some_suffix
holds_from-star f [] [] before h = absurd (omega arith)
holds_from-star f [] (b ∷ row) before h = ground arith
holds_from-star f (c ∷ value) [] before h = absurd (omega arith)
holds_from-star f (c ∷ value) (b ∷ row) before h =
    ground (arith, holds_from-star f value row (b || before) (omega arith))

holds_from-token :
    (f : Bytes → Bool) (token : ℕ) (value : Bytes) (row : List Bool) (x : Bool)
    → token == question ≡ false
    → holds_from f (x ∷ token_row token row value) value
      ≡ ((x && f value) || holds_from (one_byte token f) row value)
unfolding holds_from token_row one_byte
holds_from-token f token [] [] x q = ground arith
holds_from-token f token [] (b ∷ row) x q = ground arith
holds_from-token f token (c ∷ value) [] x q = ground arith
holds_from-token f token (c ∷ value) (b ∷ row) x q =
    ground (arith, holds_from-token f token value row (b && token == c) q)

holds_from-any :
    (f : Bytes → Bool) (value : Bytes) (row : List Bool) (x : Bool)
    → holds_from f (x ∷ any_row row value) value
      ≡ ((x && f value) || holds_from (one_byte question f) row value)
unfolding holds_from any_row one_byte
holds_from-any f [] [] x = ground arith
holds_from-any f [] (b ∷ row) x = ground arith
holds_from-any f (c ∷ value) [] x = ground arith
holds_from-any f (c ∷ value) (b ∷ row) x = ground (arith, holds_from-any f value row b)

module _ (token : ℕ) (glob : Bytes) where
  fits-star : token == star ≡ true → fits (token ∷ glob) ≡ some_suffix (fits glob)
  unfolding fits
  fits-star e = fun_ext (λ v. rw (e, fits) refl)

  fits-byte : token == star ≡ false → fits (token ∷ glob) ≡ one_byte token (fits glob)
  unfolding fits
  fits-byte e = fun_ext (λ v. rw (e, fits) refl)

  -- After a token, what is left to match is the pattern behind it.
  next_row-fits :
      (value : Bytes) (row : List Bool)
      → IsRow value row
      → holds_from (fits glob) (next_row value token row) value
        ≡ holds_from (fits (token ∷ glob)) row value
  unfolding next_row
  next_row-fits value row h = elim (Bool-cases (token == star)) [
    | inl s ↦ rw (fits-star s) (rw s (holds_from-star (fits glob) value row false h))
    | inr n ↦ rw (fits-byte n) (
        rw n (elim (Bool-cases (token == question)) [
          | inl q ↦
              rw q (rw ((==_iff token question).0 q) (holds_from-any (fits glob) value row false))
          | inr r ↦ rw r (holds_from-token (fits glob) token value row false r)
        ]))
  ]

length-star_row : (before : Bool) (row : List Bool) → length (star_row before row) ≡ length row
unfolding star_row
length-star_row before [] = refl
length-star_row before (b ∷ row) = ap suc (length-star_row (b || before) row)

length-any_row :
    (row : List Bool) (value : Bytes) → IsRow value row → length (any_row row value) ≡ length value
unfolding any_row
length-any_row [] value h = absurd (omega arith)
length-any_row (b ∷ row) [] h = refl
length-any_row (b ∷ row) (c ∷ value) h = ap suc (length-any_row row value (omega arith))

length-token_row :
    (token : ℕ) (row : List Bool) (value : Bytes)
    → IsRow value row
    → length (token_row token row value) ≡ length value
unfolding token_row
length-token_row token [] value h = absurd (omega arith)
length-token_row token (b ∷ row) [] h = refl
length-token_row token (b ∷ row) (c ∷ value) h =
    ap suc (length-token_row token row value (omega arith))

next_row-IsRow :
    (value : Bytes) (token : ℕ) (row : List Bool)
    → IsRow value row
    → IsRow value (next_row value token row)
unfolding next_row
next_row-IsRow value token row h = ground (
  arith,
  length-star_row false row,
  length-any_row row value h,
  length-token_row token row value h,
)

-- The last entry is the one from which nothing is left.
last_entry-holds_from :
    (value : Bytes) (row : List Bool)
    → IsRow value row
    → last_entry row ≡ holds_from is_empty row value
unfolding last_entry holds_from
last_entry-holds_from [] [] h = absurd (omega arith)
last_entry-holds_from [] (b ∷ []) h = ground arith
last_entry-holds_from [] (b ∷ c ∷ row) h = absurd (omega arith)
last_entry-holds_from (c ∷ value) [] h = absurd (omega arith)
last_entry-holds_from (c ∷ value) (b ∷ []) h = absurd (omega arith)
last_entry-holds_from (c ∷ value) (b ∷ d ∷ row) h =
    ground (arith, last_entry-holds_from value (d ∷ row) (omega arith))

fits-nil : fits [] ≡ is_empty
unfolding fits
fits-nil = fun_ext (λ v. refl)

rows-fits :
    (glob value : Bytes) (row : List Bool)
    → IsRow value row
    → last_entry (rows value glob row) ≡ holds_from (fits glob) row value
unfolding rows
rows-fits [] value row h = rw fits-nil (last_entry-holds_from value row h)
rows-fits (token ∷ glob) value row h =
    rows-fits glob value (next_row value token row) (next_row-IsRow value token row h)
    ∙ next_row-fits token glob value row h

length-falses : (n : ℕ) → length (falses n) ≡ n
unfolding falses
length-falses zero = refl
length-falses (suc n) = ap suc (length-falses n)

holds_from-falses :
    (f : Bytes → Bool) (value : Bytes) (n : ℕ) → holds_from f (falses n) value ≡ false
unfolding holds_from falses
holds_from-falses f value zero = refl
holds_from-falses f [] (suc n) = refl
holds_from-falses f (c ∷ value) (suc n) = holds_from-falses f value n

first_row-fits :
    (f : Bytes → Bool) (value : Bytes) → holds_from f (true ∷ falses (length value)) value ≡ f value
unfolding holds_from falses
first_row-fits f [] = ground arith
first_row-fits f (c ∷ value) = ground (arith, holds_from-falses f value (length (c ∷ value)))

-- For every pattern and text the table of `glob_matches` gives what the pattern means: a star stands for
-- any bytes (also for `/`), a question mark for any one byte, every other byte for itself, and the whole
-- text is matched.
pub glob_matches-fits : (glob value : Bytes) → glob_matches glob value ≡ fits glob value
unfolding glob_matches
glob_matches-fits glob value =
    rows-fits glob value (true ∷ falses (length value)) (ap suc (length-falses (length value)))
    ∙ first_row-fits (fits glob) value
