-- ===== src/Scanner/Glob.antt =====
-- src/adapters/filesystem/file_scanner.cpp, `glob_matches`: a table of which begins of the text the begin
-- of the pattern matches, row by row.
pub mod Reference
use llamacodelab.Prelude.{
  ℕ, zero, suc, Bool, true, false, ◌&&◌, ◌||◌, List, [], ◌∷◌, length, if◌then◌else◌, ◌==◌, Bytes,
}

abbrev pub star : ℕ
star = 42

abbrev pub question : ℕ
question = 63

pub falses : ℕ → List Bool
falses zero = []
falses (suc n) = false ∷ falses n

-- current[index] = previous[index] || current[index - 1]; `before` is the entry to the left.
pub star_row : Bool → List Bool → List Bool
star_row before [] = []
star_row before (b ∷ previous) = (b || before) ∷ star_row (b || before) previous

-- current[index] = previous[index - 1], from index 1 on
pub any_row : List Bool → Bytes → List Bool
any_row [] value = []
any_row (b ∷ previous) [] = []
any_row (b ∷ previous) (c ∷ value) = b ∷ any_row previous value

-- current[index] = previous[index - 1] && token == value[index - 1], from index 1 on
pub token_row : ℕ → List Bool → Bytes → List Bool
token_row token [] value = []
token_row token (b ∷ previous) [] = []
token_row token (b ∷ previous) (c ∷ value) = (b && token == c) ∷ token_row token previous value

-- The body of the loop over the pattern. The row starts from a row of `false`.
pub next_row : Bytes → ℕ → List Bool → List Bool
next_row value token previous =
    if token == star
    then star_row false previous
    else if token == question
    then false ∷ any_row previous value
    else false ∷ token_row token previous value

pub rows : Bytes → Bytes → List Bool → List Bool
rows value [] previous = previous
rows value (token ∷ pattern) previous = rows value pattern (next_row value token previous)

-- previous[value.size()], the last entry
pub last_entry : List Bool → Bool
last_entry [] = false
last_entry (b ∷ []) = b
last_entry (b ∷ c ∷ row) = last_entry (c ∷ row)

pub glob_matches : Bytes → Bytes → Bool
glob_matches glob value = last_entry (rows value glob (true ∷ falses (length value)))
