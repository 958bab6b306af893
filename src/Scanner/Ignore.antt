-- ===== src/Scanner/Ignore.antt =====
-- src/adapters/filesystem/file_scanner.cpp, the rules of `.gitignore`: `IgnoreRule`, `read_ignore_file`,
-- `matches_rule` and `GitIgnoreMatcher`. A path below the root is the list of its components. The cache of
-- `rules_for` is a function from directories to rules.
pub mod Decision
use llamacodelab.Prelude.{
  ℕ, Bool, true, false, not, ◌||◌, Option, none, some, List, [], ◌∷◌, ◌++◌, if◌then◌else◌, ◌==◌,
  Bytes, codes, bytes_eq, is_empty, starts_with,
}
use llamacodelab.Chunker.{split_lines}
use llamacodelab.Scanner.Glob.{glob_matches}

pub record IgnoreRule : Type 0 where
  pub pattern_text : Bytes
  pub negated : Bool
  pub directory_only : Bool
  pub contains_slash : Bool

-- path.generic_string() of a path in normal form
pub path_text : List Bytes → Bytes
path_text [] = []
path_text (c ∷ []) = c
path_text (c ∷ d ∷ path) = c ++ (b'/' ∷ path_text (d ∷ path))

pub some_component : Bytes → List Bytes → Bool
some_component glob [] = false
some_component glob (c ∷ path) = glob_matches glob c || some_component glob path

pub matches_rule : IgnoreRule → List Bytes → Bool
matches_rule rule relative =
    let path = path_text relative in
    if rule.directory_only
    then bytes_eq path rule.pattern_text || starts_with path (rule.pattern_text ++ (b'/' ∷ []))
    else if rule.contains_slash
    then glob_matches rule.pattern_text path
    else some_component rule.pattern_text relative

-- What becomes of a line: `undefined` is `line.back()` on an empty line.
pub data ParsedLine : Type 0 where
  skipped undefined : ParsedLine
  parsed : IgnoreRule → ParsedLine

pub starts_with_byte : ℕ → Bytes → Bool
starts_with_byte b [] = false
starts_with_byte b (c ∷ line) = c == b

pub without_first : Bytes → Bytes
without_first [] = []
without_first (c ∷ line) = line

pub ends_with_byte : ℕ → Bytes → Bool
ends_with_byte b [] = false
ends_with_byte b (c ∷ []) = c == b
ends_with_byte b (c ∷ d ∷ line) = ends_with_byte b (d ∷ line)

pub without_last : Bytes → Bytes
without_last [] = []
without_last (c ∷ []) = []
without_last (c ∷ d ∷ line) = c ∷ without_last (d ∷ line)

pub has_byte : ℕ → Bytes → Bool
has_byte b [] = false
has_byte b (c ∷ line) = c == b || has_byte b line

-- From `rule.directory_only = line.back() == '/'` on.
pub parse_pattern : Bool → Bytes → ParsedLine
parse_pattern negated [] = undefined
parse_pattern negated (c ∷ line) =
    let directory_only = ends_with_byte b'/' (c ∷ line) in
    let rest = if directory_only then without_last (c ∷ line) else c ∷ line in
    if is_empty rest
    then skipped
    else parsed (record {
      pattern_text = rest;
      negated = negated;
      directory_only = directory_only;
      contains_slash = has_byte b'/' rest;
    })

pub parse_line : Bytes → ParsedLine
parse_line line =
    if is_empty line || starts_with_byte b'#' line
    then skipped
    else let negated = starts_with_byte b'!' line in
      let line = if negated then without_first line else line in
      if is_empty line
      then skipped
      else parse_pattern negated (if starts_with_byte b'/' line then without_first line else line)

-- The loop over the lines; `none` where a line is undefined.
pub parse_lines : List Bytes → Option (List IgnoreRule)
parse_lines [] = some []
parse_lines (line ∷ lines) = elim (parse_line line) [
  | skipped ↦ parse_lines lines
  | undefined ↦ none
  | parsed rule ↦ elim (parse_lines lines) [ none ↦ none | some rules ↦ some (rule ∷ rules) ]
]

-- `std::getline` and the carriage return cut the text as `split_lines` of the chunker does.
pub read_ignore_file : Bytes → Option (List IgnoreRule)
read_ignore_file text = parse_lines (split_lines text)

module _ (rules_for : List Bytes → List IgnoreRule) where
  pub apply_rules : List Bytes → Bool → List IgnoreRule → Bool
  apply_rules relative ignored [] = ignored
  apply_rules relative ignored (rule ∷ rules) =
      apply_rules relative (if matches_rule rule relative then not rule.negated else ignored) rules

  -- The loop over the directories, from the root to the parent of the candidate. `relative` is the
  -- candidate's path from `directory` on.
  pub ignores_from : List Bytes → List Bytes → Bool → Bool
  ignores_from directory [] ignored = ignored
  ignores_from directory (c ∷ []) ignored = apply_rules (c ∷ []) ignored (rules_for directory)
  ignores_from directory (c ∷ d ∷ relative) ignored =
      ignores_from (directory ++ (c ∷ [])) (d ∷ relative)
        (apply_rules (c ∷ d ∷ relative) ignored (rules_for directory))

  pub ignores : List Bytes → Bool
  ignores candidate = ignores_from [] candidate false
