-- ===== src/Scanner/Tests.antt =====
-- A small repository with a rule file, and patterns.
use llamacodelab.Prelude.{true, false, List, [], ◌∷◌, Bytes, codes, bytes_eq, ◌≡◌, ◌↔◌, ◌⊎◌, refl}
use llamacodelab.Scanner.{
  FileScannerOptions, FileEntry, Entries, finished, file, directory, source_language,
  is_cpp_extension, is_header_extension,
}
use llamacodelab.Scanner.Glob.{glob_matches}
use llamacodelab.Scanner.Glob.Reference.{fits, glob_matches-fits}
use llamacodelab.Scanner.Ignore.{IgnoreRule, ignores, parse_line, undefined}
use llamacodelab.Scanner.Ignore.Decision.{
  decision, last_match, concerning, ignores-last_match, parse_line-undefined,
}

-- `*.tmp` in the root, and `!keep.tmp` below `src`.
abbrev rules : List Bytes → List IgnoreRule
rules [] =
    record {
      pattern_text = codes "*.tmp";
      negated = false;
      directory_only = false;
      contains_slash = false;
    }
    ∷ []
rules (_ ∷ _) =
    record {
      pattern_text = codes "keep.tmp";
      negated = true;
      directory_only = false;
      contains_slash = false;
    }
    ∷ []

abbrev options : FileScannerOptions
options = record { max_file_bytes = 100; include_globs = codes "*.tmp" ∷ []; exclude_globs = [] }

abbrev entry : Bytes → Bytes → FileEntry
entry name extension = record {
  name = name;
  extension = extension;
  is_regular = true;
  canonical = name;
  from_root = name ∷ [];
  is_root = false;
  canonical_fails = false;
  size = 10;
  size_fails = false;
}

abbrev tree : Entries
tree = file (entry (codes "main.cpp") (codes ".cpp")) (
    directory (record { name = codes "src"; is_symlink = false })
      (file (entry (codes "keep.tmp") (codes ".tmp")) finished)
      (file (entry (codes "a.tmp") (codes ".tmp")) finished))

header_language : source_language (codes "a.hpp") (codes ".hpp") ≡ codes "cpp-header"
unfolding source_language is_cpp_extension is_header_extension bytes_eq
header_language = refl

glob_matches-fits_example :
    glob_matches (codes "a*.c?p") (codes "a/b.cpp") ≡ fits (codes "a*.c?p") (codes "a/b.cpp")
glob_matches-fits_example = glob_matches-fits (codes "a*.c?p") (codes "a/b.cpp")

ignores-last_match_example :
    ignores rules (codes "src" ∷ codes "keep.tmp" ∷ [])
    ≡ decision rules false
        (last_match rules (concerning rules [] (codes "src" ∷ codes "keep.tmp" ∷ [])))
ignores-last_match_example = ignores-last_match rules (codes "src" ∷ codes "keep.tmp" ∷ [])

parse_line-undefined_example :
    (parse_line (codes "!/") ≡ undefined)
    ↔ ((codes "!/" ≡ b'/' ∷ []) ⊎ (codes "!/" ≡ b'!' ∷ b'/' ∷ []))
parse_line-undefined_example = parse_line-undefined (codes "!/")
