-- ===== src/Scanner.antt =====
-- src/adapters/filesystem/file_scanner.hpp and file_scanner.cpp: the files of a repository to index. The
-- directory tree, in the order in which the iterator gives it, is an argument with what the system says of
-- each entry; a failing increment is an entry of its own. A path below the root is the list of its
-- components.
pub mod Glob
pub mod Ignore
pub mod Counts
pub mod Conditions
pub mod Selection
mod Tests
use llamacodelab.Prelude.{
  ℕ, suc, ◌+◌, Bool, true, false, not, ◌&&◌, ◌||◌, List, [], ◌∷◌, ◌++◌, if◌then◌else◌, ltb, ◌==◌,
  Bytes, codes, bytes_eq, is_empty, starts_with,
}
use llamacodelab.Prelude.Result.{
  Result, ok, err, invalid_argument, runtime_error, throw_if, ◌>>=◌, ◌>>◌,
}
use llamacodelab.Prelude.Sort.{sort}
use llamacodelab.Scanner.Glob.{glob_matches}
use llamacodelab.Scanner.Ignore.{IgnoreRule, ignores, path_text}

pub record FileScannerOptions : Type 0 where
  pub max_file_bytes : ℕ
  pub include_globs : List Bytes
  pub exclude_globs : List Bytes

pub record ScannedFile : Type 0 where
  pub absolute_path : Bytes
  pub relative_path : List Bytes
  pub language : Bytes
  pub size_bytes : ℕ

pub record FileScanStats : Type 0 where
  pub files_seen : ℕ
  pub files_indexable : ℕ
  pub files_skipped : ℕ

pub record FileScanResult : Type 0 where
  pub files : List ScannedFile
  pub stats : FileScanStats

-- What the system says of an entry that is no directory. `from_root` is its canonical path relative to
-- the root, and `is_root` whether the two are equal; a failure is an `entry_error`.
pub record FileEntry : Type 0 where
  pub name : Bytes
  pub extension : Bytes
  pub is_regular : Bool
  pub canonical : Bytes
  pub from_root : List Bytes
  pub is_root : Bool
  pub canonical_fails : Bool
  pub size : ℕ
  pub size_fails : Bool

pub record DirectoryEntry : Type 0 where
  pub name : Bytes
  pub is_symlink : Bool

-- The entries of a directory, those of its subdirectories included.
pub data Entries : Type 0 where
  finished broken : Entries
  file : FileEntry → Entries → Entries
  directory : DirectoryEntry → Entries → Entries → Entries

pub is_within : List Bytes → Bool → Bool
is_within [] is_root = is_root
is_within (c ∷ relative) is_root = not (bytes_eq c (codes ".."))

pub is_default_excluded_directory : Bytes → Bool
is_default_excluded_directory name =
    bytes_eq name (codes ".git")
    || bytes_eq name (codes "build")
    || bytes_eq name (codes "out")
    || bytes_eq name (codes "third_party")
    || bytes_eq name (codes "vendor")
    || bytes_eq name (codes "node_modules")
    || bytes_eq name (codes ".cache")
    || starts_with name (codes "build-")

pub is_cpp_extension : Bytes → Bool
is_cpp_extension extension =
    bytes_eq extension (codes ".cc")
    || bytes_eq extension (codes ".cpp")
    || bytes_eq extension (codes ".cxx")
    || bytes_eq extension (codes ".ipp")
    || bytes_eq extension (codes ".tpp")

pub is_header_extension : Bytes → Bool
is_header_extension extension =
    bytes_eq extension (codes ".h")
    || bytes_eq extension (codes ".hh")
    || bytes_eq extension (codes ".hpp")
    || bytes_eq extension (codes ".hxx")

pub source_language : Bytes → Bytes → Bytes
source_language filename extension =
    if bytes_eq filename (codes "CMakeLists.txt") || bytes_eq extension (codes ".cmake")
    then codes "cmake"
    else if bytes_eq extension (codes ".c")
    then codes "c"
    else if is_cpp_extension extension
    then codes "cpp"
    else if is_header_extension extension
    then codes "cpp-header"
    else []

pub matches_any : List Bytes → List Bytes → Bool
matches_any [] path = false
matches_any (glob ∷ globs) path = glob_matches glob (path_text path) || matches_any globs path

-- std::string::operator<
pub text_before : Bytes → Bytes → Bool
text_before s [] = false
text_before [] (c ∷ t) = true
text_before (b ∷ s) (c ∷ t) = ltb b c || (b == c && text_before s t)

abbrev pub scanned_before : ScannedFile → ScannedFile → Bool
scanned_before left right =
    text_before (path_text left.relative_path) (path_text right.relative_path)

module _ (rules_for : List Bytes → List IgnoreRule) (options : FileScannerOptions) where
  -- The negated test before `disable_recursion_pending`.
  pub enters : List Bytes → DirectoryEntry → Bool
  enters path d = not (
      d.is_symlink
      || is_default_excluded_directory d.name
      || ignores rules_for path
      || matches_any options.exclude_globs path)

  -- The first test on a file: it is left out before its language and size are asked for.
  pub refused : List Bytes → FileEntry → Bool
  refused path e =
      e.canonical_fails
      || not (is_within e.from_root e.is_root)
      || ignores rules_for path
      || matches_any options.exclude_globs path

  -- The second test.
  pub unsuited : List Bytes → FileEntry → Bool
  unsuited path e =
      not (
        not (is_empty (source_language e.name e.extension))
        || matches_any options.include_globs path)
      || e.size_fails
      || ltb options.max_file_bytes e.size

  pub scanned : List Bytes → FileEntry → ScannedFile
  scanned path e =
      let language = source_language e.name e.extension in
      record {
        absolute_path = e.canonical;
        relative_path = path;
        language = if is_empty language then codes "text" else language;
        size_bytes = e.size;
      }

  pub visit_file : List Bytes → FileEntry → FileScanResult → FileScanResult
  visit_file path e r =
      if not e.is_regular
      then r
      else let seen = record r.stats { files_seen = r.stats.files_seen + 1 } in
        if refused path e || unsuited path e
        then record r { stats = record seen { files_skipped = r.stats.files_skipped + 1 } }
        else record {
          files = r.files ++ (scanned path e ∷ []);
          stats = record seen { files_indexable = r.stats.files_indexable + 1 };
        }

  -- The loop over the entries below `path`.
  pub visit : List Bytes → Entries → FileScanResult → Result FileScanResult
  visit path finished r = ok r
  visit path broken r = err runtime_error
  visit path (file e entries) r = visit path entries (visit_file (path ++ (e.name ∷ [])) e r)
  visit path (directory d below entries) r = elim (enters (path ++ (d.name ∷ [])) d) [
    | false ↦ visit path entries r
    | true ↦ visit (path ++ (d.name ∷ [])) below r >>= λ s. visit path entries s
  ]

  -- `root_accessible` is whether the root is a directory that can be read.
  pub scan : Bool → Entries → Result FileScanResult
  scan root_accessible tree = do
    throw_if (options.max_file_bytes == 0) invalid_argument
    throw_if (not root_accessible) invalid_argument
    result ← visit [] tree (record {
      files = [];
      stats = record { files_seen = 0; files_indexable = 0; files_skipped = 0 };
    })
    ok (record result { files = sort scanned_before result.files })
