-- ===== src/Scanner/Conditions.antt =====
-- The conditions on a file that a scan lists, and where it stands in the tree.
use llamacodelab.Prelude.{
  Bool, true, false, not, ◌||◌, List, [], ◌∷◌, ◌++◌, Bytes, codes, is_empty, ◌≤◌, ◌≡◌, ◌⊎◌, inl,
  inr, refl, arith, if◌then◌else◌,
}
use llamacodelab.Scanner.Ignore.{IgnoreRule, ignores}
use llamacodelab.Scanner.Counts.{Enters}
use llamacodelab.Scanner.{
  FileScannerOptions, ScannedFile, FileEntry, DirectoryEntry, Entries, file, directory, is_within,
  source_language, matches_any, refused, unsuited,
}

module _ (rules_for : List Bytes → List IgnoreRule) (options : FileScannerOptions) where
  -- A file stands in the tree below `path`, in directories that the scan enters.
  pub data Reaches : List Bytes → Entries → List Bytes → FileEntry → Type 0 where
    here :
        (path : List Bytes) (e : FileEntry) (entries : Entries) (p : List Bytes)
        → p ≡ path ++ (e.name ∷ [])
        → Reaches path (file e entries) p e
    behind_file :
        (path : List Bytes) (d : FileEntry) (entries : Entries) (p : List Bytes) (e : FileEntry)
        → Reaches path entries p e
        → Reaches path (file d entries) p e
    inside :
        (path : List Bytes) (d : DirectoryEntry) (below entries : Entries) (p : List Bytes)
        (e : FileEntry)
        → Enters rules_for options (path ++ (d.name ∷ [])) d
        → Reaches (path ++ (d.name ∷ [])) below p e
        → Reaches path (directory d below entries) p e
    behind_directory :
        (path : List Bytes) (d : DirectoryEntry) (below entries : Entries) (p : List Bytes)
        (e : FileEntry)
        → Reaches path entries p e
        → Reaches path (directory d below entries) p e

  -- The conditions on a file of the list.
  pub record IsSelected (p : List Bytes) (e : FileEntry) : Type 0 where
    pub regular : e.is_regular ≡ true
    pub canonical : e.canonical_fails ≡ false
    pub within_root : is_within e.from_root e.is_root ≡ true
    pub not_ignored : ignores rules_for p ≡ false
    pub not_excluded : matches_any options.exclude_globs p ≡ false
    pub wanted :
        (is_empty (source_language e.name e.extension) ≡ false)
        ⊎ (matches_any options.include_globs p ≡ true)
    pub sized : e.size_fails ≡ false
    pub small : e.size ≤ options.max_file_bytes

  pub IsSelected-taken :
      (p : List Bytes) (e : FileEntry)
      → IsSelected p e
      → (refused rules_for options p e || unsuited rules_for options p e) ≡ false
  unfolding refused unsuited
  IsSelected-taken p e c =
      ground (
        arith, c.canonical, c.within_root, c.not_ignored, c.not_excluded, c.wanted, c.sized,
        c.small,
      )

  wanted_of : (known named : Bool) → not (known || named) ≡ false → (known ≡ true) ⊎ (named ≡ true)
  wanted_of true named h = inl refl
  wanted_of false true h = inr refl
  wanted_of false false h = absurd (cc h)

  pub taken-IsSelected :
      (p : List Bytes) (e : FileEntry)
      → e.is_regular ≡ true
      → (refused rules_for options p e || unsuited rules_for options p e) ≡ false
      → IsSelected p e
  unfolding refused unsuited
  taken-IsSelected p e regular h =
      let known = not (is_empty (source_language e.name e.extension)) in
      let wanted = wanted_of known (matches_any options.include_globs p) (ground arith) in
      record {
        regular = regular;
        canonical = ground arith;
        within_root = ground arith;
        not_ignored = ground arith;
        not_excluded = ground arith;
        wanted = elim wanted [ inl k ↦ inl (ground arith) | inr k ↦ inr k ];
        sized = ground arith;
        small = ground arith;
      }

  -- What is listed of a file.
  abbrev pub listed : List Bytes → FileEntry → ScannedFile
  listed p e = record {
    absolute_path = e.canonical;
    relative_path = p;
    language =
        if is_empty (source_language e.name e.extension)
        then codes "text"
        else source_language e.name e.extension;
    size_bytes = e.size;
  }
