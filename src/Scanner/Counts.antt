-- ===== src/Scanner/Counts.antt =====
-- The statistics of a scan add up.
use llamacodelab.Prelude.{
  ◌+◌, Bool, true, false, not, List, [], ◌∷◌, ◌++◌, length, length-append, ◌==◌, Bytes, ◌≡◌, inl,
  inr, refl, arith, Bool-cases,
}
use llamacodelab.Prelude.Result.{
  Error, invalid_argument, runtime_error, throw_if, Yields, Yields-bind, Yields-throw_if,
  Yields-throws,
}
use llamacodelab.Prelude.Sort.{length-sort}
use llamacodelab.Scanner.Ignore.{IgnoreRule, ignores}
use llamacodelab.Scanner.{
  FileScannerOptions, FileScanResult, FileEntry, DirectoryEntry, Entries, finished, broken, file,
  directory, is_default_excluded_directory, matches_any, enters, scanned, visit_file, visit, scan,
  scanned_before,
}

pub record IsCounted (r : FileScanResult) : Type 0 where
  pub all_counted : r.stats.files_seen ≡ r.stats.files_indexable + r.stats.files_skipped
  pub all_listed : r.stats.files_indexable ≡ length r.files

module _ (rules_for : List Bytes → List IgnoreRule) (options : FileScannerOptions) where
  -- The scan goes into a directory: it is no link, and not left out by its name, a rule or a glob.
  pub record Enters (path : List Bytes) (d : DirectoryEntry) : Type 0 where
    pub no_link : d.is_symlink ≡ false
    pub named : is_default_excluded_directory d.name ≡ false
    pub not_ignored : ignores rules_for path ≡ false
    pub not_excluded : matches_any options.exclude_globs path ≡ false

  pub enters-Enters :
      (path : List Bytes) (d : DirectoryEntry)
      → enters rules_for options path d ≡ true
      → Enters path d
  unfolding enters
  enters-Enters path d e = record {
    no_link = ground arith;
    named = ground arith;
    not_ignored = ground arith;
    not_excluded = ground arith;
  }

  pub Enters-enters :
      (path : List Bytes) (d : DirectoryEntry)
      → Enters path d
      → enters rules_for options path d ≡ true
  unfolding enters
  Enters-enters path d h = ground (arith, h.no_link, h.named, h.not_ignored, h.not_excluded)

  -- The iterator fails below `path`, in a directory that the scan enters.
  pub data HasBroken : List Bytes → Entries → Type 0 where
    here : (path : List Bytes) → HasBroken path broken
    behind_file :
        (path : List Bytes) (e : FileEntry) (entries : Entries)
        → HasBroken path entries
        → HasBroken path (file e entries)
    inside :
        (path : List Bytes) (d : DirectoryEntry) (below entries : Entries)
        → Enters (path ++ (d.name ∷ [])) d
        → HasBroken (path ++ (d.name ∷ [])) below
        → HasBroken path (directory d below entries)
    behind_directory :
        (path : List Bytes) (d : DirectoryEntry) (below entries : Entries)
        → HasBroken path entries
        → HasBroken path (directory d below entries)

  -- What a scan can throw: its arguments are refused, or the iterator fails.
  pub data ScanFails (accessible : Bool) (tree : Entries) (e : Error) : Type 0 where
    no_bytes : e ≡ invalid_argument → options.max_file_bytes ≡ 0 → ScanFails accessible tree e
    no_root : e ≡ invalid_argument → accessible ≡ false → ScanFails accessible tree e
    iterator_fails : e ≡ runtime_error → HasBroken [] tree → ScanFails accessible tree e

  abbrev Breaks : List Bytes → Entries → Error → Type 0
  Breaks path tree e = (e ≡ runtime_error) × HasBroken path tree

  visit_file-IsCounted :
      (path : List Bytes) (e : FileEntry) (r : FileScanResult)
      → IsCounted r
      → IsCounted (visit_file rules_for options path e r)
  unfolding visit_file
  visit_file-IsCounted path e r h = ground (
    arith,
    h.all_counted,
    h.all_listed,
    length-append r.files (scanned rules_for options path e ∷ []),
  )

  visit-IsCounted :
      (path : List Bytes) (tree : Entries) (r : FileScanResult)
      → IsCounted r
      → Yields IsCounted (Breaks path tree) (visit rules_for options path tree r)
  unfolding visit
  visit-IsCounted path finished r h = h
  visit-IsCounted path broken r h = (refl, here path)
  visit-IsCounted path (file e entries) r h =
      Yields-throws IsCounted (Breaks path entries) (Breaks path (file e entries))
        (visit rules_for options path entries _) (λ x b. (b.0, behind_file path e entries b.1))
        (visit-IsCounted path entries _ (visit_file-IsCounted (path ++ (e.name ∷ [])) e r h))
  visit-IsCounted path (directory d below entries) r h =
      let p = path ++ (d.name ∷ []) in
      let after : (s : FileScanResult)
          → IsCounted s
          → Yields IsCounted (Breaks path (directory d below entries))
              (visit rules_for options path entries s) =
        λ s k.
          Yields-throws IsCounted (Breaks path entries) (Breaks path (directory d below entries))
            (visit rules_for options path entries s)
            (λ x b. (b.0, behind_directory path d below entries b.1))
            (visit-IsCounted path entries s k) in
      elim (Bool-cases (enters rules_for options p d)) [
        | inl entered ↦
            rw (entered, visit)
              (Yields-bind IsCounted (Breaks path (directory d below entries))
                (visit rules_for options p below r) _
                (Yields-throws IsCounted (Breaks p below) (Breaks path (directory d below entries))
                  (visit rules_for options p below r)
                  (λ x b. (b.0, inside path d below entries (enters-Enters p d entered) b.1))
                  (visit-IsCounted p below r h))
                after)
        | inr beside ↦ rw (beside, visit) (after r h)
      ]

  -- A scan returns statistics that add up (each regular file that was seen is indexable or skipped, and
  -- the indexable ones are those that are listed), or throws because its arguments are refused or the
  -- iterator failed.
  pub scan-IsCounted :
      (accessible : Bool) (tree : Entries)
      → Yields IsCounted (ScanFails accessible tree) (scan rules_for options accessible tree)
  unfolding scan
  scan-IsCounted accessible tree =
      let fails = ScanFails accessible tree in
      Yields-bind IsCounted fails (throw_if (options.max_file_bytes == 0) _) _
        (Yields-throw_if fails _ _ (λ h. no_bytes refl (ground arith)))
        (λ _ _.
          Yields-bind IsCounted fails (throw_if (not accessible) _) _
            (Yields-throw_if fails _ _ (λ h. no_root refl (ground arith)))
            (λ _ _.
              Yields-bind IsCounted fails (visit rules_for options [] tree _) _
                (Yields-throws IsCounted (Breaks [] tree) fails (visit rules_for options [] tree _)
                  (λ x b. iterator_fails b.0 b.1)
                  (visit-IsCounted [] tree _
                    (record { all_counted = omega arith; all_listed = refl })))
                (λ r h. record {
                  all_counted = h.all_counted;
                  all_listed = omega (arith, h.all_listed, length-sort scanned_before r.files);
                })))
