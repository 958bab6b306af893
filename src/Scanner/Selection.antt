-- ===== src/Scanner/Selection.antt =====
-- Which files a scan lists.
use mathlib.Core.List.{Mem}
use mathlib.Core.List.Perm
use mathlib.Core.Logic.Or
use llamacodelab.Prelude.{true, false, ◌||◌, List, [], ◌∷◌, ◌++◌, All, Bytes, ◌≡◌, if◌then◌else◌}
use llamacodelab.Scanner.Ignore.{IgnoreRule}
use llamacodelab.Scanner.Counts
use llamacodelab.Scanner.Counts.{IsCounted, Enters, HasBroken}
use llamacodelab.Scanner.{
  FileScannerOptions, ScannedFile, FileScanResult, FileEntry, Entries, finished, broken, file,
  directory, enters, refused, unsuited,
}
use llamacodelab.Scanner.Conditions.{Reaches, IsSelected, listed}

module _ (rules_for : List Bytes → List IgnoreRule) (options : FileScannerOptions) where
  own : List Bytes → FileEntry → List ScannedFile
  own p e = elim (e.is_regular) [
    | false ↦ []
    | true ↦
        if refused rules_for options p e || unsuited rules_for options p e
        then []
        else listed rules_for options p e ∷ []
  ]

  -- The files below `path` that are listed, in the order of the iterator.
  selected : List Bytes → Entries → List ScannedFile
  selected path finished = []
  selected path broken = []
  selected path (file e entries) = own (path ++ (e.name ∷ [])) e ++ selected path entries
  selected path (directory d below entries) =
      elim (enters rules_for options (path ++ (d.name ∷ [])) d) [
        | true ↦ selected (path ++ (d.name ∷ [])) below ++ selected path entries
        | false ↦ selected path entries
      ]

  -- The file of the list is one that stands in the tree and meets the conditions.
  pub record IsListed (path : List Bytes) (tree : Entries) (f : ScannedFile) : Type 0 where
    pub at_path : List Bytes
    pub entry : FileEntry
    pub reached : Reaches rules_for options path tree at_path entry
    pub conditions : IsSelected rules_for options at_path entry
    pub described : f ≡ listed rules_for options at_path entry

  -- What `scan` returns for a tree.
  pub record IsScan (tree : Entries) (r : FileScanResult) : Type 0 where
    pub sound : All (IsListed [] tree) r.files
    pub complete :
        (p : List Bytes) (e : FileEntry)
        → Reaches rules_for options [] tree p e
        → IsSelected rules_for options p e
        → Mem (listed rules_for options p e) r.files
    pub unbroken : ¬ HasBroken rules_for options [] tree
    pub counted : IsCounted r
