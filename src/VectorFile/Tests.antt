-- ===== src/VectorFile/Tests.antt =====
-- A file of two vectors.
use llamacodelab.Prelude.{
  not, is_empty, bytes_eq, if◌then◌else◌, true, false, none, List, [], ◌∷◌, codes, ◌≡◌, refl, arith,
}
use llamacodelab.Prelude.Result.{ok, err, runtime_error}
use llamacodelab.VectorFile.{
  System, VectorFileMetadata, StoredVector, Disk, encode, write_atomic, read, write_le,
}
use llamacodelab.VectorFile.Atomic.{Outcome, write_atomic-Outcome}
use llamacodelab.VectorFile.RoundTrip.{read-write_atomic}

abbrev metadata : VectorFileMetadata
metadata = record { dimension = 2; model_hash = codes "e5" }

abbrev records : List StoredVector
records =
    record { chunk_id = 300; values = 1_065_353_216 ∷ 0 ∷ [] }
    ∷ record { chunk_id = 7; values = 5 ∷ 4_294_967_295 ∷ [] }
    ∷ []

abbrev no_files : Disk
no_files path = none

-- `create_directories` makes every directory but the one with the empty path.
abbrev system : System
system = record {
  parent_path = λ path. if bytes_eq path (codes "i/v") then codes "i" else [];
  creates_directories = λ path. not (is_empty path);
  can_open = true;
  can_flush = true;
  can_sync = true;
  can_rename = true;
  partial_output = [];
}

-- A path without a directory.
bare_name :
    write_atomic system no_files (codes "v") metadata records ≡ (err runtime_error, no_files)
unfolding write_atomic bytes_eq
bare_name = refl

low_first : write_le 4 300 ≡ 44 ∷ 1 ∷ 0 ∷ 0 ∷ []
unfolding write_le
low_first = refl

missing_file : read no_files (codes "v") ≡ err runtime_error
unfolding read
missing_file = refl

read-write_atomic_example :
    let run = write_atomic system no_files (codes "i/v") metadata records in
    (run.0 ≡ ok tt) × (read run.1 (codes "i/v") ≡ ok (metadata, records))
unfolding bytes_eq
read-write_atomic_example =
    read-write_atomic metadata records
      (record {
        positive = omega arith;
        bounded = omega arith;
        named = λ e. ground arith;
        short = omega arith;
        no_zero = (omega arith, (omega arith, tt));
      })
      (
        record { id = omega arith; size = refl; bits = (omega arith, (omega arith, tt)) },
        (record { id = omega arith; size = refl; bits = (omega arith, (omega arith, tt)) }, tt),
      )
      (omega arith) system no_files (codes "i/v")
      (record { directory = refl; opens = refl; flushes = refl; syncs = refl; renames = refl })

-- A sync that fails.
write_atomic-Outcome_example :
    Outcome no_files
      (codes "i/v")
      (encode metadata records)
      (write_atomic (record system { can_sync = false }) no_files (codes "i/v") metadata records)
write_atomic-Outcome_example =
    write_atomic-Outcome (record system { can_sync = false }) no_files (codes "i/v") metadata
      records
