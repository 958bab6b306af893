-- ===== src/VectorFile/Atomic.antt =====
-- `write_atomic` leaves the old file or puts the new one, whole.
use llamacodelab.Prelude.{
  ◌||◌, Option, none, some, List, length, length-append, Bytes, codes, bytes_eq, bytes_eq_iff, ◌≡◌,
  ◌≢◌, inl, inr, refl, ap, sym, ◌∙◌, arith, Bool-cases, is_empty, ◌==◌,
}
use llamacodelab.Prelude.Result.{Error, Result, ok, err}
use llamacodelab.VectorFile.{
  VectorFileMetadata, StoredVector, Disk, put, System, temporary, encode, write_out, write_atomic,
  size_overflows,
}

pub put_self :
    (path : Bytes) (content : Option Bytes) (disk : Disk) → put path content disk path ≡ content
unfolding put
put_self path content disk = rw ((bytes_eq_iff path path).1 refl) refl

put_other :
    (path other : Bytes) (content : Option Bytes) (disk : Disk)
    → other ≢ path
    → put path content disk other ≡ disk other
unfolding put
put_other path other content disk h = elim (Bool-cases (bytes_eq other path)) [
  | inl e ↦ absurd (h ((bytes_eq_iff other path).0 e))
  | inr e ↦ rw e refl
]

temporary-ne : (path : Bytes) → path ≢ temporary path
temporary-ne path e = absurd (omega (arith, ap length e, length-append path (codes ".tmp")))

-- How a run of `write_atomic` ends for the file at `path` and for the others.
pub data Outcome (before : Disk) (path : Bytes) (intended : Result Bytes)
    : Result (Unit {0}) × Disk → Type 0 where
  replaced :
      (content : Bytes) (after : Disk)
      → intended ≡ ok content
      → after path ≡ some content
      → after (temporary path) ≡ none
      → ((other : Bytes) → other ≢ path → other ≢ temporary path → after other ≡ before other)
      → Outcome before path intended (ok tt, after)
  kept :
      (e : Error) (after : Disk)
      → ((other : Bytes) → other ≢ temporary path → after other ≡ before other)
      → Outcome before path intended (err e, after)

put-kept :
    (before : Disk) (path : Bytes) (content : Option Bytes) (other : Bytes)
    → other ≢ temporary path
    → put (temporary path) content before other ≡ before other
put-kept before path content other h = put_other (temporary path) other content before h

write_out-Outcome :
    (system : System) (before : Disk) (path : Bytes) (intended : Result Bytes)
    → Outcome before path intended (write_out system before path intended)
unfolding write_out
write_out-Outcome system before path (err e) = kept e _ (put-kept before path _)
write_out-Outcome system before path (ok content) = elim (Bool-cases system.can_flush) [
  | inr no_flush ↦ rw no_flush (kept _ _ (put-kept before path _))
  | inl flush ↦ elim (Bool-cases system.can_sync) [
    | inr no_sync ↦ rw (flush, no_sync) (kept _ _ (put-kept before path _))
    | inl sync ↦ elim (Bool-cases system.can_rename) [
      | inr no_rename ↦ rw (flush, sync, no_rename) (kept _ _ (put-kept before path _))
      | inl rename ↦
          rw (flush, sync, rename)
            (replaced content _ refl (put_self path _ _)
              (put_other path (temporary path) _ _ (λ e. temporary-ne path (sym e))
                ∙ put_self (temporary path) _ _)
              (λ other p t.
                put_other path other _ _ p
                ∙ put-kept _ path _ other t
                ∙ put-kept before path _ other t))
    ]
  ]
]

-- Whatever the system does, a run of `write_atomic` either succeeds, and then the path has the whole
-- encoding of what was given, and the temporary file is gone; or it throws, and then no file but the
-- temporary one has changed.
pub write_atomic-Outcome :
    (system : System) (before : Disk) (path : Bytes) (metadata : VectorFileMetadata)
    (records : List StoredVector)
    → Outcome before path
        (encode metadata records)
        (write_atomic system before path metadata records)
unfolding write_atomic
write_atomic-Outcome system before path metadata records =
    elim (Bool-cases (metadata.dimension == 0 || is_empty metadata.model_hash)) [
      | inl bad ↦ rw bad (kept _ _ (λ other h. refl))
      | inr good ↦ elim (Bool-cases (size_overflows metadata.dimension (length records))) [
        | inl long ↦ rw (good, long) (kept _ _ (λ other h. refl))
        | inr short ↦ elim (Bool-cases (system.creates_directories (system.parent_path path))) [
          | inr no_directory ↦ rw (good, short, no_directory) (kept _ _ (λ other h. refl))
          | inl made ↦ elim (Bool-cases system.can_open) [
            | inr closed ↦ rw (good, short, made, closed) (kept _ _ (λ other h. refl))
            | inl open_file ↦
                simp (good, short, made, open_file)
                  (write_out-Outcome system before path (encode metadata records))
          ]
        ]
      ]
    ]
