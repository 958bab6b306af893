-- ===== src/VectorFile/RoundTrip.antt =====
-- What `write_atomic` has written `read` reads back.
use native.Mathlib.Nat.{suc-mul, mul-add, le-div_iff_mul-le}
use llamacodelab.Prelude.{
  ℕ, zero, suc, ◌+◌, ◌-◌, ◌*◌, ◌/◌, ◌%◌, ◌^◌, ◌≤◌, ◌<◌, true, false, List, [], ◌∷◌, ◌++◌,
  append_assoc, some, length, length-append, All, take, drop, take-append, drop-append, ltb, ◌==◌,
  ==_iff, ==-ne, Bytes, is_empty-ne, bytes_eq, ◌≡◌, ◌≢◌, refl, ap, sym, ◌∙◌, arith,
}
use llamacodelab.Prelude.Result.{ok}
use llamacodelab.VectorFile.{
  VectorFileMetadata, StoredVector, write_le, zeros, encode_hash, decode_hash, write_values,
  write_records, encode, record_bytes, size_overflows, read_records, read_header, read, Disk, magic,
  version, header_bytes, model_hash_bytes, System, write_out, write_atomic,
}
use llamacodelab.VectorFile.Atomic.{put_self}
use llamacodelab.VectorFile.Bits.{
  read_le-write_le, length-write_le, length-zeros, read_values-write_values, length-write_values,
}

-- The metadata fits into the header, and the hash has no zero byte.
pub record IsMetadata (m : VectorFileMetadata) : Type 0 where
  pub positive : 0 < m.dimension
  pub bounded : m.dimension < 2 ^ 32
  pub named : m.model_hash ≢ []
  pub short : length m.model_hash ≤ 32
  pub no_zero : All (λ b. 0 < b) m.model_hash

pub record IsRecord (dimension : ℕ) (r : StoredVector) : Type 0 where
  pub id : r.chunk_id < 2 ^ 64
  pub size : length r.values ≡ dimension
  pub bits : All (λ v. v < 2 ^ 32) r.values

decode_hash-zeros : (n : ℕ) → decode_hash (zeros n) ≡ []
unfolding decode_hash zeros
decode_hash-zeros zero = refl
decode_hash-zeros (suc n) = refl

decode_hash-append :
    (hash : Bytes) (n : ℕ) → All (λ b. 0 < b) hash → decode_hash (hash ++ zeros n) ≡ hash
unfolding decode_hash
decode_hash-append [] n h = decode_hash-zeros n
decode_hash-append (b ∷ hash) n h =
    rw (==-ne b 0 (omega (arith, h.0))) (ap (◌∷◌ b) (decode_hash-append hash n h.1))

-- The records as bytes.
body : List StoredVector → Bytes
body [] = []
body (r ∷ records) = write_le 8 r.chunk_id ++ write_values r.values ++ body records

write_records-body :
    (dimension : ℕ) (records : List StoredVector)
    → All (IsRecord dimension) records
    → write_records dimension records ≡ ok (body records)
unfolding write_records body
write_records-body dimension [] h = refl
write_records-body dimension (r ∷ records) h =
    rw ((==_iff (length r.values) dimension).1 h.0.size)
      (rw (write_records-body dimension records h.1) refl)

read_records-body :
    (dimension : ℕ) (records : List StoredVector)
    → All (IsRecord dimension) records
    → read_records dimension (length records) (body records) ≡ ok records
unfolding read_records body
read_records-body dimension [] h = refl
read_records-body dimension (r ∷ records) h =
    rw (append_assoc (write_le 8 r.chunk_id) (write_values r.values) (body records)) (
      rw
        (read_le-write_le 8 r.chunk_id (write_values r.values ++ body records)
          (omega (arith, h.0.id)))
        (rw (sym h.0.size) (
          rw (read_values-write_values r.values (body records) h.0.bits)
            (rw (read_records-body dimension records h.1) refl))))

length-body :
    (dimension : ℕ) (records : List StoredVector)
    → All (IsRecord dimension) records
    → length (body records) ≡ length records * (8 + dimension * 4)
unfolding body
length-body dimension [] h = omega arith
length-body dimension (r ∷ records) h = rw (suc-mul (length records) (8 + dimension * 4)) (
    omega (
      arith,
      length-append (write_le 8 r.chunk_id ++ write_values r.values) (body records),
      length-append (write_le 8 r.chunk_id) (write_values r.values),
      length-write_le 8 r.chunk_id,
      length-write_values r.values,
      length-body dimension records h.1,
      h.0.size,
    ))

-- A system that refuses nothing, where the directory of the path can be made.
pub record Works (system : System) (path : Bytes) : Type 0 where
  pub directory : system.creates_directories (system.parent_path path) ≡ true
  pub opens : system.can_open ≡ true
  pub flushes : system.can_flush ≡ true
  pub syncs : system.can_sync ≡ true
  pub renames : system.can_rename ≡ true

module _ (m : VectorFileMetadata) (records : List StoredVector) (ok_metadata : IsMetadata m)
    (ok_records : All (IsRecord m.dimension) records)
    (fits : 56 + length records * (8 + m.dimension * 4) < 2 ^ 64) where
  padded : Bytes
  padded = m.model_hash ++ zeros (32 - length m.model_hash)

  length-padded : length padded ≡ 32
  unfolding padded
  length-padded = omega (
    arith,
    length-append m.model_hash (zeros (32 - length m.model_hash)),
    length-zeros (32 - length m.model_hash),
    ok_metadata.short,
  )

  -- The file behind the magic.
  behind : Bytes
  behind =
      write_le 4 version
      ++ (write_le 4 m.dimension ++ (write_le 8 (length records) ++ (padded ++ body records)))

  encode-behind : encode m records ≡ ok (magic ++ behind)
  unfolding encode encode_hash behind padded
  encode-behind =
      let short : ltb model_hash_bytes (length m.model_hash) ≡ false =
        ground (arith, ok_metadata.short) in
      rw short (
        rw (write_records-body m.dimension records ok_records) (ap (λ t. ok t) (simp append_assoc)))

  length-behind : length behind ≡ 48 + length records * (8 + m.dimension * 4)
  unfolding behind
  length-behind = omega (
    arith,
    length-append (write_le 4 version)
        (write_le 4 m.dimension ++ (write_le 8 (length records) ++ (padded ++ body records))),
    length-append (write_le 4 m.dimension)
        (write_le 8 (length records) ++ (padded ++ body records)),
    length-append (write_le 8 (length records)) (padded ++ body records),
    length-append padded (body records),
    length-padded,
    length-write_le 4 version,
    length-write_le 4 m.dimension,
    length-write_le 8 (length records),
    length-body m.dimension records ok_records,
  )

  record_bytes-eq : record_bytes m.dimension ≡ 8 + m.dimension * 4
  record_bytes-eq = omega (arith, ok_metadata.bounded)

  no_overflow : size_overflows m.dimension (length records) ≡ false
  no_overflow = rw record_bytes-eq (
      let enough : length records ≤ (2 ^ 64 - 1 - 56) / (8 + m.dimension * 4) =
        (le-div_iff_mul-le {k = (8 + m.dimension * 4)} {x = length records} {y = (2 ^ 64 - 1 - 56)}
            (omega arith)).1
          (omega arith) in
      ground arith)

  count_bound : length records < 2 ^ 64
  count_bound = omega (arith, mul-add (length records) 8 (m.dimension * 4))

  size_matches :
      (header_bytes + length records * record_bytes m.dimension) % 2 ^ 64
        == length (magic ++ behind)
      ≡ true
  size_matches =
      rw record_bytes-eq (ground (arith, length-append magic behind, length-behind, fits))

  decoded : decode_hash padded ≡ m.model_hash
  unfolding padded
  decoded = decode_hash-append m.model_hash _ ok_metadata.no_zero

  read_header-behind : read_header (length (magic ++ behind)) behind ≡ ok (m, records)
  unfolding read_header behind
  read_header-behind =
      let hash_taken : take 32 (padded ++ body records) ≡ padded =
        ap (λ n. take n (padded ++ body records)) (sym length-padded)
        ∙ take-append padded (body records) in
      let hash_dropped : drop 32 (padded ++ body records) ≡ body records =
        ap (λ n. drop n (padded ++ body records)) (sym length-padded)
        ∙ drop-append padded (body records) in
      let long : ltb (length (padded ++ body records)) 32 ≡ false =
        ground (arith, length-append padded (body records), length-padded) in
      rw
        (read_le-write_le 4 version
          (write_le 4 m.dimension ++ (write_le 8 (length records) ++ (padded ++ body records)))
          (omega arith))
        (rw
          (read_le-write_le 4 m.dimension (write_le 8 (length records) ++ (padded ++ body records))
            (omega (arith, ok_metadata.bounded)))
          (rw
            (read_le-write_le 8 (length records) (padded ++ body records)
              (omega (arith, count_bound)))
            (rw (long, ==-ne m.dimension 0 (omega (arith, ok_metadata.positive)))
              (rw (no_overflow) (
                rw size_matches (
                  rw (hash_dropped, hash_taken)
                    (rw (read_records-body m.dimension records ok_records) (rw decoded refl))))))))

  read-behind :
      (disk : Disk) (path : Bytes)
      → disk path ≡ some (magic ++ behind)
      → read disk path ≡ ok (m, records)
  unfolding read bytes_eq
  read-behind disk path e =
      let long : ltb (length (magic ++ behind)) 56 ≡ false =
        ground (arith, length-append magic behind, length-behind) in
      rw (e, read) (rw long (rw read_header-behind refl))

  -- For metadata that fit the header, with a hash that has no zero byte, and records of their dimension,
  -- whose size is below 2^64: where the system can make the directory of the path and refuses nothing
  -- else, `write_atomic` succeeds, and `read` then returns the same metadata and the same records, bit for
  -- bit.
  pub read-write_atomic :
      (system : System) (disk : Disk) (path : Bytes)
      → Works system path
      → let run = write_atomic system disk path m records in
        (run.0 ≡ ok tt) × (read run.1 path ≡ ok (m, records))
  unfolding write_atomic write_out
  read-write_atomic system disk path w =
      rw
        (
          ==-ne m.dimension 0 (omega (arith, ok_metadata.positive)),
          is_empty-ne m.model_hash ok_metadata.named,
        )
        (rw no_overflow (
          rw w.directory (
            rw (w.opens, encode-behind)
              (rw (w.flushes, w.syncs, w.renames) (refl, read-behind _ path (put_self path _ _))))))
