-- ===== src/VectorFile.antt =====
-- src/adapters/vector/vector_file.hpp and vector_file.cpp: the file of vectors. A `float` is its bit
-- pattern, which is what `std::bit_cast` writes. The disk is a function from paths to contents; what the
-- system may refuse (making directories, creating, flushing, syncing, renaming) is an argument, and so is
-- `parent_path` of std::filesystem. Directories are not among the contents.
pub mod Bits
pub mod RoundTrip
pub mod Atomic
mod Tests
use llamacodelab.Prelude.{
  ℕ, zero, suc, ◌+◌, ◌-◌, ◌*◌, ◌/◌, ◌%◌, ◌^◌, Bool, true, false, not, ◌||◌, Option, none, some,
  List, [], ◌∷◌, ◌++◌, length, take, drop, if◌then◌else◌, ltb, ◌==◌, Bytes, codes, bytes_eq,
  is_empty,
}
use llamacodelab.Prelude.Result.{
  Error, Result, ok, err, invalid_argument, runtime_error, overflow_error, throw_if, ◌>>=◌, ◌>>◌,
}

pub record VectorFileMetadata : Type 0 where
  pub dimension : ℕ
  pub model_hash : Bytes

pub record StoredVector : Type 0 where
  pub chunk_id : ℕ
  pub values : List ℕ

-- kMagic, kVersion, kModelHashBytes and kHeaderBytes
abbrev pub magic : Bytes
magic = codes "LLCLVEC1"

abbrev pub version : ℕ
version = 1

abbrev pub model_hash_bytes : ℕ
model_hash_bytes = 32

abbrev pub header_bytes : ℕ
header_bytes = 56

-- The `size` bytes of `value`, the lowest first.
pub write_le : ℕ → ℕ → Bytes
write_le zero value = []
write_le (suc size) value = (value % 2 ^ 8) ∷ write_le size (value / 2 ^ 8)

-- The value and what is left of the input.
pub read_le : ℕ → Bytes → Result (ℕ × Bytes)
read_le zero input = ok (0, input)
read_le (suc size) [] = err runtime_error
read_le (suc size) (character ∷ input) = do
  above ← read_le size input
  ok (character + above.0 * 2 ^ 8, above.1)

pub zeros : ℕ → Bytes
zeros zero = []
zeros (suc n) = 0 ∷ zeros n

pub encode_hash : Bytes → Result Bytes
encode_hash hash = do
  throw_if (ltb model_hash_bytes (length hash)) invalid_argument
  ok (hash ++ zeros (model_hash_bytes - length hash))

-- What stands before the first zero.
pub decode_hash : Bytes → Bytes
decode_hash [] = []
decode_hash (b ∷ bytes) = if b == 0 then [] else b ∷ decode_hash bytes

pub write_values : List ℕ → Bytes
write_values [] = []
write_values (v ∷ values) = write_le 4 v ++ write_values values

pub write_records : ℕ → List StoredVector → Result Bytes
write_records dimension [] = ok []
write_records dimension (r ∷ records) = do
  throw_if (not (length r.values == dimension)) invalid_argument
  rest ← write_records dimension records
  ok (write_le 8 r.chunk_id ++ write_values r.values ++ rest)

-- What `write_atomic` puts into the stream.
pub encode : VectorFileMetadata → List StoredVector → Result Bytes
encode metadata records = do
  hash ← encode_hash metadata.model_hash
  body ← write_records metadata.dimension records
  ok (
      magic
      ++ write_le 4 version
      ++ write_le 4 metadata.dimension
      ++ write_le 8 (length records)
      ++ hash
      ++ body)

abbrev pub record_bytes : ℕ → ℕ
record_bytes dimension = (8 + dimension * 4) % 2 ^ 64

abbrev pub size_overflows : ℕ → ℕ → Bool
size_overflows dimension count =
    ltb (record_bytes dimension) 8
    || ltb ((2 ^ 64 - 1 - header_bytes) / record_bytes dimension) count

-- The files by their paths.
abbrev pub Disk : Type 0
Disk = Bytes → Option Bytes

pub put : Bytes → Option Bytes → Disk → Disk
put path content disk other = if bytes_eq other path then content else disk other

-- What the system does in a run; `partial_output` is what of the output has reached the temporary file
-- where the run is broken off.
pub record System : Type 0 where
  pub parent_path : Bytes → Bytes
  pub creates_directories : Bytes → Bool
  pub can_open : Bool
  pub can_flush : Bool
  pub can_sync : Bool
  pub can_rename : Bool
  pub partial_output : Bytes

abbrev pub temporary : Bytes → Bytes
temporary path = path ++ codes ".tmp"

-- From the open temporary file on.
pub write_out : System → Disk → Bytes → Result Bytes → Result (Unit {0}) × Disk
write_out system disk path (err e) = (err e, put (temporary path) (some system.partial_output) disk)
write_out system disk path (ok content) =
    let written = put (temporary path) (some content) disk in
    if not system.can_flush
    then (err runtime_error, put (temporary path) (some system.partial_output) disk)
    else if not system.can_sync
    then (err runtime_error, written)
    else if not system.can_rename
    then (err runtime_error, written)
    else (ok tt, put path (some content) (put (temporary path) none written))

pub write_atomic :
    System → Disk → Bytes → VectorFileMetadata → List StoredVector → Result (Unit {0}) × Disk
write_atomic system disk path metadata records =
    if metadata.dimension == 0 || is_empty metadata.model_hash
    then (err invalid_argument, disk)
    else if size_overflows metadata.dimension (length records)
    then (err overflow_error, disk)
    else if not (system.creates_directories (system.parent_path path))
    then (err runtime_error, disk)
    else if not system.can_open
    then (err runtime_error, disk)
    else write_out system disk path (encode metadata records)

pub read_values : ℕ → Bytes → Result (List ℕ × Bytes)
read_values zero input = ok ([], input)
read_values (suc count) input = do
  value ← read_le 4 input
  rest ← read_values count value.1
  ok (value.0 ∷ rest.0, rest.1)

pub read_records : ℕ → ℕ → Bytes → Result (List StoredVector)
read_records dimension zero input = ok []
read_records dimension (suc count) input = do
  id ← read_le 8 input
  values ← read_values dimension id.1
  rest ← read_records dimension count values.1
  ok (record { chunk_id = id.0; values = values.0 } ∷ rest)

-- From the bytes behind the magic on; `file_size` is that of the whole file.
pub read_header : ℕ → Bytes → Result (VectorFileMetadata × List StoredVector)
read_header file_size input = do
  read_version ← read_le 4 input
  throw_if (not (read_version.0 == version)) runtime_error
  dimension ← read_le 4 read_version.1
  count ← read_le 8 dimension.1
  let hash = take model_hash_bytes count.1
  let body = drop model_hash_bytes count.1
  throw_if (ltb (length count.1) model_hash_bytes || dimension.0 == 0) runtime_error
  throw_if
      (size_overflows dimension.0 count.0
        || not ((header_bytes + count.0 * record_bytes dimension.0) % 2 ^ 64 == file_size))
      runtime_error
  records ← read_records dimension.0 count.0 body
  ok (record { dimension = dimension.0; model_hash = decode_hash hash }, records)

-- A missing file makes `std::filesystem::file_size` throw.
pub read : Disk → Bytes → Result (VectorFileMetadata × List StoredVector)
read disk path = elim (disk path) [
  | none ↦ err runtime_error
  | some content ↦ do
    throw_if (ltb (length content) header_bytes) runtime_error
    throw_if (not (bytes_eq (take 8 content) magic)) runtime_error
    read_header (length content) (drop 8 content)
]
