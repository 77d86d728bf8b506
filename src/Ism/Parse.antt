-- ===== src/Ism/Parse.antt =====
-- Reading the header and the `ISMIndex` of crates/casacure/src/ism.rs: `parse_meta` and
-- `read_index_bytes`.
use casacure.Prelude.{
  ℕ, ◌+◌, ◌*◌, Bool, true, false, not, ◌&&◌, List, Option, none, some, ltb, leb, if◌then◌else◌,
  length, take, drop,
}
use casacure.Result.{Result, ok, err, ◌>>=◌ as and_then}
use casacure.Bytes.{codes, bytes_eq}
use casacure.Aipsio.{ObjectStart}
use casacure.Aipsio.Block.{read_elements}
use casacure.Aipsio.Reader.{
  Read, new, reader_for, read_string, pure, raise, lift, ◌>>=◌, ◌>>◌, read_u32, read_i32, read_u64,
  read_bool, read_object_start, read_object,
}
use casacure.Ism.{
  IsmError, aips_io, unexpected_type, endian_mismatch, panicked, IsmHeader, IsmIndex, data_start,
}

-- `!=` on flags.
abbrev pub differ : Bool → Bool → Bool
differ true b = not b
differ false b = b

-- An object of the type that is asked for, or `UnexpectedType`.
unfoldable pub expect_type : List ℕ → ObjectStart → Read IsmError (Unit {0})
expect_type expected obj =
    if bytes_eq obj.type_name expected
    then pure tt
    else raise (unexpected_type expected obj.type_name)

unfoldable pub read_endian_flag : ℕ → Read IsmError Bool
read_endian_flag version = if leb 5 version then lift aips_io read_bool else pure true

unfoldable pub check_endian : ℕ → Bool → Bool → Read IsmError (Unit {0})
check_endian version flag expected =
    if leb 5 version && differ flag expected then raise (endian_mismatch flag expected) else pure tt

unfoldable pub read_header : Bool → Read IsmError IsmHeader
read_header big = do
  obj ← lift aips_io (read_object_start true)
  expect_type (codes "IncrementalStMan") obj
  flag ← read_endian_flag obj.version
  check_endian obj.version flag big
  bucket_size ← lift aips_io read_u32
  nbucket ← lift aips_io read_u32
  pers_cache_size ← lift aips_io read_u32
  uniq_nr ← lift aips_io read_u32
  n_free_bucket ← lift aips_io read_u32
  first_free_bucket ← lift aips_io read_i32
  pure (record {
    version = obj.version;
    big_endian = big;
    bucket_size = bucket_size;
    nbucket = nbucket;
    pers_cache_size = pers_cache_size;
    uniq_nr = uniq_nr;
    n_free_bucket = n_free_bucket;
    first_free_bucket = first_free_bucket;
  })

unfoldable pub read_row : ℕ → Read IsmError ℕ
read_row version = if ltb 1 version then lift aips_io read_u64 else lift aips_io read_u32

unfoldable pub read_index : Read IsmError IsmIndex
read_index = do
  obj ← lift aips_io (read_object true (codes "ISMIndex"))
  nused ← lift aips_io read_u32
  rows_block ← lift aips_io (read_object_start false)
  expect_type (codes "Block") rows_block
  rows ← read_elements aips_io (read_row obj.0)
  numbers_block ← lift aips_io (read_object_start false)
  expect_type (codes "Block") numbers_block
  numbers ← read_elements aips_io (lift aips_io read_u32)
  pure (record { rows = rows; bucket_numbers = take nused numbers })

-- `&data[off..]` panics where the file ends before the index.
unfoldable pub read_index_bytes : List ℕ → IsmHeader → Bool → Result IsmError IsmIndex
read_index_bytes bytes header big =
    let off = data_start + header.nbucket * header.bucket_size in
    if ltb (length bytes) off
    then err panicked
    else (read_index (reader_for big (drop off bytes))).0

unfoldable pub parse_meta : List ℕ → Bool → Result IsmError (IsmHeader × IsmIndex)
parse_meta bytes big =
    and_then (read_header big (reader_for big bytes)).0
      (λ header. and_then (read_index_bytes bytes header big) (λ index. ok (header, index)))

unfoldable pub read_name : Read IsmError (List ℕ)
read_name = do
  obj ← lift aips_io (read_object_start true)
  expect_type (codes "ISM") obj
  lift aips_io read_string

-- `ok()`: any failure is `None`.
unfoldable pub parse_ism_name : List ℕ → Option (List ℕ)
parse_ism_name blob = elim (read_name (new blob)).0 [ ok name ↦ some name | err e ↦ none ]
