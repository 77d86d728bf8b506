-- ===== src/Ssm/Parse.antt =====
-- Reading the header and an `SSMIndex` object of crates/casacure/src/ssm.rs: the head of
-- `parse_meta`, `read_index_object` and its blocks.
use casacure.Prelude.{ℕ, Bool, true, false, ◌&&◌, not, List, leb, ◌==◌, if◌then◌else◌}
use casacure.Bytes.{codes, bytes_eq}
use casacure.Aipsio.{ObjectStart}
use casacure.Aipsio.Block.{read_elements}
use casacure.Aipsio.Reader.{
  Read, pure, raise, lift, repeat, ◌>>=◌, ◌>>◌, read_u32, read_i32, read_u64, read_bool,
  read_object_start,
}
use casacure.Ssm.{
  SsmError, aips_io, unexpected_type, endian_mismatch, StandardStManHeader, SsmIndex,
}

-- `!=` on flags.
abbrev pub differ : Bool → Bool → Bool
differ true b = not b
differ false b = b

unfoldable pub expect_type : List ℕ → ObjectStart → Read SsmError (Unit {0})
expect_type expected obj =
    if bytes_eq obj.type_name expected
    then pure tt
    else raise (unexpected_type expected obj.type_name)

unfoldable pub read_endian_flag : ℕ → Read SsmError Bool
read_endian_flag version = if leb 3 version then lift aips_io read_bool else pure true

unfoldable pub check_endian : ℕ → Bool → Bool → Read SsmError (Unit {0})
check_endian version flag expected =
    if leb 3 version && differ flag expected then raise (endian_mismatch flag expected) else pure tt

unfoldable pub read_header : Bool → Read SsmError StandardStManHeader
read_header big = do
  obj ← lift aips_io (read_object_start true)
  expect_type (codes "StandardStMan") obj
  flag ← read_endian_flag obj.version
  check_endian obj.version flag big
  bucket_size ← lift aips_io read_u32
  nr_buckets ← lift aips_io read_u32
  pers_cache_size ← lift aips_io read_u32
  n_free_bucket ← lift aips_io read_u32
  first_free_bucket ← lift aips_io read_i32
  nr_index_buckets ← lift aips_io read_u32
  first_index_bucket ← lift aips_io read_i32
  index_bucket_offset ← lift aips_io read_i32
  last_string_bucket ← lift aips_io read_i32
  index_length ← lift aips_io read_u32
  nr_index ← lift aips_io read_u32
  pure (record {
    version = obj.version;
    big_endian = big;
    bucket_size = bucket_size;
    nr_buckets = nr_buckets;
    pers_cache_size = pers_cache_size;
    n_free_bucket = n_free_bucket;
    first_free_bucket = first_free_bucket;
    nr_index_buckets = nr_index_buckets;
    first_index_bucket = first_index_bucket;
    index_bucket_offset = index_bucket_offset;
    last_string_bucket = last_string_bucket;
    index_length = index_length;
    nr_index = nr_index;
  })

unfoldable pub read_last_row : ℕ → Read SsmError ℕ
read_last_row version = if version == 1 then lift aips_io read_u32 else lift aips_io read_u64

unfoldable pub read_u32_or_u64_block : ℕ → Read SsmError (List ℕ)
read_u32_or_u64_block version = do
  block ← lift aips_io (read_object_start false)
  expect_type (codes "Block") block
  read_elements aips_io (read_last_row version)

unfoldable pub read_u32_block : Read SsmError (List ℕ)
read_u32_block = do
  block ← lift aips_io (read_object_start false)
  expect_type (codes "Block") block
  read_elements aips_io (lift aips_io read_u32)

-- A key and a value of the free-space map.
unfoldable pub read_pair : Read SsmError (Unit {0})
read_pair = do lift aips_io read_i32; lift aips_io read_i32; pure tt

unfoldable pub read_index_object : Read SsmError SsmIndex
read_index_object = do
  obj ← lift aips_io (read_object_start true)
  expect_type (codes "SSMIndex") obj
  n_used ← lift aips_io read_u32
  rows_per_bucket ← lift aips_io read_u32
  nr_columns ← lift aips_io read_i32
  map ← lift aips_io (read_object_start false)
  expect_type (codes "SimpleOrderedMap") map
  default_value ← lift aips_io read_i32
  n_free ← lift aips_io read_u32
  incr ← lift aips_io read_u32
  repeat n_free read_pair
  last_row ← read_u32_or_u64_block obj.version
  bucket_number ← read_u32_block
  pure (record {
    rows_per_bucket = rows_per_bucket;
    nr_columns = nr_columns;
    last_row = last_row;
    bucket_number = bucket_number;
  })
