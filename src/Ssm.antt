-- ===== src/Ssm.antt =====
-- crates/casacure/src/ssm.rs: the data of a StandardStMan file. `Index` finds the bucket of a row,
-- `Layout` places the columns in a bucket and `Cells` the cell of a row, `Parse` and `Encode` are the
-- header and the index on disk, `Chain` the index buckets, `Strings` the content of string array cells.
pub mod Index
pub mod Layout
pub mod Parse
pub mod Encode
pub mod RoundTrip
pub mod Strings
pub mod Cells
pub mod Chain
use casacure.Prelude.{ℕ, Bool, List}
use casacure.Prelude.Int.{ℤ}
use casacure.Aipsio.{AipsIoError}

-- Bytes before the first bucket.
abbrev pub data_start : ℕ
data_start = 512

pub data SsmError : Type 0 where
  aips_io : AipsIoError → SsmError
  unexpected_type : (expected found : List ℕ) → SsmError
  endian_mismatch : (flag expected : Bool) → SsmError
  invalid_bucket : (bucket : ℕ) → SsmError
  index_missing : (index count : ℕ) → SsmError
  row_out_of_range : (row : ℕ) → SsmError
  cell_out_of_range : (bucket offset len : ℕ) → SsmError
  unsupported_array_type : SsmError
  bad_string_ref : (bucket offset : ℤ) (length : ℕ) → SsmError
  fixed_string_count_mismatch : (expected got : ℕ) → SsmError
  -- An index or an arithmetic operation out of range: the code panics.
  panicked : SsmError

pub record StandardStManHeader : Type 0 where
  pub version : ℕ
  pub big_endian : Bool
  pub bucket_size : ℕ
  pub nr_buckets : ℕ
  pub pers_cache_size : ℕ
  pub n_free_bucket : ℕ
  pub first_free_bucket : ℤ
  pub nr_index_buckets : ℕ
  pub first_index_bucket : ℤ
  pub index_bucket_offset : ℤ
  pub last_string_bucket : ℤ
  pub index_length : ℕ
  pub nr_index : ℕ

-- `last_row` are the last rows of the used buckets, `bucket_number` the buckets.
pub record SsmIndex : Type 0 where
  pub rows_per_bucket : ℕ
  pub nr_columns : ℤ
  pub last_row : List ℕ
  pub bucket_number : List ℕ

pub record IndexedBucket : Type 0 where
  pub number : ℕ
  pub start_row : ℕ
  pub end_row : ℕ
