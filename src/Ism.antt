-- ===== src/Ism.antt =====
-- crates/casacure/src/ism.rs: the data of an IncrementalStMan file. `Index` finds the bucket of a
-- row, `Parse` and `Encode` are the header, the index and the name blob on disk.
pub mod Index
pub mod Parse
pub mod Encode
pub mod Bucket
pub mod File
pub mod RoundTrip
use casacure.Prelude.{ℕ, Bool, List}
use casacure.Prelude.Int.{ℤ}
use casacure.Aipsio.{AipsIoError}

-- Bytes before the first bucket.
abbrev pub data_start : ℕ
data_start = 512

abbrev pub ism_bucket_size : ℕ
ism_bucket_size = 32768

pub data IsmError : Type 0 where
  aips_io : AipsIoError → IsmError
  unexpected_type : (expected found : List ℕ) → IsmError
  endian_mismatch : (flag expected : Bool) → IsmError
  row_out_of_range : (row : ℕ) → IsmError
  invalid_bucket : (bucket count : ℕ) → IsmError
  column_empty : (column row : ℕ) → IsmError
  string_unsupported : IsmError
  -- A slice or an index outside the file: the code panics.
  panicked : IsmError
  -- More rounds of a loop than the model makes.
  out_of_fuel : IsmError

pub record IsmHeader : Type 0 where
  pub version : ℕ
  pub big_endian : Bool
  pub bucket_size : ℕ
  pub nbucket : ℕ
  pub pers_cache_size : ℕ
  pub uniq_nr : ℕ
  pub n_free_bucket : ℕ
  pub first_free_bucket : ℤ

-- `rows` are the boundaries of the buckets' row ranges, one more than there are buckets.
pub record IsmIndex : Type 0 where
  pub rows : List ℕ
  pub bucket_numbers : List ℕ
