-- ===== src/Columnset.antt =====
-- crates/casacure/src/columnset.rs: the data managers of a table and the columns that each stores.
pub mod Parse
pub mod Write
pub mod Blob
pub mod Written
pub mod RoundTrip
use casacure.Prelude.{ℕ, List, Option}
use casacure.Prelude.Int.{ℤ}
use casacure.Aipsio.{AipsIoError}

pub data ColumnSetError : Type 0 where
  aips_io : AipsIoError → ColumnSetError
  unexpected_type : (expected found : List ℕ) → ColumnSetError
  unsupported_column_version : ℕ → ColumnSetError
  unexpected_blob_type : (type_name found : List ℕ) → ColumnSetError

pub record ColumnInfo : Type 0 where
  pub original_name : List ℕ
  pub data_manager_seq : ℕ
  pub shape : Option (List ℤ)

pub record StandardStMan : Type 0 where
  pub data_manager_name : List ℕ
  pub column_offset : List ℕ
  pub col_index_map : List ℕ

pub data DataManagerBlob : Type 0 where
  standard_st_man : StandardStMan → DataManagerBlob
  unsupported : List ℕ → DataManagerBlob

pub record DataManager : Type 0 where
  pub type_name : List ℕ
  pub sequence_nr : ℕ
  pub blob : DataManagerBlob

pub record ColumnSet : Type 0 where
  pub version : ℕ
  pub nrow : ℕ
  pub storage_option : Option (ℤ × ℤ)
  pub seq_count : ℕ
  pub data_managers : List DataManager
  pub columns : List ColumnInfo

-- A data manager with its blob in bytes.
pub record DmBlob : Type 0 where
  pub type_name : List ℕ
  pub sequence_nr : ℕ
  pub blob : List ℕ
