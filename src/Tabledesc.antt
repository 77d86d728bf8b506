-- ===== src/Tabledesc.antt =====
-- crates/casacure/src/tabledesc.rs: the descriptions of tables and columns that `table.dat` holds.
pub mod Parse
pub mod Write
pub mod Contents
pub mod Kinds
pub mod Written
pub mod RoundTrip
use casacure.Prelude.{ℕ, List, Option, Bool, true, false, ◌++◌, ◌-◌, length, take, replicate}
use casacure.Prelude.Int.{ℤ, pos}
use casacure.Bytes.{codes, bytes_eq}
use casacure.Aipsio.{AipsIoError}
use casacure.Records.{
  DataType, RecordError, bool_type, char, u_char, short, u_short, int, u_int, float, double,
  complex, d_complex, string, table, record_type, int64, array_int64,
}
use casacure.Records.Values.{RecordValue, TableRecord, Fault}
use casacure.Records.Values

pub data TableDescError : Type 0 where
  aips_io : AipsIoError → TableDescError
  of_record : RecordError → TableDescError
  unexpected_type : (expected found : List ℕ) → TableDescError
  unknown_column_class : List ℕ → TableDescError

-- What ends a call without a value: an error, a panic, or fuel that ran out.
pub data DescFault : Type 0 where
  failed : TableDescError → DescFault
  panicked : DescFault
  out_of_fuel : DescFault

abbrev pub from_fault : Fault → DescFault
from_fault (Values.failed e) = failed (of_record e)
from_fault Values.panicked = panicked
from_fault Values.out_of_fuel = out_of_fuel

pub data ColumnKind : Type 0 where
  scalar : RecordValue → ColumnKind
  array : ColumnKind
  of_records : ColumnKind

pub record ColumnDesc : Type 0 where
  pub name : List ℕ
  pub comment : List ℕ
  pub data_type : DataType
  pub data_manager_type : List ℕ
  pub data_manager_group : List ℕ
  pub options : ℤ
  pub ndim : ℤ
  pub shape : Option (List ℤ)
  pub max_length : ℤ
  pub keywords : TableRecord
  pub kind : ColumnKind
  pub tile_shape : Option (List ℤ)

pub record TableDesc : Type 0 where
  pub name : List ℕ
  pub version : List ℕ
  pub comment : List ℕ
  pub keywords : TableRecord
  pub private_keywords : TableRecord
  pub columns : List ColumnDesc

unfoldable pub starts_with : List ℕ → List ℕ → Bool
starts_with prefix s = bytes_eq (take (length prefix) s) prefix

-- `format!("{id:8}")`
unfoldable pub pad8 : List ℕ → List ℕ
pad8 s = s ++ replicate (8 - length s) 32

unfoldable pub data_type_id : DataType → List ℕ
unfolding pad8
data_type_id bool_type = pad8 (codes "Bool")
data_type_id char = pad8 (codes "uChar")
data_type_id u_char = pad8 (codes "uChar")
data_type_id short = pad8 (codes "Short")
data_type_id u_short = pad8 (codes "uShort")
data_type_id int = pad8 (codes "Int")
data_type_id u_int = pad8 (codes "uInt")
data_type_id int64 = pad8 (codes "Int64")
data_type_id float = pad8 (codes "float")
data_type_id double = pad8 (codes "double")
data_type_id complex = pad8 (codes "Complex")
data_type_id d_complex = pad8 (codes "DComplex")
data_type_id string = pad8 (codes "String")
data_type_id dt = pad8 (codes "Other")

unfoldable pub is_record_type : DataType → Bool
is_record_type record_type = true
is_record_type dt = false

-- `data_type_code` of this file: array types but one are written as 13.
unfoldable pub column_type_code : DataType → ℤ
column_type_code bool_type = pos 0
column_type_code char = pos 1
column_type_code u_char = pos 2
column_type_code short = pos 3
column_type_code u_short = pos 4
column_type_code int = pos 5
column_type_code u_int = pos 6
column_type_code float = pos 7
column_type_code double = pos 8
column_type_code complex = pos 9
column_type_code d_complex = pos 10
column_type_code string = pos 11
column_type_code table = pos 12
column_type_code record_type = pos 25
column_type_code int64 = pos 29
column_type_code array_int64 = pos 30
column_type_code dt = pos 13
