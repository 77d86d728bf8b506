-- ===== src/Records.antt =====
-- crates/casacure/src/record.rs: the data types with their codes on disk and the types of the
-- elements; the child modules have the records.
pub mod Codes
pub mod Values
pub mod Bits
pub mod Arrays
pub mod Scalars
pub mod Read
pub mod Write
pub mod Attempts
pub mod Iposition
pub mod Descs
pub mod Contents
pub mod RoundTrip
pub mod Progress
pub mod Set
pub mod SetLaws
pub mod RemoveLaws
use casacure.Prelude.{
  ℕ, ◌==◌, Bool, true, false, List, [], ◌∷◌, ◌≡◌, refl, get_elem?, Option, none, some,
}
use casacure.Prelude.Int.{ℤ, pos, negsuc}
use casacure.Result.{Result, ok, err}
use casacure.Aipsio.{AipsIoError}

pub data DataType : Type 0 where
  bool_type char u_char short u_short int u_int float double complex d_complex : DataType
  string table record_type : DataType
  array_bool array_char array_u_char array_short array_u_short array_int array_u_int : DataType
  array_float array_double array_complex array_d_complex array_string : DataType
  other quantity array_quantity int64 array_int64 : DataType

pub data RecordError : Type 0 where
  aips_io : AipsIoError → RecordError
  unknown_data_type : ℤ → RecordError
  legacy_keyword_set : List ℕ → RecordError

-- The arms of the `match`, from code 0 on.
abbrev arms : List DataType
arms =
    bool_type ∷ char ∷ u_char ∷ short ∷ u_short ∷ int ∷ u_int ∷ float ∷ double ∷ complex ∷ d_complex
    ∷ string ∷ table ∷ array_bool ∷ array_char ∷ array_u_char ∷ array_short ∷ array_u_short
    ∷ array_int ∷ array_u_int ∷ array_float ∷ array_double ∷ array_complex ∷ array_d_complex
    ∷ array_string ∷ record_type ∷ other ∷ quantity ∷ array_quantity ∷ int64 ∷ array_int64 ∷ []

abbrev arm : ℤ → Option DataType → Result RecordError DataType
arm v (some t) = ok t
arm v none = err (unknown_data_type v)

-- `DataType::from_i32`
unfoldable pub from_i32 : ℤ → Result RecordError DataType
from_i32 (pos v) = arm (pos v) (get_elem? arms v)
from_i32 (negsuc v) = err (unknown_data_type (negsuc v))

unfoldable pub data_type_code : DataType → ℤ
data_type_code bool_type = pos 0
data_type_code char = pos 1
data_type_code u_char = pos 2
data_type_code short = pos 3
data_type_code u_short = pos 4
data_type_code int = pos 5
data_type_code u_int = pos 6
data_type_code float = pos 7
data_type_code double = pos 8
data_type_code complex = pos 9
data_type_code d_complex = pos 10
data_type_code string = pos 11
data_type_code table = pos 12
data_type_code array_bool = pos 13
data_type_code array_char = pos 14
data_type_code array_u_char = pos 15
data_type_code array_short = pos 16
data_type_code array_u_short = pos 17
data_type_code array_int = pos 18
data_type_code array_u_int = pos 19
data_type_code array_float = pos 20
data_type_code array_double = pos 21
data_type_code array_complex = pos 22
data_type_code array_d_complex = pos 23
data_type_code array_string = pos 24
data_type_code record_type = pos 25
data_type_code other = pos 26
data_type_code quantity = pos 27
data_type_code array_quantity = pos 28
data_type_code int64 = pos 29
data_type_code array_int64 = pos 30

unfoldable pub element_type : DataType → DataType
element_type bool_type = bool_type
element_type char = char
element_type u_char = u_char
element_type short = short
element_type u_short = u_short
element_type int = int
element_type u_int = u_int
element_type float = float
element_type double = double
element_type complex = complex
element_type d_complex = d_complex
element_type string = string
element_type table = table
element_type array_bool = bool_type
element_type array_char = char
element_type array_u_char = u_char
element_type array_short = short
element_type array_u_short = u_short
element_type array_int = int
element_type array_u_int = u_int
element_type array_float = float
element_type array_double = double
element_type array_complex = complex
element_type array_d_complex = d_complex
element_type array_string = string
element_type record_type = record_type
element_type other = other
element_type quantity = quantity
element_type array_quantity = array_quantity
element_type int64 = int64
element_type array_int64 = int64

unfoldable pub is_array : DataType → Bool
is_array bool_type = false
is_array char = false
is_array u_char = false
is_array short = false
is_array u_short = false
is_array int = false
is_array u_int = false
is_array float = false
is_array double = false
is_array complex = false
is_array d_complex = false
is_array string = false
is_array table = false
is_array array_bool = true
is_array array_char = true
is_array array_u_char = true
is_array array_short = true
is_array array_u_short = true
is_array array_int = true
is_array array_u_int = true
is_array array_float = true
is_array array_double = true
is_array array_complex = true
is_array array_d_complex = true
is_array array_string = true
is_array record_type = false
is_array other = false
is_array quantity = false
is_array array_quantity = true
is_array int64 = false
is_array array_int64 = true
