-- ===== src/Types.antt =====
-- crates/casacure/src/types.rs: the column value types and their names. A text is its bytes.
pub mod Names
use casacure.Prelude.{
  ℕ, ◌-◌, Bool, ◌&&◌, ◌||◌, List, [], ◌∷◌, map, Option, none, some, leb, if◌then◌else◌,
}
use casacure.Result.{Result, ok, err}
use casacure.Bytes.{codes, bytes_eq}

pub data ValueType : Type 0 where
  bool_type byte short u_short int u_int int64 float double complex d_complex : ValueType
  string record_type : ValueType

pub data UnknownValueType : Type 0 where
  unknown : List ℕ → UnknownValueType

-- `ValueType::ALL`
unfoldable pub all : List ValueType
all =
    bool_type ∷ byte ∷ short ∷ u_short ∷ int ∷ u_int ∷ int64 ∷ float ∷ double ∷ complex ∷ d_complex
    ∷ string ∷ record_type ∷ []

-- The canonical name.
unfoldable pub casa_name : ValueType → List ℕ
casa_name bool_type = codes "BOOL"
casa_name byte = codes "BYTE"
casa_name short = codes "SHORT"
casa_name u_short = codes "USHORT"
casa_name int = codes "INT"
casa_name u_int = codes "UINT"
casa_name int64 = codes "INT64"
casa_name float = codes "FLOAT"
casa_name double = codes "DOUBLE"
casa_name complex = codes "COMPLEX"
casa_name d_complex = codes "DCOMPLEX"
casa_name string = codes "STRING"
casa_name record_type = codes "RECORD"

-- The name in `table.dat`.
unfoldable pub table_dat_name : ValueType → List ℕ
table_dat_name bool_type = codes "Bool"
table_dat_name byte = codes "uChar"
table_dat_name short = codes "Short"
table_dat_name u_short = codes "uShort"
table_dat_name int = codes "Int"
table_dat_name u_int = codes "uInt"
table_dat_name int64 = codes "Int64"
table_dat_name float = codes "float"
table_dat_name double = codes "double"
table_dat_name complex = codes "Complex"
table_dat_name d_complex = codes "DComplex"
table_dat_name string = codes "String"
table_dat_name record_type = codes "Record"

-- The numpy type name.
unfoldable pub numpy_name : ValueType → List ℕ
numpy_name bool_type = codes "bool"
numpy_name byte = codes "uint8"
numpy_name short = codes "int16"
numpy_name u_short = codes "uint16"
numpy_name int = codes "int32"
numpy_name u_int = codes "uint32"
numpy_name int64 = codes "int64"
numpy_name float = codes "float32"
numpy_name double = codes "float64"
numpy_name complex = codes "complex64"
numpy_name d_complex = codes "complex128"
numpy_name string = codes "object"
numpy_name record_type = codes "record"

-- Bytes of an element; none for the types of variable size.
unfoldable pub element_size : ValueType → Option ℕ
element_size bool_type = some 1
element_size byte = some 1
element_size short = some 2
element_size u_short = some 2
element_size int = some 4
element_size u_int = some 4
element_size int64 = some 8
element_size float = some 4
element_size double = some 8
element_size complex = some 8
element_size d_complex = some 16
element_size string = none
element_size record_type = none

-- `to_ascii_uppercase` of a byte.
unfoldable pub to_upper : ℕ → ℕ
to_upper c = if leb 97 c && leb c 122 then c - 32 else c

unfoldable pub of_upper : List ℕ → Option ValueType
of_upper s =
    if bytes_eq s (codes "BOOL") || bytes_eq s (codes "BOOLEAN")
    then some bool_type
    else if bytes_eq s (codes "BYTE") || bytes_eq s (codes "UCHAR")
    then some byte
    else if bytes_eq s (codes "SHORT") || bytes_eq s (codes "SMALLINT")
    then some short
    else if bytes_eq s (codes "USHORT") || bytes_eq s (codes "USMALLINT")
    then some u_short
    else if bytes_eq s (codes "INT") || bytes_eq s (codes "INTEGER")
    then some int
    else if bytes_eq s (codes "UINT") || bytes_eq s (codes "UINTEGER")
    then some u_int
    else if bytes_eq s (codes "INT64")
    then some int64
    else if bytes_eq s (codes "FLOAT")
    then some float
    else if bytes_eq s (codes "DOUBLE")
    then some double
    else if bytes_eq s (codes "FCOMPLEX") || bytes_eq s (codes "COMPLEX")
    then some complex
    else if bytes_eq s (codes "DCOMPLEX")
    then some d_complex
    else if bytes_eq s (codes "STRING")
    then some string
    else if bytes_eq s (codes "RECORD")
    then some record_type
    else none

abbrev pub or_unknown : List ℕ → Option ValueType → Result UnknownValueType ValueType
or_unknown name none = err (unknown name)
or_unknown name (some v) = ok v

unfoldable pub from_casa_name : List ℕ → Result UnknownValueType ValueType
from_casa_name name = or_unknown name (of_upper (map to_upper name))
