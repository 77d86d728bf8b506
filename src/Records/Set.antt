-- ===== src/Records/Set.antt =====
-- `TableRecord::set` and `TableRecord::remove` of crates/casacure/src/record.rs, and what `get` finds
-- after them. `none` is a panic: an index past the end of the values.
use casacure.Prelude.{ℕ, zero, suc, List, [], Option, none, some}
use mathlib.Core.Option
use casacure.Records.{
  DataType, bool_type, u_char, short, u_short, int, u_int, float, double, complex, d_complex,
  string, table, record_type, array_bool, array_u_char, array_short, array_u_short, array_int,
  array_u_int, array_float, array_double, array_complex, array_d_complex, array_string, int64,
  array_int64,
}
use casacure.Records.Values.{
  ArrayData, RecordDescField, field, SubDesc, no_desc, sub_desc, RecordDesc, no_fields, with_field,
  RecordValue, TableRecord, table_record, Values, no_values, with_value,
}
use casacure.Records.Write.{position, or_sub}

unfoldable pub infer_array_type : ArrayData → DataType
infer_array_type (ArrayData.bool v) = array_bool
infer_array_type (ArrayData.u_char v) = array_u_char
infer_array_type (ArrayData.short v) = array_short
infer_array_type (ArrayData.u_short v) = array_u_short
infer_array_type (ArrayData.int v) = array_int
infer_array_type (ArrayData.u_int v) = array_u_int
infer_array_type (ArrayData.int64 v) = array_int64
infer_array_type (ArrayData.float v) = array_float
infer_array_type (ArrayData.double v) = array_double
infer_array_type (ArrayData.complex v) = array_complex
infer_array_type (ArrayData.d_complex v) = array_d_complex
infer_array_type (ArrayData.string v) = array_string

unfoldable pub infer_data_type : RecordValue → DataType
unfolding infer_array_type
infer_data_type (RecordValue.bool b) = bool_type
infer_data_type (RecordValue.u_char v) = u_char
infer_data_type (RecordValue.short v) = short
infer_data_type (RecordValue.u_short v) = u_short
infer_data_type (RecordValue.int v) = int
infer_data_type (RecordValue.u_int v) = u_int
infer_data_type (RecordValue.int64 v) = int64
infer_data_type (RecordValue.float v) = float
infer_data_type (RecordValue.double v) = double
infer_data_type (RecordValue.complex re im) = complex
infer_data_type (RecordValue.d_complex re im) = d_complex
infer_data_type (RecordValue.string s) = string
infer_data_type (RecordValue.table s) = table
infer_data_type (RecordValue.nested r) = record_type
infer_data_type (RecordValue.array a) = infer_array_type a.contents

-- The description of a value that is a record.
unfoldable pub desc_in : RecordValue → SubDesc
desc_in (RecordValue.nested (table_record d t vs)) = sub_desc d
desc_in v = no_desc

-- A field with the type of a new value.
unfoldable pub retyped : RecordValue → RecordDescField → RecordDescField
unfolding infer_data_type desc_in or_sub
retyped v (field n dt s h t c) = field n (infer_data_type v) (or_sub s (desc_in v)) h t c

unfoldable pub new_field : List ℕ → RecordValue → RecordDescField
unfolding infer_data_type desc_in
new_field name v = field name (infer_data_type v) (desc_in v) none none []

unfoldable pub retype_at : RecordValue → RecordDesc → ℕ → RecordDesc
unfolding retyped
retype_at v no_fields i = no_fields
retype_at v (with_field f fs) zero = with_field (retyped v f) fs
retype_at v (with_field f fs) (suc i) = with_field f (retype_at v fs i)

unfoldable pub replace_at : RecordValue → Values → ℕ → Option Values
replace_at v no_values i = none
replace_at v (with_value w vs) zero = some (with_value v vs)
replace_at v (with_value w vs) (suc i) = Option.map (with_value w) (replace_at v vs i)

unfoldable pub push_field : RecordDesc → RecordDescField → RecordDesc
push_field no_fields g = with_field g no_fields
push_field (with_field f fs) g = with_field f (push_field fs g)

unfoldable pub push_value : Values → RecordValue → Values
push_value no_values w = with_value w no_values
push_value (with_value v vs) w = with_value v (push_value vs w)

-- The two branches of `set`, by the place of the name.
unfoldable pub set_at : List ℕ → RecordValue → TableRecord → Option ℕ → Option TableRecord
unfolding retype_at replace_at push_field push_value new_field
set_at name v (table_record d t vs) (some i) =
    Option.map (table_record (retype_at v d i) t) (replace_at v vs i)
set_at name v (table_record d t vs) none =
    some (table_record (push_field d (new_field name v)) t (push_value vs v))

unfoldable pub place : List ℕ → TableRecord → Option ℕ
unfolding position
place name (table_record d t vs) = position name d

-- `TableRecord::set`
unfoldable pub set : List ℕ → RecordValue → TableRecord → Option TableRecord
unfolding set_at place
set name v r = set_at name v r (place name r)

unfoldable pub remove_field_at : RecordDesc → ℕ → RecordDesc
remove_field_at no_fields i = no_fields
remove_field_at (with_field f fs) zero = fs
remove_field_at (with_field f fs) (suc i) = with_field f (remove_field_at fs i)

unfoldable pub remove_value_at : Values → ℕ → Option Values
remove_value_at no_values i = none
remove_value_at (with_value v vs) zero = some vs
remove_value_at (with_value v vs) (suc i) = Option.map (with_value v) (remove_value_at vs i)

unfoldable pub remove_at : TableRecord → Option ℕ → Option TableRecord
unfolding remove_field_at remove_value_at
remove_at r none = some r
remove_at (table_record d t vs) (some i) =
    Option.map (table_record (remove_field_at d i) t) (remove_value_at vs i)

-- `TableRecord::remove`
unfoldable pub remove : List ℕ → TableRecord → Option TableRecord
unfolding remove_at place
remove name r = remove_at r (place name r)

-- One value for each field.
unfoldable pub SameLength : RecordDesc → Values → Type 0
SameLength no_fields no_values = Unit
SameLength no_fields (with_value v vs) = ⊥
SameLength (with_field f fs) no_values = ⊥
SameLength (with_field f fs) (with_value v vs) = SameLength fs vs

unfoldable pub Aligned : TableRecord → Type 0
unfolding SameLength
Aligned (table_record d t vs) = SameLength d vs
