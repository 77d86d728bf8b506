-- ===== src/Records/Read.antt =====
-- Reading the records of crates/casacure/src/record.rs: `RecordDesc::read`, `TableRecord::read` and
-- `read_record_data`. Both readers call themselves for what is nested, and run on fuel.
use casacure.Prelude.{ℕ, zero, suc, false, List, [], Option, none, some, if◌then◌else◌, ltb}
use casacure.Prelude.Int.{ℤ, pos, negsuc}
use casacure.Result.{Result, ok, err}
use casacure.Bytes.{codes, bytes_eq}
use casacure.Aipsio.{AipsIoError, ObjectStart}
use casacure.Aipsio.Reader.{
  Read, ◌>>=◌, ◌>>◌, pure, raise, lift, read_i32, read_string, read_iposition, read_object,
  read_object_start,
}
use casacure.Records.{
  DataType, RecordError, aips_io, legacy_keyword_set, from_i32, is_array, element_type, table,
  record_type,
}
use casacure.Records.Values.{
  RecordDescField, field, SubDesc, no_desc, sub_desc, RecordDesc, no_fields, with_field,
  RecordValue, TableRecord, table_record, Values, no_values, with_value, Fault, failed, panicked,
  out_of_fuel, no_fields?,
}
use casacure.Records.Scalars.{read_scalar_value}
use casacure.Records.Arrays.Reader.{read_array}

-- An action of the cursor among those that may also panic or run out of fuel.
abbrev pub io : AipsIoError → Fault
io e = failed (aips_io e)

-- `nfields.max(0)`
unfoldable pub field_count : ℤ → ℕ
field_count (pos n) = n
field_count (negsuc n) = 0

unfoldable pub return_type : Result RecordError DataType → Read Fault DataType
return_type (ok dt) = pure dt
return_type (err e) = raise (failed e)

-- `DataType::from_i32(r.read_i32()?)?`
unfoldable pub read_data_type : Read Fault DataType
unfolding from_i32 return_type
read_data_type = do code ← lift io read_i32; return_type (from_i32 code)

-- What a field's type adds to its description.
abbrev pub Details : Type 0
Details = SubDesc × Option (List ℤ) × Option (List ℕ)

unfoldable pub read_sub_desc : Read Fault RecordDesc → Read Fault Details
read_sub_desc desc = do d ← desc; pure (sub_desc d, none, none)

unfoldable pub read_table_desc_name : Read Fault Details
read_table_desc_name = do s ← lift io read_string; pure (no_desc, none, some s)

unfoldable pub read_shape : Read Fault Details
read_shape = do dims ← lift io read_iposition; pure (no_desc, some dims, none)

unfoldable pub read_details : Read Fault RecordDesc → DataType → Read Fault Details
unfolding is_array read_sub_desc read_table_desc_name read_shape
read_details desc record_type = read_sub_desc desc
read_details desc table = read_table_desc_name
read_details desc dt = if is_array dt then read_shape else pure (no_desc, none, none)

unfoldable pub read_comment : ℕ → Read Fault (List ℕ)
read_comment version = if ltb 1 version then lift io read_string else pure []

-- One round of the loop over the fields; `desc` reads a nested description.
unfoldable pub read_field : ℕ → Read Fault RecordDesc → Read Fault RecordDescField
unfolding read_data_type read_details read_comment
read_field version desc = do
  name ← lift io read_string
  data_type ← read_data_type
  (sub, shape, table_desc_name) ← read_details desc data_type
  comment ← read_comment version
  pure (field name data_type sub shape table_desc_name comment)

unfoldable pub read_fields : ℕ → Read Fault RecordDescField → Read Fault RecordDesc
read_fields zero one = pure no_fields
read_fields (suc n) one = one >>= λ f. read_fields n one >>= λ fs. pure (with_field f fs)

-- `RecordDesc::read`
unfoldable pub read_desc : ℕ → Read Fault RecordDesc
unfolding field_count read_field read_fields
read_desc zero = raise out_of_fuel
read_desc (suc fuel) = do
  (version, _) ← lift io (read_object false (codes "RecordDesc"))
  nfields ← lift io read_i32
  read_fields (field_count nfields) (read_field version (read_desc fuel))

unfoldable pub read_array_value : DataType → Read Fault RecordValue
read_array_value dt = do a ← lift failed (read_array (element_type dt)); pure (RecordValue.array a)

unfoldable pub read_table_name : Read Fault RecordValue
read_table_name = do s ← lift io read_string; pure (RecordValue.table s)

-- The value of a field by its type; `nested` reads the value of a record field.
unfoldable pub read_by_type : Read Fault RecordValue → DataType → Read Fault RecordValue
unfolding is_array element_type read_array_value read_table_name
read_by_type nested table = read_table_name
read_by_type nested record_type = nested
read_by_type nested dt =
    if is_array dt then read_array_value dt else lift failed (read_scalar_value dt)

unfoldable pub framed_value : Read Fault TableRecord → Read Fault RecordValue
framed_value framed = do r ← framed; pure (RecordValue.nested r)

unfoldable pub bare_value : RecordDesc → Read Fault Values → Read Fault RecordValue
bare_value d values = do vs ← values; pure (RecordValue.nested (table_record d (pos 0) vs))

-- `read_record_data` and `read_field_value`; `framed` reads a framed record.
unfoldable mutual
  unfolding no_fields? read_by_type framed_value bare_value

  pub read_record_data : Read Fault TableRecord → RecordDesc → Read Fault Values
  read_record_data framed no_fields = pure no_values
  read_record_data framed (with_field f fs) =
      read_field_value framed f >>= λ v. read_record_data framed fs >>= λ vs. pure (with_value v vs)

  pub read_field_value : Read Fault TableRecord → RecordDescField → Read Fault RecordValue
  read_field_value framed (field name dt sub shape table_name comment) =
      read_by_type (read_nested framed sub) dt

  pub read_nested : Read Fault TableRecord → SubDesc → Read Fault RecordValue
  read_nested framed no_desc = raise panicked
  read_nested framed (sub_desc d) =
      if no_fields? d then framed_value framed else bare_value d (read_record_data framed d)

unfoldable pub expect_record : ObjectStart → Read Fault (Unit {0})
expect_record obj =
    if bytes_eq obj.type_name (codes "TableRecord")
    then pure tt
    else raise (failed (legacy_keyword_set obj.type_name))

-- `TableRecord::read`
unfoldable pub read_record : ℕ → Read Fault TableRecord
unfolding expect_record read_desc read_record_data
read_record zero = raise out_of_fuel
read_record (suc fuel) = do
  obj ← lift io (read_object_start false)
  expect_record obj
  desc ← read_desc (suc fuel)
  kind ← lift io read_i32
  values ← read_record_data (read_record fuel) desc
  pure (table_record desc kind values)
