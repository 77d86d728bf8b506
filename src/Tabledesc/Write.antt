-- ===== src/Tabledesc/Write.antt =====
-- `write_table_desc` and `write_column_desc` of crates/casacure/src/tabledesc.rs. Fuel is that of the
-- writer of table records, whose errors panic here.
use casacure.Prelude.{ℕ, ◌%◌, ◌^◌, false, List, [], ◌∷◌, ◌++◌, length, if◌then◌else◌}
use casacure.Bytes.{codes}
use casacure.Result.{Result, ok, err}
use casacure.Aipsio.Writer.{Writer, put_u32, put_i32, put_string, put_bool}
use casacure.Records.{DataType}
use casacure.Records.Values.{Fault, failed, panicked, out_of_fuel}
use casacure.Records.Attempts.{Attempt, attempt, ◌>>◌, finish, put_object}
use casacure.Records.Scalars.{FloatCasts, write_scalar_value}
use casacure.Records.Arrays.Writer.{write_iposition}
use casacure.Records.Write.{or_empty, write_table_record}
use casacure.Tabledesc.{
  ColumnKind, scalar, array, of_records, ColumnDesc, TableDesc, data_type_id, is_record_type,
  column_type_code,
}

-- `expect`: an error that is returned is a panic of the caller.
abbrev pub expected : Result Fault Writer → Result Fault Writer
expected (ok w) = ok w
expected (err (failed e)) = err panicked
expected (err panicked) = err panicked
expected (err out_of_fuel) = err out_of_fuel

unfoldable pub expect : Attempt → Attempt
expect m w = expected (m w)

unfoldable pub column_class_name : ColumnKind → DataType → List ℕ
unfolding data_type_id is_record_type
column_class_name array dt = codes "ArrayColumnDesc<" ++ data_type_id dt
column_class_name kind dt =
    if is_record_type dt
    then codes "ScalarRecordColumnDesc"
    else codes "ScalarColumnDesc<" ++ data_type_id dt

unfoldable pub write_shape : ColumnDesc → ColumnKind → Attempt
write_shape desc array = attempt (write_iposition (or_empty desc.shape))
write_shape desc kind = finish

unfoldable pub write_kind : FloatCasts → DataType → ColumnKind → Attempt
write_kind casts dt (scalar default) = do
  attempt (put_u32 1)
  attempt (write_scalar_value casts dt default)
write_kind casts dt array = do attempt (put_u32 1); attempt (put_bool false)
write_kind casts dt of_records = attempt (put_u32 1)

unfoldable pub write_column_desc : FloatCasts → ℕ → ColumnDesc → Attempt
unfolding column_class_name column_type_code write_shape write_kind expect
write_column_desc casts fuel desc = do
  attempt (put_u32 1)
  attempt (put_string (column_class_name desc.kind desc.data_type))
  attempt (put_u32 1)
  attempt (put_string desc.name)
  attempt (put_string desc.comment)
  attempt (put_string desc.data_manager_type)
  attempt (put_string desc.data_manager_group)
  attempt (put_i32 (column_type_code desc.data_type))
  attempt (put_i32 desc.options)
  attempt (put_i32 desc.ndim)
  write_shape desc desc.kind
  attempt (put_i32 desc.max_length)
  expect (write_table_record casts fuel desc.keywords)
  write_kind casts desc.data_type desc.kind

unfoldable pub write_columns : FloatCasts → ℕ → List ColumnDesc → Attempt
unfolding write_column_desc
write_columns casts fuel [] = finish
write_columns casts fuel (c ∷ cs) = write_column_desc casts fuel c >> write_columns casts fuel cs

-- What stands in the frame.
unfoldable pub write_desc_parts : FloatCasts → ℕ → TableDesc → Attempt
unfolding expect write_columns
write_desc_parts casts fuel desc = do
  attempt (put_string desc.name)
  attempt (put_string desc.version)
  attempt (put_string desc.comment)
  expect (write_table_record casts fuel desc.keywords)
  expect (write_table_record casts fuel desc.private_keywords)
  attempt (put_u32 (length desc.columns % 2 ^ 32))
  write_columns casts fuel desc.columns

unfoldable pub write_table_desc : FloatCasts → ℕ → TableDesc → Attempt
unfolding write_desc_parts
write_table_desc casts fuel desc =
    put_object (codes "TableDesc") 2 (write_desc_parts casts fuel desc)
