-- ===== src/Tabledesc/Parse.antt =====
-- `parse_table_desc` and `parse_column_desc` of crates/casacure/src/tabledesc.rs. Fuel is that of the
-- reader of table records.
use casacure.Prelude.{
  ℕ, Bool, true, false, not, ◌||◌, ◌==◌, List, Option, none, some, if◌then◌else◌,
}
use casacure.Prelude.Int.{ℤ, pos}
use casacure.Bytes.{codes, bytes_eq}
use casacure.Aipsio.{AipsIoError, ObjectStart}
use casacure.Aipsio.Reader.{
  Read, ◌>>=◌, ◌>>◌, pure, raise, lift, repeat, read_u32, read_i32, read_string, read_bool,
  read_iposition, read_object_start,
}
use casacure.Records.{DataType, RecordError}
use casacure.Records.Values.{TableRecord, table_record, no_fields, no_values}
use casacure.Records.Scalars.{read_scalar_value}
use casacure.Records.Read.{read_data_type, read_record}
use casacure.Tabledesc.{
  aips_io, of_record, unexpected_type, unknown_column_class, DescFault, failed, from_fault,
  ColumnKind, scalar, array, of_records, ColumnDesc, TableDesc, starts_with,
}

abbrev pub io : AipsIoError → DescFault
io e = failed (aips_io e)

abbrev pub record_fault : RecordError → DescFault
record_fault e = failed (of_record e)

-- Whether a column class is that of a scalar.
unfoldable pub read_class : List ℕ → Read DescFault Bool
unfolding starts_with
read_class class_name =
    if starts_with (codes "ScalarColumnDesc<") class_name
      || starts_with (codes "ScalarRecordColumnDesc") class_name
    then pure true
    else if starts_with (codes "ArrayColumnDesc<") class_name
    then pure false
    else raise (failed (unknown_column_class class_name))

unfoldable pub read_column_shape : Bool → Read DescFault (Option (List ℤ))
read_column_shape true = pure none
read_column_shape false = do dims ← lift io read_iposition; pure (some dims)

unfoldable pub read_scalar_kind : DataType → Read DescFault ColumnKind
read_scalar_kind dt = do
  lift io read_u32
  v ← lift record_fault (read_scalar_value dt)
  pure (scalar v)

unfoldable pub read_kind : List ℕ → Bool → DataType → Read DescFault ColumnKind
unfolding starts_with read_scalar_kind
read_kind class_name is_scalar dt =
    if starts_with (codes "ScalarRecordColumnDesc") class_name
    then (do lift io read_u32; pure of_records)
    else if is_scalar
    then read_scalar_kind dt
    else (do lift io read_u32; lift io read_bool; pure array)

unfoldable pub parse_column_desc : ℕ → Read DescFault ColumnDesc
unfolding read_class read_column_shape read_kind
parse_column_desc fuel = do
  lift io read_u32
  class_name ← lift io read_string
  is_scalar ← read_class class_name
  lift io read_u32
  name ← lift io read_string
  comment ← lift io read_string
  data_manager_type ← lift io read_string
  data_manager_group ← lift io read_string
  data_type ← lift from_fault read_data_type
  options ← lift io read_i32
  ndim ← lift io read_i32
  shape ← read_column_shape is_scalar
  max_length ← lift io read_i32
  keywords ← lift from_fault (read_record fuel)
  kind ← read_kind class_name is_scalar data_type
  pure (record {
    name = name;
    comment = comment;
    data_type = data_type;
    data_manager_type = data_manager_type;
    data_manager_group = data_manager_group;
    options = options;
    ndim = ndim;
    shape = shape;
    max_length = max_length;
    keywords = keywords;
    kind = kind;
    tile_shape = none;
  })

unfoldable pub expect_desc : ObjectStart → Read DescFault (Unit {0})
expect_desc obj =
    if bytes_eq obj.type_name (codes "TableDesc")
    then pure tt
    else raise (failed (unexpected_type (codes "TableDesc") obj.type_name))

-- Version 1 has no private keywords.
unfoldable pub read_private : ℕ → ℕ → Read DescFault TableRecord
read_private fuel version =
    if not (version == 1)
    then lift from_fault (read_record fuel)
    else pure (table_record no_fields (pos 0) no_values)

unfoldable pub parse_table_desc : ℕ → Read DescFault TableDesc
unfolding expect_desc read_private parse_column_desc
parse_table_desc fuel = do
  obj ← lift io (read_object_start false)
  expect_desc obj
  name ← lift io read_string
  version ← lift io read_string
  comment ← lift io read_string
  keywords ← lift from_fault (read_record fuel)
  private_keywords ← read_private fuel obj.version
  ncols ← lift io read_u32
  columns ← repeat ncols (parse_column_desc fuel)
  pure (record {
    name = name;
    version = version;
    comment = comment;
    keywords = keywords;
    private_keywords = private_keywords;
    columns = columns;
  })
