-- ===== src/Columnset/Parse.antt =====
-- `parse_column_set` and `parse_standard_stman` of crates/casacure/src/columnset.rs.
use casacure.Prelude.{
  ℕ, suc, true, false, List, [], ◌∷◌, Option, none, some, leb, ◌==◌, if◌then◌else◌, not,
}
use casacure.Prelude.Int.{ℤ, pos, negsuc}
use casacure.Result.{Result, ok, err}
use casacure.Bytes.{codes, bytes_eq}
use casacure.Aipsio.{ObjectStart}
use casacure.Aipsio.Reader.{
  Read, ◌>>=◌, ◌>>◌, pure, raise, lift, repeat, new, read_u32, read_i32, read_u64, read_string,
  read_bool, read_opaque, read_iposition, read_object_start,
}
use casacure.Tabledesc.{ColumnDesc, ColumnKind, array}
use casacure.Columnset.{
  ColumnSetError, aips_io, unexpected_type, unsupported_column_version, unexpected_blob_type,
  ColumnInfo, StandardStMan, DataManagerBlob, standard_st_man, unsupported, DataManager, ColumnSet,
}

unfoldable pub expect_block : ObjectStart → Read ColumnSetError (Unit {0})
expect_block obj =
    if bytes_eq obj.type_name (codes "Block")
    then pure tt
    else raise (unexpected_type (codes "Block") obj.type_name)

unfoldable pub read_block_u32 : Read ColumnSetError (List ℕ)
unfolding expect_block
read_block_u32 = do
  obj ← lift aips_io (read_object_start false)
  expect_block obj
  n ← lift aips_io read_u32
  lift aips_io (repeat n read_u32)

unfoldable pub expect_ssm : List ℕ → ObjectStart → Read ColumnSetError (Unit {0})
expect_ssm type_name obj =
    if bytes_eq obj.type_name (codes "SSM")
    then pure tt
    else raise (unexpected_blob_type type_name obj.type_name)

unfoldable pub read_standard_stman : List ℕ → Read ColumnSetError StandardStMan
unfolding expect_ssm read_block_u32
read_standard_stman type_name = do
  obj ← lift aips_io (read_object_start true)
  expect_ssm type_name obj
  name ← lift aips_io read_string
  column_offset ← read_block_u32
  col_index_map ← read_block_u32
  pure (record {
    data_manager_name = name;
    column_offset = column_offset;
    col_index_map = col_index_map;
  })

-- The blob has a cursor of its own.
unfoldable pub parse_standard_stman : List ℕ → List ℕ → Result ColumnSetError StandardStMan
unfolding read_standard_stman
parse_standard_stman blob type_name = (read_standard_stman type_name (new blob)).0

-- The version and the number of rows.
unfoldable pub read_version : ℤ → Read ColumnSetError (ℕ × ℕ)
read_version (pos n) = pure (1, n)
read_version (negsuc n) =
    if leb (suc n) 2
    then (do rows ← lift aips_io read_u32; pure (suc n, rows))
    else (do rows ← lift aips_io read_u64; pure (suc n, rows))

unfoldable pub read_storage_option : ℕ → Read ColumnSetError (Option (ℤ × ℤ))
read_storage_option version =
    if leb 3 version
    then (do
      option ← lift aips_io read_i32
      block ← lift aips_io read_i32
      pure (some (option, block)))
    else pure none

unfoldable pub read_manager : Read ColumnSetError DataManager
read_manager = do
  type_name ← lift aips_io read_string
  sequence_nr ← lift aips_io read_u32
  pure (record { type_name = type_name; sequence_nr = sequence_nr; blob = unsupported [] })

unfoldable pub check_column_version : ℕ → Read ColumnSetError (Unit {0})
check_column_version version =
    if not (version == 2) then raise (unsupported_column_version version) else pure tt

unfoldable pub read_shape_column : ColumnKind → Read ColumnSetError (Option (List ℤ))
read_shape_column array = do
  has_shape ← lift aips_io read_bool
  if has_shape then (do dims ← lift aips_io read_iposition; pure (some dims)) else pure none
read_shape_column kind = pure none

unfoldable pub read_column : ColumnDesc → Read ColumnSetError ColumnInfo
unfolding check_column_version read_shape_column
read_column desc = do
  class_version ← lift aips_io read_u32
  check_column_version class_version
  original_name ← lift aips_io read_string
  lift aips_io read_u32
  data_manager_seq ← lift aips_io read_u32
  shape ← read_shape_column desc.kind
  pure
      (record { original_name = original_name; data_manager_seq = data_manager_seq; shape = shape })

-- `for desc in columns`
unfoldable pub read_columns : List ColumnDesc → Read ColumnSetError (List ColumnInfo)
unfolding read_column
read_columns [] = pure []
read_columns (c ∷ cs) = read_column c >>= λ i. read_columns cs >>= λ is'. pure (i ∷ is')

abbrev pub as_standard : Result ColumnSetError StandardStMan → Result ColumnSetError DataManagerBlob
as_standard (ok spec) = ok (standard_st_man spec)
as_standard (err e) = err e

unfoldable pub decode_blob : List ℕ → List ℕ → Result ColumnSetError DataManagerBlob
unfolding parse_standard_stman
decode_blob type_name blob =
    if bytes_eq type_name (codes "StandardStMan")
    then as_standard (parse_standard_stman blob type_name)
    else ok (unsupported blob)

unfoldable pub return_blob :
    Result ColumnSetError DataManagerBlob → Read ColumnSetError DataManagerBlob
return_blob (ok b) = pure b
return_blob (err e) = raise e

unfoldable pub read_blob : DataManager → Read ColumnSetError DataManager
unfolding decode_blob return_blob
read_blob dm = do
  bytes ← lift aips_io read_opaque
  blob ← return_blob (decode_blob dm.type_name bytes)
  pure (record dm { blob = blob })

-- `for dm in &mut data_managers`
unfoldable pub read_blobs : List DataManager → Read ColumnSetError (List DataManager)
unfolding read_blob
read_blobs [] = pure []
read_blobs (dm ∷ dms) = read_blob dm >>= λ d. read_blobs dms >>= λ ds. pure (d ∷ ds)

unfoldable pub parse_column_set : List ColumnDesc → Read ColumnSetError ColumnSet
unfolding read_version read_storage_option read_manager read_columns read_blobs
parse_column_set descs = do
  version_raw ← lift aips_io read_i32
  (version, nrow) ← read_version version_raw
  storage_option ← read_storage_option version
  seq_count ← lift aips_io read_u32
  nr ← lift aips_io read_u32
  managers ← repeat nr read_manager
  columns ← read_columns descs
  data_managers ← read_blobs managers
  pure (record {
    version = version;
    nrow = nrow;
    storage_option = storage_option;
    seq_count = seq_count;
    data_managers = data_managers;
    columns = columns;
  })
