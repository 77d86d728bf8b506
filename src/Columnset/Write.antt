-- ===== src/Columnset/Write.antt =====
-- `write_multi_column_set` and `write_standard_stman` of crates/casacure/src/columnset.rs.
use casacure.Prelude.{ℕ, ◌%◌, ◌^◌, true, List, Option, none, ltb, length, if◌then◌else◌}
use casacure.Prelude.Int.{negsuc}
use casacure.Bytes.{codes}
use casacure.Aipsio.Block.{put_block}
use casacure.Aipsio.Writer
use casacure.Aipsio.Writer.{
  Write, ◌>>◌, done, for_each, put_u32, put_i32, put_bool, put_string, put_opaque,
  put_root_object_start, put_object_end, into_bytes,
}
use casacure.Records.Arrays.Writer.{write_iposition}
use casacure.Records.Write.{or_empty}
use casacure.Tabledesc.{ColumnDesc, ColumnKind, array}
use casacure.Columnset.{StandardStMan, DmBlob}

-- `write_block_u32`
unfoldable pub write_block_u32 : List ℕ → Write
write_block_u32 = put_block put_u32

unfoldable pub put_standard_stman : StandardStMan → Write
unfolding write_block_u32
put_standard_stman spec = do
  put_string spec.data_manager_name
  write_block_u32 spec.column_offset
  write_block_u32 spec.col_index_map

unfoldable pub write_standard_stman : StandardStMan → Option (List ℕ)
unfolding put_standard_stman
write_standard_stman spec =
    into_bytes (do put_root_object_start (codes "SSM") 2; put_standard_stman spec; put_object_end)
      Writer.new

-- `u32::try_from(nrow).expect(..)`
unfoldable pub put_row_count : ℕ → Write
put_row_count nrow = if ltb nrow (2 ^ 32) then put_u32 nrow else (λ w. none)

unfoldable pub put_manager : DmBlob → Write
put_manager dm = do put_string dm.type_name; put_u32 dm.sequence_nr

unfoldable pub put_binding : ColumnDesc → ℕ → ColumnKind → Write
put_binding desc dm_seq array = do
  put_u32 1
  put_u32 dm_seq
  put_bool true
  write_iposition (or_empty desc.shape)
put_binding desc dm_seq kind = do put_u32 1; put_u32 dm_seq

unfoldable pub put_column : ColumnDesc × ℕ → Write
unfolding put_binding
put_column (desc, dm_seq) = do put_u32 2; put_string desc.name; put_binding desc dm_seq desc.kind

unfoldable pub put_blob : DmBlob → Write
put_blob dm = put_opaque dm.blob

unfoldable pub write_multi_column_set : ℕ → ℕ → List DmBlob → List (ColumnDesc × ℕ) → Write
unfolding put_row_count put_manager put_column put_blob
write_multi_column_set nrow seq_count dms columns = do
  put_i32 (negsuc 1)
  put_row_count nrow
  put_u32 seq_count
  put_u32 (length dms % 2 ^ 32)
  for_each put_manager dms
  for_each put_column columns
  for_each put_blob dms
