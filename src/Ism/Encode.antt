-- ===== src/Ism/Encode.antt =====
-- Writing the header and the `ISMIndex` of crates/casacure/src/ism.rs: `encode_ism_header`,
-- `encode_ism_index`, and the name blob with its reader.
use casacure.Prelude.{ℕ, ◌%◌, ◌^◌, Bool, List, Option, leb, if◌then◌else◌, length}
use casacure.Bytes.{codes}
use casacure.Aipsio.Block.{put_block}
use casacure.Aipsio.Writer
use casacure.Aipsio.Writer.{
  Write, ◌>>◌, done, put_u32, put_i32, put_u64, put_bool, put_string, put_root_object_start,
  put_object_end, into_bytes, writer_for,
}
use casacure.Rows.{is_wide, put_row}
use casacure.Ism.{IsmHeader}

unfoldable pub put_flag : ℕ → Bool → Write
put_flag version big = if leb 5 version then put_bool big else done

unfoldable pub put_header_fields : IsmHeader → Write
put_header_fields h = do
  put_flag h.version h.big_endian
  put_u32 h.bucket_size
  put_u32 h.nbucket
  put_u32 h.pers_cache_size
  put_u32 h.uniq_nr
  put_u32 h.n_free_bucket
  put_i32 h.first_free_bucket

unfoldable pub encode_ism_header : IsmHeader → Option (List ℕ)
encode_ism_header h =
    into_bytes
      (do
        put_root_object_start (codes "IncrementalStMan") h.version
        put_header_fields h
        put_object_end)
      (writer_for h.big_endian)

unfoldable pub put_index_fields : List ℕ → List ℕ → Write
put_index_fields boundaries numbers = do
  put_u32 (length numbers % 2 ^ 32)
  put_block (put_row (is_wide boundaries)) boundaries
  put_block put_u32 numbers

unfoldable pub encode_ism_index : Bool → List ℕ → List ℕ → Option (List ℕ)
encode_ism_index big boundaries numbers =
    into_bytes
      (do
        put_root_object_start (codes "ISMIndex") (if is_wide boundaries then 2 else 1)
        put_index_fields boundaries numbers
        put_object_end)
      (writer_for big)

unfoldable pub write_ism_blob : List ℕ → Option (List ℕ)
write_ism_blob name =
    into_bytes (do put_root_object_start (codes "ISM") 3; put_string name; put_object_end)
      Writer.new
