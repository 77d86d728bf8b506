-- ===== src/Ssm/Encode.antt =====
-- Writing the header and an `SSMIndex` object of crates/casacure/src/ssm.rs: `encode_ssm_header`,
-- `encode_ssm_index`, and the index of a fresh file (`build_index_stream`).
use casacure.Prelude.{
  ℕ, zero, suc, ◌+◌, ◌-◌, ◌*◌, ◌%◌, ◌^◌, Bool, List, [], ◌∷◌, Option, none, ◌==◌, leb, min,
  if◌then◌else◌, length,
}
use casacure.Prelude.Int.{pos, as_i32}
use casacure.Bytes.{codes}
use casacure.Aipsio.Block.{put_block}
use casacure.Aipsio.Writer.{
  Write, ◌>>◌, done, put_u32, put_i32, put_bool, put_object_start, put_root_object_start,
  put_object_end, into_bytes, writer_for,
}
use casacure.Rows.{is_wide, put_row}
use casacure.Ssm.{StandardStManHeader}
use casacure.Ssm.Layout.{StandardStManLayout, div_ceil}

unfoldable pub put_flag : ℕ → Bool → Write
put_flag version big = if leb 3 version then put_bool big else done

unfoldable pub put_header_fields : StandardStManHeader → Write
put_header_fields h = do
  put_flag h.version h.big_endian
  put_u32 h.bucket_size
  put_u32 h.nr_buckets
  put_u32 h.pers_cache_size
  put_u32 h.n_free_bucket
  put_i32 h.first_free_bucket
  put_u32 h.nr_index_buckets
  put_i32 h.first_index_bucket
  put_i32 h.index_bucket_offset
  put_i32 h.last_string_bucket
  put_u32 h.index_length
  put_u32 h.nr_index

unfoldable pub encode_ssm_header : StandardStManHeader → Option (List ℕ)
encode_ssm_header h =
    into_bytes
      (do
        put_root_object_start (codes "StandardStMan") h.version
        put_header_fields h
        put_object_end)
      (writer_for h.big_endian)

-- The empty free-space map: the old default value, its size and the old increment.
unfoldable pub put_map_fields : Write
put_map_fields = do put_i32 (pos 0); put_u32 0; put_u32 1

unfoldable pub put_free_map : Write
put_free_map = do put_object_start (codes "SimpleOrderedMap") 1; put_map_fields; put_object_end

unfoldable pub put_index_fields : ℕ → ℕ → List ℕ → List ℕ → Write
put_index_fields rows_per_bucket nr_columns last_row bucket_number = do
  put_u32 (length last_row % 2 ^ 32)
  put_u32 rows_per_bucket
  put_i32 (as_i32 (nr_columns % 2 ^ 32))
  put_free_map
  put_block (put_row (is_wide last_row)) last_row
  put_block put_u32 bucket_number

unfoldable pub encode_ssm_index : Bool → ℕ → ℕ → List ℕ → List ℕ → Option (List ℕ)
encode_ssm_index big rows_per_bucket nr_columns last_row bucket_number =
    into_bytes
      (do
        put_root_object_start (codes "SSMIndex") (if is_wide last_row then 2 else 1)
        put_index_fields rows_per_bucket nr_columns last_row bucket_number
        put_object_end)
      (writer_for big)

-- `b`, `b + 1`, … `n` of them.
unfoldable pub count_up : ℕ → ℕ → List ℕ
count_up b zero = []
count_up b (suc n) = b ∷ count_up (b + 1) n

-- The last row of bucket `b`.
unfoldable pub put_bucket_end : ℕ → ℕ → ℕ → Write
put_bucket_end n_rows rpb b = put_u32 ((min ((b + 1) * rpb) n_rows - 1) % 2 ^ 32)

unfoldable pub put_fresh_fields : ℕ → StandardStManLayout → ℕ → Write
put_fresh_fields n_rows l nr_columns =
    let nr_buckets = div_ceil n_rows l.rows_per_bucket in
    do
      put_u32 (nr_buckets % 2 ^ 32)
      put_u32 l.rows_per_bucket
      put_i32 (as_i32 (nr_columns % 2 ^ 32))
      put_free_map
      put_block (put_bucket_end n_rows l.rows_per_bucket) (count_up 0 nr_buckets)
      put_block put_u32 (count_up 0 (nr_buckets % 2 ^ 32))

-- A division by no rows panics.
unfoldable pub build_index_stream : Bool → ℕ → StandardStManLayout → ℕ → Option (List ℕ)
build_index_stream big n_rows l nr_columns =
    if l.rows_per_bucket == 0
    then none
    else into_bytes
        (do
          put_root_object_start (codes "SSMIndex") 1
          put_fresh_fields n_rows l nr_columns
          put_object_end)
        (writer_for big)
