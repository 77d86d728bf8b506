-- ===== src/Ssm/RoundTrip/IndexStream.antt =====
-- The `SSMIndex` object of crates/casacure/src/ssm.rs, written and read back.
pub mod Fresh
use casacure.Prelude.{
  ℕ, ◌%◌, ◌^◌, ◌<◌, ◌≡◌, refl, ap, Bool, true, false, not, List, [], ◌++◌, append_assoc, some,
  arith, length, if◌then◌else◌,
}
use casacure.Prelude.Int.{pos, as_u32, as_i32}
use casacure.Result.{Result, ok}
use casacure.Bytes.{codes, to_bytes}
use casacure.Bytes.Utf8.{is_utf8}
use casacure.Search.{Ascending}
use casacure.Aipsio.Encoding.{object_bytes, magic_bytes}
use casacure.Aipsio.Block.{put_block, block_bytes, Block-IsText, Writes-block, Reads-elements}
use casacure.Aipsio.Reader.{
  Reader, Read, ◌>>=◌, pure, lift, ◌>>◌, read_u32, read_i32, read_u64, read_object_start,
  reader_for,
}
use casacure.Aipsio.Reads.{
  Reads, Reads-pure, Reads-bind, Reads-lift, Reads-return, Reads-from, ReadsFrom-lift, All,
}
use casacure.Aipsio.Reads.Words.{IsU32, IsU64, IsText, Reads-u32, Reads-u64}
use casacure.Aipsio.Reads.Objects.{ReadsFrom-object_start}
use casacure.Aipsio.Run.{Reads-run, Writes-run}
use casacure.Aipsio.Writer.{put_u32, put_i32}
use casacure.Aipsio.Writes.{Writes, Writes-seq, Writes-u32, Writes-i32, Writes-root_object}
use casacure.Ssm.{SsmError, aips_io, SsmIndex}
use casacure.Aipsio.Reader.{repeat}
use casacure.Aipsio.Writes.{Writes-object}
use casacure.Ssm.Parse.{
  expect_type, read_last_row, read_u32_or_u64_block, read_u32_block, read_pair, read_index_object,
}
use casacure.Ssm.Encode.{put_map_fields, put_free_map, put_index_fields, encode_ssm_index}
use casacure.Rows.{is_wide, put_row, IsRow, row_bytes, Writes-row, All-IsRow}
use casacure.Ssm.RoundTrip.{Reads-expect, Reads-field, Reads-signed}

pub index_version : Bool → ℕ
index_version wide = if wide then 2 else 1

Reads-row :
    (little wide : Bool) (r : ℕ)
    → IsRow wide r
    → Reads little (read_last_row (index_version wide)) (row_bytes little wide r) r
unfolding read_last_row row_bytes index_version IsRow
Reads-row little true r h = Reads-lift aips_io read_u64 _ r (Reads-u64 little r h)
Reads-row little false r h =
    let fits : r % 2 ^ 32 ≡ r = omega arith in
    rw fits (Reads-lift aips_io read_u32 _ r (Reads-u32 little r h))

-- The empty free-space map.
map_fields_bytes : Bool → List ℕ
map_fields_bytes little =
    to_bytes little 4 (as_u32 (pos 0)) ++ (to_bytes little 4 0 ++ to_bytes little 4 1)

pub map_bytes : Bool → List ℕ
map_bytes little = object_bytes little (codes "SimpleOrderedMap") 1 (map_fields_bytes little)

pub Writes-free_map : (little : Bool) → Writes little put_free_map (map_bytes little)
unfolding put_free_map map_bytes map_fields_bytes put_map_fields
Writes-free_map little =
    Writes-object (codes "SimpleOrderedMap") 1 put_map_fields (map_fields_bytes little) (
      Writes-seq (put_i32 (pos 0)) _ _ _ (Writes-i32 _)
        (Writes-seq (put_u32 0) _ _ _ (Writes-u32 _) (Writes-u32 _)))

module _ (big : Bool) (rows_per_bucket nr_columns : ℕ) (last_row bucket_number : List ℕ) where
  pub index_fields_bytes : List ℕ
  index_fields_bytes =
      to_bytes (not big) 4 (length last_row % 2 ^ 32)
      ++ (to_bytes (not big) 4 rows_per_bucket
          ++ (to_bytes (not big) 4 (as_u32 (as_i32 (nr_columns % 2 ^ 32)))
              ++ (map_bytes (not big)
                  ++ (block_bytes (not big) (row_bytes (not big) (is_wide last_row)) last_row
                      ++ block_bytes (not big) (to_bytes (not big) 4) bucket_number))))

  pub ssm_index_bytes : List ℕ
  ssm_index_bytes =
      magic_bytes (not big) true
      ++ object_bytes (not big) (codes "SSMIndex") (index_version (is_wide last_row))
          index_fields_bytes

  Writes-index_fields :
      Writes
        (not big)
        (put_index_fields rows_per_bucket nr_columns last_row bucket_number)
        index_fields_bytes
  unfolding put_index_fields index_fields_bytes
  Writes-index_fields = Writes-seq (put_u32 (length last_row % 2 ^ 32)) _ _ _ (Writes-u32 _) (
      Writes-seq (put_u32 rows_per_bucket) _ _ _ (Writes-u32 _) (
        Writes-seq (put_i32 (as_i32 (nr_columns % 2 ^ 32))) _ _ _ (Writes-i32 _) (
          Writes-seq put_free_map _ _ _ (Writes-free_map (not big)) (
            Writes-seq (put_block (put_row (is_wide last_row)) last_row) _ _ _
              (Writes-block _ _ (Writes-row (not big) (is_wide last_row)) last_row)
              (Writes-block put_u32 _ Writes-u32 bucket_number)))))

  pub encode_ssm_index-bytes :
      encode_ssm_index big rows_per_bucket nr_columns last_row bucket_number ≡ some ssm_index_bytes
  unfolding encode_ssm_index ssm_index_bytes index_version
  encode_ssm_index-bytes = Writes-run big _ _ (
      Writes-root_object (codes "SSMIndex") _
        (put_index_fields rows_per_bucket nr_columns last_row bucket_number) index_fields_bytes
        Writes-index_fields)

index-IsText : IsText (codes "SSMIndex")
unfolding is_utf8
index-IsText = record { utf8 = refl; short = omega arith }

map-IsText : IsText (codes "SimpleOrderedMap")
unfolding is_utf8
map-IsText = record { utf8 = refl; short = omega arith }

version-IsU32 : (wide : Bool) → IsU32 (index_version wide)
unfolding index_version
version-IsU32 true = omega arith
version-IsU32 false = omega arith

columns_fit : (n : ℕ) → n < 2 ^ 31 → as_i32 (n % 2 ^ 32) ≡ pos n
columns_fit n h = ground arith

module _ (little : Bool) where
  Reads-u32_block :
      (xs : List ℕ)
      → All IsU32 xs
      → length xs < 2 ^ 32
      → Reads little read_u32_block (block_bytes little (to_bytes little 4) xs) xs
  unfolding read_u32_block block_bytes object_bytes magic_bytes
  Reads-u32_block xs all short =
      Reads-from (lift aips_io (read_object_start false)) _ _ _ _ xs
        (ReadsFrom-lift aips_io _ _ _
          (ReadsFrom-object_start little false (codes "Block") 1 _ Block-IsText (omega arith)))
        (λ p. Reads-bind (expect_type (codes "Block") _) _ [] _ tt xs (Reads-expect _ _ _ _ _) (
          Reads-elements aips_io (lift aips_io read_u32) _ IsU32 (Reads-field little) xs all short))

  Reads-last_rows :
      (wide : Bool) (xs : List ℕ)
      → All (IsRow wide) xs
      → length xs < 2 ^ 32
      → Reads little
          (read_u32_or_u64_block (index_version wide))
          (block_bytes little (row_bytes little wide) xs)
          xs
  unfolding read_u32_or_u64_block block_bytes object_bytes magic_bytes
  Reads-last_rows wide xs all short =
      Reads-from (lift aips_io (read_object_start false)) _ _ _ _ xs
        (ReadsFrom-lift aips_io _ _ _
          (ReadsFrom-object_start little false (codes "Block") 1 _ Block-IsText (omega arith)))
        (λ p. Reads-bind (expect_type (codes "Block") _) _ [] _ tt xs (Reads-expect _ _ _ _ _) (
          Reads-elements aips_io (read_last_row (index_version wide)) _ (IsRow wide)
            (Reads-row little wide) xs all short))

  -- The free-space map, and what is read behind it.
  Reads-map :
      {B : Type 0} (k : Read SsmError B) (cs : List ℕ) (b : B)
      → Reads little k cs b
      → Reads little
          (do
            map ← lift aips_io (read_object_start false)
            expect_type (codes "SimpleOrderedMap") map
            default_value ← lift aips_io read_i32
            n_free ← lift aips_io read_u32
            incr ← lift aips_io read_u32
            repeat n_free read_pair
            k)
          (map_bytes little ++ cs)
          b
  unfolding map_bytes map_fields_bytes object_bytes magic_bytes repeat pure
  Reads-map k cs b hk =
      rw (append_assoc, append_assoc, append_assoc)
        (Reads-from (lift aips_io (read_object_start false)) _ _ _ _ b
          (ReadsFrom-lift aips_io _ _ _ (
            ReadsFrom-object_start little false (codes "SimpleOrderedMap") 1 _ map-IsText
              (omega arith)))
          (λ p.
            Reads-bind (expect_type (codes "SimpleOrderedMap") _) _ [] _ tt b
              (Reads-expect _ _ _ _ _)
              (Reads-bind (lift aips_io read_i32) _ _ _ _ b
                (Reads-signed little (pos 0) (omega arith))
                (Reads-bind (lift aips_io read_u32) _ _ _ _ b (Reads-field little 0 (omega arith)) (
                  Reads-bind (lift aips_io read_u32) _ _ _ _ b (Reads-field little 1 (omega arith))
                    (Reads-bind (repeat 0 read_pair) _ [] _ [] b (Reads-pure []) hk))))))

module _ (big : Bool) (rows_per_bucket nr_columns : ℕ) (last_row bucket_number : List ℕ) where
  -- The index that is written.
  abbrev index : SsmIndex
  index = record {
    rows_per_bucket = rows_per_bucket;
    nr_columns = pos nr_columns;
    last_row = last_row;
    bucket_number = bucket_number;
  }

  Reads-index :
      IsU32 rows_per_bucket
      → nr_columns < 2 ^ 31
      → Ascending last_row
      → All IsU64 last_row
      → All IsU32 bucket_number
      → length last_row < 2 ^ 32
      → length bucket_number < 2 ^ 32
      → Reads
          (not big)
          read_index_object
          (ssm_index_bytes big rows_per_bucket nr_columns last_row bucket_number)
          index
  unfolding read_index_object ssm_index_bytes object_bytes index_fields_bytes
  Reads-index hr hc asc hl hb ll lb =
      let columns : as_i32 (nr_columns % 2 ^ 32) ≡ pos nr_columns = columns_fit nr_columns hc in
      rw (← append_assoc (magic_bytes (not big) true), columns)
        (Reads-from (lift aips_io (read_object_start true)) _ _ _ _ index
          (ReadsFrom-lift aips_io _ _ _ (
            ReadsFrom-object_start (not big) true (codes "SSMIndex") _ _ index-IsText
              (version-IsU32 (is_wide last_row))))
          (λ p.
            Reads-bind (expect_type (codes "SSMIndex") _) _ [] _ tt index (Reads-expect _ _ _ _ _) (
              Reads-bind (lift aips_io read_u32) _ _ _ _ index
                (Reads-field (not big) _ (omega arith))
                (Reads-bind (lift aips_io read_u32) _ _ _ _ index (Reads-field (not big) _ hr) (
                  Reads-bind (lift aips_io read_i32) _ _ _ _ index
                    (Reads-signed (not big) (pos nr_columns) hc)
                    (Reads-map (not big) _ _ index (
                      Reads-bind (read_u32_or_u64_block _) _ _ _ _ index
                        (Reads-last_rows (not big) (is_wide last_row) last_row
                          (All-IsRow last_row asc hl) ll)
                        (Reads-return read_u32_block _ _ _
                          (Reads-u32_block (not big) bucket_number hb lb)))))))))

  read_index_object-bytes :
      (rest : List ℕ)
      → IsU32 rows_per_bucket
      → nr_columns < 2 ^ 31
      → Ascending last_row
      → All IsU64 last_row
      → All IsU32 bucket_number
      → length last_row < 2 ^ 32
      → length bucket_number < 2 ^ 32
      → (read_index_object (
          reader_for big
            (ssm_index_bytes big rows_per_bucket nr_columns last_row bucket_number ++ rest))).0
        ≡ ok index
  read_index_object-bytes rest hr hc asc hl hb ll lb =
      ap (λ (r : Result SsmError SsmIndex × Reader). r.0)
        (Reads-run big read_index_object
          (ssm_index_bytes big rows_per_bucket nr_columns last_row bucket_number) rest _
          (Reads-index hr hc asc hl hb ll lb))

  -- An `SSMIndex` whose last rows ascend and are 64-bit rows, with a 32-bit count of rows per
  -- bucket, 32-bit bucket numbers, fewer than 2 ^ 31 columns and fewer than 2 ^ 32 last rows and
  -- bucket numbers, is serialized in the narrow or the wide form in either byte order, and read back
  -- from every stream that begins with those bytes.
  pub read_index_object-encode :
      IsU32 rows_per_bucket
      → nr_columns < 2 ^ 31
      → Ascending last_row
      → All IsU64 last_row
      → All IsU32 bucket_number
      → length last_row < 2 ^ 32
      → length bucket_number < 2 ^ 32
      → (bytes : List ℕ) × (encode_ssm_index big rows_per_bucket nr_columns last_row bucket_number
          ≡ some bytes)
        × ((rest : List ℕ)
            → (read_index_object (reader_for big (bytes ++ rest))).0
              ≡ ok (record {
                rows_per_bucket = rows_per_bucket;
                nr_columns = pos nr_columns;
                last_row = last_row;
                bucket_number = bucket_number;
              }))
  read_index_object-encode hr hc asc hl hb ll lb = (
    ssm_index_bytes big rows_per_bucket nr_columns last_row bucket_number,
    encode_ssm_index-bytes big rows_per_bucket nr_columns last_row bucket_number,
    λ rest. read_index_object-bytes rest hr hc asc hl hb ll lb,
  )
