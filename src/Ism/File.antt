-- ===== src/Ism/File.antt =====
-- The whole data file of crates/casacure/src/ism.rs: `write_ism_file`, and `IsmFile` with `parse`,
-- `bucket_bytes` and `for_each_cell_raw`.
pub mod Ended
pub mod Loop
pub mod Parts
pub mod Bounds
pub mod Buckets
pub mod RoundTrip
pub mod Whole
pub mod Written
use casacure.Prelude.{
  ℕ, zero, suc, ◌+◌, ◌-◌, ◌*◌, ◌%◌, ◌^◌, min, Bool, true, false, List, [], ◌∷◌, ◌++◌, Option, none,
  some, map, ltb, leb, ◌==◌, if◌then◌else◌, length, take, slice, replicate,
}
use casacure.Prelude.Int.{ℤ, pos, negsuc, as_u32}
use casacure.Result.{Result, ok, err, ◌>>=◌}
use casacure.Bytes.{codes}
use casacure.Records.{
  DataType, bool_type, char, u_char, short, u_short, int, u_int, float, double, complex, d_complex,
  string, int64,
}
use casacure.Aipsio.Writer.{
  Write, ◌>>◌, done, put_u32, put_i32, put_bool, put_root_object_start, put_object_end, into_bytes,
  writer_for,
}
use casacure.Ssm.Cells.{get_range}
use casacure.Ssm.Encode.{count_up}
use casacure.Ssm.Layout.{div_ceil}
use casacure.Ism.{
  IsmError, row_out_of_range, invalid_bucket, string_unsupported, out_of_fuel, IsmHeader, IsmIndex,
  data_start, ism_bucket_size,
}
use casacure.Ism.Index.{bucket_for}
use casacure.Ism.Parse.{parse_meta}
use casacure.Ism.Encode.{encode_ism_index}
use casacure.Ism.Bucket.{WriteIsmColumn, encode_ism_bucket, ism_rows_per_bucket, bucket_cells}

pub record IsmFile : Type 0 where
  pub header : IsmHeader
  pub index : IsmIndex
  pub bytes : List ℕ

unfoldable pub parse : List ℕ → Bool → Result IsmError IsmFile
parse bytes big =
    parse_meta bytes big >>= λ m. ok (record { header = m.0; index = m.1; bytes = bytes })

unfoldable pub bucket_bytes : IsmFile → ℕ → Result IsmError (List ℕ)
bucket_bytes f bucket =
    let start = data_start + bucket * f.header.bucket_size in
    if ltb (length f.bytes) (start + f.header.bucket_size)
    then err (invalid_bucket bucket f.header.nbucket)
    else ok (slice f.bytes start f.header.bucket_size)

-- `scalar_cell_size` of crates/casacure/src/ssm.rs; of the column's description it reads the type
-- and the maximum length.
unfoldable pub scalar_cell_size : DataType → ℤ → ℕ
scalar_cell_size string (pos zero) = 12
scalar_cell_size string (pos (suc n)) = suc n
scalar_cell_size string (negsuc n) = 12
scalar_cell_size bool_type max_length = 0
scalar_cell_size u_char max_length = 1
scalar_cell_size char max_length = 1
scalar_cell_size short max_length = 2
scalar_cell_size u_short max_length = 2
scalar_cell_size int max_length = 4
scalar_cell_size u_int max_length = 4
scalar_cell_size float max_length = 4
scalar_cell_size double max_length = 8
scalar_cell_size int64 max_length = 8
scalar_cell_size complex max_length = 8
scalar_cell_size d_complex max_length = 16
scalar_cell_size t max_length = 0

unfoldable pub ism_cell_size : DataType → ℤ → ℕ
ism_cell_size bool_type max_length = 1
ism_cell_size t max_length = scalar_cell_size t max_length

-- `ok_or(IsmError::RowOutOfRange { row })`
abbrev pub in_range : Option (ℕ × ℕ × ℕ) → ℕ → Result IsmError (ℕ × ℕ × ℕ)
in_range (some found) row = ok found
in_range none row = err (row_out_of_range row)

module _ (f : IsmFile) (column want end : ℕ) where
  -- The body of the loop: the cells of a bucket, and the row behind them.
  unfoldable pub one_bucket : ℕ → Result IsmError (List (List ℕ) × ℕ)
  one_bucket row = in_range (bucket_for f.index row) row >>= λ (nr, intra, n).
      if leb n intra
      then err (row_out_of_range row)
      else (bucket_bytes f nr >>= λ b.
          let stop = min (n - intra) (end - row) in
          bucket_cells f.header.big_endian b want column row intra stop >>= λ cells.
          ok (cells, row + stop))

  -- `while row < end`, on fuel.
  unfoldable pub each_bucket : ℕ → ℕ → Result IsmError (List (List ℕ))
  each_bucket zero row = if ltb row end then err out_of_fuel else ok []
  each_bucket (suc fuel) row =
      let further =
        one_bucket row >>= λ part. each_bucket fuel part.1 >>= λ rest. ok (part.0 ++ rest) in
      if ltb row end then further else ok []

-- `saturating_add`
abbrev pub add_saturating : ℕ → ℕ → ℕ
add_saturating a b = min (a + b) (2 ^ 64 - 1)

abbrev pub is_string : DataType → Bool
is_string string = true
is_string t = false

-- The cells in the order in which they are visited, where no visit fails. A round of the loop takes
-- a row at least.
unfoldable pub for_each_cell_raw :
    IsmFile → ℕ → DataType → ℤ → ℕ → ℕ → Result IsmError (List (List ℕ))
for_each_cell_raw f column t max_length start nrow =
    if is_string t
    then err string_unsupported
    else each_bucket f column (ism_cell_size t max_length) (add_saturating start nrow) nrow start

-- A little endian file says so.
abbrev pub put_endian : Bool → Write
put_endian true = done
put_endian false = put_bool false

unfoldable pub write_header : Bool → ℕ → ℕ → Option (List ℕ)
write_header big bucket_size nr_buckets =
    into_bytes
      (do
        put_root_object_start (codes "IncrementalStMan") (if big then 4 else 5)
        put_endian big
        put_u32 (bucket_size % 2 ^ 32)
        put_u32 (nr_buckets % 2 ^ 32)
        put_u32 0
        put_u32 0
        put_u32 0
        put_i32 (negsuc 0)
        put_object_end)
      (writer_for big)

-- `Vec::resize`, with zeros.
unfoldable pub resize : ℕ → List ℕ → List ℕ
resize n xs = take n (xs ++ replicate (n - length xs) 0)

-- `?`, and the panic of a slice out of range.
abbrev pub and_then : {A B : Type 0} → Option A → (A → Option B) → Option B
and_then none g = none
and_then (some a) g = g a

-- The columns' bytes for the rows of a bucket.
unfoldable pub columns_of : ℕ → ℕ → List WriteIsmColumn → Option (List WriteIsmColumn)
columns_of start_row end_row [] = some []
columns_of start_row end_row (c ∷ cs) =
    and_then (get_range c.bytes (start_row * c.cell_size) (end_row * c.cell_size)) (λ bytes.
      and_then (columns_of start_row end_row cs)
        (λ rest. some (record { cell_size = c.cell_size; bytes = bytes } ∷ rest)))

-- `n` buckets from `b` on.
unfoldable pub write_buckets : Bool → ℕ → ℕ → List WriteIsmColumn → ℕ → ℕ → Option (List ℕ)
write_buckets big rows_per_bucket n_rows cols b zero = some []
write_buckets big rows_per_bucket n_rows cols b (suc n) =
    let start_row = b * rows_per_bucket in
    let end_row = min (start_row + rows_per_bucket) n_rows in
    and_then (columns_of start_row end_row cols) (λ slices.
      and_then (encode_ism_bucket big ism_bucket_size (end_row - start_row) slices) (λ bucket.
        and_then (write_buckets big rows_per_bucket n_rows cols (b + 1) n)
          (λ rest. some (bucket ++ rest))))

-- The rows where the buckets begin, and the last one's end.
abbrev pub boundaries_of : ℕ → ℕ → ℕ → List ℕ
boundaries_of rows_per_bucket n_rows nr_buckets =
    map (λ b. min (b * rows_per_bucket) n_rows) (count_up 0 (nr_buckets + 1))

unfoldable pub write_ism_file : Bool → ℕ → List WriteIsmColumn → Option (List ℕ)
write_ism_file big n_rows cols =
    let rows_per_bucket = ism_rows_per_bucket ism_bucket_size cols in
    let nr_buckets = div_ceil n_rows rows_per_bucket in
    and_then (write_header big ism_bucket_size nr_buckets) (λ header.
      and_then (write_buckets big rows_per_bucket n_rows cols 0 nr_buckets) (λ buckets.
        and_then
          (encode_ism_index big (boundaries_of rows_per_bucket n_rows nr_buckets)
            (map (λ b. b % 2 ^ 32) (count_up 0 nr_buckets)))
          (λ index. some (resize data_start header ++ (buckets ++ index)))))
