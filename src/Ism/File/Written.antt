-- ===== src/Ism/File/Written.antt =====
-- Every cell of a table that `write_ism_file` of crates/casacure/src/ism.rs writes is read back by
-- `parse` and `for_each_cell_raw`.
use casacure.Prelude.{
  ℕ, ◌+◌, ◌-◌, ◌*◌, ◌%◌, ◌^◌, ◌≤◌, ◌<◌, ◌≡◌, refl, ◌∙◌, subst, slice, min, Bool, false, List, ◌++◌,
  some, arith, map, get_elem?,
}
use casacure.Prelude.Int.{ℤ}
use casacure.Result.{ok}
use casacure.Records.{DataType}
use casacure.Aipsio.Reader.{reader_for}
use casacure.Aipsio.Reads.Words.{IsU32, IsU64}
use casacure.Ssm.Layout.{div_ceil, mul-lt_of_lt_div_ceil}
use native.Mathlib.Numerals.{add-one}
use native.Mathlib.Nat.{zero-add}
use casacure.Ssm.Encode.{count_up}
use casacure.Ism.{IsmIndex, ism_bucket_size}
use casacure.Ism.Parse.{read_index}
use casacure.Ism.Encode.{encode_ism_index}
use casacure.Ism.RoundTrip.Header.{read_ism_header-encode}
use casacure.Ism.RoundTrip.IndexStream.{read_index-encode}
use casacure.Ism.Bucket.{WriteIsmColumn, ism_rows_per_bucket}
use casacure.Ism.Bucket.RoundTrip.{cells}
use casacure.Ism.File.{
  IsmFile, parse, boundaries_of, write_header, write_ism_file, is_string, ism_cell_size,
  for_each_cell_raw, each_bucket,
}
use casacure.Ism.File.Bounds.{length-count_up, All-count_up, Ascending-count_up, boundary-lt}
use casacure.Ism.File.Buckets.{IsTable, IsBucket, rows_per_bucket_bound, write_buckets-IsBucket}
use casacure.Ism.File.RoundTrip.{Holds, each_bucket-cells}
use casacure.Ism.File.Whole.{
  fresh_header, fresh-IsHeader, write_header-encode, parsed, parse-bytes, bucket_bytes-at,
}

-- How many buckets the table takes.
abbrev pub buckets_of : ℕ → List WriteIsmColumn → ℕ
buckets_of n_rows cols = div_ceil n_rows (ism_rows_per_bucket ism_bucket_size cols)

module _ (big : Bool) (n_rows : ℕ) (cols : List WriteIsmColumn) (table : IsTable n_rows cols)
    (few : buckets_of n_rows cols + 1 < 2 ^ 32) (rows_bound : n_rows < 2 ^ 64) where
  abbrev r : ℕ
  r = ism_rows_per_bucket ism_bucket_size cols

  abbrev nr : ℕ
  nr = buckets_of n_rows cols

  abbrev numbers : List ℕ
  numbers = map (λ b. b % 2 ^ 32) (count_up 0 nr)

  start-lt : (x : ℕ) → x < nr → x * r < n_rows
  start-lt x lt = mul-lt_of_lt_div_ceil n_rows r x (rows_per_bucket_bound cols).0 lt

  index_written :
      (bytes : List ℕ) × (encode_ism_index big (boundaries_of r n_rows nr) numbers ≡ some bytes)
      × ((rest : List ℕ)
          → (read_index (reader_for big (bytes ++ rest))).0
            ≡ ok (record { rows = boundaries_of r n_rows nr; bucket_numbers = numbers }))
  index_written =
      read_index-encode big (boundaries_of r n_rows nr) numbers
        (rw add-one (
          Ascending-count_up (λ b. min (b * r) n_rows) 0 nr
            (λ x lt.
              boundary-lt r n_rows x (rows_per_bucket_bound cols).0 (start-lt x (omega arith)))))
        (All-count_up IsU64 (λ b. min (b * r) n_rows) 0 (nr + 1) (λ x lt. omega arith))
        (All-count_up IsU32 (λ b. b % 2 ^ 32) 0 nr (λ x lt. omega arith))
        (omega (arith, length-count_up (λ b. min (b * r) n_rows) 0 (nr + 1)))
        (omega (arith, length-count_up (λ b. b % 2 ^ 32) 0 nr))

  file_written :
      (bytes : List ℕ) × (write_ism_file big n_rows cols ≡ some bytes)
      × (f : IsmFile) × (parse bytes big ≡ ok f)
      × Holds big n_rows cols table f
  unfolding write_ism_file
  file_written =
      let low : nr < 2 ^ 32 = omega arith in
      let (head, headed, _) =
        read_ism_header-encode (fresh_header big nr) (fresh-IsHeader big nr low) in
      let (buckets, e, counted, at) =
        write_buckets-IsBucket big n_rows cols table 0 nr
          (λ x lt. omega (arith, start-lt x (omega arith))) in
      let (index_bytes, indexed, reads) = index_written in
      let index : IsmIndex = record {
        rows = boundaries_of r n_rows nr;
        bucket_numbers = numbers;
      } in
      let first : write_header big ism_bucket_size nr ≡ some head =
        write_header-encode big nr low ∙ headed in
      (
        _,
        rw (first, e, indexed) refl,
        parsed big nr low head buckets index_bytes index headed counted reads,
        parse-bytes big nr low head buckets index_bytes index headed counted reads,
        record {
          nr = nr;
          nr_eq = refl;
          few = low;
          order = refl;
          size = refl;
          rows = refl;
          numbers = refl;
          buckets = λ i lt. (
            slice buckets (i * ism_bucket_size) ism_bucket_size,
            bucket_bytes-at big nr low head buckets index_bytes index headed counted reads i lt,
            subst
                (λ b.
                  IsBucket big n_rows cols table b
                    (slice buckets (i * ism_bucket_size) ism_bucket_size))
                (zero-add i) (at i lt),
          );
        },
      )

  -- A table whose columns hold a cell for each of its rows, of fewer than 2 ^ 64 rows, where one row
  -- of all the columns fits a bucket and there are fewer than 2 ^ 32 - 1 buckets, is written, in
  -- either byte order, to a file that is parsed again; and for every column, type of its cells'
  -- size other than a string, and range of rows in the table, the visit of that range in the parsed
  -- file sees exactly the column's cells, across the buckets' boundaries.
  pub for_each_cell_raw-write :
      (column : ℕ) (c : WriteIsmColumn) (t : DataType) (max_length : ℤ) (start nrow : ℕ)
      → get_elem? cols column ≡ some c
      → is_string t ≡ false
      → ism_cell_size t max_length ≡ c.cell_size
      → start + nrow ≤ n_rows
      → (bytes : List ℕ) × (write_ism_file big n_rows cols ≡ some bytes)
        × (f : IsmFile) × (parse bytes big ≡ ok f)
        × (for_each_cell_raw f column t max_length start nrow ≡ ok (cells c start nrow))
  unfolding for_each_cell_raw
  for_each_cell_raw-write column c t max_length start nrow found plain size inside =
      let (bytes, written, f, parsed_file, held) = file_written in
      let end : min (start + nrow) (2 ^ 64 - 1) ≡ start + nrow = omega arith in
      let n : start + nrow - start ≡ nrow = omega arith in
      let all : each_bucket f column c.cell_size (start + nrow) nrow start
          ≡ ok (cells c start nrow) =
        rw n at (
          each_bucket-cells big n_rows cols table f held column c found nrow start (start + nrow)
            (omega arith) (omega arith) inside) in
      (bytes, written, f, parsed_file, rw (plain, size, end) all)
