-- ===== src/Tests/Incremental.antt =====
-- The interval buckets and the file of crates/casacure/src/ism.rs, and the data types of record.rs, at
-- concrete inputs.
use casacure.Prelude.{
  ℕ, ◌+◌, ◌*◌, ◌^◌, ◌<◌, ◌≤◌, ◌≡◌, ◌≢◌, refl, true, false, List, [], ◌∷◌, ◌++◌, some, arith,
  replicate, length,
}
use casacure.Prelude.Int.{pos, negsuc}
use casacure.Result.{ok, err}
use casacure.Ism.{out_of_fuel}
use casacure.Bytes.{to_bytes, to_le_bytes, from_bytes, from_le_bytes, bytes_eq}
use casacure.Positions.{read_each}
use casacure.Records.{u_char}
use casacure.Search.{lower_bound}
use casacure.Ism.Index.{bucket_for, bracket}
use casacure.Ism.Bucket
use casacure.Ism.Bucket.{
  WriteIsmColumn, encode_ism_bucket, bucket_cells, sum_sizes, ism_rows_per_bucket,
}
use casacure.Ism.Bucket.Refinement.{bucket_cells-encode}
use casacure.Ism.Bucket.Fits.{encode_ism_bucket-fits}
use casacure.Ism.File.{
  IsmFile, parse, write_ism_file, for_each_cell_raw, each_bucket, one_bucket, bucket_bytes,
  scalar_cell_size, ism_cell_size,
}
use casacure.Ism.File.Loop.{each_bucket-enough, for_each_cell_raw-counted}
use casacure.Ism.File.Buckets.{IsTable}
use casacure.Ism.File.Written.{buckets_of, for_each_cell_raw-write}

-- Three rows; the first two are equal.
abbrev column : WriteIsmColumn
column = record { cell_size = 1; bytes = 7 ∷ 7 ∷ 9 ∷ [] }

abbrev columns : List WriteIsmColumn
columns = column ∷ []

abbrev bucket : List ℕ
bucket =
    6 ∷ 0 ∷ 0 ∷ 0 ∷ 7 ∷ 9 ∷ 2 ∷ 0 ∷ 0 ∷ 0 ∷ 0 ∷ 0 ∷ 0 ∷ 0 ∷ 2 ∷ 0 ∷ 0 ∷ 0 ∷ 0 ∷ 0 ∷ 0 ∷ 0 ∷ 1 ∷ 0
    ∷ 0 ∷ 0 ∷ 0 ∷ 0 ∷ []

bucket-encoded : encode_ism_bucket false 28 3 columns ≡ some bucket
unfolding Bucket.encode_ism_bucket Bucket.plans Bucket.plan Bucket.starts_from Bucket.is_same
    bytes_eq Bucket.place_rows Bucket.place_row Bucket.place_cell Bucket.begins Bucket.index_length
    Bucket.fill_bucket Bucket.put_columns Bucket.put_column Bucket.put_words Bucket.put_word
    to_bytes to_le_bytes
bucket-encoded = refl

bucket_cells-encode_example : bucket_cells false bucket 1 0 100 1 2 ≡ ok ((7 ∷ []) ∷ (9 ∷ []) ∷ [])
bucket_cells-encode_example =
    bucket_cells-encode false 28 3 columns bucket 0 column 100 1 2 (omega arith) bucket-encoded refl
      (omega arith, tt) (omega arith) (omega arith) (omega arith)

allowed : 2 < ism_rows_per_bucket 48 columns
unfolding ism_rows_per_bucket sum_sizes
allowed = omega arith

one_row_fits : 4 + 4 * length columns + (sum_sizes columns + 8 * length columns) ≤ 48
unfolding sum_sizes
one_row_fits = omega arith

encode_ism_bucket-fits_example :
    (b : List ℕ) × (encode_ism_bucket true 48 3 columns ≡ some b) × (length b ≡ 48)
encode_ism_bucket-fits_example =
    encode_ism_bucket-fits true 48 3 columns allowed one_row_fits (omega arith) (omega arith, tt)

abbrev file : IsmFile
file = record {
  header = record {
    version = 5;
    big_endian = false;
    bucket_size = 28;
    nbucket = 1;
    pers_cache_size = 1;
    uniq_nr = 0;
    n_free_bucket = 0;
    first_free_bucket = negsuc 0;
  };
  index = record { rows = 0 ∷ 3 ∷ []; bucket_numbers = 0 ∷ [] };
  bytes = replicate 512 0 ++ bucket;
}

each_bucket-enough_example :
    (each_bucket file 0 1 3 3 0 ≢ err out_of_fuel)
    × (each_bucket file 0 1 3 (3 + 4) 0 ≡ each_bucket file 0 1 3 3 0)
each_bucket-enough_example = each_bucket-enough file 0 1 3 3 4 0 (omega arith)

abbrev visited_cells : List (List ℕ)
visited_cells = (7 ∷ []) ∷ (9 ∷ []) ∷ []

visited : for_each_cell_raw file 0 u_char (pos 0) 1 2 ≡ ok visited_cells
unfolding for_each_cell_raw each_bucket one_bucket bucket_for bracket lower_bound bucket_bytes
    scalar_cell_size ism_cell_size Bucket.bucket_cells Bucket.column_index Bucket.skip_columns
    Bucket.read_column Bucket.read_word_at Bucket.first_interval Bucket.walk Bucket.advance
    Bucket.cell_at read_each from_bytes from_le_bytes
visited = refl

for_each_cell_raw-counted_example : length visited_cells ≡ 2
for_each_cell_raw-counted_example =
    for_each_cell_raw-counted file 0 u_char (pos 0) 1 2 visited_cells visited

columns-IsTable : IsTable 3 columns
unfolding sum_sizes
columns-IsTable = record { full = (omega arith, tt); one_row = omega arith }

few_buckets : buckets_of 3 columns + 1 < 2 ^ 32
unfolding ism_rows_per_bucket sum_sizes
few_buckets = omega arith

whole-cell_size : ism_cell_size u_char (pos 0) ≡ 1
unfolding ism_cell_size scalar_cell_size
whole-cell_size = refl

for_each_cell_raw-write_example :
    (bytes : List ℕ) × (write_ism_file true 3 columns ≡ some bytes)
    × (f : IsmFile) × (parse bytes true ≡ ok f)
    × (for_each_cell_raw f 0 u_char (pos 0) 1 2 ≡ ok ((7 ∷ []) ∷ (9 ∷ []) ∷ []))
for_each_cell_raw-write_example =
    for_each_cell_raw-write true 3 columns columns-IsTable few_buckets (omega arith) 0 column u_char
      (pos 0) 1 2 refl refl whole-cell_size (omega arith)
