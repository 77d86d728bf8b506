-- ===== src/Ssm/Cells.antt =====
-- Where a cell lies in the data file of crates/casacure/src/ssm.rs: `bucket_bytes`, `cell_bytes`,
-- `cell_bytes_in_bucket` and `cell_bits` of `StandardStManFile`. The arithmetic of `u64` wraps, as
-- in a release build; `usize` has 64 bits.
use casacure.Prelude.{
  ℕ, ◌+◌, ◌-◌, ◌*◌, ◌/◌, ◌%◌, ◌^◌, ◌≤◌, ◌<◌, ◌≡◌, refl, false, ◌&&◌, List, Option, none, some, leb,
  ◌==◌, if◌then◌else◌, length, get_elem?, slice, arith,
}
use casacure.Result.{Result, ok, err, ◌>>=◌}
use casacure.Ssm.{
  SsmError, invalid_bucket, index_missing, row_out_of_range, cell_out_of_range, SsmIndex,
  IndexedBucket, data_start,
}
use casacure.Ssm.Index.{find}
use casacure.Ssm.Layout.{div_ceil, region}
use native.Mathlib.Nat.{mul-le-mul_right}

-- The sums and products of `u64`.
abbrev pub add_u64 : ℕ → ℕ → ℕ
add_u64 a b = (a + b) % 2 ^ 64

abbrev pub mul_u64 : ℕ → ℕ → ℕ
mul_u64 a b = a * b % 2 ^ 64

abbrev pub sub_u64 : ℕ → ℕ → ℕ
sub_u64 a b = (a + 2 ^ 64 - b) % 2 ^ 64

-- `data.get(start..end)`
unfoldable pub get_range : List ℕ → ℕ → ℕ → Option (List ℕ)
get_range bytes start end =
    if leb start end && leb end (length bytes) then some (slice bytes start (end - start)) else none

abbrev pub ok_or {ℓ} : {A : Type ℓ} → Option A → SsmError → Result SsmError A
ok_or (some a) e = ok a
ok_or none e = err e

unfoldable pub bucket_bytes : List ℕ → ℕ → ℕ → Result SsmError (List ℕ)
bucket_bytes bytes size number =
    let start = data_start + number * size in
    ok_or (get_range bytes start (start + size)) (invalid_bucket number)

-- Where the cell begins: in bits, from the start of the bucket.
abbrev pub bit_offset : ℕ → ℕ → ℕ → IndexedBucket → ℕ
bit_offset column_offset row cell_bits bucket =
    add_u64 (column_offset * 8) (mul_u64 (sub_u64 row bucket.start_row) cell_bits)

abbrev pub byte_offset : ℕ → ℕ → IndexedBucket → ℕ
byte_offset bucket_size bits bucket =
    add_u64 (add_u64 data_start (bucket.number * bucket_size)) (bits / 8)

-- The bytes from `start`, with the bit of the first one where the cell begins.
abbrev pub cell_at : List ℕ → ℕ → ℕ → ℕ → ℕ → Result SsmError (List ℕ × ℕ)
cell_at bytes number bits start nbytes =
    if leb (2 ^ 64) (start + nbytes)
    then err (cell_out_of_range number (bits / 8) nbytes)
    else ok_or (get_range bytes start (start + nbytes)) (cell_out_of_range number (bits / 8) nbytes)
      >>= λ cell. ok (cell, bits % 8)

-- A cell of size 0 is a bit.
unfoldable pub cell_bytes_in_bucket :
    List ℕ → ℕ → ℕ → ℕ → ℕ → IndexedBucket → Result SsmError (List ℕ × ℕ)
cell_bytes_in_bucket bytes bucket_size column_offset row cell_size bucket =
    let cell_bits = if cell_size == 0 then 1 else cell_size * 8 in
    let bits = bit_offset column_offset row cell_bits bucket in
    let nbytes = if cell_size == 0 then div_ceil (bits % 8 + 1) 8 else cell_size in
    cell_at bytes bucket.number bits (byte_offset bucket_size bits bucket) nbytes

-- The bucket of a row in the index of the column.
unfoldable pub bucket_in : List SsmIndex → ℕ → ℕ → Result SsmError IndexedBucket
bucket_in indices index_nr row =
    ok_or (get_elem? indices index_nr) (index_missing index_nr (length indices)) >>= λ index.
    ok_or (find index row) (row_out_of_range row)

unfoldable pub cell_bytes :
    List ℕ → ℕ → List SsmIndex → ℕ → ℕ → ℕ → ℕ → Result SsmError (List ℕ × ℕ)
cell_bytes bytes bucket_size indices index_nr column_offset row cell_size =
    bucket_in indices index_nr row >>= λ bucket.
    cell_bytes_in_bucket bytes bucket_size column_offset row cell_size bucket

unfoldable pub cell_bits : List ℕ → ℕ → List SsmIndex → ℕ → ℕ → ℕ → ℕ → Result SsmError (List ℕ × ℕ)
cell_bits bytes bucket_size indices index_nr column_offset row nbits =
    bucket_in indices index_nr row >>= λ bucket.
    let bits = bit_offset column_offset row nbits bucket in
    let start = byte_offset bucket_size bits bucket in
    let len = div_ceil (add_u64 (bits % 8) nbits) 8 in
    ok_or (get_range bytes start (add_u64 start len))
      (cell_out_of_range bucket.number (bits / 8) len)
    >>= λ cell. ok (cell, bits % 8)

-- Where a cell of `size` bytes lies.
abbrev pub cell_start : ℕ → ℕ → ℕ → ℕ → IndexedBucket → ℕ
cell_start bucket_size column_offset row size bucket =
    data_start + bucket.number * bucket_size + column_offset + (row - bucket.start_row) * size

pub get_range-slice :
    (bytes : List ℕ) (start n : ℕ)
    → start + n ≤ length bytes
    → get_range bytes start (start + n) ≡ some (slice bytes start n)
unfolding get_range
get_range-slice bytes start n h = let e : start + n - start ≡ n = omega arith in rw e (ground arith)

module _ (bytes : List ℕ) (bucket_size column_offset row size : ℕ) (bucket : IndexedBucket) where
  bits_exact :
      bucket.start_row ≤ row
      → row < 2 ^ 64
      → (column_offset + (row - bucket.start_row) * size) * 8 < 2 ^ 64
      → bit_offset column_offset row (size * 8) bucket
        ≡ (column_offset + (row - bucket.start_row) * size) * 8
  bits_exact from fits short =
      let k : ℕ = row - bucket.start_row in
      let p : ℕ = k * size in
      let e : k * (size * 8) ≡ p * 8 = omega arith in
      let d : (row + 2 ^ 64 - bucket.start_row) % 2 ^ 64 ≡ k = omega arith in
      rw (d, e) (omega arith)

  bytes_exact :
      bucket.start_row ≤ row
      → row < 2 ^ 64
      → (column_offset + (row - bucket.start_row) * size) * 8 < 2 ^ 64
      → cell_start bucket_size column_offset row size bucket < 2 ^ 64
      → byte_offset bucket_size (bit_offset column_offset row (size * 8) bucket) bucket
        ≡ cell_start bucket_size column_offset row size bucket
  bytes_exact from fits short low = rw (bits_exact from fits short) (omega arith)

  skip_exact :
      bucket.start_row ≤ row
      → row < 2 ^ 64
      → (column_offset + (row - bucket.start_row) * size) * 8 < 2 ^ 64
      → bit_offset column_offset row (size * 8) bucket % 8 ≡ 0
  skip_exact from fits short = rw (bits_exact from fits short) (omega arith)

  cell_at-slice :
      (start bits : ℕ)
      → start + size ≤ length bytes
      → length bytes < 2 ^ 64
      → bits % 8 ≡ 0
      → cell_at bytes bucket.number bits start size ≡ ok (slice bytes start size, 0)
  cell_at-slice start bits inside small whole =
      let low : leb (2 ^ 64) (start + size) ≡ false = ground arith in
      rw (low, get_range-slice bytes start size inside, whole) refl

  cell_bytes_in_bucket-slice :
      0 < size
      → bucket.start_row ≤ row
      → row < 2 ^ 64
      → (column_offset + (row - bucket.start_row) * size) * 8 < 2 ^ 64
      → cell_start bucket_size column_offset row size bucket + size ≤ length bytes
      → length bytes < 2 ^ 64
      → cell_bytes_in_bucket bytes bucket_size column_offset row size bucket
        ≡ ok (slice bytes (cell_start bucket_size column_offset row size bucket) size, 0)
  unfolding cell_bytes_in_bucket
  cell_bytes_in_bucket-slice some_bytes from fits short inside small =
      let whole_bytes : (size == 0) ≡ false = ground arith in
      rw (whole_bytes, bytes_exact from fits short (omega arith))
        (cell_at-slice _ _ inside small (skip_exact from fits short))

  -- The cell of a 64-bit row that a bucket holds as one of its `rows` rows, in a column of whole bytes
  -- whose region ends below 2 ^ 61 bytes: where the file, of fewer than 2 ^ 64 bytes, reaches over the
  -- cell, the bytes that are returned are those at the cell's place, and they lie in the region that
  -- the layout gives the column.
  pub cell_bytes_in_bucket-region :
      (rows : ℕ)
      → 0 < size
      → bucket.start_row ≤ row
      → row - bucket.start_row < rows
      → row < 2 ^ 64
      → (column_offset + rows * size) * 8 < 2 ^ 64
      → cell_start bucket_size column_offset row size bucket + size ≤ length bytes
      → length bytes < 2 ^ 64
      → (cell_bytes_in_bucket bytes bucket_size column_offset row size bucket
          ≡ ok (slice bytes (cell_start bucket_size column_offset row size bucket) size, 0))
        × (data_start + bucket.number * bucket_size + column_offset
            ≤ cell_start bucket_size column_offset row size bucket)
        × (cell_start bucket_size column_offset row size bucket + size
            ≤ data_start + bucket.number * bucket_size + column_offset + region rows (size * 8))
  unfolding region
  cell_bytes_in_bucket-region rows some_bytes from held fits short inside small =
      let k : ℕ = row - bucket.start_row in
      let below : (k + 1) * size ≤ rows * size = mul-le-mul_right size (omega arith) in
      let e : (k + 1) * size ≡ k * size + size = omega arith in
      let p : rows * (size * 8) ≡ rows * size * 8 = omega arith in
      (
        cell_bytes_in_bucket-slice some_bytes from fits (omega arith) inside small,
        omega arith,
        omega arith,
      )
