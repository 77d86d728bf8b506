-- ===== src/Ism/Bucket.antt =====
-- The interval-compressed buckets of crates/casacure/src/ism.rs: `encode_ism_bucket` lays out the
-- cells of the rows, each value once for a run of equal ones, `column_index` reads the intervals of
-- a column, and `for_each_cell_raw` walks them.
pub mod Intervals
pub mod Layout
pub mod Rows
pub mod Written
pub mod Reading
pub mod RoundTrip
pub mod Refinement
pub mod Fits
use casacure.Prelude.{
  ℕ, zero, suc, ◌+◌, ◌-◌, ◌*◌, ◌/◌, ◌%◌, ◌^◌, Bool, true, false, not, ◌&&◌, List, [], ◌∷◌, ◌++◌,
  Option, none, some, min, max, ltb, leb, ◌==◌, if◌then◌else◌, length, get_elem?, get_or, set,
  slice, replicate, overwrite,
}
use casacure.Result.{Result, ok, err, ◌>>=◌}
use casacure.Bytes.{to_bytes, from_bytes, bytes_eq}
use casacure.Positions.{read_each}
use casacure.Search.{lower_bound}
use casacure.Ism.{IsmError, column_empty, panicked}

-- `WriteIsmColumn`; the bytes are exactly the cells of its rows.
pub record WriteIsmColumn : Type 0 where
  pub cell_size : ℕ
  pub bytes : List ℕ

-- The bytes of a row's cell.
abbrev pub cell_of : WriteIsmColumn → ℕ → List ℕ
cell_of c row = slice c.bytes (row * c.cell_size) c.cell_size

-- `prev == Some(cell)`
unfoldable pub is_same : Option (List ℕ) → List ℕ → Bool
is_same none cell = false
is_same (some prev) cell = bytes_eq prev cell

-- The rows, of `n` from `row` on, where a new value begins.
unfoldable pub starts_from : WriteIsmColumn → ℕ → ℕ → Option (List ℕ) → List ℕ
starts_from c row zero prev = []
starts_from c row (suc n) prev =
    let rest = starts_from c (row + 1) n (some (cell_of c row)) in
    if is_same prev (cell_of c row) then rest else (row % 2 ^ 32) ∷ rest

-- A column while the data is laid out: its intervals, their offsets, and the next of them.
pub record Plan : Type 0 where
  pub column : WriteIsmColumn
  pub starts : List ℕ
  pub offsets : List ℕ
  pub next : ℕ

unfoldable pub plan : ℕ → WriteIsmColumn → Plan
plan nrows c =
    let starts = starts_from c 0 nrows none in
    record { column = c; starts = starts; offsets = replicate (length starts) 0; next = 0 }

unfoldable pub plans : ℕ → List WriteIsmColumn → List Plan
plans nrows [] = []
plans nrows (c ∷ cs) = plan nrows c ∷ plans nrows cs

-- Whether an interval of the column begins at the row.
unfoldable pub begins : ℕ → Plan → Bool
begins row p = ltb p.next (length p.starts) && (get_or p.starts p.next 0 == row)

-- Where one does, its cell is appended to the data and its offset filled in.
unfoldable pub place_cell : ℕ → List ℕ → Plan → List ℕ × Plan
place_cell row out p =
    if begins row p
    then (
      out ++ cell_of p.column row,
      record p { offsets = set p.offsets p.next (length out % 2 ^ 32); next = p.next + 1 },
    )
    else (out, p)

unfoldable pub place_row : ℕ → List ℕ → List Plan → List ℕ × List Plan
place_row row out [] = (out, [])
place_row row out (p ∷ ps) =
    let (out', p') = place_cell row out p in
    let (out'', ps') = place_row row out' ps in (out'', p' ∷ ps')

-- `n` rows from `row` on.
unfoldable pub place_rows : ℕ → ℕ → List ℕ → List Plan → List ℕ × List Plan
place_rows row zero out ps = (out, ps)
place_rows row (suc n) out ps =
    let (out', ps') = place_row row out ps in place_rows (row + 1) n out' ps'

-- The bytes of the per-column index.
unfoldable pub index_length : List Plan → ℕ
index_length [] = 0
index_length (p ∷ ps) = 4 + 8 * length p.starts + index_length ps

-- `put_u32_e` at a position, which then moves behind the word.
unfoldable pub put_word : Bool → ℕ → List ℕ × ℕ → List ℕ × ℕ
put_word big v (bucket, pos) = (overwrite bucket pos (to_bytes (not big) 4 (v % 2 ^ 32)), pos + 4)

unfoldable pub put_words : Bool → List ℕ → List ℕ × ℕ → List ℕ × ℕ
put_words big [] s = s
put_words big (v ∷ vs) s = put_words big vs (put_word big v s)

unfoldable pub put_column : Bool → Plan → List ℕ × ℕ → List ℕ × ℕ
put_column big p s =
    put_words big p.offsets (put_words big p.starts (put_word big (length p.starts) s))

unfoldable pub put_columns : Bool → List Plan → List ℕ × ℕ → List ℕ × ℕ
put_columns big [] s = s
put_columns big (p ∷ ps) s = put_columns big ps (put_column big p s)

-- The index offset, the data and the index, in a bucket of zeros.
unfoldable pub fill_bucket : Bool → ℕ → List ℕ → List Plan → List ℕ
fill_bucket big bucket_size body ps =
    let (bucket, pos) = put_word big (length body + 4) (replicate bucket_size 0, 0) in
    (put_columns big ps (overwrite bucket pos body, pos + length body)).0

unfoldable pub encode_ism_bucket : Bool → ℕ → ℕ → List WriteIsmColumn → Option (List ℕ)
encode_ism_bucket big bucket_size nrows cols =
    let (body, ps) = place_rows 0 nrows [] (plans nrows cols) in
    if ltb bucket_size (4 + length body + index_length ps)
    then none
    else some (fill_bucket big bucket_size body ps)

unfoldable pub sum_sizes : List WriteIsmColumn → ℕ
sum_sizes [] = 0
sum_sizes (c ∷ cs) = c.cell_size + sum_sizes cs

-- The division of a `saturating_sub`, with at least 1 for both.
unfoldable pub ism_rows_per_bucket : ℕ → List WriteIsmColumn → ℕ
ism_rows_per_bucket bucket_size cols =
    let per_row = sum_sizes cols + 8 * length cols in
    max ((bucket_size - (4 + 4 * length cols)) / max per_row 1) 1

-- `ColumnIndex`
pub record ColumnIndex : Type 0 where
  pub rows : List ℕ
  pub offsets : List ℕ

-- `read_u32_e` and `read_u64_e`, which panic past the end, with the position behind the word.
unfoldable pub read_word_at : Bool → ℕ → List ℕ → ℕ → Result IsmError (ℕ × ℕ)
read_word_at big k b pos =
    if ltb (length b) (pos + k)
    then err panicked
    else ok (from_bytes (not big) (slice b pos k), pos + k)

-- The bytes of a row number.
abbrev pub row_width : Bool → ℕ
row_width use32 = if use32 then 4 else 8

-- The place of the intervals of a column, behind those of `n` others.
unfoldable pub skip_columns : Bool → Bool → List ℕ → ℕ → ℕ → Result IsmError ℕ
skip_columns big use32 b zero pos = ok pos
skip_columns big use32 b (suc n) pos = read_word_at big 4 b pos >>= λ nr.
    skip_columns big use32 b n (nr.1 + nr.0 * row_width use32 + nr.0 * 4)

unfoldable pub read_column : Bool → Bool → List ℕ → ℕ → Result IsmError ColumnIndex
read_column big use32 b pos = read_word_at big 4 b pos >>= λ nr.
    read_each (read_word_at big (row_width use32)) b nr.0 nr.1 >>= λ rows.
    read_each (read_word_at big 4) b nr.0 rows.1 >>= λ offsets.
    ok (record { rows = rows.0; offsets = offsets.0 })

-- The high four bits of the first word tell the width of the row numbers, the others where the
-- index begins.
unfoldable pub column_index : Bool → List ℕ → ℕ → Result IsmError ColumnIndex
column_index big b column = read_word_at big 4 b 0 >>= λ ioff.
    let use32 = ioff.0 / 2 ^ 28 == 0 in
    skip_columns big use32 b column (ioff.0 % 2 ^ 28) >>= λ pos. read_column big use32 b pos

-- The interval that holds a row of the bucket.
unfoldable pub first_interval : List ℕ → ℕ → Option ℕ
first_interval rows intra_row =
    let lb = lower_bound intra_row rows in
    if ltb lb (length rows) && (get_or rows lb 0 == intra_row)
    then some lb
    else if lb == 0
    then none
    else some (lb - 1)

-- `while inx + 1 < rows.len() && rows[inx + 1] <= ir { inx += 1 }`, on as much fuel as there are
-- intervals.
unfoldable pub advance : ℕ → List ℕ → ℕ → ℕ → ℕ
advance zero rows inx ir = inx
advance (suc fuel) rows inx ir =
    let further = advance fuel rows (inx + 1) ir in
    if ltb (inx + 1) (length rows) && leb (get_or rows (inx + 1) 0) ir then further else inx

-- `b.get(offset..offset + want)`; `ci.offsets[inx]` panics out of range.
unfoldable pub cell_at : List ℕ → ColumnIndex → ℕ → ℕ → ℕ → ℕ → Result IsmError (List ℕ)
cell_at b ci want inx column row = elim (get_elem? ci.offsets inx) [
  | none ↦ err panicked
  | some o ↦
      if ltb (length b) (4 + o + want)
      then err (column_empty column row)
      else ok (slice b (4 + o) want)
]

-- The cells of `stop` rows from `ir` of the bucket on; `row` is the first of them in the table.
unfoldable pub walk : List ℕ → ColumnIndex → ℕ → ℕ → ℕ → ℕ → ℕ → ℕ → Result IsmError (List (List ℕ))
walk b ci want column zero row ir inx = ok []
walk b ci want column (suc stop) row ir inx =
    let inx' = advance (length ci.rows) ci.rows inx ir in
    cell_at b ci want inx' column row >>= λ cell.
    walk b ci want column stop (row + 1) (ir + 1) inx' >>= λ cells. ok (cell ∷ cells)

abbrev pub or_empty : Option ℕ → ℕ → ℕ → Result IsmError ℕ
or_empty (some inx) column row = ok inx
or_empty none column row = err (column_empty column row)

-- The body of the loop over the buckets.
unfoldable pub bucket_cells : Bool → List ℕ → ℕ → ℕ → ℕ → ℕ → ℕ → Result IsmError (List (List ℕ))
bucket_cells big b want column row intra_row stop = column_index big b column >>= λ ci.
    or_empty (first_interval ci.rows intra_row) column row >>= λ inx.
    walk b ci want column stop row intra_row inx
