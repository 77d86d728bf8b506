-- ===== src/Ism/Bucket/Refinement.antt =====
-- An interval bucket of crates/casacure/src/ism.rs is a table of cells: what `encode_ism_bucket` lays out,
-- the walk of `for_each_cell_raw` finds row by row.
use casacure.Prelude.{
  ℕ, zero, suc, ◌+◌, ◌*◌, ◌^◌, ◌≤◌, ◌<◌, ◌≡◌, refl, Bool, List, [], ◌∷◌, none, some, inl, inr,
  arith, ltb, length, get_elem?, Bool-cases, ◌++◌,
}
use casacure.Result.{ok}
use casacure.Aipsio.Reads.{All}
use casacure.Ism.Bucket.{
  WriteIsmColumn, starts_from, is_same, Plan, plans, place_rows, index_length, fill_bucket,
  encode_ism_bucket, column_index, bucket_cells,
}
use casacure.Ism.Bucket.Intervals.{first_interval-some}
use casacure.Ism.Bucket.Rows.{AllLaid, AllLaid-rows}
use casacure.Ism.Bucket.Written.{image, fill_bucket-image}
use casacure.Ism.Bucket.Reading.{column_index-image}
use casacure.Ism.Bucket.RoundTrip.{cells, AreFull, All-at, Laid-at, AllLaid-IsSmall, walk-cells}

first_start : (c : WriteIsmColumn) (n : ℕ) → 0 < n → get_elem? (starts_from c 0 n none) 0 ≡ some 0
unfolding starts_from is_same
first_start c zero h = absurd (omega arith)
first_start c (suc n) h = refl

pub AllLaid-counted :
    (n : ℕ) (out : List ℕ) (cs : List WriteIsmColumn) (ps : List Plan)
    → AllLaid n n out cs ps
    → All (λ p. length p.offsets ≡ length p.starts) ps
AllLaid-counted n out cs [] h = tt
AllLaid-counted n out [] (p ∷ ps) h = elim h [ ]
AllLaid-counted n out (c ∷ cs) (p ∷ ps) h = (h.0.placed.counted, AllLaid-counted n out cs ps h.1)

index_length-le :
    (ps : List Plan) (i : ℕ) (p : Plan) → get_elem? ps i ≡ some p → 4 ≤ index_length ps
unfolding index_length
index_length-le [] i p e = cc
index_length-le (q ∷ ps) i p e = omega arith

bucket_cells-image :
    (big : Bool) (n : ℕ) (body : List ℕ) (cols : List WriteIsmColumn) (ps : List Plan)
    (rest : List ℕ) (column : ℕ) (c : WriteIsmColumn) (row intra stop : ℕ)
    → n ≤ 2 ^ 32
    → 4 + length body + index_length ps ≤ 2 ^ 28
    → AllLaid n n body cols ps
    → get_elem? cols column ≡ some c
    → n * c.cell_size ≤ length c.bytes
    → 0 < n
    → intra + stop ≤ n
    → bucket_cells big (image big body ps ++ rest) c.cell_size column row intra stop
      ≡ ok (cells c intra stop)
unfolding bucket_cells
bucket_cells-image big n body cols ps rest column c row intra stop bound low h e full some_rows
      inside =
    let (p, at, laid) = Laid-at n body cols ps column c h e in
    let start : get_elem? p.starts 0 ≡ some 0 = rw laid.starts (first_start c n some_rows) in
    let (inx, s, found, from, le) = first_interval-some p.starts intra start in
    let short : length body + 4 < 2 ^ 28 = omega (arith, index_length-le ps column p at) in
    let index : column_index big (image big body ps ++ rest) column
        ≡ ok (record { rows = p.starts; offsets = p.offsets }) =
      column_index-image big body ps column p rest short
        (AllLaid-IsSmall n body cols ps bound h (omega arith)) at in
    rw (index, found)
      (walk-cells big body ps rest n c p column bound (omega arith) laid full stop row intra inx s
        inside from le)

-- In a bucket of at most 2 ^ 28 bytes that was laid out for `n` rows, at least one and at most 2 ^ 32,
-- of columns that hold a cell for each of them, the walk over rows of a column, for a range of rows
-- that lies in the bucket and wherever the bucket stands in the table, visits exactly the cells that
-- were given, one for each row: the runs of equal cells that share one stored value cannot be told
-- from a plain table of cells.
pub bucket_cells-encode :
    (big : Bool) (bucket_size n : ℕ) (cols : List WriteIsmColumn) (b : List ℕ) (column : ℕ)
    (c : WriteIsmColumn) (row intra stop : ℕ)
    → bucket_size ≤ 2 ^ 28
    → encode_ism_bucket big bucket_size n cols ≡ some b
    → get_elem? cols column ≡ some c
    → AreFull n cols
    → 0 < n
    → n ≤ 2 ^ 32
    → intra + stop ≤ n
    → bucket_cells big b c.cell_size column row intra stop ≡ ok (cells c intra stop)
unfolding encode_ism_bucket
bucket_cells-encode big bucket_size n cols b column c row intra stop small e at full some_rows bound
      inside =
    let body : List ℕ = (place_rows 0 n [] (plans n cols)).0 in
    let ps : List Plan = (place_rows 0 n [] (plans n cols)).1 in
    let laid : AllLaid n n body cols ps = AllLaid-rows n cols bound in
    elim (Bool-cases (ltb bucket_size (4 + length body + index_length ps))) [
      | inl t ↦ let bad : none ≡ some b = rw t at e in cc
      | inr t ↦
          let good : some (fill_bucket big bucket_size body ps) ≡ some b = rw t at e in
          let (rest, whole, _) =
            fill_bucket-image big bucket_size body ps (AllLaid-counted n body cols ps laid)
              (ground arith) in
          let same : b ≡ image big body ps ++ rest = cc in
          rw same (
            bucket_cells-image big n body cols ps rest column c row intra stop bound (ground arith)
              laid at (All-at _ cols column c full at) some_rows inside)
    ]
