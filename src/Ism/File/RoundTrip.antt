-- ===== src/Ism/File/RoundTrip.antt =====
-- A file that `write_ism_file` of crates/casacure/src/ism.rs wrote, parsed and walked over.
use casacure.Prelude.{
  ℕ, zero, suc, ◌+◌, ◌-◌, ◌*◌, ◌/◌, ◌%◌, ◌^◌, ◌≤◌, ◌<◌, ◌≡◌, refl, ap, ◌∙◌, min, Bool, false, List,
  some, inl, inr, arith, map, ltb, leb, get_elem?, Bool-cases,
}
use native.Mathlib.Nat.{mul-le-mul_right, div-add-mod, mod-lt}
use casacure.Result.{ok}
use native.Mathlib.Numerals.{add-one}
use casacure.Search.{Ascending}
use casacure.Ssm.Layout.{div_ceil, div_ceil_mul, mul-lt_of_lt_div_ceil}
use casacure.Ssm.Encode.{count_up}
use casacure.Ism.{ism_bucket_size}
use casacure.Ism.Index.{bucket_for, bucket_for_iff}
use casacure.Ism.Bucket.{WriteIsmColumn, bucket_cells}
use casacure.Ism.Bucket.RoundTrip.{cells}
use casacure.Ism.Bucket.Refinement.{bucket_cells-encode}
use casacure.Ism.File.{IsmFile, bucket_bytes, one_bucket, each_bucket, boundaries_of}
use casacure.Ism.File.Parts.{part, get_elem?-part, AreFull-part, cells-part, cells_add}
use casacure.Ism.File.Bounds.{get_elem?-count_zero, Ascending-count_up, boundary-lt}
use casacure.Ism.File.Buckets.{IsTable, IsBucket, rpb, rows_per_bucket_bound, All-full}

-- A parsed file whose buckets are those of the table.
pub record Holds (big : Bool) (n_rows : ℕ) (cols : List WriteIsmColumn)
    (table : IsTable n_rows cols) (f : IsmFile) : Type 0 where
  pub nr : ℕ
  pub nr_eq : nr ≡ div_ceil n_rows (rpb big n_rows cols table)
  pub few : nr < 2 ^ 32
  pub order : f.header.big_endian ≡ big
  pub size : f.header.bucket_size ≡ ism_bucket_size
  pub rows : f.index.rows ≡ boundaries_of (rpb big n_rows cols table) n_rows nr
  pub numbers : f.index.bucket_numbers ≡ map (λ b. b % 2 ^ 32) (count_up 0 nr)
  pub buckets :
      (i : ℕ)
      → i < nr
      → (b : List ℕ) × (bucket_bytes f i ≡ ok b) × IsBucket big n_rows cols table i b

module _ (big : Bool) (n_rows : ℕ) (cols : List WriteIsmColumn) (table : IsTable n_rows cols)
    (f : IsmFile) (held : Holds big n_rows cols table f) where
  abbrev r : ℕ
  r = rpb big n_rows cols table

  bucket_of :
      (row : ℕ) → row < n_rows → (row / r < held.nr) × (row / r * r ≤ row) × (row < row / r * r + r)
  bucket_of row lt =
      let some_rows : 0 < r = (rows_per_bucket_bound cols).0 in
      let whole = div-add-mod row r in
      let low : row % r < r = mod-lt row some_rows in
      let from : row / r * r ≤ row = omega arith in
      elim (Bool-cases (ltb (row / r) held.nr)) [
        | inl t ↦ (ground arith, from, omega arith)
        | inr t ↦
            let far : held.nr * r ≤ row / r * r = mul-le-mul_right r (ground arith) in
            absurd
              (omega (arith, div_ceil_mul n_rows r some_rows, ap (λ (t : ℕ). t * r) held.nr_eq))
      ]

  start-lt : (x : ℕ) → x < held.nr → x * r < n_rows
  start-lt x lt =
      mul-lt_of_lt_div_ceil n_rows r x (rows_per_bucket_bound cols).0 (omega (arith, held.nr_eq))

  boundary_at : (i : ℕ) → i ≤ held.nr → get_elem? f.index.rows i ≡ some (min (i * r) n_rows)
  boundary_at i le =
      rw held.rows (get_elem?-count_zero (λ b. min (b * r) n_rows) (held.nr + 1) i (omega arith))

  rows-Ascending : Ascending f.index.rows
  rows-Ascending =
      rw (held.rows, add-one)
        (Ascending-count_up (λ b. min (b * r) n_rows) 0 held.nr
          (λ x lt.
            boundary-lt r n_rows x (rows_per_bucket_bound cols).0 (start-lt x (omega arith))))

  bucket_for-row :
      (row : ℕ)
      → row < n_rows
      → bucket_for f.index row
        ≡ some (row / r, row - row / r * r, min (row / r * r + r) n_rows - row / r * r)
  bucket_for-row row lt =
      let i : ℕ = row / r in
      let (inside, from, below) = bucket_of row lt in
      let start : min (i * r) n_rows ≡ i * r = omega arith in
      let next : min (suc i * r) n_rows ≡ i * r + (min (i * r + r) n_rows - i * r) =
        let e : suc i * r ≡ i * r + r = omega arith in omega arith in
      let number : get_elem? f.index.bucket_numbers i ≡ some i =
        let fits : i % 2 ^ 32 ≡ i = omega (arith, held.few) in
        rw held.numbers (get_elem?-count_zero (λ b. b % 2 ^ 32) held.nr i inside ∙ ap some fits) in
      (bucket_for_iff f.index row i (row - i * r) (min (i * r + r) n_rows - i * r) rows-Ascending).1
        (
          i,
          i * r,
          omega arith,
          omega arith,
          boundary_at i (omega arith) ∙ ap some start,
          boundary_at (suc i) (omega arith) ∙ ap some next,
          number,
        )

  module _ (column : ℕ) (c : WriteIsmColumn) (found : get_elem? cols column ≡ some c) where
    -- The rows of one bucket, up to its end or to the last that is asked for.
    one_bucket-cells :
        (row end : ℕ)
        → row < end
        → end ≤ n_rows
        → (stop : ℕ) × (0 < stop)
          × (row + stop ≤ end)
          × (one_bucket f column c.cell_size end row ≡ ok (cells c row stop, row + stop))
    unfolding one_bucket
    one_bucket-cells row end lt le =
        let i : ℕ = row / r in
        let s : ℕ = i * r in
        let e : ℕ = min (s + r) n_rows in
        let stop : ℕ = min (e - s - (row - s)) (end - row) in
        let (inside, from, below) = bucket_of row (omega arith) in
        let (b, bytes, (encoded, sized)) = held.buckets i inside in
        let outside : leb (e - s) (row - s) ≡ false = ground arith in
        let read : bucket_cells big b c.cell_size column row (row - s) stop
            ≡ ok (cells (part s e c) (row - s) stop) =
          bucket_cells-encode big ism_bucket_size (e - s) (map (part s e) cols) b column
            (part s e c) row (row - s) stop (omega arith) encoded
            (get_elem?-part s e cols column c found)
            (AreFull-part s e cols (omega arith)
              (All-full big n_rows cols table cols e (omega arith) table.full))
            (omega arith) (omega (arith, rows_per_bucket_bound cols)) (omega arith) in
        let same : cells (part s e c) (row - s) stop ≡ cells c row stop =
          let whole : s + (row - s) ≡ row = omega arith in
          rw whole at (cells-part s e c (row - s) stop (omega arith) (omega arith)) in
        (
          stop,
          omega arith,
          omega arith,
          rw (bucket_for-row row (omega arith), outside, bytes, held.order, read, same) refl,
        )

    pub each_bucket-cells :
        (fuel row end : ℕ)
        → end - row ≤ fuel
        → row ≤ end
        → end ≤ n_rows
        → each_bucket f column c.cell_size end fuel row ≡ ok (cells c row (end - row))
    unfolding each_bucket
    each_bucket-cells zero row end enough le inside =
        let t : ltb row end ≡ false = ground arith in
        let e : end - row ≡ 0 = omega arith in rw (t, e) refl
    each_bucket-cells (suc fuel) row end enough le inside = elim (Bool-cases (ltb row end)) [
      | inl t ↦
          let (stop, some_rows, short, part) = one_bucket-cells row end (ground arith) inside in
          let whole : end - row ≡ stop + (end - (row + stop)) = omega arith in
          rw
            (
              t,
              part,
              each_bucket-cells fuel (row + stop) end (omega arith) short inside,
              whole,
              cells_add c row stop (end - (row + stop)),
            )
            refl
      | inr t ↦ let e : end - row ≡ 0 = ground arith in rw (t, e) refl
    ]
