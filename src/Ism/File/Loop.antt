-- ===== src/Ism/File/Loop.antt =====
-- The loop over the buckets in crates/casacure/src/ism.rs ends, whatever the file holds.
use casacure.Prelude.{
  ◌≢◌, ℕ, zero, suc, ◌^◌, ◌+◌, ◌-◌, ◌≤◌, ◌<◌, ◌≡◌, refl, ap, ◌∙◌, min, Bool, false, List, [], ◌∷◌,
  ◌++◌, inl, inr, arith, ltb, leb, ◌⊎◌, length, length-append, Bool-cases,
}
use native.Mathlib.Nat.{add-zero, add-suc}
use casacure.Result.{Result, ok, err, ◌>>=◌}
use casacure.Prelude.Int.{ℤ}
use casacure.Records.{DataType}
use casacure.Ism.{IsmError, row_out_of_range, out_of_fuel}
use casacure.Ism.Index.{bucket_for}
use casacure.Ism.Bucket.{
  ColumnIndex, cell_at, walk, bucket_cells, column_index, first_interval, or_empty, advance,
}
use casacure.Ism.File.{
  IsmFile, bucket_bytes, in_range, one_bucket, each_bucket, is_string, ism_cell_size,
  for_each_cell_raw,
}
use casacure.Ism.File.Ended.{
  Ended, Ended-bind, Ended-last, Ended-if, ended, Ended-bucket_cells, Ended-in_range,
  Ended-bucket_bytes,
}

Result-cases : {E A : Type 0} (r : Result E A) → ((a : A) × (r ≡ ok a)) ⊎ ((e : E) × (r ≡ err e))
Result-cases (ok a) = inl (a, refl)
Result-cases (err e) = inr (e, refl)

bind-ok :
    {E A B : Type 0} (r : Result E A) (g : A → Result E B) {b : B}
    → (r >>= g) ≡ ok b
    → (a : A) × (r ≡ ok a) × (g a ≡ ok b)
bind-ok (ok a) g h = (a, refl, h)
bind-ok (err e) g h = cc

length-walk :
    (b : List ℕ) (ci : ColumnIndex) (want column stop row ir inx : ℕ) {cells : List (List ℕ)}
    → walk b ci want column stop row ir inx ≡ ok cells
    → length cells ≡ stop
unfolding walk
length-walk b ci want column zero row ir inx {cells} h = let e : [] ≡ cells = cc in rw (← e) refl
length-walk b ci want column (suc stop) row ir inx {cells} h =
    let inx' : ℕ = advance (length ci.rows) ci.rows inx ir in
    let (cell, _, k) = bind-ok (cell_at b ci want inx' column row) _ h in
    let (rest, more, e) = bind-ok (walk b ci want column stop (row + 1) (ir + 1) inx') _ k in
    let whole : (cell ∷ rest) ≡ cells = cc in
    rw (← whole) (ap suc (length-walk b ci want column stop (row + 1) (ir + 1) inx' more))

length-bucket_cells :
    (big : Bool) (b : List ℕ) (want column row intra stop : ℕ) {cells : List (List ℕ)}
    → bucket_cells big b want column row intra stop ≡ ok cells
    → length cells ≡ stop
unfolding bucket_cells
length-bucket_cells big b want column row intra stop h =
    let (ci, _, k) = bind-ok (column_index big b column) _ h in
    let (inx, _, w) = bind-ok (or_empty (first_interval ci.rows intra) column row) _ k in
    length-walk b ci want column stop row intra inx w

module _ (f : IsmFile) (column want end : ℕ) where
  one_bucket-counted :
      (row : ℕ) {part : List (List ℕ) × ℕ}
      → one_bucket f column want end row ≡ ok part
      → row < end
      → (row < part.1) × (part.1 ≤ end) × (row + length part.0 ≡ part.1)
  unfolding one_bucket
  one_bucket-counted row {part} h lt =
      let ((nr, intra, n), _, k) = bind-ok (in_range (bucket_for f.index row) row) _ h in
      elim (Bool-cases (leb n intra)) [
        | inl t ↦ let bad : err _ ≡ ok part = rw t at k in cc
        | inr t ↦
            let stop : ℕ = min (n - intra) (end - row) in
            let (b, _, k') = bind-ok (bucket_bytes f nr) _ (rw t at k) in
            let (cells, found, e) =
              bind-ok (bucket_cells f.header.big_endian b want column row intra stop) _ k' in
            let counted : length cells ≡ stop =
              length-bucket_cells f.header.big_endian b want column row intra stop found in
            let whole : (cells, row + stop) ≡ part = cc in
            rw (← whole) (ground arith, ground arith, ground arith)
      ]

  -- The cells of a bucket, as far as they are visited.
  Ended-part :
      (row nr intra stop : ℕ)
      → Ended {A = List (List ℕ) × ℕ} (
          bucket_bytes f nr >>= λ b.
          bucket_cells f.header.big_endian b want column row intra stop >>= λ cells.
          ok (cells, row + stop))
  Ended-part row nr intra stop = Ended-bind (bucket_bytes f nr) _ (Ended-bucket_bytes f nr) (λ b _.
      Ended-last (bucket_cells f.header.big_endian b want column row intra stop) _
        (Ended-bucket_cells f.header.big_endian b want column row intra stop))

  Ended-one_bucket : (row : ℕ) → Ended (one_bucket f column want end row)
  unfolding one_bucket
  Ended-one_bucket row =
      Ended-bind {B = List (List ℕ) × ℕ} (in_range (bucket_for f.index row) row) _
        (Ended-in_range _ row)
        (λ (nr, intra, n) _.
          Ended-if (leb n intra) (err (row_out_of_range row)) _ (unfold Ended in tt)
            (Ended-part row nr intra (min (n - intra) (end - row))))

  -- A round for each row that is left is enough.
  Ended-each_bucket :
      (fuel row : ℕ) → end - row ≤ fuel → Ended (each_bucket f column want end fuel row)
  unfolding each_bucket
  Ended-each_bucket zero row h =
      let t : ltb row end ≡ false = ground arith in rw t (unfold Ended in tt)
  Ended-each_bucket (suc fuel) row h = elim (Bool-cases (ltb row end)) [
    | inl t ↦ rw t (
        Ended-bind (one_bucket f column want end row) _ (Ended-one_bucket row) (λ part e.
          Ended-last (each_bucket f column want end fuel part.1) _ (
            Ended-each_bucket fuel part.1
              (omega (arith, one_bucket-counted row e (ground arith))))))
    | inr t ↦ rw t (unfold Ended in tt)
  ]

  -- With a round for each row that is left, no more rounds are made.
  each_bucket-suc :
      (fuel row : ℕ)
      → end - row ≤ fuel
      → each_bucket f column want end (suc fuel) row ≡ each_bucket f column want end fuel row
  unfolding each_bucket
  each_bucket-suc zero row h = let t : ltb row end ≡ false = ground arith in rw t refl
  each_bucket-suc (suc fuel) row h = elim (Bool-cases (ltb row end)) [
    | inl t ↦ elim (Result-cases (one_bucket f column want end row)) [
      | inl (part, e) ↦
          let (later, _, _) = one_bucket-counted row e (ground arith) in
          rw (t, e, each_bucket-suc fuel part.1 (omega arith)) refl
      | inr (bad, e) ↦ rw (t, e) refl
    ]
    | inr t ↦ rw t refl
  ]

  each_bucket-more :
      (fuel extra row : ℕ)
      → end - row ≤ fuel
      → each_bucket f column want end (fuel + extra) row ≡ each_bucket f column want end fuel row
  each_bucket-more fuel zero row h = rw add-zero refl
  each_bucket-more fuel (suc extra) row h =
      rw add-suc
        (each_bucket-suc (fuel + extra) row (omega arith) ∙ each_bucket-more fuel extra row h)

  -- In every file, however damaged, the loop over the buckets ends after at most one round for each
  -- row that is left: it does not run out of fuel, and more fuel changes neither the cells nor the error.
  pub each_bucket-enough :
      (fuel extra row : ℕ)
      → end - row ≤ fuel
      → (each_bucket f column want end fuel row ≢ err out_of_fuel)
        × (each_bucket f column want end (fuel + extra) row
            ≡ each_bucket f column want end fuel row)
  each_bucket-enough fuel extra row h =
      (ended _ (Ended-each_bucket fuel row h), each_bucket-more fuel extra row h)

  each_bucket-counted :
      (fuel row : ℕ) {cells : List (List ℕ)}
      → end - row ≤ fuel
      → each_bucket f column want end fuel row ≡ ok cells
      → length cells ≡ end - row
  unfolding each_bucket
  each_bucket-counted zero row {cells} h e =
      let t : ltb row end ≡ false = ground arith in
      let bare : ◌≡◌ {A = Result IsmError (List (List ℕ))} (ok []) (ok cells) = rw t at e in
      let empty : [] ≡ cells = cc in rw (← empty) (omega arith)
  each_bucket-counted (suc fuel) row {cells} h e = elim (Bool-cases (ltb row end)) [
    | inl t ↦
        let (part, first, k) = bind-ok (one_bucket f column want end row) _ (rw t at e) in
        let (rest, more, k') = bind-ok (each_bucket f column want end fuel part.1) _ k in
        let (later, inside, counted) = one_bucket-counted row first (ground arith) in
        let whole : part.0 ++ rest ≡ cells = cc in
        rw (← whole) (
          omega
            (arith, length-append part.0 rest, each_bucket-counted fuel part.1 (omega arith) more))
    | inr t ↦
        let bare : ◌≡◌ {A = Result IsmError (List (List ℕ))} (ok []) (ok cells) = rw t at e in
        let empty : [] ≡ cells = cc in rw (← empty) (ground arith)
  ]

-- Where `for_each_cell_raw` succeeds on a file, whatever the file holds and in arithmetic that wraps, it
-- has visited one cell for each of the rows from `start` up to `start + nrow`, or up to the largest 64-bit number where that is less.
pub for_each_cell_raw-counted :
    (f : IsmFile) (column : ℕ) (t : DataType) (max_length : ℤ) (start nrow : ℕ)
    (cells : List (List ℕ))
    → for_each_cell_raw f column t max_length start nrow ≡ ok cells
    → length cells ≡ min (start + nrow) (2 ^ 64 - 1) - start
unfolding for_each_cell_raw
for_each_cell_raw-counted f column t max_length start nrow cells h =
    elim (Bool-cases (is_string t)) [
      | inl s ↦ let bad : err _ ≡ ok cells = rw s at h in cc
      | inr s ↦
          each_bucket-counted f column (ism_cell_size t max_length)
            (min (start + nrow) (2 ^ 64 - 1)) nrow start (omega arith) (rw s at h)
    ]
