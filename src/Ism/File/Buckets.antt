-- ===== src/Ism/File/Buckets.antt =====
-- The buckets of a file that crates/casacure/src/ism.rs writes, at their places.
use casacure.Prelude.{
  ℕ, zero, suc, ◌+◌, ◌-◌, ◌*◌, ◌/◌, ◌≤◌, ◌<◌, ◌≡◌, refl, min, max, Bool, List, [], ◌∷◌, ◌++◌, some,
  arith, map, length, length-map, length-append, slice, slice-suffix, take-append,
}
use native.Mathlib.Nat.{mul-le-mul_right, div-le_self}
use casacure.Aipsio.Reads.{All}
use casacure.Ism.{ism_bucket_size}
use casacure.Ism.Bucket.{WriteIsmColumn, encode_ism_bucket, sum_sizes, ism_rows_per_bucket}
use casacure.Ism.Bucket.RoundTrip.{AreFull}
use casacure.Ism.Bucket.Fits.{encode_ism_bucket-fits}
use casacure.Ism.File.{columns_of, write_buckets}
use casacure.Ism.File.Parts.{part, columns_of-part, AreFull-part, sum_sizes-part}

-- What a table must be for its file to be written.
pub record IsTable (n_rows : ℕ) (cols : List WriteIsmColumn) : Type 0 where
  pub full : All (λ c. length c.bytes ≡ n_rows * c.cell_size) cols
  pub one_row : 4 + 4 * length cols + (sum_sizes cols + 8 * length cols) ≤ ism_bucket_size

pub rows_per_bucket_bound :
    (cols : List WriteIsmColumn)
    → (0 < ism_rows_per_bucket ism_bucket_size cols)
      × (ism_rows_per_bucket ism_bucket_size cols ≤ ism_bucket_size)
unfolding ism_rows_per_bucket
rows_per_bucket_bound cols =
    let per_row : ℕ = sum_sizes cols + 8 * length cols in
    let q : ℕ = (ism_bucket_size - (4 + 4 * length cols)) / max per_row 1 in
    let h : q ≤ ism_bucket_size - (4 + 4 * length cols) = div-le_self _ (max per_row 1) in
    (omega arith, omega arith)

module _ (big : Bool) (n_rows : ℕ) (cols : List WriteIsmColumn) (table : IsTable n_rows cols) where
  abbrev pub rpb : ℕ
  rpb = ism_rows_per_bucket ism_bucket_size cols

  abbrev pub end_of : ℕ → ℕ
  end_of b = min (b * rpb + rpb) n_rows

  -- The bucket `b`, as it is encoded.
  abbrev pub IsBucket : ℕ → List ℕ → Type 0
  IsBucket b bytes =
      (encode_ism_bucket big ism_bucket_size (end_of b - b * rpb)
          (map (part (b * rpb) (end_of b)) cols)
        ≡ some bytes)
      × (length bytes ≡ ism_bucket_size)

  pub All-full :
      (cs : List WriteIsmColumn) (end_row : ℕ)
      → end_row ≤ n_rows
      → All (λ c. length c.bytes ≡ n_rows * c.cell_size) cs
      → AreFull end_row cs
  All-full [] end_row h all = tt
  All-full (c ∷ cs) end_row h (full, all) =
      (omega (arith, mul-le-mul_right c.cell_size h), All-full cs end_row h all)

  IsBucket-encoded : (b : ℕ) → b * rpb ≤ n_rows → (bytes : List ℕ) × IsBucket b bytes
  IsBucket-encoded b h =
      let s : ℕ = b * rpb in
      let e : ℕ = end_of b in
      let ps : List WriteIsmColumn = map (part s e) cols in
      let same : ism_rows_per_bucket ism_bucket_size ps ≡ rpb =
        unfold ism_rows_per_bucket in rw (sum_sizes-part s e cols, length-map cols) refl in
      let (bytes, encoded, sized) =
        encode_ism_bucket-fits big ism_bucket_size (e - s) ps (rw same (omega arith))
          (rw (sum_sizes-part s e cols, length-map cols) table.one_row)
          (omega (arith, rows_per_bucket_bound cols))
          (AreFull-part s e cols (omega arith) (All-full cols e (omega arith) table.full)) in
      (bytes, (encoded, sized))

  IsBucket-at :
      (b n : ℕ) (first rest : List ℕ)
      → IsBucket b first
      → ((i : ℕ) → i < n → IsBucket (b + 1 + i) (slice rest (i * ism_bucket_size) ism_bucket_size))
      → (i : ℕ) → i < suc n
      → IsBucket (b + i) (slice (first ++ rest) (i * ism_bucket_size) ism_bucket_size)
  IsBucket-at b n first rest (e, sized) at zero lt =
      let here : b + 0 ≡ b = omega arith in
      let whole : slice (first ++ rest) 0 ism_bucket_size ≡ first =
        rw sized at (take-append first rest) in
      rw (here, whole) (e, sized)
  IsBucket-at b n first rest (e, sized) at (suc i) lt =
      let here : b + suc i ≡ b + 1 + i = omega arith in
      let place : suc i * ism_bucket_size ≡ length first + i * ism_bucket_size = omega arith in
      let whole : slice (first ++ rest) (suc i * ism_bucket_size) ism_bucket_size
          ≡ slice rest (i * ism_bucket_size) ism_bucket_size =
        rw place (slice-suffix first rest (i * ism_bucket_size) ism_bucket_size) in
      rw (here, whole) (at i (omega arith))

  pub write_buckets-IsBucket :
      (b n : ℕ)
      → ((x : ℕ) → x < b + n → x * rpb ≤ n_rows)
      → (bytes : List ℕ) × (write_buckets big rpb n_rows cols b n ≡ some bytes)
        × (length bytes ≡ n * ism_bucket_size)
        × ((i : ℕ) → i < n → IsBucket (b + i) (slice bytes (i * ism_bucket_size) ism_bucket_size))
  unfolding write_buckets
  write_buckets-IsBucket b zero h = ([], refl, omega arith, λ i lt. absurd (omega arith))
  write_buckets-IsBucket b (suc n) h =
      let (first, (e, sized)) = IsBucket-encoded b (h b (omega arith)) in
      let (rest, e', counted, at) = write_buckets-IsBucket (b + 1) n (λ x lt. h x (omega arith)) in
      let cut : columns_of (b * rpb) (end_of b) cols ≡ some (map (part (b * rpb) (end_of b)) cols) =
        columns_of-part (b * rpb) (end_of b) cols (omega (arith, h b (omega arith)))
          (All-full cols (end_of b) (omega arith) table.full) in
      (
        first ++ rest,
        rw (cut, e, e') refl,
        omega (arith, length-append first rest),
        λ i lt. IsBucket-at b n first rest (e, sized) at i lt,
      )
