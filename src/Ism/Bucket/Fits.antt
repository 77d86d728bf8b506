-- ===== src/Ism/Bucket/Fits.antt =====
-- Why the rows that `ism_rows_per_bucket` of crates/casacure/src/ism.rs allows always fit a bucket.
use casacure.Prelude.{
  ℕ, zero, suc, ◌+◌, ◌-◌, ◌*◌, ◌/◌, ◌^◌, ◌≤◌, ◌≡◌, refl, Bool, false, List, [], ◌∷◌, Option, none,
  some, max, inl, inr, arith, ltb, length, drop, length-take, length-append, Bool-cases,
}
use native.Mathlib.Nat.{div-add-mod, mul-le-mul_right}
use native.Mathlib.Numerals.{add-one}
use casacure.Ism.Bucket.{
  WriteIsmColumn, cell_of, is_same, starts_from, Plan, plans, begins, place_cell, place_row,
  place_rows, index_length, fill_bucket, encode_ism_bucket, sum_sizes, ism_rows_per_bucket,
}
use casacure.Ism.Bucket.Rows.{
  AllLaid, AllLaid-append, Laid-place_cell, AllLaid-place_row, AllLaid-plans, AllLaid-rows,
}
use casacure.Ism.Bucket.Written.{fill_bucket-image}
use casacure.Ism.Bucket.RoundTrip.{AreFull}
use casacure.Ism.Bucket.Refinement.{AllLaid-counted}

length-starts_from :
    (c : WriteIsmColumn) (k n : ℕ) (prev : Option (List ℕ)) → length (starts_from c k n prev) ≤ n
unfolding starts_from
length-starts_from c k zero prev = omega arith
length-starts_from c k (suc n) prev =
    let rest = length-starts_from c (k + 1) n (some (cell_of c k)) in
    elim (Bool-cases (is_same prev (cell_of c k))) [
      | inl t ↦ rw t (omega arith)
      | inr t ↦ rw t (omega arith)
    ]

-- A row adds at most one cell of each column.
length-place_cell :
    (row : ℕ) (out : List ℕ) (c : WriteIsmColumn) (p : Plan)
    → p.column ≡ c
    → length (place_cell row out p).0 ≤ length out + c.cell_size
unfolding place_cell
length-place_cell row out c p e = elim (Bool-cases (begins row p)) [
  | inl t ↦
      rw (t, e)
        (omega (
          arith,
          length-append out (cell_of c row),
          length-take c.cell_size (drop (row * c.cell_size) c.bytes),
        ))
  | inr t ↦ rw t (omega arith)
]

length-place_row :
    (n k : ℕ) (out : List ℕ) (cs : List WriteIsmColumn) (ps : List Plan)
    → AllLaid n k out cs ps
    → length (place_row k out ps).0 ≤ length out + sum_sizes cs
unfolding place_row sum_sizes
length-place_row n k out [] [] h = omega arith
length-place_row n k out [] (p ∷ ps) h = elim h [ ]
length-place_row n k out (c ∷ cs) [] h = elim h [ ]
length-place_row n k out (c ∷ cs) (p ∷ ps) (h, hs) =
    let (m, e, first) = Laid-place_cell n k out c p h in
    let hs' : AllLaid n k (place_cell k out p).0 cs ps = rw e (AllLaid-append n k out m cs ps hs) in
    omega (
      arith,
      length-place_cell k out c p h.column,
      length-place_row n k (place_cell k out p).0 cs ps hs',
    )

length-place_rows :
    (n k m : ℕ) (out : List ℕ) (cs : List WriteIsmColumn) (ps : List Plan)
    → AllLaid n k out cs ps
    → length (place_rows k m out ps).0 ≤ length out + m * sum_sizes cs
unfolding place_rows
length-place_rows n k zero out cs ps h = omega arith
length-place_rows n k (suc m) out cs ps h =
    let (more, grown, next) = AllLaid-place_row n k out cs ps h in
    omega (
      arith,
      length-place_row n k out cs ps h,
      length-place_rows n (k + 1) m (place_row k out ps).0 cs (place_row k out ps).1
          (rw add-one next),
    )

index_length-AllLaid :
    (n k : ℕ) (out : List ℕ) (cs : List WriteIsmColumn) (ps : List Plan)
    → AllLaid n k out cs ps
    → index_length ps ≤ length cs * (4 + 8 * n)
unfolding index_length
index_length-AllLaid n k out [] [] h = omega arith
index_length-AllLaid n k out [] (p ∷ ps) h = elim h [ ]
index_length-AllLaid n k out (c ∷ cs) [] h = elim h [ ]
index_length-AllLaid n k out (c ∷ cs) (p ∷ ps) (h, hs) =
    let e : length p.starts ≤ n = rw h.starts (length-starts_from c 0 n none) in
    omega (arith, index_length-AllLaid n k out cs ps hs)

rows_room : (room d n : ℕ) → d ≤ room → n ≤ max (room / max d 1) 1 → n * d ≤ room
rows_room room zero n one h = omega arith
rows_room room (suc d) n one h =
    let divisor : max (suc d) 1 ≡ suc d = omega arith in
    let q : ℕ = room / suc d in
    let h' : n ≤ max q 1 = rw divisor at h in
    elim (Bool-cases (ltb q 1)) [
      | inl t ↦ let few : n ≤ 1 = ground arith in omega (arith, mul-le-mul_right (suc d) few)
      | inr t ↦
          let few : n ≤ q = ground arith in
          omega (arith, mul-le-mul_right (suc d) few, div-add-mod room (suc d))
    ]

-- The rows that fit, where one row does.
rows_fit :
    (bucket_size n : ℕ) (cols : List WriteIsmColumn)
    → n ≤ ism_rows_per_bucket bucket_size cols
    → 4 + 4 * length cols + (sum_sizes cols + 8 * length cols) ≤ bucket_size
    → 4 + n * sum_sizes cols + length cols * (4 + 8 * n) ≤ bucket_size
unfolding ism_rows_per_bucket
rows_fit bucket_size n cols h one =
    let per_row : ℕ = sum_sizes cols + 8 * length cols in
    let room : ℕ = bucket_size - (4 + 4 * length cols) in
    let whole : n * per_row ≤ room = rows_room room per_row n (omega arith) h in omega arith

-- Columns that hold a cell for each of `n` rows, whatever the values, are encoded, and fill the
-- bucket to its size exactly, where `n` is at most what `ism_rows_per_bucket` allows for them, and at
-- most 2 ^ 32, and the bucket has room for one row, as it need not: the code allows one row in any
-- case.
pub encode_ism_bucket-fits :
    (big : Bool) (bucket_size n : ℕ) (cols : List WriteIsmColumn)
    → n ≤ ism_rows_per_bucket bucket_size cols
    → 4 + 4 * length cols + (sum_sizes cols + 8 * length cols) ≤ bucket_size
    → n ≤ 2 ^ 32
    → AreFull n cols
    → (b : List ℕ) × (encode_ism_bucket big bucket_size n cols ≡ some b) × (length b ≡ bucket_size)
unfolding encode_ism_bucket
encode_ism_bucket-fits big bucket_size n cols h one bound full =
    let body : List ℕ = (place_rows 0 n [] (plans n cols)).0 in
    let ps : List Plan = (place_rows 0 n [] (plans n cols)).1 in
    let laid : AllLaid n n body cols ps = AllLaid-rows n cols bound in
    let room : 4 + length body + index_length ps ≤ bucket_size = omega (
      arith,
      length-place_rows n 0 n [] cols (plans n cols) (AllLaid-plans n cols bound),
      index_length-AllLaid n n body cols ps laid,
      rows_fit bucket_size n cols h one,
    ) in
    let (rest, whole, sized) =
      fill_bucket-image big bucket_size body ps (AllLaid-counted n body cols ps laid) room in
    let t : ltb bucket_size (4 + length body + index_length ps) ≡ false = ground arith in
    (fill_bucket big bucket_size body ps, rw t refl, rw whole sized)
