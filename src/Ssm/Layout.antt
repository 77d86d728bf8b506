-- ===== src/Ssm/Layout.antt =====
-- `layout` and `index_bucket_count` of crates/casacure/src/ssm.rs. Sums wrap at 32 bits, as they do
-- in a release build.
use native.Mathlib.Nat.{div-add-mod, mul-le-mul_right}
use casacure.Prelude.{
  ◌↔◌, ℕ, zero, suc, ◌+◌, ◌-◌, ◌*◌, ◌/◌, ◌%◌, ◌^◌, ◌≤◌, ◌<◌, ◌≡◌, ◌∙◌, List, [], ◌∷◌, some, max,
  arith, inl, inr, Bool-cases, get_elem?, ◌==◌, if◌then◌else◌,
}

pub record StandardStManLayout : Type 0 where
  pub rows_per_bucket : ℕ
  pub bucket_size : ℕ
  pub column_offset : List ℕ

-- `div_ceil`
abbrev pub div_ceil : ℕ → ℕ → ℕ
div_ceil a b = (a + (b - 1)) / b

-- The bytes of a column's region in a bucket.
unfoldable pub region : ℕ → ℕ → ℕ
region rows bits = div_ceil (rows * bits) 8

-- The offsets from `offset` on, and where the last region ends.
unfoldable pub place : ℕ → ℕ → List ℕ → List ℕ × ℕ
place rows offset [] = ([], offset)
place rows offset (bits ∷ rest) =
    let (offsets, end) = place rows ((offset + region rows bits % 2 ^ 32) % 2 ^ 32) rest in
    (offset ∷ offsets, end)

unfoldable pub layout : ℕ → List ℕ → StandardStManLayout
layout rows cell_bits =
    let (offsets, end) = place rows 0 cell_bits in
    record { rows_per_bucket = rows; bucket_size = max end 64; column_offset = offsets }

-- A link header of 8 bytes heads each index bucket.
unfoldable pub index_bucket_count : ℕ → ℕ → ℕ
index_bucket_count index_len bucket_size =
    if index_len == 0 then 0 else div_ceil index_len (bucket_size - 8)

-- The sum of the regions.
abbrev pub total : ℕ → List ℕ → ℕ
total rows [] = 0
total rows (bits ∷ rest) = region rows bits + total rows rest

place_end :
    (rows offset : ℕ) (cells : List ℕ)
    → offset + total rows cells < 2 ^ 32
    → (place rows offset cells).1 ≡ offset + total rows cells
unfolding place
place_end rows offset [] h = omega arith
place_end rows offset (bits ∷ rest) h =
    let fits : (offset + region rows bits % 2 ^ 32) % 2 ^ 32 ≡ offset + region rows bits =
      omega arith in
    rw fits (place_end rows (offset + region rows bits) rest (omega arith) ∙ omega arith)

-- The regions of the columns before column `i`.
abbrev before : ℕ → List ℕ → ℕ → ℕ
before rows [] i = 0
before rows (bits ∷ rest) zero = 0
before rows (bits ∷ rest) (suc i) = region rows bits + before rows rest i

place_offset :
    (rows offset : ℕ) (cells : List ℕ) (i o : ℕ)
    → offset + total rows cells < 2 ^ 32
    → get_elem? (place rows offset cells).0 i ≡ some o
    → o ≡ offset + before rows cells i
unfolding place
place_offset rows offset [] i o h e = cc
place_offset rows offset (bits ∷ rest) zero o h e = ground arith
place_offset rows offset (bits ∷ rest) (suc i) o h e =
    let fits : (offset + region rows bits % 2 ^ 32) % 2 ^ 32 ≡ offset + region rows bits =
      omega arith in
    place_offset rows (offset + region rows bits) rest i o (omega arith) (rw fits at e)
    ∙ omega arith

before_step :
    (rows : ℕ) (cells : List ℕ) (i j bits : ℕ)
    → get_elem? cells i ≡ some bits
    → i < j
    → before rows cells i + region rows bits ≤ before rows cells j
before_step rows [] i j bits h lt = cc
before_step rows (b ∷ rest) zero zero bits h lt = absurd (omega arith)
before_step rows (b ∷ rest) zero (suc j) bits h lt = ground arith
before_step rows (b ∷ rest) (suc i) zero bits h lt = absurd (omega arith)
before_step rows (b ∷ rest) (suc i) (suc j) bits h lt =
    omega (arith, before_step rows rest i j bits h (omega arith))

before-le-total :
    (rows : ℕ) (cells : List ℕ) (i bits : ℕ)
    → get_elem? cells i ≡ some bits
    → before rows cells i + region rows bits ≤ total rows cells
before-le-total rows [] i bits h = cc
before-le-total rows (b ∷ rest) zero bits h = ground arith
before-le-total rows (b ∷ rest) (suc i) bits h = omega (arith, before-le-total rows rest i bits h)

-- Where the regions fit 32 bits together, the region of every column, which starts at its offset,
-- lies in the bucket.
pub layout_in_bucket :
    (rows : ℕ) (cells : List ℕ) (i o bits : ℕ)
    → total rows cells < 2 ^ 32
    → get_elem? (layout rows cells).column_offset i ≡ some o
    → get_elem? cells i ≡ some bits
    → o + region rows bits ≤ (layout rows cells).bucket_size
unfolding layout
layout_in_bucket rows cells i o bits fits ho hb =
    let at : o ≡ before rows cells i =
      place_offset rows 0 cells i o (omega arith) ho ∙ omega arith in
    let end : (place rows 0 cells).1 ≡ total rows cells =
      place_end rows 0 cells (omega arith) ∙ omega arith in
    omega (arith, at, end, before-le-total rows cells i bits hb)

-- Where the regions fit 32 bits together, the region of a column ends before the region of each
-- later column starts.
pub layout_disjoint :
    (rows : ℕ) (cells : List ℕ) (i j o o' bits : ℕ)
    → total rows cells < 2 ^ 32
    → i < j
    → get_elem? cells i ≡ some bits
    → get_elem? (layout rows cells).column_offset i ≡ some o
    → get_elem? (layout rows cells).column_offset j ≡ some o'
    → o + region rows bits ≤ o'
unfolding layout
layout_disjoint rows cells i j o o' bits fits lt hb ho ho' = omega (
  arith,
  place_offset rows 0 cells i o (omega arith) ho,
  place_offset rows 0 cells j o' (omega arith) ho',
  before_step rows cells i j bits hb lt,
)

pub div_ceil_mul : (a b : ℕ) → 0 < b → a ≤ div_ceil a b * b
div_ceil_mul a b h = omega (arith, div-add-mod (a + (b - 1)) b)

pub mul-lt_of_lt_div_ceil : (a b n : ℕ) → 0 < b → n < div_ceil a b → n * b < a
mul-lt_of_lt_div_ceil a b n h lt = omega (arith, mul-le-mul_right b lt, div-add-mod (a + (b - 1)) b)

ge_of_not_lt : (m n : ℕ) → (n < m → ⊥) → m ≤ n
ge_of_not_lt m n h = ground arith

-- The index buckets hold the whole stream, and one less would not.
index_bucket_count_enough :
    (len size : ℕ) → 8 < size → len ≤ index_bucket_count len size * (size - 8)
unfolding index_bucket_count
index_bucket_count_enough len size h = elim (Bool-cases (len == 0)) [
  | inl e ↦ rw e (ground arith)
  | inr e ↦ rw e (div_ceil_mul len (size - 8) (omega arith))
]

index_bucket_count_tight :
    (len size n : ℕ) → 8 < size → n < index_bucket_count len size → n * (size - 8) < len
unfolding index_bucket_count
index_bucket_count_tight len size n h = elim (Bool-cases (len == 0)) [
  | inl e ↦ rw e (λ lt. absurd (omega arith))
  | inr e ↦ rw e (λ lt. mul-lt_of_lt_div_ceil len (size - 8) n (omega arith) lt)
]

-- For buckets that are larger than their link header, `index_bucket_count` is the least number of
-- them whose payload holds the index stream: `n` index buckets hold it exactly when that is at most
-- `n`.
pub index_bucket_count_least :
    (len size n : ℕ) → 8 < size → (index_bucket_count len size ≤ n) ↔ (len ≤ n * (size - 8))
index_bucket_count_least len size n h = (
  λ le. omega (arith, index_bucket_count_enough len size h, mul-le-mul_right (size - 8) le),
  λ le.
      ge_of_not_lt (index_bucket_count len size) n
        (λ lt. omega (arith, index_bucket_count_tight len size n h lt)),
)
