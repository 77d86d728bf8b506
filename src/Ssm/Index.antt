-- ===== src/Ssm/Index.antt =====
-- `SsmIndex::find` of crates/casacure/src/ssm.rs.
use casacure.Prelude.{
  ℕ, zero, suc, ◌+◌, ◌≤◌, ◌≡◌, ◌↔◌, inl, inr, refl, List, Option, none, some, arith, Bool-cases,
  Option-cases, length, leb, get_elem?, if◌then◌else◌,
}
use casacure.Search.{
  lower_bound, Ascending, lower_bound-le, lower_bound-lt, lower_bound-first, lower_bound-between,
  lt-length_of_get_elem?,
}
use casacure.Ssm.{SsmIndex, IndexedBucket}

-- The first row of used bucket `i`; the element before it is there.
abbrev pub start_of : List ℕ → ℕ → Option ℕ
start_of last_row zero = some 0
start_of last_row (suc j) = elim (get_elem? last_row j) [ none ↦ none | some a ↦ some (a + 1) ]

abbrev bucket_of : Option ℕ → Option ℕ → Option ℕ → Option IndexedBucket
bucket_of (some number) (some start) (some end) =
    some (record { number = number; start_row = start; end_row = end })
bucket_of _ _ _ = none

unfoldable pub find : SsmIndex → ℕ → Option IndexedBucket
find ix row =
    let i = lower_bound row ix.last_row in
    if leb (length ix.last_row) i
    then none
    else bucket_of (get_elem? ix.bucket_number i) (start_of ix.last_row i) (get_elem? ix.last_row i)

-- Used bucket `i` holds the row: the bucket's number, and its rows, which begin behind the last row
-- of the bucket before.
pub record Covers (ix : SsmIndex) (row : ℕ) (b : IndexedBucket) (i : ℕ) : Type 0 where
  pub numbered : get_elem? ix.bucket_number i ≡ some b.number
  pub starts : start_of ix.last_row i ≡ some b.start_row
  pub ends : get_elem? ix.last_row i ≡ some b.end_row
  pub from : b.start_row ≤ row
  pub to : row ≤ b.end_row

lower_bound-of_Covers :
    (xs : List ℕ) (row i start end : ℕ)
    → Ascending xs
    → start_of xs i ≡ some start
    → get_elem? xs i ≡ some end
    → start ≤ row
    → row ≤ end
    → lower_bound row xs ≡ i
lower_bound-of_Covers xs row zero start end asc s e p q = lower_bound-first row xs end e q
lower_bound-of_Covers xs row (suc j) start end asc s e p q = elim (Option-cases (get_elem? xs j)) [
  | inl o ↦ let k : none ≡ some start = rw (o, start_of) at s in cc
  | inr (a, o) ↦
      let k : some (a + 1) ≡ some start = rw (o, start_of) at s in
      lower_bound-between row xs j a end asc o e (ground arith) q
]

find-of_Covers :
    (ix : SsmIndex) (row : ℕ) (b : IndexedBucket) (i : ℕ)
    → Ascending ix.last_row
    → Covers ix row b i
    → find ix row ≡ some b
unfolding find
find-of_Covers ix row b i asc c =
    rw
      (
        lower_bound-of_Covers ix.last_row row i b.start_row b.end_row asc c.starts c.ends c.from
            c.to,
        c.numbered,
        c.starts,
        c.ends,
      )
      (ground (arith, lt-length_of_get_elem? ix.last_row i b.end_row c.ends))

start_of-le :
    (xs : List ℕ) (row i start : ℕ)
    → lower_bound row xs ≡ i
    → start_of xs i ≡ some start
    → start ≤ row
start_of-le xs row zero start h s = ground arith
start_of-le xs row (suc j) start h s = elim (Option-cases (get_elem? xs j)) [
  | inl o ↦ let k : none ≡ some start = rw (o, start_of) at s in cc
  | inr (a, o) ↦
      let k : some (a + 1) ≡ some start = rw (o, start_of) at s in
      ground (arith, lower_bound-lt row xs j a h o)
]

bucket_of_eq :
    (number start end : Option ℕ) (b : IndexedBucket)
    → bucket_of number start end ≡ some b
    → (number ≡ some b.number) × (start ≡ some b.start_row) × (end ≡ some b.end_row)
bucket_of_eq (some n) (some s) (some e) b h = ground arith
bucket_of_eq none s e b h = cc
bucket_of_eq (some n) none e b h = cc
bucket_of_eq (some n) (some s) none b h = cc

Covers-of_find :
    (ix : SsmIndex) (row : ℕ) (b : IndexedBucket)
    → find ix row ≡ some b
    → Covers ix row b (lower_bound row ix.last_row)
unfolding find
Covers-of_find ix row b h =
    let i = lower_bound row ix.last_row in
    elim (Bool-cases (leb (length ix.last_row) i)) [
      | inl e ↦ let k : none ≡ some b = rw e at h in cc
      | inr e ↦
          let (n, s, l) = bucket_of_eq _ _ _ b (rw e at h) in
          record {
            numbered = n;
            starts = s;
            ends = l;
            from = start_of-le ix.last_row row i b.start_row refl s;
            to = lower_bound-le row ix.last_row b.end_row l;
          }
    ]

-- Over ascending last rows `find` returns a bucket exactly when that is a used bucket whose rows,
-- from behind the last row of the bucket before to its own last row, hold the row.
pub find_iff :
    (ix : SsmIndex) (row : ℕ) (b : IndexedBucket)
    → Ascending ix.last_row
    → (find ix row ≡ some b) ↔ ((i : ℕ) × Covers ix row b i)
find_iff ix row b asc = (
  λ h. (lower_bound row ix.last_row, Covers-of_find ix row b h),
  λ (i, c). find-of_Covers ix row b i asc c,
)
