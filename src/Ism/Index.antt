-- ===== src/Ism/Index.antt =====
-- `IsmIndex::bucket_for` of crates/casacure/src/ism.rs.
use casacure.Prelude.{
  leb, ◌^◌, ℕ, zero, suc, ◌+◌, ◌-◌, ◌≤◌, ◌<◌, ◌≡◌, ◌≢◌, ◌⊎◌, refl, List, Option, none, some, arith,
  inl, inr, Option-cases, Bool-cases, ==_iff, ◌↔◌, length, get_elem?, ◌==◌, if◌then◌else◌,
}
use casacure.Search.{
  lower_bound, Ascending, Ascending-lt, lower_bound-le, lower_bound-lt, lower_bound-between,
  lower_bound-at, lt-length_of_get_elem?,
}
use casacure.Ism.{IsmIndex}
use native.Mathlib.Numerals.{add-one}

infixl 5 ◌>>=◌
abbrev ◌>>=◌ {ℓ κ} : {A : Type ℓ} {B : Type κ} → Option A → (A → Option B) → Option B
none >>= f = none
some a >>= f = f a

-- `checked_sub(1)`
abbrev checked_pred : ℕ → Option ℕ
checked_pred zero = none
checked_pred (suc n) = some n

-- The interval that starts at the bound or before it; `none` stands for the early returns (the
-- element at the bound is there, since the bound is not the length).
unfoldable pub bracket : List ℕ → ℕ → Option ℕ
bracket rows row =
    let lb = lower_bound row rows in
    if lb == length rows
    then none
    else (get_elem? rows lb >>= λ r. if r == row then some lb else checked_pred lb)

-- The subtraction of `u64`, which wraps in a release build.
unfoldable pub wrapping_sub : ℕ → ℕ → ℕ
wrapping_sub a b = if leb b a then a - b else a + 2 ^ 64 - b

wrapping_sub-le : (a b : ℕ) → b ≤ a → wrapping_sub a b ≡ a - b
unfolding wrapping_sub
wrapping_sub-le a b h = ground arith

unfoldable pub bucket_for : IsmIndex → ℕ → Option (ℕ × ℕ × ℕ)
unfolding wrapping_sub
bucket_for ix row = do
  index ← bracket ix.rows row
  start ← get_elem? ix.rows index
  next ← get_elem? ix.rows (index + 1)
  number ← get_elem? ix.bucket_numbers index
  some (number, wrapping_sub row start, wrapping_sub next start)

-- The place of the interval `start .. next` that holds `row`.
record Holds (rows : List ℕ) (row i start next : ℕ) : Type 0 where
  starts : get_elem? rows i ≡ some start
  ends : get_elem? rows (suc i) ≡ some next
  from : start ≤ row
  below : row < next

bracket-at :
    (rows : List ℕ) (row i : ℕ)
    → Ascending rows
    → get_elem? rows i ≡ some row
    → bracket rows row ≡ some i
unfolding bracket
bracket-at rows row i asc h =
    rw (lower_bound-at rows i row asc h) (ground (arith, h, lt-length_of_get_elem? rows i row h))

bracket-between :
    (rows : List ℕ) (row i start next : ℕ)
    → Ascending rows
    → get_elem? rows i ≡ some start
    → get_elem? rows (suc i) ≡ some next
    → start < row
    → row < next
    → bracket rows row ≡ some i
unfolding bracket
bracket-between rows row i start next asc h k p q =
    rw (lower_bound-between row rows i start next asc h k p (omega arith))
      (ground (arith, k, lt-length_of_get_elem? rows (suc i) next k))

bracket-of_Holds :
    (rows : List ℕ) (row i start next : ℕ)
    → Ascending rows
    → Holds rows row i start next
    → bracket rows row ≡ some i
bracket-of_Holds rows row i start next asc h = elim (Bool-cases (start == row)) [
  | inl e ↦ bracket-at rows row i asc (rw ((==_iff start row).0 e) at h.starts)
  | inr e ↦ bracket-between rows row i start next asc h.starts h.ends (ground arith) h.below
]

checked_pred-eq : (n i : ℕ) → checked_pred n ≡ some i → n ≡ suc i
checked_pred-eq zero i h = cc
checked_pred-eq (suc n) i h = cc

-- Where the bracket found its place: on the row itself, or on the boundary before it.
bracket_cases :
    (rows : List ℕ) (row i : ℕ)
    → bracket rows row ≡ some i
    → (get_elem? rows i ≡ some row)
      ⊎ ((r : ℕ) × (get_elem? rows (suc i) ≡ some r) × (r ≢ row) × (lower_bound row rows ≡ suc i))
unfolding bracket
bracket_cases rows row i h = elim (Bool-cases (lower_bound row rows == length rows)) [
  | inl e ↦ let k : none ≡ some i = rw e at h in cc
  | inr e ↦ elim (Option-cases (get_elem? rows (lower_bound row rows))) [
    | inl o ↦ let k : none ≡ some i = rw (e, o) at h in cc
    | inr (r, o) ↦ found r o (rw (e, o) at h)
  ]
]
  where
    found :
        (r : ℕ)
        → get_elem? rows (lower_bound row rows) ≡ some r
        → (if r == row then some (lower_bound row rows) else checked_pred (lower_bound row rows))
          ≡ some i
        → (get_elem? rows i ≡ some row)
          ⊎ ((r : ℕ) × (get_elem? rows (suc i) ≡ some r)
              × (r ≢ row)
              × (lower_bound row rows ≡ suc i))
    found r o k = elim (Bool-cases (r == row)) [
      | inl e ↦ inl (ground arith)
      | inr e ↦
          let lb : lower_bound row rows ≡ suc i = checked_pred-eq _ i (rw e at k) in
          inr (r, rw lb at o, ground arith, lb)
    ]

bracket-Holds :
    (rows : List ℕ) (row i start next : ℕ)
    → Ascending rows
    → bracket rows row ≡ some i
    → get_elem? rows i ≡ some start
    → get_elem? rows (suc i) ≡ some next
    → Holds rows row i start next
bracket-Holds rows row i start next asc h p q = elim (bracket_cases rows row i h) [
  | inl e ↦ record {
    starts = p;
    ends = q;
    from = ground arith;
    below = ground (arith, Ascending-lt rows i start next asc p q);
  }
  | inr (r, o, ne, lb) ↦ record {
    starts = p;
    ends = q;
    from = omega (arith, lower_bound-lt row rows i start lb p);
    below = ground (arith, lower_bound-le row rows r (rw lb o));
  }
]

-- The interval, its bucket, and the place of the row in it.
abbrev pub InBucket : IsmIndex → ℕ → ℕ → ℕ → ℕ → Type 0
InBucket ix row nr intra n =
    (i start : ℕ) × (row ≡ start + intra)
    × (intra < n)
    × (get_elem? ix.rows i ≡ some start)
    × (get_elem? ix.rows (suc i) ≡ some (start + n))
    × (get_elem? ix.bucket_numbers i ≡ some nr)

>>=-eq-some :
    {A B : Type 0} (o : Option A) (f : A → Option B) {b : B}
    → (o >>= f) ≡ some b
    → (a : A) × (o ≡ some a) × (f a ≡ some b)
>>=-eq-some none f h = cc
>>=-eq-some (some a) f h = (a, refl, h)

bucket_for-InBucket :
    (ix : IsmIndex) (row nr intra n : ℕ)
    → Ascending ix.rows
    → bucket_for ix row ≡ some (nr, intra, n)
    → InBucket ix row nr intra n
unfolding bucket_for
bucket_for-InBucket ix row nr intra n asc h =
    let (i, ib, k1) = >>=-eq-some (bracket ix.rows row) _ h in
    let (start, es, k2) = >>=-eq-some (get_elem? ix.rows i) _ k1 in
    let (next, en, k3) = >>=-eq-some (get_elem? ix.rows (i + 1)) _ k2 in
    let (number, eb, k4) = >>=-eq-some (get_elem? ix.bucket_numbers i) _ k3 in
    let ends : get_elem? ix.rows (suc i) ≡ some next = rw add-one at en in
    let held = bracket-Holds ix.rows row i start next asc ib es ends in
    let inner : wrapping_sub row start ≡ row - start = wrapping_sub-le row start held.from in
    let whole : wrapping_sub next start ≡ next - start =
      wrapping_sub-le next start (omega (arith, held.from, held.below)) in
    let e : some (number, row - start, next - start) ≡ some (nr, intra, n) =
      rw (inner, whole) at k4 in
    (
      i,
      start,
      ground (arith, held.from),
      ground (arith, held.from, held.below),
      es,
      rw ends (ground (arith, held.from, held.below)),
      rw eb (ground arith),
    )

bucket_for-of_InBucket :
    (ix : IsmIndex) (row nr intra n : ℕ)
    → Ascending ix.rows
    → InBucket ix row nr intra n
    → bucket_for ix row ≡ some (nr, intra, n)
unfolding bucket_for
bucket_for-of_InBucket ix row nr intra n asc (i, start, er, lt, es, en, eb) =
    let held : Holds ix.rows row i start (start + n) = record {
      starts = es;
      ends = en;
      from = omega arith;
      below = omega arith;
    } in
    rw
      (
        bracket-of_Holds ix.rows row i start (start + n) asc held,
        es,
        add-one,
        en,
        eb,
        wrapping_sub-le row start held.from,
        wrapping_sub-le (start + n) start (omega arith),
      )
      (ground arith)

-- Over ascending boundaries `bucket_for` returns exactly the interval that holds the row: bucket
-- `nr`, the place of the row in it and its row count, where boundary `i` is `row - intra`,
-- boundary `i + 1` is `n` rows further, the row lies before that, and `nr` is bucket number `i`.
pub bucket_for_iff :
    (ix : IsmIndex) (row nr intra n : ℕ)
    → Ascending ix.rows
    → (bucket_for ix row ≡ some (nr, intra, n)) ↔ InBucket ix row nr intra n
bucket_for_iff ix row nr intra n asc =
    (bucket_for-InBucket ix row nr intra n asc, bucket_for-of_InBucket ix row nr intra n asc)
