-- ===== src/Search.antt =====
-- `slice::partition_point(|r| r < row)` on an ascending slice, by which ism.rs and ssm.rs of
-- crates/casacure/src find the bucket and the interval of a row. The standard library leaves the
-- result on a slice that is not partitioned open; here it is the first element that is not below.
use casacure.Prelude.{
  ℕ, zero, suc, ◌≤◌, ◌<◌, ◌≡◌, ap, inl, inr, List, [], ◌∷◌, some, arith, Bool-cases, ltb, lt→ltb,
  length, get_elem?, if◌then◌else◌,
}

unfoldable pub lower_bound : ℕ → List ℕ → ℕ
lower_bound row [] = 0
lower_bound row (x ∷ xs) = if ltb x row then suc (lower_bound row xs) else 0

-- Strictly ascending.
abbrev pub Below : ℕ → List ℕ → Type 0
Below x [] = Unit
Below x (y ∷ ys) = x < y

abbrev pub Ascending : List ℕ → Type 0
Ascending [] = Unit
Ascending (x ∷ xs) = Below x xs × Ascending xs

-- In an ascending list a later element is larger.
pub Ascending-lt :
    (xs : List ℕ) (i : ℕ) (a b : ℕ)
    → Ascending xs
    → get_elem? xs i ≡ some a
    → get_elem? xs (suc i) ≡ some b
    → a < b
Ascending-lt [] i a b h p q = cc
Ascending-lt (x ∷ []) zero a b h p q = cc
Ascending-lt (x ∷ y ∷ ys) zero a b h p q = ground arith
Ascending-lt (x ∷ xs) (suc i) a b h p q = Ascending-lt xs i a b h.1 p q

Below-le :
    (x : ℕ) (xs : List ℕ) (i : ℕ) (a : ℕ) → Ascending (x ∷ xs) → get_elem? xs i ≡ some a → x < a
Below-le x [] i a h p = cc
Below-le x (y ∷ ys) zero a h p = ground arith
Below-le x (y ∷ ys) (suc i) a h p = omega (arith, Below-le y ys i a h.1 p)

-- The element at the bound is not below, and the one before it is.
pub lower_bound-le :
    (row : ℕ) (xs : List ℕ) (b : ℕ) → get_elem? xs (lower_bound row xs) ≡ some b → row ≤ b
unfolding lower_bound
lower_bound-le row [] b h = cc
lower_bound-le row (x ∷ xs) b h = elim (Bool-cases (ltb x row)) [
  | inl e ↦ lower_bound-le row xs b (rw e at h)
  | inr e ↦ let k : get_elem? (x ∷ xs) 0 ≡ some b = rw e at h in ground arith
]

pub lower_bound-lt :
    (row : ℕ) (xs : List ℕ) (i a : ℕ)
    → lower_bound row xs ≡ suc i
    → get_elem? xs i ≡ some a
    → a < row
unfolding lower_bound
lower_bound-lt row [] i a h p = cc
lower_bound-lt row (x ∷ xs) zero a h p = ground arith
lower_bound-lt row (x ∷ xs) (suc i) a h p = ground (arith, lower_bound-lt row xs i a)

-- Between an element below and the next one, which is not, stands the bound.
pub lower_bound-first :
    (row : ℕ) (xs : List ℕ) (b : ℕ) → get_elem? xs 0 ≡ some b → row ≤ b → lower_bound row xs ≡ 0
unfolding lower_bound
lower_bound-first row [] b h p = cc
lower_bound-first row (x ∷ xs) b h p = ground arith

pub lower_bound-between :
    (row : ℕ) (xs : List ℕ) (i a b : ℕ)
    → Ascending xs
    → get_elem? xs i ≡ some a
    → get_elem? xs (suc i) ≡ some b
    → a < row
    → row ≤ b
    → lower_bound row xs ≡ suc i
unfolding lower_bound
lower_bound-between row [] i a b s h k p q = cc
lower_bound-between row (x ∷ xs) zero a b s h k p q = ground (arith, lower_bound-first row xs b)
lower_bound-between row (x ∷ xs) (suc i) a b s h k p q =
    ground (arith, lower_bound-between row xs i a b, Below-le x xs i a)

-- At an element of the list the bound is that element's place.
pub lower_bound-at :
    (xs : List ℕ) (i a : ℕ) → Ascending xs → get_elem? xs i ≡ some a → lower_bound a xs ≡ i
unfolding lower_bound
lower_bound-at [] i a s h = cc
lower_bound-at (x ∷ xs) zero a s h = ground arith
lower_bound-at (x ∷ xs) (suc i) a s h =
    rw (lt→ltb x a (Below-le x xs i a s h)) (ap suc (lower_bound-at xs i a s.1 h))

pub lt-length_of_get_elem? : (xs : List ℕ) (i a : ℕ) → get_elem? xs i ≡ some a → i < length xs
lt-length_of_get_elem? [] i a h = cc
lt-length_of_get_elem? (x ∷ xs) zero a h = omega arith
lt-length_of_get_elem? (x ∷ xs) (suc i) a h = omega (arith, lt-length_of_get_elem? xs i a h)
