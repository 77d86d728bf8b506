-- ===== src/Ism/Bucket/Intervals.antt =====
-- The intervals of a column of crates/casacure/src/ism.rs: where values begin, and the walk over them.
use casacure.Prelude.{
  ℕ, zero, suc, ◌+◌, ◌-◌, ◌%◌, ◌^◌, ◌≤◌, ◌<◌, ◌≡◌, refl, sym, ◌∙◌, false, ◌&&◌, List, [], ◌∷◌,
  Option, none, some, inl, inr, arith, ltb, leb, ◌==◌, if◌then◌else◌, length, get_elem?, get_or,
  Bool-cases,
}
use native.Mathlib.Numerals.{add-one}
use casacure.Bytes.{bytes_eq, eq_of_bytes_eq}
use casacure.Search.{
  lower_bound, Below, Ascending, lower_bound-le, lower_bound-lt, lt-length_of_get_elem?,
}
use casacure.Ism.Bucket.{WriteIsmColumn, cell_of, is_same, starts_from, first_interval, advance}

-- A row before the next interval, if there is one.
abbrev pub Before : ℕ → Option ℕ → Type 0
Before r none = Unit
Before r (some t) = r < t

-- The interval at `j` holds row `r`.
pub record HoldsRow (rows : List ℕ) (j r : ℕ) : Type 0 where
  pub start : ℕ
  pub at : get_elem? rows j ≡ some start
  pub from : start ≤ r
  pub below : Before r (get_elem? rows (suc j))

module _ (c : WriteIsmColumn) where
  pub starts_bounds :
      (k n : ℕ) (prev : Option (List ℕ)) (i s : ℕ)
      → k + n ≤ 2 ^ 32
      → get_elem? (starts_from c k n prev) i ≡ some s
      → (k ≤ s) × (s < k + n)
  unfolding starts_from
  starts_bounds k zero prev i s h e = cc
  starts_bounds k (suc n) prev zero s h e = elim (Bool-cases (is_same prev (cell_of c k))) [
    | inl t ↦
        omega (arith, starts_bounds (k + 1) n (some (cell_of c k)) zero s (omega arith) (rw t at e))
    | inr t ↦ let first : some (k % 2 ^ 32) ≡ some s = rw t at e in ground arith
  ]
  starts_bounds k (suc n) prev (suc i) s h e = elim (Bool-cases (is_same prev (cell_of c k))) [
    | inl t ↦
        omega
          (arith, starts_bounds (k + 1) n (some (cell_of c k)) (suc i) s (omega arith) (rw t at e))
    | inr t ↦
        omega (arith, starts_bounds (k + 1) n (some (cell_of c k)) i s (omega arith) (rw t at e))
  ]

  Below-starts :
      (j k n : ℕ) (prev : Option (List ℕ))
      → j < k
      → k + n ≤ 2 ^ 32
      → Below j (starts_from c k n prev)
  unfolding starts_from
  Below-starts j k zero prev lt h = tt
  Below-starts j k (suc n) prev lt h = elim (Bool-cases (is_same prev (cell_of c k))) [
    | inl t ↦ rw t (Below-starts j (k + 1) n (some (cell_of c k)) (omega arith) (omega arith))
    | inr t ↦ rw t (omega arith)
  ]

  pub Ascending-starts :
      (k n : ℕ) (prev : Option (List ℕ)) → k + n ≤ 2 ^ 32 → Ascending (starts_from c k n prev)
  unfolding starts_from
  Ascending-starts k zero prev h = tt
  Ascending-starts k (suc n) prev h =
      let rest = Ascending-starts (k + 1) n (some (cell_of c k)) (omega arith) in
      elim (Bool-cases (is_same prev (cell_of c k))) [
        | inl t ↦ rw t rest
        | inr t ↦
            let e : k % 2 ^ 32 ≡ k = omega arith in
            rw (t, e)
              (Below-starts k (k + 1) n (some (cell_of c k)) (omega arith) (omega arith), rest)
      ]

  -- Up to the first interval the cells are the one before.
  unchanged :
      (k n : ℕ) (prev : List ℕ) (r : ℕ)
      → k + n ≤ 2 ^ 32
      → Before r (get_elem? (starts_from c k n (some prev)) 0)
      → k ≤ r
      → r < k + n
      → cell_of c r ≡ prev
  unfolding starts_from is_same
  unchanged k zero prev r h b from below = absurd (omega arith)
  unchanged k (suc n) prev r h b from below = elim (Bool-cases (bytes_eq prev (cell_of c k))) [
    | inl t ↦
        let same : prev ≡ cell_of c k = eq_of_bytes_eq prev (cell_of c k) t in
        elim (Bool-cases (r == k)) [
          | inl here ↦ let e : r ≡ k = ground arith in rw (e, same) refl
          | inr later ↦
              unchanged (k + 1) n (cell_of c k) r (omega arith) (rw t at b) (ground arith)
                (omega arith)
              ∙ sym same
        ]
    | inr t ↦ let e : r < k % 2 ^ 32 = rw t at b in absurd (omega arith)
  ]

  -- The cell of a row is the cell of the start of its interval.
  pub starts-cell :
      (k n : ℕ) (prev : Option (List ℕ)) (j s r : ℕ)
      → k + n ≤ 2 ^ 32
      → get_elem? (starts_from c k n prev) j ≡ some s
      → s ≤ r
      → Before r (get_elem? (starts_from c k n prev) (suc j))
      → r < k + n
      → cell_of c r ≡ cell_of c s
  unfolding starts_from
  starts-cell k zero prev j s r h e from b below = cc
  starts-cell k (suc n) prev zero s r h e from b below =
      elim (Bool-cases (is_same prev (cell_of c k))) [
        | inl t ↦
            starts-cell (k + 1) n (some (cell_of c k)) zero s r (omega arith) (rw t at e) from
              (rw t at b) (omega arith)
        | inr t ↦
            let first : some (k % 2 ^ 32) ≡ some s = rw t at e in
            let start : s ≡ k = ground arith in
            elim (Bool-cases (r == k)) [
              | inl here ↦ let e' : r ≡ k = ground arith in rw (e', start) refl
              | inr later ↦ rw start (
                  unchanged (k + 1) n (cell_of c k) r (omega arith) (rw t at b) (ground arith)
                    (omega arith))
            ]
      ]
  starts-cell k (suc n) prev (suc j) s r h e from b below =
      elim (Bool-cases (is_same prev (cell_of c k))) [
        | inl t ↦
            starts-cell (k + 1) n (some (cell_of c k)) (suc j) s r (omega arith) (rw t at e) from
              (rw t at b) (omega arith)
        | inr t ↦
            starts-cell (k + 1) n (some (cell_of c k)) j s r (omega arith) (rw t at e) from
              (rw t at b) (omega arith)
      ]

pub get_or-get_elem? : (xs : List ℕ) (i a : ℕ) → get_elem? xs i ≡ some a → get_or xs i 0 ≡ a
get_or-get_elem? [] i a h = cc
get_or-get_elem? (x ∷ xs) zero a h = ground arith
get_or-get_elem? (x ∷ xs) (suc i) a h = get_or-get_elem? xs i a h

pub get_elem?-lt : (xs : List ℕ) (i : ℕ) → i < length xs → get_elem? xs i ≡ some (get_or xs i 0)
get_elem?-lt [] i h = absurd (omega arith)
get_elem?-lt (x ∷ xs) zero h = refl
get_elem?-lt (x ∷ xs) (suc i) h = get_elem?-lt xs i (omega arith)

pub get_elem?-ge : (xs : List ℕ) (i : ℕ) → length xs ≤ i → get_elem? xs i ≡ none
get_elem?-ge [] i h = refl
get_elem?-ge (x ∷ xs) zero h = absurd (omega arith)
get_elem?-ge (x ∷ xs) (suc i) h = get_elem?-ge xs i (omega arith)

stays :
    (rows : List ℕ) (inx ir : ℕ)
    → (ltb (inx + 1) (length rows) && leb (get_or rows (inx + 1) 0) ir) ≡ false
    → Before ir (get_elem? rows (suc inx))
stays rows inx ir h = elim (Bool-cases (ltb (inx + 1) (length rows))) [
  | inl t ↦
      let e : get_elem? rows (suc inx) ≡ some (get_or rows (suc inx) 0) =
        get_elem?-lt rows (suc inx) (ground arith) in
      let k : leb (get_or rows (suc inx) 0) ir ≡ false = rw (t, add-one) at h in rw e (ground arith)
  | inr t ↦
      let e : get_elem? rows (suc inx) ≡ none = get_elem?-ge rows (suc inx) (ground arith) in
      rw e tt
]

-- From an interval that begins at the row or before it, the walk ends at the one that holds it.
pub advance-HoldsRow :
    (fuel : ℕ) (rows : List ℕ) (inx ir s : ℕ)
    → length rows ≤ inx + fuel
    → get_elem? rows inx ≡ some s
    → s ≤ ir
    → HoldsRow rows (advance fuel rows inx ir) ir
unfolding advance
advance-HoldsRow zero rows inx ir s h e from =
    absurd (omega (arith, lt-length_of_get_elem? rows inx s e))
advance-HoldsRow (suc fuel) rows inx ir s h e from =
    elim (Bool-cases (ltb (inx + 1) (length rows) && leb (get_or rows (inx + 1) 0) ir)) [
      | inl t ↦ rw t (
          advance-HoldsRow fuel rows (inx + 1) ir (get_or rows (inx + 1) 0) (omega arith)
            (get_elem?-lt rows (inx + 1) (ground arith)) (ground arith))
      | inr t ↦ rw t (record { start = s; at = e; from = from; below = stays rows inx ir t })
    ]

lower_bound-le-length : (row : ℕ) (xs : List ℕ) → lower_bound row xs ≤ length xs
unfolding lower_bound
lower_bound-le-length row [] = omega arith
lower_bound-le-length row (x ∷ xs) = ground (arith, lower_bound-le-length row xs)

-- The bound where the row is not the start of an interval itself.
first_interval-behind :
    (rows : List ℕ) (ir n : ℕ)
    → get_elem? rows 0 ≡ some 0
    → lower_bound ir rows ≡ n
    → (ltb n (length rows) && (get_or rows n 0 == ir)) ≡ false
    → (inx s : ℕ) × ((if n == 0 then none else some (n - 1)) ≡ some inx)
      × (get_elem? rows inx ≡ some s)
      × (s ≤ ir)
first_interval-behind rows ir zero h e t =
    let at : get_elem? rows (lower_bound ir rows) ≡ some 0 = rw e h in
    absurd (
      ground (
        arith,
        lower_bound-le ir rows 0 at,
        get_or-get_elem? rows 0 0 h,
        lt-length_of_get_elem? rows 0 0 h,
      ))
first_interval-behind rows ir (suc m) h e t =
    let at : get_elem? rows m ≡ some (get_or rows m 0) =
      get_elem?-lt rows m (omega (arith, lower_bound-le-length ir rows)) in
    (
      m,
      get_or rows m 0,
      ground arith,
      at,
      omega (arith, lower_bound-lt ir rows m (get_or rows m 0) e at),
    )

-- The interval that a bucket's first row is looked up in begins at that row or before it.
pub first_interval-some :
    (rows : List ℕ) (ir : ℕ)
    → get_elem? rows 0 ≡ some 0
    → (inx s : ℕ) × (first_interval rows ir ≡ some inx) × (get_elem? rows inx ≡ some s) × (s ≤ ir)
unfolding first_interval
first_interval-some rows ir h =
    let lb = lower_bound ir rows in
    elim (Bool-cases (ltb lb (length rows) && (get_or rows lb 0 == ir))) [
      | inl t ↦
          let e : get_elem? rows lb ≡ some (get_or rows lb 0) =
            get_elem?-lt rows lb (ground arith) in
          (lb, get_or rows lb 0, rw t refl, e, ground arith)
      | inr t ↦
          let (inx, s, e, at, le) = first_interval-behind rows ir lb h refl t in
          (inx, s, rw t e, at, le)
    ]
