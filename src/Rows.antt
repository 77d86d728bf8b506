-- ===== src/Rows.antt =====
-- The row numbers of an index in crates/casacure/src/ism.rs and ssm.rs: 32 bits each, or 64 where
-- the last one needs them.
use casacure.Prelude.{
  ℕ, ◌-◌, ◌%◌, ◌^◌, ◌<◌, ◌≡◌, Bool, true, false, List, [], ◌∷◌, inl, inr, arith, Bool-cases, ltb,
  if◌then◌else◌,
}
use casacure.Bytes.{to_bytes}
use casacure.Search.{Ascending}
use casacure.Aipsio.Reads.{All}
use casacure.Aipsio.Reads.Words.{IsU32, IsU64}
use casacure.Aipsio.Writer.{Write, put_u32, put_u64}
use casacure.Aipsio.Writes.{Writes, Writes-u32, Writes-u64}

-- `rows.last().is_some_and(|&r| r > u32::MAX)`
unfoldable pub is_wide : List ℕ → Bool
is_wide [] = false
is_wide (x ∷ []) = ltb (2 ^ 32 - 1) x
is_wide (x ∷ y ∷ ys) = is_wide (y ∷ ys)

unfoldable pub put_row : Bool → ℕ → Write
put_row wide r = if wide then put_u64 r else put_u32 (r % 2 ^ 32)

-- The rows fit the words that they are written in.
unfoldable pub IsRow : Bool → ℕ → Type 0
IsRow true r = IsU64 r
IsRow false r = IsU32 r

unfoldable pub row_bytes : Bool → Bool → ℕ → List ℕ
row_bytes little true r = to_bytes little 8 r
row_bytes little false r = to_bytes little 4 (r % 2 ^ 32)

pub Writes-row :
    (little wide : Bool) (r : ℕ) → Writes little (put_row wide r) (row_bytes little wide r)
unfolding put_row row_bytes
Writes-row little true r = Writes-u64 r
Writes-row little false r = Writes-u32 (r % 2 ^ 32)

-- Ascending rows whose last one is below `bound` are all below it.
abbrev LastBelow : ℕ → List ℕ → Type 0
LastBelow bound [] = Unit
LastBelow bound (x ∷ []) = x < bound
LastBelow bound (x ∷ y ∷ ys) = LastBelow bound (y ∷ ys)

All-of_last :
    (bound : ℕ) (xs : List ℕ) → Ascending xs → LastBelow bound xs → All (λ r. r < bound) xs
All-of_last bound [] asc h = tt
All-of_last bound (x ∷ []) asc h = (h, tt)
All-of_last bound (x ∷ y ∷ ys) asc h =
    let rest = All-of_last bound (y ∷ ys) asc.1 h in (omega arith, rest)

LastBelow-narrow : (xs : List ℕ) → is_wide xs ≡ false → LastBelow (2 ^ 32) xs
unfolding is_wide
LastBelow-narrow [] h = tt
LastBelow-narrow (x ∷ []) h = ground arith
LastBelow-narrow (x ∷ y ∷ ys) h = LastBelow-narrow (y ∷ ys) h

pub All-IsRow : (xs : List ℕ) → Ascending xs → All IsU64 xs → All (IsRow (is_wide xs)) xs
unfolding IsRow
All-IsRow xs asc h = elim (Bool-cases (is_wide xs)) [
  | inl e ↦ rw e h
  | inr e ↦ rw e (All-of_last (2 ^ 32) xs asc (LastBelow-narrow xs e))
]
