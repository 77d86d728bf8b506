-- ===== src/Prelude/Int.antt =====
-- Signed integers over the native numbers, and the casts between `u32`/`i32` and `u64`/`i64`.
use Prim.Native.Nat.{ℕ, ◌-◌, ◌%◌, ◌^◌, ◌<◌}
use mathlib.Core.Path.{◌≡◌}
use mathlib.Core.Bool.{Bool, true, false}
use native.Mathlib.Omega.{arith}
use casacure.Prelude.Tests.{ltb, if◌then◌else◌}

-- `negsuc n` is -(n + 1).
pub data ℤ : Type 0 where
  pos : ℕ → ℤ
  negsuc : ℕ → ℤ

abbrev pub is_negative : ℤ → Bool
is_negative (pos n) = false
is_negative (negsuc n) = true

-- `as u32` of an `i32`, and `as u64` of an `i64`: the bit pattern.
abbrev pub as_u32 : ℤ → ℕ
as_u32 (pos n) = n % 2 ^ 32
as_u32 (negsuc n) = 2 ^ 32 - 1 - n % 2 ^ 32

abbrev pub as_u64 : ℤ → ℕ
as_u64 (pos n) = n % 2 ^ 64
as_u64 (negsuc n) = 2 ^ 64 - 1 - n % 2 ^ 64

abbrev pub as_u16 : ℤ → ℕ
as_u16 (pos n) = n % 2 ^ 16
as_u16 (negsuc n) = 2 ^ 16 - 1 - n % 2 ^ 16

-- `as i32` of a `u32`, `as i64` of a `u64`, and `as i16` of a `u16`.
abbrev pub as_i32 : ℕ → ℤ
as_i32 v = if ltb v (2 ^ 31) then pos v else negsuc (2 ^ 32 - 1 - v)

abbrev pub as_i64 : ℕ → ℤ
as_i64 v = if ltb v (2 ^ 63) then pos v else negsuc (2 ^ 64 - 1 - v)

abbrev pub as_i16 : ℕ → ℤ
as_i16 v = if ltb v (2 ^ 15) then pos v else negsuc (2 ^ 16 - 1 - v)

-- The integers that an `i32` and an `i64` hold.
abbrev pub IsI32 : ℤ → Type 0
IsI32 (pos n) = n < 2 ^ 31
IsI32 (negsuc n) = n < 2 ^ 31

abbrev pub IsI64 : ℤ → Type 0
IsI64 (pos n) = n < 2 ^ 63
IsI64 (negsuc n) = n < 2 ^ 63

abbrev pub IsI16 : ℤ → Type 0
IsI16 (pos n) = n < 2 ^ 15
IsI16 (negsuc n) = n < 2 ^ 15

pub as_i16-as_u16 : (v : ℤ) → IsI16 v → as_i16 (as_u16 v) ≡ v
as_i16-as_u16 (pos n) h = ground arith
as_i16-as_u16 (negsuc n) h = ground arith

pub as_u16-lt : (v : ℤ) → as_u16 v < 2 ^ 16
as_u16-lt (pos n) = omega arith
as_u16-lt (negsuc n) = omega arith

pub as_i32-as_u32 : (v : ℤ) → IsI32 v → as_i32 (as_u32 v) ≡ v
as_i32-as_u32 (pos n) h = ground arith
as_i32-as_u32 (negsuc n) h = ground arith

pub as_i64-as_u64 : (v : ℤ) → IsI64 v → as_i64 (as_u64 v) ≡ v
as_i64-as_u64 (pos n) h = ground arith
as_i64-as_u64 (negsuc n) h = ground arith

pub as_u32-lt : (v : ℤ) → as_u32 v < 2 ^ 32
as_u32-lt (pos n) = omega arith
as_u32-lt (negsuc n) = omega arith

pub as_u64-lt : (v : ℤ) → as_u64 v < 2 ^ 64
as_u64-lt (pos n) = omega arith
as_u64-lt (negsuc n) = omega arith
