-- ===== src/Ssm/Strings.antt =====
-- The content of a string array cell in crates/casacure/src/ssm.rs: `encode_string_array_content`
-- and `decode_string_array_content` with its three readers. The content is a list of bytes and a
-- position in it; `lossy` is `String::from_utf8_lossy` of the standard library.
pub mod RoundTrip
use casacure.Prelude.{
  ℕ, zero, suc, ◌+◌, ◌-◌, ◌*◌, ◌%◌, ◌^◌, Bool, true, false, not, ◌||◌, List, [], ◌∷◌, ◌++◌, map,
  reverse, Option, none, some, min, ltb, leb, ◌==◌, if◌then◌else◌, length, slice,
}
use casacure.Prelude.Int.{ℤ, pos, negsuc, is_negative, as_u32, as_u64, as_i32}
use casacure.Result.{Result, ok, err, ◌>>=◌}
use casacure.Bytes.{to_bytes, from_bytes}
use casacure.Aipsio.Reads.{concat_bytes}
use casacure.Positions.{read_each}
use casacure.Ssm.{SsmError, bad_string_ref, unsupported_array_type, fixed_string_count_mismatch}

-- The strings of an `ArrayValue`, or an array of another type.
pub data ArrayData : Type 0 where
  string : List (List ℕ) → ArrayData
  other : ArrayData

-- `to_be_bytes` of a length or a dimension.
abbrev pub push_i32 : ℕ → List ℕ
push_i32 v = to_bytes false 4 (v % 2 ^ 32)

-- `d.max(0)` as `usize`.
abbrev pub clipped : ℤ → ℕ
clipped (pos n) = n
clipped (negsuc n) = 0

-- `product()` of `usize`, which wraps in a release build.
unfoldable pub product : List ℕ → ℕ
product [] = 1
product (d ∷ ds) = d * product ds % 2 ^ 64

abbrev pub put_one : List ℕ → List ℕ
put_one s = push_i32 (length s) ++ s

-- The strings, each behind its length.
abbrev pub put_strings : List (List ℕ) → List ℕ
put_strings ss = concat_bytes put_one ss

-- The number of dimensions, the dimensions in CASA order, and the filled flag.
unfoldable pub put_shape : List ℕ → List ℕ
put_shape shape = push_i32 (length shape) ++ (concat_bytes push_i32 (reverse shape) ++ push_i32 1)

-- `fixed_shape.filter(|s| !s.is_empty())`
abbrev pub non_empty : Option (List ℤ) → Option (List ℤ)
non_empty none = none
non_empty (some []) = none
non_empty (some (d ∷ ds)) = some (d ∷ ds)

abbrev pub encode_strings : List ℕ → List (List ℕ) → Option (List ℤ) → Result SsmError (List ℕ)
encode_strings shape strings none = ok (put_shape shape ++ put_strings strings)
encode_strings shape strings (some fixed) =
    let expected = product (map clipped fixed) in
    if length strings == expected
    then ok (put_strings strings)
    else err (fixed_string_count_mismatch expected (length strings))

unfoldable pub encode_string_array_content :
    List ℕ → ArrayData → Option (List ℤ) → Result SsmError (List ℕ)
encode_string_array_content shape (string strings) fixed_shape =
    encode_strings shape strings (non_empty fixed_shape)
encode_string_array_content shape other fixed_shape = err unsupported_array_type

-- `BadStringRef` at position `p`.
abbrev pub bad {ℓ} : {A : Type ℓ} → ℕ → ℕ → Result SsmError A
bad p len = err (bad_string_ref (pos 0) (as_i32 (p % 2 ^ 32)) len)

-- `i32::from_be_bytes(content[p..p + 4])`
abbrev pub i32_at : List ℕ → ℕ → ℤ
i32_at content p = as_i32 (from_bytes false (slice content p 4))

unfoldable pub read_i32 : List ℕ → ℕ → Result SsmError (ℤ × ℕ)
read_i32 content p = if ltb (length content) (p + 4) then bad p 0 else ok (i32_at content p, p + 4)

unfoldable pub read_dim : List ℕ → ℕ → Result SsmError (ℕ × ℕ)
read_dim content p =
    read_i32 content p >>= λ d. if is_negative d.0 then bad d.1 0 else ok (as_u32 d.0, d.1)

-- A 0-dim cell holds no elements.
abbrev pub count : List ℕ → ℕ
count [] = 0
count (d ∷ ds) = product (d ∷ ds)

-- `d as u32` of an `i64`.
abbrev pub dim_of : ℤ → ℕ
dim_of d = as_u64 d % 2 ^ 32

unfoldable pub saturating_product : ℕ → List ℕ → ℕ
saturating_product a [] = a
saturating_product a (d ∷ ds) = saturating_product (min (a * d) (2 ^ 64 - 1)) ds

-- `reduce(saturating_mul).unwrap_or(0)`
abbrev pub fixed_count : List ℕ → ℕ
fixed_count [] = 0
fixed_count (d ∷ ds) = saturating_product d ds

-- The dimensions of the header agree with the column's.
unfoldable pub dims_agree : List ℕ → List ℕ → ℕ → Option ℕ
dims_agree content [] p = some p
dims_agree content (d ∷ ds) p =
    if ltb (length content) (p + 4)
    then none
    else if from_bytes false (slice content p 4) == d
    then dims_agree content ds (p + 4)
    else none

module _ (lossy : List ℕ → List ℕ) where
  -- A string of the layout with a header: its length is at `p`.
  unfoldable pub read_string : List ℕ → ℕ → Result SsmError (List ℕ × ℕ)
  read_string content p = read_i32 content p >>= λ len.
      if is_negative len.0 || ltb (length content) (len.1 + as_u32 len.0)
      then bad len.1 (as_u32 len.0)
      else ok (lossy (slice content len.1 (as_u32 len.0)), len.1 + as_u32 len.0)

  unfoldable pub decode_header_string_content : List ℕ → Result SsmError (List ℕ × List (List ℕ))
  decode_header_string_content content = read_i32 content 0 >>= λ ndim.
      (if is_negative ndim.0
        then bad ndim.1 0
        else read_each read_dim content (as_u32 ndim.0) ndim.1)
      >>= λ dims. read_i32 content dims.1 >>= λ flag.
          read_each read_string content (count (reverse dims.0)) flag.1 >>= λ r.
          ok (reverse dims.0, r.0)

  -- A string of the layout without a header.
  unfoldable pub read_fixed_string : List ℕ → ℕ → Result SsmError (List ℕ × ℕ)
  read_fixed_string content p =
      if ltb (length content) (p + 4)
      then bad p 0
      else let len = i32_at content p in
        if is_negative len
        then bad p (as_u32 len)
        else if ltb (length content) (p + 4 + as_u32 len)
        then bad (p + 4) (as_u32 len)
        else ok (lossy (slice content (p + 4) (as_u32 len)), p + 4 + as_u32 len)

  unfoldable pub decode_fixed_string_content : List ℕ → ℕ → Result SsmError (List (List ℕ))
  decode_fixed_string_content content nelem = read_each read_fixed_string content nelem 0 >>= λ r.
      if r.1 == length content then ok r.0 else bad r.1 ((length content - r.1) % 2 ^ 32)

  -- `None` where the strings of the layout are out of range or do not consume the content.
  abbrev pub whole : List ℕ → Result SsmError (List (List ℕ) × ℕ) → Option (List (List ℕ))
  whole content (ok r) = if r.1 == length content then some r.0 else none
  whole content (err e) = none

  abbrev pub after_dims : List ℕ → ℕ → Option ℕ → Option (List (List ℕ))
  after_dims content nelem none = none
  after_dims content nelem (some p) =
      if ltb (length content) (p + 4)
      then none
      else if from_bytes false (slice content p 4) == 1
      then whole content (read_each read_fixed_string content nelem (p + 4))
      else none

  unfoldable pub try_fixed_header_layout : List ℕ → List ℕ → ℕ → Option (List (List ℕ))
  try_fixed_header_layout content logical nelem =
      if ltb (length content) 4
      then none
      else if from_bytes false (slice content 0 4) == length logical
      then after_dims content nelem (dims_agree content (reverse logical) 4)
      else none

  abbrev pub with_shape : List ℕ → List (List ℕ) → Result SsmError (List ℕ × List (List ℕ))
  with_shape logical strings = ok (logical, strings)

  abbrev pub decode_fixed :
      List ℕ → List ℕ → Option (List (List ℕ)) → Result SsmError (List ℕ × List (List ℕ))
  decode_fixed content logical (some strings) = with_shape logical strings
  decode_fixed content logical none =
      decode_fixed_string_content content (fixed_count logical) >>= with_shape logical

  abbrev pub decode_shaped : List ℕ → Option (List ℤ) → Result SsmError (List ℕ × List (List ℕ))
  decode_shaped content none = decode_header_string_content content
  decode_shaped content (some shape) =
      let logical = reverse (map dim_of shape) in
      decode_fixed content logical (try_fixed_header_layout content logical (fixed_count logical))

  unfoldable pub decode_string_array_content :
      List ℕ → Option (List ℤ) → Result SsmError (List ℕ × List (List ℕ))
  decode_string_array_content content fixed_shape = decode_shaped content (non_empty fixed_shape)
