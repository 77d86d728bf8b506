-- ===== src/Aipsio/Writer.antt =====
-- The serializer of crates/casacure/src/aipsio.rs. A method is an action on the writer; `none` is
-- a panic: closing an object that was not opened, or a length word outside the buffer.
use casacure.Prelude.{
  ℕ, ◌+◌, ◌-◌, ◌%◌, ◌^◌, Bool, true, false, List, [], ◌∷◌, ◌++◌, Option, none, some, ltb,
  if◌then◌else◌, length, overwrite,
}
use casacure.Prelude.Int.{ℤ, as_u16, as_u32, as_u64}
use casacure.Bytes.{to_bytes}
use casacure.Aipsio.{magic}

pub record Writer : Type 0 where
  pub buf : List ℕ
  pub little_endian : Bool
  -- Positions of the open objects' length words, innermost first.
  pub stack : List ℕ

unfoldable pub new : Writer
new = record { buf = []; little_endian = false; stack = [] }

unfoldable pub new_le : Writer
new_le = record { buf = []; little_endian = true; stack = [] }

-- The writer of the byte order that a data file has.
unfoldable pub writer_for : Bool → Writer
writer_for true = new
writer_for false = new_le

abbrev pub Write : Type 0
Write = Writer → Option Writer

abbrev pub and_then : Option Writer → Write → Option Writer
and_then none n = none
and_then (some w) n = n w

infixl 5 ◌>>◌
unfoldable pub ◌>>◌ : Write → Write → Write
◌>>◌ m n w = and_then (m w) n

-- `buf.extend_from_slice(bytes)`
unfoldable pub extend : List ℕ → Writer → Writer
extend bytes w = record w { buf = w.buf ++ bytes }

unfoldable pub done : Write
done w = some w

-- `for x in xs { f(x) }`
module _ {A : Type 0} where
  unfoldable pub for_each : (A → Write) → List A → Write
  for_each f [] = done
  for_each f (x ∷ xs) = f x >> for_each f xs

unfoldable pub put_word : ℕ → ℕ → Write
put_word k v w = some (extend (to_bytes w.little_endian k v) w)

unfoldable pub put_u8 : ℕ → Write
put_u8 v w = some (extend (v ∷ []) w)

unfoldable pub put_u32 : ℕ → Write
put_u32 = put_word 4

unfoldable pub put_i32 : ℤ → Write
put_i32 v = put_u32 (as_u32 v)

unfoldable pub put_u64 : ℕ → Write
put_u64 = put_word 8

unfoldable pub put_i64 : ℤ → Write
put_i64 v = put_u64 (as_u64 v)

unfoldable pub put_u16 : ℕ → Write
put_u16 = put_word 2

unfoldable pub put_i16 : ℤ → Write
put_i16 v = put_u16 (as_u16 v)

-- `to_bits` of the float.
unfoldable pub put_f32 : ℕ → Write
put_f32 = put_u32

unfoldable pub put_f64 : ℕ → Write
put_f64 = put_u64

unfoldable pub put_bool : Bool → Write
put_bool b = put_u8 (if b then 1 else 0)

-- A block of bytes behind its length.
unfoldable pub put_opaque : List ℕ → Write
put_opaque bytes = do put_u32 (length bytes % 2 ^ 32); (λ w. some (extend bytes w))

unfoldable pub put_string : List ℕ → Write
put_string = put_opaque

unfoldable pub push_start : ℕ → Write
push_start start w = some (record w { stack = start ∷ w.stack })

unfoldable pub put_object_start : List ℕ → ℕ → Write
put_object_start type_name version w =
    let start = length w.buf in
    (do
      (λ w'. some (extend (0 ∷ 0 ∷ 0 ∷ 0 ∷ []) w'))
      put_string type_name
      put_u32 version
      push_start start)
      w

unfoldable pub put_root_object_start : List ℕ → ℕ → Write
put_root_object_start type_name version = do put_u32 magic; put_object_start type_name version

-- `buf[start..start + 4].copy_from_slice(len)`, and the stack without `start`.
unfoldable pub patch_length : ℕ → List ℕ → Write
patch_length start rest w =
    if ltb (length w.buf) (start + 4)
    then none
    else (let len = (length w.buf - start) % 2 ^ 32 in
        some
          (record w { buf = overwrite w.buf start (to_bytes w.little_endian 4 len); stack = rest }))

abbrev close : List ℕ → Write
close [] w = none
close (start ∷ rest) w = patch_length start rest w

unfoldable pub put_object_end : Write
put_object_end w = close w.stack w

abbrev pub bytes_of : Option Writer → Option (List ℕ)
bytes_of none = none
bytes_of (some w) = some w.buf

-- `into_bytes` of what an action leaves in a writer.
unfoldable pub into_bytes : Write → Writer → Option (List ℕ)
into_bytes m w = bytes_of (m w)

-- The whole writer, for evaluation at concrete values.
unfoldable pub writer : Unit {0}
unfolding ◌>>◌ extend done for_each put_word put_u8 put_u32 put_i32 put_u64 put_bool put_opaque
    put_string push_start put_object_start put_root_object_start patch_length put_object_end
    into_bytes new new_le writer_for
writer = tt
