-- ===== src/Records/Arrays/Writer.antt =====
-- `write_array_value` of crates/casacure/src/record.rs: a framed array of version 3; and
-- `write_iposition`.
use casacure.Prelude.{ℕ, ◌%◌, ◌^◌, List, length}
use casacure.Prelude.Int.{ℤ, as_u32, as_i32}
use casacure.Bytes.{codes}
use casacure.Aipsio.Block.{put_elements}
use casacure.Aipsio.Writer.{
  Write, ◌>>◌, for_each, put_u8, put_u16, put_i16, put_u32, put_i32, put_i64, put_f32, put_f64,
  put_string, put_object_start, put_object_end,
}
use casacure.Records.Values.{ArrayData, ArrayValue}
use casacure.Records.Bits.{pack_bits}

unfoldable pub nelem : ArrayData → ℕ
nelem (ArrayData.bool v) = length v
nelem (ArrayData.u_char v) = length v
nelem (ArrayData.short v) = length v
nelem (ArrayData.u_short v) = length v
nelem (ArrayData.int v) = length v
nelem (ArrayData.u_int v) = length v
nelem (ArrayData.int64 v) = length v
nelem (ArrayData.float v) = length v
nelem (ArrayData.double v) = length v
nelem (ArrayData.complex v) = length v
nelem (ArrayData.d_complex v) = length v
nelem (ArrayData.string v) = length v

unfoldable pub put_pair : (ℕ → Write) → ℕ × ℕ → Write
put_pair put (re, im) = put re >> put im

unfoldable pub put_array_data : ArrayData → Write
unfolding put_pair
put_array_data (ArrayData.bool v) = for_each put_u8 (pack_bits v)
put_array_data (ArrayData.u_char v) = for_each put_u8 v
put_array_data (ArrayData.short v) = for_each put_i16 v
put_array_data (ArrayData.u_short v) = for_each put_u16 v
put_array_data (ArrayData.int v) = for_each put_i32 v
put_array_data (ArrayData.u_int v) = for_each put_u32 v
put_array_data (ArrayData.int64 v) = for_each put_i64 v
put_array_data (ArrayData.float v) = for_each put_f32 v
put_array_data (ArrayData.double v) = for_each put_f64 v
put_array_data (ArrayData.complex v) = for_each (put_pair put_f32) v
put_array_data (ArrayData.d_complex v) = for_each (put_pair put_f64) v
put_array_data (ArrayData.string v) = for_each put_string v

-- What stands in the frame.
unfoldable pub put_array_parts : ArrayValue → Write
unfolding nelem put_array_data
put_array_parts a = do
  put_elements put_u32 a.shape
  put_u32 (nelem a.contents % 2 ^ 32)
  put_array_data a.contents

unfoldable pub write_array_value : ArrayValue → Write
unfolding put_array_parts
write_array_value a = do put_object_start (codes "Array<void>") 3; put_array_parts a; put_object_end

-- `d as i32`
unfoldable pub put_dim : ℤ → Write
put_dim d = put_i32 (as_i32 (as_u32 d))

unfoldable pub write_iposition : List ℤ → Write
unfolding put_dim
write_iposition dims = do
  put_object_start (codes "IPosition") 1
  put_elements put_dim dims
  put_object_end
