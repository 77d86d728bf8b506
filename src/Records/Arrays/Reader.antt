-- ===== src/Records/Arrays/Reader.antt =====
-- `read_array` of crates/casacure/src/record.rs: a framed array.
use casacure.Prelude.{ℕ, false, List, if◌then◌else◌, ltb, take}
use casacure.Bytes.{codes, bytes_eq}
use casacure.Aipsio.{AipsIoError, ObjectStart, unexpected_type}
use casacure.Aipsio.Reader.{
  Read, ◌>>=◌, ◌>>◌, pure, raise, lift, repeat, read_u8, read_u16, read_i16, read_u32, read_i32,
  read_i64, read_f32, read_f64, read_string, read_object_start,
}
use casacure.Records.{
  DataType, RecordError, aips_io, unknown_data_type, data_type_code, bool_type, char, u_char, short,
  u_short, int, u_int, float, double, complex, d_complex, string, int64,
}
use casacure.Records.Values.{ArrayData, ArrayValue}
use casacure.Records.Bits.{bit_bytes, bits_from}

-- `obj.type_name.starts_with("Array")`
unfoldable pub expect_array : ObjectStart → Read RecordError (Unit {0})
expect_array obj =
    if bytes_eq (take 5 obj.type_name) (codes "Array")
    then pure tt
    else raise (aips_io (unexpected_type obj.payload_offset (codes "Array<...>") obj.type_name))

-- Versions before 3 stored an origin for each dimension.
unfoldable pub skip_origin : ℕ → ℕ → Read RecordError (Unit {0})
skip_origin version ndim =
    if ltb version 3 then (do lift aips_io (repeat ndim read_u32); pure tt) else pure tt

-- `(0..n).map(|_| m).collect()`
module _ {A : Type 0} where
  unfoldable pub collect :
      (List A → ArrayData) → ℕ → Read AipsIoError A → Read RecordError ArrayData
  collect f n m = do xs ← lift aips_io (repeat n m); pure (f xs)

-- Two floats, the real part first.
unfoldable pub read_pair : {E : Type 0} → Read E ℕ → Read E (ℕ × ℕ)
read_pair m = do re ← m; im ← m; pure (re, im)

unfoldable pub read_array_data : ℕ → DataType → Read RecordError ArrayData
unfolding collect read_pair
read_array_data n bool_type =
    collect (λ packed. ArrayData.bool (bits_from packed 0 n)) (bit_bytes n) read_u8
read_array_data n char = collect ArrayData.u_char n read_u8
read_array_data n u_char = collect ArrayData.u_char n read_u8
read_array_data n short = collect ArrayData.short n read_i16
read_array_data n u_short = collect ArrayData.u_short n read_u16
read_array_data n int = collect ArrayData.int n read_i32
read_array_data n u_int = collect ArrayData.u_int n read_u32
read_array_data n int64 = collect ArrayData.int64 n read_i64
read_array_data n float = collect ArrayData.float n read_f32
read_array_data n double = collect ArrayData.double n read_f64
read_array_data n complex = collect ArrayData.complex n (read_pair read_f32)
read_array_data n d_complex = collect ArrayData.d_complex n (read_pair read_f64)
read_array_data n string = collect ArrayData.string n read_string
read_array_data n dt = raise (unknown_data_type (data_type_code dt))

unfoldable pub read_array : DataType → Read RecordError ArrayValue
unfolding expect_array skip_origin read_array_data
read_array elem = do
  obj ← lift aips_io (read_object_start false)
  expect_array obj
  ndim ← lift aips_io read_u32
  shape ← lift aips_io (repeat ndim read_u32)
  skip_origin obj.version ndim
  nelem ← lift aips_io read_u32
  contents ← read_array_data nelem elem
  pure (record { shape = shape; contents = contents })
