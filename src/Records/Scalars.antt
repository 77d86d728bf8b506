-- ===== src/Records/Scalars.antt =====
-- `read_scalar_value` and `write_scalar_value` of crates/casacure/src/record.rs. The casts between
-- the two float types are the parameter `FloatCasts`, over bit patterns.
pub mod RoundTrip
use casacure.Prelude.{ℕ, ◌%◌, ◌^◌, Bool, not, [], ◌==◌, if◌then◌else◌}
use casacure.Prelude.Int.{ℤ, pos, as_u16, as_u32, as_i16}
use casacure.Aipsio.Reader.{
  Read, ◌>>=◌, pure, raise, lift, read_u8, read_u16, read_i16, read_u32, read_i32, read_i64,
  read_f32, read_f64, read_string, read_bool,
}
use casacure.Aipsio.Writer.{
  Write, ◌>>◌, done, put_u8, put_u16, put_i16, put_u32, put_i32, put_i64, put_f32, put_f64,
  put_string, put_bool,
}
use casacure.Records.{
  DataType, RecordError, aips_io, unknown_data_type, data_type_code, bool_type, char, u_char, short,
  u_short, int, u_int, float, double, complex, d_complex, string, table, int64,
}
use casacure.Records.Values.{RecordValue}
use casacure.Records.Arrays.Reader.{read_pair}
use casacure.Aipsio.{AipsIoError}

-- `RecordValue::X(m?)`
module _ {A : Type 0} where
  unfoldable pub read_as : (A → RecordValue) → Read AipsIoError A → Read RecordError RecordValue
  read_as f m = do a ← lift aips_io m; pure (f a)

abbrev pub complex_of : ℕ × ℕ → RecordValue
complex_of (re, im) = RecordValue.complex re im

abbrev pub d_complex_of : ℕ × ℕ → RecordValue
d_complex_of (re, im) = RecordValue.d_complex re im

unfoldable pub read_scalar_value : DataType → Read RecordError RecordValue
unfolding read_as read_pair
read_scalar_value bool_type = read_as RecordValue.bool read_bool
read_scalar_value char = read_as RecordValue.u_char read_u8
read_scalar_value u_char = read_as RecordValue.u_char read_u8
read_scalar_value short = read_as RecordValue.short read_i16
read_scalar_value u_short = read_as RecordValue.u_short read_u16
read_scalar_value int = read_as RecordValue.int read_i32
read_scalar_value u_int = read_as RecordValue.u_int read_u32
read_scalar_value int64 = read_as RecordValue.int64 read_i64
read_scalar_value float = read_as RecordValue.float read_f32
read_scalar_value double = read_as RecordValue.double read_f64
read_scalar_value complex = read_as complex_of (read_pair read_f32)
read_scalar_value d_complex = read_as d_complex_of (read_pair read_f64)
read_scalar_value string = read_as RecordValue.string read_string
read_scalar_value dt = raise (unknown_data_type (data_type_code dt))

-- `as f32` of a double, and `as f64` of a float.
pub record FloatCasts : Type 0 where
  pub as_f32 : ℕ → ℕ
  pub as_f64 : ℕ → ℕ

-- `i != 0`
unfoldable pub is_nonzero : ℤ → Bool
is_nonzero i = not (as_u32 i == 0)

unfoldable pub put_as_bool : RecordValue → Write
put_as_bool (RecordValue.bool b) = put_bool b
put_as_bool (RecordValue.u_char u) = put_bool (not (u == 0))
put_as_bool (RecordValue.int i) = put_bool (is_nonzero i)
put_as_bool v = put_bool Bool.false

unfoldable pub put_as_u_char : RecordValue → Write
put_as_u_char (RecordValue.u_char u) = put_u8 u
put_as_u_char (RecordValue.bool b) = put_u8 (if b then 1 else 0)
put_as_u_char (RecordValue.int i) = put_u8 (as_u32 i % 256)
put_as_u_char (RecordValue.short i) = put_u8 (as_u16 i % 256)
put_as_u_char v = put_u8 0

unfoldable pub put_as_short : RecordValue → Write
put_as_short (RecordValue.short i) = put_i16 i
put_as_short (RecordValue.int i) = put_i16 (as_i16 (as_u16 i))
put_as_short (RecordValue.u_short u) = put_i16 (as_i16 u)
put_as_short v = put_i16 (pos 0)

unfoldable pub put_as_u_short : RecordValue → Write
put_as_u_short (RecordValue.u_short u) = put_u16 u
put_as_u_short (RecordValue.short i) = put_u16 (as_u16 i)
put_as_u_short (RecordValue.u_int u) = put_u16 (u % 2 ^ 16)
put_as_u_short (RecordValue.int i) = put_u16 (as_u16 i)
put_as_u_short v = put_u16 0

unfoldable pub put_as_int : RecordValue → Write
put_as_int (RecordValue.int i) = put_i32 i
put_as_int (RecordValue.short i) = put_i32 i
put_as_int (RecordValue.u_short u) = put_i32 (pos u)
put_as_int (RecordValue.u_char u) = put_i32 (pos u)
put_as_int (RecordValue.bool b) = put_i32 (pos (if b then 1 else 0))
put_as_int v = put_i32 (pos 0)

unfoldable pub put_as_u_int : RecordValue → Write
put_as_u_int (RecordValue.u_int u) = put_u32 u
put_as_u_int (RecordValue.int i) = put_u32 (as_u32 i)
put_as_u_int v = put_u32 0

unfoldable pub put_as_int64 : RecordValue → Write
put_as_int64 (RecordValue.int i) = put_i64 i
put_as_int64 (RecordValue.int64 i) = put_i64 i
put_as_int64 v = put_i64 (pos 0)

unfoldable pub put_as_string : RecordValue → Write
put_as_string (RecordValue.string s) = put_string s
put_as_string (RecordValue.table s) = put_string s
put_as_string v = put_string []

module _ (casts : FloatCasts) where
  unfoldable pub put_as_float : RecordValue → Write
  put_as_float (RecordValue.float f) = put_f32 f
  put_as_float (RecordValue.double d) = put_f32 (casts.as_f32 d)
  put_as_float v = put_f32 0

  unfoldable pub put_as_double : RecordValue → Write
  put_as_double (RecordValue.double d) = put_f64 d
  put_as_double (RecordValue.float f) = put_f64 (casts.as_f64 f)
  put_as_double v = put_f64 0

  unfoldable pub put_as_complex : RecordValue → Write
  put_as_complex (RecordValue.complex re im) = do put_f32 re; put_f32 im
  put_as_complex (RecordValue.d_complex re im) = do
    put_f32 (casts.as_f32 re)
    put_f32 (casts.as_f32 im)
  put_as_complex v = do put_f32 0; put_f32 0

  unfoldable pub put_as_d_complex : RecordValue → Write
  put_as_d_complex (RecordValue.d_complex re im) = do put_f64 re; put_f64 im
  put_as_d_complex (RecordValue.complex re im) = do
    put_f64 (casts.as_f64 re)
    put_f64 (casts.as_f64 im)
  put_as_d_complex v = do put_f64 0; put_f64 0

  unfoldable pub write_scalar_value : DataType → RecordValue → Write
  unfolding put_as_bool put_as_u_char put_as_short put_as_u_short put_as_int put_as_u_int
      put_as_int64 put_as_string put_as_float put_as_double put_as_complex put_as_d_complex
  write_scalar_value bool_type v = put_as_bool v
  write_scalar_value char v = put_as_u_char v
  write_scalar_value u_char v = put_as_u_char v
  write_scalar_value short v = put_as_short v
  write_scalar_value u_short v = put_as_u_short v
  write_scalar_value int v = put_as_int v
  write_scalar_value u_int v = put_as_u_int v
  write_scalar_value int64 v = put_as_int64 v
  write_scalar_value float v = put_as_float v
  write_scalar_value double v = put_as_double v
  write_scalar_value complex v = put_as_complex v
  write_scalar_value d_complex v = put_as_d_complex v
  write_scalar_value string v = put_as_string v
  write_scalar_value table v = put_as_string v
  write_scalar_value dt v = done
