-- ===== src/Records/Progress/Elements.antt =====
-- The readers of scalars and arrays of crates/casacure/src/record.rs leave no more than there was.
use casacure.Prelude.{ℕ, List, arith, ltb}
use casacure.Bytes.{codes, bytes_eq}
use casacure.Prelude.{take}
use casacure.Aipsio.{AipsIoError}
use casacure.Aipsio.Reader.{Read, lift, repeat, read_u32}
use casacure.Aipsio.Takes.{
  Takes, Takes-pure, Takes-raise, Takes-le, Takes-if, Takes-bind, Takes-lift, Takes-repeat,
  Takes-some_u32, Takes-i32, Takes-i64, Takes-u16, Takes-i16, Takes-f32, Takes-f64, Takes-u8,
  Takes-bool, Takes-string, Takes-object_start,
}
use casacure.Records.{
  DataType, aips_io, bool_type, char, u_char, short, u_short, int, u_int, float, double, complex,
  d_complex, string, int64,
}
use casacure.Records.Values.{ArrayData, RecordValue}
use casacure.Records.Arrays.Reader.{
  expect_array, skip_origin, collect, read_pair, read_array_data, read_array,
}
use casacure.Records.Scalars.{read_as, read_scalar_value}

Takes-pair : {E : Type 0} (m : Read E ℕ) → Takes 0 m → Takes 0 (read_pair m)
unfolding read_pair
Takes-pair m h = Takes-bind 0 0 m _ h (λ re. Takes-bind 0 0 m _ h (λ im. Takes-pure _))

module _ {A : Type 0} where
  Takes-collect :
      (f : List A → ArrayData) (n : ℕ) (m : Read AipsIoError A)
      → Takes 0 m
      → Takes 0 (collect f n m)
  unfolding collect
  Takes-collect f n m h =
      Takes-bind 0 0 _ _ (Takes-lift 0 aips_io _ (Takes-repeat n m h)) (λ xs. Takes-pure _)

  Takes-as : (f : A → RecordValue) (m : Read AipsIoError A) → Takes 0 m → Takes 0 (read_as f m)
  unfolding read_as
  Takes-as f m h = Takes-bind 0 0 _ _ (Takes-lift 0 aips_io m h) (λ a. Takes-pure _)

Takes-array_data : (n : ℕ) (dt : DataType) → Takes 0 (read_array_data n dt)
unfolding read_array_data
Takes-array_data n bool_type = Takes-collect _ _ _ Takes-u8
Takes-array_data n char = Takes-collect _ _ _ Takes-u8
Takes-array_data n u_char = Takes-collect _ _ _ Takes-u8
Takes-array_data n short = Takes-collect _ _ _ Takes-i16
Takes-array_data n u_short = Takes-collect _ _ _ Takes-u16
Takes-array_data n int = Takes-collect _ _ _ Takes-i32
Takes-array_data n u_int = Takes-collect _ _ _ Takes-some_u32
Takes-array_data n int64 = Takes-collect _ _ _ Takes-i64
Takes-array_data n float = Takes-collect _ _ _ Takes-f32
Takes-array_data n double = Takes-collect _ _ _ Takes-f64
Takes-array_data n complex = Takes-collect _ _ _ (Takes-pair _ Takes-f32)
Takes-array_data n d_complex = Takes-collect _ _ _ (Takes-pair _ Takes-f64)
Takes-array_data n string = Takes-collect _ _ _ Takes-string
Takes-array_data n dt = Takes-raise 0 _

pub Takes-scalar : (dt : DataType) → Takes 0 (read_scalar_value dt)
unfolding read_scalar_value
Takes-scalar bool_type = Takes-as _ _ Takes-bool
Takes-scalar char = Takes-as _ _ Takes-u8
Takes-scalar u_char = Takes-as _ _ Takes-u8
Takes-scalar short = Takes-as _ _ Takes-i16
Takes-scalar u_short = Takes-as _ _ Takes-u16
Takes-scalar int = Takes-as _ _ Takes-i32
Takes-scalar u_int = Takes-as _ _ Takes-some_u32
Takes-scalar int64 = Takes-as _ _ Takes-i64
Takes-scalar float = Takes-as _ _ Takes-f32
Takes-scalar double = Takes-as _ _ Takes-f64
Takes-scalar complex = Takes-as _ _ (Takes-pair _ Takes-f32)
Takes-scalar d_complex = Takes-as _ _ (Takes-pair _ Takes-f64)
Takes-scalar string = Takes-as _ _ Takes-string
Takes-scalar dt = Takes-raise 0 _

pub Takes-array : (dt : DataType) → Takes 0 (read_array dt)
unfolding read_array expect_array skip_origin
Takes-array dt =
    Takes-bind 0 0 _ _ (Takes-le 0 4 _ (omega arith) (Takes-lift 4 aips_io _ Takes-object_start))
      (λ obj.
        Takes-bind 0 0 _ _
          (Takes-if 0 (bytes_eq (take 5 obj.type_name) (codes "Array")) _ _ (Takes-pure tt)
            (Takes-raise 0 _))
          (λ x. Takes-bind 0 0 _ _ word (λ ndim. Takes-bind 0 0 _ _ (words ndim) (λ shape.
            Takes-bind 0 0 _ _
              (Takes-if 0 (ltb obj.version 3) _ _
                (Takes-bind 0 0 _ _ (words ndim) (λ origin. Takes-pure tt)) (Takes-pure tt))
              (λ y. Takes-bind 0 0 _ _ word (λ nelem.
                Takes-bind 0 0 _ _ (Takes-array_data nelem dt) (λ contents. Takes-pure _)))))))
  where
    word : Takes 0 (lift aips_io read_u32)
    word = Takes-lift 0 aips_io _ Takes-some_u32

    words : (n : ℕ) → Takes 0 (lift aips_io (repeat n read_u32))
    words n = Takes-lift 0 aips_io _ (Takes-repeat n _ Takes-some_u32)
