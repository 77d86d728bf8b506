-- ===== src/Records/Arrays/Encoding.antt =====
-- The bytes of a framed array of crates/casacure/src/record.rs, and that they are written.
use casacure.Prelude.{ℕ, ◌%◌, ◌^◌, refl, Bool, List, [], ◌∷◌, ◌++◌, length}
use casacure.Prelude.Int.{ℤ, as_u16, as_u32, as_u64}
use casacure.Bytes.{codes, to_bytes}
use casacure.Aipsio.Encoding.{object_bytes, text_bytes}
use casacure.Aipsio.Block.{put_elements, elements_bytes}
use casacure.Aipsio.Reads.{concat_bytes}
use casacure.Aipsio.Writer.{
  Write, put_u8, put_u16, put_i16, put_u32, put_i32, put_i64, put_f32, put_f64, put_string,
}
use casacure.Aipsio.Writes.{
  Writes, Writes-seq, Writes-for_each, Writes-word, Writes-u32, Writes-i32, Writes-u64,
  Writes-string, Writes-object,
}
use casacure.Records.Values.{ArrayData, ArrayValue}
use casacure.Records.Bits.{pack_bits}
use casacure.Records.Arrays.Writer.{
  nelem, put_pair, put_array_data, put_array_parts, write_array_value,
}

-- A pair of words of `k` bytes.
unfoldable pub pair_bytes : Bool → ℕ → ℕ × ℕ → List ℕ
pair_bytes little k (re, im) = to_bytes little k re ++ to_bytes little k im

unfoldable pub contents_bytes : Bool → ArrayData → List ℕ
unfolding pair_bytes
contents_bytes little (ArrayData.bool v) = concat_bytes (λ b. b ∷ []) (pack_bits v)
contents_bytes little (ArrayData.u_char v) = concat_bytes (λ b. b ∷ []) v
contents_bytes little (ArrayData.short v) = concat_bytes (λ x. to_bytes little 2 (as_u16 x)) v
contents_bytes little (ArrayData.u_short v) = concat_bytes (to_bytes little 2) v
contents_bytes little (ArrayData.int v) = concat_bytes (λ x. to_bytes little 4 (as_u32 x)) v
contents_bytes little (ArrayData.u_int v) = concat_bytes (to_bytes little 4) v
contents_bytes little (ArrayData.int64 v) = concat_bytes (λ x. to_bytes little 8 (as_u64 x)) v
contents_bytes little (ArrayData.float v) = concat_bytes (to_bytes little 4) v
contents_bytes little (ArrayData.double v) = concat_bytes (to_bytes little 8) v
contents_bytes little (ArrayData.complex v) = concat_bytes (pair_bytes little 4) v
contents_bytes little (ArrayData.d_complex v) = concat_bytes (pair_bytes little 8) v
contents_bytes little (ArrayData.string v) = concat_bytes (text_bytes little) v

unfoldable pub array_bytes : Bool → ArrayValue → List ℕ
unfolding contents_bytes nelem
array_bytes little a = object_bytes little (codes "Array<void>") 3 (
    elements_bytes little (to_bytes little 4) a.shape
    ++ (to_bytes little 4 (nelem a.contents % 2 ^ 32) ++ contents_bytes little a.contents))

module _ (little : Bool) where
  pub Writes-u8 : (v : ℕ) → Writes little (put_u8 v) (v ∷ [])
  unfolding put_u8
  Writes-u8 v = record { at = λ w e. refl }

  pub Writes-u16 : (v : ℕ) → Writes little (put_u16 v) (to_bytes little 2 v)
  unfolding put_u16
  Writes-u16 v = Writes-word 2 v

  pub Writes-i16 : (v : ℤ) → Writes little (put_i16 v) (to_bytes little 2 (as_u16 v))
  unfolding put_i16
  Writes-i16 v = Writes-u16 (as_u16 v)

  pub Writes-i64 : (v : ℤ) → Writes little (put_i64 v) (to_bytes little 8 (as_u64 v))
  unfolding put_i64
  Writes-i64 v = Writes-u64 (as_u64 v)

  pub Writes-f32 : (v : ℕ) → Writes little (put_f32 v) (to_bytes little 4 v)
  unfolding put_f32
  Writes-f32 v = Writes-u32 v

  pub Writes-f64 : (v : ℕ) → Writes little (put_f64 v) (to_bytes little 8 v)
  unfolding put_f64
  Writes-f64 v = Writes-u64 v

  Writes-pair :
      (k : ℕ) (put : ℕ → Write)
      → ((v : ℕ) → Writes little (put v) (to_bytes little k v))
      → (p : ℕ × ℕ) → Writes little (put_pair put p) (pair_bytes little k p)
  unfolding put_pair pair_bytes
  Writes-pair k put h (re, im) = Writes-seq (put re) (put im) _ _ (h re) (h im)

  Writes-contents : (d : ArrayData) → Writes little (put_array_data d) (contents_bytes little d)
  unfolding put_array_data contents_bytes
  Writes-contents (ArrayData.bool v) = Writes-for_each put_u8 _ Writes-u8 (pack_bits v)
  Writes-contents (ArrayData.u_char v) = Writes-for_each put_u8 _ Writes-u8 v
  Writes-contents (ArrayData.short v) = Writes-for_each put_i16 _ Writes-i16 v
  Writes-contents (ArrayData.u_short v) = Writes-for_each put_u16 _ Writes-u16 v
  Writes-contents (ArrayData.int v) = Writes-for_each put_i32 _ Writes-i32 v
  Writes-contents (ArrayData.u_int v) = Writes-for_each put_u32 _ Writes-u32 v
  Writes-contents (ArrayData.int64 v) = Writes-for_each put_i64 _ Writes-i64 v
  Writes-contents (ArrayData.float v) = Writes-for_each put_f32 _ Writes-f32 v
  Writes-contents (ArrayData.double v) = Writes-for_each put_f64 _ Writes-f64 v
  Writes-contents (ArrayData.complex v) =
      Writes-for_each (put_pair put_f32) _ (Writes-pair 4 put_f32 Writes-f32) v
  Writes-contents (ArrayData.d_complex v) =
      Writes-for_each (put_pair put_f64) _ (Writes-pair 8 put_f64 Writes-f64) v
  Writes-contents (ArrayData.string v) = Writes-for_each put_string _ Writes-string v

  pub Writes-array : (a : ArrayValue) → Writes little (write_array_value a) (array_bytes little a)
  unfolding write_array_value array_bytes put_array_parts put_elements elements_bytes
  Writes-array a = Writes-object (codes "Array<void>") 3 (put_array_parts a) _ (
      Writes-seq (put_elements put_u32 a.shape) _ _ _
        (Writes-seq (put_u32 (length a.shape % 2 ^ 32)) _ _ _ (Writes-u32 _)
          (Writes-for_each put_u32 _ Writes-u32 a.shape))
        (Writes-seq (put_u32 (nelem a.contents % 2 ^ 32)) _ _ _ (Writes-u32 _)
          (Writes-contents a.contents)))
