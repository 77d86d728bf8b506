-- ===== src/Records/Arrays/RoundTrip.antt =====
-- The framed arrays of crates/casacure/src/record.rs, written and read back.
use casacure.Prelude.{
  ℕ, ◌%◌, ◌^◌, ◌<◌, ◌≡◌, refl, sym, subst, ◌⊎◌, inl, inr, Bool, false, List, [], ◌∷◌, ◌++◌,
  append_assoc, arith, length,
}
use casacure.Prelude.Int.{IsI16, IsI32, IsI64}
use casacure.Bytes.{codes, to_bytes, bytes_eq}
use casacure.Bytes.Utf8.{is_utf8}
use casacure.Aipsio.{AipsIoError}
use casacure.Aipsio.Encoding.{object_bytes, magic_bytes}
use casacure.Aipsio.Block.{elements_bytes}
use casacure.Aipsio.Reader.{
  Read, ◌>>=◌, ◌>>◌, pure, lift, repeat, read_u8, read_u16, read_i16, read_u32, read_i32, read_i64,
  read_f32, read_f64, read_string, read_object_start,
}
use casacure.Aipsio.Reads.{
  Reads, Reads-pure, Reads-bind, Reads-lift, Reads-return, Reads-from, ReadsFrom-lift, Reads-repeat,
  concat_bytes, All,
}
use casacure.Aipsio.Reads.Words.{
  IsU16, IsU32, IsU64, IsText, Reads-u16, Reads-i16, Reads-u32, Reads-u64, Reads-i32, Reads-i64,
}
use casacure.Aipsio.Reads.Objects.{object_at, Reads-u8, Reads-string, ReadsFrom-object_start}
use casacure.Records.{
  DataType, aips_io, bool_type, char, u_char, short, u_short, int, u_int, float, double, complex,
  d_complex, string, int64,
}
use casacure.Records.Values.{ArrayData, ArrayValue}
use casacure.Records.Bits.{pack_bits, bits_from}
use casacure.Records.Bits.RoundTrip.{bits_from-pack_bits, length-pack_bits}
use casacure.Records.Arrays.Reader.{
  expect_array, skip_origin, collect, read_pair, read_array_data, read_array,
}
use casacure.Records.Arrays.Writer.{nelem}
use casacure.Records.Arrays.Encoding.{pair_bytes, contents_bytes, array_bytes}

abbrev pub IsU32Pair : ℕ × ℕ → Type 0
IsU32Pair p = IsU32 p.0 × IsU32 p.1

abbrev pub IsU64Pair : ℕ × ℕ → Type 0
IsU64Pair p = IsU64 p.0 × IsU64 p.1

-- The elements are of the type `dt` and in its range.
unfoldable pub ContentsOf : DataType → ArrayData → Type 0
ContentsOf dt (ArrayData.bool v) = dt ≡ bool_type
ContentsOf dt (ArrayData.u_char v) = (dt ≡ char) ⊎ (dt ≡ u_char)
ContentsOf dt (ArrayData.short v) = (dt ≡ short) × All IsI16 v
ContentsOf dt (ArrayData.u_short v) = (dt ≡ u_short) × All IsU16 v
ContentsOf dt (ArrayData.int v) = (dt ≡ int) × All IsI32 v
ContentsOf dt (ArrayData.u_int v) = (dt ≡ u_int) × All IsU32 v
ContentsOf dt (ArrayData.int64 v) = (dt ≡ int64) × All IsI64 v
ContentsOf dt (ArrayData.float v) = (dt ≡ float) × All IsU32 v
ContentsOf dt (ArrayData.double v) = (dt ≡ double) × All IsU64 v
ContentsOf dt (ArrayData.complex v) = (dt ≡ complex) × All IsU32Pair v
ContentsOf dt (ArrayData.d_complex v) = (dt ≡ d_complex) × All IsU64Pair v
ContentsOf dt (ArrayData.string v) = (dt ≡ string) × All IsText v

-- An array of elements of type `dt` whose counts and numbers fit their words.
pub record IsArrayOf (dt : DataType) (a : ArrayValue) : Type 0 where
  pub dims : All IsU32 a.shape
  pub ndim : length a.shape < 2 ^ 32
  pub count : nelem a.contents < 2 ^ 32
  pub elements : ContentsOf dt a.contents

module _ (little : Bool) where
  pub Reads-pair :
      (k : ℕ) (m : Read AipsIoError ℕ) (P : ℕ → Type 0)
      → ((v : ℕ) → P v → Reads little m (to_bytes little k v) v)
      → (p : ℕ × ℕ) → P p.0 × P p.1
      → Reads little (read_pair m) (pair_bytes little k p) p
  unfolding read_pair pair_bytes
  Reads-pair k m P h (re, im) (hre, him) =
      Reads-bind m _ _ _ re (re, im) (h re hre)
        (Reads-return m (λ x. (re, x)) (to_bytes little k im) im (h im him))

  pub Reads-f32 : (v : ℕ) → IsU32 v → Reads little read_f32 (to_bytes little 4 v) v
  unfolding read_f32
  Reads-f32 v h = Reads-u32 little v h

  pub Reads-f64 : (v : ℕ) → IsU64 v → Reads little read_f64 (to_bytes little 8 v) v
  unfolding read_f64
  Reads-f64 v h = Reads-u64 little v h

  -- Elements of one width.
  module _ {A : Type 0} where
    Reads-collect :
        (f : List A → ArrayData) (m : Read AipsIoError A) (enc : A → List ℕ) (P : A → Type 0)
        → ((a : A) → P a → Reads little m (enc a) a)
        → (v : List A) → All P v
        → Reads little (collect f (length v) m) (concat_bytes enc v) (f v)
    unfolding collect
    Reads-collect f m enc P h v all =
        Reads-return (lift aips_io (repeat (length v) m)) f _ v
          (Reads-lift aips_io _ _ v (Reads-repeat m enc P h v all))

  all_true : (v : List ℕ) → All (λ x. Unit {0}) v
  all_true [] = tt
  all_true (x ∷ v) = (tt, all_true v)

  Reads-bytes_of :
      (f : List ℕ → ArrayData) (v : List ℕ)
      → Reads little (collect f (length v) read_u8) (concat_bytes (λ b. b ∷ []) v) (f v)
  Reads-bytes_of f v =
      Reads-collect f read_u8 (λ b. b ∷ []) (λ x. Unit {0}) (λ a h. Reads-u8 little a) v
        (all_true v)

  -- A statement for the type that the elements have.
  at_type :
      (d : ArrayData) {dt dt' : DataType}
      → dt ≡ dt'
      → Reads little (read_array_data (nelem d) dt') (contents_bytes little d) d
      → Reads little (read_array_data (nelem d) dt) (contents_bytes little d) d
  at_type d e h =
      subst (λ t. Reads little (read_array_data (nelem d) t) (contents_bytes little d) d) (sym e) h

  Reads-contents :
      (dt : DataType) (d : ArrayData)
      → ContentsOf dt d
      → Reads little (read_array_data (nelem d) dt) (contents_bytes little d) d
  unfolding read_array_data contents_bytes nelem ContentsOf
  Reads-contents dt (ArrayData.bool v) e = at_type (ArrayData.bool v) e (
      rw (bits_from-pack_bits v) at (
        rw (length-pack_bits v) at (
          Reads-bytes_of (λ packed. ArrayData.bool (bits_from packed 0 (length v))) (pack_bits v))))
  Reads-contents dt (ArrayData.u_char v) (inl e) =
      at_type (ArrayData.u_char v) e (Reads-bytes_of ArrayData.u_char v)
  Reads-contents dt (ArrayData.u_char v) (inr e) =
      at_type (ArrayData.u_char v) e (Reads-bytes_of ArrayData.u_char v)
  Reads-contents dt (ArrayData.short v) (e, h) =
      at_type (ArrayData.short v) e
        (Reads-collect ArrayData.short read_i16 _ IsI16 (Reads-i16 little) v h)
  Reads-contents dt (ArrayData.u_short v) (e, h) =
      at_type (ArrayData.u_short v) e
        (Reads-collect ArrayData.u_short read_u16 _ IsU16 (Reads-u16 little) v h)
  Reads-contents dt (ArrayData.int v) (e, h) =
      at_type (ArrayData.int v) e
        (Reads-collect ArrayData.int read_i32 _ IsI32 (Reads-i32 little) v h)
  Reads-contents dt (ArrayData.u_int v) (e, h) =
      at_type (ArrayData.u_int v) e
        (Reads-collect ArrayData.u_int read_u32 _ IsU32 (Reads-u32 little) v h)
  Reads-contents dt (ArrayData.int64 v) (e, h) =
      at_type (ArrayData.int64 v) e
        (Reads-collect ArrayData.int64 read_i64 _ IsI64 (Reads-i64 little) v h)
  Reads-contents dt (ArrayData.float v) (e, h) =
      at_type (ArrayData.float v) e (Reads-collect ArrayData.float read_f32 _ IsU32 Reads-f32 v h)
  Reads-contents dt (ArrayData.double v) (e, h) =
      at_type (ArrayData.double v) e (Reads-collect ArrayData.double read_f64 _ IsU64 Reads-f64 v h)
  Reads-contents dt (ArrayData.complex v) (e, h) = at_type (ArrayData.complex v) e (
      Reads-collect ArrayData.complex (read_pair read_f32) _ IsU32Pair
        (Reads-pair 4 read_f32 IsU32 Reads-f32) v h)
  Reads-contents dt (ArrayData.d_complex v) (e, h) = at_type (ArrayData.d_complex v) e (
      Reads-collect ArrayData.d_complex (read_pair read_f64) _ IsU64Pair
        (Reads-pair 8 read_f64 IsU64 Reads-f64) v h)
  Reads-contents dt (ArrayData.string v) (e, h) =
      at_type (ArrayData.string v) e
        (Reads-collect ArrayData.string read_string _ IsText (Reads-string little) v h)

array-IsText : IsText (codes "Array<void>")
unfolding is_utf8
array-IsText = record { utf8 = refl; short = omega arith }

module _ (little : Bool) (dt : DataType) (a : ArrayValue) (h : IsArrayOf dt a) where
  Reads-sized :
      Reads little
        (do
          nelem ← lift aips_io read_u32
          contents ← read_array_data nelem dt
          pure (record { shape = a.shape; contents = contents }))
        (to_bytes little 4 (nelem a.contents % 2 ^ 32) ++ contents_bytes little a.contents)
        a
  Reads-sized =
      Reads-bind (lift aips_io read_u32) _ _ _ (nelem a.contents % 2 ^ 32) a
        (Reads-lift aips_io read_u32 _ _ (Reads-u32 little _ (omega arith)))
        (rw fits (
          Reads-return (read_array_data (nelem a.contents) dt) _ _ a.contents
            (Reads-contents little dt a.contents h.elements)))
    where
      fits : nelem a.contents % 2 ^ 32 ≡ nelem a.contents
      fits = omega (arith, h.count)

  Reads-parts :
      (n p : ℕ)
      → Reads little
          (do
            expect_array (object_at (codes "Array<void>") 3 n p)
            ndim ← lift aips_io read_u32
            shape ← lift aips_io (repeat ndim read_u32)
            skip_origin 3 ndim
            nelem ← lift aips_io read_u32
            contents ← read_array_data nelem dt
            pure (record { shape = shape; contents = contents }))
          (elements_bytes little (to_bytes little 4) a.shape
            ++ (to_bytes little 4 (nelem a.contents % 2 ^ 32) ++ contents_bytes little a.contents))
          a
  unfolding expect_array bytes_eq elements_bytes skip_origin
  Reads-parts n p =
      Reads-bind (expect_array (object_at (codes "Array<void>") 3 n p)) _ [] _ tt a (Reads-pure tt)
        (rw append_assoc (
          Reads-bind (lift aips_io read_u32) _ _ _ (length a.shape % 2 ^ 32) a
            (Reads-lift aips_io read_u32 _ _ (Reads-u32 little _ (omega arith)))
            (rw fits (
              Reads-bind (lift aips_io (repeat (length a.shape) read_u32)) _ _ _ a.shape a
                (Reads-lift aips_io _ _ _
                  (Reads-repeat read_u32 _ IsU32 (Reads-u32 little) a.shape h.dims))
                (Reads-bind (skip_origin 3 (length a.shape)) _ [] _ tt a (Reads-pure tt)
                  Reads-sized)))))
    where
      fits : length a.shape % 2 ^ 32 ≡ length a.shape
      fits = omega (arith, h.ndim)

  pub Reads-array : Reads little (read_array dt) (array_bytes little a) a
  unfolding read_array array_bytes object_bytes magic_bytes
  Reads-array =
      Reads-from (lift aips_io (read_object_start false)) _ _ _ _ a
        (ReadsFrom-lift aips_io _ _ _ (
          ReadsFrom-object_start little false (codes "Array<void>") 3 _ array-IsText (omega arith)))
        (Reads-parts 0)
