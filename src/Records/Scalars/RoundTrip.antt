-- ===== src/Records/Scalars/RoundTrip.antt =====
-- The scalars of crates/casacure/src/record.rs, written and read back.
use casacure.Prelude.{
  ℕ, ◌≡◌, ◌≢◌, refl, sym, subst, ◌⊎◌, inl, inr, Bool, true, false, List, [], ◌∷◌, if◌then◌else◌,
}
use casacure.Prelude.Int.{as_u16, as_u32, as_u64, IsI16, IsI32, IsI64}
use casacure.Bytes.{to_bytes}
use casacure.Aipsio.{AipsIoError}
use casacure.Aipsio.Encoding.{text_bytes}
use casacure.Aipsio.Reader.{Read, lift, read_f32, read_f64}
use casacure.Aipsio.Reads.{Reads, Reads-lift, Reads-return}
use casacure.Aipsio.Reads.Words.{
  IsU16, IsU32, IsU64, IsText, Reads-u16, Reads-i16, Reads-u32, Reads-i32, Reads-i64,
}
use casacure.Aipsio.Reads.Objects.{Reads-u8, Reads-string, Reads-bool}
use casacure.Aipsio.Writes.{Writes, Writes-seq, Writes-u32, Writes-i32, Writes-string, Writes-bool}
use casacure.Records.{
  DataType, aips_io, is_array, bool_type, char, u_char, short, u_short, int, u_int, float, double,
  complex, d_complex, string, table, record_type, int64,
}
use casacure.Records.Values.{RecordValue}
use casacure.Records.Arrays.Encoding.{
  pair_bytes, Writes-u8, Writes-u16, Writes-i16, Writes-i64, Writes-f32, Writes-f64,
}
use casacure.Records.Arrays.RoundTrip.{Reads-pair, Reads-f32, Reads-f64}
use casacure.Records.Scalars.{
  FloatCasts, complex_of, d_complex_of, read_as, read_scalar_value, write_scalar_value,
}

unfoldable pub scalar_bytes : Bool → RecordValue → List ℕ
unfolding pair_bytes
scalar_bytes little (RecordValue.bool b) = (if b then 1 else 0) ∷ []
scalar_bytes little (RecordValue.u_char v) = v ∷ []
scalar_bytes little (RecordValue.short v) = to_bytes little 2 (as_u16 v)
scalar_bytes little (RecordValue.u_short v) = to_bytes little 2 v
scalar_bytes little (RecordValue.int v) = to_bytes little 4 (as_u32 v)
scalar_bytes little (RecordValue.u_int v) = to_bytes little 4 v
scalar_bytes little (RecordValue.int64 v) = to_bytes little 8 (as_u64 v)
scalar_bytes little (RecordValue.float v) = to_bytes little 4 v
scalar_bytes little (RecordValue.double v) = to_bytes little 8 v
scalar_bytes little (RecordValue.complex re im) = pair_bytes little 4 (re, im)
scalar_bytes little (RecordValue.d_complex re im) = pair_bytes little 8 (re, im)
scalar_bytes little (RecordValue.string s) = text_bytes little s
scalar_bytes little v = []

-- A scalar is of the type `dt` and in its range.
unfoldable pub ScalarFits : DataType → RecordValue → Type 0
ScalarFits dt (RecordValue.bool b) = dt ≡ bool_type
ScalarFits dt (RecordValue.u_char v) = (dt ≡ char) ⊎ (dt ≡ u_char)
ScalarFits dt (RecordValue.short v) = (dt ≡ short) × IsI16 v
ScalarFits dt (RecordValue.u_short v) = (dt ≡ u_short) × IsU16 v
ScalarFits dt (RecordValue.int v) = (dt ≡ int) × IsI32 v
ScalarFits dt (RecordValue.u_int v) = (dt ≡ u_int) × IsU32 v
ScalarFits dt (RecordValue.int64 v) = (dt ≡ int64) × IsI64 v
ScalarFits dt (RecordValue.float v) = (dt ≡ float) × IsU32 v
ScalarFits dt (RecordValue.double v) = (dt ≡ double) × IsU64 v
ScalarFits dt (RecordValue.complex re im) = (dt ≡ complex) × IsU32 re × IsU32 im
ScalarFits dt (RecordValue.d_complex re im) = (dt ≡ d_complex) × IsU64 re × IsU64 im
ScalarFits dt (RecordValue.string s) = (dt ≡ string) × IsText s
ScalarFits dt v = ⊥

-- The types of scalars.
unfoldable pub IsScalar : DataType → Type 0
unfolding is_array
IsScalar dt = (is_array dt ≡ false) × (dt ≢ record_type) × (dt ≢ table)

module _ (little : Bool) (casts : FloatCasts) where
  -- What holds of a scalar of its own type.
  pub record Scalar (dt : DataType) (v : RecordValue) : Type 0 where
    pub kind : IsScalar dt
    pub written : Writes little (write_scalar_value casts dt v) (scalar_bytes little v)
    pub read : Reads little (read_scalar_value dt) (scalar_bytes little v) v

  Reads-as :
      {A : Type 0} (f : A → RecordValue) (m : Read AipsIoError A) (bs : List ℕ) (a : A)
      → Reads little m bs a
      → Reads little (read_as f m) bs (f a)
  unfolding read_as
  Reads-as f m bs a h = Reads-return (lift aips_io m) f bs a (Reads-lift aips_io m bs a h)

  at_type : (v : RecordValue) {dt dt' : DataType} → dt ≡ dt' → Scalar dt' v → Scalar dt v
  at_type v e h = subst (λ t. Scalar t v) (sym e) h

  pub Scalar-of : (dt : DataType) (v : RecordValue) → ScalarFits dt v → Scalar dt v
  unfolding ScalarFits scalar_bytes write_scalar_value read_scalar_value IsScalar
  Scalar-of dt (RecordValue.bool b) e = at_type _ e (record {
    kind = (refl, (λ k. cc), (λ k. cc));
    written = Writes-bool b;
    read = Reads-as RecordValue.bool _ _ b (Reads-bool little b);
  })
  Scalar-of dt (RecordValue.u_char v) (inl e) = at_type _ e (record {
    kind = (refl, (λ k. cc), (λ k. cc));
    written = Writes-u8 little v;
    read = Reads-as RecordValue.u_char _ _ v (Reads-u8 little v);
  })
  Scalar-of dt (RecordValue.u_char v) (inr e) = at_type _ e (record {
    kind = (refl, (λ k. cc), (λ k. cc));
    written = Writes-u8 little v;
    read = Reads-as RecordValue.u_char _ _ v (Reads-u8 little v);
  })
  Scalar-of dt (RecordValue.short v) (e, h) = at_type _ e (record {
    kind = (refl, (λ k. cc), (λ k. cc));
    written = Writes-i16 little v;
    read = Reads-as RecordValue.short _ _ v (Reads-i16 little v h);
  })
  Scalar-of dt (RecordValue.u_short v) (e, h) = at_type _ e (record {
    kind = (refl, (λ k. cc), (λ k. cc));
    written = Writes-u16 little v;
    read = Reads-as RecordValue.u_short _ _ v (Reads-u16 little v h);
  })
  Scalar-of dt (RecordValue.int v) (e, h) = at_type _ e (record {
    kind = (refl, (λ k. cc), (λ k. cc));
    written = Writes-i32 v;
    read = Reads-as RecordValue.int _ _ v (Reads-i32 little v h);
  })
  Scalar-of dt (RecordValue.u_int v) (e, h) = at_type _ e (record {
    kind = (refl, (λ k. cc), (λ k. cc));
    written = Writes-u32 v;
    read = Reads-as RecordValue.u_int _ _ v (Reads-u32 little v h);
  })
  Scalar-of dt (RecordValue.int64 v) (e, h) = at_type _ e (record {
    kind = (refl, (λ k. cc), (λ k. cc));
    written = Writes-i64 little v;
    read = Reads-as RecordValue.int64 _ _ v (Reads-i64 little v h);
  })
  Scalar-of dt (RecordValue.float v) (e, h) = at_type _ e (record {
    kind = (refl, (λ k. cc), (λ k. cc));
    written = Writes-f32 little v;
    read = Reads-as RecordValue.float _ _ v (Reads-f32 little v h);
  })
  Scalar-of dt (RecordValue.double v) (e, h) = at_type _ e (record {
    kind = (refl, (λ k. cc), (λ k. cc));
    written = Writes-f64 little v;
    read = Reads-as RecordValue.double _ _ v (Reads-f64 little v h);
  })
  Scalar-of dt (RecordValue.complex re im) (e, hre, him) = at_type _ e (record {
    kind = (refl, (λ k. cc), (λ k. cc));
    written = Writes-seq _ _ _ _ (Writes-f32 little re) (Writes-f32 little im);
    read =
        Reads-as complex_of _ _ (re, im)
          (Reads-pair little 4 read_f32 IsU32 (Reads-f32 little) (re, im) (hre, him));
  })
  Scalar-of dt (RecordValue.d_complex re im) (e, hre, him) = at_type _ e (record {
    kind = (refl, (λ k. cc), (λ k. cc));
    written = Writes-seq _ _ _ _ (Writes-f64 little re) (Writes-f64 little im);
    read =
        Reads-as d_complex_of _ _ (re, im)
          (Reads-pair little 8 read_f64 IsU64 (Reads-f64 little) (re, im) (hre, him));
  })
  Scalar-of dt (RecordValue.string s) (e, h) = at_type _ e (record {
    kind = (refl, (λ k. cc), (λ k. cc));
    written = Writes-string s;
    read = Reads-as RecordValue.string _ _ s (Reads-string little s h);
  })
  Scalar-of dt v h = absurd h

pub ScalarFits-IsScalar : (dt : DataType) (v : RecordValue) → ScalarFits dt v → IsScalar dt
ScalarFits-IsScalar dt v h =
    (Scalar-of true (record { as_f32 = λ d. d; as_f64 = λ f. f }) dt v h).kind
