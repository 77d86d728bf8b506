-- ===== src/Tabledesc/Kinds.antt =====
-- The class names and the last part of a column description of crates/casacure/src/tabledesc.rs.
use casacure.Prelude.{
  ℕ, ◌^◌, ◌<◌, ◌≡◌, ◌≢◌, refl, Bool, true, false, List, [], ◌++◌, arith, Option, none, some,
  if◌then◌else◌,
}
use casacure.Prelude.Int.{ℤ}
use casacure.Bytes.{codes, to_bytes, bytes_eq}
use casacure.Bytes.Utf8.{is_utf8}
use casacure.Aipsio.Reader.{lift, read_u32, read_bool, read_iposition}
use casacure.Aipsio.Reads.{Reads, Reads-pure, Reads-bind, Reads-lift, Reads-return}
use casacure.Aipsio.Reads.Words.{IsText, Reads-u32}
use casacure.Aipsio.Reads.Objects.{Reads-bool}
use casacure.Aipsio.Writer.{put_u32}
use casacure.Aipsio.Writes.{Writes-u32, Writes-bool}
use casacure.Records.{DataType, record_type, bool_type}
use casacure.Records.Iposition.{IsShape, iposition_bytes, Writes-iposition, Reads-iposition}
use casacure.Records.Attempts.{attempt, Puts, Puts-attempt, Puts-seq, Puts-finish}
use casacure.Records.Scalars.{FloatCasts, read_scalar_value}
use casacure.Records.Scalars.RoundTrip.{IsScalar, ScalarFits-IsScalar, Scalar-of}
use casacure.Records.Write.{or_empty}
use casacure.Tabledesc.{
  ColumnKind, scalar, array, of_records, ColumnDesc, data_type_id, is_record_type, starts_with,
}
use casacure.Tabledesc.Parse.{io, record_fault, read_class, read_column_shape, read_kind}
use casacure.Tabledesc.Write.{column_class_name, write_shape, write_kind}
use casacure.Tabledesc.Contents.{KindFits, shape_bytes, kind_bytes, stored_shape}

not_record : (dt : DataType) → dt ≢ record_type → is_record_type dt ≡ false
unfolding is_record_type
not_record record_type h = absurd (h refl)
not_record dt h = refl

abbrev scalar_name : DataType → List ℕ
scalar_name dt = codes "ScalarColumnDesc<" ++ data_type_id dt

name-scalar :
    (dt : DataType) (k : ColumnKind)
    → is_record_type dt ≡ false
    → (if is_record_type dt then codes "ScalarRecordColumnDesc" else scalar_name dt)
      ≡ scalar_name dt
name-scalar dt k e = rw e refl

scalar_name-IsText : (dt : DataType) → IsText (scalar_name dt)
unfolding data_type_id is_utf8
scalar_name-IsText bool_type = record { utf8 = refl; short = omega arith }
scalar_name-IsText dt = record { utf8 = refl; short = omega arith }

array_name-IsText : (dt : DataType) → IsText (codes "ArrayColumnDesc<" ++ data_type_id dt)
unfolding data_type_id is_utf8
array_name-IsText bool_type = record { utf8 = refl; short = omega arith }
array_name-IsText dt = record { utf8 = refl; short = omega arith }

record_name-IsText : IsText (codes "ScalarRecordColumnDesc")
unfolding is_utf8
record_name-IsText = record { utf8 = refl; short = omega arith }

unfoldable pub is_scalar : ColumnKind → Bool
is_scalar (scalar default) = true
is_scalar array = false
is_scalar of_records = true

-- What the class name of a column tells its reader.
pub record Kind (little : Bool) (casts : FloatCasts) (dt : DataType) (shape : Option (List ℤ))
    (kind : ColumnKind) : Type 0 where
  pub text : IsText (column_class_name kind dt)
  pub class : Reads little (read_class (column_class_name kind dt)) [] (is_scalar kind)
  pub read :
      Reads little
        (read_kind (column_class_name kind dt) (is_scalar kind) dt)
        (kind_bytes little kind)
        kind
  pub written : Puts little (write_kind casts dt kind) (kind_bytes little kind)
  pub read_shape :
      Reads little
        (read_column_shape (is_scalar kind))
        (shape_bytes little shape kind)
        (stored_shape shape kind)

module _ (little : Bool) (casts : FloatCasts) (dt : DataType) (shape : Option (List ℤ)) where
  Reads-word : (v : ℕ) → v < 2 ^ 32 → Reads little (lift io read_u32) (to_bytes little 4 v) v
  Reads-word v h = Reads-lift io read_u32 _ v (Reads-u32 little v h)

  Puts-one : Puts little (attempt (put_u32 1)) (to_bytes little 4 1)
  Puts-one = Puts-attempt _ _ (Writes-u32 1)

  Reads-none : shape ≡ none → Reads little (read_column_shape true) [] shape
  unfolding read_column_shape
  Reads-none e = rw e (Reads-pure none)

  Reads-some :
      (dims : List ℤ)
      → IsShape dims
      → Reads little (read_column_shape false) (iposition_bytes little dims) (some dims)
  unfolding read_column_shape
  Reads-some dims h =
      Reads-return (lift io read_iposition) some _ dims
        (Reads-lift io read_iposition _ dims (Reads-iposition little dims h))

  pub Kind-of : (kind : ColumnKind) → KindFits dt shape kind → Kind little casts dt shape kind
  unfolding KindFits column_class_name read_class read_kind kind_bytes write_kind is_scalar
      starts_with bytes_eq shape_bytes stored_shape IsScalar
  Kind-of (scalar v) (fit, e) =
      let plain : is_record_type dt ≡ false = not_record dt (ScalarFits-IsScalar dt v fit).1 in
      record {
        text = rw plain (scalar_name-IsText dt);
        class = rw plain (Reads-pure true);
        read = rw plain (
            Reads-bind (lift io read_u32) _ _ _ 1 _ (Reads-word 1 (omega arith)) (
              Reads-return (lift record_fault (read_scalar_value dt)) scalar _ v
                (Reads-lift record_fault _ _ v (Scalar-of little casts dt v fit).read)));
        written =
            Puts-seq _ _ _ _ Puts-one (Puts-attempt _ _ (Scalar-of little casts dt v fit).written);
        read_shape = Reads-none e;
      }
  Kind-of array fit = record {
    text = array_name-IsText dt;
    class = Reads-pure false;
    read = Reads-bind (lift io read_u32) _ _ _ 1 _ (Reads-word 1 (omega arith)) (
        Reads-return (lift io read_bool) (λ b. array) _ false
          (Reads-lift io read_bool _ false (Reads-bool little false)));
    written = Puts-seq _ _ _ _ Puts-one (Puts-attempt _ _ (Writes-bool false));
    read_shape = Reads-some (or_empty shape) fit;
  }
  Kind-of of_records (k, e) = record {
    text = rw k (unfold is_record_type in record_name-IsText);
    class = rw k (unfold is_record_type in Reads-pure true);
    read = rw k (
        unfold is_record_type in
        Reads-return (lift io read_u32) (λ b. of_records) _ 1 (Reads-word 1 (omega arith)));
    written = Puts-one;
    read_shape = Reads-none e;
  }

pub Puts-shape :
    (little : Bool) (c : ColumnDesc) (kind : ColumnKind)
    → Puts little (write_shape c kind) (shape_bytes little c.shape kind)
unfolding write_shape shape_bytes
Puts-shape little c (scalar v) = Puts-finish
Puts-shape little c array = Puts-attempt _ _ (Writes-iposition little (or_empty c.shape))
Puts-shape little c of_records = Puts-finish
