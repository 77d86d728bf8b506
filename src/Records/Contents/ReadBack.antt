-- ===== src/Records/Contents/ReadBack.antt =====
-- The reader of crates/casacure/src/record.rs on the bytes of a record that fits its description.
use casacure.Prelude.{
  ℕ, zero, suc, ◌≤◌, ◌≡◌, refl, Bool, true, false, List, [], ◌++◌, Option, arith, if◌then◌else◌,
}
use casacure.Prelude.Int.{ℤ, pos, as_u32, IsI32}
use casacure.Bytes.{codes, to_bytes}
use casacure.Bytes.Utf8.{is_utf8}
use casacure.Aipsio.Encoding.{object_bytes, magic_bytes, text_bytes}
use casacure.Aipsio.Reader.{Read, lift, ◌>>=◌, ◌>>◌, pure, read_i32, read_string, read_object_start}
use casacure.Aipsio.Reads.{
  Reads, Reads-pure, Reads-bind, Reads-lift, Reads-return, Reads-from, ReadsFrom-lift,
}
use casacure.Aipsio.Reads.Words.{IsText, Reads-i32}
use casacure.Aipsio.Reads.Objects.{object_at, Reads-string, ReadsFrom-object_start}
use casacure.Bytes.{bytes_eq_refl}
use casacure.Records.{DataType, is_array, element_type, table, record_type}
use casacure.Records.Values.{
  field, SubDesc, RecordDesc, no_fields, with_field, RecordValue, TableRecord, ArrayValue,
  table_record, Values, no_values, with_value, Fault, failed, no_fields?,
}
use casacure.Records.Arrays.RoundTrip.{IsArrayOf, Reads-array}
use casacure.Records.Arrays.Reader.{read_array}
use casacure.Records.Arrays.Encoding.{array_bytes}
use casacure.Records.Scalars.{read_scalar_value}
use casacure.Records.Scalars.RoundTrip.{IsScalar, ScalarFits-IsScalar, Scalar-of}
use casacure.Records.Descs.{normal, normal_sub, normal_field, kept, with_details}
use casacure.Records.Descs.ReadBack.{Reads-desc, Reads-fields}
use casacure.Records.Write.{synced, value_desc, with_sub, or_sub, field_count}
use casacure.Records.Read.{
  io, read_array_value, read_table_name, read_by_type, framed_value, bare_value, read_record_data,
  read_field_value, read_nested, expect_record, read_record, read_desc,
}
use casacure.Records.Contents.{
  ValueFits, RecordFits, ValuesFit, field_type, framed_bytes, value_bytes, values_bytes,
  record_bytes, value_depth, record_depth, values_depth, stored_value, stored_values, stored,
}
use casacure.Records.Contents.Synced.{no_fields?-synced, field_count-synced, synced-FieldsFit}
use casacure.Records.Contents.Written.{if_false, if_true}

no_fields?-normal : (d : RecordDesc) → no_fields? (normal d) ≡ no_fields? d
unfolding no_fields? normal
no_fields?-normal no_fields = refl
no_fields?-normal (with_field f fs) = refl

read_by_type-scalar :
    (nested : Read Fault RecordValue) (dt : DataType)
    → IsScalar dt
    → read_by_type nested dt ≡ lift failed (read_scalar_value dt)
unfolding read_by_type IsScalar
read_by_type-scalar nested table (e, r, t) = absurd (t refl)
read_by_type-scalar nested record_type (e, r, t) = absurd (r refl)
read_by_type-scalar nested dt (e, r, t) =
    if_false (is_array dt) (read_array_value dt) (lift failed (read_scalar_value dt)) e

read_by_type-array :
    (nested : Read Fault RecordValue) (dt : DataType)
    → is_array dt ≡ true
    → read_by_type nested dt ≡ read_array_value dt
unfolding read_by_type
read_by_type-array nested table e = cc
read_by_type-array nested record_type e = cc
read_by_type-array nested dt e =
    if_true (is_array dt) (read_array_value dt) (lift failed (read_scalar_value dt)) e

-- `framed` reads the framed records down to the depth `depth`.
module _ (little : Bool) (framed : Read Fault TableRecord) (depth : ℕ)
    (Reads-framed : (r : TableRecord)
      → RecordFits r
      → record_depth r ≤ depth
      → Reads little framed (record_bytes little r) (stored r)) where
  Reads-branch :
      (b : Bool) (d : RecordDesc) (kind : ℤ) (m : Read Fault Values) (vs : Values) (xs ys : List ℕ)
      → Reads little framed xs (table_record d kind vs)
      → Reads little m ys vs
      → Reads little
          (if b then framed_value framed else bare_value d m)
          (if b then xs else ys)
          (RecordValue.nested (table_record d (if b then kind else pos 0) vs))
  unfolding framed_value bare_value
  Reads-branch true d kind m vs xs ys h k = Reads-return framed RecordValue.nested xs _ h
  Reads-branch false d kind m vs xs ys h k =
      Reads-return m (λ v. RecordValue.nested (table_record d (pos 0) v)) ys vs k

  Reads-named_table :
      (name : List ℕ)
      → IsText name
      → Reads little read_table_name (text_bytes little name) (RecordValue.table name)
  unfolding read_table_name
  Reads-named_table name h =
      Reads-return (lift io read_string) RecordValue.table _ name
        (Reads-lift io read_string _ name (Reads-string little name h))

  Reads-array_value :
      (dt : DataType) (a : ArrayValue)
      → IsArrayOf (element_type dt) a
      → Reads little (read_array_value dt) (array_bytes little a) (RecordValue.array a)
  unfolding read_array_value
  Reads-array_value dt a h =
      Reads-return (lift failed (read_array (element_type dt))) RecordValue.array _ a
        (Reads-lift failed _ _ a (Reads-array little (element_type dt) a h))

  mutual
    unfolding ValuesFit values_bytes read_record_data read_by_type synced with_sub or_sub normal
        kept with_details stored_values values_depth field_type record_bytes stored IsScalar

    Reads-values :
        (fs : RecordDesc) (vs : Values)
        → ValuesFit fs vs
        → values_depth vs ≤ depth
        → Reads little
            (read_record_data framed (normal (synced fs vs)))
            (values_bytes little vs)
            (stored_values vs)
    Reads-values no_fields no_values fit deep = Reads-pure no_values
    Reads-values no_fields (with_value v vs) fit deep = absurd fit
    Reads-values (with_field f fs) no_values fit deep = absurd fit
    Reads-values (with_field (field n dt s h t c) fs) (with_value v vs) (_, fit, fits) deep =
        Reads-bind
          (read_field_value framed (normal_field (with_sub (field n dt s h t c) (value_desc v)))) _
          _ _ (stored_value v) _ (Reads-value n dt s h t c v fit (omega arith))
          (Reads-return (read_record_data framed (normal (synced fs vs))) _ _ (stored_values vs)
            (Reads-values fs vs fits (omega arith)))

    Reads-value :
        (n : List ℕ) (dt : DataType) (s : SubDesc) (h : Option (List ℤ)) (t : Option (List ℕ))
        (c : List ℕ) (v : RecordValue)
        → ValueFits dt v
        → value_depth v ≤ depth
        → Reads little
            (read_by_type
              (read_nested framed (kept (normal_sub (or_sub s (value_desc v))) dt h t).0)
              dt)
            (value_bytes little v)
            (stored_value v)
    Reads-value n dt s h t c (RecordValue.nested (table_record d kind vs)) (e, fit) deep =
        rw (e, no_fields?-normal (synced d vs), no_fields?-synced d vs)
          (Reads-branch (no_fields? d) (normal (synced d vs)) kind _ (stored_values vs) _ _
            (Reads-framed (table_record d kind vs) fit deep)
            (Reads-values d vs fit.3 (omega arith)))
    Reads-value n dt s h t c (RecordValue.table name) (e, text) deep =
        rw e (Reads-named_table name text)
    Reads-value n dt s h t c (RecordValue.array a) (e, fit) deep =
        rw (read_by_type-array _ dt e) (Reads-array_value dt a fit)
    Reads-value n dt s h t c v fit deep =
        let kind : IsScalar dt = ScalarFits-IsScalar dt v fit in
        rw (read_by_type-scalar _ dt kind) (
          Reads-lift failed _ _ v
            (Scalar-of little (record { as_f32 = λ x. x; as_f64 = λ x. x }) dt v fit).read)

record-IsText : IsText (codes "TableRecord")
unfolding is_utf8
record-IsText = record { utf8 = refl; short = omega arith }

-- The parts of a framed record, behind its header.
Reads-parts :
    (little : Bool) (fuel p n : ℕ) (d : RecordDesc) (kind : ℤ) (values : List ℕ) (ds : List ℕ)
    (vs : Values)
    → IsI32 kind
    → Reads little (read_desc (suc fuel)) ds d
    → Reads little (read_record_data (read_record fuel) d) values vs
    → Reads little
        (do
          expect_record (object_at (codes "TableRecord") 1 n p)
          desc ← read_desc (suc fuel)
          code ← lift io read_i32
          contents ← read_record_data (read_record fuel) desc
          pure (table_record desc code contents))
        (ds ++ (to_bytes little 4 (as_u32 kind) ++ values))
        (table_record d kind vs)
unfolding expect_record
Reads-parts little fuel p n d kind values ds vs range hd hv =
    Reads-bind (expect_record (object_at (codes "TableRecord") 1 n p)) _ [] _ tt _
      (rw (bytes_eq_refl (codes "TableRecord")) (Reads-pure tt))
      (Reads-bind (read_desc (suc fuel)) _ ds _ d _ hd (
        Reads-bind (lift io read_i32) _ _ values kind _
          (Reads-lift io read_i32 _ kind (Reads-i32 little kind range))
          (Reads-return (read_record_data (read_record fuel) d) _ values vs hv)))

pub Reads-record :
    (little : Bool) (fuel : ℕ) (r : TableRecord)
    → RecordFits r
    → record_depth r ≤ fuel
    → Reads little (read_record fuel) (record_bytes little r) (stored r)
unfolding RecordFits record_bytes framed_bytes object_bytes magic_bytes read_record record_depth
    stored
Reads-record little zero (table_record d kind vs) fit h = absurd (omega arith)
Reads-record little (suc fuel) (table_record d kind vs) (range, few, distinct, fit) h =
    Reads-from (lift io (read_object_start false)) _ _ _ _ _
      (ReadsFrom-lift io _ _ _
        (ReadsFrom-object_start little false (codes "TableRecord") 1 _ record-IsText (omega arith)))
      (λ p.
        Reads-parts little fuel p 0 (normal (synced d vs)) kind _ _ (stored_values vs) range
          (Reads-desc fuel (field_count (synced d vs)) _ (normal (synced d vs))
            (rw (field_count-synced d vs) few)
            (Reads-fields little fuel (synced d vs) (synced-FieldsFit d vs fit) (omega arith)))
          (Reads-values little (read_record fuel) fuel (Reads-record little fuel) d vs fit
            (omega arith)))
