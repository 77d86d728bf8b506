-- ===== src/Records/Contents/Written.antt =====
-- The writers of crates/casacure/src/record.rs put the bytes of a record that fits its description.
use casacure.Prelude.{
  ℕ, zero, suc, ◌≤◌, ◌≡◌, ◌≢◌, refl, Bool, true, false, List, Option, some, arith, if◌then◌else◌,
}
use casacure.Prelude.Int.{ℤ}
use casacure.Bytes.{codes}
use casacure.Aipsio.Writes.{Writes-string}
use casacure.Records.{DataType, legacy_keyword_set, is_array, record_type}
use casacure.Records.Values.{
  field, SubDesc, RecordDesc, no_fields, with_field, RecordValue, TableRecord, table_record, Values,
  no_values, with_value, failed, no_fields?,
}
use casacure.Records.Attempts.{Attempt, Puts, Puts-attempt, Puts-seq, Puts-finish, Puts-object}
use casacure.Records.Arrays.Encoding.{Writes-array}
use casacure.Records.Scalars.{FloatCasts, write_scalar_value}
use casacure.Records.Scalars.RoundTrip.{IsScalar, ScalarFits-IsScalar, Scalar-of}
use casacure.Records.Descs.Written.{Puts-i32, Puts-fields, Puts-desc}
use casacure.Records.Write.{
  synced, value_desc, with_sub, or_sub, field_count, desc_of, put_array, put_nested, put_scalar,
  put_value, put_bare_value, for_fields, type_field, write_table_record, write_record_data_values,
}
use casacure.Records.Contents.{
  ValueFits, RecordFits, ValuesFit, field_type, framed_bytes, value_bytes, nested_bytes,
  values_bytes, record_bytes, bare_bytes, value_depth, record_depth, values_depth,
}
use casacure.Records.Contents.Lookup.{Looked, Looked-self}
use casacure.Records.Contents.Synced.{no_fields?-synced, synced-FieldsFit}

pub if_false {ℓ} : {A : Type ℓ} (b : Bool) (x y : A) → b ≡ false → (if b then x else y) ≡ y
if_false true x y e = cc
if_false false x y e = refl

pub if_true {ℓ} : {A : Type ℓ} (b : Bool) (x y : A) → b ≡ true → (if b then x else y) ≡ x
if_true true x y e = refl
if_true false x y e = cc

Puts-if :
    {little : Bool} (b : Bool) (m n : Attempt) (xs ys : List ℕ)
    → Puts little m xs
    → Puts little n ys
    → Puts little (if b then m else n) (if b then xs else ys)
Puts-if true m n xs ys h k = h
Puts-if false m n xs ys h k = k

-- `framed` and `bare` write the records down to the depth `depth`.
module _ (little : Bool) (casts : FloatCasts) (framed bare : TableRecord → Attempt) (depth : ℕ)
    (Puts-framed : (r : TableRecord)
      → RecordFits r
      → record_depth r ≤ depth
      → Puts little (framed r) (record_bytes little r))
    (Puts-bare : (r : TableRecord)
      → RecordFits r
      → record_depth r ≤ depth
      → Puts little (bare r) (bare_bytes little r)) where
  Puts-nested :
      (r : TableRecord)
      → RecordFits r
      → record_depth r ≤ depth
      → Puts little (if no_fields? (desc_of r) then framed r else bare r) (nested_bytes little r)
  unfolding nested_bytes desc_of record_bytes bare_bytes
  Puts-nested (table_record d t vs) fit h =
      Puts-if (no_fields? d) _ _ _ _ (Puts-framed (table_record d t vs) fit h)
        (Puts-bare (table_record d t vs) fit h)

  put_value-scalar :
      (n : List ℕ) (dt : DataType) (s : SubDesc) (h : Option (List ℤ)) (t : Option (List ℕ))
      (c : List ℕ) (v : Option RecordValue)
      → is_array dt ≡ false
      → dt ≢ record_type
      → put_value casts framed bare (field n dt s h t c) v ≡ put_scalar casts framed bare dt v
  unfolding put_value
  put_value-scalar n record_type s h t c v e k = absurd (k refl)
  put_value-scalar n dt s h t c v e k =
      if_false (is_array dt) (put_array n v) (put_scalar casts framed bare dt v) e

  put_value-array :
      (n : List ℕ) (dt : DataType) (s : SubDesc) (h : Option (List ℤ)) (t : Option (List ℕ))
      (c : List ℕ) (v : Option RecordValue)
      → is_array dt ≡ true
      → put_value casts framed bare (field n dt s h t c) v ≡ put_array n v
  unfolding put_value
  put_value-array n record_type s h t c v e = cc
  put_value-array n dt s h t c v e =
      if_true (is_array dt) (put_array n v) (put_scalar casts framed bare dt v) e

  Puts-value :
      (n : List ℕ) (dt : DataType) (s : SubDesc) (h : Option (List ℤ)) (t : Option (List ℕ))
      (c : List ℕ) (v : RecordValue)
      → ValueFits dt v
      → value_depth v ≤ depth
      → Puts little
          (put_value casts framed bare (field n dt (or_sub s (value_desc v)) h t c) (some v))
          (value_bytes little v)
  unfolding ValueFits value_bytes value_desc or_sub IsScalar put_array put_scalar write_scalar_value
      value_depth
  Puts-value n dt s h t c (RecordValue.nested (table_record d k vs)) (e, fit) deep = rw e (
      unfold put_value put_nested in
      rw (no_fields?-synced d vs) (unfold desc_of in Puts-nested (table_record d k vs) fit deep))
  Puts-value n dt s h t c (RecordValue.table name) (e, text) deep =
      rw e (unfold put_value in Puts-attempt _ _ (Writes-string name))
  Puts-value n dt s h t c (RecordValue.array a) (e, fit) deep =
      rw (put_value-array n dt s h t c (some (RecordValue.array a)) e)
        (Puts-attempt _ _ (Writes-array little a))
  Puts-value n dt s h t c v fit deep =
      let kind : IsScalar dt = ScalarFits-IsScalar dt v fit in
      rw (put_value-scalar n dt s h t c (some v) kind.0 kind.1)
        (Puts-attempt _ _ (Scalar-of little casts dt v fit).written)

  Puts-bare_value :
      (dt : DataType) (v : RecordValue)
      → ValueFits dt v
      → value_depth v ≤ depth
      → Puts little (put_bare_value casts framed bare dt (some v)) (value_bytes little v)
  unfolding ValueFits value_bytes put_bare_value write_scalar_value value_depth
  Puts-bare_value dt (RecordValue.nested r) (e, fit) deep = Puts-nested r fit deep
  Puts-bare_value dt (RecordValue.table name) (e, text) deep =
      rw e (Puts-attempt _ _ (Writes-string name))
  Puts-bare_value dt (RecordValue.array a) (e, fit) deep =
      rw e (Puts-attempt _ _ (Writes-array little a))
  Puts-bare_value dt v fit deep = Puts-attempt _ _ (Scalar-of little casts dt v fit).written

  -- The loop over the values of a framed record.
  Puts-values :
      (r : TableRecord) (fs : RecordDesc) (vs : Values)
      → ValuesFit fs vs
      → Looked r fs vs
      → values_depth vs ≤ depth
      → Puts little
          (for_fields r (put_value casts framed bare) (synced fs vs))
          (values_bytes little vs)
  unfolding for_fields values_bytes synced with_sub ValuesFit Looked values_depth field_type
  Puts-values r no_fields no_values fit looked deep = Puts-finish
  Puts-values r no_fields (with_value v vs) fit looked deep = absurd fit
  Puts-values r (with_field f fs) no_values fit looked deep = absurd fit
  Puts-values r (with_field (field n dt s h t c) fs) (with_value v vs) (_, fit, fits) (here, later)
        deep =
      Puts-seq _ _ _ _ (rw here (Puts-value n dt s h t c v fit (omega arith)))
        (Puts-values r fs vs fits later (omega arith))

  -- The loop over the values of a bare record.
  Puts-bare_values :
      (r : TableRecord) (fs : RecordDesc) (vs : Values)
      → ValuesFit fs vs
      → Looked r fs vs
      → values_depth vs ≤ depth
      → Puts little
          (for_fields r (type_field (put_bare_value casts framed bare)) fs)
          (values_bytes little vs)
  unfolding for_fields values_bytes type_field ValuesFit Looked values_depth field_type
  Puts-bare_values r no_fields no_values fit looked deep = Puts-finish
  Puts-bare_values r no_fields (with_value v vs) fit looked deep = absurd fit
  Puts-bare_values r (with_field f fs) no_values fit looked deep = absurd fit
  Puts-bare_values r (with_field (field n dt s h t c) fs) (with_value v vs) (_, fit, fits)
        (here, later) deep =
      Puts-seq _ _ _ _ (rw here (Puts-bare_value dt v fit (omega arith)))
        (Puts-bare_values r fs vs fits later (omega arith))

mutual
  unfolding write_table_record RecordFits record_bytes bare_bytes framed_bytes record_depth

  pub Puts-record :
      (little : Bool) (casts : FloatCasts) (fuel : ℕ) (r : TableRecord)
      → RecordFits r
      → record_depth r ≤ fuel
      → Puts little (write_table_record casts fuel r) (record_bytes little r)
  Puts-record little casts zero (table_record d t vs) fit h = absurd (omega arith)
  Puts-record little casts (suc fuel) (table_record d t vs) (range, few, distinct, fit) h =
      Puts-object (codes "TableRecord") 1 _ _ (
        Puts-seq _ _ _ _
          (Puts-desc (field_count (synced d vs)) _ _ (
            Puts-fields little (failed (legacy_keyword_set (codes "missing sub-desc")))
              (synced d vs) (synced-FieldsFit d vs fit)))
          (Puts-seq _ _ _ _ (Puts-i32 t) (
            Puts-values little casts _ _ fuel (Puts-record little casts fuel)
              (Puts-bare_record little casts fuel) (table_record d t vs) d vs fit
              (Looked-self d t vs distinct) (omega arith))))

  Puts-bare_record :
      (little : Bool) (casts : FloatCasts) (fuel : ℕ) (r : TableRecord)
      → RecordFits r
      → record_depth r ≤ fuel
      → Puts little (write_record_data_values casts fuel r) (bare_bytes little r)
  Puts-bare_record little casts zero (table_record d t vs) fit h = absurd (omega arith)
  Puts-bare_record little casts (suc fuel) (table_record d t vs) (range, few, distinct, fit) h =
      Puts-bare_values little casts _ _ fuel (Puts-record little casts fuel)
        (Puts-bare_record little casts fuel) (table_record d t vs) d vs fit
        (Looked-self d t vs distinct) (omega arith)
