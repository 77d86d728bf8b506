-- ===== src/Records/Progress/Nested.antt =====
-- `RecordDesc::read` and `TableRecord::read` of crates/casacure/src/record.rs end on every stream:
-- fuel above the bytes that are left is enough, and the `expect` on a nested description holds.
use casacure.Prelude.{ℕ, zero, suc, ◌<◌, ◌≢◌, Bool, none, arith, ltb, if◌then◌else◌}
use casacure.Prelude.Int.{pos}
use casacure.Result.{Result, ok, err}
use casacure.Bytes.{codes, bytes_eq}
use casacure.Aipsio.Reader.{Reader, Read, pure, lift, read_i32, read_string, read_iposition}
use casacure.Aipsio.Takes.{
  left, Takes-i32, Takes-string, Takes-object_start, Takes-object, Takes-iposition,
}
use casacure.Records.{
  DataType, RecordError, aips_io, from_i32, is_array, element_type, table, record_type,
}
use casacure.Records.Values.{
  RecordDescField, field, SubDesc, no_desc, sub_desc, RecordDesc, no_fields, with_field,
  RecordValue, TableRecord, table_record, Values, Fault, failed, panicked, out_of_fuel, no_fields?,
}
use casacure.Records.Read.{
  io, return_type, read_data_type, Details, read_sub_desc, read_table_desc_name, read_shape,
  read_details, read_comment, read_field, read_fields, read_desc, field_count, read_array_value,
  read_table_name, read_by_type, framed_value, bare_value, read_record_data, read_field_value,
  read_nested, expect_record, read_record,
}
use casacure.Records.Progress.{
  Anything, EndsWell, Ends, Ends-pure, Ends-raise, Ends-if, Ends-weaken, Ends-below, Ends-bind,
  Ends-then, Ends-lift,
}
use casacure.Records.Progress.Elements.{Takes-scalar, Takes-array}

unfoldable pub NestedHas : Type 0 → DataType → Type 0
NestedHas P record_type = P
NestedHas P dt = Unit

-- Every field of the type of a record has a description.
unfoldable mutual
  unfolding NestedHas

  pub Described : RecordDesc → Type 0
  Described no_fields = Unit
  Described (with_field f fs) = FieldDescribed f × Described fs

  pub FieldDescribed : RecordDescField → Type 0
  FieldDescribed (field n dt s h t c) = NestedHas (SubDescribed s) dt

  pub SubDescribed : SubDesc → Type 0
  SubDescribed no_desc = ⊥
  SubDescribed (sub_desc d) = Described d

DetailsDescribed : DataType → Details → Type 0
DetailsDescribed dt (s, h, t) = NestedHas (SubDescribed s) dt

module _ (b : ℕ) where
  Ends-text : Ends b 0 Anything (lift io read_string)
  Ends-text = Ends-lift b 0 aips_io read_string Takes-string

  Ends-returned : (r : Result RecordError DataType) → Ends b 0 Anything (return_type r)
  unfolding return_type
  Ends-returned (ok dt) = Ends-pure b Anything dt tt
  Ends-returned (err e) = Ends-raise b 0 Anything e

  Ends-data_type : Ends b 0 Anything read_data_type
  unfolding read_data_type
  Ends-data_type =
      Ends-then b Anything Anything _ _ (Ends-lift b 0 aips_io read_i32 Takes-i32)
        (λ code x. Ends-returned (from_i32 code))

  Ends-shape : (t : Bool) → Ends b 0 Anything (if t then read_shape else pure (no_desc, none, none))
  unfolding read_shape
  Ends-shape t =
      Ends-if b 0 Anything t _ _
        (Ends-then b Anything Anything _ _ (Ends-lift b 0 aips_io read_iposition Takes-iposition)
          (λ dims x. Ends-pure b Anything _ tt))
        (Ends-pure b Anything _ tt)

  Ends-details :
      (desc : Read Fault RecordDesc) (dt : DataType)
      → Ends b 0 Described desc
      → Ends b 0 (DetailsDescribed dt) (read_details desc dt)
  unfolding read_details DetailsDescribed read_sub_desc read_table_desc_name NestedHas Described
  Ends-details desc record_type h =
      Ends-then b Described _ desc _ h (λ d described. Ends-pure b _ _ described)
  Ends-details desc table h = Ends-then b Anything _ _ _ Ends-text (λ s x. Ends-pure b _ _ tt)
  Ends-details desc dt h = Ends-shape (is_array dt)

  Ends-field :
      (version : ℕ) (desc : Read Fault RecordDesc)
      → Ends b 0 Described desc
      → Ends b 0 FieldDescribed (read_field version desc)
  unfolding read_field read_comment DetailsDescribed FieldDescribed
  Ends-field version desc h = Ends-then b Anything FieldDescribed _ _ Ends-text (λ name x.
      Ends-then b Anything FieldDescribed _ _ Ends-data_type (λ dt y.
        Ends-then b (DetailsDescribed dt) FieldDescribed _ _ (Ends-details desc dt h) (λ details d.
          Ends-then b Anything FieldDescribed _ _
            (Ends-if b 0 Anything (ltb 1 version) _ _ Ends-text (Ends-pure b Anything _ tt))
            (λ comment z. Ends-pure b FieldDescribed _ d))))

  Ends-fields :
      (n : ℕ) (one : Read Fault RecordDescField)
      → Ends b 0 FieldDescribed one
      → Ends b 0 Described (read_fields n one)
  unfolding read_fields Described
  Ends-fields zero one h = Ends-pure b Described no_fields tt
  Ends-fields (suc n) one h = Ends-then b FieldDescribed Described one _ h (λ f described.
      Ends-then b Described Described _ _ (Ends-fields n one h)
        (λ fs rest. Ends-pure b Described (with_field f fs) (described, rest)))

Ends-desc : (fuel : ℕ) → Ends fuel 0 Described (read_desc fuel)
unfolding read_desc
Ends-desc zero = record { at = λ r h. absurd (omega arith) }
Ends-desc (suc fuel) = Ends-weaken (suc fuel) 0 4 Described _ (omega arith) (
    Ends-bind (suc fuel) fuel 0 4 Anything Described _ _ (omega arith)
      (Ends-lift (suc fuel) 4 aips_io _ (Takes-object (codes "RecordDesc")))
      (λ o x.
        Ends-then fuel Anything Described _ _ (Ends-lift fuel 0 aips_io read_i32 Takes-i32) (λ n y.
          Ends-fields fuel (field_count n) _
            (Ends-field fuel o.0 (read_desc fuel) (Ends-desc fuel)))))

module _ (b : ℕ) (framed : Read Fault TableRecord) (Ends-framed : Ends b 0 Anything framed) where
  Ends-array_value : (dt : DataType) → Ends b 0 Anything (read_array_value dt)
  unfolding read_array_value
  Ends-array_value dt =
      Ends-then b Anything Anything _ _ (Ends-lift b 0 (λ e. e) _ (Takes-array (element_type dt)))
        (λ a x. Ends-pure b Anything (RecordValue.array a) tt)

  Ends-table_name : Ends b 0 Anything read_table_name
  unfolding read_table_name
  Ends-table_name =
      Ends-then b Anything Anything _ _ (Ends-text b)
        (λ s x. Ends-pure b Anything (RecordValue.table s) tt)

  Ends-by_type :
      (nested : Read Fault RecordValue) (dt : DataType) (P : Type 0)
      → NestedHas P dt
      → (P → Ends b 0 Anything nested)
      → Ends b 0 Anything (read_by_type nested dt)
  unfolding read_by_type NestedHas
  Ends-by_type nested table P p h = Ends-table_name
  Ends-by_type nested record_type P p h = h p
  Ends-by_type nested dt P p h =
      Ends-if b 0 Anything (is_array dt) _ _ (Ends-array_value dt)
        (Ends-lift b 0 (λ e. e) _ (Takes-scalar dt))

  Ends-framed_value : Ends b 0 Anything (framed_value framed)
  unfolding framed_value
  Ends-framed_value =
      Ends-then b Anything Anything _ _ Ends-framed
        (λ r x. Ends-pure b Anything (RecordValue.nested r) tt)

  Ends-bare_value :
      (d : RecordDesc) (m : Read Fault Values)
      → Ends b 0 Anything m
      → Ends b 0 Anything (bare_value d m)
  unfolding bare_value
  Ends-bare_value d m h =
      Ends-then b Anything Anything _ _ h
        (λ vs x. Ends-pure b Anything (RecordValue.nested (table_record d (pos 0) vs)) tt)

  mutual
    unfolding read_record_data Described

    Ends-data : (d : RecordDesc) → Described d → Ends b 0 Anything (read_record_data framed d)
    Ends-data no_fields h = Ends-pure b Anything _ tt
    Ends-data (with_field f fs) (h, hs) =
        Ends-then b Anything Anything _ _ (Ends-field_value f h) (λ v x.
          Ends-then b Anything Anything _ _ (Ends-data fs hs) (λ vs y. Ends-pure b Anything _ tt))

    Ends-field_value :
        (f : RecordDescField) → FieldDescribed f → Ends b 0 Anything (read_field_value framed f)
    Ends-field_value (field n dt s h t c) d =
        Ends-by_type (read_nested framed s) dt (SubDescribed s) d (Ends-nested s)

    Ends-nested : (s : SubDesc) → SubDescribed s → Ends b 0 Anything (read_nested framed s)
    Ends-nested no_desc h = absurd h
    Ends-nested (sub_desc d) h =
        Ends-if b 0 Anything (no_fields? d) _ _ Ends-framed_value
          (Ends-bare_value d _ (Ends-data d h))

Ends-record : (fuel : ℕ) → Ends fuel 0 Anything (read_record fuel)
unfolding read_record expect_record
Ends-record zero = record { at = λ r h. absurd (omega arith) }
Ends-record (suc fuel) = Ends-weaken (suc fuel) 0 4 Anything _ (omega arith) (
    Ends-bind (suc fuel) fuel 0 4 Anything Anything _ _ (omega arith)
      (Ends-lift (suc fuel) 4 aips_io _ Takes-object_start)
      (λ obj x.
        Ends-then fuel Anything Anything _ _
          (Ends-if fuel 0 Anything (bytes_eq obj.type_name (codes "TableRecord")) _ _
            (Ends-pure fuel Anything tt tt) (Ends-raise fuel 0 Anything _))
          (λ y z.
            Ends-then fuel Described Anything _ _
              (Ends-below fuel (suc fuel) 0 Described _ (omega arith) (Ends-desc (suc fuel)))
              (λ d described.
                Ends-then fuel Anything Anything _ _ (Ends-lift fuel 0 aips_io read_i32 Takes-i32)
                  (λ kind w.
                    Ends-then fuel Anything Anything _ _
                      (Ends-data fuel (read_record fuel) (Ends-record fuel) d described)
                      (λ vs v. Ends-pure fuel Anything _ tt))))))

-- What `EndsWell` excludes.
ended :
    (r : Reader) (o : Result Fault TableRecord × Reader)
    → EndsWell 0 Anything r o
    → (o.0 ≢ err out_of_fuel) × (o.0 ≢ err panicked)
unfolding EndsWell
ended r (ok a, r') h = ((λ e. cc), (λ e. cc))
ended r (err (failed e), r') h = ((λ k. cc), (λ k. cc))
ended r (err panicked, r') h = absurd h
ended r (err out_of_fuel, r') h = absurd h

-- On every cursor, whatever bytes it stands over, the reader of a table record ends on fuel above the
-- number of bytes that are left, and it does not panic, memory aside.
pub read_record-ends :
    (fuel : ℕ) (r : Reader)
    → left r < fuel
    → ((read_record fuel r).0 ≢ err out_of_fuel) × ((read_record fuel r).0 ≢ err panicked)
read_record-ends fuel r h = ended r (read_record fuel r) ((Ends-record fuel).at r h)
