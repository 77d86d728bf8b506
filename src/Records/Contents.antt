-- ===== src/Records/Contents.antt =====
-- The contents of the table records of crates/casacure/src/record.rs: which records fit their
-- descriptions, the bytes that are written for one, and the record that those bytes tell.
pub mod Lookup
pub mod Synced
pub mod Written
pub mod ReadBack
use casacure.Prelude.{
  ℕ, zero, suc, ◌^◌, ◌<◌, ◌≡◌, max, Bool, true, false, List, [], ◌++◌, if◌then◌else◌,
}
use casacure.Prelude.Int.{ℤ, pos, as_u32, IsI32}
use casacure.Bytes.{codes, to_bytes, bytes_eq}
use casacure.Aipsio.Encoding.{object_bytes, text_bytes}
use casacure.Aipsio.Reads.Words.{IsText}
use casacure.Records.{DataType, is_array, element_type, table, record_type}
use casacure.Records.Values.{
  RecordDescField, field, RecordDesc, no_fields, with_field, RecordValue, TableRecord, table_record,
  Values, no_values, with_value, no_fields?, field_name,
}
use casacure.Records.Arrays.Encoding.{array_bytes}
use casacure.Records.Arrays.RoundTrip.{IsArrayOf}
use casacure.Records.Scalars.RoundTrip.{scalar_bytes, ScalarFits}
use casacure.Records.Descs.{DetailsFit, desc_bytes, fields_bytes, normal, desc_depth, field_depth}
use casacure.Records.Write.{synced, field_count}

-- The bytes of a framed record with the description `d` and the values `vs`.
unfoldable pub framed_bytes : Bool → RecordDesc → ℤ → List ℕ → List ℕ
unfolding desc_bytes fields_bytes field_count
framed_bytes little d t vs = object_bytes little (codes "TableRecord") 1 (
    desc_bytes little (field_count d) (fields_bytes little d)
    ++ (to_bytes little 4 (as_u32 t) ++ vs))

unfoldable mutual
  unfolding framed_bytes synced no_fields? array_bytes scalar_bytes

  pub value_bytes : Bool → RecordValue → List ℕ
  value_bytes little (RecordValue.nested r) = nested_bytes little r
  value_bytes little (RecordValue.table s) = text_bytes little s
  value_bytes little (RecordValue.array a) = array_bytes little a
  value_bytes little v = scalar_bytes little v

  -- A nested record without fields has a frame, any other has none.
  pub nested_bytes : Bool → TableRecord → List ℕ
  nested_bytes little (table_record d t vs) =
      if no_fields? d
      then framed_bytes little (synced d vs) t (values_bytes little vs)
      else values_bytes little vs

  pub values_bytes : Bool → Values → List ℕ
  values_bytes little no_values = []
  values_bytes little (with_value v vs) = value_bytes little v ++ values_bytes little vs

unfoldable pub record_bytes : Bool → TableRecord → List ℕ
unfolding framed_bytes synced values_bytes
record_bytes little (table_record d t vs) =
    framed_bytes little (synced d vs) t (values_bytes little vs)

unfoldable pub bare_bytes : Bool → TableRecord → List ℕ
unfolding values_bytes
bare_bytes little (table_record d t vs) = values_bytes little vs

-- No field of `d` is called `n`.
unfoldable pub Fresh : List ℕ → RecordDesc → Type 0
Fresh n no_fields = Unit
Fresh n (with_field (field m dt s h t c) fs) = (bytes_eq n m ≡ false) × Fresh n fs

-- The names of the fields differ.
unfoldable pub Distinct : RecordDesc → Type 0
unfolding Fresh
Distinct no_fields = Unit
Distinct (with_field (field n dt s h t c) fs) = Fresh n fs × Distinct fs

unfoldable pub field_type : RecordDescField → DataType
field_type (field n dt s h t c) = dt

unfoldable pub FieldIs : RecordDescField → Type 0
unfolding DetailsFit
FieldIs (field n dt s h t c) = IsText n × IsText c × DetailsFit (Unit {0}) dt h t

-- The values are those of the fields, one for each, of its type and in range.
unfoldable mutual
  unfolding ScalarFits Distinct field_count is_array element_type field_type FieldIs

  pub ValueFits : DataType → RecordValue → Type 0
  ValueFits dt (RecordValue.nested r) = (dt ≡ record_type) × RecordFits r
  ValueFits dt (RecordValue.table s) = (dt ≡ table) × IsText s
  ValueFits dt (RecordValue.array a) = (is_array dt ≡ true) × IsArrayOf (element_type dt) a
  ValueFits dt v = ScalarFits dt v

  pub RecordFits : TableRecord → Type 0
  RecordFits (table_record d t vs) =
      IsI32 t × (field_count d < 2 ^ 31) × Distinct d × ValuesFit d vs

  pub ValuesFit : RecordDesc → Values → Type 0
  ValuesFit no_fields no_values = Unit
  ValuesFit no_fields (with_value v vs) = ⊥
  ValuesFit (with_field f fs) no_values = ⊥
  ValuesFit (with_field f fs) (with_value v vs) =
      FieldIs f × ValueFits (field_type f) v × ValuesFit fs vs

-- What the bytes of a record tell: its descriptions are those of its values, with no more than the
-- types need, and a nested record without a frame has lost its type.
unfoldable mutual
  unfolding synced normal no_fields?

  pub stored_value : RecordValue → RecordValue
  stored_value (RecordValue.nested r) = RecordValue.nested (stored_nested r)
  stored_value v = v

  pub stored_nested : TableRecord → TableRecord
  stored_nested (table_record d t vs) =
      table_record (normal (synced d vs)) (if no_fields? d then t else pos 0) (stored_values vs)

  pub stored_values : Values → Values
  stored_values no_values = no_values
  stored_values (with_value v vs) = with_value (stored_value v) (stored_values vs)

unfoldable pub stored : TableRecord → TableRecord
unfolding synced normal stored_values
stored (table_record d t vs) = table_record (normal (synced d vs)) t (stored_values vs)

-- How deep records and their descriptions are nested.
unfoldable mutual
  unfolding synced desc_depth

  pub value_depth : RecordValue → ℕ
  value_depth (RecordValue.nested r) = record_depth r
  value_depth v = 0

  pub record_depth : TableRecord → ℕ
  record_depth (table_record d t vs) = suc (max (desc_depth (synced d vs)) (values_depth vs))

  pub values_depth : Values → ℕ
  values_depth no_values = 0
  values_depth (with_value v vs) = max (value_depth v) (values_depth vs)
