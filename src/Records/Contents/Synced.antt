-- ===== src/Records/Contents/Synced.antt =====
-- The synced description of a record of crates/casacure/src/record.rs that fits its own: it fits
-- too, and has as many fields.
use casacure.Prelude.{◌≡◌, refl, ap, suc, Option, List, ℕ, true}
use casacure.Prelude.Int.{ℤ}
use casacure.Records.{DataType, is_array, table, record_type}
use casacure.Records.Values.{
  field, SubDesc, RecordDesc, no_fields, with_field, RecordValue, table_record, Values, no_values,
  with_value, no_fields?,
}
use casacure.Records.Write.{synced, value_desc, or_sub, with_sub, field_count}
use casacure.Records.Scalars.RoundTrip.{IsScalar, ScalarFits-IsScalar}
use casacure.Records.Descs.{DetailsFit, FieldsFit, SubFits}
use casacure.Records.Contents.{ValueFits, ValuesFit, FieldIs, field_type}

pub no_fields?-synced : (d : RecordDesc) (vs : Values) → no_fields? (synced d vs) ≡ no_fields? d
unfolding no_fields? synced
no_fields?-synced no_fields vs = refl
no_fields?-synced (with_field f fs) no_values = refl
no_fields?-synced (with_field f fs) (with_value v vs) = refl

pub field_count-synced : (d : RecordDesc) (vs : Values) → field_count (synced d vs) ≡ field_count d
unfolding field_count synced
field_count-synced no_fields vs = refl
field_count-synced (with_field f fs) no_values = refl
field_count-synced (with_field f fs) (with_value v vs) = ap suc (field_count-synced fs vs)

-- The needs of a type that is not that of a record do not depend on a nested description.
details_fit :
    (P Q : Type 0) (dt : DataType) (h : Option (List ℤ)) (t : Option (List ℕ))
    → (dt ≡ record_type → P)
    → DetailsFit Q dt h t
    → DetailsFit P dt h t
unfolding DetailsFit
details_fit P Q record_type h t k fit = k refl
details_fit P Q table h t k fit = fit
details_fit P Q dt h t k fit = fit

not_array : is_array record_type ≡ true → ⊥
unfolding is_array
not_array h = cc

mutual
  unfolding ValuesFit FieldsFit synced field_type FieldIs with_sub IsScalar

  pub synced-FieldsFit : (d : RecordDesc) (vs : Values) → ValuesFit d vs → FieldsFit (synced d vs)
  synced-FieldsFit no_fields no_values fit = tt
  synced-FieldsFit no_fields (with_value v vs) fit = absurd fit
  synced-FieldsFit (with_field f fs) no_values fit = absurd fit
  synced-FieldsFit (with_field (field n dt s h t c) fs) (with_value v vs)
        ((name, comment, needs), fit, fits) =
      (
        (
          name,
          comment,
          details_fit (SubFits (or_sub s (value_desc v))) (Unit {0}) dt h t
              (λ e. value-SubFits v s dt e fit) needs,
        ),
        synced-FieldsFit fs vs fits,
      )

  value-SubFits :
      (v : RecordValue) (s : SubDesc) (dt : DataType)
      → dt ≡ record_type
      → ValueFits dt v
      → SubFits (or_sub s (value_desc v))
  value-SubFits (RecordValue.nested (table_record d t vs)) s dt e (k, (range, few, distinct, fit)) =
      (rw (field_count-synced d vs) few, synced-FieldsFit d vs fit)
  value-SubFits (RecordValue.table name) s dt e (k, text) = cc
  value-SubFits (RecordValue.array a) s dt e (k, fit) = absurd (not_array (rw e at k))
  value-SubFits v s dt e fit = absurd ((ScalarFits-IsScalar dt v fit).1 e)
