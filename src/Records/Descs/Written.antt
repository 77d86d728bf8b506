-- ===== src/Records/Descs/Written.antt =====
-- The bytes of a record description of crates/casacure/src/record.rs are those that are written.
use casacure.Prelude.{ℕ, Bool, true, false, List, [], Option, if◌then◌else◌}
use casacure.Prelude.Int.{ℤ, as_u32}
use casacure.Bytes.{codes, to_bytes}
use casacure.Aipsio.Encoding.{text_bytes}
use casacure.Aipsio.Writes.{Writes-i32, Writes-string}
use casacure.Records.{DataType, is_array, table, record_type}
use casacure.Records.Values.{
  RecordDescField, field, SubDesc, no_desc, sub_desc, RecordDesc, no_fields, with_field, Fault,
  panicked,
}
use casacure.Records.Iposition.{iposition_bytes, Writes-iposition}
use casacure.Records.Attempts.{
  Attempt, attempt, finish, Puts, Puts-attempt, Puts-seq, Puts-finish, Puts-object,
}
use casacure.Records.Write.{
  or_empty, field_count, write_details, put_desc, write_fields, write_field, write_sub,
}
use casacure.Records.Descs.{
  details_bytes, count_bytes, desc_bytes, fields_bytes, field_bytes, sub_bytes, DetailsFit,
  FieldsFit, FieldFits, SubFits,
}
use casacure.Records.Arrays.Writer.{write_iposition}
use casacure.Aipsio.Writer.{put_i32, put_string}

module _ {little : Bool} where
  pub Puts-string : (t : List ℕ) → Puts little (attempt (put_string t)) (text_bytes little t)
  Puts-string t = Puts-attempt _ _ (Writes-string t)

  pub Puts-i32 : (v : ℤ) → Puts little (attempt (put_i32 v)) (to_bytes little 4 (as_u32 v))
  Puts-i32 v = Puts-attempt _ _ (Writes-i32 v)

  Puts-shape :
      (b : Bool) (dims : List ℤ)
      → Puts little
          (if b then attempt (write_iposition dims) else finish)
          (if b then iposition_bytes little dims else [])
  Puts-shape true dims = Puts-attempt _ _ (Writes-iposition little dims)
  Puts-shape false dims = Puts-finish

  Puts-details :
      (nested : Attempt) (bs : List ℕ) (P : Type 0) (dt : DataType) (h : Option (List ℤ))
      (t : Option (List ℕ))
      → (P → Puts little nested bs)
      → DetailsFit P dt h t
      → Puts little (write_details nested dt h t) (details_bytes little bs dt h t)
  unfolding write_details details_bytes DetailsFit
  Puts-details nested bs P record_type h t k fit = k fit
  Puts-details nested bs P table h t k fit = Puts-string (or_empty t)
  Puts-details nested bs P dt h t k fit = Puts-shape (is_array dt) (or_empty h)

  pub Puts-desc :
      (n : ℕ) (fields : Attempt) (bs : List ℕ)
      → Puts little fields bs
      → Puts little (put_desc n fields) (desc_bytes little n bs)
  unfolding put_desc desc_bytes count_bytes
  Puts-desc n fields bs h = Puts-object (codes "RecordDesc") 2 _ _ (Puts-seq _ _ _ _ (Puts-i32 _) h)

mutual
  unfolding write_fields fields_bytes FieldsFit

  pub Puts-fields :
      (little : Bool) (missing : Fault) (d : RecordDesc)
      → FieldsFit d
      → Puts little (write_fields missing d) (fields_bytes little d)
  Puts-fields little missing no_fields fit = Puts-finish
  Puts-fields little missing (with_field f fs) (fit, fits) =
      Puts-seq _ _ _ _ (Puts-field little missing f fit) (Puts-fields little missing fs fits)

  Puts-field :
      (little : Bool) (missing : Fault) (f : RecordDescField)
      → FieldFits f
      → Puts little (write_field missing f) (field_bytes little f)
  Puts-field little missing (field n dt s h t c) (name, comment, fit) =
      Puts-seq _ _ _ _ (Puts-string n) (
        Puts-seq _ _ _ _ (Puts-i32 _) (
          Puts-seq _ _ _ _
            (Puts-details (write_sub missing s) (sub_bytes little s) (SubFits s) dt h t
              (Puts-sub little missing s) fit)
            (Puts-string c)))

  Puts-sub :
      (little : Bool) (missing : Fault) (s : SubDesc)
      → SubFits s
      → Puts little (write_sub missing s) (sub_bytes little s)
  Puts-sub little missing no_desc fit = absurd fit
  Puts-sub little missing (sub_desc d) (few, fit) =
      Puts-desc (field_count d) _ _ (Puts-fields little panicked d fit)
