-- ===== src/Records/Descs/ReadBack.antt =====
-- A record description of crates/casacure/src/record.rs is read back from its bytes.
use casacure.Prelude.{
  ℕ, zero, suc, ◌%◌, ◌^◌, ◌<◌, ◌≤◌, ◌≡◌, refl, Bool, true, false, List, [], ◌++◌, append-nil,
  Option, none, some, arith, if◌then◌else◌,
}
use casacure.Prelude.Int.{ℤ, pos, as_u32, as_i32, IsI32}
use casacure.Bytes.{codes, to_bytes}
use casacure.Bytes.Utf8.{is_utf8}
use casacure.Aipsio.Encoding.{object_bytes, magic_bytes, text_bytes}
use casacure.Aipsio.Reader.{Read, pure, lift, read_i32, read_string, read_iposition, read_object}
use casacure.Aipsio.Reads.{
  Reads, Reads-pure, Reads-bind, Reads-lift, Reads-return, Reads-from, Reads-bytes, ReadsFrom-lift,
}
use casacure.Aipsio.Reads.Words.{IsText, Reads-i32}
use casacure.Aipsio.Reads.Objects.{Reads-string, ReadsFrom-object}
use casacure.Records.{DataType, data_type_code, is_array, bool_type, table, record_type}
use casacure.Records.Codes.{from_i32_iff}
use casacure.Records.Values.{
  RecordDescField, field, SubDesc, no_desc, sub_desc, RecordDesc, no_fields, with_field, Fault,
}
use casacure.Records.Iposition.{IsShape, iposition_bytes, Reads-iposition}
use casacure.Records.Read
use casacure.Records.Read.{
  io, return_type, read_data_type, Details, read_sub_desc, read_table_desc_name, read_shape,
  read_details, read_comment, read_field, read_fields, read_desc,
}
use casacure.Records.Write.{or_empty, field_count}
use casacure.Records.Descs.{
  details_bytes, count_bytes, desc_bytes, fields_bytes, field_bytes, sub_bytes, DetailsFit,
  FieldsFit, FieldFits, SubFits, kept, with_details, normal, normal_field, normal_sub, desc_depth,
  field_depth, sub_depth,
}

code-IsI32 : (dt : DataType) → IsI32 (data_type_code dt)
unfolding data_type_code
code-IsI32 bool_type = omega arith
code-IsI32 dt = omega arith

desc-IsText : IsText (codes "RecordDesc")
unfolding is_utf8
desc-IsText = record { utf8 = refl; short = omega arith }

-- A number of fields that an `i32` holds.
counted : (n : ℕ) → n < 2 ^ 31 → (as_i32 (n % 2 ^ 32) ≡ pos n) × IsI32 (pos n)
counted n h = (ground arith, h)

module _ {little : Bool} where
  pub Reads-type :
      (dt : DataType)
      → Reads little read_data_type (to_bytes little 4 (as_u32 (data_type_code dt))) dt
  unfolding read_data_type
  Reads-type dt = Reads-bytes _ dt (append-nil _) (
      Reads-bind (lift io read_i32) _ _ [] (data_type_code dt) dt
        (Reads-lift io read_i32 _ _ (Reads-i32 little (data_type_code dt) (code-IsI32 dt)))
        (rw ((from_i32_iff (data_type_code dt) dt).1 refl) (Reads-pure dt)))

  Reads-text : (t : List ℕ) → IsText t → Reads little (lift io read_string) (text_bytes little t) t
  Reads-text t h = Reads-lift io read_string _ t (Reads-string little t h)

  Reads-shape :
      (b : Bool) (dims : List ℤ)
      → IsShape dims
      → Reads little
          (if b then read_shape else pure (no_desc, none, none))
          (if b then iposition_bytes little dims else [])
          (if b then (no_desc, some dims, none) else (no_desc, none, none))
  unfolding read_shape
  Reads-shape true dims h =
      Reads-return (lift io read_iposition) _ _ dims
        (Reads-lift io read_iposition _ dims (Reads-iposition little dims h))
  Reads-shape false dims h = Reads-pure (no_desc, none, none)

  Reads-details :
      (desc : Read Fault RecordDesc) (bs : List ℕ) (s : SubDesc) (P : Type 0) (dt : DataType)
      (h : Option (List ℤ)) (t : Option (List ℕ))
      → (P → Reads little (read_sub_desc desc) bs (s, none, none))
      → DetailsFit P dt h t
      → Reads little (read_details desc dt) (details_bytes little bs dt h t) (kept s dt h t)
  unfolding read_details details_bytes DetailsFit kept read_table_desc_name
  Reads-details desc bs s P record_type h t k fit = k fit
  Reads-details desc bs s P table h t k fit =
      Reads-return (lift io read_string) _ _ (or_empty t) (Reads-text (or_empty t) fit)
  Reads-details desc bs s P dt h t k fit = Reads-shape (is_array dt) (or_empty h) fit

  Reads-named :
      (desc : Read Fault RecordDesc) (n : List ℕ) (dt : DataType) (details : Details) (c : List ℕ)
      (bs : List ℕ)
      → IsText n
      → IsText c
      → Reads little (read_details desc dt) bs details
      → Reads little
          (read_field 2 desc)
          (text_bytes little n
            ++ (to_bytes little 4 (as_u32 (data_type_code dt)) ++ (bs ++ text_bytes little c)))
          (with_details n dt details c)
  unfolding read_field read_comment with_details
  Reads-named desc n dt (s, h, t) c bs hn hc k =
      Reads-bind (lift io read_string) _ _ _ n _ (Reads-text n hn) (
        Reads-bind read_data_type _ _ _ dt _ (Reads-type dt) (
          Reads-bind (read_details desc dt) _ bs _ (s, h, t) _ k
            (Reads-return (lift io read_string) _ _ c (Reads-text c hc))))

  pub Reads-desc :
      (fuel n : ℕ) (bs : List ℕ) (d : RecordDesc)
      → n < 2 ^ 31
      → Reads little (read_fields n (read_field 2 (read_desc fuel))) bs d
      → Reads little (read_desc (suc fuel)) (desc_bytes little n bs) d
  unfolding read_desc desc_bytes count_bytes object_bytes magic_bytes Read.field_count
  Reads-desc fuel n bs d few k =
      Reads-from (lift io (read_object false (codes "RecordDesc"))) _ _ _ _ d
        (ReadsFrom-lift io _ _ _
          (ReadsFrom-object little false (codes "RecordDesc") 2 _ desc-IsText (omega arith)))
        (λ p.
          Reads-bind (lift io read_i32) _ _ bs (pos n) d
            (Reads-lift io read_i32 _ _
              (rw ((counted n few).0) (Reads-i32 little (pos n) (counted n few).1)))
            k)

mutual
  unfolding read_fields fields_bytes FieldsFit normal desc_depth read_sub_desc

  pub Reads-fields :
      (little : Bool) (fuel : ℕ) (d : RecordDesc)
      → FieldsFit d
      → desc_depth d ≤ fuel
      → Reads little
          (read_fields (field_count d) (read_field 2 (read_desc fuel)))
          (fields_bytes little d)
          (normal d)
  Reads-fields little fuel no_fields fit h = Reads-pure no_fields
  Reads-fields little fuel (with_field f fs) (fit, fits) h =
      Reads-bind (read_field 2 (read_desc fuel)) _ _ _ (normal_field f) _
        (Reads-field little fuel f fit (omega arith))
        (Reads-return (read_fields (field_count fs) (read_field 2 (read_desc fuel))) _ _ (normal fs)
          (Reads-fields little fuel fs fits (omega arith)))

  Reads-field :
      (little : Bool) (fuel : ℕ) (f : RecordDescField)
      → FieldFits f
      → field_depth f ≤ fuel
      → Reads little (read_field 2 (read_desc fuel)) (field_bytes little f) (normal_field f)
  Reads-field little fuel (field n dt s h t c) (name, comment, fit) depth =
      Reads-named (read_desc fuel) n dt (kept (normal_sub s) dt h t) c _ name comment (
        Reads-details (read_desc fuel) (sub_bytes little s) (normal_sub s) (SubFits s) dt h t
          (λ k. Reads-sub little fuel s k depth) fit)

  Reads-sub :
      (little : Bool) (fuel : ℕ) (s : SubDesc)
      → SubFits s
      → sub_depth s ≤ fuel
      → Reads little
          (read_sub_desc (read_desc fuel))
          (sub_bytes little s)
          (normal_sub s, none, none)
  Reads-sub little fuel no_desc fit h = absurd fit
  Reads-sub little zero (sub_desc d) (few, fit) h = absurd (omega arith)
  Reads-sub little (suc fuel) (sub_desc d) (few, fit) h =
      Reads-return (read_desc (suc fuel)) _ _ (normal d) (
        Reads-desc fuel (field_count d) _ (normal d) few
          (Reads-fields little fuel d fit (omega arith)))
