-- ===== src/Records/Descs.antt =====
-- The record descriptions of crates/casacure/src/record.rs: the bytes that are written for one, and
-- what is read back. `normal` is a description with no more than its bytes tell.
pub mod Written
pub mod ReadBack
use casacure.Prelude.{
  ℕ, zero, suc, ◌+◌, ◌%◌, ◌^◌, ◌<◌, ◌≤◌, ◌≡◌, refl, ap, subst, max, Bool, true, false, List, [],
  ◌∷◌, ◌++◌, append_assoc, append-nil, Option, none, some, arith, length, if◌then◌else◌,
}
use casacure.Prelude.Int.{ℤ, pos, as_u32, as_i32, IsI32, as_i32-as_u32}
use casacure.Result.{Result, ok, err}
use casacure.Bytes.{codes, to_bytes}
use casacure.Bytes.Utf8.{is_utf8}
use casacure.Aipsio.Encoding.{object_bytes, magic_bytes, text_bytes}
use casacure.Aipsio.Reader.{Read, ◌>>=◌, pure, lift, read_i32, read_string, read_object}
use casacure.Aipsio.Reads.{
  Reads, Reads-pure, Reads-bind, Reads-lift, Reads-return, Reads-from, Reads-bytes, ReadsFrom-lift,
}
use casacure.Aipsio.Reads.Words.{IsText, Reads-i32}
use casacure.Aipsio.Reads.Objects.{Reads-string, ReadsFrom-object}
use casacure.Aipsio.Writes.{Writes-i32, Writes-string}
use casacure.Records.{
  DataType, RecordError, from_i32, data_type_code, is_array, bool_type, char, u_char, short,
  u_short, int, u_int, float, double, complex, d_complex, string, table, record_type, array_bool,
  array_char, array_u_char, array_short, array_u_short, array_int, array_u_int, array_float,
  array_double, array_complex, array_d_complex, array_string, other, quantity, array_quantity,
  int64, array_int64,
}
use casacure.Records.Codes.{from_i32_iff}
use casacure.Records.Values.{
  RecordDescField, field, SubDesc, no_desc, sub_desc, RecordDesc, no_fields, with_field, Fault,
  panicked, failed,
}
use casacure.Records.Iposition.{IsShape, iposition_bytes, Writes-iposition, Reads-iposition}
use casacure.Records.Attempts.{
  Attempt, attempt, ◌>>◌, finish, Puts, Puts-attempt, Puts-seq, Puts-finish, Puts-bytes,
  Puts-object,
}
use casacure.Records.Read
use casacure.Records.Read.{
  io, return_type, read_data_type, Details, read_sub_desc, read_table_desc_name, read_shape,
  read_details, read_comment, read_field, read_fields, read_desc,
}
use casacure.Records.Write.{
  or_empty, field_count, write_details, put_desc, write_fields, write_field, write_sub,
}

-- What follows the type of a field.
unfoldable pub details_bytes : Bool → List ℕ → DataType → Option (List ℤ) → Option (List ℕ) → List ℕ
unfolding is_array
details_bytes little nested record_type h t = nested
details_bytes little nested table h t = text_bytes little (or_empty t)
details_bytes little nested dt h t = if is_array dt then iposition_bytes little (or_empty h) else []

unfoldable pub count_bytes : Bool → ℕ → List ℕ
count_bytes little n = to_bytes little 4 (as_u32 (as_i32 (n % 2 ^ 32)))

unfoldable pub desc_bytes : Bool → ℕ → List ℕ → List ℕ
unfolding count_bytes
desc_bytes little count fields =
    object_bytes little (codes "RecordDesc") 2 (count_bytes little count ++ fields)

unfoldable mutual
  unfolding details_bytes desc_bytes field_count

  pub fields_bytes : Bool → RecordDesc → List ℕ
  fields_bytes little no_fields = []
  fields_bytes little (with_field f fs) = field_bytes little f ++ fields_bytes little fs

  pub field_bytes : Bool → RecordDescField → List ℕ
  field_bytes little (field n dt s h t c) =
      text_bytes little n
      ++ (to_bytes little 4 (as_u32 (data_type_code dt))
          ++ (details_bytes little (sub_bytes little s) dt h t ++ text_bytes little c))

  pub sub_bytes : Bool → SubDesc → List ℕ
  sub_bytes little no_desc = []
  sub_bytes little (sub_desc d) = desc_bytes little (field_count d) (fields_bytes little d)

-- A field says what its type needs: a record its description, a table a text, an array a shape.
unfoldable pub DetailsFit : Type 0 → DataType → Option (List ℤ) → Option (List ℕ) → Type 0
DetailsFit Nested record_type h t = Nested
DetailsFit Nested table h t = IsText (or_empty t)
DetailsFit Nested dt h t = IsShape (or_empty h)

unfoldable mutual
  unfolding DetailsFit field_count

  pub FieldsFit : RecordDesc → Type 0
  FieldsFit no_fields = Unit
  FieldsFit (with_field f fs) = FieldFits f × FieldsFit fs

  pub FieldFits : RecordDescField → Type 0
  FieldFits (field n dt s h t c) = IsText n × IsText c × DetailsFit (SubFits s) dt h t

  pub SubFits : SubDesc → Type 0
  SubFits no_desc = ⊥
  SubFits (sub_desc d) = (field_count d < 2 ^ 31) × FieldsFit d

unfoldable pub kept : SubDesc → DataType → Option (List ℤ) → Option (List ℕ) → Details
unfolding is_array
kept s record_type h t = (s, none, none)
kept s table h t = (no_desc, none, some (or_empty t))
kept s dt h t = if is_array dt then (no_desc, some (or_empty h), none) else (no_desc, none, none)

unfoldable pub with_details : List ℕ → DataType → Details → List ℕ → RecordDescField
with_details n dt (s, h, t) c = field n dt s h t c

unfoldable mutual
  unfolding kept with_details

  pub normal : RecordDesc → RecordDesc
  normal no_fields = no_fields
  normal (with_field f fs) = with_field (normal_field f) (normal fs)

  pub normal_field : RecordDescField → RecordDescField
  normal_field (field n dt s h t c) = with_details n dt (kept (normal_sub s) dt h t) c

  pub normal_sub : SubDesc → SubDesc
  normal_sub no_desc = no_desc
  normal_sub (sub_desc d) = sub_desc (normal d)

-- How deep descriptions are nested.
unfoldable mutual
  pub desc_depth : RecordDesc → ℕ
  desc_depth no_fields = 0
  desc_depth (with_field f fs) = max (field_depth f) (desc_depth fs)

  pub field_depth : RecordDescField → ℕ
  field_depth (field n dt s h t c) = sub_depth s

  pub sub_depth : SubDesc → ℕ
  sub_depth no_desc = 0
  sub_depth (sub_desc d) = suc (desc_depth d)
