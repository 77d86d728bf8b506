-- ===== src/Records/Write.antt =====
-- Writing the records of crates/casacure/src/record.rs: `synced_desc`, `write_record_desc`,
-- `write_table_record` and `write_record_data_values`. The writers of values call themselves for
-- what `get` finds, and run on fuel.
use casacure.Prelude.{ℕ, zero, suc, ◌%◌, ◌^◌, List, [], ◌++◌, Option, none, some, if◌then◌else◌}
use casacure.Prelude.Int.{ℤ, as_i32}
use casacure.Bytes.{codes, bytes_eq}
use casacure.Aipsio.Writer.{put_i32, put_string}
use casacure.Records.{DataType, legacy_keyword_set, data_type_code, is_array, table, record_type}
use casacure.Records.Values.{
  RecordDescField, field, SubDesc, no_desc, sub_desc, RecordDesc, no_fields, with_field,
  RecordValue, TableRecord, table_record, Values, no_values, with_value, Fault, failed, panicked,
  out_of_fuel, no_fields?,
}
use casacure.Records.Attempts.{Attempt, attempt, ◌>>◌, finish, fail, put_object}
use casacure.Records.Scalars.{FloatCasts, write_scalar_value}
use casacure.Records.Arrays.Writer.{write_array_value, write_iposition}

unfoldable pub or_sub : SubDesc → SubDesc → SubDesc
or_sub old no_desc = old
or_sub old (sub_desc d) = sub_desc d

unfoldable pub with_sub : RecordDescField → SubDesc → RecordDescField
unfolding or_sub
with_sub (field n dt s h t c) found = field n dt (or_sub s found) h t c

-- `synced_desc`: each record field has the description of the record that it holds.
unfoldable mutual
  unfolding with_sub

  pub synced : RecordDesc → Values → RecordDesc
  synced no_fields vs = no_fields
  synced (with_field f fs) no_values = with_field f fs
  synced (with_field f fs) (with_value v vs) = with_field (with_sub f (value_desc v)) (synced fs vs)

  pub value_desc : RecordValue → SubDesc
  value_desc (RecordValue.nested r) = record_desc r
  value_desc v = no_desc

  pub record_desc : TableRecord → SubDesc
  record_desc (table_record d t vs) = sub_desc (synced d vs)

unfoldable pub desc_of : TableRecord → RecordDesc
desc_of (table_record d t vs) = d

unfoldable pub synced_desc : TableRecord → RecordDesc
unfolding synced
synced_desc (table_record d t vs) = synced d vs

unfoldable pub field_count : RecordDesc → ℕ
field_count no_fields = 0
field_count (with_field f fs) = suc (field_count fs)

-- `unwrap_or("")` and `unwrap_or(&[])`
module _ {A : Type 0} where
  abbrev pub or_empty : Option (List A) → List A
  or_empty none = []
  or_empty (some xs) = xs

-- What follows a field's type; `nested` writes its description.
unfoldable pub write_details : Attempt → DataType → Option (List ℤ) → Option (List ℕ) → Attempt
unfolding is_array write_iposition
write_details nested record_type shape name = nested
write_details nested table shape name = attempt (put_string (or_empty name))
write_details nested dt shape name =
    if is_array dt then attempt (write_iposition (or_empty shape)) else finish

-- A description of `count` fields, written by `fields`.
unfoldable pub put_desc : ℕ → Attempt → Attempt
put_desc count fields =
    put_object (codes "RecordDesc") 2 (do attempt (put_i32 (as_i32 (count % 2 ^ 32))); fields)

-- The loop over the fields; `missing` is what a record field without a description gives.
unfoldable mutual
  unfolding write_details put_desc field_count

  pub write_fields : Fault → RecordDesc → Attempt
  write_fields missing no_fields = finish
  write_fields missing (with_field f fs) = write_field missing f >> write_fields missing fs

  pub write_field : Fault → RecordDescField → Attempt
  write_field missing (field n dt s h t c) = do
    attempt (put_string n)
    attempt (put_i32 (data_type_code dt))
    write_details (write_sub missing s) dt h t
    attempt (put_string c)

  pub write_sub : Fault → SubDesc → Attempt
  write_sub missing no_desc = fail missing
  write_sub missing (sub_desc d) = put_desc (field_count d) (write_fields panicked d)

-- `desc.fields.iter().position(|f| f.name == name)`
unfoldable pub position : List ℕ → RecordDesc → Option ℕ
position name no_fields = none
position name (with_field (field n dt s h t c) fs) =
    let later = position name fs in
    if bytes_eq n name then some 0 else elim later [ none ↦ none | some i ↦ some (suc i) ]

unfoldable pub value_at : Values → ℕ → Option RecordValue
value_at no_values i = none
value_at (with_value v vs) zero = some v
value_at (with_value v vs) (suc i) = value_at vs i

abbrev pub found : Values → Option ℕ → Option RecordValue
found vs none = none
found vs (some i) = value_at vs i

-- `TableRecord::get`
unfoldable pub get : List ℕ → TableRecord → Option RecordValue
unfolding position value_at
get name (table_record d t vs) = found vs (position name d)

unfoldable pub legacy : List ℕ → Attempt
legacy text = fail (failed (legacy_keyword_set text))

unfoldable pub put_array : List ℕ → Option RecordValue → Attempt
put_array name (some (RecordValue.array a)) = attempt (write_array_value a)
put_array name v = legacy (codes "missing array value for " ++ name)

-- `framed` and `bare` write a nested record with and without its frame.
module _ (casts : FloatCasts) (framed bare : TableRecord → Attempt) where
  unfoldable pub put_nested : SubDesc → Option RecordValue → Attempt
  put_nested no_desc (some (RecordValue.nested r)) = framed r
  put_nested (sub_desc d) (some (RecordValue.nested r)) = if no_fields? d then framed r else bare r
  put_nested s v = legacy (codes "missing record value")

  unfoldable pub put_scalar : DataType → Option RecordValue → Attempt
  put_scalar dt (some v) = attempt (write_scalar_value casts dt v)
  put_scalar dt none = legacy (codes "missing field value")

  -- One round of the loop over the values of a framed record.
  unfoldable pub put_value : RecordDescField → Option RecordValue → Attempt
  unfolding is_array no_fields? put_array put_nested put_scalar
  put_value (field n record_type s h t c) v = put_nested s v
  put_value (field n dt s h t c) v = if is_array dt then put_array n v else put_scalar dt v

  -- One round of the loop over the values of a bare record.
  unfoldable pub put_bare_value : DataType → Option RecordValue → Attempt
  unfolding is_array no_fields? desc_of
  put_bare_value dt none = legacy (codes "missing nested value")
  put_bare_value dt (some (RecordValue.nested r)) =
      if no_fields? (desc_of r) then framed r else bare r
  put_bare_value dt (some (RecordValue.array a)) =
      if is_array dt
      then attempt (write_array_value a)
      else attempt (write_scalar_value casts dt (RecordValue.array a))
  put_bare_value dt (some v) = attempt (write_scalar_value casts dt v)

-- `for field in &fields { one(field, record.get(&field.name)) }`
module _ (record_ : TableRecord) (one : RecordDescField → Option RecordValue → Attempt) where
  unfoldable pub for_fields : RecordDesc → Attempt
  unfolding get
  for_fields no_fields = finish
  for_fields (with_field (field n dt s h t c) fs) =
      one (field n dt s h t c) (get n record_) >> for_fields fs

unfoldable pub type_field :
    (DataType → Option RecordValue → Attempt) → RecordDescField → Option RecordValue → Attempt
type_field one (field n dt s h t c) v = one dt v

unfoldable pub record_type_of : TableRecord → ℤ
record_type_of (table_record d t vs) = t

unfoldable mutual
  unfolding synced_desc desc_of field_count write_fields put_value put_bare_value for_fields
      type_field record_type_of

  pub write_table_record : FloatCasts → ℕ → TableRecord → Attempt
  write_table_record casts zero r = fail out_of_fuel
  write_table_record casts (suc fuel) r = put_object (codes "TableRecord") 1 (do
    put_desc (field_count (synced_desc r))
        (write_fields (failed (legacy_keyword_set (codes "missing sub-desc"))) (synced_desc r))
    attempt (put_i32 (record_type_of r))
    for_fields r
        (put_value casts (write_table_record casts fuel) (write_record_data_values casts fuel))
        (synced_desc r))

  pub write_record_data_values : FloatCasts → ℕ → TableRecord → Attempt
  write_record_data_values casts zero r = fail out_of_fuel
  write_record_data_values casts (suc fuel) r =
      for_fields r
        (type_field (
          put_bare_value casts (write_table_record casts fuel)
            (write_record_data_values casts fuel)))
        (desc_of r)
