-- ===== src/Tests/Descriptions.antt =====
-- crates/casacure/src/record.rs, tabledesc.rs and columnset.rs at concrete inputs.
use casacure.Prelude.{
  ℕ, ◌<◌, ◌^◌, ◌≡◌, ◌≢◌, refl, true, false, List, [], ◌∷◌, ◌++◌, none, some, arith, if◌then◌else◌,
  length,
}
use casacure.Prelude.Int.{pos, negsuc}
use casacure.Result.{ok, err}
use casacure.Bytes.{codes, bytes_eq}
use casacure.Bytes.Utf8.{is_utf8}
use casacure.Aipsio.Reader
use casacure.Aipsio.Reader.{Reader, reader_for}
use casacure.Aipsio.Reads.Words.{IsText}
use casacure.Aipsio.Takes.{left}
use casacure.Aipsio.Writer.{writer_for, into_bytes}
use casacure.Records.{DataType, is_array, element_type}
use casacure.Records
use casacure.Records.Values.{
  ArrayData, ArrayValue, field, no_desc, sub_desc, RecordDesc, no_fields, with_field, RecordValue,
  TableRecord, table_record, no_values, with_value, panicked, out_of_fuel,
}
use casacure.Records.Iposition.{IsShape}
use casacure.Records.Attempts.{appended}
use casacure.Records.Arrays.Reader.{read_array}
use casacure.Records.Arrays.Writer.{write_array_value, nelem}
use casacure.Records.Arrays.RoundTrip.{IsArrayOf, ContentsOf}
use casacure.Records.Scalars.{FloatCasts}
use casacure.Records.Scalars.RoundTrip.{ScalarFits}
use casacure.Records.Descs.{DetailsFit}
use casacure.Records.Read.{read_record}
use casacure.Records.Write.{write_table_record, get, field_count}
use casacure.Records.Contents.{
  RecordFits, ValueFits, ValuesFit, FieldIs, Fresh, Distinct, field_type, record_depth, stored,
}
use casacure.Records.RoundTrip.{read_record-write, read_array-write}
use casacure.Records.Progress.Nested.{read_record-ends}
use casacure.Records.Set.{remove, set, Aligned, SameLength}
use casacure.Records.SetLaws.{get-set}
use casacure.Records.RemoveLaws.{NamesDiffer, get-remove}

-- The same bits, where no float is read from an integer.
abbrev pub casts : FloatCasts
casts = record { as_f32 = λ x. x; as_f64 = λ x. x }

abbrev flags : ArrayValue
flags = record {
  shape = 3 ∷ 3 ∷ [];
  contents = ArrayData.bool (true ∷ false ∷ true ∷ true ∷ false ∷ false ∷ true ∷ false ∷ true ∷ []);
}

flags-IsArrayOf : IsArrayOf Records.bool_type flags
unfolding ContentsOf nelem
flags-IsArrayOf = record {
  dims = ((omega arith, (omega arith, tt)));
  ndim = omega arith;
  count = omega arith;
  elements = refl;
}

read_array-write_example :
    (bytes : List ℕ) × (into_bytes (write_array_value flags) (writer_for true) ≡ some bytes)
    × ((rest : List ℕ)
        → (read_array Records.bool_type (reader_for true (bytes ++ rest))).0 ≡ ok flags)
read_array-write_example = read_array-write true Records.bool_type flags flags-IsArrayOf

pub text : (s : List ℕ) → is_utf8 s ≡ true → length s < 2 ^ 32 → IsText s
text s u l = record { utf8 = u; short = l }

pub empty_text : IsText []
unfolding is_utf8
empty_text = text [] refl (omega arith)

pub no-IsShape : IsShape []
no-IsShape = record { each = tt; short = omega arith }

abbrev unit_desc : RecordDesc
unit_desc =
    with_field (field (codes "UNIT") Records.string no_desc none none (codes "of the axis"))
      no_fields

abbrev unit_record : TableRecord
unit_record =
    table_record unit_desc (pos 0) (with_value (RecordValue.string (codes "Hz")) no_values)

abbrev pub keywords : TableRecord
keywords =
    table_record
      (with_field (field (codes "count") Records.int no_desc none none []) (
        with_field (field (codes "axis") Records.record_type (sub_desc unit_desc) none none [])
          (with_field (field (codes "flags") Records.array_bool no_desc none none []) no_fields)))
      (pos 1)
      (with_value (RecordValue.int (negsuc 4)) (
        with_value (RecordValue.nested unit_record)
          (with_value (RecordValue.array flags) no_values)))

pub keywords-RecordFits : RecordFits keywords
unfolding RecordFits ValuesFit ValueFits ScalarFits FieldIs DetailsFit Fresh Distinct field_type
    field_count is_array element_type is_utf8 bytes_eq
keywords-RecordFits = (
  omega arith,
  omega arith,
  ((refl, (refl, tt)), ((refl, tt), (tt, tt))),
  (
    (text (codes "count") refl (omega arith), empty_text, no-IsShape),
    (refl, omega arith),
    (
      (text (codes "axis") refl (omega arith), empty_text, tt),
      (
        refl,
        (
          omega arith,
          omega arith,
          (tt, tt),
          (
            (
              text (codes "UNIT") refl (omega arith),
              text (codes "of the axis") refl (omega arith),
              no-IsShape,
            ),
            (refl, text (codes "Hz") refl (omega arith)),
            tt,
          ),
        ),
      ),
      (
        (text (codes "flags") refl (omega arith), empty_text, no-IsShape),
        (refl, flags-IsArrayOf),
        tt,
      ),
    ),
  ),
)

pub keywords-depth : record_depth keywords ≡ 2
unfolding record_depth
keywords-depth = refl

read_record-write_example :
    (bytes : List ℕ) × (appended (write_table_record casts 3 keywords (writer_for false))
      ≡ ok bytes)
    × ((rest : List ℕ)
        → (read_record 3 (reader_for false (bytes ++ rest))).0 ≡ ok (stored keywords))
read_record-write_example =
    read_record-write false casts keywords 3 keywords-RecordFits (rw keywords-depth (omega arith))

-- An object whose length reaches past the end.
abbrev cut : Reader
cut = reader_for true (190 ∷ 190 ∷ 190 ∷ 190 ∷ 0 ∷ 0 ∷ 1 ∷ 0 ∷ [])

read_record-ends_example :
    ((read_record 9 cut).0 ≢ err out_of_fuel) × ((read_record 9 cut).0 ≢ err panicked)
read_record-ends_example = read_record-ends 9 cut (unfold left reader_for Reader.new in omega arith)

get-set_example :
    (r' : TableRecord) × (set (codes "axis") (RecordValue.int (pos 2)) keywords ≡ some r')
    × Aligned r'
    × ((m : List ℕ)
        → get m r'
          ≡ (if bytes_eq (codes "axis") m then some (RecordValue.int (pos 2)) else get m keywords))
get-set_example =
    get-set (codes "axis") (RecordValue.int (pos 2)) keywords (unfold Aligned SameLength in tt)

get-remove_example :
    (r' : TableRecord) × (remove (codes "axis") keywords ≡ some r')
    × Aligned r'
    × ((m : List ℕ) → get m r' ≡ (if bytes_eq (codes "axis") m then none else get m keywords))
unfolding NamesDiffer Distinct Fresh bytes_eq
get-remove_example =
    get-remove (codes "axis") keywords (unfold Aligned SameLength in tt)
      ((refl, (refl, tt)), ((refl, tt), (tt, tt)))
