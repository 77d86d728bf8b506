-- ===== src/Tests/Columns.antt =====
-- crates/casacure/src/tabledesc.rs and columnset.rs at concrete inputs.
use casacure.Prelude.{ℕ, ◌≡◌, refl, true, false, List, [], ◌∷◌, ◌++◌, none, some, arith, map}
use casacure.Prelude.Int.{pos}
use casacure.Result.{ok}
use casacure.Bytes.{codes, bytes_eq}
use casacure.Bytes.Utf8.{is_utf8}
use casacure.Aipsio.Reader.{reader_for}
use casacure.Aipsio.Writer.{writer_for, into_bytes}
use casacure.Records
use casacure.Records.Values.{RecordValue, TableRecord, table_record, no_fields, no_values}
use casacure.Records.Attempts.{appended}
use casacure.Records.Scalars.RoundTrip.{ScalarFits}
use casacure.Records.Contents.{RecordFits, record_depth}
use casacure.Tabledesc.{scalar, array, ColumnDesc, TableDesc, column_type_code}
use casacure.Tabledesc.Parse.{parse_table_desc}
use casacure.Tabledesc.Write.{write_table_desc}
use casacure.Tabledesc.Contents.{ColumnFits, DescFits, KindFits, stored_desc}
use casacure.Tabledesc.RoundTrip.{parse_table_desc-write}
use casacure.Columnset
use casacure.Columnset.{StandardStMan, DataManager, DmBlob}
use casacure.Columnset.Parse.{parse_column_set, decode_blob, parse_standard_stman}
use casacure.Columnset.Write.{write_multi_column_set, write_standard_stman}
use casacure.Columnset.Written.{BindingFits, ManagerFits, Decodes, DecodesAll, info, descs_of}
use casacure.Columnset.RoundTrip.{parse_column_set-write}
use casacure.Columnset.Blob.{SpecFits, parse_standard_stman-write}
use casacure.Tests.Descriptions.{
  casts, keywords, keywords-RecordFits, keywords-depth, text, empty_text, no-IsShape,
}

abbrev empty_record : TableRecord
empty_record = table_record no_fields (pos 0) no_values

abbrev time_column : ColumnDesc
time_column = record {
  name = codes "TIME";
  comment = codes "midpoint";
  data_type = Records.double;
  data_manager_type = codes "IncrementalStMan";
  data_manager_group = codes "ISM";
  options = pos 0;
  ndim = pos 0;
  shape = none;
  max_length = pos 0;
  keywords = keywords;
  kind = scalar (RecordValue.double 0);
  tile_shape = none;
}

abbrev data_column : ColumnDesc
data_column = record time_column {
  name = codes "DATA";
  data_type = Records.complex;
  ndim = pos 2;
  keywords = empty_record;
  kind = array;
  tile_shape = some (pos 4 ∷ pos 8 ∷ []);
}

abbrev main_desc : TableDesc
main_desc = record {
  name = codes "MAIN";
  version = codes "2";
  comment = [];
  keywords = keywords;
  private_keywords = empty_record;
  columns = time_column ∷ data_column ∷ [];
}

empty-RecordFits : RecordFits empty_record
unfolding RecordFits
empty-RecordFits = (omega arith, omega arith, tt, tt)

empty-depth : record_depth empty_record ≡ 1
unfolding record_depth
empty-depth = refl

time-ColumnFits : ColumnFits 2 time_column
unfolding KindFits ScalarFits is_utf8 Records.data_type_code column_type_code
time-ColumnFits = record {
  name = text (codes "TIME") refl (omega arith);
  comment = text (codes "midpoint") refl (omega arith);
  data_manager_type = text (codes "IncrementalStMan") refl (omega arith);
  data_manager_group = text (codes "ISM") refl (omega arith);
  code = refl;
  options = omega arith;
  ndim = omega arith;
  max_length = omega arith;
  keywords = keywords-RecordFits;
  depth = rw keywords-depth (omega arith);
  kind = ((refl, omega arith), refl);
}

data-ColumnFits : ColumnFits 2 data_column
unfolding KindFits is_utf8 Records.data_type_code column_type_code
data-ColumnFits = record {
  name = text (codes "DATA") refl (omega arith);
  comment = text (codes "midpoint") refl (omega arith);
  data_manager_type = text (codes "IncrementalStMan") refl (omega arith);
  data_manager_group = text (codes "ISM") refl (omega arith);
  code = refl;
  options = omega arith;
  ndim = omega arith;
  max_length = omega arith;
  keywords = empty-RecordFits;
  depth = rw empty-depth (omega arith);
  kind = no-IsShape;
}

main-DescFits : DescFits 2 main_desc
unfolding is_utf8
main-DescFits = record {
  name = text (codes "MAIN") refl (omega arith);
  version = text (codes "2") refl (omega arith);
  comment = empty_text;
  keywords = keywords-RecordFits;
  depth = rw keywords-depth (omega arith);
  private_keywords = empty-RecordFits;
  private_depth = rw empty-depth (omega arith);
  columns = (time-ColumnFits, (data-ColumnFits, tt));
  count = omega arith;
}

parse_table_desc-write_example :
    (bytes : List ℕ) × (appended (write_table_desc casts 2 main_desc (writer_for false)) ≡ ok bytes)
    × ((rest : List ℕ)
        → (parse_table_desc 2 (reader_for false (bytes ++ rest))).0 ≡ ok (stored_desc main_desc))
parse_table_desc-write_example = parse_table_desc-write false casts 2 main_desc main-DescFits

abbrev spec : StandardStMan
spec = record {
  data_manager_name = codes "SSM";
  column_offset = 0 ∷ 256 ∷ [];
  col_index_map = 0 ∷ 0 ∷ [];
}

spec-SpecFits : SpecFits spec
unfolding is_utf8
spec-SpecFits = record {
  name = text (codes "SSM") refl (omega arith);
  offsets = (omega arith, (omega arith, tt));
  offset_count = omega arith;
  indices = (omega arith, (omega arith, tt));
  index_count = omega arith;
}

parse_standard_stman-write_example :
    (bytes : List ℕ) × (write_standard_stman spec ≡ some bytes)
    × ((rest : List ℕ) → parse_standard_stman (bytes ++ rest) (codes "StandardStMan") ≡ ok spec)
parse_standard_stman-write_example =
    parse_standard_stman-write (codes "StandardStMan") spec spec-SpecFits

abbrev tiled : DmBlob
tiled = record { type_name = codes "TiledShapeStMan"; sequence_nr = 1; blob = 7 ∷ 7 ∷ [] }

abbrev tiled_manager : DataManager
tiled_manager = record {
  type_name = codes "TiledShapeStMan";
  sequence_nr = 1;
  blob = Columnset.unsupported (7 ∷ 7 ∷ []);
}

tiled-ManagerFits : ManagerFits tiled
unfolding is_utf8
tiled-ManagerFits = record {
  type_name = text (codes "TiledShapeStMan") refl (omega arith);
  sequence_nr = omega arith;
  size = omega arith;
}

tiled-Decodes : Decodes tiled tiled_manager
unfolding decode_blob bytes_eq
tiled-Decodes = record { type_name = refl; sequence_nr = refl; blob = refl }

time-BindingFits : BindingFits (time_column, 1)
time-BindingFits = record { name = time-ColumnFits.name; seq = omega arith; shape = no-IsShape }

data-BindingFits : BindingFits (data_column, 1)
data-BindingFits = record { name = data-ColumnFits.name; seq = omega arith; shape = no-IsShape }

abbrev bindings : List (ColumnDesc × ℕ)
bindings = (time_column, 1) ∷ (data_column, 1) ∷ []

parse_column_set-write_example :
    (bytes : List ℕ) × (into_bytes
        (write_multi_column_set 70 2 (tiled ∷ []) bindings)
        (writer_for true)
      ≡ some bytes)
    × ((rest : List ℕ)
        → (parse_column_set (descs_of bindings) (reader_for true (bytes ++ rest))).0
          ≡ ok (record {
            version = 2;
            nrow = 70;
            storage_option = none;
            seq_count = 2;
            data_managers = tiled_manager ∷ [];
            columns = map info bindings;
          }))
parse_column_set-write_example =
    parse_column_set-write true 70 2 (tiled ∷ []) (tiled_manager ∷ []) bindings (omega arith)
      (omega arith) (omega arith) (tiled-ManagerFits, tt) (unfold DecodesAll in (tiled-Decodes, tt))
      (time-BindingFits, (data-BindingFits, tt))
