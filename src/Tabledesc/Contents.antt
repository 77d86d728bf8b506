-- ===== src/Tabledesc/Contents.antt =====
-- Which descriptions of crates/casacure/src/tabledesc.rs can be written, the bytes of one, and the
-- description that they tell.
use casacure.Prelude.{
  ℕ, ◌%◌, ◌^◌, ◌<◌, ◌≤◌, ◌≡◌, Bool, List, [], ◌∷◌, ◌++◌, Option, none, some, length,
}
use casacure.Prelude.Int.{ℤ, as_u32, IsI32}
use casacure.Bytes.{codes, to_bytes}
use casacure.Aipsio.Encoding.{object_bytes, text_bytes}
use casacure.Aipsio.Reads.{concat_bytes, All}
use casacure.Aipsio.Reads.Words.{IsText}
use casacure.Records.{DataType, data_type_code, record_type}
use casacure.Records.Iposition.{IsShape, iposition_bytes}
use casacure.Records.Scalars.RoundTrip.{scalar_bytes, ScalarFits}
use casacure.Records.Contents.{RecordFits, record_bytes, record_depth, stored}
use casacure.Records.Write.{or_empty}
use casacure.Tabledesc.{
  ColumnKind, scalar, array, of_records, ColumnDesc, TableDesc, column_type_code,
}
use casacure.Tabledesc.Write.{column_class_name}

-- The kind of a column is that of its type, and only an array has a shape.
unfoldable pub KindFits : DataType → Option (List ℤ) → ColumnKind → Type 0
unfolding ScalarFits
KindFits dt shape (scalar default) = ScalarFits dt default × (shape ≡ none)
KindFits dt shape array = IsShape (or_empty shape)
KindFits dt shape of_records = (dt ≡ record_type) × (shape ≡ none)

-- A column that is written and read on `fuel`. Its type has a code of its own.
pub record ColumnFits (fuel : ℕ) (c : ColumnDesc) : Type 0 where
  pub name : IsText c.name
  pub comment : IsText c.comment
  pub data_manager_type : IsText c.data_manager_type
  pub data_manager_group : IsText c.data_manager_group
  pub code : column_type_code c.data_type ≡ data_type_code c.data_type
  pub options : IsI32 c.options
  pub ndim : IsI32 c.ndim
  pub max_length : IsI32 c.max_length
  pub keywords : RecordFits c.keywords
  pub depth : record_depth c.keywords ≤ fuel
  pub kind : KindFits c.data_type c.shape c.kind

pub record DescFits (fuel : ℕ) (d : TableDesc) : Type 0 where
  pub name : IsText d.name
  pub version : IsText d.version
  pub comment : IsText d.comment
  pub keywords : RecordFits d.keywords
  pub depth : record_depth d.keywords ≤ fuel
  pub private_keywords : RecordFits d.private_keywords
  pub private_depth : record_depth d.private_keywords ≤ fuel
  pub columns : All (ColumnFits fuel) d.columns
  pub count : length d.columns < 2 ^ 32

unfoldable pub shape_bytes : Bool → Option (List ℤ) → ColumnKind → List ℕ
shape_bytes little shape array = iposition_bytes little (or_empty shape)
shape_bytes little shape kind = []

unfoldable pub kind_bytes : Bool → ColumnKind → List ℕ
unfolding scalar_bytes
kind_bytes little (scalar default) = to_bytes little 4 1 ++ scalar_bytes little default
kind_bytes little array = to_bytes little 4 1 ++ (0 ∷ [])
kind_bytes little of_records = to_bytes little 4 1

unfoldable pub column_bytes : Bool → ColumnDesc → List ℕ
unfolding shape_bytes kind_bytes column_class_name record_bytes
column_bytes little c =
    to_bytes little 4 1
    ++ (text_bytes little (column_class_name c.kind c.data_type)
        ++ (to_bytes little 4 1
            ++ (text_bytes little c.name
                ++ (text_bytes little c.comment
                    ++ (text_bytes little c.data_manager_type
                        ++ (text_bytes little c.data_manager_group
                            ++ (to_bytes little 4 (as_u32 (column_type_code c.data_type))
                                ++ (to_bytes little 4 (as_u32 c.options)
                                    ++ (to_bytes little 4 (as_u32 c.ndim)
                                        ++ (shape_bytes little c.shape c.kind
                                            ++ (to_bytes little 4 (as_u32 c.max_length)
                                                ++ (record_bytes little c.keywords
                                                    ++ kind_bytes little c.kind))))))))))))

unfoldable pub table_desc_bytes : Bool → TableDesc → List ℕ
unfolding column_bytes record_bytes
table_desc_bytes little d = object_bytes little (codes "TableDesc") 2 (
    text_bytes little d.name
    ++ (text_bytes little d.version
        ++ (text_bytes little d.comment
            ++ (record_bytes little d.keywords
                ++ (record_bytes little d.private_keywords
                    ++ (to_bytes little 4 (length d.columns % 2 ^ 32)
                        ++ concat_bytes (column_bytes little) d.columns))))))

unfoldable pub stored_shape : Option (List ℤ) → ColumnKind → Option (List ℤ)
stored_shape shape array = some (or_empty shape)
stored_shape shape kind = shape

-- What the bytes of a column tell: the shape of an array is set, the tile shape is not kept.
unfoldable pub stored_column : ColumnDesc → ColumnDesc
unfolding stored_shape stored
stored_column c = record c {
  shape = stored_shape c.shape c.kind;
  keywords = stored c.keywords;
  tile_shape = none;
}

unfoldable pub stored_columns : List ColumnDesc → List ColumnDesc
unfolding stored_column
stored_columns [] = []
stored_columns (c ∷ cs) = stored_column c ∷ stored_columns cs

unfoldable pub stored_desc : TableDesc → TableDesc
unfolding stored_columns stored
stored_desc d = record d {
  keywords = stored d.keywords;
  private_keywords = stored d.private_keywords;
  columns = stored_columns d.columns;
}
