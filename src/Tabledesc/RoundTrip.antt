-- ===== src/Tabledesc/RoundTrip.antt =====
-- The table descriptions of crates/casacure/src/tabledesc.rs, written and read back.
use casacure.Prelude.{
  ℕ, ◌%◌, ◌^◌, ◌<◌, ◌≤◌, ◌≡◌, refl, ap, Bool, false, not, List, [], ◌∷◌, ◌++◌, arith, length,
}
use casacure.Prelude.Int.{ℤ, as_u32, IsI32}
use casacure.Result.{Result, ok}
use casacure.Bytes.{codes, to_bytes, bytes_eq_refl}
use casacure.Bytes.Utf8.{is_utf8}
use casacure.Aipsio.Encoding.{object_bytes, magic_bytes, text_bytes}
use casacure.Aipsio.Reader.{
  Reader, ◌>>=◌, ◌>>◌, pure, lift, repeat, read_u32, read_i32, read_string, read_object_start,
  reader_for,
}
use casacure.Aipsio.Reads.{
  Reads, Reads-pure, Reads-bind, Reads-lift, Reads-return, Reads-from, ReadsFrom-lift, concat_bytes,
  All,
}
use casacure.Aipsio.Reads.Words.{IsText, Reads-u32, Reads-i32}
use casacure.Aipsio.Reads.Objects.{object_at, Reads-string, ReadsFrom-object_start}
use casacure.Aipsio.Run.{Reads-run}
use casacure.Aipsio.Writer.{writer_for}
use casacure.Records.{DataType, data_type_code}
use casacure.Records.Values.{TableRecord}
use casacure.Records.Attempts.{appended}
use casacure.Records.RoundTrip.{Puts-run}
use casacure.Records.Scalars.{FloatCasts}
use casacure.Records.Descs.ReadBack.{Reads-type}
use casacure.Records.Read.{read_data_type, read_record}
use casacure.Records.Contents.{RecordFits, record_bytes, record_depth, stored}
use casacure.Records.Contents.ReadBack.{Reads-record}
use casacure.Tabledesc.{ColumnDesc, TableDesc, DescFault, from_fault, column_type_code}
use casacure.Tabledesc.Parse.{
  io, read_class, read_column_shape, read_kind, parse_column_desc, expect_desc, read_private,
  parse_table_desc,
}
use casacure.Tabledesc.Write.{column_class_name, write_table_desc}
use casacure.Tabledesc.Contents.{
  ColumnFits, DescFits, column_bytes, table_desc_bytes, stored_shape, stored_column, stored_columns,
  stored_desc,
}
use casacure.Tabledesc.Kinds.{is_scalar, Kind, Kind-of}
use casacure.Tabledesc.Written.{Puts-table_desc}

module _ (little : Bool) where
  Reads-text : (s : List ℕ) → IsText s → Reads little (lift io read_string) (text_bytes little s) s
  Reads-text s h = Reads-lift io read_string _ s (Reads-string little s h)

  Reads-int : (v : ℤ) → IsI32 v → Reads little (lift io read_i32) (to_bytes little 4 (as_u32 v)) v
  Reads-int v h = Reads-lift io read_i32 _ v (Reads-i32 little v h)

  Reads-word : (v : ℕ) → v < 2 ^ 32 → Reads little (lift io read_u32) (to_bytes little 4 v) v
  Reads-word v h = Reads-lift io read_u32 _ v (Reads-u32 little v h)

  Reads-keywords :
      (fuel : ℕ) (r : TableRecord)
      → RecordFits r
      → record_depth r ≤ fuel
      → Reads little (lift from_fault (read_record fuel)) (record_bytes little r) (stored r)
  Reads-keywords fuel r fit deep = Reads-lift from_fault _ _ _ (Reads-record little fuel r fit deep)

  Reads-code :
      (dt : DataType)
      → column_type_code dt ≡ data_type_code dt
      → Reads little
          (lift from_fault read_data_type)
          (to_bytes little 4 (as_u32 (column_type_code dt)))
          dt
  Reads-code dt e = rw e (Reads-lift from_fault read_data_type _ dt (Reads-type dt))

  Reads-column :
      (fuel : ℕ) (c : ColumnDesc)
      → ColumnFits fuel c
      → Reads little (parse_column_desc fuel) (column_bytes little c) (stored_column c)
  unfolding parse_column_desc column_bytes stored_column
  Reads-column fuel c h =
      let kind : Kind little (record { as_f32 = λ x. x; as_f64 = λ x. x }) c.data_type c.shape
          c.kind =
        Kind-of little (record { as_f32 = λ x. x; as_f64 = λ x. x }) c.data_type c.shape c.kind
          h.kind in
      Reads-bind (lift io read_u32) _ _ _ 1 _ (Reads-word 1 (omega arith)) (
        Reads-bind (lift io read_string) _ _ _ (column_class_name c.kind c.data_type) _
          (Reads-text _ kind.text)
          (Reads-bind (read_class (column_class_name c.kind c.data_type)) _ [] _ (is_scalar c.kind)
            _ kind.class
            (Reads-bind (lift io read_u32) _ _ _ 1 _ (Reads-word 1 (omega arith)) (
              Reads-bind (lift io read_string) _ _ _ c.name _ (Reads-text _ h.name) (
                Reads-bind (lift io read_string) _ _ _ c.comment _ (Reads-text _ h.comment) (
                  Reads-bind (lift io read_string) _ _ _ c.data_manager_type _
                    (Reads-text _ h.data_manager_type)
                    (Reads-bind (lift io read_string) _ _ _ c.data_manager_group _
                      (Reads-text _ h.data_manager_group)
                      (Reads-bind (lift from_fault read_data_type) _ _ _ c.data_type _
                        (Reads-code c.data_type h.code)
                        (Reads-bind (lift io read_i32) _ _ _ c.options _ (Reads-int _ h.options) (
                          Reads-bind (lift io read_i32) _ _ _ c.ndim _ (Reads-int _ h.ndim) (
                            Reads-bind (read_column_shape (is_scalar c.kind)) _ _ _
                              (stored_shape c.shape c.kind) _ kind.read_shape
                              (Reads-bind (lift io read_i32) _ _ _ c.max_length _
                                (Reads-int _ h.max_length)
                                (Reads-bind (lift from_fault (read_record fuel)) _ _ _
                                  (stored c.keywords) _
                                  (Reads-keywords fuel c.keywords h.keywords h.depth)
                                  (Reads-return
                                    (read_kind (column_class_name c.kind c.data_type)
                                      (is_scalar c.kind) c.data_type)
                                    _ _ c.kind kind.read))))))))))))))

  Reads-columns :
      (fuel : ℕ) (cs : List ColumnDesc)
      → All (ColumnFits fuel) cs
      → Reads little
          (repeat (length cs) (parse_column_desc fuel))
          (concat_bytes (column_bytes little) cs)
          (stored_columns cs)
  unfolding repeat concat_bytes stored_columns
  Reads-columns fuel [] h = Reads-pure []
  Reads-columns fuel (c ∷ cs) (h, hs) =
      Reads-bind (parse_column_desc fuel) _ _ _ (stored_column c) _ (Reads-column fuel c h) (
        Reads-return (repeat (length cs) (parse_column_desc fuel)) (λ rest. stored_column c ∷ rest)
          _ (stored_columns cs) (Reads-columns fuel cs hs))

  -- The parts of a description, behind its header.
  Reads-parts :
      (fuel p : ℕ) (d : TableDesc)
      → DescFits fuel d
      → Reads little
          (do
            expect_desc (object_at (codes "TableDesc") 2 0 p)
            name ← lift io read_string
            version ← lift io read_string
            comment ← lift io read_string
            keywords ← lift from_fault (read_record fuel)
            private_keywords ← read_private fuel 2
            ncols ← lift io read_u32
            columns ← repeat ncols (parse_column_desc fuel)
            pure (record {
              name = name;
              version = version;
              comment = comment;
              keywords = keywords;
              private_keywords = private_keywords;
              columns = columns;
            }))
          (text_bytes little d.name
            ++ (text_bytes little d.version
                ++ (text_bytes little d.comment
                    ++ (record_bytes little d.keywords
                        ++ (record_bytes little d.private_keywords
                            ++ (to_bytes little 4 (length d.columns % 2 ^ 32)
                                ++ concat_bytes (column_bytes little) d.columns))))))
          (stored_desc d)
  unfolding expect_desc read_private stored_desc
  Reads-parts fuel p d h =
      Reads-bind (expect_desc (object_at (codes "TableDesc") 2 0 p)) _ [] _ tt _
        (rw (bytes_eq_refl (codes "TableDesc")) (Reads-pure tt))
        (Reads-bind (lift io read_string) _ _ _ d.name _ (Reads-text _ h.name) (
          Reads-bind (lift io read_string) _ _ _ d.version _ (Reads-text _ h.version) (
            Reads-bind (lift io read_string) _ _ _ d.comment _ (Reads-text _ h.comment) (
              Reads-bind (lift from_fault (read_record fuel)) _ _ _ (stored d.keywords) _
                (Reads-keywords fuel d.keywords h.keywords h.depth)
                (Reads-bind (lift from_fault (read_record fuel)) _ _ _ (stored d.private_keywords) _
                  (Reads-keywords fuel d.private_keywords h.private_keywords h.private_depth)
                  (Reads-bind (lift io read_u32) _ _ _ (length d.columns % 2 ^ 32) _
                    (Reads-word _ (omega arith))
                    (rw fits (
                      Reads-return (repeat (length d.columns) (parse_column_desc fuel)) _ _
                        (stored_columns d.columns) (Reads-columns fuel d.columns h.columns)))))))))
    where
      fits : length d.columns % 2 ^ 32 ≡ length d.columns
      fits = omega (arith, h.count)

desc-IsText : IsText (codes "TableDesc")
unfolding is_utf8
desc-IsText = record { utf8 = refl; short = omega arith }

pub Reads-table_desc :
    (little : Bool) (fuel : ℕ) (d : TableDesc)
    → DescFits fuel d
    → Reads little (parse_table_desc fuel) (table_desc_bytes little d) (stored_desc d)
unfolding parse_table_desc table_desc_bytes object_bytes magic_bytes
Reads-table_desc little fuel d h =
    Reads-from (lift io (read_object_start false)) _ _ _ _ _
      (ReadsFrom-lift io _ _ _
        (ReadsFrom-object_start little false (codes "TableDesc") 2 _ desc-IsText (omega arith)))
      (λ p. Reads-parts little fuel p d h)

parsed : Result DescFault TableDesc × Reader → Result DescFault TableDesc
parsed r = r.0

-- A table description whose texts, numbers and keywords fit, and whose columns are each of a kind
-- that goes with its type, is written in either byte order on any fuel that is no less than the depth
-- of its keywords, and every stream that begins with those bytes is parsed on that fuel as the
-- description: with its keywords as they are stored, the shape of each array column set, and no tile
-- shapes.
pub parse_table_desc-write :
    (big : Bool) (casts : FloatCasts) (fuel : ℕ) (d : TableDesc)
    → DescFits fuel d
    → (bytes : List ℕ) × (appended (write_table_desc casts fuel d (writer_for big)) ≡ ok bytes)
      × ((rest : List ℕ)
          → (parse_table_desc fuel (reader_for big (bytes ++ rest))).0 ≡ ok (stored_desc d))
unfolding parsed
parse_table_desc-write big casts fuel d h = (
  table_desc_bytes (not big) d,
  Puts-run big _ _ (Puts-table_desc (not big) casts fuel d h),
  λ rest. ap parsed (
      Reads-run big (parse_table_desc fuel) _ rest (stored_desc d)
        (Reads-table_desc (not big) fuel d h)),
)
