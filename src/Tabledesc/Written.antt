-- ===== src/Tabledesc/Written.antt =====
-- A table description of crates/casacure/src/tabledesc.rs is written as its bytes.
use casacure.Prelude.{ℕ, ◌%◌, ◌^◌, ◌≤◌, refl, Bool, List, [], ◌∷◌, length}
use casacure.Bytes.{codes, to_bytes}
use casacure.Aipsio.Reads.{concat_bytes, All}
use casacure.Aipsio.Writer.{put_u32}
use casacure.Aipsio.Writes.{Writes-u32}
use casacure.Records.Values.{TableRecord}
use casacure.Records.Attempts.{
  Attempt, attempt, Puts, Puts-attempt, Puts-seq, Puts-finish, Puts-object,
}
use casacure.Records.Scalars.{FloatCasts}
use casacure.Records.Descs.Written.{Puts-i32, Puts-string}
use casacure.Records.Write.{write_table_record}
use casacure.Records.Contents.{RecordFits, record_bytes, record_depth}
use casacure.Records.Contents.Written.{Puts-record}
use casacure.Tabledesc.{ColumnDesc, TableDesc, column_type_code}
use casacure.Tabledesc.Write.{
  expect, column_class_name, write_column_desc, write_columns, write_desc_parts, write_table_desc,
}
use casacure.Tabledesc.Contents.{ColumnFits, DescFits, column_bytes, table_desc_bytes}
use casacure.Tabledesc.Kinds.{Kind-of, Puts-shape}

module _ (little : Bool) where
  Puts-expect : (m : Attempt) (bs : List ℕ) → Puts little m bs → Puts little (expect m) bs
  unfolding expect
  Puts-expect m bs h = record { at = λ w e. rw (h.at w e) refl }

  Puts-word : (v : ℕ) → Puts little (attempt (put_u32 v)) (to_bytes little 4 v)
  Puts-word v = Puts-attempt _ _ (Writes-u32 v)

  Puts-keywords :
      (casts : FloatCasts) (fuel : ℕ) (r : TableRecord)
      → RecordFits r
      → record_depth r ≤ fuel
      → Puts little (expect (write_table_record casts fuel r)) (record_bytes little r)
  Puts-keywords casts fuel r fit deep = Puts-expect _ _ (Puts-record little casts fuel r fit deep)

  Puts-column :
      (casts : FloatCasts) (fuel : ℕ) (c : ColumnDesc)
      → ColumnFits fuel c
      → Puts little (write_column_desc casts fuel c) (column_bytes little c)
  unfolding write_column_desc column_bytes
  Puts-column casts fuel c h = Puts-seq _ _ _ _ (Puts-word 1) (
      Puts-seq _ _ _ _ (Puts-string (column_class_name c.kind c.data_type)) (
        Puts-seq _ _ _ _ (Puts-word 1) (
          Puts-seq _ _ _ _ (Puts-string c.name) (
            Puts-seq _ _ _ _ (Puts-string c.comment) (
              Puts-seq _ _ _ _ (Puts-string c.data_manager_type) (
                Puts-seq _ _ _ _ (Puts-string c.data_manager_group) (
                  Puts-seq _ _ _ _ (Puts-i32 (column_type_code c.data_type)) (
                    Puts-seq _ _ _ _ (Puts-i32 c.options) (
                      Puts-seq _ _ _ _ (Puts-i32 c.ndim) (
                        Puts-seq _ _ _ _ (Puts-shape little c c.kind) (
                          Puts-seq _ _ _ _ (Puts-i32 c.max_length) (
                            Puts-seq _ _ _ _
                              (Puts-keywords casts fuel c.keywords h.keywords h.depth)
                              (Kind-of little casts c.data_type c.shape c.kind
                                h.kind).written))))))))))))

  Puts-columns :
      (casts : FloatCasts) (fuel : ℕ) (cs : List ColumnDesc)
      → All (ColumnFits fuel) cs
      → Puts little (write_columns casts fuel cs) (concat_bytes (column_bytes little) cs)
  unfolding write_columns concat_bytes
  Puts-columns casts fuel [] h = Puts-finish
  Puts-columns casts fuel (c ∷ cs) (h, hs) =
      Puts-seq _ _ _ _ (Puts-column casts fuel c h) (Puts-columns casts fuel cs hs)

  pub Puts-table_desc :
      (casts : FloatCasts) (fuel : ℕ) (d : TableDesc)
      → DescFits fuel d
      → Puts little (write_table_desc casts fuel d) (table_desc_bytes little d)
  unfolding write_table_desc write_desc_parts table_desc_bytes
  Puts-table_desc casts fuel d h = Puts-object (codes "TableDesc") 2 _ _ (
      Puts-seq _ _ _ _ (Puts-string d.name) (
        Puts-seq _ _ _ _ (Puts-string d.version) (
          Puts-seq _ _ _ _ (Puts-string d.comment) (
            Puts-seq _ _ _ _ (Puts-keywords casts fuel d.keywords h.keywords h.depth) (
              Puts-seq _ _ _ _
                (Puts-keywords casts fuel d.private_keywords h.private_keywords h.private_depth)
                (Puts-seq _ _ _ _ (Puts-word (length d.columns % 2 ^ 32))
                  (Puts-columns casts fuel d.columns h.columns)))))))
