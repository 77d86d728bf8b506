-- ===== src/Columnset/Blob.antt =====
-- The blob of a standard storage manager in crates/casacure/src/columnset.rs, written and parsed.
use casacure.Prelude.{
  ℕ, ◌%◌, ◌^◌, ◌<◌, ◌≡◌, refl, ap, Bool, true, false, List, [], ◌++◌, append_assoc, some, arith,
  length,
}
use casacure.Result.{Result, ok}
use casacure.Bytes.{codes, to_bytes, bytes_eq_refl}
use casacure.Bytes.Utf8.{is_utf8}
use casacure.Aipsio.Block.{block_bytes, elements_bytes, Block-IsText, Writes-block}
use casacure.Aipsio.Encoding.{object_bytes, magic_bytes, text_bytes}
use casacure.Aipsio.Reader.{Reader, lift, read_u32, read_string, read_object_start, reader_for}
use casacure.Aipsio.Reads.{
  Reads, Reads-pure, Reads-bind, Reads-lift, Reads-return, Reads-from, ReadsFrom-lift, Reads-repeat,
  All,
}
use casacure.Aipsio.Reads.Words.{IsU32, IsText, Reads-u32}
use casacure.Aipsio.Reads.Objects.{object_at, Reads-string, ReadsFrom-object_start}
use casacure.Aipsio.Run.{Reads-run, Writes-run}
use casacure.Aipsio.Writer.{put_u32, put_string, writer_for}
use casacure.Aipsio.Writes.{Writes, Writes-seq, Writes-u32, Writes-string, Writes-root_object}
use casacure.Columnset.{ColumnSetError, aips_io, StandardStMan}
use casacure.Columnset.Parse.{
  expect_block, read_block_u32, expect_ssm, read_standard_stman, parse_standard_stman,
}
use casacure.Columnset.Write.{write_block_u32, put_standard_stman, write_standard_stman}

-- A specification whose words and counts fit 32 bits.
pub record SpecFits (spec : StandardStMan) : Type 0 where
  pub name : IsText spec.data_manager_name
  pub offsets : All IsU32 spec.column_offset
  pub offset_count : length spec.column_offset < 2 ^ 32
  pub indices : All IsU32 spec.col_index_map
  pub index_count : length spec.col_index_map < 2 ^ 32

Reads-block :
    (little : Bool) (xs : List ℕ)
    → All IsU32 xs
    → length xs < 2 ^ 32
    → Reads little read_block_u32 (block_bytes little (to_bytes little 4) xs) xs
unfolding read_block_u32 block_bytes object_bytes magic_bytes elements_bytes
Reads-block little xs all few =
    Reads-from (lift aips_io (read_object_start false)) _ _ _ _ xs
      (ReadsFrom-lift aips_io _ _ _
        (ReadsFrom-object_start little false (codes "Block") 1 _ Block-IsText (omega arith)))
      (λ p.
        Reads-bind (expect_block (object_at (codes "Block") 1 0 p)) _ [] _ tt xs
          (unfold expect_block in rw (bytes_eq_refl (codes "Block")) (Reads-pure tt))
          (Reads-bind (lift aips_io read_u32) _ _ _ (length xs % 2 ^ 32) xs
            (Reads-lift aips_io read_u32 _ _ (Reads-u32 little _ (omega arith)))
            (rw fits (
              Reads-lift aips_io _ _ xs
                (Reads-repeat read_u32 _ IsU32 (Reads-u32 little) xs all)))))
  where
    fits : length xs % 2 ^ 32 ≡ length xs
    fits = omega arith

spec_bytes : Bool → StandardStMan → List ℕ
spec_bytes little spec =
    text_bytes little spec.data_manager_name
    ++ (block_bytes little (to_bytes little 4) spec.column_offset
        ++ block_bytes little (to_bytes little 4) spec.col_index_map)

blob_bytes : StandardStMan → List ℕ
unfolding spec_bytes
blob_bytes spec =
    magic_bytes false true ++ object_bytes false (codes "SSM") 2 (spec_bytes false spec)

Writes-spec :
    (spec : StandardStMan) → Writes false (put_standard_stman spec) (spec_bytes false spec)
unfolding put_standard_stman spec_bytes write_block_u32
Writes-spec spec = Writes-seq (put_string spec.data_manager_name) _ _ _ (Writes-string _) (
    Writes-seq (write_block_u32 spec.column_offset) (write_block_u32 spec.col_index_map) _ _
      (Writes-block put_u32 _ Writes-u32 spec.column_offset)
      (Writes-block put_u32 _ Writes-u32 spec.col_index_map))

ssm-IsText : IsText (codes "SSM")
unfolding is_utf8
ssm-IsText = record { utf8 = refl; short = omega arith }

Reads-spec :
    (type_name : List ℕ) (spec : StandardStMan)
    → SpecFits spec
    → Reads false (read_standard_stman type_name) (blob_bytes spec) spec
unfolding read_standard_stman blob_bytes spec_bytes object_bytes
Reads-spec type_name spec h = rw (← append_assoc (magic_bytes false true)) (
    Reads-from (lift aips_io (read_object_start true)) _ _ _ _ spec
      (ReadsFrom-lift aips_io _ _ _
        (ReadsFrom-object_start false true (codes "SSM") 2 _ ssm-IsText (omega arith)))
      (λ p.
        Reads-bind (expect_ssm type_name (object_at (codes "SSM") 2 0 p)) _ [] _ tt spec
          (unfold expect_ssm in rw (bytes_eq_refl (codes "SSM")) (Reads-pure tt))
          (Reads-bind (lift aips_io read_string) _ _ _ spec.data_manager_name spec
            (Reads-lift aips_io read_string _ _ (Reads-string false _ h.name))
            (Reads-bind read_block_u32 _ _ _ spec.column_offset spec
              (Reads-block false spec.column_offset h.offsets h.offset_count)
              (Reads-return read_block_u32 _ _ spec.col_index_map
                (Reads-block false spec.col_index_map h.indices h.index_count))))))

specified : Result ColumnSetError StandardStMan × Reader → Result ColumnSetError StandardStMan
specified r = r.0

-- A specification that fits is written as a blob and parsed back from every blob that begins with
-- those bytes.
pub parse_standard_stman-write :
    (type_name : List ℕ) (spec : StandardStMan)
    → SpecFits spec
    → (bytes : List ℕ) × (write_standard_stman spec ≡ some bytes)
      × ((rest : List ℕ) → parse_standard_stman (bytes ++ rest) type_name ≡ ok spec)
unfolding parse_standard_stman write_standard_stman writer_for reader_for specified blob_bytes
parse_standard_stman-write type_name spec h = (
  blob_bytes spec,
  Writes-run true _ _
      (Writes-root_object (codes "SSM") 2 (put_standard_stman spec) _ (Writes-spec spec)),
  λ rest. ap specified (
      Reads-run true (read_standard_stman type_name) (blob_bytes spec) rest spec
        (Reads-spec type_name spec h)),
)
