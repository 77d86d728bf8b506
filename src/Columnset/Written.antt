-- ===== src/Columnset/Written.antt =====
-- The payload of crates/casacure/src/columnset.rs that follows the description in `table.dat`,
-- as it is
-- written, and what it tells.
use casacure.Prelude.{
  ℕ, ◌%◌, ◌^◌, ◌<◌, ◌≡◌, Bool, true, List, [], ◌∷◌, ◌++◌, append-nil, some, none, Option, length,
  lt→ltb,
}
use casacure.Prelude.Int.{ℤ, negsuc, as_u32}
use casacure.Result.{ok}
use casacure.Bytes.{to_bytes}
use casacure.Aipsio.Encoding.{text_bytes}
use casacure.Aipsio.Reads.{concat_bytes}
use casacure.Aipsio.Reads.Words.{IsU32, IsText}
use casacure.Aipsio.Writer.{put_u32, put_i32, put_bool, put_string, for_each}
use casacure.Aipsio.Writes.{
  Writes, Writes-seq, Writes-u32, Writes-i32, Writes-bool, Writes-string, Writes-opaque,
  Writes-for_each,
}
use casacure.Records.Iposition.{IsShape, iposition_bytes, Writes-iposition}
use casacure.Records.Write.{or_empty}
use casacure.Records.Arrays.Writer.{write_iposition}
use casacure.Tabledesc.{ColumnDesc, ColumnKind, scalar, array, of_records}
use casacure.Columnset.{ColumnInfo, DataManager, DmBlob}
use casacure.Columnset.Parse.{decode_blob}
use casacure.Columnset.Write.{
  put_row_count, put_manager, put_binding, put_column, put_blob, write_multi_column_set,
}

-- A column and the number of its data manager, which fit.
pub record BindingFits (c : ColumnDesc × ℕ) : Type 0 where
  pub name : IsText c.0.name
  pub seq : IsU32 c.1
  pub shape : IsShape (or_empty c.0.shape)

pub record ManagerFits (dm : DmBlob) : Type 0 where
  pub type_name : IsText dm.type_name
  pub sequence_nr : IsU32 dm.sequence_nr
  pub size : length dm.blob < 2 ^ 32

-- The manager `m` is that of `dm` with its blob decoded.
pub record Decodes (dm : DmBlob) (m : DataManager) : Type 0 where
  pub type_name : m.type_name ≡ dm.type_name
  pub sequence_nr : m.sequence_nr ≡ dm.sequence_nr
  pub blob : decode_blob dm.type_name dm.blob ≡ ok m.blob

unfoldable pub DecodesAll : List DmBlob → List DataManager → Type 0
DecodesAll [] [] = Unit
DecodesAll [] (m ∷ ms) = ⊥
DecodesAll (dm ∷ dms) [] = ⊥
DecodesAll (dm ∷ dms) (m ∷ ms) = Decodes dm m × DecodesAll dms ms

-- What is stored of a column: every array column has a shape, an empty one where it has none.
unfoldable pub info_shape : Option (List ℤ) → ColumnKind → Option (List ℤ)
info_shape shape array = some (or_empty shape)
info_shape shape kind = none

unfoldable pub info : ColumnDesc × ℕ → ColumnInfo
unfolding info_shape
info (desc, seq) = record {
  original_name = desc.name;
  data_manager_seq = seq;
  shape = info_shape desc.shape desc.kind;
}

unfoldable pub descs_of : List (ColumnDesc × ℕ) → List ColumnDesc
descs_of [] = []
descs_of ((desc, seq) ∷ cs) = desc ∷ descs_of cs

module _ (little : Bool) where
  unfoldable pub word : ℕ → List ℕ
  word v = to_bytes little 4 v

  unfoldable pub manager_bytes : DmBlob → List ℕ
  unfolding word
  manager_bytes dm = text_bytes little dm.type_name ++ word dm.sequence_nr

  unfoldable pub binding_bytes : Option (List ℤ) → ColumnKind → List ℕ
  binding_bytes shape array = (1 ∷ []) ++ iposition_bytes little (or_empty shape)
  binding_bytes shape kind = []

  unfoldable pub column_bytes : ColumnDesc × ℕ → List ℕ
  unfolding word binding_bytes
  column_bytes (desc, seq) =
      word 2
      ++ (text_bytes little desc.name
          ++ (word 1 ++ (word seq ++ binding_bytes desc.shape desc.kind)))

  unfoldable pub set_bytes : ℕ → ℕ → List DmBlob → List (ColumnDesc × ℕ) → List ℕ
  unfolding word
  set_bytes nrow seq_count dms columns =
      to_bytes little 4 (as_u32 (negsuc 1))
      ++ (word nrow
          ++ (word seq_count
              ++ (word (length dms % 2 ^ 32)
                  ++ (concat_bytes manager_bytes dms
                      ++ (concat_bytes column_bytes columns
                          ++ concat_bytes (λ dm. text_bytes little dm.blob) dms)))))

  Writes-manager : (dm : DmBlob) → Writes little (put_manager dm) (manager_bytes dm)
  unfolding put_manager manager_bytes
  Writes-manager dm = Writes-seq (put_string dm.type_name) _ _ _ (Writes-string _) (Writes-u32 _)

  Writes-binding :
      (desc : ColumnDesc) (seq : ℕ) (kind : ColumnKind)
      → Writes little
          (put_binding desc seq kind)
          (word 1 ++ (word seq ++ binding_bytes desc.shape kind))
  unfolding put_binding word binding_bytes
  Writes-binding desc seq array = Writes-seq (put_u32 1) _ _ _ (Writes-u32 1) (
      Writes-seq (put_u32 seq) _ _ _ (Writes-u32 seq) (
        Writes-seq (put_bool true) (write_iposition (or_empty desc.shape)) _ _ (Writes-bool true)
          (Writes-iposition little (or_empty desc.shape))))
  Writes-binding desc seq (scalar v) =
      rw append-nil (Writes-seq (put_u32 1) (put_u32 seq) _ _ (Writes-u32 1) (Writes-u32 seq))
  Writes-binding desc seq of_records =
      rw append-nil (Writes-seq (put_u32 1) (put_u32 seq) _ _ (Writes-u32 1) (Writes-u32 seq))

  Writes-column : (c : ColumnDesc × ℕ) → Writes little (put_column c) (column_bytes c)
  unfolding put_column column_bytes word
  Writes-column (desc, seq) = Writes-seq (put_u32 2) _ _ _ (Writes-u32 2) (
      Writes-seq (put_string desc.name) _ _ _ (Writes-string _) (Writes-binding desc seq desc.kind))

  Writes-rows : (nrow : ℕ) → nrow < 2 ^ 32 → Writes little (put_row_count nrow) (word nrow)
  unfolding put_row_count word
  Writes-rows nrow h = rw (lt→ltb nrow (2 ^ 32) h) (Writes-u32 nrow)

  pub Writes-set :
      (nrow seq_count : ℕ) (dms : List DmBlob) (columns : List (ColumnDesc × ℕ))
      → nrow < 2 ^ 32
      → Writes little
          (write_multi_column_set nrow seq_count dms columns)
          (set_bytes nrow seq_count dms columns)
  unfolding write_multi_column_set set_bytes put_blob word
  Writes-set nrow seq_count dms columns h =
      Writes-seq (put_i32 (negsuc 1)) _ _ _ (Writes-i32 (negsuc 1)) (
        Writes-seq (put_row_count nrow) _ _ _ (Writes-rows nrow h) (
          Writes-seq (put_u32 seq_count) _ _ _ (Writes-u32 seq_count) (
            Writes-seq (put_u32 (length dms % 2 ^ 32)) _ _ _ (Writes-u32 _) (
              Writes-seq (for_each put_manager dms) _ _ _
                (Writes-for_each put_manager manager_bytes Writes-manager dms)
                (Writes-seq (for_each put_column columns) _ _ _
                  (Writes-for_each put_column column_bytes Writes-column columns)
                  (Writes-for_each put_blob _ (λ dm. Writes-opaque dm.blob) dms))))))
