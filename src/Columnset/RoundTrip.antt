-- ===== src/Columnset/RoundTrip.antt =====
-- The payload of crates/casacure/src/columnset.rs that follows the description in `table.dat`,
-- written and parsed.
use casacure.Prelude.{
  ℕ, ◌%◌, ◌^◌, ◌<◌, ◌≡◌, sym, subst, ap, Bool, true, not, List, [], ◌∷◌, ◌++◌, append-nil, some,
  none, Option, arith, length, map,
}
use casacure.Prelude.Int.{ℤ, negsuc}
use casacure.Result.{Result, ok}
use casacure.Aipsio.Encoding.{text_bytes}
use casacure.Aipsio.Reader.{
  Reader, ◌>>=◌, pure, lift, repeat, read_u32, read_i32, read_string, read_bool, read_opaque,
  read_iposition, reader_for,
}
use casacure.Aipsio.Reads.{
  Reads, Reads-pure, Reads-bind, Reads-lift, Reads-return, Reads-bytes, concat_bytes, All,
}
use casacure.Aipsio.Reads.Words.{IsText, Reads-u32, Reads-i32}
use casacure.Aipsio.Reads.Objects.{Reads-string, Reads-bool, Reads-opaque}
use casacure.Aipsio.Run.{Reads-run, Writes-run}
use casacure.Aipsio.Writer.{writer_for, into_bytes}
use casacure.Records.Iposition.{IsShape, Reads-iposition}
use casacure.Records.Write.{or_empty}
use casacure.Tabledesc.{ColumnDesc, ColumnKind, scalar, array, of_records}
use casacure.Columnset.{ColumnSetError, aips_io, unsupported, DataManager, ColumnSet, DmBlob}
use casacure.Columnset.Parse.{
  read_version, read_storage_option, read_manager, check_column_version, read_shape_column,
  read_column, read_columns, return_blob, read_blob, read_blobs, parse_column_set,
}
use casacure.Columnset.Write.{write_multi_column_set}
use casacure.Columnset.Written.{
  BindingFits, ManagerFits, Decodes, DecodesAll, info_shape, info, descs_of, word, manager_bytes,
  binding_bytes, column_bytes, set_bytes, Writes-set,
}

module _ (little : Bool) where
  Reads-word : (v : ℕ) → v < 2 ^ 32 → Reads little (lift aips_io read_u32) (word little v) v
  unfolding word
  Reads-word v h = Reads-lift aips_io read_u32 _ v (Reads-u32 little v h)

  Reads-text :
      (s : List ℕ) → IsText s → Reads little (lift aips_io read_string) (text_bytes little s) s
  Reads-text s h = Reads-lift aips_io read_string _ s (Reads-string little s h)

  -- A manager whose blob is still to be read.
  fresh : DmBlob → DataManager
  fresh dm = record {
    type_name = dm.type_name;
    sequence_nr = dm.sequence_nr;
    blob = unsupported [];
  }

  Reads-managers :
      (dms : List DmBlob)
      → All ManagerFits dms
      → Reads little
          (repeat (length dms) read_manager)
          (concat_bytes (manager_bytes little) dms)
          (map fresh dms)
  unfolding repeat concat_bytes manager_bytes read_manager fresh
  Reads-managers [] h = Reads-pure []
  Reads-managers (dm ∷ dms) (h, hs) =
      Reads-bind read_manager _ _ _ (fresh dm) _
        (Reads-bind (lift aips_io read_string) _ _ _ dm.type_name _ (Reads-text _ h.type_name)
          (Reads-return (lift aips_io read_u32) _ _ dm.sequence_nr (Reads-word _ h.sequence_nr)))
        (Reads-return (repeat (length dms) read_manager) (λ rest. fresh dm ∷ rest) _ (map fresh dms)
          (Reads-managers dms hs))

  Reads-shape :
      (shape : Option (List ℤ)) (kind : ColumnKind)
      → IsShape (or_empty shape)
      → Reads little
          (read_shape_column kind)
          (binding_bytes little shape kind)
          (info_shape shape kind)
  unfolding read_shape_column binding_bytes info_shape
  Reads-shape shape array h =
      Reads-bind (lift aips_io read_bool) _ (1 ∷ []) _ true _
        (Reads-lift aips_io read_bool _ true (Reads-bool little true))
        (Reads-return (lift aips_io read_iposition) some _ (or_empty shape)
          (Reads-lift aips_io _ _ _ (Reads-iposition little (or_empty shape) h)))
  Reads-shape shape (scalar v) h = Reads-pure none
  Reads-shape shape of_records h = Reads-pure none

  Reads-column :
      (desc : ColumnDesc) (seq : ℕ)
      → BindingFits (desc, seq)
      → Reads little (read_column desc) (column_bytes little (desc, seq)) (info (desc, seq))
  unfolding read_column column_bytes info check_column_version
  Reads-column desc seq h =
      Reads-bind (lift aips_io read_u32) _ _ _ 2 _ (Reads-word 2 (omega arith)) (
        Reads-bind (check_column_version 2) _ [] _ tt _ (Reads-pure tt) (
          Reads-bind (lift aips_io read_string) _ _ _ desc.name _ (Reads-text _ h.name) (
            Reads-bind (lift aips_io read_u32) _ _ _ 1 _ (Reads-word 1 (omega arith)) (
              Reads-bind (lift aips_io read_u32) _ _ _ seq _ (Reads-word seq h.seq) (
                Reads-return (read_shape_column desc.kind) _ _ (info_shape desc.shape desc.kind)
                  (Reads-shape desc.shape desc.kind h.shape))))))

  Reads-columns :
      (cs : List (ColumnDesc × ℕ))
      → All BindingFits cs
      → Reads little
          (read_columns (descs_of cs))
          (concat_bytes (column_bytes little) cs)
          (map info cs)
  unfolding read_columns concat_bytes descs_of
  Reads-columns [] h = Reads-pure []
  Reads-columns ((desc, seq) ∷ cs) (h, hs) =
      Reads-bind (read_column desc) _ _ _ (info (desc, seq)) _ (Reads-column desc seq h) (
        Reads-return (read_columns (descs_of cs)) (λ rest. info (desc, seq) ∷ rest) _ (map info cs)
          (Reads-columns cs hs))

  decoded : (dm : DmBlob) (m : DataManager) → Decodes dm m → record (fresh dm) { blob = m.blob } ≡ m
  unfolding fresh
  decoded dm m h = λ i. record {
    type_name = sym h.type_name i;
    sequence_nr = sym h.sequence_nr i;
    blob = m.blob;
  }

  Reads-blob :
      (dm : DmBlob) (m : DataManager)
      → ManagerFits dm
      → Decodes dm m
      → Reads little (read_blob (fresh dm)) (text_bytes little dm.blob) m
  unfolding read_blob fresh return_blob ◌>>=◌ pure
  Reads-blob dm m fit h = Reads-bytes _ m (append-nil _) (
      Reads-bind (lift aips_io read_opaque) _ _ [] dm.blob m
        (Reads-lift aips_io read_opaque _ _ (Reads-opaque little dm.blob fit.size))
        (rw h.blob (
          subst
            (λ r.
              Reads little (pure {E = ColumnSetError} (record (fresh dm) { blob = m.blob })) [] r)
            (decoded dm m h) (Reads-pure (record (fresh dm) { blob = m.blob })))))

  Reads-blobs :
      (dms : List DmBlob) (ms : List DataManager)
      → All ManagerFits dms
      → DecodesAll dms ms
      → Reads little
          (read_blobs (map fresh dms))
          (concat_bytes (λ dm. text_bytes little dm.blob) dms)
          ms
  unfolding read_blobs concat_bytes DecodesAll
  Reads-blobs [] [] fits h = Reads-pure []
  Reads-blobs [] (m ∷ ms) fits h = absurd h
  Reads-blobs (dm ∷ dms) [] fits h = absurd h
  Reads-blobs (dm ∷ dms) (m ∷ ms) (fit, fits) (h, hs) =
      Reads-bind (read_blob (fresh dm)) _ _ _ m _ (Reads-blob dm m fit h) (
        Reads-return (read_blobs (map fresh dms)) (λ rest. m ∷ rest) _ ms
          (Reads-blobs dms ms fits hs))

  Reads-set :
      (nrow seq_count : ℕ) (dms : List DmBlob) (ms : List DataManager) (cs : List (ColumnDesc × ℕ))
      → nrow < 2 ^ 32
      → seq_count < 2 ^ 32
      → length dms < 2 ^ 32
      → All ManagerFits dms
      → DecodesAll dms ms
      → All BindingFits cs
      → Reads little
          (parse_column_set (descs_of cs))
          (set_bytes little nrow seq_count dms cs)
          (record {
            version = 2;
            nrow = nrow;
            storage_option = none;
            seq_count = seq_count;
            data_managers = ms;
            columns = map info cs;
          })
  unfolding parse_column_set set_bytes read_version read_storage_option
  Reads-set nrow seq_count dms ms cs hr hs few fits decodes bound =
      Reads-bind (lift aips_io read_i32) _ _ _ (negsuc 1) _
        (Reads-lift aips_io read_i32 _ _ (Reads-i32 little (negsuc 1) (omega arith)))
        (Reads-bind (read_version (negsuc 1)) _ _ _ (2, nrow) _
          (Reads-return (lift aips_io read_u32) (λ rows. (2, rows)) _ nrow (Reads-word nrow hr))
          (Reads-bind (read_storage_option 2) _ [] _ none _ (Reads-pure none) (
            Reads-bind (lift aips_io read_u32) _ _ _ seq_count _ (Reads-word seq_count hs) (
              Reads-bind (lift aips_io read_u32) _ _ _ (length dms % 2 ^ 32) _
                (Reads-word _ (omega arith))
                (rw fit_count (
                  Reads-bind (repeat (length dms) read_manager) _ _ _ (map fresh dms) _
                    (Reads-managers dms fits)
                    (Reads-bind (read_columns (descs_of cs)) _ _ _ (map info cs) _
                      (Reads-columns cs bound)
                      (Reads-return (read_blobs (map fresh dms)) _ _ ms
                        (Reads-blobs dms ms fits decodes)))))))))
    where
      fit_count : length dms % 2 ^ 32 ≡ length dms
      fit_count = omega arith

parsed : Result ColumnSetError ColumnSet × Reader → Result ColumnSetError ColumnSet
parsed r = r.0

-- A column set of fewer than 2 ^ 32 rows, managers and sequence numbers, with texts, shapes and blobs
-- that fit, is written in either byte order, and every stream that begins with those bytes is parsed,
-- for the same columns, as version 2 with the same counts, with each manager's blob decoded and each
-- column bound to its manager; every array column has a shape then, the empty one where it had none.
pub parse_column_set-write :
    (big : Bool) (nrow seq_count : ℕ) (dms : List DmBlob) (ms : List DataManager)
    (cs : List (ColumnDesc × ℕ))
    → nrow < 2 ^ 32
    → seq_count < 2 ^ 32
    → length dms < 2 ^ 32
    → All ManagerFits dms
    → DecodesAll dms ms
    → All BindingFits cs
    → (bytes : List ℕ) × (into_bytes (write_multi_column_set nrow seq_count dms cs) (writer_for big)
        ≡ some bytes)
      × ((rest : List ℕ)
          → (parse_column_set (descs_of cs) (reader_for big (bytes ++ rest))).0
            ≡ ok (record {
              version = 2;
              nrow = nrow;
              storage_option = none;
              seq_count = seq_count;
              data_managers = ms;
              columns = map info cs;
            }))
unfolding parsed
parse_column_set-write big nrow seq_count dms ms cs hr hs few fits decodes bound = (
  set_bytes (not big) nrow seq_count dms cs,
  Writes-run big _ _ (Writes-set (not big) nrow seq_count dms cs hr),
  λ rest. ap parsed (
      Reads-run big (parse_column_set (descs_of cs)) _ rest _
        (Reads-set (not big) nrow seq_count dms ms cs hr hs few fits decodes bound)),
)
