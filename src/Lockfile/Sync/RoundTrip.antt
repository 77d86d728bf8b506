-- ===== src/Lockfile/Sync/RoundTrip.antt =====
-- The sync record of crates/casacure/src/lockfile.rs, written and read back.
use casacure.Prelude.{
  ℕ, ◌%◌, ◌^◌, ◌<◌, ◌≡◌, refl, ap, Bool, true, false, not, List, [], ◌++◌, append-nil, append_assoc,
  some, inl, inr, Bool-cases, arith, ltb, length, if◌then◌else◌, ◌-◌,
}
use casacure.Prelude.Int.{is_negative, IsI32, as_u32}
use casacure.Result.{ok, Result}
use casacure.Bytes
use casacure.Bytes.{codes}
use casacure.Bytes.Utf8.{is_utf8}
use casacure.Aipsio.Encoding.{object_bytes, magic_bytes}
use casacure.Aipsio.Block.{put_block, block_bytes, Block-IsText, Writes-block, Reads-elements}
use casacure.Aipsio.Reader.{Reader, lift, read_u32, read_i32, read_u64, read_object, reader_for}
use casacure.Aipsio.Reads.{
  Reads, Reads-pure, Reads-bind, Reads-lift, Reads-return, Reads-from, ReadsFrom-lift, All,
}
use casacure.Aipsio.Reads.Words.{IsU32, IsU64, IsText, Reads-u32, Reads-u64, Reads-i32}
use casacure.Aipsio.Reads.Objects.{ReadsFrom-object}
use casacure.Aipsio.Run.{Reads-run, Writes-run}
use casacure.Aipsio.Writer.{put_u32, put_i32, writer_for}
use casacure.Aipsio.Writes.{
  Writes, Writes-seq, Writes-u32, Writes-u64, Writes-i32, Writes-done, Writes-root_object,
}
use casacure.Lockfile.Sync.{
  SyncError, TableSyncData, sync_record, sync_block, field, read_nrrow, read_dm_counters,
  read_counters, read_sync, parse, version, put_nrrow, put_counters, put_fields, to_bytes,
}

-- The ranges of the record's fields.
pub record IsValid (d : TableSyncData) : Type 0 where
  pub nrrow : IsU64 d.nrrow
  pub nrcolumn : IsI32 d.nrcolumn
  pub modify_counter : IsU32 d.modify_counter
  pub table_change_counter : IsU32 d.table_change_counter
  pub dm_counters : All IsU32 d.dm_counters
  pub short : length d.dm_counters < 2 ^ 32

-- What is left of the counters: the short form, which a negative column count marks, has none.
abbrev pub kept_counters : Bool → ℕ → List ℕ → ℕ × List ℕ
kept_counters true tcc counters = (tcc, counters)
kept_counters false tcc counters = (0, [])

abbrev pub stored : TableSyncData → TableSyncData
stored d =
    let kept = kept_counters (not (is_negative d.nrcolumn)) d.table_change_counter d.dm_counters in
    record d { table_change_counter = kept.0; dm_counters = kept.1 }

nrrow_bytes : Bool → ℕ → List ℕ
nrrow_bytes wide n = if wide then Bytes.to_bytes false 8 n else Bytes.to_bytes false 4 (n % 2 ^ 32)

counters_bytes : Bool → ℕ → List ℕ → List ℕ
counters_bytes true tcc counters =
    Bytes.to_bytes false 4 tcc ++ block_bytes false (Bytes.to_bytes false 4) counters
counters_bytes false tcc counters = []

fields_bytes : TableSyncData → List ℕ
fields_bytes d =
    nrrow_bytes (ltb (2 ^ 32 - 1) d.nrrow) d.nrrow
    ++ (Bytes.to_bytes false 4 (as_u32 d.nrcolumn)
        ++ (Bytes.to_bytes false 4 d.modify_counter
            ++ counters_bytes (not (is_negative d.nrcolumn)) d.table_change_counter d.dm_counters))

module _ (d : TableSyncData) where
  Writes-nrrow :
      Writes false (put_nrrow (version d) d.nrrow) (nrrow_bytes (ltb (2 ^ 32 - 1) d.nrrow) d.nrrow)
  unfolding put_nrrow version nrrow_bytes
  Writes-nrrow =
      elim (ltb (2 ^ 32 - 1) d.nrrow)
        as (λ wide.
          Writes false (put_nrrow (if wide then 2 else 1) d.nrrow) (nrrow_bytes wide d.nrrow)) [
            | true ↦ Writes-u64 d.nrrow
            | false ↦ Writes-u32 (d.nrrow % 2 ^ 32)
          ]

Writes-counters :
    (long : Bool) (tcc : ℕ) (counters : List ℕ)
    → Writes false (put_counters long tcc counters) (counters_bytes long tcc counters)
unfolding put_counters counters_bytes
Writes-counters true tcc counters =
    Writes-seq (put_u32 tcc) (put_block put_u32 counters) _ _ (Writes-u32 tcc)
      (Writes-block put_u32 (Bytes.to_bytes false 4) Writes-u32 counters)
Writes-counters false tcc counters = Writes-done

Writes-fields : (d : TableSyncData) → Writes false (put_fields d) (fields_bytes d)
unfolding put_fields fields_bytes
Writes-fields d = Writes-seq (put_nrrow (version d) d.nrrow) _ _ _ (Writes-nrrow d) (
    Writes-seq (put_i32 d.nrcolumn) _ _ _ (Writes-i32 d.nrcolumn) (
      Writes-seq (put_u32 d.modify_counter) _ _ _ (Writes-u32 d.modify_counter)
        (Writes-counters (not (is_negative d.nrcolumn)) d.table_change_counter d.dm_counters)))

Reads-nrrow :
    (n : ℕ)
    → IsU64 n
    → Reads false
        (read_nrrow (if ltb (2 ^ 32 - 1) n then 2 else 1))
        (nrrow_bytes (ltb (2 ^ 32 - 1) n) n)
        n
unfolding read_nrrow nrrow_bytes
Reads-nrrow n h = elim (Bool-cases (ltb (2 ^ 32 - 1) n)) [
  | inl wide ↦ rw wide (Reads-lift field read_u64 _ n (Reads-u64 false n h))
  | inr narrow ↦
      let fits : n % 2 ^ 32 ≡ n = ground arith in
      rw (narrow, fits) (Reads-lift field read_u32 _ n (Reads-u32 false n (ground arith)))
]

Reads-version :
    (d : TableSyncData)
    → IsU64 d.nrrow
    → Reads false (read_nrrow (version d)) (nrrow_bytes (ltb (2 ^ 32 - 1) d.nrrow) d.nrrow) d.nrrow
unfolding version
Reads-version d h = Reads-nrrow d.nrrow h

Reads-counters :
    (long : Bool) (tcc : ℕ) (counters : List ℕ)
    → IsU32 tcc
    → All IsU32 counters
    → length counters < 2 ^ 32
    → Reads false
        (read_counters long)
        (counters_bytes long tcc counters)
        (kept_counters long tcc counters)
unfolding read_counters counters_bytes read_dm_counters block_bytes object_bytes magic_bytes
Reads-counters false tcc counters ht hc hs = Reads-pure (0, [])
Reads-counters true tcc counters ht hc hs =
    Reads-bind (lift field read_u32) _ _ _ tcc _
      (Reads-lift field read_u32 _ tcc (Reads-u32 false tcc ht))
      (Reads-from (lift sync_block (read_object false (codes "Block"))) _ _ _ _ _
        (ReadsFrom-lift sync_block _ _ _
          (ReadsFrom-object false false (codes "Block") 1 _ Block-IsText (omega arith)))
        (λ p. Reads-return _ _ _ counters (
          Reads-elements field (lift field read_u32) (Bytes.to_bytes false 4) IsU32
            (λ c h. Reads-lift field read_u32 _ c (Reads-u32 false c h)) counters hc hs)))

sync-IsText : IsText (codes "sync")
unfolding is_utf8
sync-IsText = record { utf8 = refl; short = omega arith }

version-IsU32 : (d : TableSyncData) → IsU32 (version d)
unfolding version
version-IsU32 d = ground arith

Reads-sync :
    (d : TableSyncData)
    → IsValid d
    → Reads false read_sync
        (magic_bytes false true ++ object_bytes false (codes "sync") (version d) (fields_bytes d))
        (stored d)
unfolding read_sync fields_bytes object_bytes
Reads-sync d h = rw (← append_assoc (magic_bytes false true)) (
    Reads-from (lift sync_record (read_object true (codes "sync"))) _ _ (fields_bytes d) _
      (stored d)
      (ReadsFrom-lift sync_record _ _ _
        (ReadsFrom-object false true (codes "sync") (version d) _ sync-IsText (version-IsU32 d)))
      (λ p. Reads-bind (read_nrrow (version d)) _ _ _ d.nrrow _ (Reads-version d h.nrrow) (
        Reads-bind (lift field read_i32) _ _ _ d.nrcolumn _
          (Reads-lift field read_i32 _ _ (Reads-i32 false d.nrcolumn h.nrcolumn))
          (Reads-bind (lift field read_u32) _ _ _ d.modify_counter _
            (Reads-lift field read_u32 _ _ (Reads-u32 false _ h.modify_counter))
            (Reads-return (read_counters (not (is_negative d.nrcolumn))) _ _ _ (
              Reads-counters (not (is_negative d.nrcolumn)) d.table_change_counter d.dm_counters
                h.table_change_counter h.dm_counters h.short))))))

sync_bytes : TableSyncData → List ℕ
sync_bytes d =
    magic_bytes false true ++ object_bytes false (codes "sync") (version d) (fields_bytes d)

to_bytes-sync_bytes : (d : TableSyncData) → to_bytes d ≡ some (sync_bytes d)
unfolding to_bytes sync_bytes writer_for
to_bytes-sync_bytes d = Writes-run true _ _ (
    Writes-root_object (codes "sync") (version d) (put_fields d) (fields_bytes d) (Writes-fields d))

parse-sync_bytes : (d : TableSyncData) → IsValid d → parse (sync_bytes d) ≡ ok (stored d)
unfolding parse sync_bytes reader_for
parse-sync_bytes d h =
    ap (λ (r : Result SyncError TableSyncData × Reader). r.0)
      (rw append-nil at (Reads-run true read_sync (sync_bytes d) [] (stored d) (Reads-sync d h)))

-- Every sync record whose fields are in range is serialized, in the narrow or the wide form, and
-- the stream is parsed back as the record itself; of a record with a negative column count, which
-- takes the short form, the change counters are dropped.
pub parse-to_bytes :
    (d : TableSyncData)
    → IsValid d
    → (bytes : List ℕ) × (to_bytes d ≡ some bytes) × (parse bytes ≡ ok (stored d))
parse-to_bytes d h = (sync_bytes d, to_bytes-sync_bytes d, parse-sync_bytes d h)
