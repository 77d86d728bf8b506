-- ===== src/Lockfile/Sync.antt =====
-- `TableSyncData` of crates/casacure/src/lockfile.rs: the record in the lock file's info area.
pub mod RoundTrip
use casacure.Prelude.{
  ℕ, ◌-◌, ◌%◌, ◌^◌, Bool, true, false, not, List, [], Option, ltb, ◌==◌, if◌then◌else◌,
}
use casacure.Prelude.Int.{ℤ, is_negative}
use casacure.Result.{Result}
use casacure.Bytes.{codes}
use casacure.Aipsio.{AipsIoError}
use casacure.Aipsio.Block.{put_block, read_elements}
use casacure.Aipsio.Reader.{
  Read, new, pure, raise, lift, ◌>>=◌, read_u32, read_i32, read_u64, read_object,
}
use casacure.Aipsio.Writer
use casacure.Aipsio.Writer.{
  Write, ◌>>◌, done, put_u32, put_i32, put_u64, put_root_object_start, put_object_end, into_bytes,
}

-- The messages, as data.
pub data SyncError : Type 0 where
  sync_record sync_block field : AipsIoError → SyncError
  sync_version block_version : ℕ → SyncError

pub record TableSyncData : Type 0 where
  pub nrrow : ℕ
  pub nrcolumn : ℤ
  pub modify_counter : ℕ
  pub table_change_counter : ℕ
  pub dm_counters : List ℕ

unfoldable pub read_nrrow : ℕ → Read SyncError ℕ
read_nrrow version =
    if version == 1
    then lift field read_u32
    else if version == 2
    then lift field read_u64
    else raise (sync_version version)

unfoldable pub read_dm_counters : ℕ → Read SyncError (List ℕ)
read_dm_counters version =
    if version == 1
    then read_elements field (lift field read_u32)
    else raise (block_version version)

-- The counters of the long form; the short form has none.
unfoldable pub read_counters : Bool → Read SyncError (ℕ × List ℕ)
read_counters false = pure (0, [])
read_counters true = do
  tcc ← lift field read_u32
  obj ← lift sync_block (read_object false (codes "Block"))
  counters ← read_dm_counters obj.0
  pure (tcc, counters)

unfoldable pub read_sync : Read SyncError TableSyncData
read_sync = do
  obj ← lift sync_record (read_object true (codes "sync"))
  nrrow ← read_nrrow obj.0
  nrcolumn ← lift field read_i32
  modify_counter ← lift field read_u32
  counters ← read_counters (not (is_negative nrcolumn))
  pure (record {
    nrrow = nrrow;
    nrcolumn = nrcolumn;
    modify_counter = modify_counter;
    table_change_counter = counters.0;
    dm_counters = counters.1;
  })

unfoldable pub parse : List ℕ → Result SyncError TableSyncData
parse info = (read_sync (new info)).0

-- The form that is written: the row count takes 64 bits only where 32 do not do.
unfoldable pub version : TableSyncData → ℕ
version d = if ltb (2 ^ 32 - 1) d.nrrow then 2 else 1

unfoldable pub put_nrrow : ℕ → ℕ → Write
put_nrrow v nrrow = if v == 1 then put_u32 (nrrow % 2 ^ 32) else put_u64 nrrow

unfoldable pub put_counters : Bool → ℕ → List ℕ → Write
put_counters false tcc counters = done
put_counters true tcc counters = do put_u32 tcc; put_block put_u32 counters

unfoldable pub put_fields : TableSyncData → Write
put_fields d = do
  put_nrrow (version d) d.nrrow
  put_i32 d.nrcolumn
  put_u32 d.modify_counter
  put_counters (not (is_negative d.nrcolumn)) d.table_change_counter d.dm_counters

unfoldable pub to_bytes : TableSyncData → Option (List ℕ)
to_bytes d =
    into_bytes (do put_root_object_start (codes "sync") (version d); put_fields d; put_object_end)
      Writer.new
