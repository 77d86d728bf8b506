-- ===== src/Tests/Locks.antt =====
-- The locks of crates/casacure/src/lockfile.rs at concrete inputs: a kernel with a rival process, a
-- sync record and a lock file.
use casacure.Prelude.{
  ℕ, ◌≡◌, refl, inr, Bool, true, false, List, [], ◌∷◌, Option, none, some, arith, replicate,
}
use casacure.Prelude.Int.{pos}
use casacure.Result.{ok}
use casacure.Bytes.{to_bytes, to_le_bytes}
use casacure.Aipsio.Block.{put_block, put_elements}
use casacure.Aipsio.Writer.{writer}
use casacure.Lockfile.Sync
use casacure.Lockfile.Sync.{TableSyncData}
use casacure.Lockfile.Sync.RoundTrip.{IsValid, stored, parse-to_bytes}
use casacure.Lockfile.Requests.{put_info, get_info, nr_req_id, size_req_id}
use casacure.Lockfile.Requests.Info.{get_info-put_info, nr_req_id-put_info}
use casacure.Lockfile.Fcntl.{
  Fcntl, Honest, Answers, Notes, owned, LockType, read, write, Kind, lock, unlock, Region, main,
  in_use, Reply, granted, busy,
}
use casacure.Lockfile.File.{LockFile, Process}
use casacure.Lockfile.File.Agrees.{Sound}
use casacure.Lockfile.File.Runs.{
  Call, acquires, releases_read, releases_write, run_all, run_all-Sound,
}

-- What this process holds on the main byte and on the byte of the files in use, and whether another
-- process stands in the way.
record Locks : Type 0 where
  main_byte : Option LockType
  used_byte : Option LockType
  rival : Bool
  refused : Bool

abbrev held_on : Region → Locks → Option LockType
held_on main k = k.main_byte
held_on in_use k = k.used_byte

abbrev changed : Region → Kind → Locks → Locks
changed main kind k = record k { main_byte = owned kind }
changed in_use kind k = record k { used_byte = owned kind }

-- A rival keeps this process from every lock.
abbrev answer : Bool → Region → Kind → Locks → Reply × Locks
answer true r (lock t) k = (busy, k)
answer true r unlock k = (granted, changed r unlock k)
answer false r kind k = (granted, changed r kind k)

abbrev small_kernel : Fcntl
small_kernel = record {
  Kernel = Locks;
  set_lock = λ r kind k. answer k.rival r kind k;
  set_lock_wait = λ r kind k. answer false r kind k;
  write_file = λ old new k. (ok tt, new, k);
  enolck = λ k. k.refused;
  owns = held_on;
}

changed-held_on : (r : Region) (kind : Kind) (k : Locks) → held_on r (changed r kind k) ≡ owned kind
changed-held_on main kind k = refl
changed-held_on in_use kind k = refl

answer-Answers :
    (b : Bool) (r : Region) (kind : Kind) (k : Locks)
    → Answers (held_on r k) (held_on r (answer b r kind k).1) kind (answer b r kind k).0
answer-Answers true r (lock t) k = refl
answer-Answers true r unlock k = changed-held_on r unlock k
answer-Answers false r kind k = changed-held_on r kind k

changed-refused : (r : Region) (kind : Kind) (k : Locks) → (changed r kind k).refused ≡ k.refused
changed-refused main kind k = refl
changed-refused in_use kind k = refl

answer-Notes :
    (b : Bool) (r : Region) (kind : Kind) (k : Locks)
    → Notes k.refused (answer b r kind k).1.refused (answer b r kind k).0
answer-Notes true r (lock t) k = refl
answer-Notes true r unlock k = changed-refused r unlock k
answer-Notes false r kind k = changed-refused r kind k

small_kernel-Honest : Honest small_kernel
small_kernel-Honest = record {
  set = λ r kind k. answer-Answers k.rival r kind k;
  wait = λ r kind k. answer-Answers false r kind k;
  set_notes = λ r kind k. answer-Notes k.rival r kind k;
  wait_notes = λ r kind k. answer-Notes false r kind k;
  write_owns = λ r old new k. refl;
  write_enolck = λ old new k. refl;
}

abbrev this_process : Process
this_process = record { id = pos 77; gone = λ pid. false }

abbrev fresh_lock : LockFile
fresh_lock = record {
  file = replicate size_req_id 0;
  read_only_fd = false;
  missing = false;
  interval = 0;
  inspect_count = 0;
  last_inspect = none;
  held = none;
}

abbrev alone : Locks
alone = record { main_byte = none; used_byte = none; rival = false; refused = false }

abbrev sync : TableSyncData
sync = record {
  nrrow = 5;
  nrcolumn = pos 2;
  modify_counter = 3;
  table_change_counter = 1;
  dm_counters = 7 ∷ [];
}

sync-IsValid : IsValid sync
sync-IsValid = record {
  nrrow = omega arith;
  nrcolumn = omega arith;
  modify_counter = omega arith;
  table_change_counter = omega arith;
  dm_counters = (omega arith, tt);
  short = omega arith;
}

abbrev calls : List Call
calls =
    acquires read 1
    ∷ releases_read
    ∷ acquires write 0
    ∷ acquires read 2
    ∷ releases_write (some sync)
    ∷ []

run_all-Sound_example :
    Sound small_kernel
      (run_all small_kernel this_process calls (fresh_lock, alone)).0
      (run_all small_kernel this_process calls (fresh_lock, alone)).1
run_all-Sound_example =
    run_all-Sound small_kernel this_process small_kernel-Honest calls (fresh_lock, alone)
      (inr (inr (inr refl)))

parse-to_bytes_example :
    (bytes : List ℕ) × (Sync.to_bytes sync ≡ some bytes) × (Sync.parse bytes ≡ ok (stored sync))
parse-to_bytes_example = parse-to_bytes sync sync-IsValid

abbrev sync_stream : List ℕ
sync_stream =
    190 ∷ 190 ∷ 190 ∷ 190 ∷ 0 ∷ 0 ∷ 0 ∷ 57 ∷ 0 ∷ 0 ∷ 0 ∷ 4 ∷ 115 ∷ 121 ∷ 110 ∷ 99 ∷ 0 ∷ 0 ∷ 0 ∷ 1
    ∷ 0 ∷ 0 ∷ 0 ∷ 5 ∷ 0 ∷ 0 ∷ 0 ∷ 2 ∷ 0 ∷ 0 ∷ 0 ∷ 3 ∷ 0 ∷ 0 ∷ 0 ∷ 1 ∷ 0 ∷ 0 ∷ 0 ∷ 25 ∷ 0 ∷ 0 ∷ 0 ∷ 5
    ∷ 66 ∷ 108 ∷ 111 ∷ 99 ∷ 107 ∷ 0 ∷ 0 ∷ 0 ∷ 1 ∷ 0 ∷ 0 ∷ 0 ∷ 1 ∷ 0 ∷ 0 ∷ 0 ∷ 7 ∷ []

to_bytes-sync : Sync.to_bytes sync ≡ some sync_stream
unfolding Sync.to_bytes Sync.version Sync.put_fields Sync.put_nrrow Sync.put_counters put_block
    put_elements writer to_bytes to_le_bytes
to_bytes-sync = refl

get_info-put_info_example :
    (file : List ℕ) × (put_info sync [] ≡ some file) × (get_info file ≡ ok (some (stored sync)))
get_info-put_info_example =
    get_info-put_info sync [] sync_stream sync-IsValid to_bytes-sync (omega arith)

nr_req_id-put_info_example :
    (file : List ℕ) × (put_info sync (replicate size_req_id 0) ≡ some file)
    × (nr_req_id file ≡ nr_req_id (replicate size_req_id 0))
nr_req_id-put_info_example =
    nr_req_id-put_info sync (replicate size_req_id 0) sync_stream to_bytes-sync (omega arith)
