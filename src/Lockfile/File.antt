-- ===== src/Lockfile/File.antt =====
-- `LockFile` of crates/casacure/src/lockfile.rs: the state of one `table.lock` that a process
-- shares, and its locking methods. The bytes of the file are `Requests`; `Agrees` relates the
-- state to the kernel's locks.
pub mod Agrees
pub mod Runs
use casacure.Prelude.{
  ℕ, suc, ◌+◌, ◌-◌, ◌*◌, Bool, true, false, not, ◌&&◌, ◌||◌, List, Option, none, some, ltb, leb,
  ◌==◌, if◌then◌else◌,
}
use casacure.Prelude.Int.{ℤ}
use casacure.Result.{Result, ok, err}
use casacure.Lockfile.Fcntl
use casacure.Lockfile.Fcntl.{Fcntl, LockType, read, write, Region, main, in_use}
use casacure.Lockfile.Requests
use casacure.Lockfile.Sync.{SyncError, TableSyncData}

-- `last_inspect` is a time in nanoseconds, `interval` counts seconds; `file` is what the file descriptor reads and writes.
pub record LockFile : Type 0 where
  pub file : List ℕ
  pub read_only_fd : Bool
  pub missing : Bool
  pub interval : ℕ
  pub inspect_count : ℕ
  pub last_inspect : Option ℕ
  pub held : Option LockType

abbrev pub is_write : Option LockType → Bool
is_write (some write) = true
is_write _ = false

abbrev pub is_read : Option LockType → Bool
is_read (some read) = true
is_read _ = false

abbrev pub same_type : Option LockType → LockType → Bool
same_type none t = false
same_type (some read) read = true
same_type (some read) write = false
same_type (some write) read = false
same_type (some write) write = true

-- The process: its number and which others are gone.
pub record Process : Type 0 where
  pub id : ℤ
  pub gone : ℤ → Bool

unfoldable pub with_request : Process → LockFile → LockFile
with_request p lf =
    if lf.missing || lf.read_only_fd
    then lf
    else record lf { file = Requests.add_req_id p.id lf.file }

unfoldable pub without_request : Process → LockFile → LockFile
without_request p lf =
    if lf.missing || lf.read_only_fd
    then lf
    else record lf { file = Requests.remove_req_id p.gone p.id lf.file }

module _ (os : Fcntl) where
  open os use {Kernel, write_file}

  -- A method acts on the shared state and on the kernel.
  abbrev pub Method : Type 0 → Type 0
  Method A = LockFile → Kernel → Result ℕ A × LockFile × Kernel

  -- The end of `acquire`: what was got is held.
  abbrev pub settle : LockType → Result ℕ Bool → Method Bool
  settle t (ok true) lf k = (ok true, record lf { held = some t }, k)
  settle t (ok false) lf k = (ok false, lf, k)
  settle t (err e) lf k = (err e, lf, k)

  -- The request is taken out of the list; a hard error returns before that, and leaves it there.
  abbrev pub finish_retry : Process → LockType → Result ℕ Bool → Method Bool
  finish_retry p t (ok b) lf k = settle t (ok b) (without_request p lf) k
  finish_retry p t (err e) lf k = (err e, lf, k)

  -- A failed first try is repeated with this process in the request list.
  unfoldable pub retry : Process → LockType → ℕ → Method Bool
  retry p t nattempts lf k =
      let (r, k') = Fcntl.acquire os nattempts main t k in finish_retry p t r (with_request p lf) k'

  abbrev pub after_try : Process → LockType → ℕ → Result ℕ Bool → Method Bool
  after_try p t nattempts (ok true) lf k = settle t (ok true) lf k
  after_try p t nattempts (ok false) lf k =
      if nattempts == 1 then (ok false, lf, k) else retry p t nattempts lf k
  after_try p t nattempts (err e) lf k = (err e, lf, k)

  unfoldable pub request : Process → LockType → ℕ → Method Bool
  request p t nattempts lf k =
      let (r, k') = Fcntl.acquire os 1 main t k in after_try p t nattempts r lf k'

  unfoldable pub acquire : Process → LockType → ℕ → Method Bool
  acquire p t nattempts lf k =
      if lf.missing || (same_type (some write) t && lf.read_only_fd)
      then (ok true, record lf { held = some t }, k)
      else if is_write lf.held
      then (ok true, lf, k)
      else if same_type lf.held t
      then (ok true, lf, k)
      else request p t nattempts lf k

  abbrev pub drop_hold : Result ℕ (Unit {0}) → Method (Unit {0})
  drop_hold (ok u) lf k = (ok tt, record lf { held = none }, k)
  drop_hold (err e) lf k = (err e, lf, k)

  -- Both releases end alike.
  unfoldable pub unlock_main : Method (Unit {0})
  unlock_main lf k =
      if lf.missing
      then (ok tt, record lf { held = none }, k)
      else (let (r, k') = Fcntl.release os main k in drop_hold r lf k')

  unfoldable pub release_read : Method (Unit {0})
  release_read lf k = if is_read lf.held then unlock_main lf k else (ok tt, lf, k)

  -- `put_info`, which does nothing on a missing file and on a read-only one, and may fail to write; a
  -- panic of the serializer leaves the file.
  abbrev pub or_same : List ℕ → Option (List ℕ) → List ℕ
  or_same file none = file
  or_same file (some file') = file'

  unfoldable pub store_info : Option TableSyncData → Method (Unit {0})
  store_info none lf k = (ok tt, lf, k)
  store_info (some d) lf k =
      if lf.missing || lf.read_only_fd
      then (ok tt, lf, k)
      else (let (u, file, k') =
            write_file lf.file (or_same lf.file (Requests.put_info d lf.file)) k in
          (u, record lf { file = file }, k'))

  -- `?`: the hold stays where the record is not stored.
  abbrev pub unlock_after : Result ℕ (Unit {0}) → Method (Unit {0})
  unlock_after (ok u) lf k = unlock_main lf k
  unlock_after (err e) lf k = (err e, lf, k)

  unfoldable pub release_write : Option TableSyncData → Method (Unit {0})
  release_write info lf k =
      if is_write lf.held
      then (let (u, lf', k') = store_info info lf k in unlock_after u lf' k')
      else (ok tt, lf, k)

  unfoldable pub is_multi_used : LockFile → Kernel → Result ℕ Bool × Kernel
  is_multi_used lf k =
      if lf.missing || lf.read_only_fd
      then (ok false, k)
      else (let (r, k') = Fcntl.can_write_lock os in_use k in
          elim r [ ok b ↦ (ok (not b), k') | err e ↦ (err e, k') ])

-- Whether the request list is read now: every 25th call, and once per interval.
unfoldable pub too_soon : LockFile → ℕ → Bool
too_soon lf now = elim lf.last_inspect [
  | none ↦ false
  | some t ↦ ltb 0 lf.interval && ltb (now - t) (lf.interval * 1_000_000_000)
]

unfoldable pub inspect_now : LockFile → ℕ → Bool × LockFile
inspect_now lf now =
    (ltb 0 (Requests.or_else (Requests.nr_req_id lf.file) 0), record lf { last_inspect = some now })

unfoldable pub inspect_has_waiter : Bool → ℕ → LockFile → Bool × LockFile
inspect_has_waiter always now lf =
    if lf.missing
    then (false, lf)
    else if always
    then inspect_now lf now
    else if ltb 0 lf.interval && ltb lf.inspect_count 25
    then (false, record lf { inspect_count = lf.inspect_count + 1 })
    else if too_soon lf now
    then (false, record lf { inspect_count = 0 })
    else inspect_now (record lf { inspect_count = 0 }) now

-- `get_info` of the shared state: a missing file holds none.
unfoldable pub read_info : LockFile → Result SyncError (Option TableSyncData)
read_info lf = if lf.missing then ok none else Requests.get_info lf.file
