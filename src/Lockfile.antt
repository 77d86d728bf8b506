-- ===== src/Lockfile.antt =====
-- crates/casacure/src/lockfile.rs: the lock modes and options. `Sync` is the sync record, `Requests` what
-- the file holds, `Fcntl` the system's record locks, and `File` the shared state of one `table.lock`.
pub mod Sync
pub mod Fcntl
pub mod Requests
pub mod File
pub mod Options
use casacure.Prelude.{
  ℕ, ◌≡◌, refl, Bool, true, false, List, [], ◌∷◌, Option, none, some, if◌then◌else◌,
}
use casacure.Bytes.{codes, bytes_eq}

pub data LockMode : Type 0 where
  permanent_locking permanent_locking_wait auto_locking user_locking : LockMode
  auto_no_read_locking user_no_read_locking no_locking default_locking : LockMode

-- The option word of a mode.
unfoldable pub as_str : LockMode → List ℕ
as_str permanent_locking = codes "permanent"
as_str permanent_locking_wait = codes "permanentwait"
as_str auto_locking = codes "auto"
as_str user_locking = codes "user"
as_str auto_no_read_locking = codes "autonoread"
as_str user_no_read_locking = codes "usernoread"
as_str no_locking = codes "nolock"
as_str default_locking = codes "default"

unfoldable pub parse : List ℕ → Option LockMode
parse s =
    if bytes_eq s (codes "default")
    then some default_locking
    else if bytes_eq s (codes "auto")
    then some auto_locking
    else if bytes_eq s (codes "autonoread")
    then some auto_no_read_locking
    else if bytes_eq s (codes "user")
    then some user_locking
    else if bytes_eq s (codes "usernoread")
    then some user_no_read_locking
    else if bytes_eq s (codes "permanent")
    then some permanent_locking
    else if bytes_eq s (codes "permanentwait")
    then some permanent_locking_wait
    else if bytes_eq s (codes "nolock")
    then some no_locking
    else none

unfoldable pub is_permanent : LockMode → Bool
is_permanent permanent_locking = true
is_permanent permanent_locking_wait = true
is_permanent _ = false

pub record LockOptions : Type 0 where
  pub mode : LockMode
  pub interval : ℕ
  pub maxwait : ℕ

pub record EffectiveLockOptions : Type 0 where
  pub mode : LockMode
  pub interval : ℕ
  pub maxwait : ℕ
  pub read_locking : Bool

unfoldable pub locking_default : LockOptions
locking_default = record { mode = default_locking; interval = 5; maxwait = 0 }

unfoldable pub no_locking_options : LockOptions
no_locking_options = record { mode = no_locking; interval = 5; maxwait = 0 }

-- The mode that is locked with, and whether reads are locked.
unfoldable pub resolve : LockMode → LockMode × Bool
resolve default_locking = (auto_locking, true)
resolve auto_no_read_locking = (auto_locking, false)
resolve user_no_read_locking = (user_locking, false)
resolve no_locking = (no_locking, false)
resolve other = (other, true)

unfoldable pub effective : LockOptions → EffectiveLockOptions
effective o =
    let (mode, read_locking) = resolve o.mode in
    record { mode = mode; interval = o.interval; maxwait = o.maxwait; read_locking = read_locking }
