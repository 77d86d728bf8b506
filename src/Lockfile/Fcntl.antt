-- ===== src/Lockfile/Fcntl.antt =====
-- `FileLocker` of crates/casacure/src/lockfile.rs over the system's `fcntl`, which is a parameter:
-- `Fcntl` is the kernel's state and its answers, `Honest` what POSIX says of them.
pub mod Left
use casacure.Prelude.{ℕ, zero, suc, ◌≡◌, Bool, true, false, List, Option, none, some, if◌then◌else◌}
use casacure.Result.{Result, ok, err}

pub data LockType : Type 0 where
  read write : LockType

-- `F_RDLCK`, `F_WRLCK`, `F_UNLCK`
pub data Kind : Type 0 where
  lock : LockType → Kind
  unlock : Kind

-- What `fcntl` answers: `busy` is EAGAIN or EACCES, `unsupported` is ENOLCK.
pub data Reply : Type 0 where
  granted busy unsupported : Reply
  failed : ℕ → Reply

-- The byte ranges that are locked.
pub data Region : Type 0 where
  main in_use : Region

pub record Fcntl : Type 1 where
  pub Kernel : Type 0
  -- `F_SETLK` and `F_SETLKW`
  pub set_lock : Region → Kind → Kernel → Reply × Kernel
  pub set_lock_wait : Region → Kind → Kernel → Reply × Kernel
  -- A write of the lock file, from the bytes that it held to those that it should hold: its error, if
  -- any, and what the file holds then.
  pub write_file : List ℕ → List ℕ → Kernel → Result ℕ (Unit {0}) × List ℕ × Kernel
  -- Whether the kernel has answered ENOLCK to this process before.
  pub enolck : Kernel → Bool
  -- What this process holds on a range.
  pub owns : Region → Kernel → Option LockType

abbrev pub owned : Kind → Option LockType
owned (lock t) = some t
owned unlock = none

-- A request that is granted leaves the process with what it asked for; any other leaves its lock.
-- Giving up a lock is never refused as busy.
abbrev pub Answers : Option LockType → Option LockType → Kind → Reply → Type 0
Answers before after kind granted = after ≡ owned kind
Answers before after (lock t) busy = after ≡ before
Answers before after unlock busy = ⊥
Answers before after kind unsupported = after ≡ before
Answers before after kind (failed e) = after ≡ before

-- That a request was answered ENOLCK is known from then on.
abbrev pub Notes : Bool → Bool → Reply → Type 0
Notes before after unsupported = after ≡ true
Notes before after reply = after ≡ before

-- Record locks as POSIX documents them. A write of the file leaves them.
pub record Honest (os : Fcntl) : Type 0 where
  pub set :
      (r : Region) (kind : Kind) (k : os.Kernel)
      → Answers (os.owns r k) (os.owns r (os.set_lock r kind k).1) kind (os.set_lock r kind k).0
  pub wait :
      (r : Region) (kind : Kind) (k : os.Kernel)
      → Answers
          (os.owns r k)
          (os.owns r (os.set_lock_wait r kind k).1)
          kind
          (os.set_lock_wait r kind k).0
  pub set_notes :
      (r : Region) (kind : Kind) (k : os.Kernel)
      → Notes (os.enolck k) (os.enolck (os.set_lock r kind k).1) (os.set_lock r kind k).0
  pub wait_notes :
      (r : Region) (kind : Kind) (k : os.Kernel)
      → Notes (os.enolck k) (os.enolck (os.set_lock_wait r kind k).1) (os.set_lock_wait r kind k).0
  pub write_owns :
      (r : Region) (old new : List ℕ) (k : os.Kernel)
      → os.owns r (os.write_file old new k).2 ≡ os.owns r k
  pub write_enolck :
      (old new : List ℕ) (k : os.Kernel) → os.enolck (os.write_file old new k).2 ≡ os.enolck k

module _ (os : Fcntl) where
  open os use {Kernel, set_lock, set_lock_wait}

  abbrev pub Io : Type 0 → Type 0
  Io A = Kernel → Result ℕ A × Kernel

  abbrev pub outcome : Reply → Result ℕ Bool
  outcome granted = ok true
  outcome busy = ok false
  outcome unsupported = ok true
  outcome (failed e) = err e

  unfoldable pub try_flock : Region → Kind → Io Bool
  try_flock r kind k = let (reply, k') = set_lock r kind k in (outcome reply, k')

  -- A wait has no busy answer: that is an error there (EAGAIN).
  abbrev pub waited : Reply → Result ℕ Bool
  waited granted = ok true
  waited busy = err 11
  waited unsupported = ok true
  waited (failed e) = err e

  unfoldable pub flock_wait : Region → Kind → Io Bool
  flock_wait r kind k = let (reply, k') = set_lock_wait r kind k in (waited reply, k')

  -- The tries of a counted attempt; the sleep between them changes nothing here.
  unfoldable pub tries : ℕ → Region → LockType → Io Bool
  tries zero r t k = (ok false, k)
  tries (suc n) r t k =
      let (b, k') = try_flock r (lock t) k in
      let again = tries n r t k' in
      elim b [ ok true ↦ (ok true, k') | ok false ↦ again | err e ↦ (err e, k') ]

  -- No attempt count means to wait.
  unfoldable pub acquire : ℕ → Region → LockType → Io Bool
  acquire zero r t k = flock_wait r (lock t) k
  acquire (suc n) r t k = tries (suc n) r t k

  abbrev pub done : Result ℕ Bool → Result ℕ (Unit {0})
  done (ok b) = ok tt
  done (err e) = err e

  unfoldable pub release : Region → Io (Unit {0})
  release r k = let (b, k') = try_flock r unlock k in (done b, k')

  abbrev probe : Region → Result ℕ Bool → Io Bool
  probe r (ok true) k =
      let (u, k') = release r k in elim u [ ok t ↦ (ok true, k') | err e ↦ (err e, k') ]
  probe r (ok false) k = (ok false, k)
  probe r (err e) k = (err e, k)

  unfoldable pub can_write_lock : Region → Io Bool
  can_write_lock r k = let (b, k') = try_flock r (lock write) k in probe r b k'
