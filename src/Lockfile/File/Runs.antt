-- ===== src/Lockfile/File/Runs.antt =====
-- Sequences of calls on the shared lock state of crates/casacure/src/lockfile.rs.
use casacure.Prelude.{ℕ, List, [], ◌∷◌, Option}
use casacure.Lockfile.Fcntl.{Fcntl, Honest, LockType}
use casacure.Lockfile.File.{LockFile, Process, acquire, release_read, release_write}
use casacure.Lockfile.Sync.{TableSyncData}
use casacure.Lockfile.File.Agrees.{
  Agrees, Sound, Agrees-of_Sound, Sound-of_Agrees, acquire-Agrees, release_read-Agrees,
  release_write-Agrees,
}

-- The calls that handles of one process make on the shared state.
pub data Call : Type 0 where
  acquires : LockType → ℕ → Call
  releases_read : Call
  releases_write : Option TableSyncData → Call

module _ (os : Fcntl) (p : Process) where
  abbrev pub run : Call → LockFile × os.Kernel → LockFile × os.Kernel
  run (acquires t n) (lf, k) = let (r, lf', k') = acquire os p t n lf k in (lf', k')
  run releases_read (lf, k) = let (r, lf', k') = release_read os lf k in (lf', k')
  run (releases_write info) (lf, k) = let (r, lf', k') = release_write os info lf k in (lf', k')

  abbrev pub run_all : List Call → LockFile × os.Kernel → LockFile × os.Kernel
  run_all [] s = s
  run_all (c ∷ cs) s = run_all cs (run c s)

  run-Agrees :
      (honest : Honest os) (c : Call) (s : LockFile × os.Kernel)
      → Agrees os s.0 s.1
      → Agrees os (run c s).0 (run c s).1
  run-Agrees honest (acquires t n) (lf, k) h = acquire-Agrees os honest p t n lf k h
  run-Agrees honest releases_read (lf, k) h = release_read-Agrees os honest lf k h
  run-Agrees honest (releases_write info) (lf, k) h = release_write-Agrees os honest info lf k h

  run_all-Agrees :
      (honest : Honest os) (cs : List Call) (s : LockFile × os.Kernel)
      → Agrees os s.0 s.1
      → Agrees os (run_all cs s).0 (run_all cs s).1
  run_all-Agrees honest [] s h = h
  run_all-Agrees honest (c ∷ cs) s h = run_all-Agrees honest cs (run c s) (run-Agrees honest c s h)

  -- After every sequence of calls, whatever an honest kernel answers and whether the writes of the file
  -- fail, the hold that the state records is the lock that the process owns on the main byte, if
  -- that was so before; only a missing file, a write hold over a read-only descriptor, and a
  -- process to which the kernel has answered ENOLCK may differ.
  pub run_all-Sound :
      (honest : Honest os) (cs : List Call) (s : LockFile × os.Kernel)
      → Sound os s.0 s.1
      → Sound os (run_all cs s).0 (run_all cs s).1
  run_all-Sound honest cs s h =
      let (lf, k) = s in
      let (lf', k') = run_all cs (lf, k) in
      Sound-of_Agrees os lf' k' (run_all-Agrees honest cs (lf, k) (Agrees-of_Sound os lf k h))
