-- ===== src/Lockfile/File/Agrees.antt =====
-- The hold that crates/casacure/src/lockfile.rs records against the lock that the kernel grants,
-- call by call.
use casacure.Prelude.{
  ℕ, ◌≡◌, ◌⊎◌, inl, inr, sym, ◌∙◌, Bool, true, false, ◌&&◌, ◌||◌, Option, none, some, arith,
  Bool-cases, ◌==◌,
}
use casacure.Result.{Result, ok, err}
use casacure.Lockfile.Fcntl
use casacure.Lockfile.Fcntl.{
  Fcntl, Honest, Answers, Notes, LockType, read, write, Kind, lock, unlock, Reply, granted, busy,
  unsupported, failed, Region, main, owned, outcome, waited,
}
use casacure.Lockfile.File.{
  LockFile, Process, is_write, is_read, same_type, with_request, without_request, settle,
  finish_retry, retry, after_try, request, acquire, drop_hold, unlock_main, release_read,
  store_info, unlock_after, release_write,
}
use casacure.Lockfile.Sync.{TableSyncData}
use casacure.Lockfile.Fcntl.Left.{Left, LeftBy, LeftBy-acquire}

module _ (os : Fcntl) where
  open os use {Kernel, owns, enolck}

  -- The hold is the kernel's lock, if the kernel has never answered ENOLCK.
  abbrev Exact : LockFile → Kernel → Type 0
  Exact lf k = enolck k ≡ false → owns main k ≡ lf.held

  -- That is so wherever locks are really taken: not on a missing file, whose calls succeed without
  -- the kernel, nor for a write hold over a read-only descriptor, nor where ENOLCK was taken for a
  -- success.
  abbrev pub Agrees : LockFile → Kernel → Type 0
  Agrees lf k = lf.missing ≡ false → (is_write lf.held && lf.read_only_fd) ≡ false → Exact lf k

  -- What `Agrees` says, case by case.
  abbrev pub Sound : LockFile → Kernel → Type 0
  Sound lf k =
      (lf.missing ≡ true)
      ⊎ (((is_write lf.held && lf.read_only_fd) ≡ true)
          ⊎ ((enolck k ≡ true) ⊎ (owns main k ≡ lf.held)))

  pub Agrees-of_Sound : (lf : LockFile) (k : Kernel) → Sound lf k → Agrees lf k
  Agrees-of_Sound lf k (inl e) = λ m w q. cc
  Agrees-of_Sound lf k (inr (inl e)) = λ m w q. cc
  Agrees-of_Sound lf k (inr (inr (inl e))) = λ m w q. cc
  Agrees-of_Sound lf k (inr (inr (inr e))) = λ m w q. e

  pub Sound-of_Agrees : (lf : LockFile) (k : Kernel) → Agrees lf k → Sound lf k
  Sound-of_Agrees lf k h = elim (Bool-cases lf.missing) [
    | inl m ↦ inl m
    | inr m ↦ elim (Bool-cases (is_write lf.held && lf.read_only_fd)) [
      | inl w ↦ inr (inl w)
      | inr w ↦ elim (Bool-cases (enolck k)) [
        | inl q ↦ inr (inr (inl q))
        | inr q ↦ inr (inr (inr (h m w q)))
      ]
    ]
  ]

module _ (os : Fcntl) (honest : Honest os) where
  open os use {Kernel, owns, enolck, set_lock, write_file}

  Exact-settle :
      (t : LockType) (r : Result ℕ Bool) (lf : LockFile) (k : Kernel)
      → (enolck k ≡ false → Left lf.held (owns main k) t r)
      → Exact os (settle os t r lf k).1 (settle os t r lf k).2
  Exact-settle t (ok true) lf k h = h
  Exact-settle t (ok false) lf k h = h
  Exact-settle t (err e) lf k h = h

  held-with_request : (p : Process) (lf : LockFile) → (with_request p lf).held ≡ lf.held
  unfolding with_request
  held-with_request p lf = ground arith

  held-without_request : (p : Process) (lf : LockFile) → (without_request p lf).held ≡ lf.held
  unfolding without_request
  held-without_request p lf = ground arith

  Exact-finish_retry :
      (p : Process) (t : LockType) (r : Result ℕ Bool) (lf : LockFile) (k : Kernel)
      → (enolck k ≡ false → Left lf.held (owns main k) t r)
      → Exact os (finish_retry os p t r lf k).1 (finish_retry os p t r lf k).2
  Exact-finish_retry p t (ok true) lf k h = h
  Exact-finish_retry p t (ok false) lf k h = λ q. h q ∙ sym (held-without_request p lf)
  Exact-finish_retry p t (err e) lf k h = h

  Exact-retry :
      (p : Process) (t : LockType) (n : ℕ) (lf : LockFile) (k : Kernel)
      → Exact os lf k
      → Exact os (retry os p t n lf k).1 (retry os p t n lf k).2
  unfolding retry
  Exact-retry p t n lf k h =
      let (r, k') = Fcntl.acquire os n main t k in
      Exact-finish_retry p t r (with_request p lf) k' (λ q.
        let by : LeftBy os k t (r, k') = LeftBy-acquire os honest n t k in
        rw (held-with_request p lf, ← h (by.before q)) (by.left q))

  Exact-after_try :
      (p : Process) (t : LockType) (n : ℕ) (r : Result ℕ Bool) (lf : LockFile) (k : Kernel)
      → (enolck k ≡ false → Left lf.held (owns main k) t r)
      → Exact os (after_try os p t n r lf k).1 (after_try os p t n r lf k).2
  Exact-after_try p t n (ok true) lf k h = h
  Exact-after_try p t n (ok false) lf k h = elim (Bool-cases (n == 1)) [
    | inl e ↦ rw e h
    | inr e ↦ rw e (Exact-retry p t n lf k h)
  ]
  Exact-after_try p t n (err e) lf k h = h

  Exact-request :
      (p : Process) (t : LockType) (n : ℕ) (lf : LockFile) (k : Kernel)
      → Exact os lf k
      → Exact os (request os p t n lf k).1 (request os p t n lf k).2
  unfolding request
  Exact-request p t n lf k h =
      let (r, k') = Fcntl.acquire os 1 main t k in
      Exact-after_try p t n r lf k' (λ q.
        let by : LeftBy os k t (r, k') = LeftBy-acquire os honest 1 t k in
        rw (← h (by.before q)) (by.left q))

  -- A call that succeeds without the kernel leaves a state of which `Agrees` asks nothing.
  no_lock :
      (missing read_only : Bool) (t : LockType)
      → (missing || (same_type (some write) t && read_only)) ≡ true
      → missing ≡ false
      → (is_write (some t) && read_only) ≡ false
      → ⊥
  no_lock true read_only t e m w = cc
  no_lock false read_only read e m w = cc
  no_lock false true write e m w = cc
  no_lock false false write e m w = cc

  Exact-of :
      (lf : LockFile) (k : Kernel) (t : LockType)
      → Agrees os lf k
      → (lf.missing || (same_type (some write) t && lf.read_only_fd)) ≡ false
      → is_write lf.held ≡ false
      → Exact os lf k
  Exact-of lf k t h e w = h (ground arith) (rw w)

  pub acquire-Agrees :
      (p : Process) (t : LockType) (n : ℕ) (lf : LockFile) (k : Kernel)
      → Agrees os lf k
      → Agrees os (acquire os p t n lf k).1 (acquire os p t n lf k).2
  unfolding acquire
  acquire-Agrees p t n lf k h =
      elim (Bool-cases (lf.missing || (same_type (some write) t && lf.read_only_fd))) [
        | inl e ↦ rw e (λ m w q. absurd (no_lock lf.missing lf.read_only_fd t e m w))
        | inr e ↦ elim (Bool-cases (is_write lf.held)) [
          | inl w ↦ rw (e, w) h
          | inr w ↦ elim (Bool-cases (same_type lf.held t)) [
            | inl s ↦ rw (e, w, s) h
            | inr s ↦ rw (e, w, s) (λ _ _. Exact-request p t n lf k (Exact-of lf k t h e w))
          ]
        ]
      ]

  -- Giving up the lock.
  drop_hold-Agrees :
      (reply : Reply) (lf : LockFile) (k k' : Kernel)
      → Agrees os lf k
      → Answers (owns main k) (owns main k') unlock reply
      → Notes (enolck k) (enolck k') reply
      → Agrees os
          (drop_hold os (Fcntl.done os (outcome os reply)) lf k').1
          (drop_hold os (Fcntl.done os (outcome os reply)) lf k').2
  drop_hold-Agrees granted lf k k' h a n = λ _ _ _. a
  drop_hold-Agrees busy lf k k' h a n = absurd a
  drop_hold-Agrees unsupported lf k k' h a n = λ _ _ q. cc
  drop_hold-Agrees (failed e) lf k k' h a n = λ m w q. a ∙ h m w (sym n ∙ q)

  unlock_main-Agrees :
      (lf : LockFile) (k : Kernel)
      → Agrees os lf k
      → Agrees os (unlock_main os lf k).1 (unlock_main os lf k).2
  unfolding unlock_main Fcntl.release Fcntl.try_flock
  unlock_main-Agrees lf k h = elim (Bool-cases lf.missing) [
    | inl m ↦ simp m (λ m' w q. cc)
    | inr m ↦ simp m (
        drop_hold-Agrees (set_lock main unlock k).0 lf k (set_lock main unlock k).1 h
          (honest.set main unlock k) (honest.set_notes main unlock k))
  ]

  pub release_read-Agrees :
      (lf : LockFile) (k : Kernel)
      → Agrees os lf k
      → Agrees os (release_read os lf k).1 (release_read os lf k).2
  unfolding release_read
  release_read-Agrees lf k h = elim (Bool-cases (is_read lf.held)) [
    | inl e ↦ rw e (unlock_main-Agrees lf k h)
    | inr e ↦ rw e h
  ]

  store_info-Agrees :
      (info : Option TableSyncData) (lf : LockFile) (k : Kernel)
      → Agrees os lf k
      → Agrees os (store_info os info lf k).1 (store_info os info lf k).2
  unfolding store_info
  store_info-Agrees none lf k h = h
  store_info-Agrees (some d) lf k h = elim (Bool-cases (lf.missing || lf.read_only_fd)) [
    | inl e ↦ rw e h
    | inr e ↦ rw e (λ m w q.
        honest.write_owns main lf.file _ k ∙ h m w (sym (honest.write_enolck lf.file _ k) ∙ q))
  ]

  unlock_after-Agrees :
      (u : Result ℕ (Unit {0})) (lf : LockFile) (k : Kernel)
      → Agrees os lf k
      → Agrees os (unlock_after os u lf k).1 (unlock_after os u lf k).2
  unlock_after-Agrees (ok u) lf k h = unlock_main-Agrees lf k h
  unlock_after-Agrees (err e) lf k h = h

  pub release_write-Agrees :
      (info : Option TableSyncData) (lf : LockFile) (k : Kernel)
      → Agrees os lf k
      → Agrees os (release_write os info lf k).1 (release_write os info lf k).2
  unfolding release_write
  release_write-Agrees info lf k h = elim (Bool-cases (is_write lf.held)) [
    | inl e ↦ rw e (
        unlock_after-Agrees (store_info os info lf k).0 (store_info os info lf k).1
          (store_info os info lf k).2 (store_info-Agrees info lf k h))
    | inr e ↦ rw e h
  ]
