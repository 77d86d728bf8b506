-- ===== src/Lockfile/Fcntl/Left.antt =====
-- What the calls of `FileLocker` in crates/casacure/src/lockfile.rs leave the process owning.
use casacure.Prelude.{ℕ, zero, suc, ◌≡◌, refl, ◌∙◌, Bool, true, false, Option, some}
use casacure.Result.{Result, ok, err}
use casacure.Lockfile.Fcntl
use casacure.Lockfile.Fcntl.{
  Fcntl, Honest, Answers, Notes, LockType, read, write, Kind, lock, unlock, Reply, granted, busy,
  unsupported, failed, Region, main, owned, outcome, waited,
}

-- What a request leaves owned: the type that was got, or what was owned before.
abbrev pub Left : Option LockType → Option LockType → LockType → Result ℕ Bool → Type 0
Left before after t (ok true) = after ≡ some t
Left before after t (ok false) = after ≡ before
Left before after t (err e) = after ≡ before

module _ (os : Fcntl) where
  open os use {Kernel, owns, enolck}

  -- A call after which the kernel has not answered ENOLCK, which it then had not before either.
  pub record LeftBy (k : Kernel) (t : LockType) (rk : Result ℕ Bool × Kernel) : Type 0 where
    pub before : enolck rk.1 ≡ false → enolck k ≡ false
    pub left : enolck rk.1 ≡ false → Left (owns main k) (owns main rk.1) t rk.0

pub not_before : (was is : Bool) (reply : Reply) → Notes was is reply → is ≡ false → was ≡ false
not_before was is granted n q = cc
not_before was is busy n q = cc
not_before was is unsupported n q = cc
not_before was is (failed e) n q = cc

module _ (os : Fcntl) (honest : Honest os) where
  open os use {Kernel, owns, enolck, set_lock, set_lock_wait}

  Left-outcome :
      (before after : Option LockType) (was is : Bool) (t : LockType) (reply : Reply)
      → Answers before after (lock t) reply
      → Notes was is reply
      → is ≡ false
      → Left before after t (outcome os reply)
  Left-outcome before after was is t granted h n q = h
  Left-outcome before after was is t busy h n q = h
  Left-outcome before after was is t unsupported h n q = cc
  Left-outcome before after was is t (failed e) h n q = h

  Left-waited :
      (before after : Option LockType) (was is : Bool) (t : LockType) (reply : Reply)
      → Answers before after (lock t) reply
      → Notes was is reply
      → is ≡ false
      → Left before after t (waited os reply)
  Left-waited before after was is t granted h n q = h
  Left-waited before after was is t busy h n q = h
  Left-waited before after was is t unsupported h n q = cc
  Left-waited before after was is t (failed e) h n q = h

  LeftBy-try : (t : LockType) (k : Kernel) → LeftBy os k t (Fcntl.try_flock os main (lock t) k)
  unfolding Fcntl.try_flock
  LeftBy-try t k = record {
    before =
        not_before (enolck k) _ (set_lock main (lock t) k).0 (honest.set_notes main (lock t) k);
    left =
        Left-outcome (owns main k) _ (enolck k) _ t (set_lock main (lock t) k).0
          (honest.set main (lock t) k) (honest.set_notes main (lock t) k);
  }

  LeftBy-wait : (t : LockType) (k : Kernel) → LeftBy os k t (Fcntl.flock_wait os main (lock t) k)
  unfolding Fcntl.flock_wait
  LeftBy-wait t k = record {
    before =
        not_before (enolck k) _ (set_lock_wait main (lock t) k).0
          (honest.wait_notes main (lock t) k);
    left =
        Left-waited (owns main k) _ (enolck k) _ t (set_lock_wait main (lock t) k).0
          (honest.wait main (lock t) k) (honest.wait_notes main (lock t) k);
  }

  LeftBy-again :
      (k : Kernel) (t : LockType) (tried again : Result ℕ Bool × Kernel)
      → LeftBy os k t tried
      → LeftBy os tried.1 t again
      → LeftBy os k t (elim tried.0 [
        | ok true ↦ (ok true, tried.1)
        | ok false ↦ again
        | err e ↦ (err e, tried.1)
      ])
  LeftBy-again k t (ok true, k') again h g = h
  LeftBy-again k t (ok false, k') (ok true, k'') h g = record {
    before = λ q. h.before (g.before q);
    left = g.left;
  }
  LeftBy-again k t (ok false, k') (ok false, k'') h g = record {
    before = λ q. h.before (g.before q);
    left = λ q. g.left q ∙ h.left (g.before q);
  }
  LeftBy-again k t (ok false, k') (err e, k'') h g = record {
    before = λ q. h.before (g.before q);
    left = λ q. g.left q ∙ h.left (g.before q);
  }
  LeftBy-again k t (err e, k') again h g = h

  LeftBy-tries : (n : ℕ) (t : LockType) (k : Kernel) → LeftBy os k t (Fcntl.tries os n main t k)
  unfolding Fcntl.tries
  LeftBy-tries zero t k = record { before = λ q. q; left = λ q. refl }
  LeftBy-tries (suc n) t k =
      LeftBy-again k t (Fcntl.try_flock os main (lock t) k)
        (Fcntl.tries os n main t (Fcntl.try_flock os main (lock t) k).1) (LeftBy-try t k)
        (LeftBy-tries n t (Fcntl.try_flock os main (lock t) k).1)

  pub LeftBy-acquire :
      (n : ℕ) (t : LockType) (k : Kernel) → LeftBy os k t (Fcntl.acquire os n main t k)
  unfolding Fcntl.acquire
  LeftBy-acquire zero t k = LeftBy-wait t k
  LeftBy-acquire (suc n) t k = LeftBy-tries (suc n) t k
