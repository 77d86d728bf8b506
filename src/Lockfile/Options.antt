-- ===== src/Lockfile/Options.antt =====
-- The option words and the normalisation of crates/casacure/src/lockfile.rs.
use casacure.Prelude.{◌≡◌, refl, ◌↔◌, List, ℕ, some, arith}
use casacure.Bytes.{bytes_eq, codes, eq_of_bytes_eq}
use casacure.Lockfile.{
  LockMode, permanent_locking, permanent_locking_wait, auto_locking, user_locking,
  auto_no_read_locking, user_no_read_locking, no_locking, default_locking, as_str, parse,
}

parse-as_str : (m : LockMode) → parse (as_str m) ≡ some m
unfolding parse as_str bytes_eq
parse-as_str permanent_locking = refl
parse-as_str permanent_locking_wait = refl
parse-as_str auto_locking = refl
parse-as_str user_locking = refl
parse-as_str auto_no_read_locking = refl
parse-as_str user_no_read_locking = refl
parse-as_str no_locking = refl
parse-as_str default_locking = refl

as_str-of_parse : (s : List ℕ) (m : LockMode) → parse s ≡ some m → as_str m ≡ s
unfolding parse as_str
as_str-of_parse s m h = ground (
  arith,
  eq_of_bytes_eq s (codes "default"),
  eq_of_bytes_eq s (codes "auto"),
  eq_of_bytes_eq s (codes "autonoread"),
  eq_of_bytes_eq s (codes "user"),
  eq_of_bytes_eq s (codes "usernoread"),
  eq_of_bytes_eq s (codes "permanent"),
  eq_of_bytes_eq s (codes "permanentwait"),
  eq_of_bytes_eq s (codes "nolock"),
)

-- `parse` accepts exactly the words that `as_str` gives, each as the mode that it names.
pub parse-iff-as_str : (s : List ℕ) (m : LockMode) → (parse s ≡ some m) ↔ (as_str m ≡ s)
parse-iff-as_str s m = (as_str-of_parse s m, λ e. rw e at (parse-as_str m))
