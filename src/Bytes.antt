-- ===== src/Bytes.antt =====
-- The standard library's byte conversions that crates/casacure/src uses: `to_le_bytes`,
-- `to_be_bytes`, `from_le_bytes`, `from_be_bytes`, and the check of `String::from_utf8`.
-- A byte string is a list of numbers; a Rust `String` is its list of bytes.
pub mod Utf8
use mathlib.Core.List.{reverse-reverse, reverse-append, reverse-cons}
use casacure.Prelude.{
  ℕ, zero, suc, ◌+◌, ◌*◌, ◌/◌, ◌%◌, ◌^◌, ◌<◌, ◌≡◌, refl, ◌∙◌, ap, Bool, true, false, ◌&&◌, ◌==◌,
  List, [], ◌∷◌, ◌++◌, reverse, String, arith, length, length-append,
}
use Prim.Native.Char.{code}
use native.Mathlib.Nat.{pow-suc}

-- The bytes of a text of ASCII characters.
abbrev pub codes : String → List ℕ
codes String.[] = []
codes (String.◌∷◌ c s) = code c ∷ codes s

-- The low `k` bytes of `v`, the lowest first.
unfoldable pub to_le_bytes : ℕ → ℕ → List ℕ
to_le_bytes zero v = []
to_le_bytes (suc k) v = (v % 256) ∷ to_le_bytes k (v / 256)

unfoldable pub from_le_bytes : List ℕ → ℕ
from_le_bytes [] = 0
from_le_bytes (b ∷ bs) = b + 256 * from_le_bytes bs

-- The bytes of a `k`-byte word in the order that `little` tells.
unfoldable pub to_bytes : Bool → ℕ → ℕ → List ℕ
unfolding to_le_bytes
to_bytes true k v = to_le_bytes k v
to_bytes false k v = reverse (to_le_bytes k v)

unfoldable pub from_bytes : Bool → List ℕ → ℕ
unfolding from_le_bytes
from_bytes true bs = from_le_bytes bs
from_bytes false bs = from_le_bytes (reverse bs)

from_le_bytes-to_le_bytes : (k v : ℕ) → v < 256 ^ k → from_le_bytes (to_le_bytes k v) ≡ v
unfolding from_le_bytes to_le_bytes
from_le_bytes-to_le_bytes zero v h = omega arith
from_le_bytes-to_le_bytes (suc k) v h =
    omega (arith, from_le_bytes-to_le_bytes k (v / 256) (omega (arith, pow-suc 256 k)))

length-to_le_bytes : (k v : ℕ) → length (to_le_bytes k v) ≡ k
unfolding to_le_bytes
length-to_le_bytes zero v = refl
length-to_le_bytes (suc k) v = ap suc (length-to_le_bytes k (v / 256))

length-reverse : (bs : List ℕ) → length (reverse bs) ≡ length bs
length-reverse [] = refl
length-reverse (b ∷ bs) = rw (reverse-cons, length-append) (omega (arith, length-reverse bs))

pub length-to_bytes : (little : Bool) (k v : ℕ) → length (to_bytes little k v) ≡ k
unfolding to_bytes
length-to_bytes true k v = length-to_le_bytes k v
length-to_bytes false k v = length-reverse (to_le_bytes k v) ∙ length-to_le_bytes k v

-- A word that fits its width is read back from its bytes, in either order.
pub from_bytes-to_bytes :
    (little : Bool) (k v : ℕ) → v < 256 ^ k → from_bytes little (to_bytes little k v) ≡ v
unfolding to_bytes from_bytes
from_bytes-to_bytes true k v h = from_le_bytes-to_le_bytes k v h
from_bytes-to_bytes false k v h = rw reverse-reverse (from_le_bytes-to_le_bytes k v h)

-- `==` on byte strings.
unfoldable pub bytes_eq : List ℕ → List ℕ → Bool
bytes_eq [] [] = true
bytes_eq [] (c ∷ cs) = false
bytes_eq (b ∷ bs) [] = false
bytes_eq (b ∷ bs) (c ∷ cs) = (b == c) && bytes_eq bs cs

pub bytes_eq_refl : (bs : List ℕ) → bytes_eq bs bs ≡ true
unfolding bytes_eq
bytes_eq_refl [] = refl
bytes_eq_refl (b ∷ bs) = ground (arith, bytes_eq_refl bs)

pub eq_of_bytes_eq : (bs cs : List ℕ) → bytes_eq bs cs ≡ true → bs ≡ cs
unfolding bytes_eq
eq_of_bytes_eq [] [] h = refl
eq_of_bytes_eq [] (c ∷ cs) h = cc
eq_of_bytes_eq (b ∷ bs) [] h = cc
eq_of_bytes_eq (b ∷ bs) (c ∷ cs) h = ground (arith, eq_of_bytes_eq bs cs)
