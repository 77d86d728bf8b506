-- ===== src/Records/Bits.antt =====
-- The Booleans of an array in crates/casacure/src/record.rs: eight to a byte, the lowest bit first,
-- set by `packed[i / 8] |= 1 << (i % 8)` and tested by `packed[i / 8] >> (i % 8) & 1`.
pub mod RoundTrip
use casacure.Prelude.{
  ℕ, zero, suc, ◌+◌, ◌/◌, ◌%◌, ◌^◌, Bool, not, List, [], ◌∷◌, ◌==◌, if◌then◌else◌, length, get_or,
  set, replicate,
}
use Prim.Native.Nat.{bit_or}

-- `n.div_ceil(8)`
abbrev pub bit_bytes : ℕ → ℕ
bit_bytes n = (n + 7) / 8

unfoldable pub set_bit : ℕ → List ℕ → List ℕ
set_bit i packed = set packed (i / 8) (bit_or (get_or packed (i / 8) 0) (2 ^ (i % 8)))

-- The loop over the Booleans, from place `i` on.
unfoldable pub set_bits : ℕ → List Bool → List ℕ → List ℕ
unfolding set_bit
set_bits i [] packed = packed
set_bits i (b ∷ bs) packed = set_bits (suc i) bs (if b then set_bit i packed else packed)

unfoldable pub pack_bits : List Bool → List ℕ
unfolding set_bits
pack_bits bs = set_bits 0 bs (replicate (bit_bytes (length bs)) 0)

unfoldable pub bit_of : List ℕ → ℕ → Bool
bit_of packed i = not (get_or packed (i / 8) 0 / 2 ^ (i % 8) % 2 == 0)

-- `(i..i + n).map(..)`
unfoldable pub bits_from : List ℕ → ℕ → ℕ → List Bool
unfolding bit_of
bits_from packed i zero = []
bits_from packed i (suc n) = bit_of packed i ∷ bits_from packed (suc i) n
