-- ===== src/Tsm.antt =====
-- The bits of crates/casacure/src/tsm.rs, in which a tile holds its Booleans: `encode_bits`,
-- `decode_bits_into` and the table that it looks bytes up in. A Rust `u64` wraps.
pub mod Packing
use casacure.Prelude.{
  ℕ, zero, suc, ◌+◌, ◌-◌, ◌*◌, ◌/◌, ◌%◌, ◌^◌, Bool, true, false, not, List, [], ◌∷◌, ◌++◌, Option,
  none, some, ◌==◌, if◌then◌else◌, length, get_elem?,
}
use Prim.Native.Nat.{bit_and, bit_or}
use casacure.Result.{Result, ok, err, ◌>>=◌}

-- An index past the end of a slice: the code panics.
pub data Panic : Type 0 where
  out_of_range : Panic

-- `b as u64`
abbrev pub of_bool : Bool → ℕ
of_bool true = 1
of_bool false = 0

-- `word |= (values[i + j] as u64) << (8 * j)`, from `j` on.
unfoldable pub gather : ℕ → ℕ → List Bool → ℕ
gather word j [] = word
gather word j (b ∷ values) = gather (bit_or word (of_bool b * 2 ^ (8 * j))) (j + 1) values

-- Eight Booleans, packed by one multiplication.
unfoldable pub pack : List Bool → ℕ
pack values =
    bit_and (gather 0 0 values) 72340172838076673 * 72624976668147840 % 2 ^ 64 / 2 ^ 56 % 256

-- `acc |= 1 << k` for each that is set, from `k` on.
unfoldable pub tail_byte : ℕ → ℕ → List Bool → ℕ
tail_byte acc k [] = acc
tail_byte acc k (b ∷ values) = tail_byte (if b then bit_or acc (2 ^ k) else acc) (k + 1) values

unfoldable pub encode_bits : List Bool → List ℕ
encode_bits [] = []
encode_bits (b0 ∷ b1 ∷ b2 ∷ b3 ∷ b4 ∷ b5 ∷ b6 ∷ b7 ∷ values) =
    pack (b0 ∷ b1 ∷ b2 ∷ b3 ∷ b4 ∷ b5 ∷ b6 ∷ b7 ∷ []) ∷ encode_bits values
encode_bits values = tail_byte 0 0 values ∷ []

-- Whether bit `k` of a byte is set.
unfoldable pub bit_at : ℕ → ℕ → Bool
bit_at b k = not (bit_and (b / 2 ^ k) 1 == 0)

-- `BOOL_LUT[b]`
unfoldable pub lut : ℕ → List Bool
lut b =
    bit_at b 0
    ∷ bit_at b 1
    ∷ bit_at b 2
    ∷ bit_at b 3
    ∷ bit_at b 4
    ∷ bit_at b 5
    ∷ bit_at b 6
    ∷ bit_at b 7
    ∷ []

abbrev pub byte_at : List ℕ → ℕ → Result Panic ℕ
byte_at bytes i = elim (get_elem? bytes i) [ none ↦ err out_of_range | some b ↦ ok b ]

-- `bytes.get(i).map_or(0, |&h| h << (8 - shift))`
unfoldable pub high_part : Option ℕ → ℕ → ℕ
high_part none shift = 0
high_part (some h) shift = h * 2 ^ (8 - shift) % 256

-- Eight bits from bit `shift` of byte `i` on.
unfoldable pub decode_chunk : List ℕ → ℕ → ℕ → Result Panic (List Bool)
decode_chunk bytes shift i = byte_at bytes i >>= λ b.
    if shift == 0
    then ok (lut b)
    else ok (lut (bit_or (b / 2 ^ shift) (high_part (get_elem? bytes (i + 1)) shift)))

-- `n` times eight bits.
unfoldable pub decode_chunks : List ℕ → ℕ → ℕ → ℕ → Result Panic (List Bool)
decode_chunks bytes shift i zero = ok []
decode_chunks bytes shift i (suc n) = decode_chunk bytes shift i >>= λ chunk.
    decode_chunks bytes shift (i + 1) n >>= λ rest. ok (chunk ++ rest)

-- `n` bits from `bit` on, one by one: `bytes[bit / 8] & (1 << (bit % 8)) != 0`.
unfoldable pub decode_tail : List ℕ → ℕ → ℕ → Result Panic (List Bool)
decode_tail bytes bit zero = ok []
decode_tail bytes bit (suc n) = byte_at bytes (bit / 8) >>= λ b.
    decode_tail bytes (bit + 1) n >>= λ rest. ok (not (bit_and b (2 ^ (bit % 8)) == 0) ∷ rest)

unfoldable pub decode_bits : List ℕ → ℕ → ℕ → Result Panic (List Bool)
decode_bits bytes skip nbits = decode_chunks bytes (skip % 8) (skip / 8) (nbits / 8) >>= λ full.
    decode_tail bytes (skip + nbits / 8 * 8) (nbits % 8) >>= λ rest. ok (full ++ rest)
