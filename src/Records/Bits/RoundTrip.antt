-- ===== src/Records/Bits/RoundTrip.antt =====
-- The packed Booleans of crates/casacure/src/record.rs, read back bit by bit.
use casacure.Prelude.{
  ℕ, zero, suc, ◌+◌, ◌*◌, ◌/◌, ◌%◌, ◌^◌, ◌≤◌, ◌<◌, ◌≡◌, ◌≢◌, refl, sym, ◌∙◌, Bool, true, false, not,
  ◌&&◌, List, [], ◌∷◌, arith, ltb, ◌==◌, if◌then◌else◌, length, get_or, set, replicate, length-set,
  Bool-cases, inl, inr, length-replicate,
}
use Prim.Native.Nat.{bit_or}
use native.Mathlib.Nat.{zero-div}
use casacure.Records.Bits.{bit_bytes, set_bit, set_bits, pack_bits, bit_of, bits_from}

bit : ℕ → ℕ → Bool
bit b k = not (b / 2 ^ k % 2 == 0)

same : Bool → Bool → Bool
same true b = b
same false b = not b

-- Setting bit `k` of the byte `b` sets that bit and no other, and leaves a byte.
sets : ℕ → ℕ → ℕ → Bool
sets b k j =
    same (bit (bit_or b (2 ^ k)) j) (if k == j then true else bit b j) && ltb (bit_or b (2 ^ k)) 256

-- `sets` at the byte, the bit that is set and the bit that is read which `x` packs.
sets_at : ℕ → Bool
sets_at x = sets (x / 64) (x / 8 % 8) (x % 8)

every_sets : (count : ℕ) → Bool
every_sets zero = true
every_sets (suc x) = every_sets x && sets_at x

every_sets-at : (count x : ℕ) → x < count → every_sets count ≡ true → sets_at x ≡ true
unfolding every_sets
every_sets-at zero x below all = absurd (omega arith)
every_sets-at (suc y) x below all = elim (Bool-cases (x == y)) [
  | inl here ↦ ground arith
  | inr away ↦ every_sets-at y x (ground arith) (ground arith)
]

checked : every_sets 16384 ≡ true
unfolding every_sets sets_at sets same bit
checked = refl

sets_all : (b k j : ℕ) → b < 256 → k < 8 → j < 8 → sets b k j ≡ true
unfolding sets_at
sets_all b k j hb hk hj =
    let x : ℕ = b * 64 + k * 8 + j in
    let first : x / 64 ≡ b = omega arith in
    let second : x / 8 % 8 ≡ k = omega arith in
    let third : x % 8 ≡ j = omega arith in
    rw (first, second, third) at (every_sets-at 16384 x (omega arith) checked)

eq_of_same : (b c : Bool) → same b c ≡ true → b ≡ c
unfolding same
eq_of_same true c h = sym h
eq_of_same false true h = cc
eq_of_same false false h = refl

bit-or :
    (b k j : ℕ)
    → b < 256
    → k < 8
    → j < 8
    → bit (bit_or b (2 ^ k)) j ≡ (if k == j then true else bit b j)
bit-or b k j hb hk hj =
    let s : sets b k j ≡ true = sets_all b k j hb hk hj in
    eq_of_same _ _ (unfold sets in ground arith)

bit_or-lt : (b k : ℕ) → b < 256 → k < 8 → bit_or b (2 ^ k) < 256
bit_or-lt b k hb hk =
    let s : sets b k 0 ≡ true = sets_all b k 0 hb hk (omega arith) in unfold sets in ground arith

IsBytes : List ℕ → Type 0
IsBytes p = (i : ℕ) → get_or p i 0 < 256

get_or-set :
    (p : List ℕ) (i j v : ℕ)
    → i < length p
    → get_or (set p i v) j 0 ≡ (if i == j then v else get_or p j 0)
get_or-set [] i j v h = absurd (omega arith)
get_or-set (x ∷ p) zero zero v h = refl
get_or-set (x ∷ p) zero (suc j) v h = ground arith
get_or-set (x ∷ p) (suc i) zero v h = ground arith
get_or-set (x ∷ p) (suc i) (suc j) v h = get_or-set p i j v (omega arith) ∙ ground arith

bit_of-set_bit :
    (p : List ℕ) (i k : ℕ)
    → i / 8 < length p
    → IsBytes p
    → bit_of (set_bit i p) k ≡ (if i == k then true else bit_of p k)
unfolding bit_of set_bit bit IsBytes
bit_of-set_bit p i k h bytes = ground (
  arith,
  get_or-set p (i / 8) (k / 8) (bit_or (get_or p (i / 8) 0) (2 ^ (i % 8))) h,
  bit-or (get_or p (i / 8) 0) (i % 8) (k % 8) (bytes (i / 8)),
)

set_bit-IsBytes : (p : List ℕ) (i : ℕ) → i / 8 < length p → IsBytes p → IsBytes (set_bit i p)
unfolding set_bit IsBytes
set_bit-IsBytes p i h bytes j = ground (
  arith,
  get_or-set p (i / 8) j (bit_or (get_or p (i / 8) 0) (2 ^ (i % 8))) h,
  bit_or-lt (get_or p (i / 8) 0) (i % 8) (bytes (i / 8)),
  bytes j,
)

-- One round of the loop.
next : ℕ → Bool → List ℕ → List ℕ
next i b p = if b then set_bit i p else p

module _ (p : List ℕ) (i : ℕ) (h : i / 8 < length p) (bytes : IsBytes p) where
  next-length : (b : Bool) → length (next i b p) ≡ length p
  unfolding next set_bit
  next-length true = length-set p (i / 8) _
  next-length false = refl

  next-IsBytes : (b : Bool) → IsBytes (next i b p)
  unfolding next
  next-IsBytes true = set_bit-IsBytes p i h bytes
  next-IsBytes false = bytes

  next-bit : (b : Bool) (k : ℕ) → i ≢ k → bit_of (next i b p) k ≡ bit_of p k
  unfolding next
  next-bit true k e = ground (arith, bit_of-set_bit p i k h bytes)
  next-bit false k e = refl

  next-bit_self : (b : Bool) → bit_of p i ≡ false → bit_of (next i b p) i ≡ b
  unfolding next
  next-bit_self true clear = ground (arith, bit_of-set_bit p i i h bytes)
  next-bit_self false clear = clear

-- The loop leaves the bits before its place.
set_bits-before :
    (bs : List Bool) (i : ℕ) (p : List ℕ) (k : ℕ)
    → i + length bs ≤ 8 * length p
    → IsBytes p
    → k < i
    → bit_of (set_bits i bs p) k ≡ bit_of p k
unfolding set_bits next
set_bits-before [] i p k h bytes lt = refl
set_bits-before (b ∷ bs) i p k h bytes lt =
    let here : i / 8 < length p = omega arith in
    set_bits-before bs (suc i) (next i b p) k (omega (arith, next-length p i here bytes b))
      (next-IsBytes p i here bytes b) (omega arith)
    ∙ next-bit p i here bytes b k (λ e. absurd (omega arith))

bits_from-set_bits :
    (bs : List Bool) (i : ℕ) (p : List ℕ)
    → i + length bs ≤ 8 * length p
    → IsBytes p
    → ((k : ℕ) → i ≤ k → bit_of p k ≡ false)
    → bits_from (set_bits i bs p) i (length bs) ≡ bs
unfolding set_bits bits_from next
bits_from-set_bits [] i p h bytes clear = refl
bits_from-set_bits (b ∷ bs) i p h bytes clear =
    let here : i / 8 < length p = omega arith in
    let fits : suc i + length bs ≤ 8 * length (next i b p) =
      omega (arith, next-length p i here bytes b) in
    let kept : IsBytes (next i b p) = next-IsBytes p i here bytes b in
    let first : bit_of (set_bits (suc i) bs (next i b p)) i ≡ b =
      set_bits-before bs (suc i) (next i b p) i fits kept (omega arith)
      ∙ next-bit_self p i here bytes b (clear i (omega arith)) in
    let rest : bits_from (set_bits (suc i) bs (next i b p)) (suc i) (length bs) ≡ bs =
      bits_from-set_bits bs (suc i) (next i b p) fits kept
        (λ k le. next-bit p i here bytes b k (λ e. absurd (omega arith)) ∙ clear k (omega arith)) in
    λ t. first t ∷ rest t

length-set_bits : (i : ℕ) (bs : List Bool) (p : List ℕ) → length (set_bits i bs p) ≡ length p
unfolding set_bits
length-set_bits i [] p = refl
length-set_bits i (false ∷ bs) p = length-set_bits (suc i) bs p
length-set_bits i (true ∷ bs) p =
    length-set_bits (suc i) bs (set_bit i p) ∙ unfold set_bit in length-set p (i / 8) _

get_or-replicate : (n i : ℕ) → get_or {A = ℕ} (replicate n 0) i 0 ≡ 0
get_or-replicate zero i = refl
get_or-replicate (suc n) zero = refl
get_or-replicate (suc n) (suc i) = get_or-replicate n i

-- Every list of Booleans that is packed is read back.
pub bits_from-pack_bits : (bs : List Bool) → bits_from (pack_bits bs) 0 (length bs) ≡ bs
unfolding pack_bits IsBytes bit_of
bits_from-pack_bits bs =
    bits_from-set_bits bs 0 (replicate (bit_bytes (length bs)) 0)
      (omega (arith, length-replicate {A = ℕ} (bit_bytes (length bs)) 0))
      (λ i. omega (arith, get_or-replicate (bit_bytes (length bs)) i))
      (λ k le. rw (get_or-replicate (bit_bytes (length bs)) (k / 8)) (zero_bit (k % 8)))
  where
    zero_bit : (j : ℕ) → not (0 / 2 ^ j % 2 == 0) ≡ false
    zero_bit j = rw (zero-div (2 ^ j)) refl

pub length-pack_bits : (bs : List Bool) → length (pack_bits bs) ≡ bit_bytes (length bs)
unfolding pack_bits
length-pack_bits bs = length-set_bits 0 bs _ ∙ length-replicate _ 0
