-- ===== src/Tsm/Packing.antt =====
-- The bits of crates/casacure/src/tsm.rs, packed and unpacked.
use casacure.Prelude.{
  ℕ, zero, suc, ◌+◌, ◌*◌, ◌/◌, ◌%◌, ◌≡◌, refl, sym, ap, Bool, true, false, not, ◌&&◌, List, [], ◌∷◌,
  ◌++◌, arith, length, append_assoc,
}
use casacure.Result.{Result, ok, err, ◌>>=◌}
use casacure.Tsm.{
  Panic, gather, pack, tail_byte, encode_bits, bit_at, lut, decode_chunk, decode_chunks,
  decode_tail, decode_bits,
}

-- A test of all lists of `k` Booleans.
holds_for_all : ℕ → (List Bool → Bool) → Bool
holds_for_all zero p = p []
holds_for_all (suc k) p =
    holds_for_all k (λ t. p (true ∷ t)) && holds_for_all k (λ t. p (false ∷ t))

at_each :
    (k : ℕ) (p : List Bool → Bool) (t : List Bool)
    → holds_for_all k p ≡ true
    → length t ≡ k
    → p t ≡ true
unfolding holds_for_all
at_each zero p [] h e = h
at_each zero p (b ∷ t) h e = absurd (omega arith)
at_each (suc k) p [] h e = absurd (omega arith)
at_each (suc k) p (true ∷ t) h e = at_each k (λ s. p (true ∷ s)) t (ground arith) (omega arith)
at_each (suc k) p (false ∷ t) h e = at_each k (λ s. p (false ∷ s)) t (ground arith) (omega arith)

same_bit : Bool → Bool → Bool
same_bit true b = b
same_bit false b = not b

same_bits : List Bool → List Bool → Bool
same_bits [] [] = true
same_bits [] (c ∷ cs) = false
same_bits (b ∷ bs) [] = false
same_bits (b ∷ bs) (c ∷ cs) = same_bit b c && same_bits bs cs

eq_of_same_bit : (b c : Bool) → same_bit b c ≡ true → b ≡ c
unfolding same_bit
eq_of_same_bit true c h = sym h
eq_of_same_bit false true h = cc
eq_of_same_bit false false h = refl

eq_of_same_bits : (bs cs : List Bool) → same_bits bs cs ≡ true → bs ≡ cs
unfolding same_bits
eq_of_same_bits [] [] h = refl
eq_of_same_bits [] (c ∷ cs) h = cc
eq_of_same_bits (b ∷ bs) [] h = cc
eq_of_same_bits (b ∷ bs) (c ∷ cs) h =
    let first : b ≡ c = eq_of_same_bit b c (ground arith) in
    let rest : bs ≡ cs = eq_of_same_bits bs cs (ground arith) in λ i. first i ∷ rest i

pack_checked : holds_for_all 8 (λ t. same_bits (lut (pack t)) t) ≡ true
unfolding holds_for_all same_bits same_bit lut bit_at pack gather
pack_checked = refl

-- The multiplication packs every eight Booleans.
lut-pack : (t : List Bool) → length t ≡ 8 → lut (pack t) ≡ t
lut-pack t e =
    eq_of_same_bits (lut (pack t)) t (at_each 8 (λ s. same_bits (lut (pack s)) s) t pack_checked e)

same_result : Result Panic (List Bool) → List Bool → Bool
same_result (ok bs) cs = same_bits bs cs
same_result (err e) cs = false

eq_of_same_result :
    (r : Result Panic (List Bool)) (cs : List Bool) → same_result r cs ≡ true → r ≡ ok cs
unfolding same_result
eq_of_same_result (ok bs) cs h = ap ok (eq_of_same_bits bs cs h)
eq_of_same_result (err e) cs h = cc

-- A byte more in front.
chunks_behind :
    (b : ℕ) (bytes : List ℕ) (i n : ℕ)
    → decode_chunks (b ∷ bytes) 0 (suc i) n ≡ decode_chunks bytes 0 i n
unfolding decode_chunks decode_chunk
chunks_behind b bytes i zero = refl
chunks_behind b bytes i (suc n) =
    let e : suc i + 1 ≡ suc (i + 1) = omega arith in rw (e, chunks_behind b bytes (i + 1) n) refl

tail_behind :
    (b : ℕ) (bytes : List ℕ) (bit n : ℕ)
    → decode_tail (b ∷ bytes) (bit + 8) n ≡ decode_tail bytes bit n
unfolding decode_tail
tail_behind b bytes bit zero = refl
tail_behind b bytes bit (suc n) =
    let place : (bit + 8) / 8 ≡ suc (bit / 8) = omega arith in
    let inside : (bit + 8) % 8 ≡ bit % 8 = omega arith in
    let next : bit + 8 + 1 ≡ bit + 1 + 8 = omega arith in
    rw (place, inside, next, tail_behind b bytes (bit + 1) n) refl

regrouped :
    (first : List Bool) (x y : Result Panic (List Bool))
    → ((x >>= λ rest. ok (first ++ rest)) >>= λ full. y >>= λ rest. ok (full ++ rest))
      ≡ ((x >>= λ full. y >>= λ rest. ok (full ++ rest)) >>= λ r. ok (first ++ r))
regrouped first (ok a) (ok b) = ap ok (append_assoc first a b)
regrouped first (ok a) (err e) = refl
regrouped first (err e) y = refl

first_chunk :
    (b : ℕ) (bytes : List ℕ) (m : ℕ)
    → decode_chunks (b ∷ bytes) 0 0 (suc m)
      ≡ (decode_chunks bytes 0 0 m >>= λ rest. ok (lut b ++ rest))
unfolding decode_chunks decode_chunk
first_chunk b bytes m = rw (chunks_behind b bytes 0 m) refl

decode_behind :
    (b : ℕ) (bytes : List ℕ) (n : ℕ)
    → decode_bits (b ∷ bytes) 0 (n + 8) ≡ (decode_bits bytes 0 n >>= λ r. ok (lut b ++ r))
unfolding decode_bits
decode_behind b bytes n =
    let chunks : (n + 8) / 8 ≡ suc (n / 8) = omega arith in
    let left : (n + 8) % 8 ≡ n % 8 = omega arith in
    let place : 0 + suc (n / 8) * 8 ≡ 0 + n / 8 * 8 + 8 = omega arith in
    let first : decode_chunks (b ∷ bytes) 0 0 (suc (n / 8))
        ≡ (decode_chunks bytes 0 0 (n / 8) >>= λ rest. ok (lut b ++ rest)) =
      first_chunk b bytes (n / 8) in
    rw (chunks, left, place, tail_behind b bytes (0 + n / 8 * 8) (n % 8), first)
      (regrouped (lut b) (decode_chunks bytes 0 0 (n / 8))
        (decode_tail bytes (0 + n / 8 * 8) (n % 8)))

-- The bits of one byte that is not full.
reads_tail : ℕ → List Bool → Bool
reads_tail k t = same_result (decode_bits (tail_byte 0 0 t ∷ []) 0 k) t

checked_1 : holds_for_all 1 (reads_tail 1) ≡ true
unfolding holds_for_all reads_tail same_result same_bits same_bit tail_byte decode_bits
    decode_chunks decode_tail
checked_1 = refl

checked_2 : holds_for_all 2 (reads_tail 2) ≡ true
unfolding holds_for_all reads_tail same_result same_bits same_bit tail_byte decode_bits
    decode_chunks decode_tail
checked_2 = refl

checked_3 : holds_for_all 3 (reads_tail 3) ≡ true
unfolding holds_for_all reads_tail same_result same_bits same_bit tail_byte decode_bits
    decode_chunks decode_tail
checked_3 = refl

checked_4 : holds_for_all 4 (reads_tail 4) ≡ true
unfolding holds_for_all reads_tail same_result same_bits same_bit tail_byte decode_bits
    decode_chunks decode_tail
checked_4 = refl

checked_5 : holds_for_all 5 (reads_tail 5) ≡ true
unfolding holds_for_all reads_tail same_result same_bits same_bit tail_byte decode_bits
    decode_chunks decode_tail
checked_5 = refl

checked_6 : holds_for_all 6 (reads_tail 6) ≡ true
unfolding holds_for_all reads_tail same_result same_bits same_bit tail_byte decode_bits
    decode_chunks decode_tail
checked_6 = refl

checked_7 : holds_for_all 7 (reads_tail 7) ≡ true
unfolding holds_for_all reads_tail same_result same_bits same_bit tail_byte decode_bits
    decode_chunks decode_tail
checked_7 = refl

read_tail :
    (k : ℕ) (t : List Bool)
    → holds_for_all k (reads_tail k) ≡ true
    → length t ≡ k
    → decode_bits (tail_byte 0 0 t ∷ []) 0 k ≡ ok t
read_tail k t h e =
    let r : reads_tail k t ≡ true = at_each k (reads_tail k) t h e in
    unfold reads_tail in eq_of_same_result (decode_bits (tail_byte 0 0 t ∷ []) 0 k) t r

-- Every list of Booleans that is packed, eight to a byte by one multiplication and the others bit by
-- bit, is unpacked from the first bit on, by the table and bit by bit, as it was.
pub decode_bits-encode_bits :
    (values : List Bool) → decode_bits (encode_bits values) 0 (length values) ≡ ok values
unfolding encode_bits
decode_bits-encode_bits [] = unfold decode_bits decode_chunks decode_tail in refl
decode_bits-encode_bits (b0 ∷ []) = read_tail 1 (b0 ∷ []) checked_1 refl
decode_bits-encode_bits (b0 ∷ b1 ∷ []) = read_tail 2 (b0 ∷ b1 ∷ []) checked_2 refl
decode_bits-encode_bits (b0 ∷ b1 ∷ b2 ∷ []) = read_tail 3 (b0 ∷ b1 ∷ b2 ∷ []) checked_3 refl
decode_bits-encode_bits (b0 ∷ b1 ∷ b2 ∷ b3 ∷ []) =
    read_tail 4 (b0 ∷ b1 ∷ b2 ∷ b3 ∷ []) checked_4 refl
decode_bits-encode_bits (b0 ∷ b1 ∷ b2 ∷ b3 ∷ b4 ∷ []) =
    read_tail 5 (b0 ∷ b1 ∷ b2 ∷ b3 ∷ b4 ∷ []) checked_5 refl
decode_bits-encode_bits (b0 ∷ b1 ∷ b2 ∷ b3 ∷ b4 ∷ b5 ∷ []) =
    read_tail 6 (b0 ∷ b1 ∷ b2 ∷ b3 ∷ b4 ∷ b5 ∷ []) checked_6 refl
decode_bits-encode_bits (b0 ∷ b1 ∷ b2 ∷ b3 ∷ b4 ∷ b5 ∷ b6 ∷ []) =
    read_tail 7 (b0 ∷ b1 ∷ b2 ∷ b3 ∷ b4 ∷ b5 ∷ b6 ∷ []) checked_7 refl
decode_bits-encode_bits (b0 ∷ b1 ∷ b2 ∷ b3 ∷ b4 ∷ b5 ∷ b6 ∷ b7 ∷ values) =
    let eight : List Bool = b0 ∷ b1 ∷ b2 ∷ b3 ∷ b4 ∷ b5 ∷ b6 ∷ b7 ∷ [] in
    let n : length (b0 ∷ b1 ∷ b2 ∷ b3 ∷ b4 ∷ b5 ∷ b6 ∷ b7 ∷ values) ≡ length values + 8 =
      omega arith in
    rw
      (
        n,
        decode_behind (pack eight) (encode_bits values) (length values),
        decode_bits-encode_bits values,
        lut-pack eight refl,
      )
      refl
