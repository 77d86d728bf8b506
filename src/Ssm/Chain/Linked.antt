-- ===== src/Ssm/Chain/Linked.antt =====
-- An index stream in the linked index buckets of a data file of crates/casacure/src/ssm.rs.
use casacure.Prelude.{
  ℕ, zero, suc, ◌+◌, ◌-◌, ◌*◌, ◌%◌, ◌^◌, ◌≤◌, ◌<◌, ◌≡◌, refl, sym, ◌∙◌, true, false, List, [], ◌∷◌,
  ◌++◌, append_assoc, append-nil, Option, none, some, min, length, length-append, get_elem?, slice,
  slice-append, arith,
}
use casacure.Prelude.Int.{ℤ, pos, negsuc, as_u32, as_u32-lt, as_i32-as_u32, IsI32}
use casacure.Result.{ok}
use casacure.Bytes.{to_bytes, from_bytes-to_bytes}
use casacure.Aipsio.Reads.{concat_bytes, All}
use casacure.Ssm.Cells.{get_range, get_range-slice}
use casacure.Ssm.Chain.{read_i32_at, part_at, part_of, bucket_start, chain}

-- Where the stream begins in a bucket: at the offset of the index, or behind the link header.
abbrev pub stream_start : Option ℕ → ℕ
stream_start none = 8
stream_start (some off) = off

-- The second word of a bucket's link header is `next`, big endian.
pub record LinksTo (bucket : List ℕ) (next : ℤ) : Type 0 where
  pub word : slice bucket 4 4 ≡ to_bytes false 4 (as_u32 next)
  pub in_range : IsI32 next

-- `Linked o buckets k n stream`: the stream stands in `n` buckets, of which `k` is the first. Each but
-- the last is filled to its end and names the next, and the last names none.
pub data Linked (o : Option ℕ) (buckets : List (List ℕ)) : ℕ → ℕ → List ℕ → Type 0 where
  last :
      (k m : ℕ) (head part tail : List ℕ)
      → get_elem? buckets k ≡ some (head ++ (part ++ tail))
      → length head ≡ stream_start o
      → LinksTo (head ++ (part ++ tail)) (negsuc m)
      → Linked o buckets k 1 part
  more :
      (k next n : ℕ) (head part rest : List ℕ)
      → get_elem? buckets k ≡ some (head ++ part)
      → length head ≡ stream_start o
      → LinksTo (head ++ part) (pos next)
      → Linked o buckets next n rest
      → Linked o buckets k (suc n) (part ++ rest)

get_range-part :
    (xs ys zs : List ℕ) → get_range (xs ++ (ys ++ zs)) (length xs) (length xs + length ys) ≡ some ys
get_range-part xs ys zs =
    let fits : length xs + length ys ≤ length (xs ++ (ys ++ zs)) =
      rw (length-append, length-append) (omega arith) in
    rw (get_range-slice (xs ++ (ys ++ zs)) (length xs) (length ys) fits, slice-append xs ys zs) refl

read_i32_at-LinksTo :
    (bucket : List ℕ) (next : ℤ)
    → 8 ≤ length bucket
    → LinksTo bucket next
    → read_i32_at true bucket 4 ≡ ok next
unfolding read_i32_at
read_i32_at-LinksTo bucket next h link =
    rw
      (
        get_range-slice bucket 4 4 (omega arith),
        link.word,
        from_bytes-to_bytes false 4 (as_u32 next) (omega (arith, as_u32-lt next)),
        as_i32-as_u32 next link.in_range,
      )
      refl

part_at-length :
    (head part tail : List ℕ) (from n : ℕ)
    → length head ≡ from
    → length part ≡ n
    → part_at (head ++ (part ++ tail)) from n ≡ ok part
unfolding part_at
part_at-length head part tail from n h k = rw (← h, ← k, get_range-part head part tail) refl

-- As much of the stream as the bucket holds.
part_of-length :
    (size left : ℕ) (o : Option ℕ) (head part tail : List ℕ)
    → 8 ≤ size
    → size < 2 ^ 64
    → length head ≡ stream_start o
    → length part ≡ min left (size - stream_start o)
    → part_of size o left (head ++ (part ++ tail)) ≡ ok part
unfolding part_of
part_of-length size left (some off) head part tail large small h k =
    part_at-length head part tail off (min left (size - off)) h k
part_of-length size left none head part tail large small h k =
    let wrapped : (size + 2 ^ 64 - 8) % 2 ^ 64 ≡ size - 8 = omega arith in
    rw wrapped (part_at-length head part tail 8 (min left (size - 8)) h k)

-- The place of bucket `k` in the buckets.
record Placed (size k : ℕ) (bucket : List ℕ) (buckets : List (List ℕ)) : Type 0 where
  before : List ℕ
  after : List ℕ
  split : concat_bytes (λ b. b) buckets ≡ before ++ (bucket ++ after)
  place : length before ≡ k * size

Placed-get_elem? :
    (size k : ℕ) (bucket : List ℕ) (buckets : List (List ℕ))
    → All (λ b. length b ≡ size) buckets
    → get_elem? buckets k ≡ some bucket
    → Placed size k bucket buckets
unfolding concat_bytes
Placed-get_elem? size k bucket [] all e = absurd (cc)
Placed-get_elem? size zero bucket (b ∷ bs) all e =
    let same : b ≡ bucket = cc in
    record {
      before = [];
      after = concat_bytes (λ x. x) bs;
      split = rw same refl;
      place = omega arith;
    }
Placed-get_elem? size (suc k) bucket (b ∷ bs) (h, hs) e =
    let later = Placed-get_elem? size k bucket bs hs e in
    record {
      before = b ++ later.before;
      after = later.after;
      split = rw (later.split, append_assoc b) refl;
      place = rw length-append (omega (arith, later.place, h));
    }

module _ (size : ℕ) (o : Option ℕ) (header : List ℕ) (buckets : List (List ℕ)) (large : 8 ≤ size)
    (small : size < 2 ^ 64) (at_512 : length header ≡ 512)
    (all : All (λ b. length b ≡ size) buckets) where
  abbrev file : List ℕ
  file = header ++ concat_bytes (λ b. b) buckets

  length-found :
      (k : ℕ) (bucket : List ℕ) (bs : List (List ℕ))
      → All (λ b. length b ≡ size) bs
      → get_elem? bs k ≡ some bucket
      → length bucket ≡ size
  length-found k bucket [] hs e = absurd (cc)
  length-found zero bucket (b ∷ bs) (h, hs) e = let same : b ≡ bucket = cc in rw (← same) h
  length-found (suc k) bucket (b ∷ bs) (h, hs) e = length-found k bucket bs hs e

  get_range-bucket :
      (k : ℕ) (bucket : List ℕ)
      → get_elem? buckets k ≡ some bucket
      → get_range file (bucket_start size k) (bucket_start size k + size) ≡ some bucket
  unfolding bucket_start
  get_range-bucket k bucket e =
      let placed = Placed-get_elem? size k bucket buckets all e in
      let whole : length bucket ≡ size = length-found k bucket buckets all e in
      let start : length (header ++ placed.before) ≡ 512 + k * size =
        rw length-append (omega (arith, placed.place)) in
      rw (placed.split, ← start, ← whole, ← append_assoc header)
        (get_range-part (header ++ placed.before) bucket placed.after)

  whole :
      (k : ℕ) (head rest : List ℕ)
      → get_elem? buckets k ≡ some (head ++ rest)
      → length head + length rest ≡ size
  whole k head rest e = sym (length-append head rest) ∙ length-found k (head ++ rest) buckets all e

  -- A stream that stands linked in buckets of one size, of at least the link header, behind the 512
  -- bytes of the header, is read back, on any number of rounds from that of its buckets on.
  pub chain-Linked :
      (k n fuel : ℕ) (stream : List ℕ)
      → Linked o buckets k n stream
      → n ≤ fuel
      → chain file size o fuel k (length stream) ≡ ok stream
  unfolding chain
  chain-Linked _ _ zero _ (last k m head part tail e h link) le = absurd (omega arith)
  chain-Linked _ _ (suc fuel) _ (last k m head part tail e h link) le =
      let full : length head + length (part ++ tail) ≡ size = whole k head (part ++ tail) e in
      let sum : length (part ++ tail) ≡ length part + length tail = length-append part tail in
      let sized : 8 ≤ length (head ++ (part ++ tail)) = rw length-append (omega arith) in
      rw
        (
          get_range-bucket k (head ++ (part ++ tail)) e,
          read_i32_at-LinksTo (head ++ (part ++ tail)) (negsuc m) sized link,
          part_of-length size (length part) o head part tail large small h (omega arith),
        )
        refl
  chain-Linked _ _ zero _ (more k next n' head part rest e h link later) le = absurd (omega arith)
  chain-Linked _ _ (suc fuel) _ (more k next n' head part rest e h link later) le =
      let full : length head + length part ≡ size = whole k head part e in
      let sum : length (part ++ rest) ≡ length part + length rest = length-append part rest in
      let sized : 8 ≤ length (head ++ part) = rw length-append (omega arith) in
      let number : next % 2 ^ 32 ≡ next = omega (arith, link.in_range) in
      let left : length (part ++ rest) - length part ≡ length rest = omega arith in
      let taken : part_of size o (length (part ++ rest)) (head ++ part) ≡ ok part =
        rw (append-nil part) at (
          part_of-length size (length (part ++ rest)) o head part [] large small h (omega arith)) in
      rw
        (
          get_range-bucket k (head ++ part) e,
          read_i32_at-LinksTo (head ++ part) (pos next) sized link,
          taken,
          number,
          left,
          chain-Linked next n' fuel rest later (omega arith),
        )
        refl
