-- ===== src/Ism/File/Whole.antt =====
-- The file that `write_ism_file` of crates/casacure/src/ism.rs writes, parsed by `parse`, and its cells.
use casacure.Prelude.{
  ℕ, ◌+◌, ◌-◌, ◌*◌, ◌%◌, ◌^◌, ◌≤◌, ◌<◌, ◌≡◌, refl, sym, ap, ◌∙◌, Bool, true, false, List, [], ◌∷◌,
  ◌++◌, some, arith, ltb, if◌then◌else◌, length, take, drop, append-nil, replicate,
  length-replicate, append_assoc, length-append, slice, slice-prefix, slice-suffix, drop-add,
  drop-append,
}
use casacure.Prelude.Int.{negsuc}
use casacure.Result.{ok}
use casacure.Aipsio.Reader.{reader_for}
use casacure.Aipsio.Writes.{seq_assoc}
use casacure.Ism.{IsmHeader, IsmIndex, data_start, ism_bucket_size}
use casacure.Ism.Parse.{read_header, read_index, read_index_bytes, parse_meta}
use casacure.Ism.Encode.{put_flag, put_header_fields, encode_ism_header}
use casacure.Ism.RoundTrip.Header.{IsHeader, read_ism_header-encode, length-encode_ism_header}
use casacure.Ism.File.{IsmFile, parse, bucket_bytes, write_header, resize}

-- The header that the file is given.
abbrev pub fresh_header : Bool → ℕ → IsmHeader
fresh_header big nr = record {
  version = if big then 4 else 5;
  big_endian = big;
  bucket_size = ism_bucket_size;
  nbucket = nr;
  pers_cache_size = 0;
  uniq_nr = 0;
  n_free_bucket = 0;
  first_free_bucket = negsuc 0;
}

pub write_header-encode :
    (big : Bool) (nr : ℕ)
    → nr < 2 ^ 32
    → write_header big ism_bucket_size nr ≡ encode_ism_header (fresh_header big nr)
unfolding write_header encode_ism_header put_header_fields put_flag
write_header-encode true nr h = let e : nr % 2 ^ 32 ≡ nr = omega arith in rw e (simp seq_assoc refl)
write_header-encode false nr h =
    let e : nr % 2 ^ 32 ≡ nr = omega arith in rw e (simp seq_assoc refl)

pub fresh-IsHeader : (big : Bool) (nr : ℕ) → nr < 2 ^ 32 → IsHeader (fresh_header big nr)
fresh-IsHeader true nr h = record {
  version = omega arith;
  bucket_size = omega arith;
  nbucket = h;
  pers_cache_size = omega arith;
  uniq_nr = omega arith;
  n_free_bucket = omega arith;
  first_free_bucket = omega arith;
}
fresh-IsHeader false nr h = record {
  version = omega arith;
  bucket_size = omega arith;
  nbucket = h;
  pers_cache_size = omega arith;
  uniq_nr = omega arith;
  n_free_bucket = omega arith;
  first_free_bucket = omega arith;
}

unsome : {A : Type 0} {a b : A} → some a ≡ some b → a ≡ b
unsome e = cc

take-all : (xs : List ℕ) → take (length xs) xs ≡ xs
take-all [] = refl
take-all (x ∷ xs) = ap (λ t. x ∷ t) (take-all xs)

resize-pads :
    (n : ℕ) (xs : List ℕ)
    → length xs ≤ n
    → (resize n xs ≡ xs ++ replicate (n - length xs) 0) × (length (resize n xs) ≡ n)
unfolding resize
resize-pads n xs h =
    let zeros : List ℕ = replicate (n - length xs) 0 in
    let room : length zeros ≡ n - length xs = length-replicate (n - length xs) _ in
    let whole : length (xs ++ zeros) ≡ n = omega (arith, length-append xs zeros) in
    let kept : take n (xs ++ zeros) ≡ xs ++ zeros = rw whole at (take-all (xs ++ zeros)) in
    (kept, rw kept whole)

-- A file that is put together of a header, the buckets and the index, in front of which the header
-- is padded.
module _ (big : Bool) (nr : ℕ) (few : nr < 2 ^ 32) (head buckets index_bytes : List ℕ)
    (index : IsmIndex) (headed : encode_ism_header (fresh_header big nr) ≡ some head)
    (counted : length buckets ≡ nr * ism_bucket_size)
    (indexed : (rest : List ℕ)
      → (read_index (reader_for big (index_bytes ++ rest))).0 ≡ ok index) where
  abbrev pub bytes : List ℕ
  bytes = resize data_start head ++ (buckets ++ index_bytes)

  short : length head ≤ 512
  short = length-encode_ism_header (fresh_header big nr) head headed

  read_header-bytes : (read_header big (reader_for big bytes)).0 ≡ ok (fresh_header big nr)
  read_header-bytes =
      let (found, e, reads) =
        read_ism_header-encode (fresh_header big nr) (fresh-IsHeader big nr few) in
      let same : found ≡ head = unsome (sym e ∙ headed) in
      let split : bytes ≡ head ++ (replicate (512 - length head) 0 ++ (buckets ++ index_bytes)) =
        rw (resize-pads 512 head short).0 (append_assoc head _ _) in
      rw (split, ← same) (reads _)

  index_at : drop (data_start + nr * ism_bucket_size) bytes ≡ index_bytes
  index_at =
      let sized : length (resize data_start head) ≡ data_start = (resize-pads 512 head short).1 in
      let e : data_start + nr * ism_bucket_size ≡ length (resize data_start head) + length buckets =
        omega arith in
      rw (e, drop-add, drop-append, drop-append) refl

  read_index-bytes : read_index_bytes bytes (fresh_header big nr) big ≡ ok index
  unfolding read_index_bytes
  read_index-bytes =
      let long : ltb (length bytes) (data_start + nr * ism_bucket_size) ≡ false = ground (
        arith,
        length-append (resize data_start head) (buckets ++ index_bytes),
        length-append buckets index_bytes,
        (resize-pads 512 head short).1,
      ) in
      rw (long, index_at) (rw append-nil at (indexed []))

  abbrev pub parsed : IsmFile
  parsed = record { header = fresh_header big nr; index = index; bytes = bytes }

  pub parse-bytes : parse bytes big ≡ ok parsed
  unfolding parse parse_meta
  parse-bytes = rw (read_header-bytes, read_index-bytes) refl

  pub bucket_bytes-at :
      (i : ℕ)
      → i < nr
      → bucket_bytes parsed i ≡ ok (slice buckets (i * ism_bucket_size) ism_bucket_size)
  unfolding bucket_bytes
  bucket_bytes-at i lt =
      let sized : length (resize data_start head) ≡ data_start = (resize-pads 512 head short).1 in
      let below : (i + 1) * ism_bucket_size ≤ nr * ism_bucket_size = omega arith in
      let long : ltb (length bytes) (data_start + i * ism_bucket_size + ism_bucket_size) ≡ false =
        ground (
          arith,
          length-append (resize data_start head) (buckets ++ index_bytes),
          length-append buckets index_bytes,
        ) in
      let inner : slice bytes (data_start + i * ism_bucket_size) ism_bucket_size
          ≡ slice (buckets ++ index_bytes) (i * ism_bucket_size) ism_bucket_size =
        let place : data_start + i * ism_bucket_size
            ≡ length (resize data_start head) + i * ism_bucket_size =
          omega arith in
        ap (λ p. slice bytes p ism_bucket_size) place
        ∙ slice-suffix (resize data_start head) (buckets ++ index_bytes) (i * ism_bucket_size)
            ism_bucket_size in
      rw (long, inner)
        (ap ok
          (slice-prefix buckets index_bytes (i * ism_bucket_size) ism_bucket_size (omega arith)))
