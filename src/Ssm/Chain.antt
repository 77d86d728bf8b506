-- ===== src/Ssm/Chain.antt =====
-- The chain of index buckets of crates/casacure/src/ssm.rs: `read_index` puts the index stream
-- together and decodes its objects, and `parse_meta` reads the header before that. The arithmetic
-- of `usize` wraps, as in a release build, and a range outside a bucket is a panic.
pub mod Linked
use casacure.Prelude.{
  ℕ, zero, suc, ◌+◌, ◌-◌, ◌*◌, ◌%◌, ◌^◌, ◌<◌, ◌≤◌, ◌≡◌, refl, ap, Bool, true, false, List, [], ◌∷◌,
  ◌++◌, append-nil, Option, none, some, min, ltb, leb, ◌==◌, if◌then◌else◌, length, length-append,
  slice, slice-append, drop, take, arith,
}
use casacure.Prelude.Int.{ℤ, pos, negsuc, is_negative, as_u32, as_i32}
use casacure.Result.{Result, ok, err, ◌>>=◌}
use casacure.Bytes.{from_bytes}
use casacure.Aipsio.Reader.{reader_for, repeat}
use casacure.Ssm.{
  SsmError, invalid_bucket, cell_out_of_range, panicked, StandardStManHeader, SsmIndex, data_start,
}
use casacure.Ssm.Cells.{get_range, ok_or, get_range-slice}
use casacure.Ssm.Parse.{read_header, read_index_object}

-- `read_i32_at`
unfoldable pub read_i32_at : Bool → List ℕ → ℕ → Result SsmError ℤ
read_i32_at big bytes offset =
    ok_or (get_range bytes offset (offset + 4)) (cell_out_of_range 0 offset 4) >>= λ b.
    ok (as_i32 (from_bytes (if big then false else true) b))

-- `bucket[from..from + n]`
unfoldable pub part_at : List ℕ → ℕ → ℕ → Result SsmError (List ℕ)
part_at bucket from n = ok_or (get_range bucket from (from + n)) panicked

-- What a bucket holds of the stream, of which `left` bytes are to come: from the index's offset, or
-- behind the link header.
unfoldable pub part_of : ℕ → Option ℕ → ℕ → List ℕ → Result SsmError (List ℕ)
part_of size (some off) left bucket = part_at bucket off (min left (size - off))
part_of size none left bucket = part_at bucket 8 (min left ((size + 2 ^ 64 - 8) % 2 ^ 64))

unfoldable pub bucket_start : ℕ → ℕ → ℕ
bucket_start size number = data_start + number * size

-- The stream in at most `n` buckets from bucket `number` on.
unfoldable pub chain : List ℕ → ℕ → Option ℕ → ℕ → ℕ → ℕ → Result SsmError (List ℕ)
chain bytes size offset zero number left = ok []
chain bytes size offset (suc n) number left =
    ok_or (get_range bytes (bucket_start size number) (bucket_start size number + size))
      (invalid_bucket number)
    >>= λ bucket. read_i32_at true bucket 4 >>= λ next. part_of size offset left bucket >>= λ part.
        let rest = chain bytes size offset n (as_u32 next) (left - length part) in
        if is_negative next then ok part else rest >>= λ tail. ok (part ++ tail)

-- The offset of an index that lies in one bucket.
abbrev pub offset_of : ℤ → Option ℕ
offset_of (pos zero) = none
offset_of (pos (suc n)) = some (suc n)
offset_of (negsuc n) = none

unfoldable pub read_index : List ℕ → StandardStManHeader → Bool → Result SsmError (List SsmIndex)
read_index bytes h big =
    if h.nr_index == 0
    then ok []
    else if is_negative h.first_index_bucket
    then err (invalid_bucket 0)
    else (chain bytes h.bucket_size (offset_of h.index_bucket_offset) h.nr_index_buckets
          (as_u32 h.first_index_bucket) h.index_length
        >>= λ stream. (repeat h.nr_index read_index_object (reader_for big stream)).0)

unfoldable pub parse_meta : List ℕ → Bool → Result SsmError (StandardStManHeader × List SsmIndex)
parse_meta bytes big = (read_header big (reader_for big bytes)).0 >>= λ h.
    read_index bytes h big >>= λ indices. ok (h, indices)
