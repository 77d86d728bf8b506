-- ===== src/Tests/Managers.antt =====
-- The byte formats and the indices of crates/casacure/src/aipsio.rs, types.rs, ism.rs and ssm.rs at
-- concrete inputs.
use casacure.Prelude.{ℕ, ◌≡◌, ◌↔◌, refl, inl, true, false, List, [], ◌∷◌, ◌++◌, some, arith}
use casacure.Prelude.Int.{pos, negsuc}
use casacure.Result.{ok}
use casacure.Bytes.{codes}
use casacure.Bytes.Utf8.{is_utf8}
use casacure.Search.{Ascending}
use casacure.Aipsio.Reader.{reader_for}
use casacure.Aipsio.Reads.Words.{IsText}
use casacure.Aipsio.RoundTrip.{write_opaque_object, read_opaque_object, read_object-put}
use casacure.Types.{int64, casa_name, to_upper, from_casa_name}
use casacure.Types.Names.{from_casa_name-name}
use casacure.Ism.{IsmHeader, IsmIndex}
use casacure.Ism.Index.{bucket_for, InBucket, bucket_for_iff}
use casacure.Ism
use casacure.Ism.Parse.{read_index, parse_ism_name}
use casacure.Ism.Encode.{encode_ism_header, encode_ism_index, write_ism_blob}
use casacure.Ism.RoundTrip.Header.{IsHeader, read_ism_header-encode}
use casacure.Ism.RoundTrip.IndexStream.{read_index-encode}
use casacure.Ism.RoundTrip.Name.{parse_ism_name-write}
use casacure.Ssm.{StandardStManHeader, SsmIndex, IndexedBucket}
use casacure.Ssm.Index.{find, Covers, find_iff}
use casacure.Ssm
use casacure.Ssm.Parse.{read_index_object}
use casacure.Ssm.Encode.{encode_ssm_header, encode_ssm_index, build_index_stream, count_up}
use casacure.Ssm.RoundTrip.Header.{IsHeader as IsSsmHeader, read_ssm_header-encode}
use casacure.Ssm.Layout.{StandardStManLayout}
use casacure.Ssm.RoundTrip.IndexStream.{read_index_object-encode}
use casacure.Ssm.RoundTrip.IndexStream.Fresh.{
  fresh_last_rows, nr_buckets, build_index_stream-encode_ssm_index,
}

word-IsText : IsText (codes "abc")
unfolding is_utf8
word-IsText = record { utf8 = refl; short = omega arith }

read_object-put_example :
    (bytes : List ℕ) × (write_opaque_object false (codes "abc") 3 (7 ∷ 8 ∷ []) ≡ some bytes)
    × ((rest : List ℕ)
        → (read_opaque_object (codes "abc") (reader_for false (bytes ++ rest))).0
          ≡ ok (3, 7 ∷ 8 ∷ []))
read_object-put_example =
    read_object-put false (codes "abc") 3 (7 ∷ 8 ∷ []) word-IsText (omega arith) (omega arith)

from_casa_name-name_example : from_casa_name (codes "INT64") ≡ ok int64
unfolding casa_name to_upper
from_casa_name-name_example = from_casa_name-name int64 (codes "INT64") (inl refl)

abbrev two_buckets : IsmIndex
two_buckets = record { rows = 0 ∷ 5 ∷ 10 ∷ []; bucket_numbers = 4 ∷ 1 ∷ [] }

bounds-Ascending : Ascending two_buckets.rows
bounds-Ascending = (omega arith, (omega arith, (tt, tt)))

bucket_for_iff_example : (bucket_for two_buckets 7 ≡ some (1, 2, 5)) ↔ InBucket two_buckets 7 1 2 5
bucket_for_iff_example = bucket_for_iff two_buckets 7 1 2 5 bounds-Ascending

read_index-encode_example :
    (bytes : List ℕ) × (encode_ism_index false two_buckets.rows two_buckets.bucket_numbers
      ≡ some bytes)
    × ((rest : List ℕ) → (read_index (reader_for false (bytes ++ rest))).0 ≡ ok two_buckets)
read_index-encode_example =
    read_index-encode false two_buckets.rows two_buckets.bucket_numbers bounds-Ascending
      (omega arith, (omega arith, (omega arith, tt))) (omega arith, (omega arith, tt)) (omega arith)
      (omega arith)

abbrev ism_header : IsmHeader
ism_header = record {
  version = 5;
  big_endian = false;
  bucket_size = 32768;
  nbucket = 2;
  pers_cache_size = 1;
  uniq_nr = 3;
  n_free_bucket = 0;
  first_free_bucket = negsuc 0;
}

ism_header-IsHeader : IsHeader ism_header
ism_header-IsHeader = record {
  version = omega arith;
  bucket_size = omega arith;
  nbucket = omega arith;
  pers_cache_size = omega arith;
  uniq_nr = omega arith;
  n_free_bucket = omega arith;
  first_free_bucket = omega arith;
}

read_ism_header-encode_example :
    (bytes : List ℕ) × (encode_ism_header ism_header ≡ some bytes)
    × ((rest : List ℕ)
        → (Ism.Parse.read_header false (reader_for false (bytes ++ rest))).0 ≡ ok ism_header)
read_ism_header-encode_example = read_ism_header-encode ism_header ism_header-IsHeader

parse_ism_name-write_example :
    (bytes : List ℕ) × (write_ism_blob (codes "abc") ≡ some bytes)
    × ((rest : List ℕ) → parse_ism_name (bytes ++ rest) ≡ some (codes "abc"))
parse_ism_name-write_example = parse_ism_name-write (codes "abc") word-IsText

abbrev used_buckets : SsmIndex
used_buckets = record {
  rows_per_bucket = 5;
  nr_columns = pos 2;
  last_row = 4 ∷ 9 ∷ [];
  bucket_number = 3 ∷ 0 ∷ [];
}

abbrev second_bucket : IndexedBucket
second_bucket = record { number = 0; start_row = 5; end_row = 9 }

last_row-Ascending : Ascending used_buckets.last_row
last_row-Ascending = (omega arith, (tt, tt))

find_iff_example :
    (find used_buckets 6 ≡ some second_bucket) ↔ ((i : ℕ) × Covers used_buckets 6 second_bucket i)
find_iff_example = find_iff used_buckets 6 second_bucket last_row-Ascending

read_index_object-encode_example :
    (bytes : List ℕ) × (encode_ssm_index true 5 2 (4 ∷ 9 ∷ []) (3 ∷ 0 ∷ []) ≡ some bytes)
    × ((rest : List ℕ) → (read_index_object (reader_for true (bytes ++ rest))).0 ≡ ok used_buckets)
read_index_object-encode_example =
    read_index_object-encode true 5 2 (4 ∷ 9 ∷ []) (3 ∷ 0 ∷ []) (omega arith) (omega arith)
      last_row-Ascending (omega arith, (omega arith, tt)) (omega arith, (omega arith, tt))
      (omega arith) (omega arith)

abbrev ssm_header : StandardStManHeader
ssm_header = record {
  version = 3;
  big_endian = true;
  bucket_size = 128;
  nr_buckets = 3;
  pers_cache_size = 2;
  n_free_bucket = 0;
  first_free_bucket = negsuc 0;
  nr_index_buckets = 1;
  first_index_bucket = pos 2;
  index_bucket_offset = pos 8;
  last_string_bucket = negsuc 0;
  index_length = 118;
  nr_index = 1;
}

ssm_header-IsHeader : IsSsmHeader ssm_header
ssm_header-IsHeader = record {
  version = omega arith;
  bucket_size = omega arith;
  nr_buckets = omega arith;
  pers_cache_size = omega arith;
  n_free_bucket = omega arith;
  first_free_bucket = omega arith;
  nr_index_buckets = omega arith;
  first_index_bucket = omega arith;
  index_bucket_offset = omega arith;
  last_string_bucket = omega arith;
  index_length = omega arith;
  nr_index = omega arith;
}

read_ssm_header-encode_example :
    (bytes : List ℕ) × (encode_ssm_header ssm_header ≡ some bytes)
    × ((rest : List ℕ)
        → (Ssm.Parse.read_header true (reader_for true (bytes ++ rest))).0 ≡ ok ssm_header)
read_ssm_header-encode_example = read_ssm_header-encode ssm_header ssm_header-IsHeader

abbrev small_layout : StandardStManLayout
small_layout = record { rows_per_bucket = 5; bucket_size = 64; column_offset = 0 ∷ 20 ∷ [] }

build_index_stream-encode_ssm_index_example :
    build_index_stream true 12 small_layout 2
    ≡ encode_ssm_index true 5 2
        (fresh_last_rows 12 small_layout)
        (count_up 0 (nr_buckets 12 small_layout))
build_index_stream-encode_ssm_index_example =
    build_index_stream-encode_ssm_index true 12 small_layout 2 (omega arith) (omega arith)
      (omega arith)
