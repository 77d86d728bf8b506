-- ===== src/Tests/Cells.antt =====
-- The layout, the cells and the string contents of crates/casacure/src/ssm.rs at concrete inputs.
use casacure.Prelude.{
  ◌++◌, length, ℕ, ◌+◌, ◌*◌, ◌≤◌, ◌≡◌, refl, true, List, [], ◌∷◌, none, some, arith, slice,
  replicate, if◌then◌else◌,
}
use casacure.Prelude.Int.{pos}
use casacure.Result.{ok}
use casacure.Bytes.{codes, to_bytes, to_le_bytes, from_bytes, from_le_bytes}
use casacure.Bytes.Utf8.{is_utf8}
use casacure.Aipsio.Reads.{concat_bytes}
use casacure.Ssm.{IndexedBucket, data_start}
use casacure.Ssm.Cells.{cell_bytes_in_bucket, cell_start, cell_bytes_in_bucket-region}
use casacure.Ssm.Chain.{chain}
use casacure.Ssm.Chain.Linked.{Linked, last, more, chain-Linked}
use casacure.Ssm.Layout.{layout, place, region, layout_in_bucket, layout_disjoint}
use casacure.Ssm.Strings.{
  string, encode_string_array_content, decode_string_array_content, put_strings, product,
  saturating_product, try_fixed_header_layout,
}
use casacure.Ssm.Strings.RoundTrip.{IsElement}
use casacure.Ssm.Strings.RoundTrip.Contents.{
  decode_string_array_content-encode, decode_string_array_content-encode_fixed,
}

abbrev three_columns : List ℕ
three_columns = 32 ∷ 1 ∷ 64 ∷ []

layout_in_bucket_example : 21 + region 5 64 ≤ (layout 5 three_columns).bucket_size
layout_in_bucket_example =
    layout_in_bucket 5 three_columns 2 21 64 (unfold region in omega arith)
      (unfold layout place region in refl) refl

layout_disjoint_example : 20 + region 5 1 ≤ 21
layout_disjoint_example =
    layout_disjoint 5 three_columns 1 2 20 21 1 (unfold region in omega arith) (omega arith) refl
      (unfold layout place region in refl) (unfold layout place region in refl)

abbrev bucket : IndexedBucket
bucket = record { number = 1; start_row = 5; end_row = 9 }

abbrev file : List ℕ
file = replicate 768 9

cell_bytes_in_bucket-region_example :
    (cell_bytes_in_bucket file 128 0 7 4 bucket
      ≡ ok (slice file (cell_start 128 0 7 4 bucket) 4, 0))
    × (data_start + 1 * 128 + 0 ≤ cell_start 128 0 7 4 bucket)
    × (cell_start 128 0 7 4 bucket + 4 ≤ data_start + 1 * 128 + 0 + region 5 32)
cell_bytes_in_bucket-region_example =
    cell_bytes_in_bucket-region file 128 0 7 4 bucket 5 (omega arith) (omega arith) (omega arith)
      (omega arith) (omega arith) (omega arith) (omega arith)

abbrev two_strings : List (List ℕ)
two_strings = codes "XX" ∷ codes "Y" ∷ []

-- A conversion that keeps UTF-8 and loses the rest.
abbrev ascii_only : List ℕ → List ℕ
ascii_only s = if is_utf8 s then s else codes "?"

ascii_only-keeps : (s : List ℕ) → is_utf8 s ≡ true → ascii_only s ≡ s
ascii_only-keeps s h = rw h refl

two_strings-IsElement : IsElement (codes "XX") × (IsElement (codes "Y") × Unit {0})
unfolding is_utf8
two_strings-IsElement =
    (record { utf8 = refl; short = omega arith }, (record { utf8 = refl; short = omega arith }, tt))

decode_string_array_content-encode_example :
    (content : List ℕ) × (encode_string_array_content (1 ∷ 2 ∷ []) (string two_strings) none
      ≡ ok content)
    × (decode_string_array_content ascii_only content none ≡ ok (1 ∷ 2 ∷ [], two_strings))
decode_string_array_content-encode_example =
    decode_string_array_content-encode ascii_only ascii_only-keeps (1 ∷ 2 ∷ []) two_strings
      two_strings-IsElement (omega arith, (omega arith, tt)) (omega arith) (unfold product in refl)

headerless : try_fixed_header_layout ascii_only (put_strings two_strings) (2 ∷ []) 2 ≡ none
unfolding try_fixed_header_layout concat_bytes to_bytes to_le_bytes from_bytes from_le_bytes
headerless = refl

decode_string_array_content-encode_fixed_example :
    (encode_string_array_content [] (string two_strings) (some (pos 2 ∷ []))
      ≡ ok (put_strings two_strings))
    × (decode_string_array_content ascii_only (put_strings two_strings) (some (pos 2 ∷ []))
        ≡ ok (2 ∷ [], two_strings))
decode_string_array_content-encode_fixed_example =
    decode_string_array_content-encode_fixed ascii_only ascii_only-keeps (pos 2) [] [] two_strings
      two_strings-IsElement (unfold product in refl) (unfold saturating_product in refl) headerless

-- The stream begins in bucket 1 and ends in bucket 0.
abbrev first_link : List ℕ
first_link = replicate 8 0

abbrev first_part : List ℕ
first_part = 1 ∷ 2 ∷ 3 ∷ 4 ∷ 5 ∷ 6 ∷ 7 ∷ 8 ∷ []

abbrev last_link : List ℕ
last_link = 0 ∷ 0 ∷ 0 ∷ 0 ∷ 255 ∷ 255 ∷ 255 ∷ 255 ∷ []

abbrev last_part : List ℕ
last_part = 9 ∷ 10 ∷ 11 ∷ []

abbrev index_buckets : List (List ℕ)
index_buckets = (last_link ++ (last_part ++ replicate 5 0)) ∷ (first_link ++ first_part) ∷ []

index_buckets-Linked : Linked none index_buckets 1 2 (first_part ++ last_part)
unfolding to_bytes to_le_bytes
index_buckets-Linked =
    more 1 0 1 first_link first_part last_part refl refl
      (record { word = refl; in_range = omega arith })
      (last 0 0 last_link last_part (replicate 5 0) refl refl
        (record { word = refl; in_range = omega arith }))

chain-Linked_example :
    chain
      (replicate 512 0 ++ concat_bytes (λ b. b) index_buckets)
      16
      none
      2
      1
      (length (first_part ++ last_part))
    ≡ ok (first_part ++ last_part)
chain-Linked_example =
    chain-Linked 16 none (replicate 512 0) index_buckets (omega arith) (omega arith) refl
      (refl, (refl, tt)) 1 2 2 (first_part ++ last_part) index_buckets-Linked (omega arith)
