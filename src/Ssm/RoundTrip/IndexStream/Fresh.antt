-- ===== src/Ssm/RoundTrip/IndexStream/Fresh.antt =====
-- The index of a fresh file of crates/casacure/src/ssm.rs: what `build_index_stream` writes is an
-- `SSMIndex` of full buckets.
use casacure.Prelude.{
  ◌==◌, ℕ, zero, suc, ◌+◌, ◌-◌, ◌*◌, ◌%◌, ◌^◌, ◌<◌, ◌≤◌, ◌≡◌, refl, ap, sym, ◌∙◌, Bool, true, false,
  not, List, [], ◌∷◌, ◌++◌, map, arith, length, length-map, min, subst,
}
use casacure.Prelude.Int.{as_i32}
use casacure.Bytes.{codes}
use casacure.Aipsio.Block.{put_block, block_bytes, elements_bytes, Writes-block}
use casacure.Aipsio.Reads.{concat_bytes}
use casacure.Aipsio.Encoding.{magic_bytes, object_bytes}
use casacure.Aipsio.Run.{Writes-run}
use casacure.Aipsio.Writer.{put_u32, put_i32, put_root_object_start, put_object_end, ◌>>◌}
use casacure.Aipsio.Writes.{Writes, Writes-seq, Writes-u32, Writes-i32, Writes-root_object}
use casacure.Rows.{is_wide, row_bytes}
use casacure.Ssm.Encode.{
  encode_ssm_index, build_index_stream, put_fresh_fields, put_bucket_end, put_free_map, count_up,
}
use casacure.Ssm.Layout.{StandardStManLayout, div_ceil}
use casacure.Ssm.RoundTrip.IndexStream.{
  index_version, index_fields_bytes, ssm_index_bytes, encode_ssm_index-bytes, Writes-free_map,
}

-- The last row of bucket `b` of a table with `n_rows` rows.
abbrev pub bucket_end : ℕ → ℕ → ℕ → ℕ
bucket_end n_rows rpb b = min ((b + 1) * rpb) n_rows - 1

abbrev pub nr_buckets : ℕ → StandardStManLayout → ℕ
nr_buckets n_rows l = div_ceil n_rows l.rows_per_bucket

-- The last rows of a fresh table.
abbrev pub fresh_last_rows : ℕ → StandardStManLayout → List ℕ
fresh_last_rows n_rows l =
    map (bucket_end n_rows l.rows_per_bucket) (count_up 0 (nr_buckets n_rows l))

length-count_up : (b n : ℕ) → length (count_up b n) ≡ n
unfolding count_up
length-count_up b zero = refl
length-count_up b (suc n) = ap suc (length-count_up (b + 1) n)

concat_bytes-map :
    (enc : ℕ → List ℕ) (f : ℕ → ℕ) (xs : List ℕ)
    → concat_bytes enc (map f xs) ≡ concat_bytes (λ x. enc (f x)) xs
unfolding concat_bytes
concat_bytes-map enc f [] = refl
concat_bytes-map enc f (x ∷ xs) = ap (λ t. enc (f x) ++ t) (concat_bytes-map enc f xs)

block_bytes-map :
    (little : Bool) (enc : ℕ → List ℕ) (f : ℕ → ℕ) (xs : List ℕ)
    → block_bytes little enc (map f xs) ≡ block_bytes little (λ x. enc (f x)) xs
unfolding block_bytes elements_bytes
block_bytes-map little enc f xs = rw (concat_bytes-map enc f xs, length-map xs f) refl

is_wide-map : (f : ℕ → ℕ) (xs : List ℕ) → ((x : ℕ) → f x < 2 ^ 32) → is_wide (map f xs) ≡ false
unfolding is_wide
is_wide-map f [] h = refl
is_wide-map f (x ∷ []) h = ground (arith, h x)
is_wide-map f (x ∷ y ∷ ys) h = is_wide-map f (y ∷ ys) h

bucket_end-lt : (n_rows rpb b : ℕ) → n_rows ≤ 2 ^ 32 → bucket_end n_rows rpb b < 2 ^ 32
bucket_end-lt n_rows rpb b h = omega arith

Writes-bucket_end :
    (little : Bool) (n_rows rpb b : ℕ)
    → Writes little (put_bucket_end n_rows rpb b) (row_bytes little false (bucket_end n_rows rpb b))
unfolding put_bucket_end row_bytes
Writes-bucket_end little n_rows rpb b = Writes-u32 _

magic_object : Bool → ℕ → List ℕ → List ℕ
magic_object big v fields =
    magic_bytes (not big) true ++ object_bytes (not big) (codes "SSMIndex") v fields

module _ (big : Bool) (n_rows : ℕ) (l : StandardStManLayout) (nr_columns : ℕ) where
  narrow : n_rows ≤ 2 ^ 32 → is_wide (fresh_last_rows n_rows l) ≡ false
  narrow h =
      is_wide-map _ (count_up 0 (nr_buckets n_rows l))
        (λ x. bucket_end-lt n_rows l.rows_per_bucket x h)

  counted : length (fresh_last_rows n_rows l) ≡ nr_buckets n_rows l
  counted =
      length-map (count_up 0 (nr_buckets n_rows l)) _ ∙ length-count_up 0 (nr_buckets n_rows l)

  abbrev fresh_fields : List ℕ
  fresh_fields =
      index_fields_bytes big l.rows_per_bucket nr_columns (fresh_last_rows n_rows l)
        (count_up 0 (nr_buckets n_rows l))

  Writes-fresh_fields :
      n_rows ≤ 2 ^ 32
      → nr_buckets n_rows l < 2 ^ 32
      → Writes (not big) (put_fresh_fields n_rows l nr_columns) fresh_fields
  unfolding put_fresh_fields index_fields_bytes
  Writes-fresh_fields h few =
      let count : nr_buckets n_rows l % 2 ^ 32 ≡ nr_buckets n_rows l = omega arith in
      rw
        (
          narrow h,
          counted,
          block_bytes-map (not big) (row_bytes (not big) false)
              (bucket_end n_rows l.rows_per_bucket) (count_up 0 (nr_buckets n_rows l)),
        )
        (Writes-seq (put_u32 (nr_buckets n_rows l % 2 ^ 32)) _ _ _ (Writes-u32 _) (
          Writes-seq (put_u32 l.rows_per_bucket) _ _ _ (Writes-u32 _) (
            Writes-seq (put_i32 (as_i32 (nr_columns % 2 ^ 32))) _ _ _ (Writes-i32 _) (
              Writes-seq put_free_map _ _ _ (Writes-free_map (not big)) (
                Writes-seq (put_block (put_bucket_end n_rows l.rows_per_bucket) _) _ _ _
                  (Writes-block _ _ (Writes-bucket_end (not big) n_rows l.rows_per_bucket)
                    (count_up 0 (nr_buckets n_rows l)))
                  (rw count
                    (Writes-block put_u32 _ Writes-u32 (count_up 0 (nr_buckets n_rows l)))))))))

  -- For a table of at most 2 ^ 32 rows in fewer than 2 ^ 32 buckets, each of one row at least,
  -- `build_index_stream` writes what `encode_ssm_index` writes for the buckets 0, 1, … of the
  -- layout, each with its last row, in the same byte order.
  pub build_index_stream-encode_ssm_index :
      n_rows ≤ 2 ^ 32
      → 0 < l.rows_per_bucket
      → nr_buckets n_rows l < 2 ^ 32
      → build_index_stream big n_rows l nr_columns
        ≡ encode_ssm_index big l.rows_per_bucket nr_columns
            (fresh_last_rows n_rows l)
            (count_up 0 (nr_buckets n_rows l))
  unfolding build_index_stream ssm_index_bytes index_version magic_object
  build_index_stream-encode_ssm_index h some_rows few =
      let t : (l.rows_per_bucket == 0) ≡ false = ground arith in
      let one : index_version (is_wide (fresh_last_rows n_rows l)) ≡ 1 = rw (narrow h) refl in
      rw t (
        Writes-run big _ _ (
          subst
            (λ v.
              Writes (not big)
                (do
                  put_root_object_start (codes "SSMIndex") 1
                  put_fresh_fields n_rows l nr_columns
                  put_object_end)
                (magic_object big v fresh_fields))
            (sym one)
            (Writes-root_object (codes "SSMIndex") 1 (put_fresh_fields n_rows l nr_columns)
              fresh_fields (Writes-fresh_fields h few))))
      ∙ sym (
          encode_ssm_index-bytes big l.rows_per_bucket nr_columns (fresh_last_rows n_rows l)
            (count_up 0 (nr_buckets n_rows l)))
