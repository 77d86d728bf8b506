-- ===== src/Ism/RoundTrip/IndexStream.antt =====
-- The `ISMIndex` stream and the name blob of crates/casacure/src/ism.rs, written and read back.
use casacure.Prelude.{
  ℕ, ◌%◌, ◌^◌, ◌<◌, ◌≡◌, refl, ap, Bool, true, false, not, List, [], ◌∷◌, ◌++◌, append-nil,
  append_assoc, some, arith, length, take, if◌then◌else◌,
}
use casacure.Result.{Result, ok}
use casacure.Bytes.{codes, to_bytes}
use casacure.Bytes.Utf8.{is_utf8}
use casacure.Search.{Ascending}
use casacure.Aipsio.Encoding.{object_bytes, magic_bytes}
use casacure.Aipsio.Block.{
  put_block, block_bytes, Block-IsText, Writes-block, Reads-elements, read_elements,
}
use casacure.Aipsio.Reader.{
  Reader, Read, ◌>>=◌, pure, lift, ◌>>◌, read_u32, read_u64, read_object, read_object_start,
  reader_for,
}
use casacure.Aipsio.Reads.{
  Reads, Reads-pure, Reads-bytes, Reads-bind, Reads-lift, Reads-from, ReadsFrom-lift, All,
}
use casacure.Aipsio.Reads.Words.{IsU32, IsU64, IsText, Reads-u32, Reads-u64}
use casacure.Aipsio.Reads.Objects.{ReadsFrom-object, ReadsFrom-object_start}
use casacure.Aipsio.Run.{Reads-run, Writes-run}
use casacure.Aipsio.Writer.{put_u32}
use casacure.Aipsio.Writes.{Writes, Writes-seq, Writes-u32, Writes-root_object}
use casacure.Ism.{IsmError, aips_io, IsmIndex}
use casacure.Ism.Parse.{expect_type, read_row, read_index}
use casacure.Ism.Encode.{put_index_fields, encode_ism_index}
use casacure.Rows.{is_wide, put_row, IsRow, row_bytes, Writes-row, All-IsRow}
use casacure.Ism.RoundTrip.{Reads-expect, Reads-field}

index_version : Bool → ℕ
index_version wide = if wide then 2 else 1

Reads-row :
    (little wide : Bool) (r : ℕ)
    → IsRow wide r
    → Reads little (read_row (index_version wide)) (row_bytes little wide r) r
unfolding read_row row_bytes index_version IsRow
Reads-row little true r h = Reads-lift aips_io read_u64 _ r (Reads-u64 little r h)
Reads-row little false r h =
    let fits : r % 2 ^ 32 ≡ r = omega arith in
    rw fits (Reads-lift aips_io read_u32 _ r (Reads-u32 little r h))

module _ (big : Bool) (boundaries numbers : List ℕ) where
  pub index_fields_bytes : List ℕ
  index_fields_bytes =
      to_bytes (not big) 4 (length numbers % 2 ^ 32)
      ++ (block_bytes (not big) (row_bytes (not big) (is_wide boundaries)) boundaries
          ++ block_bytes (not big) (to_bytes (not big) 4) numbers)

  ism_index_bytes : List ℕ
  ism_index_bytes =
      magic_bytes (not big) true
      ++ object_bytes (not big) (codes "ISMIndex") (index_version (is_wide boundaries))
          index_fields_bytes

  Writes-index_fields : Writes (not big) (put_index_fields boundaries numbers) index_fields_bytes
  unfolding put_index_fields index_fields_bytes
  Writes-index_fields = Writes-seq (put_u32 (length numbers % 2 ^ 32)) _ _ _ (Writes-u32 _) (
      Writes-seq (put_block (put_row (is_wide boundaries)) boundaries) _ _ _
        (Writes-block _ _ (Writes-row (not big) (is_wide boundaries)) boundaries)
        (Writes-block put_u32 _ Writes-u32 numbers))

  encode_ism_index-bytes : encode_ism_index big boundaries numbers ≡ some ism_index_bytes
  unfolding encode_ism_index ism_index_bytes index_version
  encode_ism_index-bytes = Writes-run big _ _ (
      Writes-root_object (codes "ISMIndex") _ (put_index_fields boundaries numbers)
        index_fields_bytes Writes-index_fields)

module _ {A B : Type 0} (little : Bool) where
  -- A framed block, and what is read behind it.
  Reads-block :
      (m : Read IsmError A) (enc : A → List ℕ) (P : A → Type 0)
      → ((a : A) → P a → Reads little m (enc a) a)
      → (xs : List A) → All P xs
      → length xs < 2 ^ 32
      → (k : List A → Read IsmError B) (cs : List ℕ) (b : B) → Reads little (k xs) cs b
      → Reads little
          (do
            block ← lift aips_io (read_object_start false)
            expect_type (codes "Block") block
            ys ← read_elements aips_io m
            k ys)
          (block_bytes little enc xs ++ cs)
          b
  unfolding block_bytes object_bytes magic_bytes
  Reads-block m enc P h xs all short k cs b hk = rw append_assoc (
      Reads-from (lift aips_io (read_object_start false)) _ _ _ _ b
        (ReadsFrom-lift aips_io _ _ _
          (ReadsFrom-object_start little false (codes "Block") 1 _ Block-IsText (omega arith)))
        (λ p. Reads-bind (expect_type (codes "Block") _) _ [] _ tt b (Reads-expect _ _ _ _ _) (
          Reads-bind (read_elements aips_io m) k _ cs xs b
            (Reads-elements aips_io m enc P h xs all short) hk)))

index-IsText : IsText (codes "ISMIndex")
unfolding is_utf8
index-IsText = record { utf8 = refl; short = omega arith }

version-IsU32 : (wide : Bool) → IsU32 (index_version wide)
unfolding index_version
version-IsU32 true = omega arith
version-IsU32 false = omega arith

take-all : (xs : List ℕ) → take (length xs) xs ≡ xs
take-all [] = refl
take-all (x ∷ xs) = ap (λ t. x ∷ t) (take-all xs)

module _ (big : Bool) (boundaries numbers : List ℕ) where
  Reads-index :
      Ascending boundaries
      → All IsU64 boundaries
      → All IsU32 numbers
      → length boundaries < 2 ^ 32
      → length numbers < 2 ^ 32
      → Reads
          (not big)
          read_index
          (ism_index_bytes big boundaries numbers)
          (record { rows = boundaries; bucket_numbers = numbers })
  unfolding read_index ism_index_bytes object_bytes index_fields_bytes block_bytes
  Reads-index asc hb hn lb ln = rw (← append_assoc (magic_bytes (not big) true)) (
      Reads-from (lift aips_io (read_object true (codes "ISMIndex"))) _ _ _ _ _
        (ReadsFrom-lift aips_io _ _ _ (
          ReadsFrom-object (not big) true (codes "ISMIndex") _ _ index-IsText
            (version-IsU32 (is_wide boundaries))))
        (λ p. Reads-bind (lift aips_io read_u32) _ _ _ _ _ (Reads-field (not big) _ (omega arith)) (
          Reads-block (not big) (read_row _) _ (IsRow (is_wide boundaries))
            (Reads-row (not big) (is_wide boundaries)) boundaries (All-IsRow boundaries asc hb) lb _
            _ _
            (Reads-bytes _ _ (append-nil (block_bytes (not big) (to_bytes (not big) 4) numbers)) (
              Reads-block (not big) (lift aips_io read_u32) _ IsU32 (Reads-field (not big)) numbers
                hn ln _ [] _ ends)))))
    where
      kept : take (length numbers % 2 ^ 32) numbers ≡ numbers
      kept =
          let fits : length numbers % 2 ^ 32 ≡ length numbers = omega arith in
          rw fits (take-all numbers)

      ends :
          Reads {E = IsmError} {A = IsmIndex}
            (not big)
            (pure (record {
              rows = boundaries;
              bucket_numbers = take (length numbers % 2 ^ 32) numbers;
            }))
            []
            (record { rows = boundaries; bucket_numbers = numbers })
      ends = rw kept (Reads-pure _)

  read_index-bytes :
      (rest : List ℕ)
      → Ascending boundaries
      → All IsU64 boundaries
      → All IsU32 numbers
      → length boundaries < 2 ^ 32
      → length numbers < 2 ^ 32
      → (read_index (reader_for big (ism_index_bytes big boundaries numbers ++ rest))).0
        ≡ ok (record { rows = boundaries; bucket_numbers = numbers })
  read_index-bytes rest asc hb hn lb ln =
      ap (λ (r : Result IsmError IsmIndex × Reader). r.0)
        (Reads-run big read_index (ism_index_bytes big boundaries numbers) rest _
          (Reads-index asc hb hn lb ln))

  -- An index with ascending boundaries, which are 64-bit rows, and 32-bit bucket numbers, fewer than
  -- 2 ^ 32 of each, is serialized in the narrow or the wide form in either byte order, and read back
  -- from every stream that begins with those bytes.
  pub read_index-encode :
      Ascending boundaries
      → All IsU64 boundaries
      → All IsU32 numbers
      → length boundaries < 2 ^ 32
      → length numbers < 2 ^ 32
      → (bytes : List ℕ) × (encode_ism_index big boundaries numbers ≡ some bytes)
        × ((rest : List ℕ)
            → (read_index (reader_for big (bytes ++ rest))).0
              ≡ ok (record { rows = boundaries; bucket_numbers = numbers }))
  read_index-encode asc hb hn lb ln = (
    ism_index_bytes big boundaries numbers,
    encode_ism_index-bytes big boundaries numbers,
    λ rest. read_index-bytes rest asc hb hn lb ln,
  )
