-- ===== src/Ism/RoundTrip/Header.antt =====
-- The header of crates/casacure/src/ism.rs, written and read back.
use casacure.Prelude.{
  ℕ, ◌≡◌, refl, ap, sym, ◌∙◌, ◌+◌, ◌≤◌, length, length-append, Bool, true, false, not, List, [],
  ◌∷◌, ◌++◌, append_assoc, some, inl, inr, arith, Bool-cases, leb, if◌then◌else◌,
}
use casacure.Prelude.Int.{IsI32, as_u32}
use casacure.Result.{Result, ok}
use casacure.Bytes.{codes, to_bytes, length-to_bytes}
use casacure.Bytes.Utf8.{is_utf8}
use casacure.Aipsio.{magic}
use casacure.Aipsio.Encoding.{object_bytes, header_bytes, magic_bytes}
use casacure.Aipsio.Reader.{
  Reader, pure, lift, read_u32, read_i32, read_bool, read_object_start, reader_for,
}
use casacure.Aipsio.Reads.{
  Reads, Reads-pure, Reads-bind, Reads-lift, Reads-return, Reads-from, ReadsFrom-lift,
}
use casacure.Aipsio.Reads.Words.{IsU32, IsText, Reads-i32}
use casacure.Aipsio.Reads.Objects.{Reads-bool, ReadsFrom-object_start}
use casacure.Aipsio.Run.{Reads-run, Writes-run}
use casacure.Aipsio.Writer.{put_u32, put_bool, done}
use casacure.Aipsio.Writes.{
  Writes, Writes-seq, Writes-u32, Writes-i32, Writes-bool, Writes-done, Writes-root_object,
  length-header_bytes,
}
use casacure.Ism.{IsmError, aips_io, IsmHeader}
use casacure.Ism.Parse.{expect_type, read_endian_flag, check_endian, read_header}
use casacure.Ism.Encode.{put_flag, put_header_fields, encode_ism_header}
use casacure.Ism.RoundTrip.{Reads-expect, Reads-field}

-- The ranges of the header's fields.
pub record IsHeader (h : IsmHeader) : Type 0 where
  pub version : IsU32 h.version
  pub bucket_size : IsU32 h.bucket_size
  pub nbucket : IsU32 h.nbucket
  pub pers_cache_size : IsU32 h.pers_cache_size
  pub uniq_nr : IsU32 h.uniq_nr
  pub n_free_bucket : IsU32 h.n_free_bucket
  pub first_free_bucket : IsI32 h.first_free_bucket

flag_bytes : Bool → Bool → List ℕ
flag_bytes true big = (if big then 1 else 0) ∷ []
flag_bytes false big = []

module _ (h : IsmHeader) where
  abbrev word : ℕ → List ℕ
  word v = to_bytes (not h.big_endian) 4 v

  pub fields_bytes : List ℕ
  fields_bytes =
      flag_bytes (leb 5 h.version) h.big_endian
      ++ (word h.bucket_size
          ++ (word h.nbucket
              ++ (word h.pers_cache_size
                  ++ (word h.uniq_nr
                      ++ (word h.n_free_bucket ++ word (as_u32 h.first_free_bucket))))))

  ism_header_bytes : List ℕ
  ism_header_bytes =
      magic_bytes (not h.big_endian) true
      ++ object_bytes (not h.big_endian) (codes "IncrementalStMan") h.version fields_bytes

length-flag_bytes : (wide big : Bool) → length (flag_bytes wide big) ≤ 1
unfolding flag_bytes
length-flag_bytes true big = omega arith
length-flag_bytes false big = omega arith

module _ (h : IsmHeader) where
  length-word : (v : ℕ) (rest : List ℕ) → length (word h v ++ rest) ≡ 4 + length rest
  length-word v rest =
      length-append (word h v) rest
      ∙ ap (λ (n : ℕ). n + length rest) (length-to_bytes (not h.big_endian) 4 v)

  length-fields_bytes : length (fields_bytes h) ≤ 25
  unfolding fields_bytes
  length-fields_bytes =
      rw
        (
          length-append (flag_bytes (leb 5 h.version) h.big_endian),
          length-word h.bucket_size,
          length-word h.nbucket,
          length-word h.pers_cache_size,
          length-word h.uniq_nr,
          length-word h.n_free_bucket,
        )
        (omega (
          arith,
          length-flag_bytes (leb 5 h.version) h.big_endian,
          length-to_bytes (not h.big_endian) 4 (as_u32 h.first_free_bucket),
        ))

  length-ism_header_bytes : length (ism_header_bytes h) ≤ 512
  unfolding ism_header_bytes object_bytes magic_bytes
  length-ism_header_bytes = omega (
    arith,
    length-append (to_bytes (not h.big_endian) 4 magic) (
        header_bytes (not h.big_endian) (codes "IncrementalStMan") h.version
          (length (fields_bytes h))
        ++ fields_bytes h),
    length-append
        (header_bytes (not h.big_endian) (codes "IncrementalStMan") h.version
          (length (fields_bytes h)))
        (fields_bytes h),
    length-header_bytes (not h.big_endian) (codes "IncrementalStMan") h.version
        (length (fields_bytes h)),
    length-to_bytes (not h.big_endian) 4 magic,
    length-fields_bytes,
  )

unsome : {A : Type 0} {a b : A} → some a ≡ some b → a ≡ b
unsome e = cc

Writes-flag :
    (little : Bool) (version : ℕ) (big : Bool)
    → Writes little (put_flag version big) (flag_bytes (leb 5 version) big)
unfolding put_flag flag_bytes
Writes-flag little version big =
    elim (leb 5 version)
      as (λ b. Writes little (if b then put_bool big else done) (flag_bytes b big)) [
        | true ↦ Writes-bool big
        | false ↦ Writes-done
      ]

Reads-flag :
    (little : Bool) (version : ℕ) (big : Bool)
    → Reads little
        (read_endian_flag version)
        (flag_bytes (leb 5 version) big)
        (if leb 5 version then big else true)
unfolding read_endian_flag flag_bytes
Reads-flag little version big =
    elim (leb 5 version)
      as (λ b.
        Reads little (if b then lift aips_io read_bool else pure true) (flag_bytes b big)
          (if b then big else true)) [
            | true ↦ Reads-lift aips_io read_bool _ big (Reads-bool little big)
            | false ↦ Reads-pure true
          ]

Reads-endian :
    (little : Bool) (version : ℕ) (big : Bool)
    → Reads little (check_endian version (if leb 5 version then big else true) big) [] tt
unfolding check_endian
Reads-endian little version true = elim (Bool-cases (leb 5 version)) [
  | inl e ↦ rw e (Reads-pure tt)
  | inr e ↦ rw e (Reads-pure tt)
]
Reads-endian little version false = elim (Bool-cases (leb 5 version)) [
  | inl e ↦ rw e (Reads-pure tt)
  | inr e ↦ rw e (Reads-pure tt)
]

ism-IsText : IsText (codes "IncrementalStMan")
unfolding is_utf8
ism-IsText = record { utf8 = refl; short = omega arith }

Writes-header_fields :
    (h : IsmHeader) → Writes (not h.big_endian) (put_header_fields h) (fields_bytes h)
unfolding put_header_fields fields_bytes
Writes-header_fields h =
    Writes-seq (put_flag h.version h.big_endian) _ _ _ (Writes-flag _ h.version h.big_endian) (
      Writes-seq (put_u32 h.bucket_size) _ _ _ (Writes-u32 h.bucket_size) (
        Writes-seq (put_u32 h.nbucket) _ _ _ (Writes-u32 h.nbucket) (
          Writes-seq (put_u32 h.pers_cache_size) _ _ _ (Writes-u32 h.pers_cache_size) (
            Writes-seq (put_u32 h.uniq_nr) _ _ _ (Writes-u32 h.uniq_nr) (
              Writes-seq (put_u32 h.n_free_bucket) _ _ _ (Writes-u32 h.n_free_bucket)
                (Writes-i32 h.first_free_bucket))))))

Reads-header :
    (h : IsmHeader)
    → IsHeader h
    → Reads (not h.big_endian) (read_header h.big_endian) (ism_header_bytes h) h
unfolding read_header ism_header_bytes object_bytes fields_bytes
Reads-header h v = rw (← append_assoc (magic_bytes (not h.big_endian) true)) (
    Reads-from (lift aips_io (read_object_start true)) _ _ _ _ h
      (ReadsFrom-lift aips_io _ _ _ (
        ReadsFrom-object_start (not h.big_endian) true (codes "IncrementalStMan") h.version _
          ism-IsText v.version))
      (λ p.
        Reads-bind (expect_type (codes "IncrementalStMan") _) _ [] _ tt h (Reads-expect _ _ _ _ _) (
          Reads-bind (read_endian_flag h.version) _ _ _ _ h (Reads-flag _ h.version h.big_endian) (
            Reads-bind (check_endian h.version _ h.big_endian) _ [] _ tt h
              (Reads-endian _ h.version h.big_endian)
              (Reads-bind (lift aips_io read_u32) _ _ _ _ h (Reads-field _ _ v.bucket_size) (
                Reads-bind (lift aips_io read_u32) _ _ _ _ h (Reads-field _ _ v.nbucket) (
                  Reads-bind (lift aips_io read_u32) _ _ _ _ h (Reads-field _ _ v.pers_cache_size) (
                    Reads-bind (lift aips_io read_u32) _ _ _ _ h (Reads-field _ _ v.uniq_nr) (
                      Reads-bind (lift aips_io read_u32) _ _ _ _ h (Reads-field _ _ v.n_free_bucket)
                        (Reads-return (lift aips_io read_i32) _ _ _ (
                          Reads-lift aips_io read_i32 _ _
                            (Reads-i32 _ _ v.first_free_bucket))))))))))))

encode_ism_header-bytes : (h : IsmHeader) → encode_ism_header h ≡ some (ism_header_bytes h)
unfolding encode_ism_header ism_header_bytes
encode_ism_header-bytes h = Writes-run h.big_endian _ _ (
    Writes-root_object (codes "IncrementalStMan") h.version (put_header_fields h) (fields_bytes h)
      (Writes-header_fields h))

read_header-bytes :
    (h : IsmHeader) (rest : List ℕ)
    → IsHeader h
    → (read_header h.big_endian (reader_for h.big_endian (ism_header_bytes h ++ rest))).0 ≡ ok h
read_header-bytes h rest v =
    ap (λ (r : Result IsmError IsmHeader × Reader). r.0)
      (Reads-run h.big_endian _ (ism_header_bytes h) rest h (Reads-header h v))

-- A header in range, of any version and byte order, is serialized, and read back from every file
-- that begins with those bytes.
pub read_ism_header-encode :
    (h : IsmHeader)
    → IsHeader h
    → (bytes : List ℕ) × (encode_ism_header h ≡ some bytes)
      × ((rest : List ℕ)
          → (read_header h.big_endian (reader_for h.big_endian (bytes ++ rest))).0 ≡ ok h)
read_ism_header-encode h v =
    (ism_header_bytes h, encode_ism_header-bytes h, λ rest. read_header-bytes h rest v)

-- The header fits in front of the first bucket.
pub length-encode_ism_header :
    (h : IsmHeader) (bytes : List ℕ) → encode_ism_header h ≡ some bytes → length bytes ≤ 512
length-encode_ism_header h bytes e =
    let same : ism_header_bytes h ≡ bytes = unsome (sym (encode_ism_header-bytes h) ∙ e) in
    rw (← same) (length-ism_header_bytes h)
