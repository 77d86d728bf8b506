-- ===== src/Ssm/RoundTrip/Header.antt =====
-- The header of crates/casacure/src/ssm.rs, written and read back.
use casacure.Prelude.{
  ℕ, ◌≡◌, refl, ap, Bool, true, false, not, List, [], ◌∷◌, ◌++◌, append_assoc, some, inl, inr,
  arith, Bool-cases, leb, if◌then◌else◌,
}
use casacure.Prelude.Int.{IsI32, as_u32}
use casacure.Result.{Result, ok}
use casacure.Bytes.{codes, to_bytes}
use casacure.Bytes.Utf8.{is_utf8}
use casacure.Aipsio.Encoding.{object_bytes, magic_bytes}
use casacure.Aipsio.Reader.{
  Reader, pure, lift, read_u32, read_i32, read_bool, read_object_start, reader_for,
}
use casacure.Aipsio.Reads.{
  Reads, Reads-pure, Reads-bind, Reads-lift, Reads-return, Reads-from, ReadsFrom-lift,
}
use casacure.Aipsio.Reads.Words.{IsU32, IsText}
use casacure.Aipsio.Reads.Objects.{Reads-bool, ReadsFrom-object_start}
use casacure.Aipsio.Run.{Reads-run, Writes-run}
use casacure.Aipsio.Writer.{put_u32, put_i32, put_bool, done}
use casacure.Aipsio.Writes.{
  Writes, Writes-seq, Writes-u32, Writes-i32, Writes-bool, Writes-done, Writes-root_object,
}
use casacure.Ssm.{SsmError, aips_io, StandardStManHeader}
use casacure.Ssm.Parse.{expect_type, read_endian_flag, check_endian, read_header}
use casacure.Ssm.Encode.{put_flag, put_header_fields, encode_ssm_header}
use casacure.Ssm.RoundTrip.{Reads-expect, Reads-field, Reads-signed}

-- The ranges of the header's fields.
pub record IsHeader (h : StandardStManHeader) : Type 0 where
  pub version : IsU32 h.version
  pub bucket_size : IsU32 h.bucket_size
  pub nr_buckets : IsU32 h.nr_buckets
  pub pers_cache_size : IsU32 h.pers_cache_size
  pub n_free_bucket : IsU32 h.n_free_bucket
  pub first_free_bucket : IsI32 h.first_free_bucket
  pub nr_index_buckets : IsU32 h.nr_index_buckets
  pub first_index_bucket : IsI32 h.first_index_bucket
  pub index_bucket_offset : IsI32 h.index_bucket_offset
  pub last_string_bucket : IsI32 h.last_string_bucket
  pub index_length : IsU32 h.index_length
  pub nr_index : IsU32 h.nr_index

flag_bytes : Bool → Bool → List ℕ
flag_bytes true big = (if big then 1 else 0) ∷ []
flag_bytes false big = []

module _ (h : StandardStManHeader) where
  abbrev word : ℕ → List ℕ
  word v = to_bytes (not h.big_endian) 4 v

  pub fields_bytes : List ℕ
  fields_bytes =
      flag_bytes (leb 3 h.version) h.big_endian
      ++ (word h.bucket_size
          ++ (word h.nr_buckets
              ++ (word h.pers_cache_size
                  ++ (word h.n_free_bucket
                      ++ (word (as_u32 h.first_free_bucket)
                          ++ (word h.nr_index_buckets
                              ++ (word (as_u32 h.first_index_bucket)
                                  ++ (word (as_u32 h.index_bucket_offset)
                                      ++ (word (as_u32 h.last_string_bucket)
                                          ++ (word h.index_length ++ (word h.nr_index)))))))))))

  ssm_header_bytes : List ℕ
  ssm_header_bytes =
      magic_bytes (not h.big_endian) true
      ++ object_bytes (not h.big_endian) (codes "StandardStMan") h.version fields_bytes

Writes-flag :
    (little : Bool) (version : ℕ) (big : Bool)
    → Writes little (put_flag version big) (flag_bytes (leb 3 version) big)
unfolding put_flag flag_bytes
Writes-flag little version big =
    elim (leb 3 version)
      as (λ b. Writes little (if b then put_bool big else done) (flag_bytes b big)) [
        | true ↦ Writes-bool big
        | false ↦ Writes-done
      ]

Reads-flag :
    (little : Bool) (version : ℕ) (big : Bool)
    → Reads little
        (read_endian_flag version)
        (flag_bytes (leb 3 version) big)
        (if leb 3 version then big else true)
unfolding read_endian_flag flag_bytes
Reads-flag little version big =
    elim (leb 3 version)
      as (λ b.
        Reads little (if b then lift aips_io read_bool else pure true) (flag_bytes b big)
          (if b then big else true)) [
            | true ↦ Reads-lift aips_io read_bool _ big (Reads-bool little big)
            | false ↦ Reads-pure true
          ]

Reads-endian :
    (little : Bool) (version : ℕ) (big : Bool)
    → Reads little (check_endian version (if leb 3 version then big else true) big) [] tt
unfolding check_endian
Reads-endian little version true = elim (Bool-cases (leb 3 version)) [
  | inl e ↦ rw e (Reads-pure tt)
  | inr e ↦ rw e (Reads-pure tt)
]
Reads-endian little version false = elim (Bool-cases (leb 3 version)) [
  | inl e ↦ rw e (Reads-pure tt)
  | inr e ↦ rw e (Reads-pure tt)
]

ssm-IsText : IsText (codes "StandardStMan")
unfolding is_utf8
ssm-IsText = record { utf8 = refl; short = omega arith }

Writes-header_fields :
    (h : StandardStManHeader) → Writes (not h.big_endian) (put_header_fields h) (fields_bytes h)
unfolding put_header_fields fields_bytes
Writes-header_fields h =
    Writes-seq (put_flag h.version h.big_endian) _ _ _ (Writes-flag _ h.version h.big_endian) (
      Writes-seq (put_u32 h.bucket_size) _ _ _ (Writes-u32 h.bucket_size) (
        Writes-seq (put_u32 h.nr_buckets) _ _ _ (Writes-u32 h.nr_buckets) (
          Writes-seq (put_u32 h.pers_cache_size) _ _ _ (Writes-u32 h.pers_cache_size) (
            Writes-seq (put_u32 h.n_free_bucket) _ _ _ (Writes-u32 h.n_free_bucket) (
              Writes-seq (put_i32 h.first_free_bucket) _ _ _ (Writes-i32 h.first_free_bucket) (
                Writes-seq (put_u32 h.nr_index_buckets) _ _ _ (Writes-u32 h.nr_index_buckets) (
                  Writes-seq (put_i32 h.first_index_bucket) _ _ _ (Writes-i32 h.first_index_bucket)
                    (Writes-seq (put_i32 h.index_bucket_offset) _ _ _
                      (Writes-i32 h.index_bucket_offset)
                      (Writes-seq (put_i32 h.last_string_bucket) _ _ _
                        (Writes-i32 h.last_string_bucket)
                        (Writes-seq (put_u32 h.index_length) _ _ _ (Writes-u32 h.index_length)
                          (Writes-u32 h.nr_index)))))))))))

Reads-header :
    (h : StandardStManHeader)
    → IsHeader h
    → Reads (not h.big_endian) (read_header h.big_endian) (ssm_header_bytes h) h
unfolding read_header ssm_header_bytes object_bytes fields_bytes
Reads-header h v = rw (← append_assoc (magic_bytes (not h.big_endian) true)) (
    Reads-from (lift aips_io (read_object_start true)) _ _ _ _ h
      (ReadsFrom-lift aips_io _ _ _ (
        ReadsFrom-object_start (not h.big_endian) true (codes "StandardStMan") h.version _
          ssm-IsText v.version))
      (λ p.
        Reads-bind (expect_type (codes "StandardStMan") _) _ [] _ tt h (Reads-expect _ _ _ _ _) (
          Reads-bind (read_endian_flag h.version) _ _ _ _ h (Reads-flag _ h.version h.big_endian) (
            Reads-bind (check_endian h.version _ h.big_endian) _ [] _ tt h
              (Reads-endian _ h.version h.big_endian)
              (Reads-bind (lift aips_io read_u32) _ _ _ _ h (Reads-field _ _ v.bucket_size) (
                Reads-bind (lift aips_io read_u32) _ _ _ _ h (Reads-field _ _ v.nr_buckets) (
                  Reads-bind (lift aips_io read_u32) _ _ _ _ h (Reads-field _ _ v.pers_cache_size) (
                    Reads-bind (lift aips_io read_u32) _ _ _ _ h (Reads-field _ _ v.n_free_bucket) (
                      Reads-bind (lift aips_io read_i32) _ _ _ _ h
                        (Reads-signed _ _ v.first_free_bucket)
                        (Reads-bind (lift aips_io read_u32) _ _ _ _ h
                          (Reads-field _ _ v.nr_index_buckets)
                          (Reads-bind (lift aips_io read_i32) _ _ _ _ h
                            (Reads-signed _ _ v.first_index_bucket)
                            (Reads-bind (lift aips_io read_i32) _ _ _ _ h
                              (Reads-signed _ _ v.index_bucket_offset)
                              (Reads-bind (lift aips_io read_i32) _ _ _ _ h
                                (Reads-signed _ _ v.last_string_bucket)
                                (Reads-bind (lift aips_io read_u32) _ _ _ _ h
                                  (Reads-field _ _ v.index_length)
                                  (Reads-return (lift aips_io read_u32) _ _ _
                                    (Reads-field _ _ v.nr_index))))))))))))))))

encode_ssm_header-bytes :
    (h : StandardStManHeader) → encode_ssm_header h ≡ some (ssm_header_bytes h)
unfolding encode_ssm_header ssm_header_bytes
encode_ssm_header-bytes h = Writes-run h.big_endian _ _ (
    Writes-root_object (codes "StandardStMan") h.version (put_header_fields h) (fields_bytes h)
      (Writes-header_fields h))

read_header-bytes :
    (h : StandardStManHeader) (rest : List ℕ)
    → IsHeader h
    → (read_header h.big_endian (reader_for h.big_endian (ssm_header_bytes h ++ rest))).0 ≡ ok h
read_header-bytes h rest v =
    ap (λ (r : Result SsmError StandardStManHeader × Reader). r.0)
      (Reads-run h.big_endian _ (ssm_header_bytes h) rest h (Reads-header h v))

-- A header in range, of any version and byte order, is serialized, and read back from every file
-- that begins with those bytes.
pub read_ssm_header-encode :
    (h : StandardStManHeader)
    → IsHeader h
    → (bytes : List ℕ) × (encode_ssm_header h ≡ some bytes)
      × ((rest : List ℕ)
          → (read_header h.big_endian (reader_for h.big_endian (bytes ++ rest))).0 ≡ ok h)
read_ssm_header-encode h v =
    (ssm_header_bytes h, encode_ssm_header-bytes h, λ rest. read_header-bytes h rest v)
