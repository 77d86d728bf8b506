-- ===== src/Aipsio/Reads/Words.antt =====
-- The words of the stream: each is read back from the bytes of its value, in either byte order.
use casacure.Prelude.{ℕ, ◌^◌, ◌<◌, ◌≡◌, Bool, true, List, [], append-nil, length}
use casacure.Prelude.Int.{
  ℤ, as_u16, as_u32, as_u64, IsI16, IsI32, IsI64, as_i16, as_i32, as_i64, as_i16-as_u16,
  as_i32-as_u32, as_i64-as_u64, as_u16-lt, as_u32-lt, as_u64-lt,
}
use casacure.Bytes.{to_bytes, from_bytes, from_bytes-to_bytes, length-to_bytes}
use casacure.Bytes.Utf8.{is_utf8}
use casacure.Aipsio.{AipsIoError}
use casacure.Aipsio.Reader.{
  pure, take, read_word, read_u32, read_i32, read_u64, read_i64, read_u16, read_i16,
}
use casacure.Aipsio.Reads.{
  Reads, Reads-pure, Reads-bind, Reads-take, Reads-return, Reads-little_endian, Reads-bytes,
}

abbrev pub IsU16 : ℕ → Type 0
IsU16 v = v < 2 ^ 16

abbrev pub IsU32 : ℕ → Type 0
IsU32 v = v < 2 ^ 32

abbrev pub IsU64 : ℕ → Type 0
IsU64 v = v < 2 ^ 64

-- What a Rust `&str` whose length fits 32 bits is.
pub record IsText (s : List ℕ) : Type 0 where
  pub utf8 : is_utf8 s ≡ true
  pub short : length s < 2 ^ 32

module _ (little : Bool) where
  Reads-word : (k v : ℕ) → v < 256 ^ k → Reads little (read_word k) (to_bytes little k v) v
  unfolding read_word
  Reads-word k v h =
      let bs : List ℕ = to_bytes little k v in
      Reads-bytes (read_word k) v (append-nil bs)
        (Reads-bind (take k) _ bs [] bs v Reads-k (Reads-little_endian _ [] v Reads-v))
    where
      Reads-k : Reads little (take k) (to_bytes little k v) (to_bytes little k v)
      Reads-k = rw (length-to_bytes little k v) at (Reads-take little (to_bytes little k v))

      Reads-v : Reads little (pure {E = AipsIoError} (from_bytes little (to_bytes little k v))) [] v
      Reads-v = rw (from_bytes-to_bytes little k v h) (Reads-pure v)

  pub Reads-u32 : (v : ℕ) → IsU32 v → Reads little read_u32 (to_bytes little 4 v) v
  unfolding read_u32
  Reads-u32 v h = Reads-word 4 v h

  pub Reads-u64 : (v : ℕ) → IsU64 v → Reads little read_u64 (to_bytes little 8 v) v
  unfolding read_u64
  Reads-u64 v h = Reads-word 8 v h

  pub Reads-u16 : (v : ℕ) → IsU16 v → Reads little read_u16 (to_bytes little 2 v) v
  unfolding read_u16
  Reads-u16 v h = Reads-word 2 v h

  pub Reads-i32 : (v : ℤ) → IsI32 v → Reads little read_i32 (to_bytes little 4 (as_u32 v)) v
  unfolding read_i32
  Reads-i32 v h = rw (as_i32-as_u32 v h) at (
      Reads-return read_u32 as_i32 (to_bytes little 4 (as_u32 v)) (as_u32 v)
        (Reads-u32 (as_u32 v) (as_u32-lt v)))

  pub Reads-i64 : (v : ℤ) → IsI64 v → Reads little read_i64 (to_bytes little 8 (as_u64 v)) v
  unfolding read_i64
  Reads-i64 v h = rw (as_i64-as_u64 v h) at (
      Reads-return read_u64 as_i64 (to_bytes little 8 (as_u64 v)) (as_u64 v)
        (Reads-u64 (as_u64 v) (as_u64-lt v)))

  pub Reads-i16 : (v : ℤ) → IsI16 v → Reads little read_i16 (to_bytes little 2 (as_u16 v)) v
  unfolding read_i16
  Reads-i16 v h = rw (as_i16-as_u16 v h) at (
      Reads-return read_u16 as_i16 (to_bytes little 2 (as_u16 v)) (as_u16 v)
        (Reads-u16 (as_u16 v) (as_u16-lt v)))
