-- ===== src/Aipsio/Reader.antt =====
-- The cursor of crates/casacure/src/aipsio.rs. A method is an action on the cursor; the cursor
-- comes back beside an error too, where the failing call left it. A `String` is its bytes, and a
-- float its bit pattern.
use casacure.Prelude.{
  ℕ, zero, suc, ◌+◌, ◌-◌, ◌%◌, Bool, true, false, not, List, [], ◌∷◌, ltb, ◌==◌, if◌then◌else◌,
  length, get_or, slice,
}
use casacure.Prelude.Int.{ℤ, as_i16, as_i32, as_i64}
use casacure.Result.{Result, ok, err}
use casacure.Bytes.{from_bytes, bytes_eq, codes}
use casacure.Bytes.Utf8.{is_utf8}
use casacure.Aipsio.{
  AipsIoError, truncated, bad_magic, bad_string, unexpected_type, unsupported_version, ObjectStart,
  magic,
}

pub record Reader : Type 0 where
  pub buf : List ℕ
  pub pos : ℕ
  pub little_endian : Bool

unfoldable pub new : List ℕ → Reader
new buf = record { buf = buf; pos = 0; little_endian = false }

unfoldable pub new_le : List ℕ → Reader
new_le buf = record { buf = buf; pos = 0; little_endian = true }

-- `reader` of ism.rs and ssm.rs: the cursor for a data file's byte order.
unfoldable pub reader_for : Bool → List ℕ → Reader
reader_for true bytes = new bytes
reader_for false bytes = new_le bytes

abbrev pub Read : Type 0 → Type 0 → Type 0
Read E A = Reader → Result E A × Reader

module _ {E A : Type 0} where
  unfoldable pub pure : A → Read E A
  pure a r = (ok a, r)

  unfoldable pub raise : E → Read E A
  raise e r = (err e, r)

module _ {E A B : Type 0} where
  abbrev pub continue : Result E A → (A → Read E B) → Read E B
  continue (ok a) f r = f a r
  continue (err e) f r = (err e, r)

  infixl 5 ◌>>=◌ ◌>>◌
  unfoldable pub ◌>>=◌ : Read E A → (A → Read E B) → Read E B
  ◌>>=◌ m f r = let (a, r') = m r in continue a f r'

  abbrev pub ◌>>◌ : Read E A → Read E B → Read E B
  m >> n = m >>= λ _. n

-- The conversion of an error that `?` and `map_err` make.
module _ {E F A : Type 0} where
  abbrev pub convert : (E → F) → Result E A → Result F A
  convert g (ok a) = ok a
  convert g (err e) = err (g e)

  unfoldable pub lift : (E → F) → Read E A → Read F A
  lift g m r = let (a, r') = m r in (convert g a, r')

-- `for _ in 0..n { out.push(m) }`
module _ {E A : Type 0} where
  unfoldable pub repeat : ℕ → Read E A → Read E (List A)
  repeat zero m = pure []
  repeat (suc n) m = m >>= λ a. repeat n m >>= λ as'. pure (a ∷ as')

unfoldable pub position : {E : Type 0} → Read E ℕ
position r = (ok r.pos, r)

unfoldable pub little_endian : {E : Type 0} → Read E Bool
little_endian r = (ok r.little_endian, r)

unfoldable pub take : ℕ → Read AipsIoError (List ℕ)
take n r =
    if ltb (length r.buf - r.pos) n
    then (err (truncated n r.pos (length r.buf)), r)
    else (ok (slice r.buf r.pos n), record r { pos = r.pos + n })

unfoldable pub skip : ℕ → Read AipsIoError (Unit {0})
skip n = do take n; pure tt

-- The `k` bytes of a word, in the stream's order.
unfoldable pub read_word : ℕ → Read AipsIoError ℕ
read_word k = do b ← take k; little ← little_endian; pure (from_bytes little b)

unfoldable pub read_u32 : Read AipsIoError ℕ
read_u32 = read_word 4

unfoldable pub read_i32 : Read AipsIoError ℤ
read_i32 = do v ← read_u32; pure (as_i32 v)

unfoldable pub read_u64 : Read AipsIoError ℕ
read_u64 = read_word 8

unfoldable pub read_i64 : Read AipsIoError ℤ
read_i64 = do v ← read_u64; pure (as_i64 v)

unfoldable pub read_u8 : Read AipsIoError ℕ
read_u8 = do b ← take 1; pure (get_or b 0 0)

unfoldable pub read_u16 : Read AipsIoError ℕ
read_u16 = read_word 2

unfoldable pub read_i16 : Read AipsIoError ℤ
read_i16 = do v ← read_u16; pure (as_i16 v)

-- `from_bits` of the word.
unfoldable pub read_f32 : Read AipsIoError ℕ
read_f32 = read_u32

unfoldable pub read_f64 : Read AipsIoError ℕ
read_f64 = read_u64

unfoldable pub read_bool : Read AipsIoError Bool
read_bool = do b ← read_u8; pure (not (b % 2 == 0))

unfoldable pub read_opaque : Read AipsIoError (List ℕ)
read_opaque = do n ← read_u32; take n

unfoldable pub check_utf8 : ℕ → List ℕ → Read AipsIoError (List ℕ)
check_utf8 offset bytes = if is_utf8 bytes then pure bytes else raise (bad_string offset)

unfoldable pub read_string : Read AipsIoError (List ℕ)
read_string = do offset ← position; len ← read_u32; bytes ← take len; check_utf8 offset bytes

-- The magic value before a root object.
unfoldable pub read_magic : Bool → Read AipsIoError (Unit {0})
read_magic false = pure tt
read_magic true = do
  offset ← position
  found ← read_u32
  if found == magic then pure tt else raise (bad_magic offset found)

unfoldable pub read_object_start : Bool → Read AipsIoError ObjectStart
read_object_start root = do
  read_magic root
  length ← read_u32
  type_name ← read_string
  version ← read_u32
  offset ← position
  pure (record {
    length = length;
    type_name = type_name;
    version = version;
    payload_offset = offset;
  })

unfoldable pub read_object : Bool → List ℕ → Read AipsIoError (ℕ × ObjectStart)
read_object root expected = do
  obj ← read_object_start root
  if bytes_eq obj.type_name expected
      then pure (obj.version, obj)
      else raise (unexpected_type obj.payload_offset expected obj.type_name)

-- One dimension, at the object's version.
unfoldable pub read_dim : ℕ → Read AipsIoError ℤ
read_dim version =
    if version == 1
    then read_i32
    else if version == 2
    then read_i64
    else raise (unsupported_version version)

unfoldable pub read_iposition : Read AipsIoError (List ℤ)
read_iposition = do
  (version, _) ← read_object false (codes "IPosition")
  n ← read_u32
  repeat n (read_dim version)

-- The whole cursor, for evaluation at concrete bytes.
unfoldable pub reader : Unit {0}
unfolding ◌>>=◌ pure raise repeat position little_endian take read_word read_u32 read_i32 read_u64
    read_i64 read_u8 read_bool check_utf8 read_string read_magic read_object_start read_object
    read_dim lift
reader = tt
