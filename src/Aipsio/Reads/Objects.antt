-- ===== src/Aipsio/Reads/Objects.antt =====
-- The strings, blocks and framed objects of the stream.
use casacure.Prelude.{
  ℕ, ◌%◌, ◌^◌, ◌<◌, ◌≡◌, Bool, true, false, List, [], ◌∷◌, ◌++◌, append-nil, arith, length,
  if◌then◌else◌,
}
use casacure.Bytes.{to_bytes, bytes_eq_refl}
use casacure.Aipsio.{ObjectStart, magic}
use casacure.Aipsio.Reader.{
  pure, ◌>>=◌, take, read_u32, read_u8, position, read_bool, read_string, read_opaque, read_magic,
  read_object_start, read_object,
}
use casacure.Aipsio.Reads.{
  Reads, Reads-pure, Reads-bind, Reads-take, Reads-return, Reads-position, Reads-bytes, ReadsFrom,
  ReadsFrom-position, ReadsFrom-bind,
}
use casacure.Aipsio.Encoding.{text_bytes, object_length, header_bytes, magic_bytes}
use casacure.Aipsio.Reads.Words.{IsU32, IsText, Reads-u32}
use casacure.Aipsio.Reader.{check_utf8}

abbrev pub object_at : List ℕ → ℕ → ℕ → ℕ → ObjectStart
object_at t v n offset = record {
  length = object_length t n;
  type_name = t;
  version = v;
  payload_offset = offset;
}

module _ (little : Bool) where
  pub Reads-u8 : (v : ℕ) → Reads little read_u8 (v ∷ []) v
  unfolding read_u8
  Reads-u8 v = Reads-return (take 1) _ (v ∷ []) (v ∷ []) (Reads-take little (v ∷ []))

  pub Reads-bool : (b : Bool) → Reads little read_bool ((if b then 1 else 0) ∷ []) b
  unfolding read_bool
  Reads-bool true = Reads-return read_u8 _ (1 ∷ []) 1 (Reads-u8 1)
  Reads-bool false = Reads-return read_u8 _ (0 ∷ []) 0 (Reads-u8 0)

  pub Reads-opaque :
      (s : List ℕ) → length s < 2 ^ 32 → Reads little read_opaque (text_bytes little s) s
  unfolding read_opaque text_bytes
  Reads-opaque s h =
      Reads-bind read_u32 _ _ s (length s % 2 ^ 32) s (Reads-u32 little _ (omega arith))
        (rw fits (Reads-take little s))
    where
      fits : length s % 2 ^ 32 ≡ length s
      fits = omega arith

  Reads-check : (offset : ℕ) (s : List ℕ) → IsText s → Reads little (check_utf8 offset s) [] s
  unfolding check_utf8
  Reads-check offset s h = rw h.utf8 (Reads-pure s)

  pub Reads-string : (s : List ℕ) → IsText s → Reads little read_string (text_bytes little s) s
  unfolding read_string text_bytes
  Reads-string s h = Reads-position _ _ s (λ p.
      Reads-bind read_u32 _ _ s (length s % 2 ^ 32) s (Reads-u32 little _ (omega arith)) (
        rw fits (
          Reads-bytes _ s (append-nil s)
            (Reads-bind (take (length s)) _ s [] s s (Reads-take little s) (Reads-check p s h)))))
    where
      fits : length s % 2 ^ 32 ≡ length s
      fits = omega (arith, h.short)

  Reads-magic : (root : Bool) → Reads little (read_magic root) (magic_bytes little root) tt
  unfolding read_magic magic_bytes
  Reads-magic false = Reads-pure tt
  Reads-magic true = Reads-position _ _ tt (λ p.
      Reads-bytes _ tt (append-nil _) (
        Reads-bind read_u32 _ _ [] magic tt (Reads-u32 little magic (omega arith)) (Reads-pure tt)))

  -- The header of a framed object.
  pub ReadsFrom-object_start :
      (root : Bool) (t : List ℕ) (v n : ℕ)
      → IsText t
      → IsU32 v
      → ReadsFrom little
          (read_object_start root)
          (magic_bytes little root ++ header_bytes little t v n)
          (object_at t v n)
  unfolding read_object_start header_bytes
  ReadsFrom-object_start root t v n ht hv =
      ReadsFrom-bind (read_magic root) _ (magic_bytes little root) _ tt _ (Reads-magic root) (
        ReadsFrom-bind read_u32 _ _ _ (object_length t n) _ (Reads-u32 little _ length_fits)
          (ReadsFrom-bind read_string _ (text_bytes little t) _ t _ (Reads-string t ht) ends))
    where
      ends :
          ReadsFrom little
            (read_u32 >>= λ version. position >>= λ p. pure (object_at t version n p))
            (to_bytes little 4 v)
            (object_at t v n)
      ends = rw append-nil at (
          ReadsFrom-bind read_u32 (λ version. position >>= λ p. pure (object_at t version n p))
            (to_bytes little 4 v) [] v (object_at t v n) (Reads-u32 little v hv)
            (ReadsFrom-position (object_at t v n)))

      length_fits : object_length t n < 2 ^ 32
      length_fits = unfold object_length in omega arith

  -- An object of the type that is asked for.
  pub ReadsFrom-object :
      (root : Bool) (t : List ℕ) (v n : ℕ)
      → IsText t
      → IsU32 v
      → ReadsFrom little
          (read_object root t)
          (magic_bytes little root ++ header_bytes little t v n)
          (λ p. (v, object_at t v n p))
  unfolding read_object ◌>>=◌ pure
  ReadsFrom-object root t v n ht hv = record {
    at = λ pre rest. rw ((ReadsFrom-object_start root t v n ht hv).at pre rest, bytes_eq_refl t);
  }
