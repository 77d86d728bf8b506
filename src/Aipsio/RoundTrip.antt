-- ===== src/Aipsio/RoundTrip.antt =====
-- A framed object of crates/casacure/src/aipsio.rs, written by `Writer` and read by `Reader`.
use casacure.Prelude.{
  ℕ, ◌^◌, ◌<◌, ◌≡◌, ap, Bool, true, not, List, ◌++◌, append_assoc, Option, some, length,
}
use casacure.Result.{Result, ok}
use casacure.Aipsio.Encoding.{object_bytes, magic_bytes, text_bytes}
use casacure.Aipsio.Reader.{Reader, Read, ◌>>=◌, pure, read_object, reader_for}
use casacure.Aipsio.Reads.{Reads, Reads-return, Reads-from}
use casacure.Aipsio.Reads.Words.{IsU32, IsText}
use casacure.Aipsio.Reads.Objects.{ReadsFrom-object}
use casacure.Aipsio.Run.{Reads-run, Writes-run}
use casacure.Aipsio.Writer.{writer_for}
use casacure.Aipsio.Writes.{Writes-root_object}
use casacure.Aipsio.{AipsIoError}
use casacure.Aipsio.Reader.{read_opaque}
use casacure.Aipsio.Writer.{◌>>◌, put_opaque, put_root_object_start, put_object_end, into_bytes}
use casacure.Aipsio.Writes.{Writes-opaque}
use casacure.Aipsio.Reads.Objects.{Reads-opaque}

-- A root object with one opaque block.
unfoldable pub write_opaque_object : Bool → List ℕ → ℕ → List ℕ → Option (List ℕ)
write_opaque_object big t v payload =
    into_bytes (do put_root_object_start t v; put_opaque payload; put_object_end) (writer_for big)

unfoldable pub read_opaque_object : List ℕ → Read AipsIoError (ℕ × List ℕ)
read_opaque_object t = do
  (version, obj) ← read_object true t
  payload ← read_opaque
  pure (version, payload)

object_stream : Bool → List ℕ → ℕ → List ℕ → List ℕ
object_stream big t v payload =
    magic_bytes (not big) true ++ object_bytes (not big) t v (text_bytes (not big) payload)

write_opaque_object-bytes :
    (big : Bool) (t : List ℕ) (v : ℕ) (payload : List ℕ)
    → write_opaque_object big t v payload ≡ some (object_stream big t v payload)
unfolding write_opaque_object object_stream
write_opaque_object-bytes big t v payload = Writes-run big _ _ (
    Writes-root_object t v (put_opaque payload) (text_bytes (not big) payload)
      (Writes-opaque payload))

Reads-opaque_object :
    (big : Bool) (t : List ℕ) (v : ℕ) (payload : List ℕ)
    → IsText t
    → IsU32 v
    → length payload < 2 ^ 32
    → Reads (not big) (read_opaque_object t) (object_stream big t v payload) (v, payload)
unfolding read_opaque_object object_stream object_bytes
Reads-opaque_object big t v payload ht hv short = rw (← append_assoc (magic_bytes (not big) true)) (
    Reads-from (read_object true t) _ _ _ _ (v, payload)
      (ReadsFrom-object (not big) true t v _ ht hv)
      (λ p. Reads-return read_opaque _ _ payload (Reads-opaque (not big) payload short)))

-- An object with a UTF-8 type name and an opaque block, each of fewer than 2 ^ 32 bytes, and a 32-bit
-- version, written as a root object in either byte order, is read back from every stream that begins
-- with those bytes, by a reader of the same byte order that asks for that type.
pub read_object-put :
    (big : Bool) (t : List ℕ) (v : ℕ) (payload : List ℕ)
    → IsText t
    → IsU32 v
    → length payload < 2 ^ 32
    → (bytes : List ℕ) × (write_opaque_object big t v payload ≡ some bytes)
      × ((rest : List ℕ)
          → (read_opaque_object t (reader_for big (bytes ++ rest))).0 ≡ ok (v, payload))
read_object-put big t v payload ht hv short = (
  object_stream big t v payload,
  write_opaque_object-bytes big t v payload,
  λ rest.
      ap (λ (r : Result AipsIoError (ℕ × List ℕ) × Reader). r.0)
        (Reads-run big (read_opaque_object t) (object_stream big t v payload) rest (v, payload)
          (Reads-opaque_object big t v payload ht hv short)),
)
