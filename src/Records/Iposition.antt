-- ===== src/Records/Iposition.antt =====
-- The framed `"IPosition"` of crates/casacure/src/record.rs and aipsio.rs, written as version 1 and
-- read back.
use casacure.Prelude.{ℕ, ◌%◌, ◌^◌, ◌<◌, ◌≡◌, refl, Bool, false, List, arith, length}
use casacure.Prelude.Int.{ℤ, as_u32, as_i32, IsI32, as_i32-as_u32}
use casacure.Bytes.{codes, to_bytes}
use casacure.Bytes.Utf8.{is_utf8}
use casacure.Aipsio.Encoding.{object_bytes, magic_bytes}
use casacure.Aipsio.Block.{put_elements, elements_bytes}
use casacure.Aipsio.Reader.{read_u32, read_dim, read_object, read_iposition}
use casacure.Aipsio.Reads.{Reads, Reads-bind, Reads-from, Reads-repeat, All}
use casacure.Aipsio.Reads.Words.{IsText, Reads-u32, Reads-i32}
use casacure.Aipsio.Reads.Objects.{ReadsFrom-object}
use casacure.Aipsio.Writer.{put_u32}
use casacure.Aipsio.Writes.{
  Writes, Writes-seq, Writes-for_each, Writes-u32, Writes-i32, Writes-object,
}
use casacure.Records.Arrays.Writer.{put_dim, write_iposition}

dim_bytes : Bool → ℤ → List ℕ
dim_bytes little d = to_bytes little 4 (as_u32 (as_i32 (as_u32 d)))

unfoldable pub iposition_bytes : Bool → List ℤ → List ℕ
unfolding dim_bytes
iposition_bytes little dims =
    object_bytes little (codes "IPosition") 1 (elements_bytes little (dim_bytes little) dims)

pub record IsShape (dims : List ℤ) : Type 0 where
  pub each : All IsI32 dims
  pub short : length dims < 2 ^ 32

pub iposition-IsText : IsText (codes "IPosition")
unfolding is_utf8
iposition-IsText = record { utf8 = refl; short = omega arith }

module _ (little : Bool) where
  pub Writes-iposition :
      (dims : List ℤ) → Writes little (write_iposition dims) (iposition_bytes little dims)
  unfolding write_iposition iposition_bytes put_elements elements_bytes put_dim
  Writes-iposition dims = Writes-object (codes "IPosition") 1 (put_elements put_dim dims) _ (
      Writes-seq (put_u32 (length dims % 2 ^ 32)) _ _ _ (Writes-u32 _)
        (Writes-for_each put_dim _ (λ d. Writes-i32 (as_i32 (as_u32 d))) dims))

  Reads-dim : (d : ℤ) → IsI32 d → Reads little (read_dim 1) (dim_bytes little d) d
  unfolding read_dim dim_bytes
  Reads-dim d h = rw (as_i32-as_u32 d h) (Reads-i32 little d h)

  pub Reads-iposition :
      (dims : List ℤ)
      → IsShape dims
      → Reads little read_iposition (iposition_bytes little dims) dims
  unfolding read_iposition iposition_bytes object_bytes magic_bytes elements_bytes
  Reads-iposition dims h =
      Reads-from (read_object false (codes "IPosition")) _ _ _ _ dims
        (ReadsFrom-object little false (codes "IPosition") 1 _ iposition-IsText (omega arith))
        (λ p.
          Reads-bind read_u32 _ _ _ (length dims % 2 ^ 32) dims (Reads-u32 little _ (omega arith))
            (rw fits (Reads-repeat (read_dim 1) _ IsI32 Reads-dim dims h.each)))
    where
      fits : length dims % 2 ^ 32 ≡ length dims
      fits = omega (arith, h.short)
