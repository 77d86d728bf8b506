-- ===== src/Ism/RoundTrip.antt =====
-- Steps that the parsers of crates/casacure/src/ism.rs share.
pub mod Header
pub mod IndexStream
pub mod Name
use casacure.Prelude.{
  ℕ, ◌+◌, ◌-◌, ◌%◌, ◌^◌, ◌<◌, ◌≤◌, ◌≡◌, refl, ap, subst, sym, ◌∙◌, Bool, true, false, not, List, [],
  ◌∷◌, ◌++◌, append-nil, append_assoc, Option, some, none, inl, inr, arith, Bool-cases, ltb, leb,
  length, take, if◌then◌else◌,
}
use casacure.Prelude.Int.{ℤ, IsI32, as_u32}
use casacure.Result.{Result, ok}
use casacure.Bytes.{codes, to_bytes, bytes_eq_refl}
use casacure.Bytes.Utf8.{is_utf8}
use casacure.Search.{Ascending}
use casacure.Aipsio.{ObjectStart}
use casacure.Aipsio.Encoding.{object_bytes, magic_bytes, header_bytes, text_bytes}
use casacure.Aipsio.Block.{
  put_block, block_bytes, Block-IsText, Writes-block, elements_bytes, Reads-elements, read_elements,
}
use casacure.Aipsio.Reader.{
  Reader, Read, ◌>>=◌, pure, lift, read_u32, read_i32, read_u64, read_bool, read_string,
  read_object, read_object_start, reader_for,
}
use casacure.Aipsio.Reads.{
  Reads, Reads-pure, Reads-bind, Reads-lift, Reads-return, Reads-from, ReadsFrom-lift, All,
}
use casacure.Aipsio.Reads.Words.{IsU32, IsU64, IsText, Reads-u32, Reads-u64, Reads-i32}
use casacure.Aipsio.Reads.Objects.{
  object_at, Reads-bool, Reads-string, ReadsFrom-object, ReadsFrom-object_start,
}
use casacure.Aipsio.Run.{Reads-run, Writes-run}
use casacure.Aipsio.Writer.{
  Write, put_u32, put_i32, put_u64, put_bool, put_string, writer_for, done,
}
use casacure.Aipsio.Writes.{
  Writes, Writes-seq, Writes-u32, Writes-u64, Writes-i32, Writes-bool, Writes-string, Writes-done,
  Writes-root_object,
}
use casacure.Ism.{IsmError, aips_io, IsmHeader, IsmIndex}
use casacure.Ism.Parse.{
  differ, expect_type, read_endian_flag, check_endian, read_header, read_row, read_index, read_name,
  parse_ism_name,
}

pub Reads-expect :
    (little : Bool) (t : List ℕ) (v n p : ℕ)
    → Reads little (expect_type t (object_at t v n p)) [] tt
unfolding expect_type
Reads-expect little t v n p = rw (bytes_eq_refl t) (Reads-pure tt)

module _ (little : Bool) where
  -- A word of the header.
  pub Reads-field : (v : ℕ) → IsU32 v → Reads little (lift aips_io read_u32) (to_bytes little 4 v) v
  Reads-field v h = Reads-lift aips_io read_u32 _ v (Reads-u32 little v h)
