-- ===== src/Aipsio.antt =====
-- crates/casacure/src/aipsio.rs: the data of the canonical byte format. The cursor is `Reader`,
-- the serializer `Writer`; `Reads` and `Writes` say what an action consumes and appends.
pub mod Reader
pub mod Writer
pub mod Encoding
pub mod Reads
pub mod Writes
pub mod Run
pub mod Block
pub mod Takes
pub mod RoundTrip
use casacure.Prelude.{ℕ, List}

abbrev pub magic : ℕ
magic = 0xbebebebe

pub data AipsIoError : Type 0 where
  truncated : (needed offset len : ℕ) → AipsIoError
  bad_magic : (offset found : ℕ) → AipsIoError
  bad_string : (offset : ℕ) → AipsIoError
  unexpected_type : (offset : ℕ) (expected found : List ℕ) → AipsIoError
  unsupported_version : ℕ → AipsIoError

-- The header of a typed object.
pub record ObjectStart : Type 0 where
  pub length : ℕ
  pub type_name : List ℕ
  pub version : ℕ
  pub payload_offset : ℕ
