-- ===== src/Ism/RoundTrip/Name.antt =====
-- The name blob of crates/casacure/src/ism.rs, written and read back.
use casacure.Prelude.{
  ℕ, ◌≡◌, refl, ap, true, false, List, [], ◌++◌, append_assoc, some, none, arith,
}
use casacure.Result.{Result, ok, err}
use casacure.Bytes.{codes}
use casacure.Bytes.Utf8.{is_utf8}
use casacure.Aipsio.Encoding.{object_bytes, magic_bytes, text_bytes}
use casacure.Aipsio.Reader.{Reader, lift, read_string, read_object_start, reader_for}
use casacure.Aipsio.Reads.{Reads, Reads-bind, Reads-lift, Reads-from, ReadsFrom-lift}
use casacure.Aipsio.Reads.Words.{IsText}
use casacure.Aipsio.Reads.Objects.{Reads-string, ReadsFrom-object_start}
use casacure.Aipsio.Run.{Reads-run, Writes-run}
use casacure.Aipsio.Writer.{put_string, writer_for}
use casacure.Aipsio.Writes.{Writes-string, Writes-root_object}
use casacure.Ism.{IsmError, aips_io}
use casacure.Ism.Parse.{expect_type, read_name, parse_ism_name}
use casacure.Ism.Encode.{write_ism_blob}
use casacure.Ism.RoundTrip.{Reads-expect}

ism-IsText : IsText (codes "ISM")
unfolding is_utf8
ism-IsText = record { utf8 = refl; short = omega arith }

blob_bytes : List ℕ → List ℕ
blob_bytes name =
    magic_bytes false true ++ object_bytes false (codes "ISM") 3 (text_bytes false name)

write_ism_blob-bytes : (name : List ℕ) → write_ism_blob name ≡ some (blob_bytes name)
unfolding write_ism_blob blob_bytes writer_for
write_ism_blob-bytes name = Writes-run true _ _ (
    Writes-root_object (codes "ISM") 3 (put_string name) (text_bytes false name)
      (Writes-string name))

Reads-name : (name : List ℕ) → IsText name → Reads false read_name (blob_bytes name) name
unfolding read_name blob_bytes object_bytes
Reads-name name h = rw (← append_assoc (magic_bytes false true)) (
    Reads-from (lift aips_io (read_object_start true)) _ _ _ _ name
      (ReadsFrom-lift aips_io _ _ _
        (ReadsFrom-object_start false true (codes "ISM") 3 _ ism-IsText (omega arith)))
      (λ p.
        Reads-bind (expect_type (codes "ISM") _) _ [] _ tt name (Reads-expect _ _ _ _ _)
          (Reads-lift aips_io read_string _ name (Reads-string false name h))))

-- The name of an incremental storage manager, a UTF-8 text of fewer than 2 ^ 32 bytes, is
-- serialized, and read back from every blob that begins with those bytes.
pub parse_ism_name-write :
    (name : List ℕ)
    → IsText name
    → (bytes : List ℕ) × (write_ism_blob name ≡ some bytes)
      × ((rest : List ℕ) → parse_ism_name (bytes ++ rest) ≡ some name)
unfolding parse_ism_name reader_for
parse_ism_name-write name h = (
  blob_bytes name,
  write_ism_blob-bytes name,
  λ rest.
      ap (λ (r : Result IsmError (List ℕ) × Reader). elim r.0 [ ok x ↦ some x | err e ↦ none ])
        (Reads-run true read_name (blob_bytes name) rest name (Reads-name name h)),
)
