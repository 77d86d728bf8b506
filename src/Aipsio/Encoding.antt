-- ===== src/Aipsio/Encoding.antt =====
-- The byte layout that the heading of crates/casacure/src/aipsio.rs describes, as functions: what
-- `Writer` appends and `Reader` takes.
use casacure.Prelude.{ℕ, ◌+◌, ◌%◌, ◌^◌, Bool, true, false, List, [], ◌++◌, length}
use casacure.Bytes.{to_bytes}
use casacure.Aipsio.{magic}

-- A string or an opaque block: its length, then its bytes.
unfoldable pub text_bytes : Bool → List ℕ → List ℕ
text_bytes little s = to_bytes little 4 (length s % 2 ^ 32) ++ s

-- The length word of an object counts itself, the type name, the version and the payload.
unfoldable pub object_length : List ℕ → ℕ → ℕ
object_length type_name payload = (12 + length type_name + payload) % 2 ^ 32

-- The length word, the type name and the version before `payload` bytes.
unfoldable pub header_bytes : Bool → List ℕ → ℕ → ℕ → List ℕ
header_bytes little type_name version payload =
    to_bytes little 4 (object_length type_name payload)
    ++ (text_bytes little type_name ++ to_bytes little 4 version)

unfoldable pub object_bytes : Bool → List ℕ → ℕ → List ℕ → List ℕ
object_bytes little type_name version payload =
    header_bytes little type_name version (length payload) ++ payload

unfoldable pub magic_bytes : Bool → Bool → List ℕ
magic_bytes little true = to_bytes little 4 magic
magic_bytes little false = []
