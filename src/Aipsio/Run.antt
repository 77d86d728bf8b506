-- ===== src/Aipsio/Run.antt =====
-- Running the cursor and the writer of crates/casacure/src/aipsio.rs over a whole stream, in the
-- byte order of a data file.
use casacure.Prelude.{ℕ, ◌≡◌, refl, ap, Bool, true, false, not, List, [], ◌++◌, some}
use casacure.Result.{ok}
use casacure.Aipsio.Reader
use casacure.Aipsio.Reader.{Read, reader_for}
use casacure.Aipsio.Reads.{Reads, reader_at}
use casacure.Aipsio.Writer
use casacure.Aipsio.Writer.{Write, extend, writer_for, into_bytes, bytes_of}
use casacure.Aipsio.Writes.{Writes}

reader_for-at : (big : Bool) (bs : List ℕ) → reader_for big bs ≡ reader_at (not big) [] bs
unfolding reader_for Reader.new Reader.new_le
reader_for-at true bs = refl
reader_for-at false bs = refl

-- An action that takes `bs` returns its value on every stream that begins with `bs`.
pub Reads-run :
    {E A : Type 0} (big : Bool) (m : Read E A) (bs rest : List ℕ) (a : A)
    → Reads (not big) m bs a
    → m (reader_for big (bs ++ rest)) ≡ (ok a, reader_at (not big) bs rest)
Reads-run big m bs rest a h = rw (reader_for-at big (bs ++ rest)) (h.at [] rest)

-- An action that appends `bs` produces the stream `bs`.
pub Writes-run :
    (big : Bool) (m : Write) (bs : List ℕ)
    → Writes (not big) m bs
    → into_bytes m (writer_for big) ≡ some bs
unfolding into_bytes writer_for Writer.new Writer.new_le extend
Writes-run true m bs h = ap bytes_of (h.at Writer.new refl)
Writes-run false m bs h = ap bytes_of (h.at Writer.new_le refl)
