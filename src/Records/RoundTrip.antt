-- ===== src/Records/RoundTrip.antt =====
-- The table records and arrays of crates/casacure/src/record.rs over whole streams.
use casacure.Prelude.{ℕ, ◌≤◌, ◌≡◌, ap, Bool, true, false, not, List, ◌++◌, some, refl}
use casacure.Result.{Result, ok}
use casacure.Aipsio.Reader.{Reader, reader_for}
use casacure.Aipsio.Run.{Reads-run, Writes-run}
use casacure.Aipsio.Writer
use casacure.Aipsio.Writer.{Writer, extend, writer_for, into_bytes}
use casacure.Records.{DataType}
use casacure.Records.Values.{ArrayValue, TableRecord}
use casacure.Records.Attempts.{Attempt, Puts, appended}
use casacure.Records.Arrays.Reader.{read_array}
use casacure.Records.Arrays.Writer.{write_array_value}
use casacure.Records.Arrays.Encoding.{array_bytes, Writes-array}
use casacure.Records.Arrays.RoundTrip.{IsArrayOf, Reads-array}
use casacure.Records.Scalars.{FloatCasts}
use casacure.Records.Read.{read_record}
use casacure.Records.Write.{write_table_record}
use casacure.Records.Contents.{RecordFits, record_bytes, record_depth, stored}
use casacure.Records.Contents.Written.{Puts-record}
use casacure.Records.Contents.ReadBack.{Reads-record}

pub Puts-run :
    (big : Bool) (m : Attempt) (bs : List ℕ)
    → Puts (not big) m bs
    → appended (m (writer_for big)) ≡ ok bs
unfolding appended writer_for Writer.new Writer.new_le extend
Puts-run true m bs h = ap appended (h.at Writer.new refl)
Puts-run false m bs h = ap appended (h.at Writer.new_le refl)

result_of_run : {E A : Type 0} → Result E A × Reader → Result E A
result_of_run r = r.0

-- A record whose values fit its description, with distinct names, is written in either byte order on
-- any fuel that is no less than its depth, and every stream that begins with those bytes is read on
-- that fuel as the record: with the descriptions of its values, what a field's type does not need
-- left out, and the type of a nested record with fields set to 0.
pub read_record-write :
    (big : Bool) (casts : FloatCasts) (r : TableRecord) (fuel : ℕ)
    → RecordFits r
    → record_depth r ≤ fuel
    → (bytes : List ℕ) × (appended (write_table_record casts fuel r (writer_for big)) ≡ ok bytes)
      × ((rest : List ℕ) → (read_record fuel (reader_for big (bytes ++ rest))).0 ≡ ok (stored r))
unfolding result_of_run
read_record-write big casts r fuel fit deep = (
  record_bytes (not big) r,
  Puts-run big _ _ (Puts-record (not big) casts fuel r fit deep),
  λ rest.
      ap result_of_run (
        Reads-run big (read_record fuel) _ rest (stored r)
          (Reads-record (not big) fuel r fit deep)),
)

-- An array of elements of one type, with counts and elements that fit their words, is written in
-- either byte order, Booleans packed eight to a byte, and every stream that begins with those bytes
-- is read as that array by a reader of that type.
pub read_array-write :
    (big : Bool) (dt : DataType) (a : ArrayValue)
    → IsArrayOf dt a
    → (bytes : List ℕ) × (into_bytes (write_array_value a) (writer_for big) ≡ some bytes)
      × ((rest : List ℕ) → (read_array dt (reader_for big (bytes ++ rest))).0 ≡ ok a)
unfolding result_of_run
read_array-write big dt a h = (
  array_bytes (not big) a,
  Writes-run big _ _ (Writes-array (not big) a),
  λ rest. ap result_of_run (Reads-run big (read_array dt) _ rest a (Reads-array (not big) dt a h)),
)
