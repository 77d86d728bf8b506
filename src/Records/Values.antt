-- ===== src/Records/Values.antt =====
-- The values of crates/casacure/src/record.rs: record descriptions, array values and table records.
-- A description and the values of a record are lists of their own, since they hold themselves. A
-- `String` is its bytes, and a float its bit pattern.
use casacure.Prelude.{ℕ, List, Bool, true, false, Option}
use casacure.Prelude.Int.{ℤ}
use casacure.Records.{DataType, RecordError}

pub data ArrayData : Type 0 where
  bool : List Bool → ArrayData
  u_char : List ℕ → ArrayData
  short : List ℤ → ArrayData
  u_short : List ℕ → ArrayData
  int : List ℤ → ArrayData
  u_int : List ℕ → ArrayData
  int64 : List ℤ → ArrayData
  float : List ℕ → ArrayData
  double : List ℕ → ArrayData
  complex : List (ℕ × ℕ) → ArrayData
  d_complex : List (ℕ × ℕ) → ArrayData
  string : List (List ℕ) → ArrayData

pub record ArrayValue : Type 0 where
  pub shape : List ℕ
  pub contents : ArrayData

-- `field name data_type sub_desc shape table_desc_name comment`
mutual
  pub data RecordDescField : Type 0 where
    field :
        List ℕ → DataType → SubDesc → Option (List ℤ) → Option (List ℕ) → List ℕ → RecordDescField

  pub data SubDesc : Type 0 where
    no_desc : SubDesc
    sub_desc : RecordDesc → SubDesc

  pub data RecordDesc : Type 0 where
    no_fields : RecordDesc
    with_field : RecordDescField → RecordDesc → RecordDesc

-- `table_record desc record_type values`
mutual
  pub data RecordValue : Type 0 where
    bool : Bool → RecordValue
    u_char : ℕ → RecordValue
    short : ℤ → RecordValue
    u_short : ℕ → RecordValue
    int : ℤ → RecordValue
    u_int : ℕ → RecordValue
    int64 : ℤ → RecordValue
    float : ℕ → RecordValue
    double : ℕ → RecordValue
    complex : ℕ → ℕ → RecordValue
    d_complex : ℕ → ℕ → RecordValue
    string : List ℕ → RecordValue
    nested : TableRecord → RecordValue
    table : List ℕ → RecordValue
    array : ArrayValue → RecordValue

  pub data TableRecord : Type 0 where
    table_record : RecordDesc → ℤ → Values → TableRecord

  pub data Values : Type 0 where
    no_values : Values
    with_value : RecordValue → Values → Values

-- What ends a call without a value: an error that is returned, a panic, or fuel that ran out.
pub data Fault : Type 0 where
  failed : RecordError → Fault
  panicked : Fault
  out_of_fuel : Fault

unfoldable pub no_fields? : RecordDesc → Bool
no_fields? no_fields = true
no_fields? (with_field f d) = false

unfoldable pub field_name : RecordDescField → List ℕ
field_name (field n t s h m c) = n
