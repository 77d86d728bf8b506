-- ===== src/Records/Contents/Lookup.antt =====
-- `TableRecord::get` of crates/casacure/src/record.rs on a record whose names differ: each name has
-- the value of its own field.
use casacure.Prelude.{ℕ, suc, ◌≡◌, refl, ◌∙◌, false, List, Option, none, some}
use casacure.Bytes.{bytes_eq, bytes_eq_refl}
use casacure.Prelude.Int.{ℤ}
use casacure.Records.{DataType}
use casacure.Records.Values.{
  field, SubDesc, RecordDesc, no_fields, with_field, RecordValue, TableRecord, table_record, Values,
  no_values, with_value,
}
use casacure.Records.Write.{position, value_at, found, get}
use casacure.Records.Contents.{Fresh, Distinct}

-- The names of `fs` have the values `vs` in `r`.
unfoldable pub Looked : TableRecord → RecordDesc → Values → Type 0
Looked r no_fields vs = Unit
Looked r (with_field f fs) no_values = Unit
Looked r (with_field (field n dt s h t c) fs) (with_value v vs) =
    (get n r ≡ some v) × Looked r fs vs

found-behind :
    (v : RecordValue) (vs : Values) (i : Option ℕ)
    → found (with_value v vs) (elim i [ none ↦ none | some k ↦ some (suc k) ]) ≡ found vs i
unfolding value_at
found-behind v vs none = refl
found-behind v vs (some k) = refl

pub get-behind :
    (m : List ℕ) (dt : DataType) (s : SubDesc) (h : Option (List ℤ)) (t : Option (List ℕ))
    (c : List ℕ) (fs : RecordDesc) (kind : ℤ) (v : RecordValue) (vs : Values) (n : List ℕ)
    → bytes_eq m n ≡ false
    → get n (table_record (with_field (field m dt s h t c) fs) kind (with_value v vs))
      ≡ get n (table_record fs kind vs)
unfolding get position
get-behind m dt s h t c fs kind v vs n e = rw e (found-behind v vs (position n fs))

Looked-behind :
    (m : List ℕ) (dt : DataType) (s : SubDesc) (h : Option (List ℤ)) (t : Option (List ℕ))
    (c : List ℕ) (fs : RecordDesc) (kind : ℤ) (v : RecordValue) (vs : Values) (fs' : RecordDesc)
    (vs' : Values)
    → Fresh m fs'
    → Looked (table_record fs kind vs) fs' vs'
    → Looked (table_record (with_field (field m dt s h t c) fs) kind (with_value v vs)) fs' vs'
unfolding Looked Fresh
Looked-behind m dt s h t c fs kind v vs no_fields vs' fresh l = tt
Looked-behind m dt s h t c fs kind v vs (with_field f fs') no_values fresh l = tt
Looked-behind m dt s h t c fs kind v vs (with_field (field n dt' s' h' t' c') fs')
      (with_value v' vs') (differs, fresh) (here, later) =
    (
      get-behind m dt s h t c fs kind v vs n differs ∙ here,
      Looked-behind m dt s h t c fs kind v vs fs' vs' fresh later,
    )

pub Looked-self :
    (d : RecordDesc) (kind : ℤ) (vs : Values) → Distinct d → Looked (table_record d kind vs) d vs
unfolding Looked Distinct
Looked-self no_fields kind vs h = tt
Looked-self (with_field f fs) kind no_values h = tt
Looked-self (with_field (field n dt s h t c) fs) kind (with_value v vs) (fresh, distinct) = (
  unfold get position value_at in rw (bytes_eq_refl n) refl,
  Looked-behind n dt s h t c fs kind v vs fs vs fresh (Looked-self fs kind vs distinct),
)
