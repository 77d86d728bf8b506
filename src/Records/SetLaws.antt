-- ===== src/Records/SetLaws.antt =====
-- What `get` finds in a table record of crates/casacure/src/record.rs after `set`.
use casacure.Prelude.{
  ℕ, suc, ◌≡◌, refl, sym, ◌∙◌, Bool, true, false, List, Option, none, some, inl, inr, Bool-cases,
  if◌then◌else◌,
}
use mathlib.Core.Option
use casacure.Prelude.Int.{ℤ}
use casacure.Bytes.{bytes_eq, bytes_eq_refl, eq_of_bytes_eq}
use casacure.Records.{DataType}
use casacure.Records.Values.{
  RecordDescField, field, SubDesc, RecordDesc, no_fields, with_field, RecordValue, TableRecord,
  table_record, Values, no_values, with_value,
}
use casacure.Records.Write.{position, value_at, get}
use casacure.Records.Contents.Lookup.{get-behind}
use casacure.Records.Set.{retyped, new_field, replace_at, set_at, place, set, SameLength, Aligned}

-- `set` by one walk over the fields.
put_fields : List ℕ → RecordValue → RecordDesc → RecordDesc
put_fields name v no_fields = with_field (new_field name v) no_fields
put_fields name v (with_field (field n dt s h t c) fs) =
    if bytes_eq n name
    then with_field (retyped v (field n dt s h t c)) fs
    else with_field (field n dt s h t c) (put_fields name v fs)

put_values : List ℕ → RecordValue → RecordDesc → Values → Values
put_values name v (with_field (field n dt s h t c) fs) (with_value w vs) =
    if bytes_eq n name then with_value v vs else with_value w (put_values name v fs vs)
put_values name v d vs = with_value v no_values

put_in : List ℕ → RecordValue → TableRecord → TableRecord
unfolding put_fields put_values
put_in name v (table_record d t vs) = table_record (put_fields name v d) t (put_values name v d vs)

record_parts : TableRecord → RecordDesc × Values
record_parts (table_record d t vs) = (d, vs)

pub mapped :
    (f : RecordDescField) (d : RecordDesc) (t : ℤ) (w : RecordValue) (o : Option Values)
    (d' : RecordDesc) (vs' : Values)
    → Option.map (table_record d t) o ≡ some (table_record d' t vs')
    → Option.map (table_record (with_field f d) t) (Option.map (with_value w) o)
      ≡ some (table_record (with_field f d') t (with_value w vs'))
mapped f d t w none d' vs' e = cc
mapped f d t w (some vs) d' vs' e = cc

set_at-behind :
    (name : List ℕ) (v : RecordValue) (f : RecordDescField) (fs : RecordDesc) (t : ℤ)
    (w : RecordValue) (vs : Values) (o : Option ℕ) (d' : RecordDesc) (vs' : Values)
    → set_at name v (table_record fs t vs) o ≡ some (table_record d' t vs')
    → set_at name v
        (table_record (with_field f fs) t (with_value w vs))
        (elim o [ none ↦ none | some k ↦ some (suc k) ])
      ≡ some (table_record (with_field f d') t (with_value w vs'))
unfolding set_at
set_at-behind name v f fs t w vs none d' vs' e = cc
set_at-behind name v f fs t w vs (some k) d' vs' e = mapped f _ t w (replace_at v vs k) d' vs' e

set-put_in :
    (name : List ℕ) (v : RecordValue) (d : RecordDesc) (t : ℤ) (vs : Values)
    → SameLength d vs
    → set_at name v (table_record d t vs) (position name d)
      ≡ some (put_in name v (table_record d t vs))
unfolding put_in SameLength position set_at
set-put_in name v no_fields t no_values h = refl
set-put_in name v no_fields t (with_value w vs) h = absurd h
set-put_in name v (with_field f fs) t no_values h = absurd h
set-put_in name v (with_field (field n dt s sh tn c) fs) t (with_value w vs) h =
    elim (Bool-cases (bytes_eq n name)) [
      | inl e ↦ rw e refl
      | inr e ↦ rw e (
          set_at-behind name v (field n dt s sh tn c) fs t w vs (position name fs)
            (put_fields name v fs) (put_values name v fs vs) (set-put_in name v fs t vs h))
    ]

put_in-SameLength :
    (name : List ℕ) (v : RecordValue) (d : RecordDesc) (vs : Values)
    → SameLength d vs
    → SameLength (put_fields name v d) (put_values name v d vs)
unfolding put_fields put_values SameLength
put_in-SameLength name v no_fields no_values h = tt
put_in-SameLength name v no_fields (with_value w vs) h = absurd h
put_in-SameLength name v (with_field f fs) no_values h = absurd h
put_in-SameLength name v (with_field (field n dt s sh tn c) fs) (with_value w vs) h =
    elim (Bool-cases (bytes_eq n name)) [
      | inl e ↦ rw e h
      | inr e ↦ rw e (put_in-SameLength name v fs vs h)
    ]

pub get-here :
    (m : List ℕ) (dt : DataType) (s : SubDesc) (h : Option (List ℤ)) (t : Option (List ℕ))
    (c : List ℕ) (fs : RecordDesc) (kind : ℤ) (v : RecordValue) (vs : Values) (n : List ℕ)
    → bytes_eq m n ≡ true
    → get n (table_record (with_field (field m dt s h t c) fs) kind (with_value v vs)) ≡ some v
unfolding get position value_at
get-here m dt s h t c fs kind v vs n e = rw e refl

clash : {b : Bool} → b ≡ true → b ≡ false → ⊥
clash e f = cc

pub bytes_eq-sym : (xs ys : List ℕ) → bytes_eq xs ys ≡ false → bytes_eq ys xs ≡ false
bytes_eq-sym xs ys e = elim (Bool-cases (bytes_eq ys xs)) [
  | inl t ↦
      let same : ys ≡ xs = eq_of_bytes_eq ys xs t in
      let off : bytes_eq xs xs ≡ false = rw same at e in absurd (clash (bytes_eq_refl xs) off)
  | inr f ↦ f
]

-- One field in front of those of a record.
module _ (name m : List ℕ) (v : RecordValue) (n : List ℕ) (dt : DataType) (s : SubDesc)
    (sh : Option (List ℤ)) (tn : Option (List ℕ)) (c : List ℕ) (fs : RecordDesc) (t : ℤ)
    (w : RecordValue) (vs : Values) where
  whole : TableRecord
  whole = table_record (with_field (field n dt s sh tn c) fs) t (with_value w vs)

  Law : Bool → Type 0
  Law b =
      get m (
        table_record
          (if b
            then with_field (retyped v (field n dt s sh tn c)) fs
            else with_field (field n dt s sh tn c) (put_fields name v fs))
          t (if b then with_value v vs else with_value w (put_values name v fs vs)))
      ≡ (if bytes_eq name m then some v else get m whole)

  Law-here : bytes_eq n name ≡ true → Law true
  unfolding Law retyped whole
  Law-here e =
      let same : n ≡ name = eq_of_bytes_eq n name e in
      elim (Bool-cases (bytes_eq n m)) [
        | inl here ↦ get-here n _ _ sh tn c fs t v vs m here ∙ rw (← same, here) refl
        | inr away ↦
            get-behind n _ _ sh tn c fs t v vs m away
            ∙ rw (← same, away) (sym (get-behind n dt s sh tn c fs t w vs m away))
      ]

  Law-later :
      bytes_eq n name ≡ false
      → get m (table_record (put_fields name v fs) t (put_values name v fs vs))
        ≡ (if bytes_eq name m then some v else get m (table_record fs t vs))
      → Law false
  unfolding Law whole
  Law-later e ih = elim (Bool-cases (bytes_eq n m)) [
    | inl here ↦
        let same : n ≡ m = eq_of_bytes_eq n m here in
        let off : bytes_eq name m ≡ false = rw same at (bytes_eq-sym n name e) in
        get-here n dt s sh tn c _ t w _ m here
        ∙ rw off (sym (get-here n dt s sh tn c fs t w vs m here))
    | inr away ↦
        get-behind n dt s sh tn c _ t w _ m away
        ∙ rw (get-behind n dt s sh tn c fs t w vs m away) ih
  ]

get-put_in :
    (name m : List ℕ) (v : RecordValue) (d : RecordDesc) (t : ℤ) (vs : Values)
    → SameLength d vs
    → get m (table_record (put_fields name v d) t (put_values name v d vs))
      ≡ (if bytes_eq name m then some v else get m (table_record d t vs))
unfolding put_fields put_values SameLength new_field Law whole
get-put_in name m v no_fields t no_values h = elim (Bool-cases (bytes_eq name m)) [
  | inl here ↦ get-here name _ _ _ _ _ no_fields t v no_values m here ∙ rw here refl
  | inr away ↦ get-behind name _ _ _ _ _ no_fields t v no_values m away ∙ rw away refl
]
get-put_in name m v no_fields t (with_value w vs) h = absurd h
get-put_in name m v (with_field f fs) t no_values h = absurd h
get-put_in name m v (with_field (field n dt s sh tn c) fs) t (with_value w vs) h =
    elim (Bool-cases (bytes_eq n name)) [
      | inl e ↦ rw e (Law-here name m v n dt s sh tn c fs t w vs e)
      | inr e ↦ rw e (Law-later name m v n dt s sh tn c fs t w vs e (get-put_in name m v fs t vs h))
    ]

-- On a record with one value for each field `set` does not panic and leaves such a record, in which
-- the name has the new value and every other name what it had.
pub get-set :
    (name : List ℕ) (v : RecordValue) (r : TableRecord)
    → Aligned r
    → (r' : TableRecord) × (set name v r ≡ some r')
      × Aligned r'
      × ((m : List ℕ) → get m r' ≡ (if bytes_eq name m then some v else get m r))
unfolding set place Aligned put_in
get-set name v (table_record d t vs) h = (
  put_in name v (table_record d t vs),
  set-put_in name v d t vs h,
  put_in-SameLength name v d vs h,
  λ m. get-put_in name m v d t vs h,
)
