-- ===== src/Records/RemoveLaws.antt =====
-- What `get` finds in a table record of crates/casacure/src/record.rs after `remove`.
use casacure.Prelude.{
  ℕ, suc, ◌≡◌, refl, sym, ◌∙◌, false, List, Option, none, some, inl, inr, Bool-cases, if◌then◌else◌,
}
use casacure.Prelude.Int.{ℤ}
use casacure.Bytes.{bytes_eq, eq_of_bytes_eq}
use casacure.Records.Values.{
  RecordDescField, field, RecordDesc, no_fields, with_field, RecordValue, TableRecord, table_record,
  Values, no_values, with_value,
}
use casacure.Records.Write.{position, get}
use casacure.Records.Contents.{Fresh, Distinct}
use casacure.Records.Contents.Lookup.{get-behind}
use casacure.Records.Set.{remove_value_at, remove_at, place, remove, SameLength, Aligned}
use casacure.Records.SetLaws.{mapped, get-here, bytes_eq-sym}

-- `remove` by one walk over the fields.
drop_field : List ℕ → RecordDesc → RecordDesc
drop_field name no_fields = no_fields
drop_field name (with_field (field n dt s h t c) fs) =
    if bytes_eq n name then fs else with_field (field n dt s h t c) (drop_field name fs)

drop_value : List ℕ → RecordDesc → Values → Values
drop_value name (with_field (field n dt s h t c) fs) (with_value w vs) =
    if bytes_eq n name then vs else with_value w (drop_value name fs vs)
drop_value name d vs = vs

remove_at-behind :
    (f : RecordDescField) (fs : RecordDesc) (t : ℤ) (w : RecordValue) (vs : Values) (o : Option ℕ)
    (d' : RecordDesc) (vs' : Values)
    → remove_at (table_record fs t vs) o ≡ some (table_record d' t vs')
    → remove_at
        (table_record (with_field f fs) t (with_value w vs))
        (elim o [ none ↦ none | some k ↦ some (suc k) ])
      ≡ some (table_record (with_field f d') t (with_value w vs'))
unfolding remove_at
remove_at-behind f fs t w vs none d' vs' e = cc
remove_at-behind f fs t w vs (some k) d' vs' e = mapped f _ t w (remove_value_at vs k) d' vs' e

remove-drop :
    (name : List ℕ) (d : RecordDesc) (t : ℤ) (vs : Values)
    → SameLength d vs
    → remove_at (table_record d t vs) (position name d)
      ≡ some (table_record (drop_field name d) t (drop_value name d vs))
unfolding drop_field drop_value SameLength position remove_at
remove-drop name no_fields t no_values h = refl
remove-drop name no_fields t (with_value w vs) h = absurd h
remove-drop name (with_field f fs) t no_values h = absurd h
remove-drop name (with_field (field n dt s sh tn c) fs) t (with_value w vs) h =
    elim (Bool-cases (bytes_eq n name)) [
      | inl e ↦ rw e refl
      | inr e ↦ rw e (
          remove_at-behind (field n dt s sh tn c) fs t w vs (position name fs) (drop_field name fs)
            (drop_value name fs vs) (remove-drop name fs t vs h))
    ]

drop-SameLength :
    (name : List ℕ) (d : RecordDesc) (vs : Values)
    → SameLength d vs
    → SameLength (drop_field name d) (drop_value name d vs)
unfolding drop_field drop_value SameLength
drop-SameLength name no_fields no_values h = tt
drop-SameLength name no_fields (with_value w vs) h = absurd h
drop-SameLength name (with_field f fs) no_values h = absurd h
drop-SameLength name (with_field (field n dt s sh tn c) fs) (with_value w vs) h =
    elim (Bool-cases (bytes_eq n name)) [
      | inl e ↦ rw e h
      | inr e ↦ rw e (drop-SameLength name fs vs h)
    ]

get-Fresh :
    (m : List ℕ) (d : RecordDesc) (t : ℤ) (vs : Values)
    → SameLength d vs
    → Fresh m d
    → get m (table_record d t vs) ≡ none
unfolding get position Fresh SameLength
get-Fresh m no_fields t vs h fresh = refl
get-Fresh m (with_field f fs) t no_values h fresh = absurd h
get-Fresh m (with_field (field n dt s sh tn c) fs) t (with_value w vs) h (off, fresh) =
    get-behind n dt s sh tn c fs t w vs m (bytes_eq-sym m n off) ∙ get-Fresh m fs t vs h fresh

get-drop :
    (name m : List ℕ) (d : RecordDesc) (t : ℤ) (vs : Values)
    → SameLength d vs
    → Distinct d
    → get m (table_record (drop_field name d) t (drop_value name d vs))
      ≡ (if bytes_eq name m then none else get m (table_record d t vs))
unfolding drop_field drop_value SameLength Distinct
get-drop name m no_fields t no_values h distinct = elim (Bool-cases (bytes_eq name m)) [
  | inl e ↦ unfold get position in rw e refl
  | inr e ↦ unfold get position in rw e refl
]
get-drop name m no_fields t (with_value w vs) h distinct = absurd h
get-drop name m (with_field f fs) t no_values h distinct = absurd h
get-drop name m (with_field (field n dt s sh tn c) fs) t (with_value w vs) h (fresh, distinct) =
    elim (Bool-cases (bytes_eq n name)) [
      | inl e ↦
          let same : n ≡ name = eq_of_bytes_eq n name e in
          elim (Bool-cases (bytes_eq name m)) [
            | inl here ↦
                rw (e, here)
                  (get-Fresh m fs t vs h (rw (same ∙ eq_of_bytes_eq name m here) at fresh))
            | inr away ↦ rw (e, away) (sym (get-behind n dt s sh tn c fs t w vs m (rw same away)))
          ]
      | inr e ↦ elim (Bool-cases (bytes_eq n m)) [
        | inl here ↦
            let same : n ≡ m = eq_of_bytes_eq n m here in
            let off : bytes_eq name m ≡ false = rw same at (bytes_eq-sym n name e) in
            rw (e, off)
              (get-here n dt s sh tn c _ t w _ m here
                ∙ sym (get-here n dt s sh tn c fs t w vs m here))
        | inr away ↦ rw e (
            get-behind n dt s sh tn c _ t w _ m away
            ∙ rw (get-behind n dt s sh tn c fs t w vs m away) (get-drop name m fs t vs h distinct))
      ]
    ]

-- The names of the fields differ.
unfoldable pub NamesDiffer : TableRecord → Type 0
unfolding Distinct
NamesDiffer (table_record d t vs) = Distinct d

-- On a record with one value for each field and distinct names `remove` does not panic and leaves
-- one value for each field, where the name has no value and every other name what it had.
pub get-remove :
    (name : List ℕ) (r : TableRecord)
    → Aligned r
    → NamesDiffer r
    → (r' : TableRecord) × (remove name r ≡ some r')
      × Aligned r'
      × ((m : List ℕ) → get m r' ≡ (if bytes_eq name m then none else get m r))
unfolding remove place Aligned NamesDiffer
get-remove name (table_record d t vs) h distinct = (
  table_record (drop_field name d) t (drop_value name d vs),
  remove-drop name d t vs h,
  drop-SameLength name d vs h,
  λ m. get-drop name m d t vs h distinct,
)
