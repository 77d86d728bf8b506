-- ===== src/Tableinfo/RoundTrip.antt =====
-- The file `table.info` of crates/casacure/src/tableinfo.rs, written and parsed.
use casacure.Prelude.{ℕ, ◌≡◌, refl, ap, true, false, List, [], ◌∷◌, ◌++◌, some, ◌==◌, arith}
use casacure.Bytes.{codes}
use casacure.Aipsio.Reads.{All}
use casacure.Tableinfo.{
  TableInfo, is_empty, whole_lines, render, next_line, trim_end, strip_prefix, value_of, line_value,
  parse,
}

-- A text of one line.
abbrev pub OneLine : List ℕ → Type 0
OneLine s = All (λ c. (c == 10) ≡ false) s

next_line-OneLine :
    (s rest : List ℕ) → OneLine s → next_line (s ++ (10 ∷ rest)) ≡ (s ++ (10 ∷ []), rest)
unfolding next_line
next_line-OneLine [] rest h = refl
next_line-OneLine (c ∷ s) rest (h, hs) = rw (h, next_line-OneLine s rest hs) refl

trim_end-OneLine : (s : List ℕ) → OneLine s → trim_end (s ++ (10 ∷ [])) ≡ s
unfolding trim_end is_empty
trim_end-OneLine [] h = refl
trim_end-OneLine (c ∷ s) (h, hs) = rw (h, trim_end-OneLine s hs) refl

strip_prefix-append : (p s : List ℕ) → strip_prefix p (p ++ s) ≡ some s
unfolding strip_prefix
strip_prefix-append [] s = refl
strip_prefix-append (c ∷ p) s =
    let t : (c == c) ≡ true = ground arith in rw (t, strip_prefix-append p s) refl

OneLine-append : (s t : List ℕ) → OneLine s → OneLine t → OneLine (s ++ t)
OneLine-append [] t hs ht = ht
OneLine-append (c ∷ s) t (h, hs) ht = (h, OneLine-append s t hs ht)

-- A line of a key and a value.
value_of-line :
    (key value : List ℕ)
    → OneLine (key ++ codes " = ")
    → OneLine value
    → value_of (((key ++ codes " = ") ++ value) ++ (10 ∷ [])) key ≡ value
unfolding value_of
value_of-line key value hk hv =
    rw
      (
        trim_end-OneLine ((key ++ codes " = ") ++ value)
            (OneLine-append (key ++ codes " = ") value hk hv),
        strip_prefix-append (key ++ codes " = ") value,
      )
      refl

line_value-line :
    (text line rest key value : List ℕ)
    → is_empty text ≡ false
    → next_line text ≡ (line, rest)
    → value_of line key ≡ value
    → line_value text key ≡ value
unfolding line_value
line_value-line text line rest key value h e k = rw (h, e) k

-- A `TableInfo` whose type and subtype have no line break is parsed from the text that is written for
-- it: the type and the subtype as they are, and the readme with a line break at its end, where it
-- is not empty and had none.
pub parse-render :
    (info : TableInfo)
    → OneLine info.type_name
    → OneLine info.sub_type
    → parse (render info) ≡ record info { readme = whole_lines info.readme }
unfolding parse
parse-render info ht hs =
    let behind : List ℕ =
      codes "SubType = " ++ (info.sub_type ++ (10 ∷ 10 ∷ whole_lines info.readme)) in
    let first : next_line (render info)
        ≡ ((codes "Type = " ++ info.type_name) ++ (10 ∷ []), behind) =
      unfold render in
      next_line-OneLine (codes "Type = " ++ info.type_name) behind (
        OneLine-append (codes "Type = ") info.type_name
          (refl, (refl, (refl, (refl, (refl, (refl, (refl, tt))))))) ht) in
    let second : next_line behind
        ≡ ((codes "SubType = " ++ info.sub_type) ++ (10 ∷ []), 10 ∷ whole_lines info.readme) =
      next_line-OneLine (codes "SubType = " ++ info.sub_type) (10 ∷ whole_lines info.readme) (
        OneLine-append (codes "SubType = ") info.sub_type
          (refl, (refl, (refl, (refl, (refl, (refl, (refl, (refl, (refl, (refl, tt)))))))))) hs) in
    let behind_first : (next_line (render info)).1 ≡ behind =
      ap (λ (l : List ℕ × List ℕ). l.1) first in
    let type_read : line_value (render info) (codes "Type") ≡ info.type_name =
      line_value-line (render info) _ behind (codes "Type") info.type_name
        (unfold is_empty render in refl) first
        (value_of-line (codes "Type") info.type_name
          (refl, (refl, (refl, (refl, (refl, (refl, (refl, tt))))))) ht) in
    let sub_type_read : line_value behind (codes "SubType") ≡ info.sub_type =
      line_value-line behind _ (10 ∷ whole_lines info.readme) (codes "SubType") info.sub_type
        (unfold is_empty in refl) second
        (value_of-line (codes "SubType") info.sub_type
          (refl, (refl, (refl, (refl, (refl, (refl, (refl, (refl, (refl, (refl, tt)))))))))) hs) in
    rw
      (
        behind_first,
        type_read,
        sub_type_read,
        second,
        strip_prefix-append (10 ∷ []) (whole_lines info.readme),
      )
      refl
