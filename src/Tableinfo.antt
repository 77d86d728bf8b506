-- ===== src/Tableinfo.antt =====
-- crates/casacure/src/tableinfo.rs: the text of the file `table.info`, as `TableInfo::write` makes it
-- and `parse` reads it.
pub mod RoundTrip
use casacure.Prelude.{
  ℕ, Bool, true, false, not, ◌&&◌, List, [], ◌∷◌, ◌++◌, Option, none, some, ◌==◌, if◌then◌else◌,
}
use casacure.Bytes.{codes}

pub record TableInfo : Type 0 where
  pub type_name : List ℕ
  pub sub_type : List ℕ
  pub readme : List ℕ

unfoldable pub is_empty : List ℕ → Bool
is_empty [] = true
is_empty (c ∷ s) = false

-- `ends_with('\n')`
unfoldable pub ends_line : List ℕ → Bool
ends_line [] = false
ends_line (c ∷ s) = let rest = ends_line s in if is_empty s then c == 10 else rest

-- The readme as whole lines.
unfoldable pub whole_lines : List ℕ → List ℕ
whole_lines readme =
    if not (is_empty readme) && not (ends_line readme) then readme ++ (10 ∷ []) else readme

-- The text that `write` puts into the file.
unfoldable pub render : TableInfo → List ℕ
render info =
    codes "Type = "
    ++ (info.type_name
        ++ (10 ∷ (codes "SubType = " ++ (info.sub_type ++ (10 ∷ 10 ∷ whole_lines info.readme)))))

-- `split_inclusive('\n')`: a line with its end, and what follows.
unfoldable pub next_line : List ℕ → List ℕ × List ℕ
next_line [] = ([], [])
next_line (c ∷ s) =
    let (line, rest) = next_line s in if c == 10 then (c ∷ [], s) else (c ∷ line, rest)

-- `trim_end_matches('\n')`
unfoldable pub trim_end : List ℕ → List ℕ
trim_end [] = []
trim_end (c ∷ s) = let rest = trim_end s in if (c == 10) && is_empty rest then [] else c ∷ rest

unfoldable pub strip_prefix : List ℕ → List ℕ → Option (List ℕ)
strip_prefix [] s = some s
strip_prefix (p ∷ ps) [] = none
strip_prefix (p ∷ ps) (c ∷ s) = let rest = strip_prefix ps s in if p == c then rest else none

-- `unwrap_or`
abbrev pub or_else : Option (List ℕ) → List ℕ → List ℕ
or_else none s = s
or_else (some t) s = t

-- The longer prefix is tried first.
unfoldable pub value_of : List ℕ → List ℕ → List ℕ
value_of line key =
    let text = trim_end line in
    or_else (strip_prefix (key ++ codes " = ") text)
      (or_else (strip_prefix (key ++ codes " =") text) [])

-- A line that is not there leaves the value empty.
unfoldable pub line_value : List ℕ → List ℕ → List ℕ
line_value text key = if is_empty text then [] else value_of (next_line text).0 key

unfoldable pub parse : List ℕ → TableInfo
parse text =
    let behind = (next_line text).1 in
    let rest = (next_line behind).1 in
    record {
      type_name = line_value text (codes "Type");
      sub_type = line_value behind (codes "SubType");
      readme = or_else (strip_prefix (10 ∷ []) rest) rest;
    }
