-- ===== src/Tests/Directories.antt =====
-- crates/casacure/src/tableinfo.rs and flushgate.rs at concrete inputs.
use casacure.Prelude.{
  true, ℕ, ◌≡◌, ◌↔◌, refl, List, [], ◌∷◌, ◌++◌, Option, none, some, if◌then◌else◌,
}
use casacure.Bytes.{codes, bytes_eq, bytes_eq_refl, eq_of_bytes_eq}
use casacure.Tableinfo
use casacure.Tableinfo.{TableInfo, parse, render}
use casacure.Tableinfo.RoundTrip.{parse-render}
use casacure.Flushgate.{IsPathEq, empty_registry, key_of, gate, gates_of}
use casacure.Flushgate.Identity.{gate_iff}

abbrev image : TableInfo
image = record { type_name = codes "Image"; sub_type = []; readme = codes "seen" }

parse-render_example :
    parse (render image)
    ≡ record { type_name = codes "Image"; sub_type = []; readme = codes "seen" ++ (10 ∷ []) }
unfolding Tableinfo.whole_lines Tableinfo.is_empty Tableinfo.ends_line
parse-render_example = parse-render image (refl, (refl, (refl, (refl, (refl, tt))))) tt

-- A link to `a`.
abbrev resolved : List ℕ → Option (List ℕ)
resolved dir = if bytes_eq dir (codes "link") then some (codes "a") else none

bytes_eq-IsPathEq : IsPathEq bytes_eq
bytes_eq-IsPathEq = record {
  self = bytes_eq_refl;
  turned = λ p q h. rw (eq_of_bytes_eq p q h) (bytes_eq_refl q);
  joined = λ p q r h k. rw (eq_of_bytes_eq p q h) k;
}

gate_iff_example :
    ((gate resolved bytes_eq (codes "link") (
        gates_of resolved bytes_eq
          (codes "b" ∷ [])
          (gate resolved bytes_eq
            (codes "a")
            (gates_of resolved bytes_eq (codes "c" ∷ []) empty_registry)).1)).0
      ≡ (gate resolved bytes_eq
          (codes "a")
          (gates_of resolved bytes_eq (codes "c" ∷ []) empty_registry)).0)
    ↔ (bytes_eq (key_of resolved (codes "link")) (key_of resolved (codes "a")) ≡ true)
gate_iff_example =
    gate_iff resolved bytes_eq bytes_eq-IsPathEq (codes "c" ∷ []) (codes "b" ∷ []) (codes "a")
      (codes "link")
