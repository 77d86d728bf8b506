-- ===== src/Bytes/Utf8.antt =====
-- The well-formedness check of `String::from_utf8`, one byte at a time.
use casacure.Prelude.{
  ℕ, Bool, false, ◌&&◌, List, [], ◌∷◌, Option, none, some, leb, ltb, ◌==◌, if◌then◌else◌, ◌-◌,
}

-- The continuation bytes still due, and the range of the next one.
pub record Pending : Type 0 where
  pub due : ℕ
  pub low : ℕ
  pub high : ℕ

abbrev pub ready : Pending
ready = record { due = 0; low = 0x80; high = 0xbf }

abbrev awaiting : ℕ → ℕ → ℕ → Option Pending
awaiting n lo hi = some (record { due = n; low = lo; high = hi })

-- The first byte of a character: the table of well-formed sequences.
unfoldable pub lead : ℕ → Option Pending
lead b =
    if ltb b 0x80
    then some ready
    else if leb 0xc2 b && leb b 0xdf
    then awaiting 1 0x80 0xbf
    else if b == 0xe0
    then awaiting 2 0xa0 0xbf
    else if b == 0xed
    then awaiting 2 0x80 0x9f
    else if leb 0xe1 b && leb b 0xef
    then awaiting 2 0x80 0xbf
    else if b == 0xf0
    then awaiting 3 0x90 0xbf
    else if leb 0xf1 b && leb b 0xf3
    then awaiting 3 0x80 0xbf
    else if b == 0xf4
    then awaiting 3 0x80 0x8f
    else none

unfoldable pub step : Pending → ℕ → Option Pending
unfolding lead
step s b =
    if s.due == 0
    then lead b
    else if leb s.low b && leb b s.high
    then awaiting (s.due - 1) 0x80 0xbf
    else none

unfoldable pub run : Pending → List ℕ → Option Pending
unfolding step
run s [] = some s
run s (b ∷ bs) = elim (step s b) [ none ↦ none | some t ↦ run t bs ]

abbrev complete : Option Pending → Bool
complete none = false
complete (some s) = s.due == 0

unfoldable pub is_utf8 : List ℕ → Bool
unfolding run
is_utf8 bs = complete (run ready bs)
