-- ===== src/Taql/Literals.antt =====
-- The string literals of crates/casacure/src/taql.rs.
use casacure.Prelude.{
  ℕ, zero, suc, ◌-◌, ◌<◌, ◌≡◌, refl, ap, ◌∙◌, true, false, List, [], ◌∷◌, ◌++◌, Option, some, inl,
  inr, arith, ltb, ◌==◌, if◌then◌else◌, length, Bool-cases, append-nil,
}
use casacure.Result.{ok}
use casacure.Aipsio.Reads.{All}
use casacure.Taql.{str, is_whitespace, push, pushed, scan_string, round, tokens, tokenize}

-- A string behind its first quote: its quotes are doubled, and one ends it.
unfoldable pub escaped : List ℕ → List ℕ
escaped [] = 39 ∷ []
escaped (c ∷ s) = if c == 39 then 39 ∷ 39 ∷ escaped s else c ∷ escaped s

-- Each byte as a character.
unfoldable pub characters : List ℕ → List ℕ
characters [] = []
characters (c ∷ s) = push c (characters s)

pub characters-ascii : (s : List ℕ) → All (λ c. c < 128) s → characters s ≡ s
unfolding characters push
characters-ascii [] h = refl
characters-ascii (c ∷ s) (h, hs) =
    let t : ltb c 128 ≡ true = ground arith in rw (t, characters-ascii s hs) refl

-- What follows a string is no quote.
abbrev pub NoQuote : List ℕ → Type 0
NoQuote [] = Unit
NoQuote (c ∷ rest) = (c == 39) ≡ false

scan_string-end : (rest : List ℕ) → NoQuote rest → scan_string (39 ∷ rest) ≡ some ([], rest)
unfolding scan_string
scan_string-end [] h = refl
scan_string-end (c ∷ rest) h = rw h refl

scan_string-plain :
    (c : ℕ) (rest : List ℕ)
    → (c == 39) ≡ false
    → scan_string (c ∷ rest) ≡ pushed c (scan_string rest)
unfolding scan_string
scan_string-plain c [] h = rw h refl
scan_string-plain c (d ∷ rest) h = rw h refl

scan_string-doubled : (rest : List ℕ) → scan_string (39 ∷ 39 ∷ rest) ≡ pushed 39 (scan_string rest)
unfolding scan_string
scan_string-doubled rest = refl

pub scan_string-escaped :
    (s rest : List ℕ) → NoQuote rest → scan_string (escaped s ++ rest) ≡ some (characters s, rest)
unfolding escaped characters
scan_string-escaped [] rest h = scan_string-end rest h
scan_string-escaped (c ∷ s) rest h = elim (Bool-cases (c == 39)) [
  | inl t ↦
      let e : c ≡ 39 = ground arith in
      let inner : scan_string (39 ∷ 39 ∷ (escaped s ++ rest))
          ≡ some (push 39 (characters s), rest) =
        scan_string-doubled (escaped s ++ rest) ∙ ap (pushed 39) (scan_string-escaped s rest h) in
      rw (t, e) inner
  | inr t ↦
      rw t
        (scan_string-plain c (escaped s ++ rest) t ∙ ap (pushed c) (scan_string-escaped s rest h))
]

module _ {F : Type 0} (parse_f64 : List ℕ → Option F) where
  pub round-string :
      (position : ℕ) (s rest : List ℕ)
      → NoQuote rest
      → round parse_f64 position 39 (escaped s ++ rest) ≡ ok (some (str (characters s)), rest)
  unfolding round is_whitespace
  round-string position s rest h = rw (scan_string-escaped s rest h) refl

  pub tokens-nil : (fuel total : ℕ) → tokens parse_f64 fuel total [] ≡ ok []
  unfolding tokens
  tokens-nil zero total = refl
  tokens-nil (suc fuel) total = refl

  -- A query that is a single string literal, of any bytes with its quotes doubled, is one token, whose
  -- text is made of the bytes, each as a character of its own: a byte from 128 on, which is part of
  -- a character in UTF-8, becomes two bytes.
  pub tokenize-literal :
      (s : List ℕ) → tokenize parse_f64 (39 ∷ escaped s) ≡ ok (str (characters s) ∷ [])
  unfolding tokenize tokens
  tokenize-literal s =
      let e : escaped s ++ [] ≡ escaped s = append-nil (escaped s) in
      let first : round parse_f64 (length (39 ∷ escaped s) - suc (length (escaped s))) 39
            (escaped s)
          ≡ ok (some (str (characters s)), []) =
        rw e at (round-string (length (39 ∷ escaped s) - suc (length (escaped s))) s [] tt) in
      rw (first, tokens-nil (length (escaped s)) (suc (length (escaped s)))) refl
