-- ===== src/Taql.antt =====
-- The tokens of a query of crates/casacure/src/taql.rs: `tokenize`. The text is its bytes, each of
-- which the code takes for a character; `parse::<f64>` of the standard library is a parameter.
pub mod Progress
pub mod Literals
pub mod Spelled
pub mod Spelling
pub mod Query
use casacure.Prelude.{
  ℕ, zero, suc, ◌+◌, ◌-◌, ◌*◌, ◌/◌, ◌%◌, ◌^◌, Bool, true, false, not, ◌&&◌, ◌||◌, List, [], ◌∷◌,
  ◌++◌, Option, none, some, ltb, leb, ◌==◌, if◌then◌else◌, length, take, drop, min, get_elem?,
}
use casacure.Result.{Result, ok, err, ◌>>=◌}
use casacure.Bytes.{codes, bytes_eq}

pub data TokenError : Type 0 where
  unterminated_string : TokenError
  invalid_number : (text : List ℕ) → TokenError
  unexpected_character : (c position : ℕ) → TokenError
  -- A text is cut inside a character: the code panics.
  panicked : TokenError
  -- More rounds of the loop than the model makes.
  out_of_fuel : TokenError

-- `char::is_whitespace` of the characters that a byte can be.
unfoldable pub is_whitespace : ℕ → Bool
is_whitespace c = (leb 9 c && leb c 13) || (c == 32) || (c == 133) || (c == 160)

unfoldable pub is_digit : ℕ → Bool
is_digit c = leb 48 c && leb c 57

unfoldable pub is_alphabetic : ℕ → Bool
is_alphabetic c = (leb 65 c && leb c 90) || (leb 97 c && leb c 122)

-- `_` and `$`, with the letters.
unfoldable pub begins_word : ℕ → Bool
begins_word c = is_alphabetic c || (c == 95) || (c == 36)

unfoldable pub in_word : ℕ → Bool
in_word c = begins_word c || is_digit c || (c == 46)

unfoldable pub is_punctuation : ℕ → Bool
is_punctuation c =
    (leb 33 c && leb c 47)
    || (leb 58 c && leb c 64)
    || (leb 91 c && leb c 96)
    || (leb 123 c && leb c 126)

-- `String::push` of the character that a byte is taken for.
unfoldable pub push : ℕ → List ℕ → List ℕ
push c s = if ltb c 128 then c ∷ s else (192 + c / 64) ∷ (128 + c % 64) ∷ s

abbrev pub pushed : ℕ → Option (List ℕ × List ℕ) → Option (List ℕ × List ℕ)
pushed c none = none
pushed c (some (s, rest)) = some (push c s, rest)

-- A string behind its first quote, and what follows it; two quotes stand for one.
unfoldable pub scan_string : List ℕ → Option (List ℕ × List ℕ)
scan_string [] = none
scan_string (c ∷ []) = if c == 39 then some ([], []) else none
scan_string (c ∷ d ∷ rest) =
    let doubled = pushed 39 (scan_string rest) in
    let plain = pushed c (scan_string (d ∷ rest)) in
    if c == 39 then (if d == 39 then doubled else some ([], d ∷ rest)) else plain

-- `while i < bytes.len() && p(bytes[i])`: the bytes that are taken, and the others.
unfoldable pub span : (ℕ → Bool) → List ℕ → List ℕ × List ℕ
span p [] = ([], [])
span p (c ∷ rest) = let (w, r) = span p rest in if p c then (c ∷ w, r) else ([], c ∷ rest)

-- The digits behind a point, if there is one.
unfoldable pub scan_fraction : List ℕ → Bool × List ℕ × List ℕ
scan_fraction [] = (false, [], [])
scan_fraction (c ∷ rest) =
    let (w, r) = span is_digit rest in if c == 46 then (true, c ∷ w, r) else (false, [], c ∷ rest)

-- Whether a digit comes next.
abbrev pub digit_next : List ℕ → Bool
digit_next [] = false
digit_next (c ∷ rest) = is_digit c

-- The digits behind an exponent's mark and first byte.
abbrev pub exponent_digits : ℕ → ℕ → List ℕ → Bool × List ℕ × List ℕ
exponent_digits e c rest = let (w, r) = span is_digit rest in (true, e ∷ c ∷ w, r)

unfoldable pub scan_exponent : List ℕ → Bool × List ℕ × List ℕ
scan_exponent [] = (false, [], [])
scan_exponent (e ∷ []) = (false, [], e ∷ [])
scan_exponent (e ∷ c ∷ rest) =
    if ((e == 101) || (e == 69)) && (is_digit c || (((c == 43) || (c == 45)) && digit_next rest))
    then exponent_digits e c rest
    else (false, [], e ∷ c ∷ rest)

-- The value of decimal digits.
unfoldable pub value_from : ℕ → List ℕ → ℕ
value_from n [] = n
value_from n (c ∷ rest) = value_from (n * 10 + (c - 48)) rest

-- `parse::<i64>` of digits.
unfoldable pub parse_i64 : List ℕ → Option ℕ
parse_i64 text = if ltb (value_from 0 text) (2 ^ 63) then some (value_from 0 text) else none

-- Whether a text may be cut before `bytes[k]`.
unfoldable pub cuts : List ℕ → ℕ → Bool
cuts bytes k = elim (get_elem? bytes k) [ none ↦ true | some c ↦ ltb c 128 || leb 192 c ]

-- `contains`
unfoldable pub is_one_of : List (List ℕ) → List ℕ → Bool
is_one_of [] text = false
is_one_of (t ∷ ts) text = bytes_eq t text || is_one_of ts text

abbrev pub long_operators : List (List ℕ)
long_operators = codes "<=>" ∷ codes "!<" ∷ codes "!>" ∷ []

abbrev pub short_operators : List (List ℕ)
short_operators =
    codes "=="
    ∷ codes "!="
    ∷ codes "<="
    ∷ codes ">="
    ∷ codes "<>"
    ∷ codes "&&"
    ∷ codes "||"
    ∷ codes "!~"
    ∷ []

-- `&rest[..rest.len().min(k)]`
abbrev pub front : ℕ → List ℕ → List ℕ
front k rest = take (min (length rest) k) rest

pub data Tok (F : Type 0) : Type 0 where
  ident : List ℕ → Tok F
  int : ℕ → Tok F
  float : F → Tok F
  str : List ℕ → Tok F
  op : List ℕ → Tok F

module _ {F : Type 0} (parse_f64 : List ℕ → Option F) where
  abbrev pub of_string : Option (List ℕ × List ℕ) → Result TokenError (Option (Tok F) × List ℕ)
  of_string none = err unterminated_string
  of_string (some (s, rest)) = ok (some (str s), rest)

  abbrev pub of_float : List ℕ → List ℕ → Option F → Result TokenError (Option (Tok F) × List ℕ)
  of_float text rest none = err (invalid_number text)
  of_float text rest (some f) = ok (some (float f), rest)

  abbrev pub of_int : List ℕ → List ℕ → Option ℕ → Result TokenError (Option (Tok F) × List ℕ)
  of_int text rest none = err (invalid_number text)
  of_int text rest (some n) = ok (some (int n), rest)

  unfoldable pub number : List ℕ → Result TokenError (Option (Tok F) × List ℕ)
  number bytes =
      let (digits, r) = span is_digit bytes in
      let (pointed, fraction, r') = scan_fraction r in
      let (raised, exponent, r'') = scan_exponent r' in
      let text = digits ++ (fraction ++ exponent) in
      if pointed || raised
      then of_float text r'' (parse_f64 text)
      else of_int text r'' (parse_i64 text)

  unfoldable pub operator : ℕ → List ℕ → Result TokenError (Option (Tok F) × List ℕ)
  operator c rest =
      let bytes = c ∷ rest in
      if not (cuts bytes (min (length bytes) 3))
      then err panicked
      else if is_one_of long_operators (front 3 bytes)
      then ok (some (op (front 3 bytes)), drop 3 bytes)
      else if not (cuts bytes (min (length bytes) 2))
      then err panicked
      else if is_one_of short_operators (front 2 bytes)
      then ok (some (op (front 2 bytes)), drop 2 bytes)
      else ok (some (op (c ∷ [])), rest)

  -- One round of the loop at `position`: the token there, if no white space, and what follows.
  unfoldable pub round : ℕ → ℕ → List ℕ → Result TokenError (Option (Tok F) × List ℕ)
  round position c rest =
      if is_whitespace c
      then ok (none, rest)
      else if c == 39
      then of_string (scan_string rest)
      else if is_digit c
      then number (c ∷ rest)
      else if begins_word c
      then (let (w, r) = span in_word (c ∷ rest) in ok (some (ident w), r))
      else if is_punctuation c
      then operator c rest
      else err (unexpected_character c position)

  abbrev pub push_token : Option (Tok F) → List (Tok F) → List (Tok F)
  push_token none toks = toks
  push_token (some t) toks = t ∷ toks

  -- The loop, on fuel, over what is left of an input of `total` bytes.
  unfoldable pub tokens : ℕ → ℕ → List ℕ → Result TokenError (List (Tok F))
  tokens zero total [] = ok []
  tokens zero total (c ∷ rest) = err out_of_fuel
  tokens (suc fuel) total [] = ok []
  tokens (suc fuel) total (c ∷ rest) = round (total - suc (length rest)) c rest >>= λ r.
      tokens fuel total r.1 >>= λ toks. ok (push_token r.0 toks)

  -- A round takes a byte at least.
  unfoldable pub tokenize : List ℕ → Result TokenError (List (Tok F))
  tokenize input = tokens (length input) (length input) input
