-- ===== src/Taql/Spelled.antt =====
-- The spelling of the tokens of crates/casacure/src/taql.rs: which characters a token has, by lists of
-- them, and that `tokenize` takes these characters for such.
use casacure.Prelude.{
  ℕ, ◌<◌, ◌^◌, ◌≡◌, refl, Bool, true, false, not, ◌&&◌, ◌||◌, ◌==◌, ==_iff, List, [], ◌∷◌, ◌++◌,
  Option, some, inl, inr, Bool-cases, subst,
}
use casacure.Bytes.{codes, bytes_eq, eq_of_bytes_eq}
use casacure.Aipsio.Reads.{All}
use casacure.Taql.{
  Tok, ident, int, float, str, op, is_digit, is_alphabetic, begins_word, in_word, is_punctuation,
  value_from, is_one_of, short_operators,
}
use casacure.Taql.Literals.{escaped}

abbrev pub AllOf : (ℕ → Bool) → List ℕ → Type 0
AllOf p w = All (λ c. p c ≡ true) w

unfoldable pub is_in : List ℕ → ℕ → Bool
is_in [] c = false
is_in (x ∷ xs) c = (x == c) || is_in xs c

unfoldable pub is_text_in : List (List ℕ) → List ℕ → Bool
is_text_in [] t = false
is_text_in (x ∷ xs) t = bytes_eq x t || is_text_in xs t

abbrev pub letters : List ℕ
letters = codes "ABCDEFGHIJKLMNOPQRSTUVWXYZabcdefghijklmnopqrstuvwxyz_$"

abbrev pub decimals : List ℕ
decimals = codes "0123456789"

-- What a word goes on with.
abbrev pub word_characters : List ℕ
word_characters = letters ++ (decimals ++ codes ".")

-- The punctuation of ASCII but the quote of strings and what begins a word; 34 is a double quote and
-- 92 a backslash.
abbrev pub marks : List ℕ
marks = 34 ∷ 92 ∷ codes "!#%&()*+,-./:;<=>?@[]^`{|}~"

-- The operators of two characters.
abbrev pub mark_pairs : List (List ℕ)
mark_pairs =
    codes "!="
    ∷ codes "!~"
    ∷ codes "&&"
    ∷ codes "<="
    ∷ codes "<>"
    ∷ codes "=="
    ∷ codes ">="
    ∷ codes "||"
    ∷ []

-- What may stand before the digits of an exponent.
pub data Sign : List ℕ → Type 0 where
  unsigned : Sign []
  signed : (s : ℕ) → ((s == 43) || (s == 45)) ≡ true → Sign (s ∷ [])

-- The digits behind a point, and whether there are any.
pub data Fraction : Bool → List ℕ → Type 0 where
  no_fraction : Fraction false []
  fraction : (w : List ℕ) → AllOf (is_in decimals) w → Fraction true (46 ∷ w)

pub data Exponent : Bool → List ℕ → Type 0 where
  no_exponent : Exponent false []
  exponent :
      (e : ℕ) (sign : List ℕ) (d : ℕ) (w : List ℕ)
      → ((e == 101) || (e == 69)) ≡ true
      → Sign sign
      → is_in decimals d ≡ true
      → AllOf (is_in decimals) w
      → Exponent true (e ∷ (sign ++ (d ∷ w)))

pub data Spelled {F : Type 0} (parse_f64 : List ℕ → Option F) : List ℕ → Tok F → Type 0 where
  word :
      (c : ℕ) (w : List ℕ)
      → is_in letters c ≡ true
      → AllOf (is_in word_characters) w
      → Spelled parse_f64 (c ∷ w) (ident (c ∷ w))
  digits :
      (c : ℕ) (w : List ℕ)
      → is_in decimals c ≡ true
      → AllOf (is_in decimals) w
      → value_from 0 (c ∷ w) < 2 ^ 63
      → Spelled parse_f64 (c ∷ w) (int (value_from 0 (c ∷ w)))
  decimal :
      (c : ℕ) (w x y : List ℕ) (b b' : Bool) (f : F)
      → is_in decimals c ≡ true
      → AllOf (is_in decimals) w
      → Fraction b x
      → Exponent b' y
      → (b || b') ≡ true
      → parse_f64 (c ∷ (w ++ (x ++ y))) ≡ some f
      → Spelled parse_f64 (c ∷ (w ++ (x ++ y))) (float f)
  text : (s : List ℕ) → All (λ c. c < 128) s → Spelled parse_f64 (39 ∷ escaped s) (str s)
  single : (c : ℕ) → is_in marks c ≡ true → Spelled parse_f64 (c ∷ []) (op (c ∷ []))
  double :
      (c d : ℕ)
      → is_text_in mark_pairs (c ∷ d ∷ []) ≡ true
      → Spelled parse_f64 (c ∷ d ∷ []) (op (c ∷ d ∷ []))
  triple : Spelled parse_f64 (codes "<=>") (op (codes "<=>"))

-- Punctuation that begins neither a string nor a word.
unfoldable pub is_operator : ℕ → Bool
is_operator c = is_punctuation c && not (c == 39) && not (begins_word c)

every : (ℕ → Bool) → List ℕ → Bool
every p [] = true
every p (x ∷ xs) = p x && every p xs

both : (a b : Bool) → (a && b) ≡ true → (a ≡ true) × (b ≡ true)
both true b h = (refl, h)
both false b h = cc

either : (a b : Bool) → (a || b) ≡ true → a ≡ false → b ≡ true
either true b h e = cc
either false b h e = h

is_in-every :
    (p : ℕ → Bool) (xs : List ℕ) (c : ℕ) → every p xs ≡ true → is_in xs c ≡ true → p c ≡ true
unfolding every is_in
is_in-every p [] c h e = cc
is_in-every p (x ∷ xs) c h e = elim (Bool-cases (x == c)) [
  | inl t ↦ rw ((==_iff x c).0 t) at (both (p x) (every p xs) h).0
  | inr t ↦ is_in-every p xs c (both (p x) (every p xs) h).1 (either (x == c) (is_in xs c) e t)
]

pub digit-is : (c : ℕ) → is_in decimals c ≡ true → is_digit c ≡ true
unfolding every is_digit
digit-is c h = is_in-every is_digit decimals c refl h

pub begins-is : (c : ℕ) → is_in letters c ≡ true → begins_word c ≡ true
unfolding every begins_word is_alphabetic
begins-is c h = is_in-every begins_word letters c refl h

word-is : (c : ℕ) → is_in word_characters c ≡ true → in_word c ≡ true
unfolding every in_word begins_word is_alphabetic is_digit
word-is c h = is_in-every in_word word_characters c refl h

pub mark-is : (c : ℕ) → is_in marks c ≡ true → is_operator c ≡ true
unfolding every is_operator is_punctuation begins_word is_alphabetic
mark-is c h = is_in-every is_operator marks c refl h

AllOf-is :
    (p q : ℕ → Bool) (w : List ℕ) → ((c : ℕ) → p c ≡ true → q c ≡ true) → AllOf p w → AllOf q w
AllOf-is p q [] f h = tt
AllOf-is p q (c ∷ w) f (h, hs) = (f c h, AllOf-is p q w f hs)

pub AllOf-digits : (w : List ℕ) → AllOf (is_in decimals) w → AllOf is_digit w
AllOf-digits w h = AllOf-is _ _ w digit-is h

pub AllOf-words : (w : List ℕ) → AllOf (is_in word_characters) w → AllOf in_word w
AllOf-words w h = AllOf-is _ _ w word-is h

-- What holds of a pair that is an operator.
Pair : List ℕ → Type 0
Pair [] = ⊥
Pair (c ∷ t) = (is_operator c ≡ true) × (is_one_of short_operators (c ∷ t) ≡ true)

is_text_in-Pair : (ts : List (List ℕ)) (t : List ℕ) → All Pair ts → is_text_in ts t ≡ true → Pair t
unfolding is_text_in
is_text_in-Pair [] t h e = cc
is_text_in-Pair (x ∷ xs) t (h, hs) e = elim (Bool-cases (bytes_eq x t)) [
  | inl same ↦ subst Pair (eq_of_bytes_eq x t same) h
  | inr other ↦ is_text_in-Pair xs t hs (either (bytes_eq x t) (is_text_in xs t) e other)
]

pub pair-is :
    (c d : ℕ)
    → is_text_in mark_pairs (c ∷ d ∷ []) ≡ true
    → (is_operator c ≡ true) × (is_one_of short_operators (c ∷ d ∷ []) ≡ true)
unfolding Pair is_operator is_punctuation begins_word is_alphabetic is_one_of bytes_eq
pair-is c d h =
    let all : All Pair mark_pairs = (
      (refl, refl),
      (
        (refl, refl),
        (
          (refl, refl),
          ((refl, refl), ((refl, refl), ((refl, refl), ((refl, refl), ((refl, refl), tt))))),
        ),
      ),
    ) in
    is_text_in-Pair mark_pairs (c ∷ d ∷ []) all h
