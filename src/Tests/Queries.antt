-- ===== src/Tests/Queries.antt =====
-- The tokens of crates/casacure/src/taql.rs at concrete inputs.
use casacure.Prelude.{
  ℕ, ◌+◌, ◌≡◌, ◌≢◌, refl, true, false, if◌then◌else◌, List, [], ◌∷◌, Option, none, some, arith,
}
use casacure.Result.{ok, err}
use casacure.Bytes.{codes, bytes_eq}
use casacure.Taql
use casacure.Taql.{
  panicked, out_of_fuel, Tok, ident, int, float, str, op, operator, tokens, tokenize,
}
use casacure.Taql.Progress.{tokens-enough}
use casacure.Taql.Literals.{escaped, characters, tokenize-literal}
use casacure.Taql.Spelled.{
  is_in, is_text_in, no_fraction, fraction, no_exponent, exponent, signed, word, digits, decimal,
  text, single, double, triple,
}
use casacure.Taql.Query.{spaced, AllSpelled, tokenize-spaced, operator-negated}

-- A reader that knows two numbers.
abbrev few_floats : List ℕ → Option ℕ
few_floats s =
    if bytes_eq s (codes "1.5")
    then some 15
    else if bytes_eq s (codes "2e-7")
    then some 27
    else none

tokens-enough_example :
    (tokenize few_floats (codes "a <1.") ≢ err out_of_fuel)
    × (tokens few_floats (5 + 3) 5 (codes "a <1.") ≡ tokenize few_floats (codes "a <1."))
tokens-enough_example = tokens-enough few_floats 3 (codes "a <1.")

-- The bytes of a letter with an accent, and a quote.
tokenize-literal_example :
    tokenize few_floats (39 ∷ 195 ∷ 169 ∷ 39 ∷ 39 ∷ 39 ∷ [])
    ≡ ok (str (195 ∷ 131 ∷ 194 ∷ 169 ∷ 39 ∷ []) ∷ [])
unfolding escaped characters Taql.push
tokenize-literal_example = tokenize-literal few_floats (195 ∷ 169 ∷ 39 ∷ [])

abbrev texts : List (List ℕ)
texts =
    codes "ANTENNA1"
    ∷ codes "<="
    ∷ codes "12"
    ∷ codes ","
    ∷ codes "1.5"
    ∷ codes "<=>"
    ∷ codes "2e-7"
    ∷ codes "'it''s'"
    ∷ []

abbrev toks : List (Tok ℕ)
toks =
    ident (codes "ANTENNA1")
    ∷ op (codes "<=")
    ∷ int 12
    ∷ op (codes ",")
    ∷ float 15
    ∷ op (codes "<=>")
    ∷ float 27
    ∷ str (codes "it's")
    ∷ []

spelled : AllSpelled few_floats texts toks
unfolding Taql.value_from is_in is_text_in bytes_eq escaped
spelled = (
  word 65 (codes "NTENNA1") refl (refl, (refl, (refl, (refl, (refl, (refl, (refl, tt))))))),
  (
    double 60 61 refl,
    (
      digits 49 (50 ∷ []) refl (refl, tt) (omega arith),
      (
        single 44 refl,
        (
          decimal 49 [] (46 ∷ 53 ∷ []) [] true false 15 refl tt (fraction (53 ∷ []) (refl, tt))
              no_exponent refl refl,
          (
            triple,
            (
              decimal 50 [] [] (codes "e-7") false true 27 refl tt no_fraction
                  (exponent 101 (45 ∷ []) 55 [] refl (signed 45 refl) refl tt) refl refl,
              (
                text (codes "it's") (omega arith, (omega arith, (omega arith, (omega arith, tt)))),
                tt,
              ),
            ),
          ),
        ),
      ),
    ),
  ),
)

tokenize-spaced_example :
    tokenize few_floats (codes "ANTENNA1 <= 12 , 1.5 <=> 2e-7 'it''s' ") ≡ ok toks
unfolding spaced
tokenize-spaced_example = tokenize-spaced few_floats texts toks spelled (omega arith)

operator-negated_example :
    operator few_floats 33 (codes "< 3") ≡ ok (some (op (codes "!")), codes "< 3")
operator-negated_example = operator-negated few_floats 60 32 (51 ∷ []) refl (omega arith)

-- A letter with an accent behind a plus sign.
cut_inside : tokenize few_floats (43 ∷ 195 ∷ 169 ∷ []) ≡ err panicked
unfolding tokenize tokens Taql.round Taql.is_whitespace Taql.is_digit Taql.begins_word
    Taql.is_alphabetic Taql.is_punctuation operator Taql.cuts Taql.is_one_of bytes_eq
cut_inside = refl
